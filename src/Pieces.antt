-- ===== src/Pieces.antt =====
-- src/runtime/managers/piece_manager.hpp and piece_manager.cpp.
-- The torrent is an argument, as is `sha1`, which OpenSSL computes, and the number that `rng_` draws.
mod Tests
pub mod Have
pub mod Blocks
pub mod Pick
pub mod Invariant
pub mod Rarest
pub mod Choice
pub mod Accepted
pub mod Filing
-- A method that writes returns the new state; `active_` is a list of entries in iteration order.
use torrent_peer.Prelude.{
  ℕ, zero, suc, ◌+◌, ◌-◌, ◌*◌, ◌/◌, ◌%◌, ◌^◌, ◌≤◌, ◌<◌, ◌≡◌, Bool, true, false, not, ◌&&◌, ◌||◌,
  min, List, [], ◌∷◌, ◌++◌, map, Option, none, some, ltb, leb, ◌==◌, if◌then◌else◌, length,
  get_elem?, get_or, set, replicate, take, drop, Result, ok, err, ◌>>=◌, same_bytes,
}
use torrent_peer.Prelude.Loops.{for_range}
use torrent_peer.Prelude.Map.{Map, find, contains, assign, emplace, erase}
use torrent_peer.Torrent.{Bytes, TorrentFile, piece_size, u64_mod}
use torrent_peer.Bitfield.{Bitfield, zeros, set_bit, u32_mod}
use torrent_peer.Bitfield
use torrent_peer.Types.{block_size, BlockRequest, Block, CompletedPiece}

pub data BlockStatus : Type 0 where
  incomplete rejected piece_verified piece_failed : BlockStatus

pub record BlockResult : Type 0 where
  pub status : BlockStatus
  pub piece : CompletedPiece

pub data BlockState : Type 0 where
  missing requested received : BlockState

pub record PartialPiece : Type 0 where
  pub payload : Bytes
  pub states : List BlockState
  pub received : ℕ
  pub owner : Option ℕ

pub record PieceManager : Type 0 where
  pub piece_count : ℕ
  pub have_ : Bitfield
  pub have_bytes : ℕ
  pub have_count : ℕ
  pub active : Map PartialPiece

-- The constructor.
unfoldable pub make : TorrentFile → PieceManager
make t = record {
  piece_count = length t.pieces % u32_mod;
  have_ = zeros (length t.pieces % u32_mod);
  have_bytes = 0;
  have_count = 0;
  active = [];
}

-- `states[b] == s`
abbrev pub is_missing : BlockState → Bool
is_missing missing = true
is_missing _ = false

abbrev pub is_requested : BlockState → Bool
is_requested requested = true
is_requested _ = false

abbrev pub is_received : BlockState → Bool
is_received received = true
is_received _ = false

-- The loop of `next_missing`: the first missing block, and the states with it requested.
unfoldable pub take_missing : ℕ → List BlockState → Option (ℕ × List BlockState)
take_missing b [] = none
take_missing b (s ∷ ss) = elim (is_missing s) [
  | true ↦ some (b, requested ∷ ss)
  | false ↦ elim (take_missing (b + 1) ss) [ none ↦ none | some (c, ts) ↦ some (c, s ∷ ts) ]
]

-- The request for block `b`: `uint32_t offset = b * kBlockSize`, and what is left of the piece.
unfoldable pub request_for : TorrentFile → ℕ → ℕ → BlockRequest
request_for t index b =
    let offset = b * block_size % u32_mod in
    record {
      piece_index = index;
      offset = offset;
      length = min block_size ((piece_size t index + u64_mod - offset) % u64_mod) % u32_mod;
    }

unfoldable pub next_missing : TorrentFile → ℕ → PartialPiece → Option (BlockRequest × PartialPiece)
next_missing t index pp = elim (take_missing 0 pp.states) [
  | none ↦ none
  | some (b, ss) ↦ some (request_for t index b, record pp { states = ss })
]

-- `!pp.owner || *pp.owner == tag`
unfoldable pub may_take : Option ℕ → ℕ → Bool
may_take none tag = true
may_take (some o) tag = o == tag

-- The first loop of `pick_block`: pieces in progress.
unfoldable pub pick_active :
    TorrentFile → Bitfield → ℕ → Map PartialPiece → Option (BlockRequest × Map PartialPiece)
pick_active t peer_has tag [] = none
pick_active t peer_has tag ((index, pp) ∷ rest) =
    let skip : Option (BlockRequest × Map PartialPiece) = elim (pick_active t peer_has tag rest) [
      | none ↦ none
      | some (r, rest') ↦ some (r, (index, pp) ∷ rest')
    ] in
    if not (Bitfield.get peer_has index)
    then skip
    else if not (may_take pp.owner tag)
    then skip
    else elim (next_missing t index pp) [
      | none ↦ skip
      | some (r, pp') ↦ some (r, (index, pp') ∷ rest)
    ]

-- `have_.get(i) || active_.contains(i) || !peer_has.get(i)`, negated.
unfoldable pub is_candidate : PieceManager → Bitfield → ℕ → Bool
is_candidate m peer_has i =
    not (Bitfield.get m.have_ i || contains m.active i || not (Bitfield.get peer_has i))

-- One round of the second loop, over the pair of `best` and `candidates`.
unfoldable pub consider : PieceManager → Bitfield → List ℕ → ℕ → ℕ × List ℕ → ℕ × List ℕ
consider m peer_has availability i (best, candidates) =
    let avail = get_or availability i 0 in
    if not (is_candidate m peer_has i)
    then (best, candidates)
    else if ltb avail best
    then (avail, i ∷ [])
    else if avail == best
    then (best, candidates ++ i ∷ [])
    else (best, candidates)

-- `candidates` after the second loop, which starts from the largest `uint16_t`.
unfoldable pub rarest : PieceManager → Bitfield → List ℕ → List ℕ
unfolding for_range
rarest m peer_has availability =
    (for_range m.piece_count 0 (consider m peer_has availability) (65535, [])).1

-- `activate`: the new piece and the map with it.
unfoldable pub fresh_piece : TorrentFile → ℕ → PartialPiece
fresh_piece t index =
    let len = piece_size t index in
    record {
      payload = replicate len 0;
      states = replicate ((len + block_size - 1) / block_size) missing;
      received = 0;
      owner = none;
    }

-- `next_missing(index, activate(index))`
unfoldable pub start_piece : TorrentFile → PieceManager → ℕ → Option BlockRequest × PieceManager
start_piece t m index = elim (next_missing t index (fresh_piece t index)) [
  | none ↦ (none, record m { active = emplace m.active index (fresh_piece t index) })
  | some (r, pp) ↦ (some r, record m { active = emplace m.active index pp })
]

-- `draw` is what `rng_()` returns.
unfoldable pub pick_block :
    TorrentFile → PieceManager → Bitfield → List ℕ → ℕ → ℕ → Option BlockRequest × PieceManager
pick_block t m peer_has availability tag draw = elim (pick_active t peer_has tag m.active) [
  | some (r, active) ↦ (some r, record m { active = active })
  | none ↦ elim (rarest m peer_has availability) [
    | [] ↦ (none, m)
    | c ∷ cs ↦ start_piece t m (get_or (c ∷ cs) (draw % length (c ∷ cs)) 0)
  ]
]

-- `memcpy(data + offset, src, size)`
unfoldable pub splice : Bytes → ℕ → Bytes → Bytes
splice payload offset src = take offset payload ++ src ++ drop (offset + length src) payload

unfoldable pub mark_have : TorrentFile → PieceManager → ℕ → Result PieceManager
mark_have t m index = do
  have_ ← set_bit m.have_ index
  ok (record m {
    have_ = have_;
    have_count = (m.have_count + 1) % u32_mod;
    have_bytes = (m.have_bytes + piece_size t index) % u64_mod;
  })

abbrev pub no_piece : CompletedPiece
no_piece = record { index = 0; payload = [] }

abbrev pub refused : PieceManager → Result (BlockResult × PieceManager)
refused m = ok (record { status = rejected; piece = no_piece }, m)

unfoldable pub set_owner : PieceManager → ℕ → Option ℕ → PieceManager
set_owner m index owner = elim (find m.active index) [
  | none ↦ m
  | some pp ↦ record m { active = assign m.active index (record pp { owner = owner }) }
]

unfoldable pub release_one : PieceManager → BlockRequest → PieceManager
release_one m req = elim (find m.active req.piece_index) [
  | none ↦ m
  | some pp ↦
      let b = req.offset / block_size in
      if leb (length pp.states) b
      then m
      else if is_requested (get_or pp.states b received)
      then record m {
        active = assign m.active req.piece_index (record pp { states = set pp.states b missing });
      }
      else m
]

unfoldable pub release : PieceManager → List BlockRequest → PieceManager
release m [] = m
release m (r ∷ rs) = release (release_one m r) rs

unfoldable pub is_complete : PieceManager → Bool
is_complete m = m.have_count == m.piece_count

-- `torrent_.total_length - have_bytes_`, in `uint64_t`.
unfoldable pub bytes_left : TorrentFile → PieceManager → ℕ
bytes_left t m = (t.total_length + u64_mod - m.have_bytes) % u64_mod

-- A piece that verified: it leaves the active pieces and is had, and its bytes are handed out.
unfoldable pub finish_piece :
    TorrentFile → PieceManager → ℕ → Bytes → Result (BlockResult × PieceManager)
finish_piece t m index payload = do
  m' ← mark_have t (record m { active = erase m.active index }) index
  ok (record { status = piece_verified; piece = record { index = index; payload = payload } }, m')

module _ (sha1 : Bytes → Bytes) where
  -- `expected.size() == 20 && memcmp(digest, expected, 20) == 0`; a digest has 20 bytes.
  unfoldable pub verify : TorrentFile → ℕ → Bytes → Bool
  verify t index payload =
      let expected = get_or t.pieces index [] in
      length expected == 20 && same_bytes (sha1 payload) expected

  -- A block of an active piece that passed the guards.
  unfoldable pub file_block :
      TorrentFile → PieceManager → Block → PartialPiece → Result (BlockResult × PieceManager)
  file_block t m block pp =
      let b = block.offset / block_size in
      let payload = splice pp.payload block.offset block.payload in
      let states = set pp.states b received in
      let got = (pp.received + 1) % u32_mod in
      let stored = record pp { payload = payload; states = states; received = got } in
      if ltb got (length states)
      then ok (
        record { status = incomplete; piece = no_piece },
        record m { active = assign m.active block.piece_index stored },
      )
      else if not (verify t block.piece_index payload)
      then ok (
        record {
          status = piece_failed;
          piece = record { index = block.piece_index; payload = payload };
        },
        record m {
          active =
              assign m.active block.piece_index
                (record stored { states = map (λ _. missing) states; received = 0 });
        },
      )
      else finish_piece t m block.piece_index payload

  -- The guards on an active piece.
  unfoldable pub check_block :
      TorrentFile → PieceManager → Block → PartialPiece → Result (BlockResult × PieceManager)
  check_block t m block pp =
      let b = block.offset / block_size in
      if not (block.offset % block_size == 0)
      then refused m
      else if leb (length pp.states) b
      then refused m
      else if ltb (length pp.payload) (block.offset + length block.payload)
      then refused m
      else if is_received (get_or pp.states b received)
      then refused m
      else file_block t m block pp

  unfoldable pub on_block : TorrentFile → PieceManager → Block → Result (BlockResult × PieceManager)
  on_block t m block =
      if leb m.piece_count block.piece_index
      then refused m
      else if Bitfield.get m.have_ block.piece_index
      then refused m
      else elim (find m.active block.piece_index) [
        | none ↦ refused m
        | some pp ↦ check_block t m block pp
      ]

  unfoldable pub recheck : TorrentFile → PieceManager → ℕ → Bytes → Result (Bool × PieceManager)
  recheck t m index payload =
      if not (verify t index payload)
      then ok (false, m)
      else (do m' ← mark_have t m index; ok (true, m'))
