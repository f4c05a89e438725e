-- ===== src/Bans.antt =====
-- src/runtime/managers/ban_manager.hpp and ban_manager.cpp.
-- A method that returns hosts to ban returns them with the new state.
mod Attempts
mod Senders
mod Tests
pub mod Verdicts
use torrent_peer.Prelude.{
  ℕ, zero, suc, ◌+◌, ◌-◌, ◌*◌, ◌/◌, ◌%◌, ◌^◌, Bool, true, false, not, ◌&&◌, ◌||◌, min, List, [],
  ◌∷◌, ◌++◌, Option, none, some, ltb, leb, ◌==◌, if◌then◌else◌, length, get_or, set, replicate,
  take, drop, same_bytes,
}
use torrent_peer.Prelude.Map.{Map, find, contains, assign, emplace, erase}
use torrent_peer.Torrent.{Bytes, u64_mod}
use torrent_peer.Types.{block_size, Block, CompletedPiece}

pub record Evidence : Type 0 where
  pub payload : Bytes
  pub senders : List ℕ

pub record BanManager : Type 0 where
  pub hosts : Map Bytes
  pub senders : Map (List ℕ)
  pub evidence : Map Evidence
  pub retry_owner : Map ℕ

abbrev pub empty : BanManager
empty = record { hosts = []; senders = []; evidence = []; retry_owner = [] }

unfoldable pub on_join : BanManager → ℕ → Bytes → BanManager
on_join m peer_id host = record m { hosts = assign m.hosts peer_id host }

-- `m[k]`, which makes an empty vector where there is none.
unfoldable pub slots : Map (List ℕ) → ℕ → List ℕ
slots m k = elim (find m k) [ none ↦ [] | some xs ↦ xs ]

-- `if (b >= senders.size()) senders.resize(b + 1); senders[b] = peer_id;`
unfoldable pub record_sender : List ℕ → ℕ → ℕ → List ℕ
record_sender xs b peer_id =
    set (if leb (length xs) b then xs ++ replicate (b + 1 - length xs) 0 else xs) b peer_id

unfoldable pub on_block : BanManager → ℕ → Block → BanManager
on_block m peer_id block = record m {
  senders =
      assign m.senders block.piece_index
        (record_sender (slots m.senders block.piece_index) (block.offset / block_size) peer_id);
}

-- `ranges::all_of(senders, id == first)`
unfoldable pub all_same : ℕ → List ℕ → Bool
all_same first [] = true
all_same first (x ∷ xs) = x == first && all_same first xs

-- The hosts of one peer id, if it is known.
unfoldable pub host_of : BanManager → ℕ → List Bytes
host_of m id = elim (find m.hosts id) [ none ↦ [] | some h ↦ h ∷ [] ]

-- The verdict on a failed piece whose senders are `first ∷ rest`; `m` has forgotten them already.
unfoldable pub blame : BanManager → CompletedPiece → ℕ → List ℕ → List Bytes × BanManager
blame m piece first rest = if all_same first (first ∷ rest) then (host_of m first, m) else (
  [],
  record m {
    evidence =
        emplace m.evidence piece.index (record { payload = piece.payload; senders = first ∷ rest });
  },
)

unfoldable pub on_piece_failed : BanManager → CompletedPiece → List Bytes × BanManager
on_piece_failed m piece =
    let over = record m { retry_owner = erase m.retry_owner piece.index } in
    elim (slots m.senders piece.index) [
      | [] ↦ ([], over)
      | first ∷ rest ↦
          blame (record over { senders = erase m.senders piece.index }) piece first rest
    ]

-- Block `b` of the evidence against the good piece, by `memcmp`; the length is a `size_t`.
unfoldable pub block_matches : Evidence → CompletedPiece → ℕ → Bool
block_matches ev piece b =
    let offset = b * block_size in
    let n = min block_size ((length piece.payload + u64_mod - offset) % u64_mod) in
    same_bytes (take n (drop offset ev.payload)) (take n (drop offset piece.payload))

-- `ranges::find(bans, host) != bans.end()`
unfoldable pub has_host : Bytes → List Bytes → Bool
has_host h [] = false
has_host h (g ∷ gs) = if same_bytes g h then true else has_host h gs

-- One round: the sender of a block that does not match joins the bans, once.
unfoldable pub accuse : BanManager → Evidence → CompletedPiece → ℕ → ℕ → List Bytes → List Bytes
accuse m ev piece b sender bans =
    if block_matches ev piece b then bans else elim (find m.hosts sender) [
      | none ↦ bans
      | some h ↦ if has_host h bans then bans else bans ++ h ∷ []
    ]

-- The loop over the senders from block `b` on.
unfoldable pub compare_blocks :
    BanManager → Evidence → CompletedPiece → ℕ → List ℕ → List Bytes → List Bytes
compare_blocks m ev piece b [] bans = bans
compare_blocks m ev piece b (s ∷ ss) bans =
    compare_blocks m ev piece (b + 1) ss (accuse m ev piece b s bans)

unfoldable pub on_piece_verified : BanManager → CompletedPiece → List Bytes × BanManager
on_piece_verified m piece =
    let over = record m {
      senders = erase m.senders piece.index;
      retry_owner = erase m.retry_owner piece.index;
    } in
    elim (find m.evidence piece.index) [
      | none ↦ ([], over)
      | some ev ↦ (
        compare_blocks m ev piece 0 ev.senders [],
        record over { evidence = erase m.evidence piece.index },
      )
    ]

unfoldable pub set_retry_owner : BanManager → ℕ → ℕ → BanManager
set_retry_owner m index peer_id = record m { retry_owner = assign m.retry_owner index peer_id }

-- The loop of `release_retries`: the pieces that the peer was retrying, and the other entries.
unfoldable pub take_retries : ℕ → Map ℕ → List ℕ × Map ℕ
take_retries peer_id [] = ([], [])
take_retries peer_id ((i, o) ∷ m) =
    let (gone, kept) = take_retries peer_id m in
    if o == peer_id then (i ∷ gone, kept) else (gone, (i, o) ∷ kept)

unfoldable pub release_retries : BanManager → ℕ → List ℕ × BanManager
release_retries m peer_id =
    let (gone, kept) = take_retries peer_id m.retry_owner in (gone, record m { retry_owner = kept })
