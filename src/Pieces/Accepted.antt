-- ===== src/Pieces/Accepted.antt =====
-- The blocks that `on_block` takes, and the piece when such a block is stored in it.
use torrent_peer.Prelude.{
  ℕ, ◌+◌, ◌/◌, ◌%◌, ◌≤◌, ◌<◌, ◌≡◌, sym, ◌∙◌, false, ◌||◌, ◌++◌, map, some, arith, ◌==◌, length,
  length-append, length-take, length-drop, get_or, set, take, drop, length-set, length-map,
}
use torrent_peer.Prelude.Map.{Entries, Entries-find, Entries-erase_ne, find, erase}
use torrent_peer.Torrent.{Bytes, TorrentFile}
use torrent_peer.Torrent.Layout.{IsTiled}
use torrent_peer.Bitfield.{Bitfield, u32_mod}
use torrent_peer.Bitfield
use torrent_peer.Types.{block_size, Block}
use torrent_peer.Pieces.Blocks.{
  received_count, received_count-set, received_count-missing, Received, received_count_full,
  received_count_short,
}
use torrent_peer.Pieces.Invariant.{PieceOk, ActiveOk, Inv}
use torrent_peer.Pieces.{missing, received, PartialPiece, PieceManager, is_received, splice}

-- The piece after the block is stored in it.
abbrev pub stored : PartialPiece → Block → PartialPiece
stored pp block = record pp {
  payload = splice pp.payload block.offset block.payload;
  states = set pp.states (block.offset / block_size) received;
  received = pp.received + 1;
}

-- The piece after its hash check failed: its bytes stay, and each block is to be asked for again.
abbrev pub reset : PartialPiece → PartialPiece
reset pp = record pp { states = map (λ _. missing) pp.states; received = 0 }

-- A block that the code takes: of an active piece, aligned, inside the piece, and not had yet.
pub record Accepted (m : PieceManager) (block : Block) (pp : PartialPiece) : Type 0 where
  pub active : find m.active block.piece_index ≡ some pp
  pub aligned : block.offset % block_size ≡ 0
  pub known : block.offset / block_size < length pp.states
  pub inside : block.offset + length block.payload ≤ length pp.payload
  pub new : is_received (get_or pp.states (block.offset / block_size) received) ≡ false

-- With the block stored, each block of the piece is received.
abbrev pub AllReceived : PartialPiece → Block → Type 0
AllReceived pp block = (k : ℕ) → k < length pp.states → Received (stored pp block).states k

-- With the block stored, a block of the piece is not received yet.
abbrev pub StillMissing : PartialPiece → Block → Type 0
StillMissing pp block = (k : ℕ) × (k < length pp.states) × ¬ Received (stored pp block).states k

pub length-splice :
    (p : Bytes) (o : ℕ) (s : Bytes) → o + length s ≤ length p → length (splice p o s) ≡ length p
unfolding splice
length-splice p o s h = omega (
  arith,
  length-append (take o p ++ s) (drop (o + length s) p),
  length-append (take o p) s,
  length-take o p,
  length-drop (o + length s) p,
)

module _ (t : TorrentFile) (v : IsTiled t) (m : PieceManager) (inv : Inv t m) (block : Block) where
  -- The piece that an accepted block belongs to is well formed.
  pub Accepted-ActiveOk :
      (pp : PartialPiece) → Accepted m block pp → ActiveOk t m.have_ block.piece_index pp
  Accepted-ActiveOk pp a =
      Entries-find (ActiveOk t m.have_) m.active block.piece_index inv.actives a.active

  -- Storing an accepted block adds one to the count of received blocks.
  stored_count :
      (pp : PartialPiece)
      → Accepted m block pp
      → received_count (stored pp block).states ≡ pp.received + 1
  stored_count pp a =
      let o = (Accepted-ActiveOk pp a).piece in
      ground (
        arith,
        received_count-set pp.states (block.offset / block_size) received a.known,
        a.new,
        o.counted,
      )

  pub stored-StillMissing :
      (pp : PartialPiece)
      → Accepted m block pp
      → pp.received + 1 < length pp.states
      → StillMissing pp block
  stored-StillMissing pp a more =
      let same = length-set pp.states (block.offset / block_size) received in
      let (k, lt, n) =
        received_count_short (stored pp block).states
          (omega (arith, stored_count pp a, same, more)) in
      (k, omega (arith, lt, same), n)

  pub stored-AllReceived :
      (pp : PartialPiece)
      → Accepted m block pp
      → length pp.states ≤ pp.received + 1
      → AllReceived pp block
  stored-AllReceived pp a full k lt =
      let same = length-set pp.states (block.offset / block_size) received in
      received_count_full (stored pp block).states (omega (arith, stored_count pp a, same, full)) k
        (omega (arith, lt, same))

  -- It stays so with the block stored, as long as a block is still to come.
  pub stored-PieceOk :
      (pp : PartialPiece)
      → Accepted m block pp
      → pp.received + 1 < length pp.states
      → PieceOk t block.piece_index (stored pp block)
  stored-PieceOk pp a more =
      let o = (Accepted-ActiveOk pp a).piece in
      let b = block.offset / block_size in
      record {
        in_range = o.in_range;
        filled = length-splice pp.payload block.offset block.payload a.inside ∙ o.filled;
        blocks = length-set pp.states b received ∙ o.blocks;
        counted = sym (stored_count pp a);
        unfinished = omega (arith, length-set pp.states b received, more);
      }

  pub reset-PieceOk :
      (pp : PartialPiece)
      → Accepted m block pp
      → PieceOk t block.piece_index (reset (stored pp block))
  reset-PieceOk pp a =
      let o = (Accepted-ActiveOk pp a).piece in
      let ss = set pp.states (block.offset / block_size) received in
      let same =
        length-map ss (λ _. missing) ∙ length-set pp.states (block.offset / block_size) received in
      record {
        in_range = o.in_range;
        filled = length-splice pp.payload block.offset block.payload a.inside ∙ o.filled;
        blocks = same ∙ o.blocks;
        counted = sym (received_count-missing ss);
        unfinished = omega (arith, same, o.unfinished);
      }

  -- The other active pieces stay wanted when this one is had.
  pub others-ActiveOk :
      (m' : PieceManager)
      → ((j : ℕ) → Bitfield.get m'.have_ j ≡ (block.piece_index == j || Bitfield.get m.have_ j))
      → Entries (ActiveOk t m'.have_) (erase m.active block.piece_index)
  others-ActiveOk m' bits =
      Entries-erase_ne (ActiveOk t m.have_) (ActiveOk t m'.have_) m.active block.piece_index
        (λ j pp ne a. record { wanted = bits j ∙ ground (arith, ne, a.wanted); piece = a.piece })
        inv.actives
