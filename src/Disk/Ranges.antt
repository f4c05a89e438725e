-- ===== src/Disk/Ranges.antt =====
-- The operations of the disk manager on a torrent that is open: every range of a piece is cut into
-- slices that lie in the files.
use torrent_peer.Prelude.{
  ℕ, suc, ◌+◌, ◌-◌, ◌*◌, ◌%◌, ◌^◌, ◌≤◌, ◌<◌, ◌≡◌, ap, ◌∙◌, inl, inr, Bool, true, false, List, [],
  ◌∷◌, ltb, leb, ◌==◌, arith, length, drop, Result, ok, ◌>>◌, throw_if, Bool-cases, dec_lt,
  Exception,
}
use torrent_peer.Torrent.{u64_mod, TorrentFile, to_u64, piece_size}
use torrent_peer.Torrent.Layout.{IsTiled, start-lt-total, piece_size-eq-min}
use torrent_peer.Types.{CompletedPiece}
use torrent_peer.Metainfo.{FilePath}
use torrent_peer.Disk.{
  DiskManager, Slice, place_files, locate, for_each_slice, write_piece, read_block,
}
use torrent_peer.Disk.Slices.{IsLaid, Tiles, upper_bound-Lands, loop-Tiles, Lands-Ready}

-- The state that the constructor leaves: the files are laid over the total.
pub record IsOpen (d : DiskManager) : Type 0 where
  pub laid : IsLaid 0 d.files d.total_length
  pub tiled : IsTiled d.torrent
  pub same_total : d.total_length ≡ d.torrent.total_length
  pub same_length : d.piece_length ≡ to_u64 d.torrent.piece_length
  pub same_count : d.piece_count ≡ length d.torrent.pieces

-- A range inside the torrent is cut into slices: they follow one another from its first byte to its
-- last, none is empty, and each stands in its file at the bytes of the torrent that it is.
pub for_each_slice-Tiles :
    (d : DiskManager) (v : IsOpen d) (global_offset len : ℕ)
    → global_offset + len ≤ d.total_length
    → (ss : List Slice) × (for_each_slice d global_offset len ≡ ok ss)
      × Tiles global_offset len 0 ss
unfolding for_each_slice locate Tiles
for_each_slice-Tiles d v g len inside =
    let small : d.total_length < 2 ^ 63 = omega (arith, v.same_total, v.tiled.fits) in
    elim (Bool-cases (len == 0)) [
      | inl e ↦ ([], ground (arith, e), ground (arith, e))
      | inr e ↦
          let (k, c, at_k, laid, lands) =
            upper_bound-Lands 0 d.files d.total_length g v.laid (omega arith)
              (ground (arith, e, inside)) in
          let (ss, run, tiles) =
            loop-Tiles c (drop k d.files) d.total_length g len 0 small laid inside (omega arith)
              (Lands-Ready c (drop k d.files) g len lands) in
          let found : suc k - 1 ≡ k = omega arith in
          (ss, ground (arith, e, at_k, run, found, inside, small), tiles)
    ]

-- A test that passes.
guarded :
    {b : Bool} (e : Exception) {r : Result (List Slice)} {ss : List Slice}
    → b ≡ false
    → r ≡ ok ss
    → (throw_if b e >> r) ≡ ok ss
guarded {b = true} e h k = absurd (cc)
guarded {b = false} e h k = k

no_wrap : (n : ℕ) → n < 2 ^ 63 → n % u64_mod ≡ n
no_wrap n h = omega (arith, h)

piece_inside :
    (t : TorrentFile)
    → IsTiled t
    → (i : ℕ) → i < length t.pieces
    → i * to_u64 t.piece_length + piece_size t i ≤ t.total_length
piece_inside t v i h = omega (arith, start-lt-total t v i h, piece_size-eq-min t v i h)

-- With the files laid over the total and a tiled torrent, a piece of the right size and a number
-- in range is written: its slices follow one another from the first byte of the piece to its
-- last, none is empty, and each lies in its file at its place in the torrent.
pub write_piece-Tiles :
    (d : DiskManager) (v : IsOpen d) (piece : CompletedPiece)
    → piece.index < length d.torrent.pieces
    → length piece.payload ≡ piece_size d.torrent piece.index
    → (ss : List Slice) × (write_piece d piece ≡ ok ss)
      × Tiles (piece.index * to_u64 d.torrent.piece_length) (length piece.payload) 0 ss
unfolding write_piece
write_piece-Tiles d v piece h size =
    let start = piece.index * to_u64 d.torrent.piece_length in
    let inside = piece_inside d.torrent v.tiled piece.index h in
    let at : piece.index * d.piece_length % u64_mod ≡ start =
      ap (λ k. piece.index * k % u64_mod) v.same_length
      ∙ no_wrap start (omega (arith, inside, v.tiled.fits)) in
    let (ss, run, tiles) =
      for_each_slice-Tiles d v start (length piece.payload)
        (omega (arith, inside, size, v.same_total)) in
    let in_count : leb d.piece_count piece.index ≡ false = ground (arith, h, v.same_count) in
    (ss, guarded _ in_count (ap (λ k. for_each_slice d k (length piece.payload)) at ∙ run), tiles)

-- With the files laid over the total and a tiled torrent, a range inside a piece in range is
-- read: its slices follow one another over the range, none is empty, and each lies in its file at
-- its place in the torrent.
pub read_block-Tiles :
    (d : DiskManager) (v : IsOpen d) (piece_index offset n : ℕ)
    → piece_index < length d.torrent.pieces
    → offset + n ≤ piece_size d.torrent piece_index
    → (ss : List Slice) × (read_block d piece_index offset n ≡ ok ss)
      × Tiles (piece_index * to_u64 d.torrent.piece_length + offset) n 0 ss
unfolding read_block
read_block-Tiles d v piece_index offset n h fits =
    let start = piece_index * to_u64 d.torrent.piece_length + offset in
    let inside = piece_inside d.torrent v.tiled piece_index h in
    let at : (piece_index * d.piece_length + offset) % u64_mod ≡ start =
      ap (λ k. (piece_index * k + offset) % u64_mod) v.same_length
      ∙ no_wrap start (omega (arith, inside, fits, v.tiled.fits)) in
    let (ss, run, tiles) =
      for_each_slice-Tiles d v start n (omega (arith, inside, fits, v.same_total)) in
    let in_count : leb d.piece_count piece_index ≡ false = ground (arith, h, v.same_count) in
    let in_piece : ltb (piece_size d.torrent piece_index) ((offset + n) % u64_mod) ≡ false =
      ground (arith, fits, inside, v.tiled.fits) in
    (ss, guarded _ in_count (guarded _ in_piece (ap (λ k. for_each_slice d k n) at ∙ run)), tiles)

-- The bytes of a layout.
abbrev pub total_of : List (FilePath × ℕ) → ℕ
total_of [] = 0
total_of ((path, n) ∷ rest) = n + total_of rest

place_files-IsLaid :
    (cursor : ℕ) (layout : List (FilePath × ℕ))
    → cursor + total_of layout < u64_mod
    → IsLaid cursor (place_files cursor layout).0 (cursor + total_of layout)
      × ((place_files cursor layout).1 ≡ cursor + total_of layout)
unfolding place_files IsLaid
place_files-IsLaid cursor [] h = (omega arith, omega arith)
place_files-IsLaid cursor ((path, n) ∷ rest) h =
    let wrap : (cursor + n) % u64_mod ≡ cursor + n = omega (arith, h) in
    let (laid, ends) = place_files-IsLaid (cursor + n) rest (omega (arith, h)) in
    let sum : cursor + n + total_of rest ≡ cursor + (n + total_of rest) = omega arith in
    elim (dec_lt 0 n) [
      | yes some_ ↦ ground (arith, wrap, laid, ends, sum, some_)
      | no none_ ↦ ground (arith, wrap, laid, ends, sum, none_)
    ]
