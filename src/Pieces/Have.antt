-- ===== src/Pieces/Have.antt =====
-- The accounting of PieceManager: the pieces it has, their number and their bytes (`mark_have`).
use torrent_peer.Prelude.{
  ℕ, zero, suc, ◌+◌, ◌%◌, ◌≤◌, ◌<◌, ◌≡◌, refl, sym, ap, ◌∙◌, subst, true, false, ◌||◌, ◌↔◌, arith,
  ◌==◌, if◌then◌else◌, length, ℕ_discrete, ok,
}
use torrent_peer.Prelude.Loops.{sum_below, sum_below-update, sum_below_mono}
use torrent_peer.Torrent.{TorrentFile, piece_size, u64_mod}
use torrent_peer.Torrent.Layout.{IsTiled, sum-piece_size}
use torrent_peer.Bitfield.{Bitfield, set_bit, u32_mod}
use torrent_peer.Bitfield
use torrent_peer.Bitfield.Laws.{IsValid, get-set_bit, set_bit-IsValid, set_bit_total}
use torrent_peer.Pieces.{PieceManager, mark_have, bytes_left, is_complete}

-- What a weight sums to over the pieces that a field marks.
abbrev pub marked : ℕ → (ℕ → ℕ) → Bitfield → ℕ
marked n w bf = sum_below n (λ i. if Bitfield.get bf i then w i else 0)

marked-set :
    (n k : ℕ) (w : ℕ → ℕ) (b c : Bitfield)
    → k < n
    → Bitfield.get b k ≡ false
    → ((j : ℕ) → Bitfield.get c j ≡ (k == j || Bitfield.get b j))
    → marked n w c ≡ marked n w b + w k
marked-set n k w b c lt new h =
    sum_below-update n k _ _ (w k) lt (ground (arith, h k)) (λ i _ ne. ground (arith, h i, ne))

-- The counters agree with the field of pieces.
pub record IsCounted (t : TorrentFile) (m : PieceManager) : Type 0 where
  pub total : m.piece_count ≡ length t.pieces
  pub sized : m.have_.bits ≡ m.piece_count
  pub field_valid : IsValid m.have_
  pub counted : m.have_count ≡ marked m.piece_count (λ i. 1) m.have_
  pub weighed : m.have_bytes ≡ marked m.piece_count (piece_size t) m.have_

marked_le : (n : ℕ) (w : ℕ → ℕ) (b : Bitfield) → marked n w b ≤ sum_below n w
marked_le n w b = sum_below_mono n _ _ (λ i _. ground arith)

sum_ones : (n : ℕ) → sum_below n (λ i. 1) ≡ n
unfolding sum_below
sum_ones zero = refl
sum_ones (suc n) = omega (arith, sum_ones n)

marked_split :
    (n : ℕ) (w : ℕ → ℕ) (b : Bitfield)
    → marked n w b + sum_below n (λ i. if Bitfield.get b i then 0 else w i) ≡ sum_below n w
unfolding sum_below
marked_split zero w b = refl
marked_split (suc n) w b = ground (arith, marked_split n w b)

marked_full :
    (n : ℕ) (b : Bitfield) → ((i : ℕ) → i < n → Bitfield.get b i ≡ true) → marked n (λ i. 1) b ≡ n
unfolding sum_below
marked_full zero b h = refl
marked_full (suc n) b h =
    ground (arith, marked_full n b (λ i lt. h i (omega arith)), h n (omega arith))

full_marked :
    (n : ℕ) (b : Bitfield) → marked n (λ i. 1) b ≡ n → (i : ℕ) → i < n → Bitfield.get b i ≡ true
unfolding sum_below
full_marked zero b h i lt = absurd (omega arith)
full_marked (suc n) b h i lt = elim (ℕ_discrete i n) [
  | yes e ↦
      subst (λ k. Bitfield.get b k ≡ true) (sym e)
        (ground (arith, marked_le n (λ i. 1) b, sum_ones n))
  | no e ↦ full_marked n b (ground (arith, marked_le n (λ i. 1) b, sum_ones n)) i (omega (arith, e))
]

module _ (t : TorrentFile) (v : IsTiled t) where
  weighed_total : (b : Bitfield) → marked (length t.pieces) (piece_size t) b ≤ t.total_length
  weighed_total b = omega (arith, marked_le (length t.pieces) (piece_size t) b, sum-piece_size t v)

  -- The manager after `mark_have`, where the field becomes `bf`.
  abbrev marked_with : PieceManager → ℕ → Bitfield → PieceManager
  marked_with m k bf = record m {
    have_ = bf;
    have_count = (m.have_count + 1) % u32_mod;
    have_bytes = (m.have_bytes + piece_size t k) % u64_mod;
  }

  marked_with-IsCounted :
      (m : PieceManager) (k : ℕ) (bf : Bitfield)
      → IsCounted t m
      → k < m.piece_count
      → Bitfield.get m.have_ k ≡ false
      → set_bit m.have_ k ≡ ok bf
      → IsCounted t (marked_with m k bf) × ((marked_with m k bf).have_count ≡ m.have_count + 1)
  marked_with-IsCounted m k bf c lt new e =
      let bits = λ (j : ℕ). get-set_bit m.have_ k j c.field_valid e in
      let (valid, same) = set_bit-IsValid m.have_ k c.field_valid e in
      let ones = marked-set m.piece_count k (λ i. 1) m.have_ bf lt new bits in
      let bytes = marked-set m.piece_count k (piece_size t) m.have_ bf lt new bits in
      let few = marked_le m.piece_count (λ i. 1) bf in
      let light =
        subst (λ n. marked n (piece_size t) bf ≤ t.total_length) (sym c.total) (weighed_total bf) in
      let counted : (m.have_count + 1) % u32_mod ≡ m.have_count + 1 =
        omega (arith, c, ones, few, sum_ones m.piece_count) in
      (
        record {
          total = c.total;
          sized = same ∙ c.sized;
          field_valid = valid;
          counted = omega (arith, counted, c.counted, ones);
          weighed = omega (arith, c.weighed, bytes, light, v.fits);
        },
        counted,
      )

  -- A new piece is counted once, with its size, and the field gains its bit alone.
  pub mark_have_total :
      (m : PieceManager) (k : ℕ)
      → IsCounted t m
      → k < m.piece_count
      → Bitfield.get m.have_ k ≡ false
      → (m' : PieceManager) × (mark_have t m k ≡ ok m')
        × IsCounted t m'
        × ((j : ℕ) → Bitfield.get m'.have_ j ≡ (k == j || Bitfield.get m.have_ j))
        × (m'.active ≡ m.active)
        × (m'.piece_count ≡ m.piece_count)
        × (m'.have_count ≡ m.have_count + 1)
  unfolding mark_have
  mark_have_total m k c lt new =
      let (bf, e) = set_bit_total m.have_ k (omega (arith, c.sized)) in
      let (counted, up) = marked_with-IsCounted m k bf c lt new e in
      (
        marked_with m k bf,
        rw e,
        counted,
        (λ j. get-set_bit m.have_ k j c.field_valid e),
        refl,
        refl,
        up,
      )

  -- With the counts in order, bytes_left is the sum of the sizes of the pieces that are not
  -- had.
  pub bytes_left_lem :
      (m : PieceManager)
      → IsCounted t m
      → bytes_left t m
        ≡ sum_below m.piece_count (λ i. if Bitfield.get m.have_ i then 0 else piece_size t i)
  unfolding bytes_left
  bytes_left_lem m c =
      let split = marked_split m.piece_count (piece_size t) m.have_ in
      let all = ap (λ n. sum_below n (piece_size t)) c.total in
      omega (arith, split, all, c.weighed, sum-piece_size t v, v.fits)

  -- With the counts in order, is_complete holds just when every piece is had.
  pub is_complete_iff :
      (m : PieceManager)
      → IsCounted t m
      → (is_complete m ≡ true) ↔ ((i : ℕ) → i < m.piece_count → Bitfield.get m.have_ i ≡ true)
  unfolding is_complete
  is_complete_iff m c = (
    (λ h. full_marked m.piece_count m.have_ (ground (arith, h, c.counted))),
    (λ h. ground (arith, marked_full m.piece_count m.have_ h, c.counted)),
  )
