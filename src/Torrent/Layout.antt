-- ===== src/Torrent/Layout.antt =====
-- How the pieces of a torrent tile its bytes: the sizes that `piece_size` of
-- src/metainfo/torrent.cpp gives are what is left of the torrent, cut at `piece_length`.
use torrent_peer.Prelude.{
  ℕ, zero, suc, ◌+◌, ◌-◌, ◌*◌, ◌%◌, ◌^◌, ◌≤◌, ◌<◌, ◌≡◌, ap, inl, inr, min, arith, length,
  ℕ_discrete, ==_iff, ◌⊎◌, ◌≢◌,
}
use torrent_peer.Prelude.Loops.{sum_below}
use torrent_peer.Torrent.{TorrentFile, to_u64, u64_mod, piece_size}

-- The layout that `parse_torrent` lets through, in linear form: `count` pieces of `piece_len` bytes
-- cover the total, and one fewer do not.
pub record IsTiled (t : TorrentFile) : Type 0 where
  pub positive : 0 < to_u64 t.piece_length
  pub capped : to_u64 t.piece_length ≤ 2 ^ 26
  pub fits : t.total_length < 2 ^ 63
  pub covers : t.total_length ≤ length t.pieces * to_u64 t.piece_length
  pub needed : length t.pieces * to_u64 t.piece_length < t.total_length + to_u64 t.piece_length

mul_mono : (a b c : ℕ) → a ≤ b → a * c ≤ b * c
mul_mono a b c h = grind arith

count-le : (n p total : ℕ) → 0 < p → n * p < total + p → n ≤ total
count-le zero p total h k = omega arith
count-le (suc n) p total h k = omega (arith, k, mul_mono 1 p n h)

start-lt : (i n p total : ℕ) → i < n → n * p < total + p → i * p < total
start-lt i n p total h k = omega (arith, k, mul_mono (suc i) n p h)

-- The test `piece_index == pieces.size() - 1` finds the last piece, and the others are whole.
size_cases :
    (i n p total : ℕ)
    → i < n
    → n < u64_mod
    → total ≤ n * p
    → n * p < total + p
    → ((i ≡ (n + u64_mod - 1) % u64_mod) × (total - i * p ≤ p))
      ⊎ ((i ≢ (n + u64_mod - 1) % u64_mod) × (p ≤ total - i * p))
size_cases i n p total h fits covers needed = elim (ℕ_discrete (suc i) n) [
  | yes last ↦ inl (omega arith, omega (arith, covers, ap (λ (k : ℕ). k * p) last))
  | no more ↦
      inr (
        omega (arith, more),
        omega (arith, needed, mul_mono (suc (suc i)) n p (omega (arith, more))),
      )
]

module _ (t : TorrentFile) (v : IsTiled t) where
  count-le-total : length t.pieces ≤ t.total_length
  count-le-total = count-le _ _ _ v.positive v.needed

  -- Each piece starts inside the torrent.
  pub start-lt-total : (i : ℕ) → i < length t.pieces → i * to_u64 t.piece_length < t.total_length
  start-lt-total i h = start-lt i _ _ _ h v.needed

  -- The size of each piece of a tiled torrent is the piece length, or what is left of the
  -- torrent where that is less.
  pub piece_size-eq-min :
      (i : ℕ)
      → i < length t.pieces
      → piece_size t i ≡ min (to_u64 t.piece_length) (t.total_length - i * to_u64 t.piece_length)
  unfolding piece_size
  piece_size-eq-min i h =
      let start = start-lt-total i h in
      elim (size_cases i (length t.pieces) (to_u64 t.piece_length) t.total_length h
        (omega (arith, v, count-le-total)) v.covers v.needed) [
          | inl (last, short) ↦ rw ((==_iff _ _).1 last) (omega (arith, v, short, start))
          | inr (more, whole) ↦ ground (arith, more, whole)
        ]

  pub piece_size_bounds :
      (i : ℕ)
      → i < length t.pieces
      → (0 < piece_size t i) × (piece_size t i ≤ to_u64 t.piece_length)
  piece_size_bounds i h = omega (arith, v, piece_size-eq-min i h, start-lt-total i h)

  sum-below :
      (k : ℕ)
      → k ≤ length t.pieces
      → sum_below k (piece_size t) ≡ min t.total_length (k * to_u64 t.piece_length)
  unfolding sum_below
  sum-below zero h = omega arith
  sum-below (suc k) h =
      omega (arith, v, sum-below k (omega arith), piece_size-eq-min k h, start-lt-total k h)

  -- The sizes of the pieces of a tiled torrent add up to its total length.
  pub sum-piece_size : sum_below (length t.pieces) (piece_size t) ≡ t.total_length
  sum-piece_size = omega (arith, v, sum-below (length t.pieces) (omega arith))
