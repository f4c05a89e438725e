-- ===== src/Disk/Slices.antt =====
-- The slices of a range: they follow one another, each lies inside its file, and together they are
-- the range.
use torrent_peer.Prelude.{
  ℕ, suc, ◌+◌, ◌-◌, ◌%◌, ◌^◌, ◌≤◌, ◌<◌, ◌≡◌, refl, inl, inr, ◌⊎◌, List, [], ◌∷◌, min, arith, drop,
  ok, dec_lt,
}
use torrent_peer.Torrent.{u64_mod}
use torrent_peer.Disk.{FileEntry, Slice, upper_bound, slice_loop}

-- Files without gaps from `cursor` to `total`, none of them empty.
unfoldable pub IsLaid : ℕ → List FileEntry → ℕ → Type 0
IsLaid cursor [] total = cursor ≡ total
IsLaid cursor (f ∷ fs) total =
    (f.offset ≡ cursor) × (0 < f.length) × IsLaid (cursor + f.length) fs total

-- From byte `done` of the buffer to its end the slices follow one another, and each is the bytes of
-- its file that stand there in the torrent.
unfoldable pub Tiles : ℕ → ℕ → ℕ → List Slice → Type 0
Tiles global_offset len done [] = done ≡ len
Tiles global_offset len done (s ∷ ss) =
    (s.buf_pos ≡ done)
    × (0 < s.n)
    × (s.file.offset + s.file_off ≡ global_offset + done)
    × (s.file_off + s.n ≤ s.file.length)
    × Tiles global_offset len (done + s.n) ss

laid_le : (cursor : ℕ) (fs : List FileEntry) (total : ℕ) → IsLaid cursor fs total → cursor ≤ total
unfolding IsLaid
laid_le cursor [] total h = omega (arith, h)
laid_le cursor (f ∷ fs) total h = omega (arith, laid_le (cursor + f.length) fs total h.2)

-- Where a slice starts: at the end of the range, or in the first file.
unfoldable pub Ready : ℕ → List FileEntry → ℕ → ℕ → ℕ → Type 0
Ready cursor [] global_offset len done = done ≡ len
Ready cursor (f ∷ fs) global_offset len done =
    (done ≡ len) ⊎ ((cursor ≤ global_offset + done) × (global_offset + done < cursor + f.length))

next-Ready :
    (cursor : ℕ) (fs : List FileEntry) (total g len done : ℕ)
    → IsLaid cursor fs total
    → g + len ≤ total
    → done ≤ len
    → (done ≡ len) ⊎ (g + done ≡ cursor)
    → Ready cursor fs g len done
unfolding IsLaid Ready
next-Ready cursor [] total g len done laid fits le (inl e) = e
next-Ready cursor [] total g len done laid fits le (inr e) = omega (arith, laid, fits, le, e)
next-Ready cursor (f ∷ fs) total g len done laid fits le (inl e) = inl e
next-Ready cursor (f ∷ fs) total g len done laid fits le (inr e) =
    inr (omega (arith, e), omega (arith, e, laid.1))

min_cases : (a b : ℕ) → (min a b ≡ a) ⊎ (min a b ≡ b)
min_cases a b = elim (dec_lt a b) [ yes h ↦ inl (omega (arith, h)) | no h ↦ inr (omega (arith, h)) ]

pub loop-Tiles :
    (cursor : ℕ) (fs : List FileEntry) (total g len done : ℕ)
    → total < 2 ^ 63
    → IsLaid cursor fs total
    → g + len ≤ total
    → done ≤ len
    → Ready cursor fs g len done
    → (ss : List Slice) × (slice_loop fs g len done ≡ ok ss) × Tiles g len done ss
unfolding slice_loop Tiles IsLaid Ready
loop-Tiles cursor [] total g len done small laid fits le ready = ([], ground (arith, ready), ready)
loop-Tiles cursor (f ∷ fs) total g len done small laid fits le ready = elim ready [
  | inl e ↦ ([], ground (arith, e), e)
  | inr (from, to) ↦ elim (dec_lt done len) [
    | no e ↦ ([], ground (arith, e), omega (arith, e, le))
    | yes more ↦
        let behind = laid_le (cursor + f.length) fs total laid.2 in
        let file_off = (g + done + u64_mod - f.offset) % u64_mod in
        let at_off : file_off ≡ g + done - cursor =
          omega (arith, laid.0, from, to, small, fits, behind) in
        let left : (f.length + u64_mod - file_off) % u64_mod ≡ f.length - file_off =
          omega (arith, at_off, to, from, small, behind) in
        let n = min (len - done) ((f.length + u64_mod - file_off) % u64_mod) in
        let small_n : (0 < n) × (n ≤ len - done) × (file_off + n ≤ f.length) =
          omega (arith, left, at_off, more, to, from) in
        let ending : (done + n ≡ len) ⊎ (g + (done + n) ≡ cursor + f.length) =
          elim (min_cases (len - done) (f.length - file_off)) [
            | inl e ↦ inl (omega (arith, e, left, le))
            | inr e ↦ inr (omega (arith, e, left, at_off, from, to))
          ] in
        let (ss, e, tiles) =
          loop-Tiles (cursor + f.length) fs total g len (done + n) small laid.2 fits
            (omega (arith, small_n))
            (next-Ready (cursor + f.length) fs total g len (done + n) laid.2 fits
              (omega (arith, small_n)) ending) in
        (
          record { file = f; buf_pos = done; n = n; file_off = file_off } ∷ ss,
          ground (arith, more, e),
          (refl, small_n.0, omega (arith, at_off, laid.0, from), small_n.2, tiles),
        )
  ]
]

-- A byte in the first file.
unfoldable pub Lands : ℕ → List FileEntry → ℕ → Type 0
Lands cursor [] offset = ⊥
Lands cursor (f ∷ fs) offset = (cursor ≤ offset) × (offset < cursor + f.length)

stops :
    (fs : List FileEntry) (cursor total offset : ℕ)
    → IsLaid cursor fs total
    → offset < cursor
    → upper_bound fs offset ≡ 0
unfolding upper_bound IsLaid
stops [] cursor total offset laid h = refl
stops (f ∷ fs) cursor total offset laid h = ground (arith, laid.0, h)

-- `upper_bound` finds the file that a byte of the torrent stands in.
pub upper_bound-Lands :
    (cursor : ℕ) (fs : List FileEntry) (total offset : ℕ)
    → IsLaid cursor fs total
    → cursor ≤ offset
    → offset < total
    → (k : ℕ) × (c : ℕ) × (upper_bound fs offset ≡ suc k)
      × IsLaid c (drop k fs) total
      × Lands c (drop k fs) offset
unfolding upper_bound IsLaid Lands
upper_bound-Lands cursor [] total offset laid from to = absurd (omega (arith, laid, from, to))
upper_bound-Lands cursor (f ∷ fs) total offset laid from to =
    elim (dec_lt offset (cursor + f.length)) [
      | yes here ↦ (
        0,
        cursor,
        ground (arith, laid.0, from, stops fs (cursor + f.length) total offset laid.2 here),
        laid,
        (from, here),
      )
      | no later ↦
          let (k, c, e, l, m) =
            upper_bound-Lands (cursor + f.length) fs total offset laid.2 (omega (arith, later))
              to in
          (suc k, c, ground (arith, laid.0, from, e), l, m)
    ]

pub Lands-Ready :
    (cursor : ℕ) (fs : List FileEntry) (g len : ℕ) → Lands cursor fs g → Ready cursor fs g len 0
unfolding Lands Ready
Lands-Ready cursor [] g len m = absurd m
Lands-Ready cursor (f ∷ fs) g len m = inr (omega (arith, m), omega (arith, m))
