-- ===== src/Metainfo/Sorting.antt =====
-- The sort of `validate_layout`, and what its test of neighbours finds.
use torrent_peer.Prelude.{
  ◌≡◌, refl, inl, inr, false, List, [], ◌∷◌, arith, ok, Bool-cases, All, All-impl, ◌↔◌,
}
use torrent_peer.Metainfo.{FilePath, path_before, insert, sort, is_prefix, check_neighbours}
use torrent_peer.Metainfo.Paths.{Apart, AllApart, path_asym, path_le_trans, between, prefix_back}

-- Sorted: no path comes before an earlier one.
unfoldable pub IsSorted : List FilePath → Type 0
IsSorted [] = Unit {0}
IsSorted (p ∷ ps) = All (λ q. path_before q p ≡ false) ps × IsSorted ps

insert-All :
    (P : FilePath → Type 0) (p : FilePath) (qs : List FilePath)
    → P p
    → All P qs
    → All P (insert p qs)
unfolding insert
insert-All P p [] h a = (h, tt)
insert-All P p (q ∷ qs) h a = elim (Bool-cases (path_before q p)) [
  | inl lt ↦ ground (arith, lt, a, insert-All P p qs h a.1)
  | inr ge ↦ ground (arith, ge, h, a)
]

insert-All_out :
    (P : FilePath → Type 0) (p : FilePath) (qs : List FilePath)
    → All P (insert p qs)
    → P p × All P qs
unfolding insert
insert-All_out P p [] a = a
insert-All_out P p (q ∷ qs) a = elim (Bool-cases (path_before q p)) [
  | inl lt ↦
      let a1 : P q × All P (insert p qs) = ground (arith, lt, a) in
      let (x, y) = insert-All_out P p qs a1.1 in (x, (a1.0, y))
  | inr ge ↦ ground (arith, ge, a)
]

sort-All : (P : FilePath → Type 0) (ps : List FilePath) → All P (sort ps) ↔ All P ps
unfolding sort
sort-All P [] = (λ a. a, λ a. a)
sort-All P (p ∷ ps) = (
  λ a. let (x, y) = insert-All_out P p (sort ps) a in (x, (sort-All P ps).0 y),
  λ a. insert-All P p (sort ps) a.0 ((sort-All P ps).1 a.1),
)

Apart-sym : (p q : FilePath) → Apart p q → Apart q p
Apart-sym p q (a, b) = (b, a)

insert-IsSorted : (p : FilePath) (qs : List FilePath) → IsSorted qs → IsSorted (insert p qs)
unfolding insert IsSorted
insert-IsSorted p [] s = (tt, tt)
insert-IsSorted p (q ∷ qs) s = elim (Bool-cases (path_before q p)) [
  | inl lt ↦
      let head = insert-All (λ r. path_before r q ≡ false) p qs (path_asym q p lt) s.0 in
      ground (arith, lt, head, insert-IsSorted p qs s.1)
  | inr ge ↦
      let tail =
        All-impl (λ r. path_before r q ≡ false) (λ r. path_before r p ≡ false) qs
          (λ r h. path_le_trans p q r ge h) s.0 in
      ground (arith, ge, tail, s)
]

sort-IsSorted : (ps : List FilePath) → IsSorted (sort ps)
unfolding sort IsSorted
sort-IsSorted [] = tt
sort-IsSorted (p ∷ ps) = insert-IsSorted p (sort ps) (sort-IsSorted ps)

Apart-pair : (p q : FilePath) → is_prefix p q ≡ false → path_before q p ≡ false → Apart p q
Apart-pair p q forth ge = elim (Bool-cases (is_prefix q p)) [
  | inl e ↦ absurd (ground (arith, prefix_back p q e ge, forth))
  | inr e ↦ (forth, e)
]

-- A path that is apart from its successor is apart from all that follow.
Apart-from_All :
    (p q : FilePath) (qs : List FilePath)
    → is_prefix p q ≡ false
    → path_before q p ≡ false
    → All (λ r. path_before r q ≡ false) qs
    → All (λ r. path_before r p ≡ false) qs
    → All (Apart p) qs
Apart-from_All p q [] h ge a b = tt
Apart-from_All p q (r ∷ qs) h ge (r_q, a) (r_p, b) =
    let forth : is_prefix p r ≡ false = elim (Bool-cases (is_prefix p r)) [
      | inl e ↦ absurd (ground (arith, between p q r e ge r_q, h))
      | inr e ↦ e
    ] in
    (Apart-pair p r forth r_p, Apart-from_All p q qs h ge a b)

neighbours-AllApart : (ps : List FilePath) → IsSorted ps → check_neighbours ps ≡ ok tt → AllApart ps
unfolding check_neighbours IsSorted AllApart
neighbours-AllApart [] s h = tt
neighbours-AllApart (p ∷ []) s h = (tt, tt)
neighbours-AllApart (p ∷ q ∷ qs) s h = elim (Bool-cases (is_prefix p q)) [
  | inl e ↦ absurd (ground (arith, e, h))
  | inr e ↦ (
    (Apart-pair p q e s.0.0, Apart-from_All p q qs e s.0.0 s.1.0 s.0.1),
    neighbours-AllApart (q ∷ qs) s.1 (ground (arith, e, h)),
  )
]

AllApart-neighbours : (ps : List FilePath) → AllApart ps → check_neighbours ps ≡ ok tt
unfolding check_neighbours AllApart
AllApart-neighbours [] a = refl
AllApart-neighbours (p ∷ []) a = refl
AllApart-neighbours (p ∷ q ∷ qs) a = ground (arith, a, AllApart-neighbours (q ∷ qs) a.1)

-- An insertion behind a first path.
insert_behind :
    (p q : FilePath) (qs : List FilePath)
    → (AllApart (insert p qs) ↔ AllApart (p ∷ qs))
    → (AllApart (q ∷ insert p qs) ↔ AllApart (p ∷ q ∷ qs))
unfolding AllApart
insert_behind p q qs (from, to) = (
  λ a.
      let (x, y) = from a.1 in
      let (r, s) = insert-All_out (Apart q) p qs a.0 in ((Apart-sym q p r, x), (s, y)),
  λ a. (insert-All (Apart q) p qs (Apart-sym p q a.0.0) a.1.0, to (a.0.1, a.1.1)),
)

insert_apart : (p : FilePath) (qs : List FilePath) → AllApart (insert p qs) ↔ AllApart (p ∷ qs)
unfolding insert
insert_apart p [] = (λ a. a, λ a. a)
insert_apart p (q ∷ qs) = elim (Bool-cases (path_before q p)) [
  | inr ge ↦ rw ge (λ a. a, λ a. a)
  | inl lt ↦ rw lt (insert_behind p q qs (insert_apart p qs))
]

sort_apart : (ps : List FilePath) → AllApart (sort ps) ↔ AllApart ps
unfolding sort AllApart
sort_apart [] = (λ a. a, λ a. a)
sort_apart (p ∷ ps) = (
  λ a.
      let (x, y) = (insert_apart p (sort ps)).0 a in
      ((sort-All (Apart p) ps).0 x, (sort_apart ps).0 y),
  λ a. (insert_apart p (sort ps)).1 ((sort-All (Apart p) ps).1 a.0, (sort_apart ps).1 a.1),
)

-- The test of neighbours on the sorted paths passes just when no path in the list is the start of
-- another one, equal paths included.
pub check_neighbours_iff : (ps : List FilePath) → (check_neighbours (sort ps) ≡ ok tt) ↔ AllApart ps
check_neighbours_iff ps = (
  λ h. (sort_apart ps).0 (neighbours-AllApart (sort ps) (sort-IsSorted ps) h),
  λ a. AllApart-neighbours (sort ps) ((sort_apart ps).1 a),
)
