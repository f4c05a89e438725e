-- ===== src/Metainfo/Paths.antt =====
-- The paths that `validate_layout` lets through: the test of neighbours in sorted order finds every
-- path that is the start of another.
use torrent_peer.Prelude.{
  ◌≡◌, refl, sym, subst, inl, inr, ◌⊎◌, true, false, List, [], ◌∷◌, arith, same_bytes,
  same_bytes_iff, Bool-cases, All,
}
use torrent_peer.Torrent.{Bytes}
use torrent_peer.Bencode.{before}
use torrent_peer.Bencode.Order.{before_irrefl, before_trans, before_total}
use torrent_peer.Metainfo.{FilePath, path_before, is_prefix}

-- Neither path is the start of the other.
abbrev pub Apart : FilePath → FilePath → Type 0
Apart p q = (is_prefix p q ≡ false) × (is_prefix q p ≡ false)

-- Any two paths of the list, at different positions, are apart.
unfoldable pub AllApart : List FilePath → Type 0
AllApart [] = Unit {0}
AllApart (p ∷ ps) = All (Apart p) ps × AllApart ps

before_asym : (xs ys : Bytes) → before xs ys ≡ true → before ys xs ≡ false
before_asym xs ys h = elim (Bool-cases (before ys xs)) [
  | inl k ↦ absurd (before_irrefl xs (before_trans xs ys xs h k))
  | inr k ↦ k
]

-- How two components compare.
component_cases :
    (x y : Bytes)
    → ((before x y ≡ true) × (before y x ≡ false))
      ⊎ ((before y x ≡ true) × (before x y ≡ false))
      ⊎ (x ≡ y)
component_cases x y = elim (Bool-cases (before x y)) [
  | inl lt ↦ inl (lt, before_asym x y lt)
  | inr ge ↦ elim (Bool-cases (before y x)) [
    | inl gt ↦ inr (inl (gt, ge))
    | inr le ↦ inr (inr (before_total x y ge le))
  ]
]

same_refl : (x : Bytes) → same_bytes x x ≡ true
same_refl x = (same_bytes_iff x x).1 refl

same_no : (x : Bytes) → before x x ≡ false
same_no x = elim (Bool-cases (before x x)) [ inl h ↦ absurd (before_irrefl x h) | inr h ↦ h ]

pub path_asym : (p q : FilePath) → path_before p q ≡ true → path_before q p ≡ false
unfolding path_before
path_asym [] [] h = refl
path_asym [] (y ∷ ys) h = refl
path_asym (x ∷ xs) [] h = absurd (cc)
path_asym (x ∷ xs) (y ∷ ys) h =
    ground (arith, component_cases x y, before_asym x y, before_asym y x, path_asym xs ys, h)

-- Components that neither goes before are the same.
pub path_le_trans :
    (p q r : FilePath) → path_before q p ≡ false → path_before r q ≡ false → path_before r p ≡ false
unfolding path_before
path_le_trans [] [] r h k = k
path_le_trans [] (y ∷ ys) [] h k = absurd (cc)
path_le_trans [] (y ∷ ys) (z ∷ zs) h k = refl
path_le_trans (x ∷ xs) [] r h k = absurd (cc)
path_le_trans (x ∷ xs) (y ∷ ys) [] h k = absurd (cc)
path_le_trans (x ∷ xs) (y ∷ ys) (z ∷ zs) h k = elim (component_cases x y) [
  | inr (inl (gt, _)) ↦ absurd (ground (arith, gt, h))
  | inl (lt, ge) ↦ elim (component_cases y z) [
    | inr (inl (gt1, _)) ↦ absurd (ground (arith, gt1, k))
    | inl (lt1, ge1) ↦ let a = before_trans x y z lt lt1 in ground (arith, a, before_asym x z a)
    | inr (inr same) ↦
        let a : before x z ≡ true = subst (λ w. before x w ≡ true) same lt in
        ground (arith, a, before_asym x z a)
  ]
  | inr (inr same) ↦ elim (component_cases y z) [
    | inr (inl (gt1, _)) ↦ absurd (ground (arith, gt1, k))
    | inl (lt1, ge1) ↦
        let a : before x z ≡ true = subst (λ w. before w z ≡ true) (sym same) lt1 in
        ground (arith, a, before_asym x z a)
    | inr (inr same1) ↦
        let xy : before y x ≡ false = subst (λ w. before y w ≡ false) (sym same) (same_no y) in
        let yx : before x y ≡ false = subst (λ w. before w y ≡ false) (sym same) (same_no y) in
        let yz : before z y ≡ false = subst (λ w. before w y ≡ false) same1 (same_no y) in
        let zy : before y z ≡ false = subst (λ w. before y w ≡ false) same1 (same_no y) in
        let xz : before z x ≡ false = subst (λ w. before z w ≡ false) (sym same) yz in
        let zx : before x z ≡ false = subst (λ w. before w z ≡ false) (sym same) zy in
        ground (arith, path_le_trans xs ys zs, xy, yx, yz, zy, xz, zx, h, k)
  ]
]

-- Whatever stands between a path and one that it starts, it starts as well.
pub between :
    (p q r : FilePath)
    → is_prefix p r ≡ true
    → path_before q p ≡ false
    → path_before r q ≡ false
    → is_prefix p q ≡ true
unfolding path_before is_prefix
between [] q r h a b = refl
between (x ∷ xs) q [] h a b = absurd (cc)
between (x ∷ xs) [] (z ∷ zs) h a b = absurd (cc)
between (x ∷ xs) (y ∷ ys) (z ∷ zs) h a b =
    let same : x ≡ z = (same_bytes_iff x z).0 (ground (arith, h)) in
    let b1 : path_before (x ∷ zs) (y ∷ ys) ≡ false =
      subst (λ w. path_before (w ∷ zs) (y ∷ ys) ≡ false) (sym same) b in
    elim (component_cases x y) [
      | inl (lt, ge) ↦ absurd (ground (arith, lt, b1))
      | inr (inl (gt, _)) ↦ absurd (ground (arith, gt, a))
      | inr (inr at) ↦
          let same_xy : same_bytes x y ≡ true = (same_bytes_iff x y).1 at in
          let no_xy : before x y ≡ false = subst (λ w. before x w ≡ false) at (same_no x) in
          let no_yx : before y x ≡ false = subst (λ w. before w x ≡ false) at (same_no x) in
          ground (arith, same_xy, no_xy, no_yx, between xs ys zs, h, a, b1)
    ]

-- A path that does not come later and that another one starts is that one.
pub prefix_back :
    (p q : FilePath) → is_prefix q p ≡ true → path_before q p ≡ false → is_prefix p q ≡ true
unfolding path_before is_prefix
prefix_back [] [] h a = refl
prefix_back (x ∷ xs) [] h a = absurd (cc)
prefix_back [] (y ∷ ys) h a = absurd (cc)
prefix_back (x ∷ xs) (y ∷ ys) h a =
    let same : y ≡ x = (same_bytes_iff y x).0 (ground (arith, h)) in
    let same_xy : same_bytes x y ≡ true = (same_bytes_iff x y).1 (sym same) in
    let no_xy : before x y ≡ false = subst (λ w. before x w ≡ false) (sym same) (same_no x) in
    let no_yx : before y x ≡ false = subst (λ w. before w x ≡ false) (sym same) (same_no x) in
    ground (arith, same_xy, no_xy, no_yx, prefix_back xs ys, h, a)
