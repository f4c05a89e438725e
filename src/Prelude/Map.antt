-- ===== src/Prelude/Map.antt =====
-- Maps from numbers, `std::unordered_map<uint32_t, V>`, as lists of entries in the order in which
-- a loop over the map meets them. The order carries no meaning.
use Prim.Native.Nat.{ℕ}
use mathlib.Core.Path.{◌≡◌, refl, subst, sym}
use mathlib.Core.Logic.{inl, inr, ◌≢◌}
use mathlib.Core.Bool.{Bool, true, false}
use mathlib.Core.List.{List, [], ◌∷◌, ◌++◌}
use mathlib.Core.Option.{Option, none, some}
use native.Mathlib.Omega.{arith}
use native.Mathlib.Decide.{ℕ_discrete}
use torrent_peer.Prelude.Tests.{◌==◌, if◌then◌else◌, Bool-cases, ==_iff, ne→==_false}
use torrent_peer.Prelude.Lists.{All, All-append}

abbrev pub Map {ℓ} : Type ℓ → Type ℓ
Map V = List (ℕ × V)

module _ {ℓ} {V : Type ℓ} where
  unfoldable pub find : Map V → ℕ → Option V
  find [] k = none
  find ((j, v) ∷ m) k = if j == k then some v else find m k

  unfoldable pub contains : Map V → ℕ → Bool
  contains m k = elim (find m k) [ none ↦ false | some v ↦ true ]

  -- `m[k] = v`
  unfoldable pub assign : Map V → ℕ → V → Map V
  assign [] k v = (k, v) ∷ []
  assign ((j, w) ∷ m) k v = if j == k then (k, v) ∷ m else (j, w) ∷ assign m k v

  -- `m.emplace(k, v)`: an entry that is there stays.
  unfoldable pub emplace : Map V → ℕ → V → Map V
  emplace m k v = if contains m k then m else m ++ (k, v) ∷ []

  unfoldable pub erase : Map V → ℕ → Map V
  erase [] k = []
  erase ((j, w) ∷ m) k = if j == k then erase m k else (j, w) ∷ erase m k

  pub find-assign :
      (m : Map V) (k j : ℕ) (v : V) → find (assign m k v) j ≡ (if k == j then some v else find m j)
  unfolding find assign
  find-assign [] k j v = refl
  find-assign ((i, w) ∷ m) k j v = ground (arith, find-assign m k j v)

  pub find-erase : (m : Map V) (k j : ℕ) → find (erase m k) j ≡ (if k == j then none else find m j)
  unfolding find erase
  find-erase [] k j = ground arith
  find-erase ((i, w) ∷ m) k j = ground (arith, find-erase m k j)

  pub find-append-absent :
      (m : Map V) (k j : ℕ) (v : V)
      → find m k ≡ none
      → find (m ++ (k, v) ∷ []) j ≡ (if k == j then some v else find m j)
  unfolding find
  find-append-absent [] k j v h = refl
  find-append-absent ((i, w) ∷ m) k j v h = ground (arith, find-append-absent m k j v)

  pub find-emplace :
      (m : Map V) (k j : ℕ) (v : V)
      → find m k ≡ none
      → find (emplace m k v) j ≡ (if k == j then some v else find m j)
  unfolding emplace contains
  find-emplace m k j v h = rw (h, emplace, contains) (find-append-absent m k j v h)

-- Every entry has a property.
abbrev pub Entries {ℓ κ} : {V : Type ℓ} → (ℕ → V → Type κ) → Map V → Type κ
Entries P m = All (λ e. P e.0 e.1) m

module _ {ℓ κ} {V : Type ℓ} (P : ℕ → V → Type κ) where
  pub Entries-find : (m : Map V) (k : ℕ) {v : V} → Entries P m → find m k ≡ some v → P k v
  unfolding find
  Entries-find [] k h e = cc
  Entries-find ((j, w) ∷ m) k {v = v} h e = elim (Bool-cases (j == k)) [
    | inl hit ↦ subst (λ i. P i v) ((==_iff j k).0 hit) (subst (P j) (ground arith) h.0)
    | inr miss ↦ Entries-find m k h.1 (ground arith)
  ]

  pub Entries-assign : (m : Map V) (k : ℕ) (v : V) → P k v → Entries P m → Entries P (assign m k v)
  unfolding assign
  Entries-assign [] k v p h = (p, tt)
  Entries-assign ((j, w) ∷ m) k v p h = ground (arith, Entries-assign m k v p h.1)

  pub Entries-emplace :
      (m : Map V) (k : ℕ) (v : V) → P k v → Entries P m → Entries P (emplace m k v)
  unfolding emplace
  Entries-emplace m k v p h = elim (Bool-cases (contains m k)) [
    | inl old ↦ rw old h
    | inr new ↦ rw new (All-append (λ e. P e.0 e.1) m ((k, v) ∷ []) h (p, tt))
  ]

  pub Entries-erase : (m : Map V) (k : ℕ) → Entries P m → Entries P (erase m k)
  unfolding erase
  Entries-erase [] k h = tt
  Entries-erase ((j, w) ∷ m) k h = ground (arith, Entries-erase m k h.1)

-- What is left after an erasure has another key.
pub Entries-erase_ne {ℓ κ μ} :
    {V : Type ℓ} (P : ℕ → V → Type κ) (Q : ℕ → V → Type μ) (m : Map V) (k : ℕ)
    → ((j : ℕ) (v : V) → k ≢ j → P j v → Q j v)
    → Entries P m
    → Entries Q (erase m k)
unfolding erase
Entries-erase_ne P Q [] k f h = tt
Entries-erase_ne P Q ((j, w) ∷ m) k f h = elim (ℕ_discrete j k) [
  | yes e ↦ rw ((==_iff j k).1 e) (Entries-erase_ne P Q m k f h.1)
  | no n ↦ rw (ne→==_false j k n) (f j w (λ e. n (sym e)) h.0, Entries-erase_ne P Q m k f h.1)
]

module _ {ℓ} {V : Type ℓ} where
  pub find-erase_self : (m : Map V) (k : ℕ) → find (erase m k) k ≡ none
  find-erase_self m k = ground (arith, find-erase m k k)

  pub find-assign_self : (m : Map V) (k : ℕ) (v : V) → find (assign m k v) k ≡ some v
  find-assign_self m k v = ground (arith, find-assign m k k v)

  pub find-assign_ne : (m : Map V) (k j : ℕ) (v : V) → k ≢ j → find (assign m k v) j ≡ find m j
  find-assign_ne m k j v h = ground (arith, find-assign m k j v)

  pub find-erase_ne : (m : Map V) (k j : ℕ) → k ≢ j → find (erase m k) j ≡ find m j
  find-erase_ne m k j h = ground (arith, find-erase m k j)
