-- ===== src/Prelude/Loops.antt =====
-- Counted loops, sums over a range of indices, and tables of bytes.
use Prim.Native.Nat.{ℕ, zero, suc, ◌+◌, ◌≤◌, ◌<◌}
use mathlib.Core.Path.{◌≡◌, refl, ap, sym, subst}
use mathlib.Core.Bool.{Bool, true, ◌&&◌}
use native.Mathlib.Omega.{arith}
use native.Mathlib.Decide.{ℕ_discrete}

-- `for (k = i; k < i + n; ++k) s = round(k, s);`
unfoldable pub for_range {ℓ} : {State : Type ℓ} → ℕ → ℕ → (ℕ → State → State) → State → State
for_range zero first round st = st
for_range (suc left) first round st = for_range left (first + 1) round (round first st)

-- What every round below `last` keeps holds at the end.
pub for_range_inv {ℓ κ} :
    {State : Type ℓ} (Good : ℕ → State → Type κ) (round : ℕ → State → State) (last : ℕ)
    → ((k : ℕ) (st : State) → k < last → Good k st → Good (k + 1) (round k st))
    → (left first : ℕ) (st : State) → first + left ≡ last
    → Good first st
    → Good last (for_range left first round st)
unfolding for_range
for_range_inv Good round last step zero first st e good =
    subst (λ k. Good k st) (omega (arith, e)) good
for_range_inv Good round last step (suc left) first st e good =
    for_range_inv Good round last step left (first + 1) (round first st) (omega (arith, e))
      (step first st (omega (arith, e)) good)

-- The sum of `w i` over `i < n`.
unfoldable pub sum_below : ℕ → (ℕ → ℕ) → ℕ
sum_below zero w = 0
sum_below (suc n) w = sum_below n w + w n

pub sum_below-congr :
    (n : ℕ) (v w : ℕ → ℕ) → ((i : ℕ) → i < n → v i ≡ w i) → sum_below n v ≡ sum_below n w
unfolding sum_below
sum_below-congr zero v w h = refl
sum_below-congr (suc n) v w h =
    omega (arith, sum_below-congr n v w (λ i lt. h i (omega arith)), h n (omega arith))

pub sum_below_mono :
    (n : ℕ) (v w : ℕ → ℕ) → ((i : ℕ) → i < n → v i ≤ w i) → sum_below n v ≤ sum_below n w
unfolding sum_below
sum_below_mono zero v w h = omega arith
sum_below_mono (suc n) v w h =
    omega (arith, sum_below_mono n v w (λ i lt. h i (omega arith)), h n (omega arith))

-- Two weights that differ at one index differ in their sum by that much.
pub sum_below-update :
    (n k : ℕ) (v w : ℕ → ℕ) (d : ℕ)
    → k < n
    → w k ≡ v k + d
    → ((i : ℕ) → i < n → (i ≡ k → ⊥) → w i ≡ v i)
    → sum_below n w ≡ sum_below n v + d
unfolding sum_below
sum_below-update zero k v w d lt e h = absurd (omega arith)
sum_below-update (suc n) k v w d lt e h = elim (ℕ_discrete k n) [
  | yes at ↦
      omega
        (arith, sum_below-congr n w v (λ i lt. h i (omega arith) (omega arith)), ap w at, ap v at)
  | no off ↦ omega (
    arith,
    sum_below-update n k v w d (omega arith) e (λ i lt ne. h i (omega arith) ne),
    h n (omega arith) (λ q. off (sym q)),
  )
]

-- Over a small range every value is checked by evaluation.
unfoldable pub all_below : ℕ → (ℕ → Bool) → Bool
all_below zero test = true
all_below (suc n) test = all_below n test && test n

pub all_below_sound :
    (n : ℕ) (test : ℕ → Bool) (k : ℕ) → k < n → all_below n test ≡ true → test k ≡ true
unfolding all_below
all_below_sound zero test k lt e = absurd (omega (arith, lt))
all_below_sound (suc n) test k lt e = elim (ℕ_discrete k n) [
  | yes at ↦ ground (arith, at, e)
  | no off ↦ all_below_sound n test k (omega (arith, lt, off)) (ground (arith, e))
]
