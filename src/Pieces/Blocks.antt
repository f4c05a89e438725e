-- ===== src/Pieces/Blocks.antt =====
-- The states of a piece's blocks: what `next_missing` takes, and how many blocks are received.
use torrent_peer.Prelude.{
  ℕ, zero, suc, ◌+◌, ◌≤◌, ◌<◌, ◌≡◌, refl, inl, inr, List, [], ◌∷◌, map, none, some, arith,
  if◌then◌else◌, length, get_or, set, replicate, ◌≢◌, Option-cases, Bool-cases, true,
}
use torrent_peer.Pieces.{
  BlockState, missing, requested, received, is_missing, is_received, take_missing,
}

pub received_count : List BlockState → ℕ
received_count [] = 0
received_count (s ∷ ss) = (if is_received s then 1 else 0) + received_count ss

pub received_count-le : (ss : List BlockState) → received_count ss ≤ length ss
unfolding received_count
received_count-le [] = omega arith
received_count-le (s ∷ ss) = ground (arith, received_count-le ss)

pub received_count-set :
    (ss : List BlockState) (k : ℕ) (s : BlockState)
    → k < length ss
    → received_count (set ss k s) + (if is_received (get_or ss k received) then 1 else 0)
      ≡ received_count ss + (if is_received s then 1 else 0)
unfolding received_count
received_count-set [] k s h = elim h [ ]
received_count-set (r ∷ ss) zero s h = omega arith
received_count-set (r ∷ ss) (suc k) s h = omega (arith, received_count-set ss k s (omega arith))

pub received_count-missing : (ss : List BlockState) → received_count (map (λ _. missing) ss) ≡ 0
unfolding received_count
received_count-missing [] = refl
received_count-missing (s ∷ ss) = omega (arith, received_count-missing ss)

pub received_count-fresh : (n : ℕ) → received_count (replicate n missing) ≡ 0
unfolding received_count
received_count-fresh zero = refl
received_count-fresh (suc n) = omega (arith, received_count-fresh n)

-- Block `k` is received.
abbrev pub Received : List BlockState → ℕ → Type 0
Received ss k = is_received (get_or ss k missing) ≡ true

-- When the count is the number of blocks, each block is received.
pub received_count_full :
    (ss : List BlockState) → length ss ≤ received_count ss → (k : ℕ) → k < length ss → Received ss k
unfolding received_count
received_count_full [] h k lt = elim lt [ ]
received_count_full (s ∷ ss) h zero lt = ground (arith, received_count-le ss, h)
received_count_full (s ∷ ss) h (suc k) lt =
    received_count_full ss (ground (arith, h)) k (omega (arith, lt))

-- When the count is less, there is a block that is not.
pub received_count_short :
    (ss : List BlockState)
    → received_count ss < length ss
    → (k : ℕ) × (k < length ss) × ¬ Received ss k
unfolding received_count
received_count_short [] h = elim h [ ]
received_count_short (s ∷ ss) h = elim (Bool-cases (is_received s)) [
  | inr old ↦ (0, omega arith, λ e. cc)
  | inl had ↦
      let fewer : received_count ss < length ss = ground (arith, h, had) in
      let (k, lt, n) = received_count_short ss fewer in (suc k, omega (arith, lt), n)
]

-- The block that is taken was missing, and is now requested; the others stay.
pub take_missing_sound :
    (b : ℕ) (ss : List BlockState) {c : ℕ} {ts : List BlockState}
    → take_missing b ss ≡ some (c, ts)
    → (k : ℕ) × (c ≡ b + k)
      × (k < length ss)
      × (get_or ss k received ≡ missing)
      × (ts ≡ set ss k requested)
unfolding take_missing
take_missing_sound b [] h = cc
take_missing_sound b (s ∷ ss) {c} {ts} h = elim (Bool-cases (is_missing s)) [
  | inl here ↦ (0, ground arith, ground arith, ground arith, ground arith)
  | inr there ↦ elim (Option-cases (take_missing (b + 1) ss)) [
    | inl e ↦ absurd (ground arith)
    | inr ((c', ts'), e) ↦
        let (k, at, inside, was, now) = take_missing_sound (b + 1) ss {c = c'} {ts = ts'} e in
        (suc k, ground arith, ground arith, was, ground arith)
  ]
]

-- Nothing is taken exactly where no block is missing.
pub take_missing-none :
    (b : ℕ) (ss : List BlockState)
    → take_missing b ss ≡ none
    → (k : ℕ) → k < length ss
    → get_or ss k received ≢ missing
unfolding take_missing
take_missing-none b [] h k lt = elim lt [ ]
take_missing-none b (s ∷ ss) h zero lt = ground arith
take_missing-none b (s ∷ ss) h (suc k) lt =
    take_missing-none (b + 1) ss (ground arith) k (omega arith)
