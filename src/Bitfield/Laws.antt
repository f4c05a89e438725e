-- ===== src/Bitfield/Laws.antt =====
-- What a bit field promises: `set` changes the one bit it names, and the fields that the code makes
-- are well formed.
use torrent_peer.Prelude.{
  ℕ, zero, suc, ◌-◌, ◌/◌, ◌%◌, ◌≤◌, ◌<◌, ◌≡◌, refl, ◌∙◌, inl, inr, Bool, true, false, not, ◌&&◌,
  ◌||◌, arith, ltb, leb, ◌==◌, length, get_or, set, replicate, All-get_or, All-set, All-replicate,
  ltb→lt, get_or-set_self, get_or-set_ne, subst, ℕ_discrete, length-set, length-replicate, ok, All,
  Bool-cases,
}
use torrent_peer.Prelude.Loops.{all_below, all_below_sound}
use torrent_peer.Bitfield.{Bitfield, u32_mod, byte_count, zeros, bit_of, with_bit, get, set_bit}

-- The storage has a byte for each eight bits, and each item of it is a byte.
pub record IsValid (bf : Bitfield) : Type 0 where
  pub sized : length bf.bytes ≡ byte_count bf.bits
  pub small : bf.bits ≤ u32_mod - 8
  pub in_byte : All (λ b. b < 256) bf.bytes

-- `with_bit` and `bit_of` at each byte and each pair of places.
cell : ℕ → ℕ → ℕ → Bool
cell b k j = elim (bit_of (with_bit b k) j) [
  | true ↦ k == j || bit_of b j
  | false ↦ not (k == j || bit_of b j)
]

row : ℕ → Bool
row b = all_below 8 (λ k. ltb (with_bit b k) 256 && all_below 8 (cell b k))

with_bit_table : all_below 256 row ≡ true
unfolding row cell all_below bit_of with_bit
with_bit_table = refl

both : (a b : Bool) → a && b ≡ true → (a ≡ true) × (b ≡ true)
both a b h = ground arith

row_facts : (b k : ℕ) → b < 256 → k < 8 → (with_bit b k < 256) × (all_below 8 (cell b k) ≡ true)
unfolding row
row_facts b k hb hk =
    let at_row = all_below_sound 256 row b hb with_bit_table in
    let (small, cells) =
      both (ltb (with_bit b k) 256) (all_below 8 (cell b k)) (
        all_below_sound 8 (λ k'. ltb (with_bit b k') 256 && all_below 8 (cell b k')) k hk at_row) in
    (ltb→lt _ _ small, cells)

bit_of-with_bit :
    (b k j : ℕ) → b < 256 → k < 8 → j < 8 → bit_of (with_bit b k) j ≡ (k == j || bit_of b j)
bit_of-with_bit b k j hb hk hj =
    unfold cell in (ground (arith, all_below_sound 8 (cell b k) j hj (row_facts b k hb hk).1))

inside : (bf : Bitfield) (i : ℕ) → IsValid bf → i < bf.bits → i / 8 < length bf.bytes
inside bf i v lt = omega (arith, v.sized, v.small)

byte_at : (bf : Bitfield) (i : ℕ) → IsValid bf → get_or bf.bytes (i / 8) 0 < 256
byte_at bf i v = All-get_or (λ b. b < 256) bf.bytes (i / 8) 0 v.in_byte (omega arith)

-- The field that a successful `set` leaves.
abbrev written : Bitfield → ℕ → Bitfield
written bf i = record bf {
  bytes = set bf.bytes (i / 8) (with_bit (get_or bf.bytes (i / 8) 0) (i % 8));
}

set_bit-eq-ok :
    (bf : Bitfield) (i : ℕ) {bf' : Bitfield}
    → set_bit bf i ≡ ok bf'
    → (i < bf.bits) × (written bf i ≡ bf')
unfolding set_bit
set_bit-eq-ok bf i h = elim (Bool-cases (leb bf.bits i)) [
  | inl past ↦ ground arith
  | inr within ↦ (ground arith, ground arith)
]

get-written :
    (bf : Bitfield) (i j : ℕ)
    → IsValid bf
    → i < bf.bits
    → get (written bf i) j ≡ (i == j || get bf j)
unfolding get
get-written bf i j v lt = elim (ℕ_discrete (i / 8) (j / 8)) [
  | yes here ↦ ground (
    arith,
    get_or-set_self bf.bytes (i / 8) (with_bit (get_or bf.bytes (i / 8) 0) (i % 8)) 0
        (inside bf i v lt),
    bit_of-with_bit (get_or bf.bytes (i / 8) 0) (i % 8) (j % 8) (byte_at bf i v) (omega arith)
        (omega arith),
  )
  | no there ↦ ground (
    arith,
    get_or-set_ne bf.bytes (i / 8) (j / 8) (with_bit (get_or bf.bytes (i / 8) 0) (i % 8)) 0 there,
  )
]

-- After a successful set of bit i in a valid field, bit j is set just when it is i or was set.
pub get-set_bit :
    (bf : Bitfield) (i j : ℕ) {bf' : Bitfield}
    → IsValid bf
    → set_bit bf i ≡ ok bf'
    → get bf' j ≡ (i == j || get bf j)
get-set_bit bf i j v h =
    let (lt, e) = set_bit-eq-ok bf i h in
    subst (λ b. get b j ≡ (i == j || get bf j)) e (get-written bf i j v lt)

written-IsValid : (bf : Bitfield) (i : ℕ) → IsValid bf → i < bf.bits → IsValid (written bf i)
written-IsValid bf i v lt = record {
  sized = length-set bf.bytes (i / 8) _ ∙ v.sized;
  small = v.small;
  in_byte =
      All-set (λ b. b < 256) bf.bytes (i / 8) _ v.in_byte
        (row_facts (get_or bf.bytes (i / 8) 0) (i % 8) (byte_at bf i v) (omega arith)).0;
}

pub set_bit-IsValid :
    (bf : Bitfield) (i : ℕ) {bf' : Bitfield}
    → IsValid bf
    → set_bit bf i ≡ ok bf'
    → IsValid bf' × (bf'.bits ≡ bf.bits)
set_bit-IsValid bf i v h =
    let (lt, e) = set_bit-eq-ok bf i h in
    subst (λ b. IsValid b × (b.bits ≡ bf.bits)) e (written-IsValid bf i v lt, refl)

-- `set` throws exactly past the end.
pub set_bit_total :
    (bf : Bitfield) (i : ℕ) → i < bf.bits → (bf' : Bitfield) × (set_bit bf i ≡ ok bf')
unfolding set_bit
set_bit_total bf i h = (
  record bf { bytes = set bf.bytes (i / 8) (with_bit (get_or bf.bytes (i / 8) 0) (i % 8)) },
  ground arith,
)

pub get_bounded : (bf : Bitfield) (i : ℕ) → get bf i ≡ true → i < bf.bits
unfolding get
get_bounded bf i h = ground arith

get_or-replicate {ℓ} : {A : Type ℓ} (n i : ℕ) (a : A) → get_or (replicate n a) i a ≡ a
get_or-replicate zero i a = refl
get_or-replicate (suc n) zero a = refl
get_or-replicate (suc n) (suc i) a = get_or-replicate n i a

zeros_bits : all_below 8 (λ k. not (bit_of 0 k)) ≡ true
unfolding all_below bit_of
zeros_bits = refl

pub get-zeros : (n i : ℕ) → get (zeros n) i ≡ false
unfolding get zeros
get-zeros n i = ground (
  arith,
  get_or-replicate {A = ℕ} (byte_count n) (i / 8) 0,
  all_below_sound 8 (λ k. not (bit_of 0 k)) (i % 8) (omega arith) zeros_bits,
)

pub zeros-IsValid : (n : ℕ) → n ≤ u32_mod - 8 → IsValid (zeros n)
unfolding zeros
zeros-IsValid n h = record {
  sized = length-replicate (byte_count n) 0;
  small = h;
  in_byte = All-replicate (λ b. b < 256) (byte_count n) 0 (omega arith);
}
