-- ===== src/Bencode/Digits.antt =====
-- Decimal numbers as the parser reads them, `std::from_chars` on a run of digits, and the decimal
-- print that the round trips are stated with.
use torrent_peer.Prelude.{
  ℕ, zero, suc, ◌+◌, ◌-◌, ◌*◌, ◌/◌, ◌%◌, ◌≤◌, ◌<◌, ◌≡◌, refl, sym, ap, ◌∙◌, subst, inl, inr, Bool,
  true, false, ◌&&◌, [], ◌∷◌, ◌++◌, arith, leb, ltb, All, All-append, Bool-cases, append-nil,
  append_assoc, dec_lt, ℕ_discrete, ltb_false→le,
}
use mathlib.Core.Path.{ap₂}
use torrent_peer.Torrent.{Bytes}

-- `isdigit`
abbrev pub is_digit : ℕ → Bool
is_digit c = leb b'0' c && leb c b'9'

abbrev pub IsDigit : ℕ → Type 0
IsDigit c = (b'0' ≤ c) × (c ≤ b'9')

-- The number that digits spell behind `n`.
unfoldable pub value : ℕ → Bytes → ℕ
value n [] = n
value n (c ∷ cs) = value (n * 10 + (c - b'0')) cs

-- The digits of `n`, last first reached, in front of `out`; `f` bounds their number.
unfoldable pub digits : ℕ → ℕ → Bytes → Bytes
digits zero n out = out
digits (suc f) n out = elim (ltb n 10) [
  | true ↦ (b'0' + n) ∷ out
  | false ↦ digits f (n / 10) ((b'0' + n % 10) ∷ out)
]

-- The decimal print of a number.
unfoldable pub decimal : ℕ → Bytes
unfolding digits
decimal n = digits (suc n) n []

-- Enough fuel for the digits is any above the number.
digits_out : (f n : ℕ) (out : Bytes) → n < f → digits f n out ≡ digits f n [] ++ out
unfolding digits
digits_out zero n out h = elim h [ ]
digits_out (suc f) n out h = elim (Bool-cases (ltb n 10)) [
  | inl one ↦ ground (arith, one)
  | inr more ↦
      let c = b'0' + n % 10 in
      ground (
        arith,
        more,
        digits_out f (n / 10) (c ∷ out) (omega (arith, ltb_false→le n 10 more)),
        digits_out f (n / 10) (c ∷ []) (omega (arith, ltb_false→le n 10 more)),
        append_assoc (digits f (n / 10) []) (c ∷ []) out,
      )
]

digits_fuel : (f g n : ℕ) (out : Bytes) → n < f → n < g → digits f n out ≡ digits g n out
unfolding digits
digits_fuel zero g n out h k = elim h [ ]
digits_fuel (suc f) zero n out h k = elim k [ ]
digits_fuel (suc f) (suc g) n out h k =
    ground (arith, digits_fuel f g (n / 10) ((b'0' + n % 10) ∷ out))

pub decimal_one : (n : ℕ) → n < 10 → decimal n ≡ (b'0' + n) ∷ []
unfolding decimal
decimal_one n h = ground arith

digits_step :
    (f m : ℕ) (out : Bytes)
    → 10 ≤ m
    → digits (suc f) m out ≡ digits f (m / 10) ((b'0' + m % 10) ∷ out)
unfolding digits
digits_step f m out h = ground arith

pub decimal_more : (n d : ℕ) → 0 < n → d < 10 → decimal (n * 10 + d) ≡ decimal n ++ (b'0' + d) ∷ []
unfolding decimal
decimal_more n d h k =
    let m = n * 10 + d in
    let up : m / 10 ≡ n = omega arith in
    let low : m % 10 ≡ d = omega arith in
    digits_step m m [] (omega arith)
    ∙ ap₂ (λ i j. digits m i ((b'0' + j) ∷ [])) up low
    ∙ digits_fuel m (suc n) n ((b'0' + d) ∷ []) (omega arith) (omega arith)
    ∙ digits_out (suc n) n ((b'0' + d) ∷ []) (omega arith)

-- A run of digits with no zero in front is the decimal print of what it spells.
value_print : (n : ℕ) (cs : Bytes) → 0 < n → All IsDigit cs → decimal (value n cs) ≡ decimal n ++ cs
unfolding value
value_print n [] h a = sym (append-nil (decimal n))
value_print n (c ∷ cs) h a =
    let d = c - b'0' in
    let back : b'0' + d ≡ c = omega (arith, a.0) in
    value_print (n * 10 + d) cs (omega arith) a.1
    ∙ ap (λ x. x ++ cs) (decimal_more n d h (omega (arith, a.0)))
    ∙ append_assoc (decimal n) ((b'0' + d) ∷ []) cs
    ∙ ap (λ x. decimal n ++ x ∷ cs) back

pub decimal-value :
    (c : ℕ) (cs : Bytes)
    → All IsDigit (c ∷ cs)
    → (c ≡ b'0' → cs ≡ [])
    → decimal (value 0 (c ∷ cs)) ≡ c ∷ cs
unfolding value
decimal-value c cs a h = elim (ℕ_discrete c b'0') [
  | yes e ↦
      rw (h e)
        (decimal_one (0 + (c - b'0')) (omega (arith, e)) ∙ ap (λ x. x ∷ []) (omega (arith, a.0)))
  | no ne ↦
      value_print (0 + (c - b'0')) cs (omega (arith, a.0, ne)) a.1
      ∙ ap (λ x. x ++ cs)
          (decimal_one (0 + (c - b'0')) (omega (arith, a.0))
            ∙ ap (λ x. x ∷ []) (omega (arith, a.0)))
]

zero_value : (c : ℕ) → c ≡ b'0' → value 0 (c ∷ []) ≡ 0
unfolding value
zero_value c e = omega arith

tens : (n : ℕ) → n / 10 * 10 + n % 10 ≡ n
tens n = omega arith

value-append : (n : ℕ) (cs : Bytes) (d : ℕ) → value n (cs ++ d ∷ []) ≡ value n cs * 10 + (d - b'0')
unfolding value
value-append n [] d = refl
value-append n (c ∷ cs) d = value-append (n * 10 + (c - b'0')) cs d

-- What a decimal print is: digits that spell the number, with no zero in front.
pub record Prints (n c : ℕ) (cs : Bytes) : Type 0 where
  pub shown : decimal n ≡ c ∷ cs
  pub all_digits : All IsDigit (c ∷ cs)
  pub no_zero : c ≡ b'0' → cs ≡ []
  pub spells : value 0 (c ∷ cs) ≡ n

Prints-one : (n : ℕ) → n < 10 → Prints n (b'0' + n) []
unfolding value
Prints-one n h = record {
  shown = decimal_one n h;
  all_digits = omega arith;
  no_zero = λ _. refl;
  spells = omega arith;
}

Prints-more :
    (n d c : ℕ) (cs : Bytes)
    → 0 < n
    → d < 10
    → Prints n c cs
    → Prints (n * 10 + d) c (cs ++ (b'0' + d) ∷ [])
Prints-more n d c cs h k p = record {
  shown = decimal_more n d h k ∙ ap (λ x. x ++ (b'0' + d) ∷ []) p.shown;
  all_digits = (p.all_digits.0, All-append IsDigit cs _ p.all_digits.1 (omega arith));
  no_zero = λ e. absurd (positive e);
  spells = omega (arith, value-append 0 (c ∷ cs) (b'0' + d), p.spells);
}
  where
    positive : c ≡ b'0' → ⊥
    positive e = omega (arith, h, p.spells, zero_value c e, ap (λ x. value 0 (c ∷ x)) (p.no_zero e))

pub value-decimal : (k n : ℕ) → n < k → (c : ℕ) × (cs : Bytes) × Prints n c cs
value-decimal zero n h = elim h [ ]
value-decimal (suc k) n h = elim (dec_lt n 10) [
  | yes one ↦ (b'0' + n, [], Prints-one n one)
  | no more ↦
      let (c, cs, p) = value-decimal k (n / 10) (omega (arith, more)) in
      (
        c,
        cs ++ (b'0' + n % 10) ∷ [],
        subst (λ m. Prints m c (cs ++ (b'0' + n % 10) ∷ [])) (tens n)
            (Prints-more (n / 10) (n % 10) c cs (omega (arith, more)) (omega arith) p),
      )
]
