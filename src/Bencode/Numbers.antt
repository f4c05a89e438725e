-- ===== src/Bencode/Numbers.antt =====
-- `parse_int` reads exactly the prints of numbers.
use torrent_peer.Prelude.{
  ℕ, suc, ◌+◌, ◌-◌, ◌^◌, ◌≤◌, ◌<◌, ◌≡◌, refl, sym, ap, ◌∙◌, subst, inl, inr, ◌≢◌, Bool, true, false,
  ◌&&◌, ◌∷◌, ◌++◌, arith, ◌==◌, length, get_or, drop, Bool-cases, Result-cases, ok, err, Exception,
}
use torrent_peer.Prelude.Int.{ℤ, pos, negsuc}
use torrent_peer.Torrent.{Bytes}
use torrent_peer.Bencode.Digits.{value, decimal, decimal_one, value-decimal, Prints}
use torrent_peer.Bencode.Input.{rest_here, here_rest}
use torrent_peer.Bencode.Print.{emit_int, InRange}
use torrent_peer.Bencode.{
  Value, int, Parser, digit_run, past_end, byte_at, leading_zero, is_negative, digits_from,
  from_chars_int, parse_int,
}
use torrent_peer.Bencode.Tokens.{run-TokenAt, run_complete, no_leading}

pub record IntRead (data_ : Bytes) (st : Parser) (z : ℤ) (st' : Parser) : Type 0 where
  pub spelled : drop st.at data_ ≡ emit_int z (drop st'.at data_)
  pub fits : InRange z
  pub moved : st' ≡ record st { at = st'.at }
  pub forward : st.at < st'.at
  pub within : st'.at ≤ length data_

-- The digits of a number, where the code looks for them.
abbrev number_run : Bytes → ℕ → Bytes
number_run data_ first = digit_run (drop (digits_from data_ first) data_)

-- What a successful `parse_int` has tested, and what it returns.
record IntTests (data_ : Bytes) (first : ℕ) : Type 0 where
  not_past : past_end data_ (digits_from data_ first + length (number_run data_ first)) ≡ false
  ended : (byte_at data_ (digits_from data_ first + length (number_run data_ first)) == b'e') ≡ true
  some_digit : (length (number_run data_ first) == 0) ≡ false
  plain : leading_zero (number_run data_ first) ≡ false
  nonzero : (get_or (number_run data_ first) 0 0 == b'0' && is_negative data_ first) ≡ false

parse_int_inv :
    (data_ : Bytes) (st : Parser) (z : ℤ) {v : Value} {st' : Parser}
    → from_chars_int (is_negative data_ (st.at + 1)) (value 0 (number_run data_ (st.at + 1))) ≡ ok z
    → parse_int data_ st ≡ ok (v, st')
    → IntTests data_ (st.at + 1)
      × (v ≡ int z)
      × (record st {
        at = digits_from data_ (st.at + 1) + length (number_run data_ (st.at + 1)) + 1;
      }
          ≡ st')
unfolding parse_int
parse_int_inv data_ st z e h = ground arith

parse_int_err :
    (data_ : Bytes) (st : Parser) (x : Exception) {v : Value} {st' : Parser}
    → from_chars_int (is_negative data_ (st.at + 1)) (value 0 (number_run data_ (st.at + 1)))
      ≡ err x
    → parse_int data_ st ≡ ok (v, st')
    → ⊥
unfolding parse_int
parse_int_err data_ st x e h = ground arith

from_chars_plus : (n : ℕ) {z : ℤ} → from_chars_int false n ≡ ok z → (z ≡ pos n) × (n < 2 ^ 63)
unfolding from_chars_int
from_chars_plus n h = ground arith

from_chars_minus :
    (n : ℕ) {z : ℤ} → n ≢ 0 → from_chars_int true n ≡ ok z → (z ≡ negsuc (n - 1)) × (n - 1 < 2 ^ 63)
unfolding from_chars_int
from_chars_minus n ne h = ground (arith, ne)

-- A minus sign stands before no zero.
minus_nonzero :
    (ds : Bytes) → ds ≡ decimal (value 0 ds) → (get_or ds 0 0 == b'0') ≡ false → value 0 ds ≢ 0
minus_nonzero ds canon h e =
    let zero_ds = canon ∙ ap decimal e ∙ decimal_one 0 (omega arith) in
    ground (arith, h, ap (λ x. get_or x 0 0) zero_ds)

number_read :
    (data_ : Bytes) (st : Parser) (z : ℤ)
    → past_end data_ st.at ≡ false
    → byte_at data_ st.at ≡ b'i'
    → IntTests data_ (st.at + 1)
    → from_chars_int (is_negative data_ (st.at + 1)) (value 0 (number_run data_ (st.at + 1))) ≡ ok z
    → IntRead data_ st z (record st {
      at = digits_from data_ (st.at + 1) + length (number_run data_ (st.at + 1)) + 1;
    })
number_read data_ st z here i t e =
    let first = st.at + 1 in
    let from = digits_from data_ first in
    let ds = number_run data_ first in
    let rest = drop (from + length ds + 1) data_ in
    let end_st : Parser = record st { at = from + length ds + 1 } in
    let token = run-TokenAt data_ from b'e' t.not_past t.ended t.some_digit t.plain in
    let opening = rest_here data_ st.at b'i' here (ground (arith, i)) in
    let digits_end = token.spelled ∙ ap (λ x. x ++ b'e' ∷ rest) token.no_zero in
    elim (Bool-cases (is_negative data_ first)) [
      | inr plus ↦
          let (at_z, small) =
            from_chars_plus (value 0 ds) (ap (λ b. from_chars_int b (value 0 ds)) (sym plus) ∙ e) in
          let start_at : first ≡ from = ground (arith, plus) in
          subst (λ y. IntRead data_ st y end_st) (sym at_z)
            (record {
              spelled =
                  opening ∙ ap (λ p. b'i' ∷ drop p data_) start_at ∙ ap (λ x. b'i' ∷ x) digits_end;
              fits = small;
              moved = refl;
              forward = ground (arith, plus);
              within = omega (arith, token.within);
            })
      | inl minus ↦
          let ne = minus_nonzero ds token.no_zero (ground (arith, minus, t.nonzero)) in
          let (at_z, small) =
            from_chars_minus (value 0 ds) ne
              (ap (λ b. from_chars_int b (value 0 ds)) (sym minus) ∙ e) in
          let start_at : first + 1 ≡ from = ground (arith, minus) in
          let sign = rest_here data_ first b'-' (ground (arith, minus)) (ground (arith, minus)) in
          let up : value 0 ds ≡ suc (value 0 ds - 1) = omega (arith, ne) in
          subst (λ y. IntRead data_ st y end_st) (sym at_z)
            (record {
              spelled =
                  opening
                  ∙ ap (λ x. b'i' ∷ x)
                      (sign
                        ∙ ap (λ p. b'-' ∷ drop p data_) start_at
                        ∙ ap (λ x. b'-' ∷ x) (digits_end ∙ ap (λ n. decimal n ++ b'e' ∷ rest) up));
              fits = small;
              moved = refl;
              forward = ground (arith, minus);
              within = omega (arith, token.within);
            })
    ]

-- `i` at the parser's position: the number behind it, as it is printed.
pub parse_int_sound :
    (data_ : Bytes) (st : Parser) {v : Value} {st' : Parser}
    → past_end data_ st.at ≡ false
    → byte_at data_ st.at ≡ b'i'
    → parse_int data_ st ≡ ok (v, st')
    → (z : ℤ) × (v ≡ int z) × IntRead data_ st z st'
parse_int_sound data_ st {v} {st'} here i h =
    elim (Result-cases
      (from_chars_int (is_negative data_ (st.at + 1)) (value 0 (number_run data_ (st.at + 1))))) [
        | inl (z, e) ↦
            let (t, at_v, moved) = parse_int_inv data_ st z e h in
            (z, at_v, subst (IntRead data_ st z) moved (number_read data_ st z here i t e))
        | inr (x, e) ↦ absurd (parse_int_err data_ st x e h)
      ]

plus_chars :
    (neg : Bool) (m n : ℕ) → neg ≡ false → m ≡ n → n < 2 ^ 63 → from_chars_int neg m ≡ ok (pos n)
unfolding from_chars_int
plus_chars neg m n h e fits = ground arith

minus_chars :
    (neg : Bool) (m n : ℕ)
    → neg ≡ true
    → m ≡ suc n
    → n < 2 ^ 63
    → from_chars_int neg m ≡ ok (negsuc n)
unfolding from_chars_int
minus_chars neg m n h e fits = ground arith

-- The print of a positive number starts with no zero.
first_nonzero : (c : ℕ) (cs : Bytes) (n : ℕ) → Prints n c cs → 0 < n → c ≢ b'0'
unfolding value
first_nonzero c cs n p h e = omega (arith, e, h, p.spells, ap (λ x. value 0 (c ∷ x)) (p.no_zero e))

-- The number is read once its digits are found.
parse_int_run :
    (data_ : Bytes) (st : Parser) (c : ℕ) (cs : Bytes) (z : ℤ)
    → number_run data_ (st.at + 1) ≡ c ∷ cs
    → digits_from data_ (st.at + 1) + length (c ∷ cs) < length data_
    → byte_at data_ (digits_from data_ (st.at + 1) + length (c ∷ cs)) ≡ b'e'
    → leading_zero (c ∷ cs) ≡ false
    → ((c == b'0') && is_negative data_ (st.at + 1)) ≡ false
    → from_chars_int (is_negative data_ (st.at + 1)) (value 0 (c ∷ cs)) ≡ ok z
    → parse_int data_ st
      ≡ ok (int z, record st { at = digits_from data_ (st.at + 1) + length (c ∷ cs) + 1 })
unfolding parse_int
parse_int_run data_ st c cs z run within ended plain nonzero e = ground (arith, run)

-- The print of a number is read, wherever it stands.
pub parse_int_complete :
    (data_ : Bytes) (st : Parser) (z : ℤ) (rest : Bytes)
    → drop st.at data_ ≡ emit_int z rest
    → InRange z
    → (st' : Parser) × (parse_int data_ st ≡ ok (int z, st')) × (drop st'.at data_ ≡ rest)
parse_int_complete data_ st (pos n) rest h fits =
    let first = st.at + 1 in
    let (c, cs, p) = value-decimal (suc n) n (omega arith) in
    let (_, _, behind) = here_rest data_ st.at b'i' (decimal n ++ b'e' ∷ rest) h in
    let at_ds = behind ∙ ap (λ x. x ++ b'e' ∷ rest) p.shown in
    let (_, at_c, _) = here_rest data_ first c (cs ++ b'e' ∷ rest) at_ds in
    let plus : is_negative data_ first ≡ false = ground (arith, at_c, p.all_digits) in
    let from : digits_from data_ first ≡ first = ground (arith, plus) in
    let (run, within, ended, left) =
      run_complete data_ (digits_from data_ first) b'e' (c ∷ cs) rest
        (ap (λ q. drop q data_) from ∙ at_ds) p.all_digits refl in
    (
      record st { at = digits_from data_ first + length (c ∷ cs) + 1 },
      parse_int_run data_ st c cs (pos n) run within ended (no_leading c cs p.no_zero)
          (ground (arith, plus))
          (plus_chars (is_negative data_ first) (value 0 (c ∷ cs)) n plus p.spells fits),
      left,
    )
parse_int_complete data_ st (negsuc n) rest h fits =
    let first = st.at + 1 in
    let (c, cs, p) = value-decimal (suc (suc n)) (suc n) (omega arith) in
    let (_, _, opened) = here_rest data_ st.at b'i' (b'-' ∷ (decimal (suc n) ++ b'e' ∷ rest)) h in
    let (lt, sign, behind) = here_rest data_ first b'-' (decimal (suc n) ++ b'e' ∷ rest) opened in
    let at_ds = behind ∙ ap (λ x. x ++ b'e' ∷ rest) p.shown in
    let minus : is_negative data_ first ≡ true = ground (arith, lt, sign) in
    let from : digits_from data_ first ≡ first + 1 = ground (arith, minus) in
    let (run, within, ended, left) =
      run_complete data_ (digits_from data_ first) b'e' (c ∷ cs) rest
        (ap (λ q. drop q data_) from ∙ at_ds) p.all_digits refl in
    (
      record st { at = digits_from data_ first + length (c ∷ cs) + 1 },
      parse_int_run data_ st c cs (negsuc n) run within ended (no_leading c cs p.no_zero)
          (ground (arith, first_nonzero c cs (suc n) p (omega arith)))
          (minus_chars (is_negative data_ first) (value 0 (c ∷ cs)) n minus p.spells fits),
      left,
    )
