-- ===== src/Bencode/Tokens.antt =====
-- `read_string` reads exactly the prints of strings.
use torrent_peer.Prelude.{
  ℕ, suc, ◌+◌, ◌-◌, ◌≤◌, ◌<◌, ◌≡◌, refl, sym, ap, ◌∙◌, subst, true, false, [], ◌∷◌, ◌++◌, arith,
  ◌==◌, length, length-append, length-drop, length-take, take, drop, drop-add, take-append,
  take-append-drop, All, ℕ_discrete, ok,
}
use mathlib.Core.Path.{ap₂}
use torrent_peer.Torrent.{Bytes, u64_mod}
use torrent_peer.Bencode.Digits.{is_digit, IsDigit, value, decimal, decimal-value, value-decimal}
use torrent_peer.Bencode.Input.{
  digit_run_digits, digit_run_split, digit_run-append, rest_here, here_rest, after_token,
  length-rest,
}
use torrent_peer.Bencode.Print.{emit_string}
use torrent_peer.Bencode.{Parser, digit_run, past_end, byte_at, leading_zero, read_string}

canonical_run :
    (ds : Bytes)
    → All IsDigit ds
    → (length ds == 0) ≡ false
    → leading_zero ds ≡ false
    → ds ≡ decimal (value 0 ds)
canonical_run [] a n z = absurd (ground arith)
canonical_run (c ∷ []) a n z = sym (decimal-value c [] a (λ _. refl))
canonical_run (c ∷ d ∷ ds) a n z =
    sym (decimal-value c (d ∷ ds) a (λ e. absurd (ground (arith, e))))

-- The run of digits at `p`, and the byte behind it.
pub record TokenAt (data_ : Bytes) (p c : ℕ) (ds : Bytes) : Type 0 where
  pub all_digits : All IsDigit ds
  pub spelled : drop p data_ ≡ ds ++ c ∷ drop (p + length ds + 1) data_
  pub no_zero : ds ≡ decimal (value 0 ds)
  pub within : p + length ds < length data_

pub run-TokenAt :
    (data_ : Bytes) (p c : ℕ)
    → past_end data_ (p + length (digit_run (drop p data_))) ≡ false
    → (byte_at data_ (p + length (digit_run (drop p data_))) == c) ≡ true
    → (length (digit_run (drop p data_)) == 0) ≡ false
    → leading_zero (digit_run (drop p data_)) ≡ false
    → TokenAt data_ p c (digit_run (drop p data_))
run-TokenAt data_ p c h e n z =
    let ds = digit_run (drop p data_) in
    let digits_here = digit_run_digits (drop p data_) in
    record {
      all_digits = digits_here;
      spelled =
          sym (digit_run_split (drop p data_))
          ∙ ap (λ x. ds ++ x)
              (sym (drop-add p (length ds) data_) ∙ rest_here data_ (p + length ds) c h e);
      no_zero = canonical_run ds digits_here n z;
      within = ground arith;
    }

pub record StringRead (data_ : Bytes) (st : Parser) (s : Bytes) (st' : Parser) : Type 0 where
  pub spelled : drop st.at data_ ≡ emit_string s (drop st'.at data_)
  pub fits : length s < u64_mod
  pub moved : st' ≡ record st { at = st'.at }
  pub forward : st.at < st'.at
  pub within : st'.at ≤ length data_

-- The string behind a length and a colon.
read_token :
    (data_ : Bytes) (st : Parser) (ds : Bytes)
    → TokenAt data_ st.at b':' ds
    → value 0 ds < u64_mod
    → value 0 ds ≤ length data_ - (st.at + length ds + 1)
    → StringRead data_ st
        (take (value 0 ds) (drop (st.at + length ds + 1) data_))
        (record st { at = st.at + length ds + 1 + value 0 ds })
read_token data_ st ds token fits bound =
    let n = value 0 ds in
    let p = st.at + length ds + 1 in
    let len : length (take n (drop p data_)) ≡ n =
      omega (arith, length-take n (drop p data_), length-drop p data_, bound) in
    record {
      spelled =
          token.spelled
          ∙ ap₂ (λ x y. x ++ b':' ∷ y) (token.no_zero ∙ ap decimal (sym len))
              (sym (take-append-drop n (drop p data_))
                ∙ ap (λ x. take n (drop p data_) ++ x) (sym (drop-add p n data_)));
      fits = omega (arith, len, fits);
      moved = refl;
      forward = omega arith;
      within = omega (arith, token.within, bound);
    }

pub no_leading : (c : ℕ) (cs : Bytes) → (c ≡ b'0' → cs ≡ []) → leading_zero (c ∷ cs) ≡ false
no_leading c [] h = ground arith
no_leading c (d ∷ cs) h = elim (ℕ_discrete c b'0') [
  | yes e ↦ absurd (cc (h e))
  | no ne ↦ ground (arith, ne)
]

-- A run of digits that stands at `p` is found.
pub run_complete :
    (data_ : Bytes) (p c : ℕ) (ds r : Bytes)
    → drop p data_ ≡ ds ++ c ∷ r
    → All IsDigit ds
    → is_digit c ≡ false
    → (digit_run (drop p data_) ≡ ds)
      × (p + length ds < length data_)
      × (byte_at data_ (p + length ds) ≡ c)
      × (drop (p + length ds + 1) data_ ≡ r)
run_complete data_ p c ds r h a n =
    let (lt, at, behind) = here_rest data_ (p + length ds) c r (after_token data_ p ds (c ∷ r) h) in
    (ap digit_run h ∙ digit_run-append ds c r a n, lt, at, behind)

-- What a successful `read_string` has tested, and what it returns.
read_string_inv :
    (data_ : Bytes) (st : Parser) {s : Bytes} {st' : Parser}
    → read_string data_ st ≡ ok (s, st')
    → let ds = digit_run (drop st.at data_) in
      (past_end data_ (st.at + length ds) ≡ false)
      × ((byte_at data_ (st.at + length ds) == b':') ≡ true)
      × ((length ds == 0) ≡ false)
      × (leading_zero ds ≡ false)
      × (value 0 ds < u64_mod)
      × (value 0 ds ≤ length data_ - (st.at + length ds + 1))
      × (take (value 0 ds) (drop (st.at + length ds + 1) data_) ≡ s)
      × (record st { at = st.at + length ds + 1 + value 0 ds } ≡ st')
unfolding read_string
read_string_inv data_ st h = ground arith

pub read_string_sound :
    (data_ : Bytes) (st : Parser) {s : Bytes} {st' : Parser}
    → read_string data_ st ≡ ok (s, st')
    → StringRead data_ st s st'
read_string_sound data_ st {s} {st'} h =
    let (t1, t2, t3, t4, t5, t6, e1, e2) = read_string_inv data_ st h in
    subst (λ x. StringRead data_ st x st') e1
      (subst (StringRead data_ st _) e2 (
        read_token data_ st (digit_run (drop st.at data_))
          (run-TokenAt data_ st.at b':' t1 t2 t3 t4) t5 t6))

-- The print of a string is read, wherever it stands.
pub read_string_complete :
    (data_ : Bytes) (st : Parser) (s rest : Bytes)
    → drop st.at data_ ≡ emit_string s rest
    → length s < u64_mod
    → (st' : Parser) × (read_string data_ st ≡ ok (s, st'))
      × (drop st'.at data_ ≡ rest)
      × StringRead data_ st s st'
unfolding read_string
read_string_complete data_ st s rest h fits =
    let (c, cs, p) = value-decimal (suc (length s)) (length s) (omega arith) in
    let ds = c ∷ cs in
    let at_ds = h ∙ ap (λ x. x ++ b':' ∷ (s ++ rest)) p.shown in
    let (run, within, colon, behind) =
      run_complete data_ st.at b':' ds (s ++ rest) at_ds p.all_digits refl in
    let taken = ap (take (length s)) behind ∙ take-append s rest in
    let len =
      length-rest data_ (st.at + length ds + 1) (s ++ rest) behind (omega (arith, within)) in
    let st' : Parser = record st { at = st.at + length ds + 1 + length s } in
    let read : read_string data_ st ≡ ok (s, st') = ground (
      arith,
      run,
      within,
      colon,
      behind,
      taken,
      fits,
      p.spells,
      no_leading c cs p.no_zero,
      len,
      length-append s rest,
    ) in
    (
      st',
      read,
      after_token data_ (st.at + length ds + 1) s rest behind,
      read_string_sound data_ st read,
    )
