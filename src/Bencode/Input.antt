-- ===== src/Bencode/Input.antt =====
-- The input of the parser as what is left of it, and its runs of digits.
use torrent_peer.Prelude.{
  ℕ, zero, suc, ◌+◌, ◌≤◌, ◌<◌, ◌≡◌, refl, ap, ◌∙◌, true, false, [], ◌∷◌, ◌++◌, arith, ◌==◌, length,
  length-drop, drop, drop-add, drop-eq-cons, drop-append, All,
}
use torrent_peer.Torrent.{Bytes}
use torrent_peer.Bencode.Digits.{is_digit, IsDigit}
use torrent_peer.Bencode.{digit_run, past_end, byte_at}

pub digit_run_digits : (xs : Bytes) → All IsDigit (digit_run xs)
unfolding digit_run
digit_run_digits [] = tt
digit_run_digits (x ∷ xs) = ground (arith, digit_run_digits xs)

pub digit_run_split : (xs : Bytes) → digit_run xs ++ drop (length (digit_run xs)) xs ≡ xs
unfolding digit_run
digit_run_split [] = refl
digit_run_split (x ∷ xs) = ground (arith, digit_run_split xs)

-- A run of digits ends at the first byte that is none.
pub digit_run-append :
    (ds : Bytes) (c : ℕ) (r : Bytes)
    → All IsDigit ds
    → is_digit c ≡ false
    → digit_run (ds ++ c ∷ r) ≡ ds
unfolding digit_run
digit_run-append [] c r a h = ground arith
digit_run-append (d ∷ ds) c r a h = ground (arith, digit_run-append ds c r a.1 h)

-- What is left at `p` starts with the byte at `p`.
pub rest_here :
    (data_ : Bytes) (p c : ℕ)
    → past_end data_ p ≡ false
    → (byte_at data_ p == c) ≡ true
    → drop p data_ ≡ c ∷ drop (p + 1) data_
rest_here data_ p c h e =
    drop-eq-cons p data_ 0 (ground arith)
    ∙ ap (λ x. x ∷ drop (suc p) data_) (ground arith)
    ∙ ap (λ n. c ∷ drop n data_) {x = suc p} (omega arith)

-- And the other way round.
pub here_rest :
    (data_ : Bytes) (p c : ℕ) (r : Bytes)
    → drop p data_ ≡ c ∷ r
    → (p < length data_) × (byte_at data_ p ≡ c) × (drop (p + 1) data_ ≡ r)
here_rest [] zero c r h = absurd (cc)
here_rest [] (suc p) c r h = absurd (cc)
here_rest (x ∷ xs) zero c r h = (omega arith, ground arith, ground arith)
here_rest (x ∷ xs) (suc p) c r h =
    let (lt, at, then_) = here_rest xs p c r h in
    (omega arith, at, ap (λ n. drop n (x ∷ xs)) (suc_add p) ∙ then_)
  where
    suc_add : (p : ℕ) → suc p + 1 ≡ suc (p + 1)
    suc_add p = omega arith

-- After a token `ds` at `p`.
pub after_token :
    (data_ : Bytes) (p : ℕ) (ds r : Bytes) → drop p data_ ≡ ds ++ r → drop (p + length ds) data_ ≡ r
after_token data_ p ds r h =
    drop-add p (length ds) data_ ∙ ap (drop (length ds)) h ∙ drop-append ds r

pub length-rest :
    (data_ : Bytes) (p : ℕ) (r : Bytes)
    → drop p data_ ≡ r
    → p ≤ length data_
    → p + length r ≡ length data_
length-rest data_ p r h le = omega (arith, ap length h, length-drop p data_)
