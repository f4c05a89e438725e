-- ===== src/Wire/Frames.antt =====
-- A message that is built is the message that is cut from the stream, whatever follows it.
use torrent_peer.Prelude.{
  ℕ, ◌+◌, ◌*◌, ◌/◌, ◌%◌, ◌^◌, ◌≤◌, ◌<◌, ◌≡◌, refl, sym, ap, ◌∙◌, [], ◌∷◌, ◌++◌, Option, none, some,
  arith, length, length-append, take, drop, drop-add, take-append, drop-append, Result, ok,
  append_assoc,
}
use mathlib.Core.Path.{ap₂}
use torrent_peer.Torrent.{Bytes}
use torrent_peer.Wire.{htonl, ntohl_at, extract_message, build_message}

-- The byte order is undone.
pub bytes_of :
    (n : ℕ)
    → n < 2 ^ 32
    → n / 2 ^ 24 % 256 * 2 ^ 24 + n / 2 ^ 16 % 256 * 2 ^ 16 + n / 2 ^ 8 % 256 * 2 ^ 8 + n % 256 ≡ n
bytes_of n h = omega (arith, h)

pub ntohl-htonl : (n : ℕ) (rest : Bytes) → n < 2 ^ 32 → ntohl_at (htonl n ++ rest) 0 ≡ n
unfolding ntohl_at htonl
ntohl-htonl n rest h = bytes_of n h

length-htonl : (n : ℕ) → length (htonl n) ≡ 4
unfolding htonl
length-htonl n = refl

-- A frame: the length of a body, and the body.
pub extract_frame :
    (body rest : Bytes)
    → length body ≤ 2 ^ 20
    → extract_message (htonl (length body) ++ (body ++ rest)) ≡ ok (some body, rest)
unfolding extract_message
extract_frame body rest h =
    let buf = htonl (length body) ++ (body ++ rest) in
    let n : ntohl_at buf 0 ≡ length body =
      ntohl-htonl (length body) (body ++ rest) (omega (arith, h)) in
    let behind : drop 4 buf ≡ body ++ rest =
      ap (λ k. drop k buf) (sym (length-htonl (length body)))
      ∙ drop-append (htonl (length body)) (body ++ rest) in
    let message = ap (take (length body)) behind ∙ take-append body rest in
    let left =
      drop-add 4 (length body) buf ∙ ap (drop (length body)) behind ∙ drop-append body rest in
    let size : length buf ≡ 4 + (length body + length rest) =
      length-append (htonl (length body)) (body ++ rest)
      ∙ ap₂ (λ a b. a + b) (length-htonl (length body)) (length-append body rest) in
    framed buf (length body) n (omega (arith, size)) h (ap₂ (λ m r. ok (some m, r)) message left)
  where
    framed :
        (buf : Bytes) (len : ℕ) {r : Result (Option Bytes × Bytes)}
        → ntohl_at buf 0 ≡ len
        → 4 + len ≤ length buf
        → len ≤ 2 ^ 20
        → ok (some (take len (drop 4 buf)), drop (4 + len) buf) ≡ r
        → extract_message buf ≡ r
    framed buf len n size h result = ground (arith, n, size, h, result)

-- A built message with a payload below 1 MiB at the front of the buffer is extracted as its id
-- and payload, and what follows stays in the buffer.
pub extract-build_message :
    (id : ℕ) (payload rest : Bytes)
    → length payload < 2 ^ 20
    → extract_message (build_message id payload ++ rest) ≡ ok (some (id ∷ payload), rest)
unfolding extract_message build_message
extract-build_message id payload rest h =
    let body = id ∷ payload in
    let len : (1 + length payload) % 2 ^ 32 ≡ length body = omega (arith, h) in
    ap (λ k. extract_message (htonl k ++ body ++ rest)) len
    ∙ ap extract_message (append_assoc (htonl (length body)) body rest)
    ∙ extract_frame body rest (omega (arith, h))

same_length :
    (a b c d : ℕ) (p missing : Bytes)
    → ntohl_at (a ∷ b ∷ c ∷ d ∷ p) 0 ≡ ntohl_at ((a ∷ b ∷ c ∷ d ∷ p) ++ missing) 0
unfolding ntohl_at
same_length a b c d p missing = refl

-- While a frame of at most 1 MiB is not whole in the buffer, extract_message takes nothing and
-- throws nothing.
pub extract_partial :
    (body part : Bytes) (missing : Bytes)
    → length body ≤ 2 ^ 20
    → 0 < length missing
    → part ++ missing ≡ htonl (length body) ++ body
    → extract_message part ≡ ok (none, part)
unfolding extract_message
extract_partial body [] missing h more whole = refl
extract_partial body (a ∷ []) missing h more whole = refl
extract_partial body (a ∷ b ∷ []) missing h more whole = refl
extract_partial body (a ∷ b ∷ c ∷ []) missing h more whole = refl
extract_partial body (a ∷ b ∷ c ∷ d ∷ p) missing h more whole =
    let part = a ∷ b ∷ c ∷ d ∷ p in
    let n : ntohl_at part 0 ≡ length body =
      same_length a b c d p missing
      ∙ ap (λ l. ntohl_at l 0) whole
      ∙ ntohl-htonl (length body) body (omega (arith, h)) in
    let size : length part + length missing ≡ 4 + length body =
      sym (length-append part missing)
      ∙ ap length whole
      ∙ length-append (htonl (length body)) body
      ∙ ap (λ k. k + length body) (length-htonl (length body)) in
    waits part (length body) n h (omega (arith, size, more))
  where
    waits :
        (part : Bytes) (len : ℕ)
        → ntohl_at part 0 ≡ len
        → len ≤ 2 ^ 20
        → length part < 4 + len
        → extract_message part ≡ ok (none, part)
    waits part len n h short = ground (arith, n, h, short)
