-- ===== src/Wire/Queued.antt =====
-- The queue of messages: its byte count is kept by every operation, and a message that is partly
-- sent stays in front.
use torrent_peer.Prelude.{
  ℕ, ◌+◌, ◌-◌, ◌≤◌, ◌<◌, ◌≡◌, refl, sym, ap, subst, inl, inr, Bool, true, false, List, [], ◌∷◌,
  ◌++◌, some, ltb, ◌==◌, arith, length, take, drop, Bool-cases, Option-cases, List-cases, All,
  All-append,
}
use torrent_peer.Torrent.{Bytes}
use torrent_peer.Wire.{
  Outbox, is_queued_piece, take_first, first_open, without, remove_queued_piece, enqueue, on_sent,
}

-- The bytes of the messages of a queue.
abbrev pub bytes_in : List Bytes → ℕ
bytes_in [] = 0
bytes_in (m ∷ ms) = length m + bytes_in ms

-- The cursor stands inside the first message, at the start of an empty queue.
abbrev pub CursorOk : List Bytes → ℕ → Type 0
CursorOk [] cursor = cursor ≡ 0
CursorOk (m ∷ ms) cursor = cursor < length m

-- The count is of what is queued, no message is empty, and the cursor is in the first.
pub record IsCoherent (c : Outbox) : Type 0 where
  pub counted : c.queued_bytes ≡ bytes_in c.write_buffer
  pub no_empty : All (λ m. 0 < length m) c.write_buffer
  pub cursor_ok : CursorOk c.write_buffer c.cursor

bytes_in-append : (xs ys : List Bytes) → bytes_in (xs ++ ys) ≡ bytes_in xs + bytes_in ys
bytes_in-append [] ys = omega arith
bytes_in-append (x ∷ xs) ys = omega (arith, bytes_in-append xs ys)

pub enqueue-IsCoherent :
    (c : Outbox) → IsCoherent c → (msg : Bytes) → 0 < length msg → IsCoherent (enqueue c msg)
unfolding enqueue
enqueue-IsCoherent c v msg h = record {
  counted = omega (arith, v.counted, bytes_in-append c.write_buffer (msg ∷ []));
  no_empty = All-append (λ m. 0 < length m) c.write_buffer (msg ∷ []) v.no_empty (h, tt);
  cursor_ok = later c.write_buffer c.cursor v.cursor_ok;
}
  where
    later : (ms : List Bytes) (k : ℕ) → CursorOk ms k → CursorOk (ms ++ msg ∷ []) k
    later [] k e = omega (arith, e, h)
    later (m ∷ ms) k e = e

-- What `take_first` takes and leaves.
take_first_lem :
    (test : Bytes → Bool) (ms : List Bytes) (m : Bytes) (rest : List Bytes)
    → take_first test ms ≡ some (m, rest)
    → (test m ≡ true)
      × (bytes_in ms ≡ length m + bytes_in rest)
      × (All (λ m. 0 < length m) ms → All (λ m. 0 < length m) rest)
unfolding take_first
take_first_lem test [] m rest h = absurd (cc)
take_first_lem test (x ∷ xs) m rest h = elim (Bool-cases (test x)) [
  | inl e ↦ (ground (arith, e, h), ground (arith, e, h), λ a. ground (arith, e, h, a))
  | inr e ↦ elim (Option-cases (take_first test xs)) [
    | inl e1 ↦ absurd (ground (arith, e, e1, h))
    | inr ((y, ys), e1) ↦
        let (passed, counted, kept) = take_first_lem test xs y ys e1 in
        (
          ground (arith, e, e1, h, passed),
          ground (arith, e, e1, h, counted),
          λ a. ground (arith, e, e1, h, kept a.1, a),
        )
  ]
]

starts_ok : (ms : List Bytes) → All (λ m. 0 < length m) ms → CursorOk ms 0
starts_ok [] a = refl
starts_ok (m ∷ ms) a = a.0

-- The queue without one message that stands behind `front`, or without one when nothing is sent.
removed-IsCoherent :
    (c : Outbox)
    → IsCoherent c
    → (test : Bytes → Bool) (m : Bytes) (rest : List Bytes)
    → take_first test (drop (first_open c) c.write_buffer) ≡ some (m, rest)
    → IsCoherent (record c {
      write_buffer = take (first_open c) c.write_buffer ++ rest;
      queued_bytes = c.queued_bytes - length m;
    })
removed-IsCoherent c v test m rest h = elim (Bool-cases (ltb 0 c.cursor)) [
  | inr unsent ↦
      let at_start : c.cursor ≡ 0 = ground (arith, unsent) in
      let (_, counted, kept) =
        take_first_lem test c.write_buffer m rest (ground (arith, unsent, h)) in
      let kept_all = kept v.no_empty in
      subst
        (λ k. IsCoherent (record c {
          write_buffer = take k c.write_buffer ++ rest;
          queued_bytes = c.queued_bytes - length m;
        }))
        (sym (when_unsent c unsent))
        (record {
          counted = omega (arith, v.counted, counted);
          no_empty = kept_all;
          cursor_ok = subst (CursorOk rest) (sym at_start) (starts_ok rest kept_all);
        })
  | inl sent ↦ elim (List-cases c.write_buffer) [
    | inl e ↦ absurd (ground (arith, sent, subst (λ ms. CursorOk ms c.cursor) e v.cursor_ok))
    | inr (front, ms, e) ↦
        let no_empty = subst (All (λ m. 0 < length m)) e v.no_empty in
        let in_front = subst (λ ms. CursorOk ms c.cursor) e v.cursor_ok in
        let found : take_first test ms ≡ some (m, rest) = ground (arith, sent, e, h) in
        let (_, counted, kept) = take_first_lem test ms m rest found in
        subst
          (λ xs.
            IsCoherent (record c { write_buffer = xs; queued_bytes = c.queued_bytes - length m }))
          (sym (when_sent c front ms rest sent e))
          (record {
            counted = omega (arith, v.counted, ap bytes_in e, counted);
            no_empty = (no_empty.0, kept no_empty.1);
            cursor_ok = in_front;
          })
  ]
]
  where
    when_unsent : (c : Outbox) → ltb 0 c.cursor ≡ false → first_open c ≡ 0
    when_unsent c h = ground (arith, h)

    when_sent :
        (c : Outbox) (front : Bytes) (ms rest : List Bytes)
        → ltb 0 c.cursor ≡ true
        → c.write_buffer ≡ front ∷ ms
        → take (first_open c) c.write_buffer ++ rest ≡ front ∷ rest
    when_sent c front ms rest h e = ground (arith, h, e)

-- Removing a queued piece keeps the queue coherent: the byte count is that of the queued
-- messages, none is empty, and the cursor stays in the first message.
pub remove_queued_piece-IsCoherent :
    (c : Outbox)
    → IsCoherent c
    → (index begin len : ℕ) → IsCoherent (remove_queued_piece c index begin len).1
unfolding remove_queued_piece
remove_queued_piece-IsCoherent c v index begin len =
    let test = is_queued_piece index begin len in
    elim (Option-cases (take_first test (drop (first_open c) c.write_buffer))) [
      | inl e ↦ subst (λ o. IsCoherent (without c o).1) (sym e) v
      | inr ((m, rest), e) ↦
          subst (λ o. IsCoherent (without c o).1) (sym e) (removed-IsCoherent c v test m rest e)
    ]

-- A send of at most what is left of the first message keeps the queue coherent.
pub on_sent-IsCoherent :
    (c : Outbox)
    → IsCoherent c
    → (front : Bytes) (rest : List Bytes) (w : ℕ) → c.write_buffer ≡ front ∷ rest
    → c.cursor + w ≤ length front
    → IsCoherent (on_sent c w)
unfolding on_sent
on_sent-IsCoherent c v front rest w e le =
    let no_empty = subst (All (λ m. 0 < length m)) e v.no_empty in
    elim (Bool-cases (c.cursor + w == length front)) [
      | inl whole ↦ rw e (
          rw whole (record {
            counted = omega (arith, v.counted, ap bytes_in e);
            no_empty = no_empty.1;
            cursor_ok = starts_ok rest no_empty.1;
          }))
      | inr part ↦ rw e (
          rw part (record {
            counted = omega (arith, v.counted, ap bytes_in e);
            no_empty = no_empty;
            cursor_ok = ground (arith, part, le);
          }))
    ]
