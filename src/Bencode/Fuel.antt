-- ===== src/Bencode/Fuel.antt =====
-- The fuel that `parse` gives is enough: the functions of the parser return before it runs out.
use torrent_peer.Prelude.{
  ℕ, zero, suc, ◌+◌, ◌-◌, ◌*◌, ◌≤◌, inl, inr, ◌≢◌, [], Option, none, some, arith, ◌==◌, length, err,
  fuel_ran_out, Bool-cases, Result-cases, dec_lt,
}
use torrent_peer.Torrent.{Bytes}
use torrent_peer.Bencode.Reads.{mark_start_same, mark_end_same}
use torrent_peer.Bencode.Sound.{value_sound}
use torrent_peer.Bencode.Steps.{inside, Kind-cases}
use torrent_peer.Bencode.Tokens.{read_string_sound}
use torrent_peer.Bencode.{
  Parser, past_end, byte_at, is_info, mark_start, mark_end, parse_value, list_loop, dict_loop,
  max_depth, parse, start, fuel_for, parse_int, read_string, check_key, kind_of, enter,
  from_chars_int,
}

tokens_in_fuel :
    (data_ : Bytes) (st : Parser) (last : Option Bytes) (key : Bytes)
    → (read_string data_ st ≢ err fuel_ran_out)
      × (parse_int data_ st ≢ err fuel_ran_out)
      × (check_key last key ≢ err fuel_ran_out)
unfolding read_string parse_int from_chars_int check_key
tokens_in_fuel data_ st none key =
    (λ h. ground (arith, h), λ h. ground (arith, h), λ h. ground (arith, h))
tokens_in_fuel data_ st (some l) key =
    (λ h. ground (arith, h), λ h. ground (arith, h), λ h. ground (arith, h))

mutual
  unfolding parse_value enter

  value_in_fuel :
      (f : ℕ) (data_ : Bytes) (st : Parser)
      → 2 * (length data_ - st.at) + 1 ≤ f
      → parse_value f data_ st ≢ err fuel_ran_out
  value_in_fuel zero data_ st fuel h = omega (arith, fuel)
  value_in_fuel (suc f) data_ st fuel h = elim (Bool-cases (past_end data_ st.at)) [
    | inl past ↦ ground (arith, past, h)
    | inr here ↦
        let (strings, ints, _) = tokens_in_fuel data_ st none [] in
        elim (Kind-cases (kind_of (byte_at data_ st.at))) [
          | inl k ↦ ints (ground (arith, here, k, h))
          | inr (inl k) ↦ elim (dec_lt st.depth max_depth) [
            | no deep ↦ ground (arith, here, k, h, deep)
            | yes room ↦
                items_in_fuel f data_ (inside st) (ground (arith, here, fuel))
                  (ground (arith, here, k, h, room))
          ]
          | inr (inr (inl k)) ↦ elim (dec_lt st.depth max_depth) [
            | no deep ↦ ground (arith, here, k, h, deep)
            | yes room ↦
                fields_in_fuel f data_ none (inside st) (ground (arith, here, fuel))
                  (ground (arith, here, k, h, room))
          ]
          | inr (inr (inr (inl k))) ↦ strings (ground (arith, here, k, h))
          | inr (inr (inr (inr k))) ↦ ground (arith, here, k, h)
        ]
  ]

  items_in_fuel :
      (f : ℕ) (data_ : Bytes) (st : Parser)
      → 2 * (length data_ - st.at) + 2 ≤ f
      → list_loop f data_ st ≢ err fuel_ran_out
  items_in_fuel zero data_ st fuel h = omega (arith, fuel)
  items_in_fuel (suc f) data_ st fuel h = elim (Bool-cases (past_end data_ st.at)) [
    | inl past ↦ ground (arith, past, h)
    | inr here ↦ elim (Bool-cases (byte_at data_ st.at == b'e')) [
      | inl e ↦ ground (arith, here, e, h)
      | inr more ↦ elim (Result-cases (parse_value f data_ st)) [
        | inr (x, e) ↦
            value_in_fuel f data_ st (omega (arith, fuel)) (ground (arith, here, more, e, h))
        | inl ((v, st1), e) ↦
            let r = value_sound f data_ st e in
            items_in_fuel f data_ st1 (omega (arith, fuel, r.forward, r.within))
              (ground (arith, here, more, e, h))
      ]
    ]
  ]

  fields_in_fuel :
      (f : ℕ) (data_ : Bytes) (last : Option Bytes) (st : Parser)
      → 2 * (length data_ - st.at) + 2 ≤ f
      → dict_loop f data_ last st ≢ err fuel_ran_out
  fields_in_fuel zero data_ last st fuel h = omega (arith, fuel)
  fields_in_fuel (suc f) data_ last st fuel h = elim (Bool-cases (past_end data_ st.at)) [
    | inl past ↦ ground (arith, past, h)
    | inr here ↦ elim (Bool-cases (byte_at data_ st.at == b'e')) [
      | inl e ↦ ground (arith, here, e, h)
      | inr more ↦ elim (Result-cases (read_string data_ st)) [
        | inr (x, e) ↦ (tokens_in_fuel data_ st last []).0 (ground (arith, here, more, e, h))
        | inl ((key, st1), e) ↦ elim (Result-cases (check_key last key)) [
          | inr (x, ek) ↦
              (tokens_in_fuel data_ st last key).2 (ground (arith, here, more, e, ek, h))
          | inl (u, ek) ↦
              let b = is_info st1 key in
              let k = read_string_sound data_ st e in
              let (at1, _) = mark_start_same data_ st1 b in
              elim (Result-cases (parse_value f data_ (mark_start b st1))) [
                | inr (x, e1) ↦
                    value_in_fuel f data_ (mark_start b st1) (omega (arith, fuel, k.forward, at1))
                      (ground (arith, here, more, e, ek, e1, h))
                | inl ((v, st2), e1) ↦
                    let r = value_sound f data_ (mark_start b st1) e1 in
                    let (at2, _) = mark_end_same data_ st2 b in
                    fields_in_fuel f data_ (some key) (mark_end b st2)
                      (omega (arith, fuel, k.forward, at1, r.forward, r.within, at2))
                      (ground (arith, here, more, e, ek, e1, h))
              ]
        ]
      ]
    ]
  ]

-- For every input the fuel that bounds the recursion of parse suffices: it never runs out.
pub parse_in_fuel : (data_ : Bytes) → parse data_ ≢ err fuel_ran_out
unfolding parse
parse_in_fuel data_ h = elim (Result-cases (parse_value (fuel_for data_) data_ start)) [
  | inl (x, e) ↦ ground (arith, e, h)
  | inr (x, e) ↦ value_in_fuel (fuel_for data_) data_ start (omega arith) (ground (arith, e, h))
]
