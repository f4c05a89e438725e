-- ===== src/Bencode/Steps.antt =====
-- One call of each function of the parser: what a success says of the calls that it makes.
use torrent_peer.Prelude.{
  ℕ, suc, ◌+◌, ◌<◌, ◌≡◌, refl, inl, inr, ◌⊎◌, true, false, Option, none, some, arith, ◌==◌,
  Bool-cases, ok, Result-cases, dec_lt,
}
use torrent_peer.Torrent.{Bytes}
use torrent_peer.Bencode.Digits.{is_digit}
use torrent_peer.Bencode.Print.{After}
use torrent_peer.Bencode.{
  Value, Items, Fields, string, list, dict, nil, cons, end, field, Parser, past_end, byte_at,
  read_string, parse_int, check_key, is_info, Kind, an_int, a_list, a_dict, a_string, unknown,
  kind_of, enter, leave, mark_start, mark_end, parse_value, list_loop, dict_loop, max_depth,
}

-- The state inside a list or a dictionary.
abbrev pub inside : Parser → Parser
inside st = record st { at = st.at + 1; depth = st.depth + 1 }

-- The calls behind a value that is read.
pub data ValueStep (f : ℕ) (data_ : Bytes) (st : Parser) (v : Value) (st' : Parser) : Type 0 where
  int_step :
      byte_at data_ st.at ≡ b'i' → parse_int data_ st ≡ ok (v, st') → ValueStep f data_ st v st'
  string_step :
      (s : Bytes)
      → is_digit (byte_at data_ st.at) ≡ true
      → read_string data_ st ≡ ok (s, st')
      → v ≡ string s
      → ValueStep f data_ st v st'
  list_step :
      (vs : Items) (st2 : Parser)
      → (byte_at data_ st.at == b'l') ≡ true
      → st.depth < max_depth
      → list_loop f data_ (inside st) ≡ ok (vs, st2)
      → v ≡ list vs
      → st' ≡ leave st2
      → ValueStep f data_ st v st'
  dict_step :
      (fs : Fields) (st2 : Parser)
      → (byte_at data_ st.at == b'd') ≡ true
      → st.depth < max_depth
      → dict_loop f data_ none (inside st) ≡ ok (fs, st2)
      → v ≡ dict fs
      → st' ≡ leave st2
      → ValueStep f data_ st v st'

pub Kind-cases :
    (k : Kind) → (k ≡ an_int) ⊎ (k ≡ a_list) ⊎ (k ≡ a_dict) ⊎ (k ≡ a_string) ⊎ (k ≡ unknown)
Kind-cases an_int = inl refl
Kind-cases a_list = inr (inl refl)
Kind-cases a_dict = inr (inr (inl refl))
Kind-cases a_string = inr (inr (inr (inl refl)))
Kind-cases unknown = inr (inr (inr (inr refl)))

kind_of_inv :
    (c : ℕ)
    → (kind_of c ≡ an_int → c ≡ b'i')
      × (kind_of c ≡ a_list → (c == b'l') ≡ true)
      × (kind_of c ≡ a_dict → (c == b'd') ≡ true)
      × (kind_of c ≡ a_string → is_digit c ≡ true)
unfolding kind_of
kind_of_inv c = (λ h. ground arith, λ h. ground arith, λ h. ground arith, λ h. ground arith)

check_key_inv :
    (last : Option Bytes) (key : Bytes) {u : Unit {0}} → check_key last key ≡ ok u → After last key
unfolding check_key
check_key_inv none key h = tt
check_key_inv (some l) key h = ground arith

pub parse_value_inv :
    (f : ℕ) (data_ : Bytes) (st : Parser) {v : Value} {st' : Parser}
    → parse_value (suc f) data_ st ≡ ok (v, st')
    → (past_end data_ st.at ≡ false) × ValueStep f data_ st v st'
unfolding parse_value enter
parse_value_inv f data_ st {v} {st'} h = elim (Bool-cases (past_end data_ st.at)) [
  | inl past ↦ absurd (ground arith)
  | inr here ↦ elim (Kind-cases (kind_of (byte_at data_ st.at))) [
    | inl k ↦ (here, int_step ((kind_of_inv _).0 k) (ground arith))
    | inr (inl k) ↦ elim (dec_lt st.depth max_depth) [
      | no deep ↦ absurd (ground (arith, here, k, h, deep))
      | yes room ↦ elim (Result-cases (list_loop f data_ (inside st))) [
        | inr (x, e) ↦ absurd (ground (arith, here, k, h, room, e))
        | inl ((vs, st2), e) ↦ (
          here,
          list_step vs st2 ((kind_of_inv _).1 k) room e (ground (arith, here, k, h, room, e))
              (ground (arith, here, k, h, room, e)),
        )
      ]
    ]
    | inr (inr (inl k)) ↦ elim (dec_lt st.depth max_depth) [
      | no deep ↦ absurd (ground (arith, here, k, h, deep))
      | yes room ↦ elim (Result-cases (dict_loop f data_ none (inside st))) [
        | inr (x, e) ↦ absurd (ground (arith, here, k, h, room, e))
        | inl ((fs, st2), e) ↦ (
          here,
          dict_step fs st2 ((kind_of_inv _).2 k) room e (ground (arith, here, k, h, room, e))
              (ground (arith, here, k, h, room, e)),
        )
      ]
    ]
    | inr (inr (inr (inl k))) ↦ elim (Result-cases (read_string data_ st)) [
      | inr (x, e) ↦ absurd (ground (arith, here, k, h, e))
      | inl ((s, st1), e) ↦ (
        here,
        string_step s ((kind_of_inv _).3 k) (ground (arith, here, k, h, e))
            (ground (arith, here, k, h, e)),
      )
    ]
    | inr (inr (inr (inr k))) ↦ absurd (ground arith)
  ]
]

-- A loop ends at an `e`, or reads an item and goes on.
pub list_loop_inv :
    (f : ℕ) (data_ : Bytes) (st : Parser) {vs : Items} {st' : Parser}
    → list_loop (suc f) data_ st ≡ ok (vs, st')
    → (past_end data_ st.at ≡ false)
      × (((byte_at data_ st.at == b'e') ≡ true) × (vs ≡ nil) × (st' ≡ st)
          ⊎ ((v : Value) × (ws : Items) × (st1 : Parser) × (parse_value f data_ st ≡ ok (v, st1))
              × (list_loop f data_ st1 ≡ ok (ws, st'))
              × (vs ≡ cons v ws)))
unfolding list_loop
list_loop_inv f data_ st {vs} {st'} h = elim (Bool-cases (past_end data_ st.at)) [
  | inl past ↦ absurd (ground (arith, past, h))
  | inr here ↦ elim (Bool-cases (byte_at data_ st.at == b'e')) [
    | inl e ↦ (here, inl (e, ground (arith, here, e, h), ground (arith, here, e, h)))
    | inr more ↦ elim (Result-cases (parse_value f data_ st)) [
      | inr (x, e) ↦ absurd (ground (arith, here, more, e, h))
      | inl ((v, st1), e) ↦ elim (Result-cases (list_loop f data_ st1)) [
        | inr (x, e1) ↦ absurd (ground (arith, here, more, e, e1, h))
        | inl ((ws, st2), e1) ↦ (
          here,
          inr (
            v,
            ws,
            st1,
            e,
            ground (arith, here, more, e, e1, h),
            ground (arith, here, more, e, e1, h),
          ),
        )
      ]
    ]
  ]
]

pub dict_loop_inv :
    (f : ℕ) (data_ : Bytes) (last : Option Bytes) (st : Parser) {fs : Fields} {st' : Parser}
    → dict_loop (suc f) data_ last st ≡ ok (fs, st')
    → (past_end data_ st.at ≡ false)
      × (((byte_at data_ st.at == b'e') ≡ true) × (fs ≡ end) × (st' ≡ st)
          ⊎ ((key : Bytes) × (v : Value) × (gs : Fields) × (st1 : Parser) × (st2 : Parser)
              × (read_string data_ st ≡ ok (key, st1))
              × After last key
              × (parse_value f data_ (mark_start (is_info st1 key) st1) ≡ ok (v, st2))
              × (dict_loop f data_ (some key) (mark_end (is_info st1 key) st2) ≡ ok (gs, st'))
              × (fs ≡ field key v gs)))
unfolding dict_loop
dict_loop_inv f data_ last st {fs} {st'} h = elim (Bool-cases (past_end data_ st.at)) [
  | inl past ↦ absurd (ground (arith, past, h))
  | inr here ↦ elim (Bool-cases (byte_at data_ st.at == b'e')) [
    | inl e ↦ (here, inl (e, ground (arith, here, e, h), ground (arith, here, e, h)))
    | inr more ↦ elim (Result-cases (read_string data_ st)) [
      | inr (x, e) ↦ absurd (ground (arith, here, more, e, h))
      | inl ((key, st1), e) ↦ elim (Result-cases (check_key last key)) [
        | inr (x, ek) ↦ absurd (ground (arith, here, more, e, ek, h))
        | inl (u, ek) ↦
            elim (Result-cases (parse_value f data_ (mark_start (is_info st1 key) st1))) [
              | inr (x, e1) ↦ absurd (ground (arith, here, more, e, ek, e1, h))
              | inl ((v, st2), e1) ↦
                  elim (Result-cases
                    (dict_loop f data_ (some key) (mark_end (is_info st1 key) st2))) [
                      | inr (x, e2) ↦ absurd (ground (arith, here, more, e, ek, e1, e2, h))
                      | inl ((gs, st3), e2) ↦ (
                        here,
                        inr (
                          key,
                          v,
                          gs,
                          st1,
                          st2,
                          e,
                          check_key_inv last key ek,
                          e1,
                          ground (arith, here, more, e, ek, e1, e2, h),
                          ground (arith, here, more, e, ek, e1, e2, h),
                        ),
                      )
                    ]
            ]
      ]
    ]
  ]
]
