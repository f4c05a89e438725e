-- ===== src/Bencode/Sound.antt =====
-- Soundness of the parser: what it reads is the one bencoding of the value that it returns.
use torrent_peer.Prelude.{
  ℕ, zero, suc, ◌≤◌, ◌≡◌, sym, ap, ◌∙◌, subst, inl, inr, [], Option, none, some, arith, length,
  drop_all, ok, Result-cases,
}
use mathlib.Core.Path.{subst₂}
use torrent_peer.Torrent.{Bytes}
use torrent_peer.Bencode.Print.{emit, ValueOk}
use torrent_peer.Bencode.Tokens.{read_string_sound}
use torrent_peer.Bencode.Numbers.{parse_int_sound}
use torrent_peer.Bencode.Reads.{
  ValueRead, ItemsRead, FieldsRead, int_value, string_value, list_value, dict_value, no_items,
  no_fields, more_items, more_fields,
}
use torrent_peer.Bencode.Steps.{
  int_step, string_step, list_step, dict_step, inside, parse_value_inv, list_loop_inv,
  dict_loop_inv,
}
use torrent_peer.Bencode.{
  Value, Items, Fields, list, nil, end, Parser, is_info, mark_start, mark_end, parse_value,
  list_loop, dict_loop, parse, start, fuel_for,
}

no_fuel :
    (data_ : Bytes) (st : Parser) (last : Option Bytes) {v : Value} {vs : Items} {fs : Fields}
    {st' : Parser}
    → (parse_value 0 data_ st ≡ ok (v, st') → ⊥)
      × (list_loop 0 data_ st ≡ ok (vs, st') → ⊥)
      × (dict_loop 0 data_ last st ≡ ok (fs, st') → ⊥)
unfolding parse_value list_loop dict_loop
no_fuel data_ st last = (λ h. cc, λ h. cc, λ h. cc)

mutual
  pub value_sound :
      (f : ℕ) (data_ : Bytes) (st : Parser) {v : Value} {st' : Parser}
      → parse_value f data_ st ≡ ok (v, st')
      → ValueRead data_ st v st'
  value_sound zero data_ st {v} {st'} h =
      absurd ((no_fuel data_ st none {v = v} {vs = nil} {fs = end} {st' = st'}).0 h)
  value_sound (suc f) data_ st {v} {st'} h =
      let (here, step) = parse_value_inv f data_ st h in
      elim step [
        | int_step i e ↦
            let (z, at_z, r) = parse_int_sound data_ st here i e in
            subst (λ x. ValueRead data_ st x st') (sym at_z) (int_value data_ st z st' r)
        | string_step s d e at_s ↦
            subst (λ x. ValueRead data_ st x st') (sym at_s)
              (string_value data_ st s st' (read_string_sound data_ st e))
        | list_step vs st2 at_l room e at_v at_st ↦
            subst₂ (ValueRead data_ st) (sym at_v) (sym at_st)
              (list_value data_ st vs st2 here at_l room (items_sound f data_ (inside st) e))
        | dict_step fs st2 at_d room e at_v at_st ↦
            subst₂ (ValueRead data_ st) (sym at_v) (sym at_st)
              (dict_value data_ st fs st2 here at_d room (fields_sound f data_ none (inside st) e))
      ]

  pub items_sound :
      (f : ℕ) (data_ : Bytes) (st : Parser) {vs : Items} {st' : Parser}
      → list_loop f data_ st ≡ ok (vs, st')
      → ItemsRead data_ st vs st'
  items_sound zero data_ st {vs} {st'} h =
      absurd ((no_fuel data_ st none {v = list nil} {vs = vs} {fs = end} {st' = st'}).1 h)
  items_sound (suc f) data_ st {vs} {st'} h =
      let (here, step) = list_loop_inv f data_ st h in
      elim step [
        | inl (e, at_v, at_st) ↦
            subst₂ (ItemsRead data_ st) (sym at_v) (sym at_st) (no_items data_ st here e)
        | inr (v, ws, st1, e, e1, at_v) ↦
            subst (λ x. ItemsRead data_ st x st') (sym at_v)
              (more_items data_ st v ws st1 st' (value_sound f data_ st e)
                (items_sound f data_ st1 e1))
      ]

  pub fields_sound :
      (f : ℕ) (data_ : Bytes) (last : Option Bytes) (st : Parser) {fs : Fields} {st' : Parser}
      → dict_loop f data_ last st ≡ ok (fs, st')
      → FieldsRead data_ last st fs st'
  fields_sound zero data_ last st {fs} {st'} h =
      absurd ((no_fuel data_ st last {v = list nil} {vs = nil} {fs = fs} {st' = st'}).2 h)
  fields_sound (suc f) data_ last st {fs} {st'} h =
      let (here, step) = dict_loop_inv f data_ last st h in
      elim step [
        | inl (e, at_v, at_st) ↦
            subst₂ (FieldsRead data_ last st) (sym at_v) (sym at_st)
              (no_fields data_ st last here e)
        | inr (key, v, gs, st1, st2, ek, after, e1, e2, at_v) ↦
            subst (λ x. FieldsRead data_ last st x st') (sym at_v)
              (more_fields data_ st last key v gs st1 st2 st' (read_string_sound data_ st ek) after
                (value_sound f data_ (mark_start (is_info st1 key) st1) e1)
                (fields_sound f data_ (some key) (mark_end (is_info st1 key) st2) e2))
      ]

-- An input that parses is exactly the bencoding of the value returned, and that value is valid:
-- integers in the range of int64_t, lengths below 2^64, dictionary keys strictly ascending,
-- nesting within 100.
pub parse_sound :
    (data_ : Bytes) {v : Value} {st : Parser}
    → parse data_ ≡ ok (v, st)
    → (data_ ≡ emit v []) × ValueOk 0 v
unfolding parse
parse_sound data_ {v} {st} h = elim (Result-cases (parse_value (fuel_for data_) data_ start)) [
  | inr (x, e) ↦ absurd (ground (arith, e, h))
  | inl ((w, st1), e) ↦
      let r = value_sound (fuel_for data_) data_ start e in
      let at_end : length data_ ≤ st1.at = ground (arith, e, h) in
      let same : w ≡ v = ground (arith, e, h) in
      subst (λ x. (data_ ≡ emit x []) × ValueOk 0 x) same
        (r.spelled ∙ ap (emit w) (drop_all st1.at data_ at_end), r.valid)
]
