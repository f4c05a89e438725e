-- ===== src/Bencode/Complete.antt =====
-- Completeness of the parser: every valid value is read back from its bencoding.
use torrent_peer.Prelude.{
  ℕ, zero, suc, ◌+◌, ◌-◌, ◌*◌, ◌≤◌, ◌<◌, ◌≡◌, refl, sym, ap, ◌∙◌, subst, ◌≢◌, [], ◌∷◌, ◌++◌, Option,
  none, some, arith, length, length-drop, drop, ok,
}
use torrent_peer.Prelude.Int.{ℤ, pos, negsuc}
use torrent_peer.Torrent.{Bytes}
use torrent_peer.Bencode.Input.{here_rest}
use torrent_peer.Bencode.Print.{
  emit, emit_items, emit_fields, emit_string, emit_int, After, ValueOk, ItemsOk, FieldsOk, int_ok,
  string_ok, list_ok, dict_ok, nil_ok, cons_ok, end_ok, field_ok,
}
use torrent_peer.Bencode.Tokens.{read_string_complete}
use torrent_peer.Bencode.Numbers.{parse_int_complete}
use torrent_peer.Bencode.Steps.{inside}
use torrent_peer.Bencode.{
  Value, Items, Fields, int, string, list, dict, nil, cons, end, field, Parser, byte_at, is_info,
  mark_start, mark_end, leave, parse_value, list_loop, dict_loop, max_depth, parse, start, fuel_for,
  parse_int, read_string, check_key, kind_of, enter,
}
use torrent_peer.Bencode.Digits.{IsDigit, value-decimal}
use torrent_peer.Bencode.Reads.{mark_start_same, mark_end_same}
use torrent_peer.Bencode.Sound.{value_sound}

-- The first byte of a bencoding says what it is, and is no `e`.
emit_first : (v : Value) (r : Bytes) → (c : ℕ) × (xs : Bytes) × (emit v r ≡ c ∷ xs) × (c ≢ b'e')
unfolding emit
emit_first (int (pos n)) r = (b'i', _, refl, λ h. omega (arith, h))
emit_first (int (negsuc n)) r = (b'i', _, refl, λ h. omega (arith, h))
emit_first (string s) r =
    let (c, cs, p) = value-decimal (suc (length s)) (length s) (omega arith) in
    (
      c,
      cs ++ b':' ∷ (s ++ r),
      ap (λ x. x ++ b':' ∷ (s ++ r)) p.shown,
      λ h. omega (arith, h, p.all_digits),
    )
emit_first (list vs) r = (b'l', _, refl, λ h. omega (arith, h))
emit_first (dict fs) r = (b'd', _, refl, λ h. omega (arith, h))

module _ (f : ℕ) (data_ : Bytes) (st : Parser) where
  call_int :
      {st' : Parser} (z : ℤ)
      → st.at < length data_
      → byte_at data_ st.at ≡ b'i'
      → parse_int data_ st ≡ ok (int z, st')
      → parse_value (suc f) data_ st ≡ ok (int z, st')
  unfolding parse_value kind_of
  call_int z here at_i e = ground (arith, here, at_i, e)

  call_string :
      {st' : Parser} (s : Bytes)
      → st.at < length data_
      → IsDigit (byte_at data_ st.at)
      → read_string data_ st ≡ ok (s, st')
      → parse_value (suc f) data_ st ≡ ok (string s, st')
  unfolding parse_value kind_of
  call_string s here at_d e = ground (arith, here, at_d, e)

  call_list :
      {st2 : Parser} (vs : Items)
      → st.at < length data_
      → byte_at data_ st.at ≡ b'l'
      → st.depth < max_depth
      → list_loop f data_ (inside st) ≡ ok (vs, st2)
      → parse_value (suc f) data_ st ≡ ok (list vs, leave st2)
  unfolding parse_value kind_of enter
  call_list vs here at_l room e = ground (arith, here, at_l, room, e)

  call_dict :
      {st2 : Parser} (fs : Fields)
      → st.at < length data_
      → byte_at data_ st.at ≡ b'd'
      → st.depth < max_depth
      → dict_loop f data_ none (inside st) ≡ ok (fs, st2)
      → parse_value (suc f) data_ st ≡ ok (dict fs, leave st2)
  unfolding parse_value kind_of enter
  call_dict fs here at_d room e = ground (arith, here, at_d, room, e)

  call_nil :
      st.at < length data_ → byte_at data_ st.at ≡ b'e' → list_loop (suc f) data_ st ≡ ok (nil, st)
  unfolding list_loop
  call_nil here at_e = ground (arith, here, at_e)

  call_cons :
      {st1 st2 : Parser} (v : Value) (vs : Items)
      → st.at < length data_
      → byte_at data_ st.at ≢ b'e'
      → parse_value f data_ st ≡ ok (v, st1)
      → list_loop f data_ st1 ≡ ok (vs, st2)
      → list_loop (suc f) data_ st ≡ ok (cons v vs, st2)
  unfolding list_loop
  call_cons v vs here more e e1 = ground (arith, here, more, e, e1)

  call_end :
      (last : Option Bytes)
      → st.at < length data_
      → byte_at data_ st.at ≡ b'e'
      → dict_loop (suc f) data_ last st ≡ ok (end, st)
  unfolding dict_loop
  call_end last here at_e = ground (arith, here, at_e)

  call_field :
      {st1 st2 st3 : Parser} (last : Option Bytes) (key : Bytes) (v : Value) (fs : Fields)
      → st.at < length data_
      → byte_at data_ st.at ≢ b'e'
      → read_string data_ st ≡ ok (key, st1)
      → check_key last key ≡ ok tt
      → parse_value f data_ (mark_start (is_info st1 key) st1) ≡ ok (v, st2)
      → dict_loop f data_ (some key) (mark_end (is_info st1 key) st2) ≡ ok (fs, st3)
      → dict_loop (suc f) data_ last st ≡ ok (field key v fs, st3)
  unfolding dict_loop
  call_field last key v fs here more e ek e1 e2 = ground (arith, here, more, e, ek, e1, e2)

check_key_ok : (last : Option Bytes) (key : Bytes) → After last key → check_key last key ≡ ok tt
unfolding check_key
check_key_ok none key h = refl
check_key_ok (some l) key h = rw h

-- The first byte of a number.
int_byte :
    (data_ : Bytes) (st : Parser) (z : ℤ) (rest : Bytes)
    → drop st.at data_ ≡ emit_int z rest
    → byte_at data_ st.at ≡ b'i'
int_byte data_ st (pos n) rest h = (here_rest data_ st.at b'i' _ h).1
int_byte data_ st (negsuc n) rest h = (here_rest data_ st.at b'i' _ h).1

-- The first byte of a string.
string_byte :
    (data_ : Bytes) (st : Parser) (s rest : Bytes)
    → drop st.at data_ ≡ emit_string s rest
    → (st.at < length data_) × IsDigit (byte_at data_ st.at)
string_byte data_ st s rest h =
    let (c, cs, p) = value-decimal (suc (length s)) (length s) (omega arith) in
    let (lt, at_c, _) =
      here_rest data_ st.at c (cs ++ b':' ∷ (s ++ rest))
        (h ∙ ap (λ x. x ++ b':' ∷ (s ++ rest)) p.shown) in
    (lt, subst IsDigit (sym at_c) p.all_digits.0)

mutual
  unfolding emit

  value_complete :
      (f : ℕ) (data_ : Bytes) (st : Parser) (d : ℕ) (v : Value) (rest : Bytes)
      → ValueOk d v
      → st.depth ≡ d
      → drop st.at data_ ≡ emit v rest
      → 2 * (length data_ - st.at) + 1 ≤ f
      → (st' : Parser) × (parse_value f data_ st ≡ ok (v, st')) × (drop st'.at data_ ≡ rest)
  value_complete zero data_ st d v rest valid level h fuel = absurd (omega (arith, fuel))
  value_complete (suc f) data_ st d _ rest (int_ok z fits) level h fuel =
      let (st', read, left) = parse_int_complete data_ st z rest h fits in
      let (c, xs, first, _) = emit_first (int z) rest in
      let (lt, at_c, _) = here_rest data_ st.at c xs (h ∙ first) in
      (st', call_int f data_ st z lt (int_byte data_ st z rest h) read, left)
  value_complete (suc f) data_ st d _ rest (string_ok s fits) level h fuel =
      let (st', read, left, _) = read_string_complete data_ st s rest h fits in
      let (lt, at_d) = string_byte data_ st s rest h in
      (st', call_string f data_ st s lt at_d read, left)
  value_complete (suc f) data_ st d _ rest (list_ok vs room inner) level h fuel =
      let (lt, at_l, behind) = here_rest data_ st.at b'l' (emit_items vs (b'e' ∷ rest)) h in
      let (st2, read, left) =
        items_complete f data_ (inside st) (suc d) vs rest inner (omega (arith, level)) behind
          (omega (arith, fuel, lt)) in
      let (_, _, after) = here_rest data_ st2.at b'e' rest left in
      (leave st2, call_list f data_ st vs lt at_l (omega (arith, room, level)) read, after)
  value_complete (suc f) data_ st d _ rest (dict_ok fs room inner) level h fuel =
      let (lt, at_d, behind) = here_rest data_ st.at b'd' (emit_fields fs (b'e' ∷ rest)) h in
      let (st2, read, left) =
        fields_complete f data_ (inside st) (suc d) none fs rest inner (omega (arith, level)) behind
          (omega (arith, fuel, lt)) in
      let (_, _, after) = here_rest data_ st2.at b'e' rest left in
      (leave st2, call_dict f data_ st fs lt at_d (omega (arith, room, level)) read, after)

  items_complete :
      (f : ℕ) (data_ : Bytes) (st : Parser) (d : ℕ) (vs : Items) (rest : Bytes)
      → ItemsOk d vs
      → st.depth ≡ d
      → drop st.at data_ ≡ emit_items vs (b'e' ∷ rest)
      → 2 * (length data_ - st.at) + 2 ≤ f
      → (st' : Parser) × (list_loop f data_ st ≡ ok (vs, st')) × (drop st'.at data_ ≡ b'e' ∷ rest)
  items_complete zero data_ st d vs rest valid level h fuel = absurd (omega (arith, fuel))
  items_complete (suc f) data_ st d _ rest nil_ok level h fuel =
      let (lt, at_e, _) = here_rest data_ st.at b'e' rest h in (st, call_nil f data_ st lt at_e, h)
  items_complete (suc f) data_ st d _ rest (cons_ok {v = v} {vs = vs} ok_v ok_vs) level h fuel =
      let tail = emit_items vs (b'e' ∷ rest) in
      let (c, xs, first, no_e) = emit_first v tail in
      let (lt, at_c, _) = here_rest data_ st.at c xs (h ∙ first) in
      let (st1, read, left) =
        value_complete f data_ st d v tail ok_v level h (omega (arith, fuel)) in
      let r = value_sound f data_ st read in
      let (st2, read_rest, left_rest) =
        items_complete f data_ st1 d vs rest ok_vs (r.level ∙ level) left
          (omega (arith, fuel, r.forward, r.within)) in
      (st2, call_cons f data_ st v vs lt (λ e. no_e (sym at_c ∙ e)) read read_rest, left_rest)

  fields_complete :
      (f : ℕ) (data_ : Bytes) (st : Parser) (d : ℕ) (last : Option Bytes) (fs : Fields)
      (rest : Bytes)
      → FieldsOk d last fs
      → st.depth ≡ d
      → drop st.at data_ ≡ emit_fields fs (b'e' ∷ rest)
      → 2 * (length data_ - st.at) + 2 ≤ f
      → (st' : Parser) × (dict_loop f data_ last st ≡ ok (fs, st'))
        × (drop st'.at data_ ≡ b'e' ∷ rest)
  fields_complete zero data_ st d last fs rest valid level h fuel = absurd (omega (arith, fuel))
  fields_complete (suc f) data_ st d _ _ rest (end_ok last) level h fuel =
      let (lt, at_e, _) = here_rest data_ st.at b'e' rest h in
      (st, call_end f data_ st last lt at_e, h)
  fields_complete (suc f) data_ st d _ _ rest (field_ok last k {v} {fs} after fits ok_v ok_fs) level
        h fuel =
      let tail = emit_fields fs (b'e' ∷ rest) in
      let (lt, at_d) = string_byte data_ st k (emit v tail) h in
      let (st1, read_key, left_key, key) = read_string_complete data_ st k (emit v tail) h fits in
      let b = is_info st1 k in
      let (at1, depth1) = mark_start_same data_ st1 b in
      let level1 : st1.depth ≡ st.depth = ap (λ (q : Parser). q.depth) key.moved in
      let (st2, read, left) =
        value_complete f data_ (mark_start b st1) d v tail ok_v (depth1 ∙ level1 ∙ level)
          (ap (λ p. drop p data_) at1 ∙ left_key) (omega (arith, fuel, key.forward, at1)) in
      let r = value_sound f data_ (mark_start b st1) read in
      let (at2, depth2) = mark_end_same data_ st2 b in
      let (st3, read_rest, left_rest) =
        fields_complete f data_ (mark_end b st2) d (some k) fs rest ok_fs
          (depth2 ∙ r.level ∙ depth1 ∙ level1 ∙ level) (ap (λ p. drop p data_) at2 ∙ left)
          (omega (arith, fuel, key.forward, r.forward, r.within, at1, at2)) in
      (
        st3,
        call_field f data_ st last k v fs lt (λ e. omega (arith, e, at_d)) read_key
            (check_key_ok last k after) read read_rest,
        left_rest,
      )

-- Every valid value is read back from its bencoding: parsing it gives that value.
pub parse_complete : (v : Value) → ValueOk 0 v → (st : Parser) × (parse (emit v []) ≡ ok (v, st))
unfolding parse
parse_complete v valid =
    let data_ = emit v [] in
    let f = fuel_for data_ in
    let (st, read, left) = value_complete f data_ start 0 v [] valid refl refl (omega arith) in
    let r = value_sound f data_ start read in
    let all : st.at ≡ length data_ =
      omega (arith, r.within, ap length left, length-drop st.at data_) in
    (st, ground (arith, read, all))
