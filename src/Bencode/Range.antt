-- ===== src/Bencode/Range.antt =====
-- `get_info_range`: where the bencoding of the info dictionary stands in the input.
use torrent_peer.Prelude.{
  ℕ, zero, suc, ◌+◌, ◌*◌, ◌≤◌, ◌≡◌, refl, sym, ap, ◌∙◌, subst, inl, inr, ◌⊎◌, true, false, Option,
  none, some, arith, length, same_bytes, same_bytes_iff, drop, ok, Bool-cases, Result-cases,
}
use torrent_peer.Torrent.{Bytes}
use torrent_peer.Bencode.Print.{emit, FieldsOk, end_ok, field_ok}
use torrent_peer.Bencode.Reads.{ValueRead, FieldsRead, mark_start_same, mark_end_same}
use torrent_peer.Bencode.Sound.{value_sound, fields_sound}
use torrent_peer.Bencode.Steps.{
  int_step, string_step, list_step, dict_step, inside, parse_value_inv, list_loop_inv,
  dict_loop_inv,
}
use torrent_peer.Bencode.Access.{lookup}
use torrent_peer.Bencode.Order.{before_irrefl, before_trans}
use torrent_peer.Bencode.Tokens.{StringRead, read_string_sound}
use torrent_peer.Bencode.Numbers.{parse_int_sound}
use torrent_peer.Bencode.{
  Value, Items, Fields, list, dict, nil, end, field, Parser, is_info, info_key, mark_start,
  mark_end, before, parse_value, list_loop, dict_loop, parse, start, fuel_for, get_info_range,
}

-- In a sorted dictionary a key does not come again behind a later one.
lookup_passed :
    (key : Bytes) (d : ℕ) (l : Bytes) (fs : Fields)
    → FieldsOk d (some l) fs
    → (key ≡ l) ⊎ (before key l ≡ true)
    → lookup key fs ≡ none
unfolding lookup
lookup_passed key d l _ (end_ok _) h = refl
lookup_passed key d l _ (field_ok _ k {v} {fs} after fits ok_v ok_fs) h =
    let past : before key k ≡ true = elim h [
      | inl same ↦ subst (λ x. before x k ≡ true) (sym same) after
      | inr b ↦ before_trans key l k b after
    ] in
    let rest = lookup_passed key d k fs ok_fs (inr past) in
    elim (Bool-cases (same_bytes k key)) [
      | inl e ↦
          absurd
            (before_irrefl key (subst (λ x. before key x ≡ true) ((same_bytes_iff k key).0 e) past))
      | inr e ↦ ground (arith, e, rest)
    ]

-- Both marks as they were.
abbrev Kept : Parser → Parser → Type 0
Kept st st' = (st'.info_start ≡ st.info_start) × (st'.info_end ≡ st.info_end)

deep_no_info : (st : Parser) (key : Bytes) → 2 ≤ st.depth → is_info st key ≡ false
deep_no_info st key deep = ground (arith, deep)

no_fuel :
    (data_ : Bytes) (st : Parser) (last : Option Bytes) {v : Value} {vs : Items} {fs : Fields}
    {st' : Parser}
    → (parse_value 0 data_ st ≡ ok (v, st') → ⊥)
      × (list_loop 0 data_ st ≡ ok (vs, st') → ⊥)
      × (dict_loop 0 data_ last st ≡ ok (fs, st') → ⊥)
unfolding parse_value list_loop dict_loop
no_fuel data_ st last = (λ h. cc, λ h. cc, λ h. cc)

-- Below the root dictionary nothing moves the marks.
mutual
  value_keeps :
      (f : ℕ) (data_ : Bytes) (st : Parser) {v : Value} {st' : Parser}
      → 1 ≤ st.depth
      → parse_value f data_ st ≡ ok (v, st')
      → Kept st st'
  value_keeps zero data_ st {v} {st'} deep h =
      absurd ((no_fuel data_ st none {v = v} {vs = nil} {fs = end} {st' = st'}).0 h)
  value_keeps (suc f) data_ st {v} {st'} deep h =
      let (here, step) = parse_value_inv f data_ st h in
      elim step [
        | int_step i e ↦
            let (z, at_z, r) = parse_int_sound data_ st here i e in
            (ap (λ (q : Parser). q.info_start) r.moved, ap (λ (q : Parser). q.info_end) r.moved)
        | string_step s d e at_s ↦
            let r = read_string_sound data_ st e in
            (ap (λ (q : Parser). q.info_start) r.moved, ap (λ (q : Parser). q.info_end) r.moved)
        | list_step vs st2 at_l room e at_v at_st ↦
            subst (Kept st) (sym at_st) (items_keep f data_ (inside st) (omega arith) e)
        | dict_step fs st2 at_d room e at_v at_st ↦
            subst (Kept st) (sym at_st)
              (fields_keep f data_ none (inside st) (omega (arith, deep)) e)
      ]

  items_keep :
      (f : ℕ) (data_ : Bytes) (st : Parser) {vs : Items} {st' : Parser}
      → 1 ≤ st.depth
      → list_loop f data_ st ≡ ok (vs, st')
      → Kept st st'
  items_keep zero data_ st {vs} {st'} deep h =
      absurd ((no_fuel data_ st none {v = list nil} {vs = vs} {fs = end} {st' = st'}).1 h)
  items_keep (suc f) data_ st {vs} {st'} deep h =
      let (here, step) = list_loop_inv f data_ st h in
      elim step [
        | inl (e, at_v, at_st) ↦ subst (Kept st) (sym at_st) (refl, refl)
        | inr (v, ws, st1, e, e1, at_v) ↦
            let (a, b) = value_keeps f data_ st deep e in
            let r = value_sound f data_ st e in
            let (a1, b1) = items_keep f data_ st1 (omega (arith, deep, r.level)) e1 in
            (a1 ∙ a, b1 ∙ b)
      ]

  fields_keep :
      (f : ℕ) (data_ : Bytes) (last : Option Bytes) (st : Parser) {fs : Fields} {st' : Parser}
      → 2 ≤ st.depth
      → dict_loop f data_ last st ≡ ok (fs, st')
      → Kept st st'
  fields_keep zero data_ last st {fs} {st'} deep h =
      absurd ((no_fuel data_ st last {v = list nil} {vs = nil} {fs = fs} {st' = st'}).2 h)
  fields_keep (suc f) data_ last st {fs} {st'} deep h =
      let (here, step) = dict_loop_inv f data_ last st h in
      elim step [
        | inl (e, at_v, at_st) ↦ subst (Kept st) (sym at_st) (refl, refl)
        | inr (key, v, gs, st1, st2, ek, after, e1, e2, at_v) ↦
            let k = read_string_sound data_ st ek in
            let level1 : st1.depth ≡ st.depth = ap (λ (q : Parser). q.depth) k.moved in
            let plain = deep_no_info st1 key (omega (arith, deep, level1)) in
            let (a, b) =
              value_keeps f data_ (mark_start (is_info st1 key) st1)
                (ground (arith, plain, deep, level1)) e1 in
            let r = value_sound f data_ (mark_start (is_info st1 key) st1) e1 in
            let (a1, b1) =
              fields_keep f data_ (some key) (mark_end (is_info st1 key) st2)
                (ground (arith, plain, deep, level1, r.level)) e2 in
            (
              ground (arith, plain, a, a1, ap (λ (q : Parser). q.info_start) k.moved),
              ground (arith, plain, b, b1, ap (λ (q : Parser). q.info_end) k.moved),
            )
      ]

-- Where the value of the info key stands, and where the marks are when there is none.
abbrev Marked : Bytes → Parser → Parser → Option Value → Type 0
Marked data_ st st' none = Kept st st'
Marked data_ st st' (some v) =
    (st'.info_start ≤ st'.info_end)
    × (st'.info_end ≤ length data_)
    × (drop st'.info_start data_ ≡ emit v (drop st'.info_end data_))

Marked-from :
    (data_ : Bytes) (st s st' : Parser) (o : Option Value)
    → Kept st s
    → Marked data_ s st' o
    → Marked data_ st st' o
Marked-from data_ st s st' none (a, b) (a1, b1) = (a1 ∙ a, b1 ∙ b)
Marked-from data_ st s st' (some v) k m = m

-- An entry of the root dictionary, with what the entries behind it give.
root_field :
    (data_ : Bytes) (st st1 st2 st' : Parser) (key : Bytes) (v : Value) (gs : Fields)
    → st.depth ≡ 1
    → StringRead data_ st key st1
    → Kept (mark_start (is_info st1 key) st1) st2
    → ValueRead data_ (mark_start (is_info st1 key) st1) v st2
    → FieldsRead data_ (some key) (mark_end (is_info st1 key) st2) gs st'
    → Marked data_ (mark_end (is_info st1 key) st2) st' (lookup info_key gs)
    → Marked data_ st st' (lookup info_key (field key v gs))
unfolding lookup
root_field data_ st st1 st2 st' key v gs level k (a, b) r rs rest =
    let level1 : st1.depth ≡ 1 = ap (λ (q : Parser). q.depth) k.moved ∙ level in
    let start1 : st1.info_start ≡ st.info_start = ap (λ (q : Parser). q.info_start) k.moved in
    let end1 : st1.info_end ≡ st.info_end = ap (λ (q : Parser). q.info_end) k.moved in
    elim (Bool-cases (same_bytes key info_key)) [
      | inl same ↦
          let marks : is_info st1 key ≡ true = ground (arith, level1, same) in
          let no_more =
            lookup_passed info_key _ key gs rs.valid
              (inl (sym ((same_bytes_iff key info_key).0 same))) in
          let kept : Kept (mark_end (is_info st1 key) st2) st' =
            subst (Marked data_ (mark_end (is_info st1 key) st2) st') no_more rest in
          let from : st'.info_start ≡ st1.at = ground (arith, kept.0, marks, a) in
          let to : st'.info_end ≡ st2.at = ground (arith, kept.1, marks) in
          let (at1, _) = mark_start_same data_ st1 (is_info st1 key) in
          subst (Marked data_ st st') (sym (found same)) (
            omega (arith, from, to, r.forward, at1),
            omega (arith, to, r.within),
            ap (λ p. drop p data_) (from ∙ sym at1)
                ∙ r.spelled
                ∙ ap (λ p. emit v (drop p data_)) (sym to),
          )
      | inr other ↦
          let marks : is_info st1 key ≡ false = ground (arith, level1, other) in
          subst (Marked data_ st st') (sym (passed other)) (
            Marked-from data_ st (mark_end (is_info st1 key) st2) st' (lookup info_key gs)
              (ground (arith, marks, a, start1), ground (arith, marks, b, end1)) rest)
    ]
  where
    found : same_bytes key info_key ≡ true → lookup info_key (field key v gs) ≡ some v
    found h = ground (arith, h)

    passed : same_bytes key info_key ≡ false → lookup info_key (field key v gs) ≡ lookup info_key gs
    passed h = ground (arith, h)

no_root_field :
    (data_ : Bytes) (st st' : Parser) → st' ≡ st → Marked data_ st st' (lookup info_key end)
unfolding lookup
no_root_field data_ st st' same = subst (Kept st) (sym same) (refl, refl)

root_fields :
    (f : ℕ) (data_ : Bytes) (last : Option Bytes) (st : Parser) {fs : Fields} {st' : Parser}
    → st.depth ≡ 1
    → dict_loop f data_ last st ≡ ok (fs, st')
    → Marked data_ st st' (lookup info_key fs)
root_fields zero data_ last st {fs} {st'} level h =
    absurd ((no_fuel data_ st last {v = list nil} {vs = nil} {fs = fs} {st' = st'}).2 h)
root_fields (suc f) data_ last st {fs} {st'} level h =
    let (here, step) = dict_loop_inv f data_ last st h in
    elim step [
      | inl (e, at_v, at_st) ↦
          subst (λ x. Marked data_ st st' (lookup info_key x)) (sym at_v)
            (no_root_field data_ st st' at_st)
      | inr (key, v, gs, st1, st2, ek, after, e1, e2, at_v) ↦
          let b = is_info st1 key in
          let k = read_string_sound data_ st ek in
          let (_, depth1) = mark_start_same data_ st1 b in
          let (_, depth2) = mark_end_same data_ st2 b in
          let level1 : st1.depth ≡ 1 = ap (λ (q : Parser). q.depth) k.moved ∙ level in
          let r = value_sound f data_ (mark_start b st1) e1 in
          subst (λ x. Marked data_ st st' (lookup info_key x)) (sym at_v)
            (root_field data_ st st1 st2 st' key v gs level k
              (value_keeps f data_ (mark_start b st1) (omega (arith, depth1, level1)) e1) r
              (fields_sound f data_ (some key) (mark_end b st2) e2)
              (root_fields f data_ (some key) (mark_end b st2) (depth2 ∙ r.level ∙ depth1 ∙ level1)
                e2))
    ]

-- When the input is a dictionary with an info key, the range of get_info_range lies in the input,
-- and from its start the input goes on with the bencoding of the value of that key, up to its
-- end.
pub info_range_spans :
    (data_ : Bytes) (fs : Fields) (v : Value) (st : Parser)
    → parse data_ ≡ ok (dict fs, st)
    → lookup info_key fs ≡ some v
    → let (from, to) = get_info_range st in
      (from ≤ to) × (to ≤ length data_) × (drop from data_ ≡ emit v (drop to data_))
unfolding parse
info_range_spans data_ fs v st h found =
    elim (Result-cases (parse_value (fuel_for data_) data_ start)) [
      | inr (x, e) ↦ absurd (ground (arith, e, h))
      | inl ((w, st1), e) ↦
          let same : w ≡ dict fs = ground (arith, e, h) in
          let same_st : st1 ≡ st = ground (arith, e, h) in
          let fuel : fuel_for data_ ≡ suc (2 * length data_ + 1) = omega arith in
          let (here, step) =
            parse_value_inv _ data_ start
              (subst (λ f. parse_value f data_ start ≡ ok (w, st1)) fuel e) in
          elim step [
            | int_step i e1 ↦
                let (z, at_z, r) = parse_int_sound data_ start here i e1 in
                absurd (ground (arith, at_z, same))
            | string_step s d e1 at_s ↦ absurd (ground (arith, at_s, same))
            | list_step vs st2 at_l room e1 at_v at_st ↦ absurd (ground (arith, at_v, same))
            | dict_step gs st2 at_d room e1 at_v at_st ↦
                let fields : gs ≡ fs = ground (arith, at_v, same) in
                let m = root_fields _ data_ none (inside start) refl e1 in
                let m1 : Marked data_ (inside start) st2 (some v) =
                  subst (Marked data_ (inside start) st2) (ap (lookup info_key) fields ∙ found) m in
                subst
                  (λ (q : Parser).
                    (q.info_start ≤ q.info_end)
                    × (q.info_end ≤ length data_)
                    × (drop q.info_start data_ ≡ emit v (drop q.info_end data_)))
                  (sym at_st ∙ same_st) m1
          ]
    ]
