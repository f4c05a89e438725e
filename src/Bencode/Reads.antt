-- ===== src/Bencode/Reads.antt =====
-- What the functions of the parser have read, and how the reads make up a list or a dictionary.
use torrent_peer.Prelude.{
  ℕ, ◌+◌, ◌≤◌, ◌<◌, ◌≡◌, refl, sym, ap, ◌∙◌, subst, Bool, true, false, ◌∷◌, Option, none, some,
  arith, ◌==◌, length, drop,
}
use torrent_peer.Prelude.Int.{ℤ}
use torrent_peer.Torrent.{Bytes}
use torrent_peer.Bencode.Input.{rest_here}
use torrent_peer.Bencode.Print.{
  emit, emit_items, emit_fields, emit_string, After, ValueOk, ItemsOk, FieldsOk, int_ok, string_ok,
  list_ok, dict_ok, nil_ok, cons_ok, end_ok, field_ok,
}
use torrent_peer.Bencode.Tokens.{StringRead}
use torrent_peer.Bencode.Numbers.{IntRead}
use torrent_peer.Bencode.Steps.{inside}
use torrent_peer.Bencode.{
  Value, Items, Fields, int, string, list, dict, nil, cons, end, field, Parser, past_end, byte_at,
  is_info, mark_start, mark_end, leave, max_depth,
}

pub record ValueRead (data_ : Bytes) (st : Parser) (v : Value) (st' : Parser) : Type 0 where
  pub spelled : drop st.at data_ ≡ emit v (drop st'.at data_)
  pub valid : ValueOk st.depth v
  pub level : st'.depth ≡ st.depth
  pub forward : st.at < st'.at
  pub within : st'.at ≤ length data_

-- The loops stop at an `e`.
pub record AtEnd (data_ : Bytes) (st : Parser) : Type 0 where
  pub here : past_end data_ st.at ≡ false
  pub ended : (byte_at data_ st.at == b'e') ≡ true

pub record ItemsRead (data_ : Bytes) (st : Parser) (vs : Items) (st' : Parser) : Type 0 where
  pub spelled : drop st.at data_ ≡ emit_items vs (drop st'.at data_)
  pub valid : ItemsOk st.depth vs
  pub level : st'.depth ≡ st.depth
  pub forward : st.at ≤ st'.at
  pub ending : AtEnd data_ st'

pub record FieldsRead (data_ : Bytes) (last : Option Bytes) (st : Parser) (fs : Fields)
    (st' : Parser) : Type 0 where
  pub spelled : drop st.at data_ ≡ emit_fields fs (drop st'.at data_)
  pub valid : FieldsOk st.depth last fs
  pub level : st'.depth ≡ st.depth
  pub forward : st.at ≤ st'.at
  pub ending : AtEnd data_ st'

module _ (data_ : Bytes) (st : Parser) where
  pub mark_start_same :
      (b : Bool) → ((mark_start b st).at ≡ st.at) × ((mark_start b st).depth ≡ st.depth)
  mark_start_same b = ground arith

  pub mark_end_same : (b : Bool) → ((mark_end b st).at ≡ st.at) × ((mark_end b st).depth ≡ st.depth)
  mark_end_same b = ground arith

  -- A closed list or dictionary: an opening byte, what stands inside, and an `e`.
  closed :
      (c : ℕ) (x : Bytes → Bytes) (st2 : Parser)
      → past_end data_ st.at ≡ false
      → (byte_at data_ st.at == c) ≡ true
      → drop (st.at + 1) data_ ≡ x (drop st2.at data_)
      → AtEnd data_ st2
      → drop st.at data_ ≡ c ∷ x (b'e' ∷ drop (leave st2).at data_)
  closed c x st2 here at_c spelled ending =
      rest_here data_ st.at c here at_c
      ∙ ap (λ y. c ∷ y) (spelled ∙ ap x (rest_here data_ st2.at b'e' ending.here ending.ended))

module _ (data_ : Bytes) (st : Parser) where
  pub int_value : (z : ℤ) (st' : Parser) → IntRead data_ st z st' → ValueRead data_ st (int z) st'
  unfolding emit
  int_value z st' r = record {
    spelled = r.spelled;
    valid = int_ok z r.fits;
    level = ap (λ (s : Parser). s.depth) r.moved;
    forward = r.forward;
    within = r.within;
  }

  pub string_value :
      (s : Bytes) (st' : Parser) → StringRead data_ st s st' → ValueRead data_ st (string s) st'
  unfolding emit
  string_value s st' r = record {
    spelled = r.spelled;
    valid = string_ok s r.fits;
    level = ap (λ (q : Parser). q.depth) r.moved;
    forward = r.forward;
    within = r.within;
  }

  pub list_value :
      (vs : Items) (st2 : Parser)
      → past_end data_ st.at ≡ false
      → (byte_at data_ st.at == b'l') ≡ true
      → st.depth < max_depth
      → ItemsRead data_ (inside st) vs st2
      → ValueRead data_ st (list vs) (leave st2)
  unfolding emit
  list_value vs st2 here at_l room r = record {
    spelled = closed data_ st b'l' (emit_items vs) st2 here at_l r.spelled r.ending;
    valid = list_ok vs room (subst (λ d. ItemsOk d vs) (omega arith) r.valid);
    level = omega (arith, r.level);
    forward = omega (arith, r.forward);
    within = ground (arith, r.ending.here);
  }

  pub dict_value :
      (fs : Fields) (st2 : Parser)
      → past_end data_ st.at ≡ false
      → (byte_at data_ st.at == b'd') ≡ true
      → st.depth < max_depth
      → FieldsRead data_ none (inside st) fs st2
      → ValueRead data_ st (dict fs) (leave st2)
  unfolding emit
  dict_value fs st2 here at_d room r = record {
    spelled = closed data_ st b'd' (emit_fields fs) st2 here at_d r.spelled r.ending;
    valid = dict_ok fs room (subst (λ d. FieldsOk d none fs) (omega arith) r.valid);
    level = omega (arith, r.level);
    forward = omega (arith, r.forward);
    within = ground (arith, r.ending.here);
  }

  pub no_items :
      past_end data_ st.at ≡ false
      → (byte_at data_ st.at == b'e') ≡ true
      → ItemsRead data_ st nil st
  unfolding emit
  no_items here e = record {
    spelled = refl;
    valid = nil_ok;
    level = refl;
    forward = omega arith;
    ending = record { here = here; ended = e };
  }

  pub no_fields :
      (last : Option Bytes)
      → past_end data_ st.at ≡ false
      → (byte_at data_ st.at == b'e') ≡ true
      → FieldsRead data_ last st end st
  unfolding emit
  no_fields last here e = record {
    spelled = refl;
    valid = end_ok last;
    level = refl;
    forward = omega arith;
    ending = record { here = here; ended = e };
  }

  pub more_items :
      (v : Value) (ws : Items) (st1 st' : Parser)
      → ValueRead data_ st v st1
      → ItemsRead data_ st1 ws st'
      → ItemsRead data_ st (cons v ws) st'
  unfolding emit
  more_items v ws st1 st' r rs = record {
    spelled = r.spelled ∙ ap (emit v) rs.spelled;
    valid = cons_ok r.valid (subst (λ d. ItemsOk d ws) r.level rs.valid);
    level = rs.level ∙ r.level;
    forward = omega (arith, r.forward, rs.forward);
    ending = rs.ending;
  }

  pub more_fields :
      (last : Option Bytes) (key : Bytes) (v : Value) (gs : Fields) (st1 st2 st' : Parser)
      → StringRead data_ st key st1
      → After last key
      → ValueRead data_ (mark_start (is_info st1 key) st1) v st2
      → FieldsRead data_ (some key) (mark_end (is_info st1 key) st2) gs st'
      → FieldsRead data_ last st (field key v gs) st'
  unfolding emit
  more_fields last key v gs st1 st2 st' k after r rs =
      let b = is_info st1 key in
      let (at1, depth1) = mark_start_same data_ st1 b in
      let (at2, depth2) = mark_end_same data_ st2 b in
      let level1 : st1.depth ≡ st.depth = ap (λ (q : Parser). q.depth) k.moved in
      let value_at = ap (λ p. drop p data_) (sym at1) ∙ r.spelled in
      let rest_at = ap (λ p. drop p data_) (sym at2) ∙ rs.spelled in
      record {
        spelled = k.spelled ∙ ap (emit_string key) (value_at ∙ ap (emit v) rest_at);
        valid =
            field_ok last key after k.fits (subst (λ d. ValueOk d v) (depth1 ∙ level1) r.valid)
              (subst (λ d. FieldsOk d (some key) gs) (depth2 ∙ r.level ∙ depth1 ∙ level1) rs.valid);
        level = rs.level ∙ depth2 ∙ r.level ∙ depth1 ∙ level1;
        forward = omega (arith, k.forward, r.forward, rs.forward, at1, at2);
        ending = rs.ending;
      }
