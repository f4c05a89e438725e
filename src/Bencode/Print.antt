-- ===== src/Bencode/Print.antt =====
-- The one bencoding of a value, by BEP 3, and the values that have one: an independent description
-- of what the parser is to read. `rest` is what follows the value.
use torrent_peer.Prelude.{ℕ, suc, ◌^◌, ◌<◌, ◌≡◌, true, ◌∷◌, ◌++◌, Option, none, some, length}
use torrent_peer.Prelude.Int.{ℤ, pos, negsuc}
use torrent_peer.Torrent.{Bytes, u64_mod}
use torrent_peer.Bencode.Digits.{decimal}
use torrent_peer.Bencode.{
  Value, Items, Fields, int, string, list, dict, nil, cons, end, field, before, max_depth,
}

abbrev pub emit_string : Bytes → Bytes → Bytes
emit_string s rest = decimal (length s) ++ b':' ∷ (s ++ rest)

abbrev pub emit_int : ℤ → Bytes → Bytes
emit_int (pos n) rest = b'i' ∷ (decimal n ++ b'e' ∷ rest)
emit_int (negsuc n) rest = b'i' ∷ b'-' ∷ (decimal (suc n) ++ b'e' ∷ rest)

unfoldable mutual
  pub emit : Value → Bytes → Bytes
  emit (int z) rest = emit_int z rest
  emit (string s) rest = emit_string s rest
  emit (list vs) rest = b'l' ∷ emit_items vs (b'e' ∷ rest)
  emit (dict fs) rest = b'd' ∷ emit_fields fs (b'e' ∷ rest)

  pub emit_items : Items → Bytes → Bytes
  emit_items nil rest = rest
  emit_items (cons v vs) rest = emit v (emit_items vs rest)

  pub emit_fields : Fields → Bytes → Bytes
  emit_fields end rest = rest
  emit_fields (field k v fs) rest = emit_string k (emit v (emit_fields fs rest))

-- An `int64_t`.
abbrev pub InRange : ℤ → Type 0
InRange (pos n) = n < 2 ^ 63
InRange (negsuc n) = n < 2 ^ 63

-- A key comes after the one before it.
abbrev pub After : Option Bytes → Bytes → Type 0
After none key = Unit {0}
After (some last) key = before last key ≡ true

-- A value below `d` lists and dictionaries that the parser can hold: numbers in range, keys in
-- order and each once, no more than `max_depth` deep.
mutual
  pub data ValueOk : ℕ → Value → Type 0 where
    int_ok : {d : ℕ} (z : ℤ) → InRange z → ValueOk d (int z)
    string_ok : {d : ℕ} (s : Bytes) → length s < u64_mod → ValueOk d (string s)
    list_ok : {d : ℕ} (vs : Items) → d < max_depth → ItemsOk (suc d) vs → ValueOk d (list vs)
    dict_ok : {d : ℕ} (fs : Fields) → d < max_depth → FieldsOk (suc d) none fs → ValueOk d (dict fs)

  pub data ItemsOk : ℕ → Items → Type 0 where
    nil_ok : {d : ℕ} → ItemsOk d nil
    cons_ok : {d : ℕ} {v : Value} {vs : Items} → ValueOk d v → ItemsOk d vs → ItemsOk d (cons v vs)

  pub data FieldsOk : ℕ → Option Bytes → Fields → Type 0 where
    end_ok : {d : ℕ} (last : Option Bytes) → FieldsOk d last end
    field_ok :
        {d : ℕ} (last : Option Bytes) (k : Bytes) {v : Value} {fs : Fields}
        → After last k
        → length k < u64_mod
        → ValueOk d v
        → FieldsOk d (some k) fs
        → FieldsOk d last (field k v fs)
