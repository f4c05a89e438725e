-- ===== src/Bencode/Access.antt =====
-- The accessors of `BencodeValue` in src/metainfo/parser.hpp, and `std::map` on a dictionary.
use torrent_peer.Prelude.{
  Bool, true, false, List, [], ◌∷◌, Option, none, some, if◌then◌else◌, same_bytes, Result, ok, err,
  uncaught, or_throw,
}
use torrent_peer.Prelude.Int.{ℤ}
use torrent_peer.Torrent.{Bytes}
use torrent_peer.Bencode.{Value, Items, Fields, int, string, list, dict, nil, cons, end, field}

-- `std::map::find`
unfoldable pub lookup : Bytes → Fields → Option Value
lookup key end = none
lookup key (field k v fs) = if same_bytes k key then some v else lookup key fs

-- `std::map::at`
unfoldable pub at : Bytes → Fields → Result Value
at key fs = or_throw (lookup key fs) (uncaught "map::at")

-- `std::get` throws `bad_variant_access`.
unfoldable pub get_int : Value → Result ℤ
get_int (int z) = ok z
get_int (string s) = err (uncaught "bad_variant_access")
get_int (list vs) = err (uncaught "bad_variant_access")
get_int (dict fs) = err (uncaught "bad_variant_access")

unfoldable pub get_string : Value → Result Bytes
get_string (int z) = err (uncaught "bad_variant_access")
get_string (string s) = ok s
get_string (list vs) = err (uncaught "bad_variant_access")
get_string (dict fs) = err (uncaught "bad_variant_access")

unfoldable pub elements : Items → List Value
elements nil = []
elements (cons v vs) = v ∷ elements vs

unfoldable pub get_list : Value → Result (List Value)
get_list (int z) = err (uncaught "bad_variant_access")
get_list (string s) = err (uncaught "bad_variant_access")
get_list (list vs) = ok (elements vs)
get_list (dict fs) = err (uncaught "bad_variant_access")

unfoldable pub get_dict : Value → Result Fields
get_dict (int z) = err (uncaught "bad_variant_access")
get_dict (string s) = err (uncaught "bad_variant_access")
get_dict (list vs) = err (uncaught "bad_variant_access")
get_dict (dict fs) = ok fs

unfoldable pub is_dict : Value → Bool
is_dict (int z) = false
is_dict (string s) = false
is_dict (list vs) = false
is_dict (dict fs) = true
