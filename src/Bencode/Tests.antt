-- ===== src/Bencode/Tests.antt =====
-- Runs of the parser on small inputs.
use torrent_peer.Prelude.{
  same_bytes, ◌≤◌, ◌≡◌, ◌≢◌, refl, arith, [], codes, ok, err, fuel_ran_out, some, drop, length,
}
use torrent_peer.Prelude.Int.{pos, negsuc}
use torrent_peer.Bencode.Access.{lookup}
use torrent_peer.Bencode.Digits.{value}
use torrent_peer.Bencode.Print.{emit, ValueOk, int_ok, string_ok, list_ok, nil_ok, cons_ok}
use torrent_peer.Bencode.Sound.{parse_sound}
use torrent_peer.Bencode.Complete.{parse_complete}
use torrent_peer.Bencode.Fuel.{parse_in_fuel}
use torrent_peer.Bencode.Range.{info_range_spans}
use torrent_peer.Bencode.{
  Value, Fields, Parser, parse, list, cons, nil, dict, field, end, int, string, digit_run,
  read_string, parse_int, from_chars_int, kind_of, enter, parse_value, info_key, check_key,
}

abbrev two : Value
two = list (cons (int (negsuc 41)) (cons (string (codes "abc")) nil))

parse_list_run :
    parse (codes "li-42e3:abce")
    ≡ ok (two, record { at = 12; info_start = 0; info_end = 0; depth = 0 })
unfolding parse parse_value parse_int read_string digit_run value from_chars_int kind_of enter
parse_list_run = refl

parse_sound_example : (codes "li-42e3:abce" ≡ emit two []) × ValueOk 0 two
parse_sound_example = parse_sound (codes "li-42e3:abce") parse_list_run

parse_complete_example : (st : Parser) × (parse (emit two []) ≡ ok (two, st))
parse_complete_example = parse_complete two (
    list_ok _ (omega arith)
      (cons_ok (int_ok _ (omega arith)) (cons_ok (string_ok _ (omega arith)) nil_ok)))

parse_in_fuel_example : parse (codes "lll") ≢ err fuel_ran_out
parse_in_fuel_example = parse_in_fuel (codes "lll")

abbrev root : Fields
root = field info_key (int (pos 7)) end

parse_dict_run :
    parse (codes "d4:infoi7ee")
    ≡ ok (dict root, record { at = 11; info_start = 7; info_end = 10; depth = 0 })
unfolding parse parse_value parse_int read_string digit_run value from_chars_int kind_of enter
    check_key same_bytes
parse_dict_run = refl

info_found : lookup info_key root ≡ some (int (pos 7))
unfolding lookup same_bytes
info_found = refl

info_range_spans_example :
    (7 ≤ 10)
    × (10 ≤ length (codes "d4:infoi7ee"))
    × (drop 7 (codes "d4:infoi7ee") ≡ emit (int (pos 7)) (drop 10 (codes "d4:infoi7ee")))
info_range_spans_example =
    info_range_spans (codes "d4:infoi7ee") root (int (pos 7)) _ parse_dict_run info_found
