-- ===== src/Metainfo/Tests.antt =====
-- A torrent that is accepted, and paths of which one is the start of another.
use torrent_peer.Prelude.{◌≡◌, refl, ◌↔◌, List, [], ◌∷◌, none, some, ok, codes, same_bytes}
use torrent_peer.Prelude.Int.{pos}
use torrent_peer.Torrent.{Bytes, TorrentFile}
use torrent_peer.Bencode.{
  parse, parse_value, parse_int, read_string, digit_run, from_chars_int, kind_of, enter, check_key,
  before,
}
use torrent_peer.Bencode.Digits.{value}
use torrent_peer.Bencode.Access.{lookup, at, get_int, get_string, get_list, get_dict, is_dict}
use torrent_peer.Metainfo.{
  FilePath, sort, check_neighbours, generate_pieces, cut_pieces, validate_layout, check_component,
  is_unsafe, has_byte, negative_length, check_file_list, calculate_total_length,
}
use torrent_peer.Metainfo.Paths.{AllApart}
use torrent_peer.Metainfo.Sorting.{check_neighbours_iff}
use torrent_peer.Metainfo.Reading.{
  optional_string, optional_int, optional_files, string_or_empty, announce_tiers, url_strings,
  with_announce, info_bytes, read_torrent, bad_piece_length, expected_pieces, check_torrent,
  parse_torrent,
}
use torrent_peer.Metainfo.Accepted.{IsAccepted, parse_torrent-IsAccepted}

abbrev one_piece : Bytes
one_piece = codes "d4:infod6:lengthi5e4:name1:a12:piece lengthi8e6:pieces20:aaaaaaaaaaaaaaaaaaaaee"

abbrev no_digest : Bytes → Bytes
no_digest data_ = []

abbrev accepted : TorrentFile
accepted = record {
  announce = [];
  announce_list = [];
  url_list = [];
  comment = none;
  created_by = none;
  creation_date = none;
  encoding = none;
  name = codes "a";
  piece_length = pos 8;
  pieces = codes "aaaaaaaaaaaaaaaaaaaa" ∷ [];
  info_hash = [];
  length = some (pos 5);
  files = none;
  total_length = 5;
}

parse_torrent_run : parse_torrent no_digest one_piece ≡ ok accepted
unfolding parse_torrent read_torrent check_torrent parse parse_value parse_int read_string digit_run
    value from_chars_int kind_of enter check_key before lookup at get_int get_string get_list
    get_dict is_dict generate_pieces cut_pieces validate_layout check_component is_unsafe has_byte
    negative_length check_file_list calculate_total_length optional_string optional_int
    optional_files string_or_empty announce_tiers url_strings with_announce info_bytes
    bad_piece_length expected_pieces same_bytes
parse_torrent_run = refl

parse_torrent_example : IsAccepted accepted
parse_torrent_example = parse_torrent-IsAccepted no_digest one_piece accepted parse_torrent_run

abbrev clash : List FilePath
clash = (codes "b" ∷ []) ∷ (codes "a" ∷ codes "c" ∷ []) ∷ (codes "a" ∷ []) ∷ []

check_neighbours_example : (check_neighbours (sort clash) ≡ ok tt) ↔ AllApart clash
check_neighbours_example = check_neighbours_iff clash
