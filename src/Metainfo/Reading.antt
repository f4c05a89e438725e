-- ===== src/Metainfo/Reading.antt =====
-- `parse_torrent` of src/metainfo/torrent.cpp: the fields that it reads, and the tests on them.
use torrent_peer.Prelude.{
  ℕ, ◌+◌, ◌-◌, ◌/◌, ◌%◌, Bool, true, not, ◌&&◌, ◌||◌, List, [], ◌∷◌, Option, none, some, ltb, ◌==◌,
  if◌then◌else◌, length, take, drop, Result, ok, ◌>>=◌, ◌>>◌, throw_if, or_throw, runtime_error,
  codes,
}
use torrent_peer.Prelude.Int.{ℤ, pos, negsuc}
use torrent_peer.Torrent.{Bytes, FileInfo, TorrentFile, to_u64}
use torrent_peer.Bencode.{Value, Parser, parse, get_info_range}
use torrent_peer.Bencode.Access.{lookup, at, get_int, get_string, get_list, get_dict, is_dict}
use torrent_peer.Metainfo.{
  piece_length_cap, validate_layout, generate_pieces, calculate_total_length, strings, tiers,
  file_infos,
}

-- `if (auto it = dict.find(key); it != dict.end()) field = it->second.get_string();`
unfoldable pub optional_string : Option Value → Result (Option Bytes)
optional_string none = ok none
optional_string (some v) = do s ← get_string v; ok (some s)

unfoldable pub optional_int : Option Value → Result (Option ℤ)
optional_int none = ok none
optional_int (some v) = do n ← get_int v; ok (some n)

unfoldable pub optional_files : Option Value → Result (Option (List FileInfo))
optional_files none = ok none
optional_files (some v) = do vs ← get_list v; fs ← file_infos vs; ok (some fs)

unfoldable pub string_or_empty : Option Value → Result Bytes
string_or_empty none = ok []
string_or_empty (some v) = get_string v

unfoldable pub announce_tiers : Option Value → Result (List (List Bytes))
announce_tiers none = ok []
announce_tiers (some v) = do vs ← get_list v; tiers vs

unfoldable pub url_strings : Option Value → Result (List Bytes)
url_strings none = ok []
url_strings (some v) = do vs ← get_list v; strings vs

-- The announce URL is a tier of its own when there is no list.
unfoldable pub with_announce : Bytes → List (List Bytes) → List (List Bytes)
with_announce announce listed =
    if (length listed == 0) && not (length announce == 0) then (announce ∷ []) ∷ [] else listed

-- The bytes that the info hash is of: `sha1(data, info_start, info_end - info_start)`.
unfoldable pub info_bytes : Bytes → Parser → Bytes
info_bytes data_ st =
    let (info_start, info_end) = get_info_range st in
    take (info_end - info_start) (drop info_start data_)

-- The reads of `parse_torrent`, up to the info hash.
unfoldable pub read_torrent : (Bytes → Bytes) → Bytes → Result TorrentFile
read_torrent sha1 data_ = do
  (root, st) ← parse data_
  throw_if (not (is_dict root)) (runtime_error "Root is not a dict")
  entries ← get_dict root
  info_value ← or_throw (lookup (codes "info") entries) (runtime_error "Missing info dict")
  info ← get_dict info_value
  announce ← string_or_empty (lookup (codes "announce") entries)
  listed ← announce_tiers (lookup (codes "announce-list") entries)
  url_list ← url_strings (lookup (codes "url-list") entries)
  single ← optional_int (lookup (codes "length") info)
  files ← optional_files (lookup (codes "files") info)
  comment ← optional_string (lookup (codes "comment") entries)
  created_by ← optional_string (lookup (codes "created by") entries)
  creation_date ← optional_int (lookup (codes "creation date") entries)
  encoding ← optional_string (lookup (codes "encoding") entries)
  name_value ← at (codes "name") info
  name ← get_string name_value
  piece_length_value ← at (codes "piece length") info
  piece_length ← get_int piece_length_value
  pieces_value ← at (codes "pieces") info
  raw ← get_string pieces_value
  pieces ← generate_pieces raw
  ok (record {
    announce = announce;
    announce_list = with_announce announce listed;
    url_list = url_list;
    comment = comment;
    created_by = created_by;
    creation_date = creation_date;
    encoding = encoding;
    name = name;
    piece_length = piece_length;
    pieces = pieces;
    info_hash = sha1 (info_bytes data_ st);
    length = single;
    files = files;
    total_length = 0;
  })

-- `piece_length <= 0 || piece_length > kPieceLengthCap`
unfoldable pub bad_piece_length : ℤ → Bool
bad_piece_length (pos n) = (n == 0) || ltb piece_length_cap n
bad_piece_length (negsuc n) = true

-- `total_length / pl + (total_length % pl != 0)`
unfoldable pub expected_pieces : ℕ → ℕ → ℕ
expected_pieces total pl = total / pl + (if total % pl == 0 then 0 else 1)

-- The tests of `parse_torrent`, and the total length.
unfoldable pub check_torrent : TorrentFile → Result TorrentFile
check_torrent t = do
  throw_if (bad_piece_length t.piece_length) (runtime_error "piece length out of range")
  validate_layout t
  total ← calculate_total_length t
  throw_if (not (length t.pieces == expected_pieces total (to_u64 t.piece_length)))
      (runtime_error "piece count doesn't match total length")
  ok (record t { total_length = total })

unfoldable pub parse_torrent : (Bytes → Bytes) → Bytes → Result TorrentFile
parse_torrent sha1 data_ = do t ← read_torrent sha1 data_; check_torrent t
