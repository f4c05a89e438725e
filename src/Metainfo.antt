-- ===== src/Metainfo.antt =====
-- src/metainfo/torrent.cpp: what `parse_torrent` reads from a file and what it refuses. `sha1`, a
-- call of OpenSSL, is a parameter.
pub mod Reading
pub mod Paths
pub mod Sorting
pub mod Lengths
pub mod Accepted
mod Tests
use torrent_peer.Prelude.{
  ℕ, zero, suc, ◌+◌, ◌-◌, ◌*◌, ◌/◌, ◌%◌, ◌^◌, ◌≡◌, Bool, true, false, not, ◌&&◌, ◌||◌, List, [],
  ◌∷◌, ◌++◌, Option, none, some, ltb, leb, ◌==◌, if◌then◌else◌, length, get_or, take, drop,
  same_bytes, Result, ok, err, ◌>>=◌, ◌>>◌, throw_if, or_throw, runtime_error, uncaught,
  fuel_ran_out, codes,
}
use torrent_peer.Prelude.Int.{ℤ, pos, negsuc}
use torrent_peer.Torrent.{Bytes, u64_mod, FileInfo, TorrentFile, to_u64}
use torrent_peer.Bencode.{Value, Fields, before, parse, get_info_range}
use torrent_peer.Bencode.Access.{lookup, at, get_int, get_string, get_list, get_dict, is_dict}

-- kPieceLengthCap
abbrev pub piece_length_cap : ℕ
piece_length_cap = 64 * 1024 * 1024

-- kLimit
abbrev pub limit : ℕ
limit = 2 ^ 63 - 1

abbrev pub FilePath : Type 0
FilePath = List Bytes

unfoldable pub has_byte : ℕ → Bytes → Bool
has_byte c [] = false
has_byte c (x ∷ xs) = (x == c) || has_byte c xs

unfoldable pub is_unsafe : Bytes → Bool
is_unsafe c =
    (length c == 0)
    || same_bytes c (b'.' ∷ [])
    || same_bytes c (b'.' ∷ b'.' ∷ [])
    || has_byte b'/' c
    || has_byte 92 c
    || has_byte 0 c

unfoldable pub check_component : Bytes → Result (Unit {0})
check_component c = throw_if (is_unsafe c) (runtime_error "unsafe path component in torrent")

unfoldable pub check_components : FilePath → Result (Unit {0})
check_components [] = ok tt
check_components (c ∷ cs) = do check_component c; check_components cs

abbrev pub is_negative : ℤ → Bool
is_negative (pos n) = false
is_negative (negsuc n) = true

unfoldable pub check_files : List FileInfo → Result (Unit {0})
check_files [] = ok tt
check_files (f ∷ fs) = do
  throw_if (is_negative f.length) (runtime_error "negative file length")
  throw_if (length f.path == 0) (runtime_error "file with empty path")
  check_components f.path
  check_files fs

-- `operator<` of `std::vector<std::string>`
unfoldable pub path_before : FilePath → FilePath → Bool
path_before [] [] = false
path_before [] (y ∷ ys) = true
path_before (x ∷ xs) [] = false
path_before (x ∷ xs) (y ∷ ys) =
    if before x y then true else if before y x then false else path_before xs ys

unfoldable pub insert : FilePath → List FilePath → List FilePath
insert p [] = p ∷ []
insert p (q ∷ qs) = if path_before q p then q ∷ insert p qs else p ∷ q ∷ qs

-- `std::ranges::sort`
unfoldable pub sort : List FilePath → List FilePath
sort [] = []
sort (p ∷ ps) = insert p (sort ps)

-- `next.size() >= curr.size() && std::equal(curr.begin(), curr.end(), next.begin())`
unfoldable pub is_prefix : FilePath → FilePath → Bool
is_prefix [] ys = true
is_prefix (x ∷ xs) [] = false
is_prefix (x ∷ xs) (y ∷ ys) = same_bytes x y && is_prefix xs ys

-- The loop over neighbours.
unfoldable pub check_neighbours : List FilePath → Result (Unit {0})
check_neighbours [] = ok tt
check_neighbours (p ∷ []) = ok tt
check_neighbours (curr ∷ next ∷ ps) = do
  throw_if (is_prefix curr next) (
      if length curr == length next
      then runtime_error "duplicate file path in torrent"
      else runtime_error "file path is also used as a directory in torrent")
  check_neighbours (next ∷ ps)

unfoldable pub paths_of : List FileInfo → List FilePath
paths_of [] = []
paths_of (f ∷ fs) = f.path ∷ paths_of fs

abbrev pub has_value {ℓ} : {A : Type ℓ} → Option A → Bool
has_value none = false
has_value (some a) = true

unfoldable pub negative_length : Option ℤ → Bool
negative_length none = false
negative_length (some n) = is_negative n

unfoldable pub check_file_list : Option (List FileInfo) → Result (Unit {0})
check_file_list none = ok tt
check_file_list (some fs) = do check_files fs; check_neighbours (sort (paths_of fs))

abbrev both_or_none : Bool → Bool → Bool
both_or_none true b = b
both_or_none false b = not b

unfoldable pub validate_layout : TorrentFile → Result (Unit {0})
validate_layout t = do
  throw_if (both_or_none (has_value t.length) (has_value t.files))
      (runtime_error "info needs exactly one of 'length' or 'files'")
  throw_if (negative_length t.length) (runtime_error "negative length")
  check_component t.name
  check_file_list t.files

-- `for (size_t i = 0; i < raw.size(); i += 20) pieces.push_back(raw.substr(i, 20));`, `n` times.
unfoldable pub cut_pieces : ℕ → Bytes → List Bytes
cut_pieces zero raw = []
cut_pieces (suc n) raw = take 20 raw ∷ cut_pieces n (drop 20 raw)

unfoldable pub generate_pieces : Bytes → Result (List Bytes)
generate_pieces raw = do
  throw_if (not (length raw % 20 == 0)) (runtime_error "Pieces aren't a multiple of 20")
  ok (cut_pieces (length raw / 20) raw)

-- The loop of `calculate_total_length`; the addition is one of `uint64_t`.
unfoldable pub add_lengths : ℕ → List FileInfo → Result ℕ
add_lengths total [] = ok total
add_lengths total (f ∷ fs) = do
  throw_if (ltb limit ((to_u64 f.length + total) % u64_mod))
      (runtime_error "total length overflows")
  add_lengths ((total + to_u64 f.length) % u64_mod) fs

unfoldable pub calculate_total_length : TorrentFile → Result ℕ
calculate_total_length t = elim t.length [
  | some n ↦ ok (to_u64 n)
  | none ↦ (do fs ← or_throw t.files (uncaught "bad_optional_access"); add_lengths 0 fs)
]

-- `for (const auto& x : list) out.push_back(x.get_string())`
unfoldable pub strings : List Value → Result (List Bytes)
strings [] = ok []
strings (v ∷ vs) = do s ← get_string v; ss ← strings vs; ok (s ∷ ss)

unfoldable pub tiers : List Value → Result (List (List Bytes))
tiers [] = ok []
tiers (v ∷ vs) = do urls ← get_list v; t ← strings urls; ts ← tiers vs; ok (t ∷ ts)

unfoldable pub file_infos : List Value → Result (List FileInfo)
file_infos [] = ok []
file_infos (v ∷ vs) = do
  d ← get_dict v
  length_value ← at (codes "length") d
  n ← get_int length_value
  path_value ← at (codes "path") d
  components ← get_list path_value
  p ← strings components
  fs ← file_infos vs
  ok (record { length = n; path = p } ∷ fs)
