-- ===== src/Metainfo/Accepted.antt =====
-- What holds of every torrent that `parse_torrent` accepts.
use torrent_peer.Prelude.{
  ℕ, ◌+◌, ◌*◌, ◌/◌, ◌%◌, ◌^◌, ◌≤◌, ◌<◌, ◌≡◌, sym, ap, subst, inl, inr, true, false, List, [], ◌∷◌,
  Option, none, some, arith, ltb, ◌==◌, length, ok, Bool-cases, Result-cases, Option-cases, All,
  >>=-eq-ok, ==_iff,
}
use native.Mathlib.Nat.{div-add-mod', mod-lt}
use torrent_peer.Prelude.Int.{ℤ, pos, negsuc}
use torrent_peer.Torrent.{Bytes, u64_mod, FileInfo, TorrentFile, to_u64}
use torrent_peer.Torrent.Layout.{IsTiled}
use torrent_peer.Bencode.Print.{InRange}
use torrent_peer.Metainfo.{
  FilePath, limit, is_negative, is_unsafe, check_component, check_components, check_files,
  check_file_list, paths_of, negative_length, validate_layout, add_lengths, calculate_total_length,
}
use torrent_peer.Metainfo.Lengths.{LengthOk, read_torrent-LengthOk}
use torrent_peer.Metainfo.Paths.{AllApart}
use torrent_peer.Metainfo.Sorting.{check_neighbours_iff}
use torrent_peer.Metainfo.Reading.{
  read_torrent, bad_piece_length, expected_pieces, check_torrent, parse_torrent,
}

-- A path component that names one file or directory: not empty, no dots, no separator.
abbrev pub IsSafe : Bytes → Type 0
IsSafe c = is_unsafe c ≡ false

-- A file that may be created: its length is not negative and its path stays below the root.
abbrev pub FileOk : FileInfo → Type 0
FileOk f = (is_negative f.length ≡ false) × (0 < length f.path) × All IsSafe f.path

components-IsSafe : (cs : FilePath) → check_components cs ≡ ok tt → All IsSafe cs
unfolding check_components check_component
components-IsSafe [] h = tt
components-IsSafe (c ∷ cs) h = elim (Bool-cases (is_unsafe c)) [
  | inl e ↦ absurd (ground (arith, e, h))
  | inr e ↦ (e, components-IsSafe cs (ground (arith, e, h)))
]

files_ok : (fs : List FileInfo) → check_files fs ≡ ok tt → All FileOk fs
unfolding check_files
files_ok [] h = tt
files_ok (f ∷ fs) h = elim (Bool-cases (is_negative f.length)) [
  | inl e ↦ absurd (ground (arith, e, h))
  | inr e ↦ elim (Bool-cases (length f.path == 0)) [
    | inl e1 ↦ absurd (ground (arith, e, e1, h))
    | inr e1 ↦ elim (Result-cases (check_components f.path)) [
      | inr (x, e2) ↦ absurd (ground (arith, e, e1, e2, h))
      | inl (tt, e2) ↦ (
        (e, ground (arith, e1), components-IsSafe f.path e2),
        files_ok fs (ground (arith, e, e1, e2, h)),
      )
    ]
  ]
]

-- A total within the limit, whatever the summands.
add_lengths_bounded :
    (total : ℕ) (fs : List FileInfo) (n : ℕ)
    → total ≤ limit
    → add_lengths total fs ≡ ok n
    → n ≤ limit
unfolding add_lengths
add_lengths_bounded total [] n le h = ground (arith, le, h)
add_lengths_bounded total (f ∷ fs) n le h =
    elim (Bool-cases (ltb limit ((to_u64 f.length + total) % u64_mod))) [
      | inl e ↦ absurd (ground (arith, e, h))
      | inr e ↦
          add_lengths_bounded ((total + to_u64 f.length) % u64_mod) fs n (ground (arith, e))
            (ground (arith, e, h))
    ]

-- The layout of the files of a torrent that is accepted.
abbrev pub FilesOk : Option (List FileInfo) → Type 0
FilesOk none = Unit {0}
FilesOk (some fs) = All FileOk fs × AllApart (paths_of fs)

file_list_ok : (o : Option (List FileInfo)) → check_file_list o ≡ ok tt → FilesOk o
unfolding check_file_list
file_list_ok none h = tt
file_list_ok (some fs) h = elim (Result-cases (check_files fs)) [
  | inr (x, e) ↦ absurd (ground (arith, e, h))
  | inl (tt, e) ↦ (files_ok fs e, (check_neighbours_iff (paths_of fs)).0 (ground (arith, e, h)))
]

layout_ok :
    (t : TorrentFile)
    → validate_layout t ≡ ok tt
    → IsSafe t.name × FilesOk t.files × (negative_length t.length ≡ false)
unfolding validate_layout check_component
layout_ok t h = elim (Bool-cases (is_unsafe t.name)) [
  | inl e ↦ absurd (ground (arith, e, h))
  | inr e ↦ (e, file_list_ok t.files (ground (arith, e, h)), ground (arith, e, h))
]

single_bounded : (z : ℤ) → InRange z → is_negative z ≡ false → to_u64 z ≤ limit
single_bounded (pos n) h k = omega (arith, h)
single_bounded (negsuc n) h k = absurd (cc)

total_bounded :
    (t : TorrentFile) (n : ℕ)
    → LengthOk t.length
    → negative_length t.length ≡ false
    → calculate_total_length t ≡ ok n
    → n ≤ limit
unfolding calculate_total_length negative_length
total_bounded t n range positive h = elim (Option-cases t.length) [
  | inl e ↦ elim (Option-cases t.files) [
    | inl e1 ↦ absurd (ground (arith, e, e1, h))
    | inr (fs, e1) ↦ add_lengths_bounded 0 fs n (omega arith) (ground (arith, e, e1, h))
  ]
  | inr (z, e) ↦
      let same : n ≡ to_u64 z = ground (arith, e, h) in
      subst (λ m. m ≤ limit) (sym same)
        (single_bounded z (subst LengthOk e range) (ground (arith, e, positive)))
]

-- The pieces that `parse_torrent` expects tile the total.
expected_tile :
    (n total pl : ℕ)
    → 0 < pl
    → n ≡ expected_pieces total pl
    → (total ≤ n * pl) × (n * pl < total + pl)
unfolding expected_pieces
expected_tile n total pl positive h =
    let split = div-add-mod' total pl in
    let small = mod-lt total positive in
    elim (Bool-cases (total % pl == 0)) [
      | inl e ↦
          let at_n : n * pl ≡ total / pl * pl = ap (λ k. k * pl) (ground (arith, h, e)) in
          omega (arith, at_n, split, small, e0 (total % pl) e)
      | inr e ↦
          let at_n : n * pl ≡ (total / pl + 1) * pl = ap (λ k. k * pl) (ground (arith, h, e)) in
          omega (arith, at_n, split, small, e1 (total % pl) e, one_more (total / pl) pl)
    ]
  where
    e0 : (m : ℕ) → (m == 0) ≡ true → m ≡ 0
    e0 m h = ground (arith, h)

    e1 : (m : ℕ) → (m == 0) ≡ false → 0 < m
    e1 m h = ground (arith, h)

    one_more : (q p : ℕ) → (q + 1) * p ≡ q * p + p
    one_more q p = grind arith

piece_length_range : (z : ℤ) → bad_piece_length z ≡ false → (0 < to_u64 z) × (to_u64 z ≤ 2 ^ 26)
unfolding bad_piece_length
piece_length_range (pos n) h = (ground (arith, h), ground (arith, h))
piece_length_range (negsuc n) h = absurd (cc)

-- What the tests of `parse_torrent` leave: a torrent whose pieces tile its bytes, with a layout of
-- files that are safe to create.
pub record IsAccepted (t : TorrentFile) : Type 0 where
  pub tiled : IsTiled t
  pub name_safe : IsSafe t.name
  pub files_safe : FilesOk t.files

check_torrent-IsAccepted :
    (t t' : TorrentFile) → LengthOk t.length → check_torrent t ≡ ok t' → IsAccepted t'
unfolding check_torrent
check_torrent-IsAccepted t t' range h = elim (Bool-cases (bad_piece_length t.piece_length)) [
  | inl e ↦ absurd (ground (arith, e, h))
  | inr e ↦ elim (Result-cases (validate_layout t)) [
    | inr (x, e1) ↦ absurd (ground (arith, e, e1, h))
    | inl (tt, e1) ↦ elim (Result-cases (calculate_total_length t)) [
      | inr (x, e2) ↦ absurd (ground (arith, e, e1, e2, h))
      | inl (total, e2) ↦
          elim (Bool-cases (length t.pieces == expected_pieces total (to_u64 t.piece_length))) [
            | inr e3 ↦ absurd (ground (arith, e, e1, e2, e3, h))
            | inl e3 ↦
                let same : record t { total_length = total } ≡ t' =
                  ground (arith, e, e1, e2, e3, h) in
                let (name_safe, files_safe, positive) = layout_ok t e1 in
                let (pl_positive, pl_capped) = piece_length_range t.piece_length e in
                let (covers, needed) =
                  expected_tile _ total (to_u64 t.piece_length) pl_positive ((==_iff _ _).0 e3) in
                let accepted : IsAccepted (record t { total_length = total }) = record {
                  tiled = record {
                    positive = pl_positive;
                    capped = pl_capped;
                    fits = omega (arith, total_bounded t total range positive e2);
                    covers = covers;
                    needed = needed;
                  };
                  name_safe = name_safe;
                  files_safe = files_safe;
                } in
                subst IsAccepted same accepted
          ]
    ]
  ]
]

-- A torrent that parse_torrent returns has a piece length from 1 byte to 64 MiB and a total below
-- 2^63 that its pieces tile; its name and path components are safe, no file length is negative,
-- and no path in it is the start of another.
pub parse_torrent-IsAccepted :
    (sha1 : Bytes → Bytes) (data_ : Bytes) (t : TorrentFile)
    → parse_torrent sha1 data_ ≡ ok t
    → IsAccepted t
unfolding parse_torrent
parse_torrent-IsAccepted sha1 data_ t h =
    let (t0, e, h1) = >>=-eq-ok (read_torrent sha1 data_) _ h in
    check_torrent-IsAccepted t0 t (read_torrent-LengthOk sha1 data_ t0 e) h1
