-- ===== src/Disk.antt =====
-- src/runtime/managers/disk_manager.cpp: where the bytes of the torrent lie in its files. The
-- descriptors and the calls of the system (open, fallocate, pwrite, pread, fsync) are left out: an
-- operation gives the calls of its `op`, in order.
pub mod Slices
pub mod Ranges
mod Tests
use torrent_peer.Prelude.{
  ℕ, zero, suc, ◌+◌, ◌-◌, ◌*◌, ◌%◌, ◌^◌, Bool, true, false, not, ◌&&◌, ◌||◌, List, [], ◌∷◌, ◌++◌,
  Option, none, some, ltb, leb, ◌==◌, min, if◌then◌else◌, length, drop, same_bytes, Result, ok, err,
  ◌>>=◌, ◌>>◌, throw_if, runtime_error, out_of_range, uncaught,
}
use torrent_peer.Prelude.Int.{ℤ, pos, negsuc}
use torrent_peer.Torrent.{Bytes, u64_mod, FileInfo, TorrentFile, to_u64, piece_size}
use torrent_peer.Types.{CompletedPiece}
use torrent_peer.Metainfo.{FilePath, has_byte, is_negative}

-- The open file is named by its path.
pub record FileEntry : Type 0 where
  pub path : FilePath
  pub offset : ℕ
  pub length : ℕ

pub record DiskManager : Type 0 where
  pub torrent : TorrentFile
  pub files : List FileEntry
  pub piece_length : ℕ
  pub total_length : ℕ
  pub piece_count : ℕ

-- One call of `op`: `n` bytes at `buf_pos` of the buffer and at `file_off` of the file.
pub record Slice : Type 0 where
  pub file : FileEntry
  pub buf_pos : ℕ
  pub n : ℕ
  pub file_off : ℕ

unfoldable pub bad_component : Bytes → Bool
bad_component c =
    (length c == 0)
    || same_bytes c (b'.' ∷ [])
    || same_bytes c (b'.' ∷ b'.' ∷ [])
    || has_byte b'/' c
    || has_byte 92 c

unfoldable pub safe_join : FilePath → FilePath → Result FilePath
safe_join root [] = ok root
safe_join root (c ∷ cs) = do
  throw_if (bad_component c) (runtime_error "unsafe path component in torrent")
  safe_join (root ++ c ∷ []) cs

unfoldable pub join_files : FilePath → List FileInfo → Result (List (FilePath × ℕ))
join_files root [] = ok []
join_files root (f ∷ fs) = do
  throw_if (is_negative f.length) (runtime_error "negative file length")
  path ← safe_join root f.path
  rest ← join_files root fs
  ok ((path, to_u64 f.length) ∷ rest)

-- `layout`
unfoldable pub layout_of : TorrentFile → FilePath → Result (List (FilePath × ℕ))
layout_of t download_dir = elim t.files [
  | some fs ↦ (do root ← safe_join download_dir (t.name ∷ []); join_files root fs)
  | none ↦ (do
    path ← safe_join download_dir (t.name ∷ [])
    ok ((path, elim t.length [ none ↦ 0 | some n ↦ to_u64 n ]) ∷ []))
]

-- The loop over the layout: the entries behind `cursor`, and where it ends.
unfoldable pub place_files : ℕ → List (FilePath × ℕ) → List FileEntry × ℕ
place_files cursor [] = ([], cursor)
place_files cursor ((path, n) ∷ rest) =
    let (files, end_) = place_files ((cursor + n) % u64_mod) rest in
    if ltb 0 n
    then (record { path = path; offset = cursor; length = n } ∷ files, end_)
    else (files, end_)

unfoldable pub make : TorrentFile → FilePath → Result DiskManager
make t download_dir = do
  throw_if (to_u64 t.piece_length == 0) (runtime_error "torrent has piece_length 0")
  layout ← layout_of t download_dir
  let (files, cursor) = place_files 0 layout
  throw_if (not (cursor == t.total_length))
      (runtime_error "file lengths do not sum to total_length")
  ok (record {
    torrent = t;
    files = files;
    piece_length = to_u64 t.piece_length;
    total_length = t.total_length;
    piece_count = length t.pieces % 2 ^ 32;
  })

-- `std::upper_bound` on files in the order of their offsets: how many do not start behind `offset`.
unfoldable pub upper_bound : List FileEntry → ℕ → ℕ
upper_bound [] offset = 0
upper_bound (f ∷ fs) offset = if ltb offset f.offset then 0 else suc (upper_bound fs offset)

unfoldable pub locate : List FileEntry → ℕ → Result ℕ
locate fs offset = do
  throw_if (upper_bound fs offset == 0) (out_of_range "offset before start of torrent")
  ok (upper_bound fs offset - 1)

-- The loop of `for_each_slice`, over the files from `index` on.
unfoldable pub slice_loop : List FileEntry → ℕ → ℕ → ℕ → Result (List Slice)
slice_loop [] global_offset len done =
    if ltb done len then err (uncaught "files_[index] past the end") else ok []
slice_loop (f ∷ fs) global_offset len done = elim (ltb done len) [
  | false ↦ ok []
  | true ↦ (do
    let file_off = (global_offset + done + u64_mod - f.offset) % u64_mod
    let n = min (len - done) ((f.length + u64_mod - file_off) % u64_mod)
    rest ← slice_loop fs global_offset len (done + n)
    ok (record { file = f; buf_pos = done; n = n; file_off = file_off } ∷ rest))
]

unfoldable pub for_each_slice : DiskManager → ℕ → ℕ → Result (List Slice)
for_each_slice d global_offset len = elim (len == 0) [
  | true ↦ ok []
  | false ↦ (do
    throw_if (ltb d.total_length ((global_offset + len) % u64_mod))
        (out_of_range "range extends past the end of the torrent")
    index ← locate d.files global_offset
    slice_loop (drop index d.files) global_offset len 0)
]

unfoldable pub write_piece : DiskManager → CompletedPiece → Result (List Slice)
write_piece d piece = do
  throw_if (leb d.piece_count piece.index) (out_of_range "piece index out of range")
  for_each_slice d (piece.index * d.piece_length % u64_mod) (length piece.payload)

unfoldable pub read_block : DiskManager → ℕ → ℕ → ℕ → Result (List Slice)
read_block d piece_index offset n = do
  throw_if (leb d.piece_count piece_index) (out_of_range "piece index out of range")
  throw_if (ltb (piece_size d.torrent piece_index) ((offset + n) % u64_mod))
      (out_of_range "read_block range extends past the piece")
  for_each_slice d ((piece_index * d.piece_length + offset) % u64_mod) n
