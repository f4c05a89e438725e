-- ===== src/Disk/Tests.antt =====
-- The sample torrent on disk.
use torrent_peer.Prelude.{◌+◌, ◌*◌, ◌≡◌, refl, arith, List, [], ◌∷◌, ok, codes}
use torrent_peer.Torrent.{to_u64, piece_size}
use torrent_peer.Torrent.Sample.{small, small-IsTiled}
use torrent_peer.Types.{CompletedPiece}
use torrent_peer.Disk.{DiskManager, Slice, write_piece, read_block}
use torrent_peer.Disk.Slices.{IsLaid, Tiles}
use torrent_peer.Disk.Ranges.{IsOpen, write_piece-Tiles, read_block-Tiles}

-- As if the bytes were in two files, of 10 bytes and of 2.
abbrev disk : DiskManager
disk = record {
  torrent = small;
  files =
      record { path = codes "a" ∷ []; offset = 0; length = 10 }
      ∷ record { path = codes "b" ∷ []; offset = 10; length = 2 }
      ∷ [];
  piece_length = 8;
  total_length = 12;
  piece_count = 2;
}

disk-IsOpen : IsOpen disk
unfolding IsLaid
disk-IsOpen = record {
  laid = (refl, omega arith, (refl, omega arith, refl));
  tiled = small-IsTiled;
  same_total = refl;
  same_length = refl;
  same_count = refl;
}

abbrev last_piece : CompletedPiece
last_piece = record { index = 1; payload = 1 ∷ 2 ∷ 3 ∷ 4 ∷ [] }

last_size : 4 ≡ piece_size small 1
unfolding piece_size
last_size = refl

write_piece_example :
    (ss : List Slice) × (write_piece disk last_piece ≡ ok ss)
    × Tiles (1 * to_u64 small.piece_length) 4 0 ss
write_piece_example = write_piece-Tiles disk disk-IsOpen last_piece (omega arith) last_size

read_block_example :
    (ss : List Slice) × (read_block disk 1 1 3 ≡ ok ss)
    × Tiles (1 * to_u64 small.piece_length + 1) 3 0 ss
read_block_example =
    read_block-Tiles disk disk-IsOpen 1 1 3 (omega arith) (omega (arith, last_size))
