-- ===== src/Torrent/Tests.antt =====
-- The layout of the sample torrent.
use torrent_peer.Prelude.{◌≡◌}
use torrent_peer.Prelude.Loops.{sum_below}
use torrent_peer.Torrent.{piece_size}
use torrent_peer.Torrent.Layout.{sum-piece_size}
use torrent_peer.Torrent.Sample.{small, small-IsTiled}

sum-piece_size_example : sum_below 2 (piece_size small) ≡ 12
sum-piece_size_example = sum-piece_size small small-IsTiled
