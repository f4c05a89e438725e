-- ===== src/Torrent/Sample.antt =====
-- A small torrent for the tests: one file of 12 bytes in pieces of 8.
use torrent_peer.Prelude.{arith, [], ◌∷◌, none, some, codes}
use torrent_peer.Prelude.Int.{pos}
use torrent_peer.Torrent.{TorrentFile}
use torrent_peer.Torrent.Layout.{IsTiled}

abbrev pub small : TorrentFile
small = record {
  announce = [];
  announce_list = [];
  url_list = [];
  comment = none;
  created_by = none;
  creation_date = none;
  encoding = none;
  name = codes "a";
  piece_length = pos 8;
  pieces = codes "aaaaaaaaaaaaaaaaaaaa" ∷ codes "bbbbbbbbbbbbbbbbbbbb" ∷ [];
  info_hash = codes "cccccccccccccccccccc";
  length = some (pos 12);
  files = none;
  total_length = 12;
}

pub small-IsTiled : IsTiled small
small-IsTiled = record {
  positive = omega arith;
  capped = omega arith;
  fits = omega arith;
  covers = omega arith;
  needed = omega arith;
}
