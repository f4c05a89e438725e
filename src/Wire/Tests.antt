-- ===== src/Wire/Tests.antt =====
-- Messages and a queue of two.
use torrent_peer.Prelude.{
  codes, replicate, not, ◌&&◌, same_bytes, ◌≡◌, refl, arith, [], ◌∷◌, ◌++◌, none, some, ok,
}
use torrent_peer.Torrent.{Bytes}
use torrent_peer.Torrent.Sample.{small}
use torrent_peer.Wire.Handshake.{verify-build_handshake}
use torrent_peer.Wire.{
  build_handshake, is_banned, verify_handshake, Outbox, build_message, extract_message, htonl,
  remove_queued_piece, on_sent,
}
use torrent_peer.Wire.Frames.{extract-build_message, extract_partial}
use torrent_peer.Wire.Queued.{IsCoherent, remove_queued_piece-IsCoherent, on_sent-IsCoherent}

extract-build_message_example :
    extract_message (build_message 4 (0 ∷ 0 ∷ 0 ∷ 7 ∷ []) ++ 1 ∷ 2 ∷ [])
    ≡ ok (some (4 ∷ 0 ∷ 0 ∷ 0 ∷ 7 ∷ []), 1 ∷ 2 ∷ [])
extract-build_message_example =
    extract-build_message 4 (0 ∷ 0 ∷ 0 ∷ 7 ∷ []) (1 ∷ 2 ∷ []) (omega arith)

-- The frame of a body of two bytes, but for its last.
split_frame : (0 ∷ 0 ∷ 0 ∷ 2 ∷ 8 ∷ []) ++ 9 ∷ [] ≡ htonl 2 ++ 8 ∷ 9 ∷ []
unfolding htonl
split_frame = refl

extract_partial_example :
    extract_message (0 ∷ 0 ∷ 0 ∷ 2 ∷ 8 ∷ []) ≡ ok (none, 0 ∷ 0 ∷ 0 ∷ 2 ∷ 8 ∷ [])
extract_partial_example =
    extract_partial (8 ∷ 9 ∷ []) (0 ∷ 0 ∷ 0 ∷ 2 ∷ 8 ∷ []) (9 ∷ []) (omega arith) (omega arith)
      split_frame

-- A message of which one byte is sent, and a piece of no bytes behind it.
abbrev queue : Outbox
queue = record {
  write_buffer =
      (0 ∷ 0 ∷ 0 ∷ 1 ∷ 1 ∷ []) ∷ (0 ∷ 0 ∷ 0 ∷ 9 ∷ 7 ∷ 0 ∷ 0 ∷ 0 ∷ 3 ∷ 0 ∷ 0 ∷ 0 ∷ 0 ∷ []) ∷ [];
  queued_bytes = 18;
  cursor = 1;
}

queue-IsCoherent : IsCoherent queue
queue-IsCoherent = record {
  counted = refl;
  no_empty = (omega arith, (omega arith, tt));
  cursor_ok = omega arith;
}

remove_queued_piece_example : IsCoherent (remove_queued_piece queue 3 0 0).1
remove_queued_piece_example = remove_queued_piece-IsCoherent queue queue-IsCoherent 3 0 0

on_sent_example : IsCoherent (on_sent queue 4)
on_sent_example =
    on_sent-IsCoherent queue queue-IsCoherent (0 ∷ 0 ∷ 0 ∷ 1 ∷ 1 ∷ [])
      ((0 ∷ 0 ∷ 0 ∷ 9 ∷ 7 ∷ 0 ∷ 0 ∷ 0 ∷ 3 ∷ 0 ∷ 0 ∷ 0 ∷ 0 ∷ []) ∷ []) 4 refl (omega arith)

abbrev twenty : Bytes
twenty = codes "aaaaaaaaaaaaaaaaaaaa"

built_run :
    build_handshake small twenty
    ≡ ok (19 ∷ codes "BitTorrent protocol" ++ replicate 8 0 ++ small.info_hash ++ twenty)
unfolding build_handshake
built_run = refl

verify-build_handshake_example :
    verify_handshake [] small.info_hash
      (codes "bbbbbbbbbbbbbbbbbbbb")
      (19 ∷ codes "BitTorrent protocol" ++ replicate 8 0 ++ small.info_hash ++ twenty)
      (codes "host")
    ≡ (not (is_banned [] (codes "host")) && not (same_bytes twenty (codes "bbbbbbbbbbbbbbbbbbbb")))
verify-build_handshake_example =
    verify-build_handshake small twenty (codes "bbbbbbbbbbbbbbbbbbbb") _ [] (codes "host") refl
      built_run
