-- ===== src/Bans/Tests.antt =====
-- Verdicts on a piece of one block.
use torrent_peer.Prelude.{◌≡◌, refl, ◌↔◌, true, [], ◌∷◌, some, codes, same_bytes}
use torrent_peer.Prelude.Map.{find, emplace, contains, erase}
use torrent_peer.Torrent.{Bytes}
use torrent_peer.Types.{CompletedPiece}
use torrent_peer.Bans.{
  BanManager, Evidence, has_host, on_piece_verified, on_piece_failed, all_same, slots, blame,
  host_of, compare_blocks, accuse, block_matches,
}
use torrent_peer.Bans.Attempts.{OnRecord, on_piece_verified-on_piece_failed}
use torrent_peer.Bans.Senders.{SoleSender, on_piece_failed_iff}
use torrent_peer.Bans.Verdicts.{Guilty, on_piece_verified_iff}

abbrev host : Bytes
host = codes "10.0.0.1"

-- Evidence of a bad byte from peer 4, in piece 0.
abbrev suspicion : Evidence
suspicion = record { payload = 9 ∷ []; senders = 4 ∷ [] }

abbrev watched : BanManager
watched = record {
  hosts = (4, host) ∷ (5, codes "10.0.0.2") ∷ [];
  senders = (1, 4 ∷ 4 ∷ []) ∷ (2, 4 ∷ 5 ∷ []) ∷ [];
  evidence = (0, suspicion) ∷ [];
  retry_owner = [];
}

abbrev good : CompletedPiece
good = record { index = 0; payload = 8 ∷ [] }

abbrev bad_one : CompletedPiece
bad_one = record { index = 1; payload = 8 ∷ [] }

abbrev bad_two : CompletedPiece
bad_two = record { index = 2; payload = 8 ∷ [] }

evidence_found : find watched.evidence good.index ≡ some suspicion
unfolding find
evidence_found = refl

on_piece_verified_iff_example :
    (has_host host (on_piece_verified watched good).0 ≡ true)
    ↔ Guilty watched suspicion good host 0 (4 ∷ [])
on_piece_verified_iff_example = on_piece_verified_iff watched suspicion good host evidence_found

on_piece_failed_iff_example :
    (has_host host (on_piece_failed watched bad_one).0 ≡ true) ↔ SoleSender watched 1 host
on_piece_failed_iff_example = on_piece_failed_iff watched bad_one host

-- The good copy of the piece that peers 4 and 5 sent.
abbrev good_two : CompletedPiece
good_two = record { index = 2; payload = 9 ∷ [] }

on_piece_verified-on_piece_failed_example :
    (has_host host (on_piece_verified (on_piece_failed watched bad_two).1 good_two).0 ≡ true)
    ↔ ((ev : Evidence) × OnRecord watched bad_two ev × Guilty watched ev good_two host 0 ev.senders)
on_piece_verified-on_piece_failed_example =
    on_piece_verified-on_piece_failed watched bad_two good_two host refl

-- Peer 4 sent the bad byte of it.
banned_later :
    has_host host (on_piece_verified (on_piece_failed watched bad_two).1 good_two).0 ≡ true
unfolding on_piece_verified on_piece_failed has_host slots find all_same blame host_of emplace
    contains compare_blocks accuse block_matches same_bytes erase
banned_later = refl
