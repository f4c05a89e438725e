-- ===== src/Tracker/Tests.antt =====
-- A torrent of one tracker, its answers over a short run, and its packets.
use torrent_peer.Prelude.{
  ℕ, ◌+◌, ◌-◌, ◌*◌, ◌<◌, ◌≤◌, ◌≡◌, ◌↔◌, refl, true, List, [], ◌∷◌, ◌++◌, codes, replicate, some,
  get_elem?, ok, arith,
}
use torrent_peer.Torrent.{Bytes, TorrentFile}
use torrent_peer.Torrent.Sample.{small}
use torrent_peer.Tracker.{
  event_started, TrackerSession, TrackerManager, AnnounceParams, ok_reply, parse_tracker_url,
  parse_announce_reply, build_announce_request,
}
use torrent_peer.Tracker.Machine.{Answers, opened, datagram, advance}
use torrent_peer.Tracker.Manager.{make, fresh_tracker, due, soonest, until_next_action}
use torrent_peer.Tracker.Runs.{
  ManagerOk, Operation, ticks, completes, shuts_down, run, load_tiers-TrackerOk, run-ManagerOk,
}
use torrent_peer.Tracker.Timers.{until_next_action_bounds}
use torrent_peer.Tracker.Progress.{Moves, until_next_action_progress}
use torrent_peer.Tracker.Refines.{IsTrace, run-IsTrace}
use torrent_peer.Tracker.Urls.{Spells, parse_tracker_url_iff}
use torrent_peer.Tracker.Replies.{Endpoint, reply_packet, named, parse_announce_reply-reply_packet}
use torrent_peer.Tracker.Requests.{Announces, build_announce_request-Announces}

abbrev torrent : TorrentFile
torrent = record small {
  announce_list = (codes "udp://t.example:6969/announce" ∷ codes "http://t.example/" ∷ []) ∷ [];
}

abbrev our_id : Bytes
our_id = replicate 20 65

abbrev stats : AnnounceParams
stats = record { downloaded = 0; uploaded = 0; left = 9 }

-- A lookup that ends and packets that are sent; the tracker answers the connect.
abbrev answers : Answers
answers = record {
  ready = true;
  received = datagram (replicate 7 0 ++ 7 ∷ replicate 8 1) ∷ [];
  recv_clock = 2;
  lookup = opened;
  txn = 7;
  sends = λ packet. true;
  send_clock = 2;
  fail_clock = 2;
}

abbrev later : Answers
later = record answers { send_clock = 2600000; fail_clock = 2600000 }

abbrev three_ticks : List Operation
three_ticks =
    ticks (answers ∷ []) stats 1
    ∷ ticks (answers ∷ []) stats 2
    ∷ ticks (answers ∷ []) stats 3
    ∷ completes 4
    ∷ shuts_down 5
    ∷ []

run-ManagerOk_example :
    (m : TrackerManager) × (run (make torrent our_id 6881 5) three_ticks ≡ ok m) × ManagerOk m
run-ManagerOk_example = run-ManagerOk torrent our_id 6881 5 three_ticks refl

abbrev fresh : TrackerManager
fresh = make torrent our_id 6881 5

fresh-ManagerOk : ManagerOk fresh
unfolding make
fresh-ManagerOk = record { sized = refl; each = load_tiers-TrackerOk 5 torrent.announce_list }

run-IsTrace_example :
    (m : TrackerManager) × (run fresh three_ticks ≡ ok m) × IsTrace fresh three_ticks m
run-IsTrace_example = run-IsTrace three_ticks fresh fresh-ManagerOk

-- A tracker that waits for a time, in a manager of its own.
abbrev waiting : TrackerSession
waiting = record (fresh_tracker (record { host = codes "t.example"; port = codes "6969" }) 5) {
  next_action = 2500000;
}

abbrev two_waiting : TrackerManager
two_waiting = record fresh { trackers = waiting ∷ record waiting { next_action = 9000000 } ∷ [] }

two_waiting-ManagerOk : ManagerOk two_waiting
unfolding make fresh_tracker
two_waiting-ManagerOk = record { sized = refl; each = (ground arith, (ground arith, tt)) }

until_next_action_two : until_next_action two_waiting 1000000 ≡ 2
unfolding until_next_action make fresh_tracker soonest due
until_next_action_two = refl

until_next_action_bounds_example :
    (until_next_action two_waiting 1000000 * 1000000 < (2500000 - 1000000) + 1000000)
    × ((j : ℕ) × (u : TrackerSession) × (first : ℕ) × (get_elem? two_waiting.trackers j ≡ some u)
        × (due 1000000 u ≡ some first)
        × (first ≤ 1000000 + until_next_action two_waiting 1000000 * 1000000))
unfolding due fresh_tracker
until_next_action_bounds_example =
    until_next_action_bounds two_waiting 1000000 0 waiting 2500000 refl refl

until_next_action_progress_example :
    (i : ℕ) × (t : TrackerSession) × (u : TrackerSession) × (get_elem? two_waiting.trackers i
      ≡ some t)
    × (advance two_waiting t stats 2600000 later ≡ ok u)
    × Moves 2600000 t u
unfolding until_next_action soonest due fresh_tracker make
until_next_action_progress_example =
    until_next_action_progress two_waiting 2600000 stats later two_waiting-ManagerOk refl
      (omega arith)

parse_tracker_url_iff_example :
    (parse_tracker_url (codes "udp://t.example:6969/announce")
      ≡ ok (record { host = codes "t.example"; port = codes "6969" }))
    ↔ Spells (codes "udp://t.example:6969/announce") (codes "t.example") (codes "6969")
parse_tracker_url_iff_example =
    parse_tracker_url_iff (codes "udp://t.example:6969/announce") (codes "t.example") (codes "6969")

-- Two addresses, of which one has no port.
abbrev endpoints : List Endpoint
endpoints =
    record { a = 10; b = 0; c = 0; d = 1; port = 6881 }
    ∷ record { a = 10; b = 0; c = 0; d = 2; port = 0 }
    ∷ []

parse_announce_reply-reply_packet_example :
    parse_announce_reply (reply_packet 7 1800 3 2 endpoints (1 ∷ 2 ∷ [])) 7 ≡ record {
      kind = ok_reply;
      interval = 1800;
      leechers = 3;
      seeders = 2;
      peers = named endpoints;
      error = [];
    }
parse_announce_reply-reply_packet_example =
    parse_announce_reply-reply_packet 7 1800 3 2 endpoints (1 ∷ 2 ∷ []) (omega arith) (omega arith)
      (omega arith) (omega arith) (omega arith, (omega arith, tt)) (omega arith)

build_announce_request-Announces_example :
    (packet : Bytes) × (build_announce_request waiting event_started our_id
        (replicate 20 66)
        6881
        stats
      ≡ ok packet)
    × Announces packet waiting event_started our_id (replicate 20 66) 6881 stats
unfolding fresh_tracker
build_announce_request-Announces_example =
    build_announce_request-Announces waiting event_started our_id (replicate 20 66) 6881 stats refl
      refl
      (record {
        connection = omega arith;
        transaction = omega arith;
        key = omega arith;
        port = omega arith;
        downloaded = omega arith;
        left = omega arith;
        uploaded = omega arith;
      })
