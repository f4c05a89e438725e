-- ===== src/Tracker/Manager.antt =====
-- The operations of the tracker manager over all its trackers, src/runtime/managers/tracker_manager.cpp.
use torrent_peer.Prelude.{
  ℕ, ◌+◌, ◌-◌, ◌*◌, ◌/◌, Bool, true, false, not, ◌&&◌, List, [], ◌∷◌, ◌++◌, Option, none, some, leb,
  ◌==◌, if◌then◌else◌, length, min, Result, ok, err, ◌>>=◌,
}
use torrent_peer.Torrent.{Bytes, TorrentFile}
use torrent_peer.Types.{Peer}
use torrent_peer.Tracker.{
  event_none, reported_nothing, reported_started, reported_completed, disconnected, resolving,
  connecting, connected, announcing, idle, stopped, TrackerAddress, TrackerSession, AnnounceParams,
  TrackerManager, parse_tracker_url,
}
use torrent_peer.Tracker.Machine.{Answers, advance, receive, is_idle, is_stopped, is_started}

-- The two passes of `tick` over all trackers.
unfoldable pub receive_all : List TrackerSession → List Answers → List TrackerSession × List Peer
receive_all [] as_ = ([], [])
receive_all (t ∷ ts) [] = (t ∷ ts, [])
receive_all (t ∷ ts) (a ∷ as_) =
    let (t1, peers) = receive t a in
    let (ts1, more) = receive_all ts as_ in (t1 ∷ ts1, peers ++ more)

unfoldable pub advance_all :
    TrackerManager
    → AnnounceParams
    → ℕ
    → List TrackerSession
    → List Answers
    → Result (List TrackerSession)
advance_all m stats now [] as_ = ok []
advance_all m stats now (t ∷ ts) [] = ok (t ∷ ts)
advance_all m stats now (t ∷ ts) (a ∷ as_) = do
  t1 ← advance m t stats now a
  ts1 ← advance_all m stats now ts as_
  ok (t1 ∷ ts1)

-- The answers stand for the descriptors that poll was given, one for each tracker.
unfoldable pub tick :
    TrackerManager → List Answers → AnnounceParams → ℕ → Result (List Peer × TrackerManager)
tick m as_ stats now = if not (length as_ == length m.trackers) then ok ([], m) else (do
  let (received, fresh) = receive_all m.trackers as_
  advanced ← advance_all m stats now received as_
  ok (fresh, record m { trackers = advanced }))

unfoldable pub announce_now : ℕ → TrackerSession → TrackerSession
announce_now now t =
    if is_idle t.state && is_started t.reported then record t { next_action = now } else t

unfoldable pub announce_all : ℕ → List TrackerSession → List TrackerSession
announce_all now [] = []
announce_all now (t ∷ ts) = announce_now now t ∷ announce_all now ts

unfoldable pub on_download_complete : TrackerManager → ℕ → TrackerManager
on_download_complete m now = record m {
  download_complete = true;
  trackers = announce_all now m.trackers;
}

-- A tracker that knows of us is to be told.
unfoldable pub withdraw : ℕ → TrackerSession → TrackerSession
withdraw now t = elim t.state [
  | disconnected ↦ record t { next_action = now }
  | idle ↦ record t { state = connected; next_action = now }
  | announcing ↦ record t { state = connected; next_action = now }
  | resolving ↦ t
  | connecting ↦ t
  | connected ↦ t
  | stopped ↦ t
]

-- One round of the loop of `begin_shutdown`.
unfoldable pub shut_down : ℕ → TrackerSession → TrackerSession
shut_down now t = elim t.reported [
  | reported_nothing ↦ record t { state = stopped; sock = false }
  | reported_started ↦ withdraw now t
  | reported_completed ↦ withdraw now t
]

unfoldable pub shut_down_all : ℕ → List TrackerSession → List TrackerSession
shut_down_all now [] = []
shut_down_all now (t ∷ ts) = shut_down now t ∷ shut_down_all now ts

unfoldable pub begin_shutdown : TrackerManager → ℕ → TrackerManager
begin_shutdown m now = record m { stopping = true; trackers = shut_down_all now m.trackers }

unfoldable pub all_stopped : List TrackerSession → Bool
all_stopped [] = true
all_stopped (t ∷ ts) = is_stopped t.state && all_stopped ts

unfoldable pub shutdown_done : TrackerManager → Bool
shutdown_done m = all_stopped m.trackers

-- A new `TrackerSession`.
unfoldable pub fresh_tracker : TrackerAddress → ℕ → TrackerSession
fresh_tracker address key = record {
  address = address;
  state = disconnected;
  sock = false;
  connection_id = 0;
  transaction_id = 0;
  key = key;
  connected_at = 0;
  next_action = 0;
  retries = 0;
  in_flight = event_none;
  reported = reported_nothing;
  interval = 0;
  seeders = 0;
  leechers = 0;
}

-- A URL that cannot be read is skipped.
unfoldable pub with_tracker : ℕ → Result TrackerAddress → List TrackerSession → List TrackerSession
with_tracker key (ok address) ts = fresh_tracker address key ∷ ts
with_tracker key (err e) ts = ts

unfoldable pub load_tier : ℕ → List Bytes → List TrackerSession → List TrackerSession
load_tier key [] ts = ts
load_tier key (url ∷ urls) ts = with_tracker key (parse_tracker_url url) (load_tier key urls ts)

unfoldable pub load_tiers : ℕ → List (List Bytes) → List TrackerSession
load_tiers key [] = []
load_tiers key (tier ∷ tiers) = load_tier key tier (load_tiers key tiers)

-- The constructor; `key` is its first random number.
unfoldable pub make : TorrentFile → Bytes → ℕ → ℕ → TrackerManager
make torrent peer_id listen_port key = record {
  trackers = load_tiers key torrent.announce_list;
  peer_id = peer_id;
  info_hash = torrent.info_hash;
  listen_port = listen_port;
  download_complete = false;
  stopping = false;
  key = key;
}

-- kResolvingDeadline, in nanoseconds, and an hour in milliseconds.
abbrev pub resolving_deadline : ℕ
resolving_deadline = 50 * 1000000

abbrev pub hour : ℕ
hour = 3600 * 1000

-- When a tracker is next to be looked at, if it is at all.
unfoldable pub due : ℕ → TrackerSession → Option ℕ
due now t = elim t.state [
  | stopped ↦ none
  | resolving ↦ some (now + resolving_deadline)
  | disconnected ↦ some t.next_action
  | connecting ↦ some t.next_action
  | connected ↦ some t.next_action
  | announcing ↦ some t.next_action
  | idle ↦ some t.next_action
]

abbrev pub earlier : Option ℕ → Option ℕ → Option ℕ
earlier none b = b
earlier (some x) none = some x
earlier (some x) (some y) = some (min x y)

-- `soonest`; none stands for `time_point::max()`.
unfoldable pub soonest : ℕ → List TrackerSession → Option ℕ
soonest now [] = none
soonest now (t ∷ ts) = earlier (due now t) (soonest now ts)

-- In milliseconds, rounded up.
unfoldable pub until_next_action : TrackerManager → ℕ → ℕ
until_next_action m now = elim (soonest now m.trackers) [
  | none ↦ hour
  | some when ↦ if leb when now then 0 else (when - now + 999999) / 1000000
]
