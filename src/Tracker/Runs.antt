-- ===== src/Tracker/Runs.antt =====
-- The manager over any sequence of its operations.
use torrent_peer.Prelude.{
  ℕ, ◌≡◌, refl, ap, ◌∙◌, Bool, true, false, ◌&&◌, List, [], ◌∷◌, ◌==◌, if◌then◌else◌, length,
  Result, ok, err, ◌>>=◌, arith, All, inl, inr, Bool-cases,
}
use torrent_peer.Torrent.{Bytes, TorrentFile}
use torrent_peer.Types.{Peer}
use torrent_peer.Tracker.{
  TrackerEvent, event_none, event_completed, event_started, event_stopped, Reported, TrackerAddress,
  TrackerSession, AnnounceParams, TrackerManager, parse_tracker_url,
}
use torrent_peer.Tracker.Machine.{Answers, is_idle, is_started}
use torrent_peer.Tracker.Manager.{
  receive_all, advance_all, tick, announce_now, announce_all, on_download_complete, withdraw,
  shut_down, shut_down_all, begin_shutdown, with_tracker, fresh_tracker, load_tier, load_tiers,
  make,
}
use torrent_peer.Tracker.Invariant.{TrackerOk, Fits, receive-TrackerOk, advance_total}

-- The trackers are well formed, and the peer id has its length.
pub record ManagerOk (m : TrackerManager) : Type 0 where
  pub sized : length m.peer_id ≡ 20
  pub each : All (TrackerOk m.stopping m.download_complete) m.trackers

receive_all-TrackerOk :
    (s c : Bool) (ts : List TrackerSession) (as_ : List Answers)
    → All (TrackerOk s c) ts
    → All (TrackerOk s c) (receive_all ts as_).0
unfolding receive_all
receive_all-TrackerOk s c [] as_ h = tt
receive_all-TrackerOk s c (t ∷ ts) [] h = h
receive_all-TrackerOk s c (t ∷ ts) (a ∷ as_) h =
    (receive-TrackerOk s c t h.0 a, receive_all-TrackerOk s c ts as_ h.1)

advance_all_total :
    (m : TrackerManager) (stats : AnnounceParams) (now : ℕ) (ts : List TrackerSession)
    (as_ : List Answers)
    → length m.peer_id ≡ 20
    → All (TrackerOk m.stopping m.download_complete) ts
    → (us : List TrackerSession) × (advance_all m stats now ts as_ ≡ ok us)
      × All (TrackerOk m.stopping m.download_complete) us
unfolding advance_all
advance_all_total m stats now [] as_ sized h = ([], refl, tt)
advance_all_total m stats now (t ∷ ts) [] sized h = (t ∷ ts, refl, h)
advance_all_total m stats now (t ∷ ts) (a ∷ as_) sized h =
    let (t1, e, v) = advance_total m t h.0 stats now a sized in
    let (us, e1, vs) = advance_all_total m stats now ts as_ sized h.1 in
    (t1 ∷ us, ground (arith, e, e1), (v, vs))

-- `tick` does not throw.
tick_total :
    (m : TrackerManager) (as_ : List Answers) (stats : AnnounceParams) (now : ℕ)
    → ManagerOk m
    → (peers : List Peer) × (m1 : TrackerManager) × (tick m as_ stats now ≡ ok (peers, m1))
      × ManagerOk m1
unfolding tick
tick_total m as_ stats now v = elim (Bool-cases (length as_ == length m.trackers)) [
  | inr e ↦ ([], m, ground (arith, e), v)
  | inl e ↦
      let (us, advanced, good) =
        advance_all_total m stats now (receive_all m.trackers as_).0 as_ v.sized
          (receive_all-TrackerOk m.stopping m.download_complete m.trackers as_ v.each) in
      (
        (receive_all m.trackers as_).1,
        record m { trackers = us },
        ground (arith, e, advanced),
        record { sized = v.sized; each = good },
      )
]

announce_all-TrackerOk :
    (s c : Bool) (now : ℕ) (ts : List TrackerSession)
    → All (TrackerOk s c) ts
    → All (TrackerOk s true) (announce_all now ts)
unfolding announce_all announce_now
announce_all-TrackerOk s c now [] h = tt
announce_all-TrackerOk s c now (t ∷ ts) h = (announced t h.0, announce_all-TrackerOk s c now ts h.1)
  where
    completes : (e : TrackerEvent) (r : Reported) → Fits c e r → Fits true e r
    completes event_none r f = f
    completes event_completed r f = (f.0, refl)
    completes event_started r f = f
    completes event_stopped r f = f

    announced :
        (t : TrackerSession)
        → TrackerOk s c t
        → TrackerOk s true
            (if is_idle t.state && is_started t.reported then record t { next_action = now } else t)
    announced t v = ground (arith, v, completes t.in_flight t.reported)

shut_down_all-TrackerOk :
    (s c : Bool) (now : ℕ) (ts : List TrackerSession)
    → All (TrackerOk s c) ts
    → All (TrackerOk true c) (shut_down_all now ts)
unfolding shut_down_all shut_down withdraw
shut_down_all-TrackerOk s c now [] h = tt
shut_down_all-TrackerOk s c now (t ∷ ts) h = (shut t h.0, shut_down_all-TrackerOk s c now ts h.1)
  where
    shut : (t : TrackerSession) → TrackerOk s c t → TrackerOk true c (shut_down now t)
    shut t v = ground (arith, v)

load_tier-TrackerOk :
    (key : ℕ) (urls : List Bytes) (ts : List TrackerSession)
    → All (TrackerOk false false) ts
    → All (TrackerOk false false) (load_tier key urls ts)
unfolding load_tier with_tracker fresh_tracker
load_tier-TrackerOk key [] ts h = h
load_tier-TrackerOk key (url ∷ urls) ts h =
    added (load_tier key urls ts) (parse_tracker_url url) (load_tier-TrackerOk key urls ts h)
  where
    added :
        (us : List TrackerSession) (r : Result TrackerAddress)
        → All (TrackerOk false false) us
        → All (TrackerOk false false) (with_tracker key r us)
    added us (ok address) h = (ground arith, h)
    added us (err e) h = h

pub load_tiers-TrackerOk :
    (key : ℕ) (tiers : List (List Bytes)) → All (TrackerOk false false) (load_tiers key tiers)
unfolding load_tiers
load_tiers-TrackerOk key [] = tt
load_tiers-TrackerOk key (tier ∷ tiers) =
    load_tier-TrackerOk key tier (load_tiers key tiers) (load_tiers-TrackerOk key tiers)

-- What the session asks of the manager, with the answers of the system.
pub data Operation : Type 0 where
  ticks : List Answers → AnnounceParams → ℕ → Operation
  completes shuts_down : ℕ → Operation

abbrev pub perform : TrackerManager → Operation → Result TrackerManager
perform m (ticks as_ stats now) =
    tick m as_ stats now >>= λ (out : List Peer × TrackerManager). ok (out.1)
perform m (completes now) = ok (on_download_complete m now)
perform m (shuts_down now) = ok (begin_shutdown m now)

unfoldable pub run : TrackerManager → List Operation → Result TrackerManager
run m [] = ok m
run m (op ∷ ops) = perform m op >>= λ m1. run m1 ops

pub perform_total :
    (m : TrackerManager) (op : Operation)
    → ManagerOk m
    → (m1 : TrackerManager) × (perform m op ≡ ok m1) × ManagerOk m1
unfolding on_download_complete begin_shutdown
perform_total m (ticks as_ stats now) v =
    let (peers, m1, e, v1) = tick_total m as_ stats now v in
    (m1, ap (λ r. r >>= λ (out : List Peer × TrackerManager). ok (out.1)) e, v1)
perform_total m (completes now) v = (
  on_download_complete m now,
  refl,
  record {
    sized = v.sized;
    each = announce_all-TrackerOk m.stopping m.download_complete now m.trackers v.each;
  },
)
perform_total m (shuts_down now) v = (
  begin_shutdown m now,
  refl,
  record {
    sized = v.sized;
    each = shut_down_all-TrackerOk m.stopping m.download_complete now m.trackers v.each;
  },
)

run_total :
    (ops : List Operation) (m : TrackerManager)
    → ManagerOk m
    → (m1 : TrackerManager) × (run m ops ≡ ok m1) × ManagerOk m1
unfolding run
run_total [] m v = (m, refl, v)
run_total (op ∷ ops) m v =
    let (m1, e, v1) = perform_total m op v in
    let (m2, e2, v2) = run_total ops m1 v1 in (m2, ap (λ r. r >>= λ x. run x ops) e ∙ e2, v2)

-- With a peer id of 20 bytes, any run of ticks, completions and shutdowns on a new tracker
-- manager throws nothing and ends well formed: retries are at most 8, a state that uses a socket
-- has one, a stopped tracker has none, the event in flight fits what the tracker knows, and
-- intervals are from 300 to 86400 seconds.
pub run-ManagerOk :
    (torrent : TorrentFile) (peer_id : Bytes) (listen_port key : ℕ) (ops : List Operation)
    → length peer_id ≡ 20
    → (m : TrackerManager) × (run (make torrent peer_id listen_port key) ops ≡ ok m) × ManagerOk m
unfolding make
run-ManagerOk torrent peer_id listen_port key ops sized =
    run_total ops (make torrent peer_id listen_port key)
      (record { sized = sized; each = load_tiers-TrackerOk key torrent.announce_list })
