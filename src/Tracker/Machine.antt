-- ===== src/Tracker/Machine.antt =====
-- The tracker manager of src/runtime/managers/tracker_manager.cpp as a state machine. What the
-- system answers is an argument: the results of `recv` and `send`, of the lookup, the clock's
-- readings (in nanoseconds) and the random transaction numbers.
use torrent_peer.Prelude.{
  ℕ, ◌+◌, ◌-◌, ◌*◌, ◌^◌, Bool, true, false, not, ◌||◌, List, [], ◌∷◌, ltb, leb, ◌==◌, if◌then◌else◌,
  length, take, min, Result, ok, ◌>>=◌,
}
use torrent_peer.Torrent.{Bytes}
use torrent_peer.Types.{Peer}
use torrent_peer.Wire.{ntohl_at}
use torrent_peer.Tracker.{
  TrackerEvent, event_none, event_completed, event_started, event_stopped, Reported,
  reported_nothing, reported_started, reported_completed, TrackerState, disconnected, resolving,
  connecting, connected, announcing, idle, stopped, TrackerSession, AnnounceParams, TrackerManager,
  be64toh_at, build_connect_request, build_announce_request, ReplyKind, ignore, ok_reply,
  error_reply, AnnounceReply, parse_announce_reply,
}

abbrev pub second : ℕ
second = 1000000000

-- What `recv` gives; without a datagram, by `errno`.
pub data Recv : Type 0 where
  datagram : Bytes → Recv
  would_block interrupted broken : Recv

-- What the lookup of a host has come to: nothing yet, an address that a socket was opened to, or an
-- exception of the lookup or of `open_socket`.
pub data Lookup : Type 0 where
  pending opened failed : Lookup

-- The answers of the system to one tracker in one tick: whether poll has an event for its socket, the
-- results of its calls of `recv` in order (after them there is nothing to read), the clock when a
-- datagram is dealt with, the state of the lookup, the next transaction number, whether a packet is
-- sent, and the clock at the send and at a failure.
pub record Answers : Type 0 where
  pub ready : Bool
  pub received : List Recv
  pub recv_clock : ℕ
  pub lookup : Lookup
  pub txn : ℕ
  pub sends : Bytes → Bool
  pub send_clock : ℕ
  pub fail_clock : ℕ

-- `15 << t.retries`, in seconds.
unfoldable pub response_timeout : TrackerSession → ℕ
response_timeout t = 15 * 2 ^ t.retries * second

unfoldable pub fail_backoff : TrackerSession → ℕ → TrackerSession
fail_backoff t clock =
    let t1 = record t { state = disconnected; retries = min (t.retries + 1) 8 } in
    record t1 { next_action = clock + response_timeout t1 }

unfoldable pub fail_send : TrackerSession → ℕ → TrackerSession
fail_send t clock = fail_backoff (record t { sock = false }) clock

unfoldable pub send_connect : TrackerSession → Answers → TrackerSession
send_connect t a =
    if not t.sock
    then record t { state = resolving }
    else let t1 = record t { transaction_id = a.txn } in
      if a.sends (build_connect_request a.txn)
      then record t1 {
        state = connecting;
        connected_at = a.send_clock;
        next_action = a.send_clock + response_timeout t1;
      }
      else fail_send t1 a.fail_clock

-- What a datagram of at least 16 bytes does in `recv_connect`.
unfoldable pub take_connection : TrackerSession → Bytes → ℕ → TrackerSession
take_connection t buf clock =
    if ltb (length buf) 16
    then t
    else if not (ntohl_at buf 0 == 0) || not (ntohl_at buf 4 == t.transaction_id)
    then t
    else record t {
      connection_id = be64toh_at buf 8;
      connected_at = clock;
      retries = 0;
      state = connected;
    }

-- The buffer has 16 bytes. The Boolean is what the function returns.
unfoldable pub recv_connect : TrackerSession → Recv → ℕ → Bool × TrackerSession
recv_connect t (datagram buf) clock = (true, take_connection t (take 16 buf) clock)
recv_connect t would_block clock = (true, t)
recv_connect t interrupted clock = (true, t)
recv_connect t broken clock = (false, t)

unfoldable pub pending_event : TrackerManager → TrackerSession → TrackerEvent
pending_event m t = if m.stopping then event_stopped else elim t.reported [
  | reported_nothing ↦ event_started
  | reported_started ↦ if m.download_complete then event_completed else event_none
  | reported_completed ↦ event_none
]

-- The tracker behind the send of its announce.
abbrev pub after_send : TrackerSession → Answers → Bytes → TrackerSession
after_send t a packet =
    if a.sends packet
    then record t { state = announcing; next_action = a.send_clock + response_timeout t }
    else fail_send t a.fail_clock

-- `send_announce` with a connection id that is valid still.
unfoldable pub announce :
    TrackerManager → TrackerSession → AnnounceParams → Answers → Result TrackerSession
announce m t stats a = do
  let event = pending_event m t
  let t1 = record t { transaction_id = a.txn; in_flight = event }
  packet ← build_announce_request t1 event m.peer_id m.info_hash m.listen_port stats
  ok (after_send t1 a packet)

unfoldable pub send_announce :
    TrackerManager → TrackerSession → AnnounceParams → Answers → Result TrackerSession
send_announce m t stats a =
    if leb (60 * second) (a.send_clock - t.connected_at)
    then ok (record t { state = disconnected; next_action = a.send_clock })
    else announce m t stats a

-- `std::clamp(r.interval == 0 ? 1800u : r.interval, 300u, 86400u)`
unfoldable pub clamped : ℕ → ℕ
clamped n =
    let interval = if n == 0 then 1800 else n in
    if ltb interval 300 then 300 else if ltb 86400 interval then 86400 else interval

-- What the event in flight is worth once it is answered.
unfoldable pub acknowledged : TrackerEvent → Reported → Reported
acknowledged event_none r = r
acknowledged event_completed r = reported_completed
acknowledged event_started r = reported_started
acknowledged event_stopped r = r

abbrev pub is_stop : TrackerEvent → Bool
is_stop event_none = false
is_stop event_completed = false
is_stop event_started = false
is_stop event_stopped = true

-- An announce that the tracker answered.
unfoldable pub accept_reply : TrackerSession → AnnounceReply → ℕ → TrackerSession × List Peer
accept_reply t r clock =
    if is_stop t.in_flight
    then (record t { state = stopped; sock = false }, [])
    else let seconds = clamped r.interval in
      (
        record t {
          reported = acknowledged t.in_flight t.reported;
          interval = seconds;
          seeders = r.seeders;
          leechers = r.leechers;
          retries = 0;
          state = idle;
          next_action = clock + seconds * second;
        },
        r.peers,
      )

-- A parsed reply: one that is ignored goes on with the `rest` of the loop.
abbrev pub on_reply :
    TrackerSession
    → ReplyKind
    → AnnounceReply
    → ℕ
    → Bool × TrackerSession × List Peer
    → Bool × TrackerSession × List Peer
on_reply t ignore r clock rest = rest
on_reply t error_reply r clock rest = (false, t, [])
on_reply t ok_reply r clock rest = let (t1, peers) = accept_reply t r clock in (true, t1, peers)

-- The loop of `recv_announce` over the results of `recv`; the buffer has 65536 bytes. It gives what
-- the function returns, the tracker and the peers of the reply.
unfoldable pub recv_announce : TrackerSession → List Recv → ℕ → Bool × TrackerSession × List Peer
recv_announce t [] clock = (true, t, [])
recv_announce t (interrupted ∷ rest) clock = recv_announce t rest clock
recv_announce t (would_block ∷ rest) clock = (true, t, [])
recv_announce t (broken ∷ rest) clock = (false, t, [])
recv_announce t (datagram buf ∷ rest) clock =
    let r = parse_announce_reply (take 65536 buf) t.transaction_id in
    on_reply t r.kind r clock (recv_announce t rest clock)

unfoldable pub on_timeout : TrackerSession → ℕ → TrackerSession
on_timeout t now = record t {
  retries = min (t.retries + 1) 8;
  state = disconnected;
  next_action = now;
}

-- The case `Resolving` of `advance`.
unfoldable pub finish_lookup : TrackerSession → Answers → TrackerSession
finish_lookup t a = elim a.lookup [
  | pending ↦ t
  | failed ↦ fail_backoff t a.fail_clock
  | opened ↦ send_connect (record t { sock = true }) a
]

-- The cases of `advance`.
unfoldable pub advance_in :
    TrackerState
    → TrackerManager
    → TrackerSession
    → AnnounceParams
    → ℕ
    → Answers
    → Result TrackerSession
advance_in disconnected m t stats now a = ok (if leb t.next_action now then send_connect t a else t)
advance_in resolving m t stats now a = ok (finish_lookup t a)
advance_in connecting m t stats now a = ok (if leb t.next_action now then on_timeout t now else t)
advance_in announcing m t stats now a = ok (if leb t.next_action now then on_timeout t now else t)
advance_in connected m t stats now a = send_announce m t stats a
advance_in idle m t stats now a =
    ok (if leb t.next_action now then record t { state = disconnected } else t)
advance_in stopped m t stats now a = ok t

unfoldable pub advance :
    TrackerManager → TrackerSession → AnnounceParams → ℕ → Answers → Result TrackerSession
advance m t stats now a = advance_in t.state m t stats now a

-- The first result of `recv`.
abbrev pub first_recv : List Recv → Recv
first_recv [] = would_block
first_recv (r ∷ rs) = r

abbrev pub unless_failed : ℕ → Bool × TrackerSession → TrackerSession
unless_failed clock (true, t) = t
unless_failed clock (false, t) = fail_backoff t clock

abbrev pub settle : ℕ → Bool × TrackerSession × List Peer → TrackerSession × List Peer
settle clock (fine, t, peers) = (unless_failed clock (fine, t), peers)

-- The cases of the first pass of `tick`; `drain` changes nothing that is kept.
unfoldable pub receive_in : TrackerState → TrackerSession → Answers → TrackerSession × List Peer
receive_in connecting t a =
    (unless_failed a.fail_clock (recv_connect t (first_recv a.received) a.recv_clock), [])
receive_in announcing t a = settle a.fail_clock (recv_announce t a.received a.recv_clock)
receive_in disconnected t a = (t, [])
receive_in resolving t a = (t, [])
receive_in connected t a = (t, [])
receive_in idle t a = (t, [])
receive_in stopped t a = (t, [])

-- The first pass of `tick` on one tracker.
unfoldable pub receive : TrackerSession → Answers → TrackerSession × List Peer
receive t a = if a.ready then receive_in t.state t a else (t, [])

abbrev pub is_idle : TrackerState → Bool
is_idle disconnected = false
is_idle resolving = false
is_idle connecting = false
is_idle connected = false
is_idle announcing = false
is_idle idle = true
is_idle stopped = false

abbrev pub is_stopped : TrackerState → Bool
is_stopped disconnected = false
is_stopped resolving = false
is_stopped connecting = false
is_stopped connected = false
is_stopped announcing = false
is_stopped idle = false
is_stopped stopped = true

abbrev pub is_started : Reported → Bool
is_started reported_nothing = false
is_started reported_started = true
is_started reported_completed = false
