-- ===== src/Tracker/Invariant.antt =====
-- What holds of a tracker between two operations of the manager.
use torrent_peer.Prelude.{
  ℕ, ◌-◌, ◌*◌, ◌≤◌, ◌≡◌, ◌≢◌, refl, ap, Bool, true, false, List, [], ◌∷◌, leb, if◌then◌else◌,
  length, take, Result, ok, ◌>>=◌, arith, ◌↔◌, ◌⊎◌, inl, inr, Bool-cases, Result-cases,
}
use torrent_peer.Torrent.{Bytes}
use torrent_peer.Types.{Peer}
use torrent_peer.Tracker.{
  TrackerEvent, event_none, event_completed, event_started, event_stopped, Reported,
  reported_nothing, reported_started, reported_completed, TrackerState, disconnected, resolving,
  connecting, connected, announcing, idle, stopped, TrackerSession, AnnounceParams, TrackerManager,
  build_announce_request, ReplyKind, ignore, ok_reply, error_reply, AnnounceReply,
  parse_announce_reply,
}
use torrent_peer.Tracker.Machine.{
  Recv, datagram, would_block, interrupted, broken, Answers, fail_backoff, fail_send, send_connect,
  take_connection, recv_connect, pending_event, send_announce, clamped, acknowledged, accept_reply,
  recv_announce, first_recv, unless_failed, after_send, announce, advance_in, receive_in, settle,
  on_reply, second, on_timeout, finish_lookup, advance, receive,
}

-- The states in which the tracker's socket is in use.
abbrev pub uses_socket : TrackerState → Bool
uses_socket disconnected = false
uses_socket resolving = false
uses_socket connecting = true
uses_socket connected = true
uses_socket announcing = true
uses_socket idle = true
uses_socket stopped = false

-- The event in flight fits what the tracker knows of us.
abbrev pub Fits : Bool → TrackerEvent → Reported → Type 0
Fits complete event_none r = r ≢ reported_nothing
Fits complete event_completed r = (r ≡ reported_started) × (complete ≡ true)
Fits complete event_started r = r ≡ reported_nothing
Fits complete event_stopped r = r ≢ reported_nothing

pub record TrackerOk (stopping complete : Bool) (t : TrackerSession) : Type 0 where
  pub retries_capped : t.retries ≤ 8
  pub in_use : uses_socket t.state ≡ true → t.sock ≡ true
  pub unresolved : t.state ≡ resolving → t.sock ≡ false
  pub closed : t.state ≡ stopped → (t.sock ≡ false) × (stopping ≡ true)
  pub leaving : t.in_flight ≡ event_stopped → stopping ≡ true
  pub last_word : stopping ≡ true → t.state ≡ announcing → t.in_flight ≡ event_stopped
  pub unknown : stopping ≡ true → t.reported ≡ reported_nothing → t.state ≡ stopped
  pub fits : t.state ≡ announcing → Fits complete t.in_flight t.reported
  pub finished : t.reported ≡ reported_completed → complete ≡ true
  pub polite : t.state ≡ idle → (300 ≤ t.interval) × (t.interval ≤ 86400)

module _ (s c : Bool) (t : TrackerSession) (v : TrackerOk s c t) where
  fail_backoff-TrackerOk : (clock : ℕ) → t.state ≢ stopped → TrackerOk s c (fail_backoff t clock)
  unfolding fail_backoff
  fail_backoff-TrackerOk clock h = ground (arith, v, h)

  on_timeout-TrackerOk : (now : ℕ) → t.state ≢ stopped → TrackerOk s c (on_timeout t now)
  unfolding on_timeout
  on_timeout-TrackerOk now h = ground (arith, v, h)

  send_connect-TrackerOk :
      (a : Answers)
      → (t.state ≡ disconnected) ⊎ (t.state ≡ resolving)
      → TrackerOk s c (send_connect t a)
  unfolding send_connect fail_send fail_backoff
  send_connect-TrackerOk a h = ground (arith, v, h)

  take_connection-TrackerOk :
      (buf : Bytes) (clock : ℕ) → t.state ≡ connecting → TrackerOk s c (take_connection t buf clock)
  unfolding take_connection
  take_connection-TrackerOk buf clock h = ground (arith, v, h)

  recv_connect-TrackerOk :
      (r : Recv) (clock fail_clock : ℕ)
      → t.state ≡ connecting
      → TrackerOk s c (unless_failed fail_clock (recv_connect t r clock))
  unfolding recv_connect
  recv_connect-TrackerOk (datagram buf) clock fail_clock h =
      take_connection-TrackerOk (take 16 buf) clock h
  recv_connect-TrackerOk would_block clock fail_clock h = v
  recv_connect-TrackerOk interrupted clock fail_clock h = v
  recv_connect-TrackerOk broken clock fail_clock h = fail_backoff-TrackerOk fail_clock (λ e. cc)

  clamped_bounds : (n : ℕ) → (300 ≤ clamped n) × (clamped n ≤ 86400)
  unfolding clamped
  clamped_bounds n = ground arith

  accept_reply-TrackerOk :
      (r : AnnounceReply) (clock : ℕ)
      → t.state ≡ announcing
      → TrackerOk s c (accept_reply t r clock).0
  unfolding accept_reply acknowledged
  accept_reply-TrackerOk r clock h = ground (arith, v, h, clamped_bounds r.interval)

  on_reply-TrackerOk :
      (k : ReplyKind) (r : AnnounceReply) (clock fail_clock : ℕ)
      (rest : Bool × TrackerSession × List Peer)
      → t.state ≡ announcing
      → TrackerOk s c (settle fail_clock rest).0
      → TrackerOk s c (settle fail_clock (on_reply t k r clock rest)).0
  on_reply-TrackerOk ignore r clock fail_clock rest h ok_rest = ok_rest
  on_reply-TrackerOk error_reply r clock fail_clock rest h ok_rest =
      fail_backoff-TrackerOk fail_clock (λ e. cc)
  on_reply-TrackerOk ok_reply r clock fail_clock rest h ok_rest = accept_reply-TrackerOk r clock h

  recv_announce-TrackerOk :
      (rs : List Recv) (clock fail_clock : ℕ)
      → t.state ≡ announcing
      → TrackerOk s c (settle fail_clock (recv_announce t rs clock)).0
  unfolding recv_announce
  recv_announce-TrackerOk [] clock fail_clock h = v
  recv_announce-TrackerOk (interrupted ∷ rs) clock fail_clock h =
      recv_announce-TrackerOk rs clock fail_clock h
  recv_announce-TrackerOk (would_block ∷ rs) clock fail_clock h = v
  recv_announce-TrackerOk (broken ∷ rs) clock fail_clock h =
      fail_backoff-TrackerOk fail_clock (λ e. cc)
  recv_announce-TrackerOk (datagram buf ∷ rs) clock fail_clock h =
      let r = parse_announce_reply (take 65536 buf) t.transaction_id in
      on_reply-TrackerOk r.kind r clock fail_clock _ h
        (recv_announce-TrackerOk rs clock fail_clock h)

  receive_in-TrackerOk :
      (x : TrackerState) (a : Answers) → t.state ≡ x → TrackerOk s c (receive_in x t a).0
  unfolding receive_in
  receive_in-TrackerOk connecting a h =
      recv_connect-TrackerOk (first_recv a.received) a.recv_clock a.fail_clock h
  receive_in-TrackerOk announcing a h =
      recv_announce-TrackerOk a.received a.recv_clock a.fail_clock h
  receive_in-TrackerOk disconnected a h = v
  receive_in-TrackerOk resolving a h = v
  receive_in-TrackerOk connected a h = v
  receive_in-TrackerOk idle a h = v
  receive_in-TrackerOk stopped a h = v

  pub receive-TrackerOk : (a : Answers) → TrackerOk s c (receive t a).0
  unfolding receive
  receive-TrackerOk a = elim (Bool-cases a.ready) [
    | inl e ↦ simp e (receive_in-TrackerOk t.state a refl)
    | inr e ↦ simp e v
  ]

  finish_lookup-TrackerOk : (a : Answers) → t.state ≡ resolving → TrackerOk s c (finish_lookup t a)
  unfolding finish_lookup send_connect fail_send fail_backoff
  finish_lookup-TrackerOk a h = ground (arith, v, h)

-- A packet is built whenever the peer id has its length.
pub packet_built :
    (t : TrackerSession) (e : TrackerEvent) (peer_id info_hash : Bytes) (port : ℕ)
    (p : AnnounceParams)
    → length peer_id ≡ 20
    → (packet : Bytes) × (build_announce_request t e peer_id info_hash port p ≡ ok packet)
unfolding build_announce_request
packet_built t e peer_id info_hash port p h =
    elim (Result-cases (build_announce_request t e peer_id info_hash port p)) [
      | inl (packet, built) ↦ (packet, built)
      | inr (x, failed_) ↦ absurd (ground (arith, h, failed_))
    ]

-- One of two well-formed trackers.
kept :
    {s c : Bool} (b : Bool) {t u : TrackerSession}
    → TrackerOk s c t
    → TrackerOk s c u
    → TrackerOk s c (if b then t else u)
kept true v w = v
kept false v w = w

pending_event-Fits :
    (m : TrackerManager) (t : TrackerSession)
    → TrackerOk m.stopping m.download_complete t
    → t.state ≡ connected
    → Fits m.download_complete (pending_event m t) t.reported
unfolding pending_event
pending_event-Fits m t v h = ground (arith, v, h)

pending_event_stops :
    (m : TrackerManager) (t : TrackerSession)
    → (pending_event m t ≡ event_stopped) ↔ (m.stopping ≡ true)
unfolding pending_event
pending_event_stops m t = (λ h. ground (arith, h), λ h. ground (arith, h))

module _ (m : TrackerManager) (t : TrackerSession)
    (v : TrackerOk m.stopping m.download_complete t) where
  after_send-TrackerOk :
      (a : Answers) (packet : Bytes)
      → t.state ≡ connected
      → TrackerOk m.stopping m.download_complete
          (after_send (record t { transaction_id = a.txn; in_flight = pending_event m t }) a packet)
  unfolding fail_send fail_backoff
  after_send-TrackerOk a packet h = ground (
    arith,
    v,
    h,
    pending_event-Fits m t v h,
    (pending_event_stops m t).0,
    (pending_event_stops m t).1,
  )

  -- The tracker that an operation gives, which is well formed.
  Keeps : Result TrackerSession → Type 0
  Keeps r = (t1 : TrackerSession) × (r ≡ ok t1) × TrackerOk m.stopping m.download_complete t1

  announce_total :
      (stats : AnnounceParams) (a : Answers)
      → length m.peer_id ≡ 20
      → t.state ≡ connected
      → Keeps (announce m t stats a)
  unfolding announce Keeps
  announce_total stats a sized h =
      let t1 = record t { transaction_id = a.txn; in_flight = pending_event m t } in
      let (packet, built) =
        packet_built t1 (pending_event m t) m.peer_id m.info_hash m.listen_port stats sized in
      (
        after_send t1 a packet,
        ap (λ r. r >>= λ p. ok (after_send t1 a p)) built,
        after_send-TrackerOk a packet h,
      )

  send_announce_total :
      (stats : AnnounceParams) (a : Answers)
      → length m.peer_id ≡ 20
      → t.state ≡ connected
      → Keeps (send_announce m t stats a)
  unfolding send_announce Keeps
  send_announce_total stats a sized h =
      elim (Bool-cases (leb (60 * second) (a.send_clock - t.connected_at))) [
        | inl e ↦ (
          record t { state = disconnected; next_action = a.send_clock },
          ground (arith, e),
          ground (arith, v, h),
        )
        | inr e ↦
            let (t1, made, good) = announce_total stats a sized h in
            (t1, ground (arith, e, made), good)
      ]

  advance_in_total :
      (x : TrackerState) (stats : AnnounceParams) (now : ℕ) (a : Answers)
      → length m.peer_id ≡ 20
      → t.state ≡ x
      → Keeps (advance_in x m t stats now a)
  unfolding advance_in Keeps
  advance_in_total disconnected stats now a sized h =
      (_, refl, kept (leb t.next_action now) (send_connect-TrackerOk _ _ t v a (inl h)) v)
  advance_in_total resolving stats now a sized h = (_, refl, finish_lookup-TrackerOk _ _ t v a h)
  advance_in_total connecting stats now a sized h =
      (_, refl, kept (leb t.next_action now) (on_timeout-TrackerOk _ _ t v now (λ e. cc)) v)
  advance_in_total announcing stats now a sized h =
      (_, refl, kept (leb t.next_action now) (on_timeout-TrackerOk _ _ t v now (λ e. cc)) v)
  advance_in_total connected stats now a sized h = send_announce_total stats a sized h
  advance_in_total idle stats now a sized h =
      (_, refl, kept (leb t.next_action now) (ground (arith, v, h)) v)
  advance_in_total stopped stats now a sized h = (t, refl, v)

  pub advance_total :
      (stats : AnnounceParams) (now : ℕ) (a : Answers)
      → length m.peer_id ≡ 20
      → (t1 : TrackerSession) × (advance m t stats now a ≡ ok t1)
        × TrackerOk m.stopping m.download_complete t1
  unfolding advance Keeps
  advance_total stats now a sized = advance_in_total t.state stats now a sized refl
