-- ===== src/Tracker/Contract.antt =====
-- What the operations on one tracker, in src/runtime/managers/tracker_manager.cpp, do to its view of
-- us: a received answer is one turn of the protocol, and the rest of a tick keeps the view.
use torrent_peer.Prelude.{
  ℕ, ◌≡◌, ◌≢◌, refl, ap, ◌∙◌, subst, Bool, List, [], ◌∷◌, ok, arith, inl, inr, Bool-cases,
  Result-cases, if◌then◌else◌, take, leb, ◌*◌, ◌-◌,
}
use torrent_peer.Types.{Peer}
use torrent_peer.Tracker.{
  AnnounceReply, ReplyKind, ok_reply, ignore, error_reply, parse_announce_reply,
  build_announce_request, TrackerState, disconnected, resolving, connecting, connected, announcing,
  idle, stopped, TrackerSession, AnnounceParams, TrackerManager,
}
use torrent_peer.Tracker.Machine.{
  Recv, datagram, would_block, interrupted, broken, Answers, fail_backoff, take_connection,
  recv_connect, acknowledged, accept_reply, recv_announce, first_recv, unless_failed, receive_in,
  settle, on_reply, receive, advance_in, on_timeout, finish_lookup, send_connect, fail_send,
  send_announce, announce, after_send, is_stop, second, pending_event,
}
use torrent_peer.Tracker.Invariant.{TrackerOk}
use torrent_peer.Tracker.Protocol.{
  gone, known, seen, view, heard, Turn, stays, confirms, Turn-refl, Advances, TrackerOk-IsTold,
  acknowledged_view,
}

-- What a tracker receives.
module _ (s c : Bool) (t : TrackerSession) (v : TrackerOk s c t) where
  -- The trackers that one turn of `t` gives.
  Follows : TrackerSession → Type 0
  Follows u = Turn s c t u

  stays_put : Follows t
  unfolding Follows
  stays_put = Turn-refl s c t

  fail_backoff-Follows : (clock : ℕ) → t.state ≢ stopped → Follows (fail_backoff t clock)
  unfolding fail_backoff Follows
  fail_backoff-Follows clock h = stays (lost t.state h) (λ _ i. cc)
    where
      lost : (x : TrackerState) → x ≢ stopped → seen x t.reported ≡ known t.reported
      lost disconnected n = refl
      lost resolving n = refl
      lost connecting n = refl
      lost connected n = refl
      lost announcing n = refl
      lost idle n = refl
      lost stopped n = absurd (n refl)

  recv_connect-Follows :
      (r : Recv) (clock fail_clock : ℕ)
      → t.state ≡ connecting
      → Follows (unless_failed fail_clock (recv_connect t r clock))
  unfolding recv_connect take_connection Follows
  recv_connect-Follows (datagram buf) clock fail_clock h =
      stays (ground (arith, h)) (λ b i. cc (b, h))
  recv_connect-Follows would_block clock fail_clock h = stays_put
  recv_connect-Follows interrupted clock fail_clock h = stays_put
  recv_connect-Follows broken clock fail_clock h = fail_backoff-Follows fail_clock (λ e. cc)

  accept_reply-Follows :
      (r : AnnounceReply) (clock : ℕ) → t.state ≡ announcing → Follows (accept_reply t r clock).0
  unfolding accept_reply Follows
  accept_reply-Follows r clock h =
      let told : known t.reported ≡ view t = ground (arith, h) in
      let now : view (accept_reply t r clock).0
          ≡ (if is_stop t.in_flight then gone else known (acknowledged t.in_flight t.reported)) =
        ground arith in
      confirms h (TrackerOk-IsTold s c t v h)
        (now ∙ acknowledged_view t.in_flight t.reported ∙ ap (heard t.in_flight) told)

  on_reply-Follows :
      (k : ReplyKind) (r : AnnounceReply) (clock fail_clock : ℕ)
      (rest : Bool × TrackerSession × List Peer)
      → t.state ≡ announcing
      → Follows (settle fail_clock rest).0
      → Follows (settle fail_clock (on_reply t k r clock rest)).0
  on_reply-Follows ignore r clock fail_clock rest h f = f
  on_reply-Follows error_reply r clock fail_clock rest h f =
      fail_backoff-Follows fail_clock (λ e. cc)
  on_reply-Follows ok_reply r clock fail_clock rest h f = accept_reply-Follows r clock h

  recv_announce-Follows :
      (rs : List Recv) (clock fail_clock : ℕ)
      → t.state ≡ announcing
      → Follows (settle fail_clock (recv_announce t rs clock)).0
  unfolding recv_announce
  recv_announce-Follows [] clock fail_clock h = stays_put
  recv_announce-Follows (interrupted ∷ rs) clock fail_clock h =
      recv_announce-Follows rs clock fail_clock h
  recv_announce-Follows (would_block ∷ rs) clock fail_clock h = stays_put
  recv_announce-Follows (broken ∷ rs) clock fail_clock h = fail_backoff-Follows fail_clock (λ e. cc)
  recv_announce-Follows (datagram buf ∷ rs) clock fail_clock h =
      let r = parse_announce_reply (take 65536 buf) t.transaction_id in
      on_reply-Follows r.kind r clock fail_clock _ h (recv_announce-Follows rs clock fail_clock h)

  receive_in-Follows : (x : TrackerState) (a : Answers) → t.state ≡ x → Follows (receive_in x t a).0
  unfolding receive_in
  receive_in-Follows connecting a h =
      recv_connect-Follows (first_recv a.received) a.recv_clock a.fail_clock h
  receive_in-Follows announcing a h = recv_announce-Follows a.received a.recv_clock a.fail_clock h
  receive_in-Follows disconnected a h = stays_put
  receive_in-Follows resolving a h = stays_put
  receive_in-Follows connected a h = stays_put
  receive_in-Follows idle a h = stays_put
  receive_in-Follows stopped a h = stays_put

  pub receive-Follows : (a : Answers) → Turn s c t (receive t a).0
  unfolding receive Follows
  receive-Follows a = elim (Bool-cases a.ready) [
    | inl e ↦ simp e (receive_in-Follows t.state a refl)
    | inr e ↦ simp e (Turn-refl s c t)
  ]

asked_Advances :
    (m : TrackerManager) (t u : TrackerSession) (stats : AnnounceParams) (a : Answers)
    → t.state ≡ connected
    → announce m t stats a ≡ ok u
    → Advances t u
unfolding announce fail_send fail_backoff
asked_Advances m t u stats a h e =
    let t1 = record t { transaction_id = a.txn; in_flight = pending_event m t } in
    elim (Result-cases
      (build_announce_request t1 (pending_event m t) m.peer_id m.info_hash m.listen_port stats)) [
        | inl (packet, built) ↦
            let same : after_send t1 a packet ≡ u = ground (arith, e, built) in
            subst (Advances t) same (ground (arith, h), λ i. ground (arith, h, i))
        | inr (x, threw) ↦ ground (arith, e, threw)
      ]

pub advance_in-Advances :
    (x : TrackerState) (m : TrackerManager) (t u : TrackerSession) (stats : AnnounceParams)
    (now : ℕ) (a : Answers)
    → t.state ≡ x
    → advance_in x m t stats now a ≡ ok u
    → Advances t u
unfolding advance_in on_timeout finish_lookup send_connect send_announce fail_send fail_backoff
advance_in-Advances disconnected m t u stats now a h e =
    (ground (arith, h, e), λ i. ground (arith, h, e, i))
advance_in-Advances resolving m t u stats now a h e =
    (ground (arith, h, e), λ i. ground (arith, h, e, i))
advance_in-Advances connecting m t u stats now a h e =
    (ground (arith, h, e), λ i. ground (arith, h, e, i))
advance_in-Advances connected m t u stats now a h e =
    elim (Bool-cases (leb (60 * second) (a.send_clock - t.connected_at))) [
      | inl old ↦ (ground (arith, e, old, h), λ i. ground (arith, e, old, h, i))
      | inr young ↦ asked_Advances m t u stats a h (ground (arith, e, young))
    ]
advance_in-Advances announcing m t u stats now a h e =
    (ground (arith, h, e), λ i. ground (arith, h, e, i))
advance_in-Advances idle m t u stats now a h e =
    (ground (arith, h, e), λ i. ground (arith, h, e, i))
advance_in-Advances stopped m t u stats now a h e =
    (ground (arith, h, e), λ i. ground (arith, h, e, i))
