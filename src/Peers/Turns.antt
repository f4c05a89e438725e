-- ===== src/Peers/Turns.antt =====
-- A round keeps the limits: `handle_events` of src/runtime/managers/peer_manager.cpp as a whole.
use torrent_peer.Prelude.{
  ℕ, zero, suc, ◌-◌, ◌≡◌, sym, ap, subst, ◌∙◌, Bool, true, false, not, ◌&&◌, List, [], ◌∷◌, ◌++◌,
  Option, none, some, if◌then◌else◌, length, min, Result, ok, err, Exception, arith, Bool-cases,
  Option-cases, List-cases, inl, inr,
}
use torrent_peer.Prelude.Map.{find, assign, find-assign_self, Entries-find}
use torrent_peer.Torrent.{Bytes}
use torrent_peer.Wire.{Outbox, extract_message, on_sent}
use torrent_peer.Wire.Queued.{IsCoherent, CursorOk, on_sent-IsCoherent}
use torrent_peer.Peers.{PeerEvent, PeerConnection, PeerManager}
use torrent_peer.Peers.Messages.{handle_message}
use torrent_peer.Peers.Sends.{at_peer, drop_all}
use torrent_peer.Peers.Dials.{Read, got, closed, would_block, interrupted, broken}
use torrent_peer.Peers.Events.{
  Sent, taken, not_now, lost, Ready, Turn, done, breaks, more, handled, extracted, turn_of,
  message_turn, message_loop, on_read, unsent, on_write, is_empty, after_write, serve, conn_loop,
  idle_ids, keep_alives, expire_inbound, expire_outbound, accept_new, Round, finish_round,
  handle_outbound, handle_events,
}
use torrent_peer.Peers.Invariant.{
  ConnOk, PeersOk, replaced-PeersOk, at_peer-PeersOk, handle_message-PeersOk, drop_all-PeersOk,
}
use torrent_peer.Peers.Outbound.{handle_inbound_total, handle_outbound-PeersOk}
use torrent_peer.Peers.Upkeep.{
  keep_alives-PeersOk, expire_inbound-PeersOk, expire_outbound-PeersOk, accept_new-PeersOk,
  dial_more-PeersOk,
}

-- What a round of the loop leaves is well formed.
abbrev TurnOk : Turn → Type 0
TurnOk done = Unit
TurnOk (breaks m out) = PeersOk m
TurnOk (more m out) = PeersOk m

handled-TurnOk :
    (r : PeerManager × List PeerEvent × Option Exception) → PeersOk (r.0) → TurnOk (handled r)
handled-TurnOk (m, out, none) v = v
handled-TurnOk (m, out, some e) v = v

extracted-TurnOk :
    (m : PeerManager) (id : ℕ) (out : List PeerEvent) (r : Result (Option Bytes × Bytes))
    → PeersOk m
    → TurnOk (extracted m id out r)
extracted-TurnOk m id out (err e) v = v
extracted-TurnOk m id out (ok (none, rest)) v = tt
extracted-TurnOk m id out (ok (some msg, rest)) v =
    let m1 = at_peer m id (λ c. record c { read_buffer = rest }) in
    let v1 =
      at_peer-PeersOk m id (λ c. record c { read_buffer = rest })
        (λ c g. record { named = g.named; sized = g.sized; coherent = g.coherent }) v in
    handled-TurnOk (handle_message m1 id msg out) (handle_message-PeersOk m1 id msg out v1)

turn_of-TurnOk :
    (m : PeerManager) (id : ℕ) (out : List PeerEvent) (o : Option PeerConnection)
    → PeersOk m
    → TurnOk (turn_of m id out o)
turn_of-TurnOk m id out none v = tt
turn_of-TurnOk m id out (some c) v = extracted-TurnOk m id out (extract_message c.read_buffer) v

message_loop-PeersOk :
    (fuel : ℕ) (m : PeerManager) (id : ℕ) (out : List PeerEvent)
    → PeersOk m
    → PeersOk (message_loop fuel m id out).1
unfolding message_loop message_turn
message_loop-PeersOk zero m id out v = v
message_loop-PeersOk (suc fuel) m id out v =
    after (turn_of m id out (find m.conns id)) (turn_of-TurnOk m id out (find m.conns id) v)
      (λ m1 out1 v1. message_loop-PeersOk fuel m1 id out1 v1)
  where
    go_on : Turn → Bool × PeerManager × List PeerEvent
    go_on t = elim t [
      | done ↦ (false, m, out)
      | breaks m1 out1 ↦ (true, m1, out1)
      | more m1 out1 ↦ message_loop fuel m1 id out1
    ]

    after :
        (t : Turn)
        → TurnOk t
        → ((m1 : PeerManager) (out1 : List PeerEvent)
            → PeersOk m1
            → PeersOk (message_loop fuel m1 id out1).1)
        → PeersOk (go_on t).1
    after done h k = v
    after (breaks m1 out1) h k = h
    after (more m1 out1) h k = k m1 out1 h

on_read-PeersOk :
    (m : PeerManager) (id : ℕ) (c c0 : PeerConnection) (r : Read) (now : ℕ) (out : List PeerEvent)
    → PeersOk m
    → find m.conns id ≡ some c0
    → ConnOk m.piece_count id c
    → PeersOk (on_read m id c r now out).1
on_read-PeersOk m id c c0 (got chunk) now out v e g = message_loop-PeersOk _ _ id out (
    replaced-PeersOk m id c0 _ m.piece_frequency v e
      (record { named = g.named; sized = g.sized; coherent = g.coherent }))
on_read-PeersOk m id c c0 closed now out v e g = v
on_read-PeersOk m id c c0 would_block now out v e g = v
on_read-PeersOk m id c c0 interrupted now out v e g = v
on_read-PeersOk m id c c0 broken now out v e g = v

-- A write that is taken keeps the queue coherent.
sent-IsCoherent : (o : Outbox) (w : ℕ) → IsCoherent o → IsCoherent (on_sent o (min w (unsent o)))
unfolding on_sent
sent-IsCoherent o w v = elim (List-cases o.write_buffer) [
  | inl e ↦
      let same : o ≡ on_sent o (min w (unsent o)) = ground (arith, e) in subst IsCoherent same v
  | inr (front, rest, e) ↦
      let left : unsent o ≡ length front - o.cursor = ground (arith, e) in
      let inside = subst (λ ms. CursorOk ms o.cursor) e v.cursor_ok in
      on_sent-IsCoherent o v front rest (min w (unsent o)) e (omega (arith, left, inside))
]

write-ConnOk :
    (n id : ℕ) (c c1 : PeerConnection) (s : Sent) (now : ℕ)
    → ConnOk n id c
    → on_write c s now ≡ some c1
    → ConnOk n id c1
write-ConnOk n id c c1 (taken w) now v e =
    let same : record c { outbox = on_sent c.outbox (min w (unsent c.outbox)); last_sent = now }
        ≡ c1 =
      ground (arith, e) in
    subst (ConnOk n id) same (record {
      named = v.named;
      sized = v.sized;
      coherent = sent-IsCoherent c.outbox w v.coherent;
    })
write-ConnOk n id c c1 not_now now v e =
    let same : c ≡ c1 = ground (arith, e) in subst (ConnOk n id) same v
write-ConnOk n id c c1 lost now v e = ground (arith, e)

-- A connection behind its write, if it has one.
abbrev written : Ready → PeerConnection → Option PeerConnection
written r c =
    if r.writable && not (is_empty c.outbox.write_buffer) then on_write c r.sent r.clock else some c

written-ConnOk :
    (n id : ℕ) (r : Ready) (c c1 : PeerConnection)
    → ConnOk n id c
    → written r c ≡ some c1
    → ConnOk n id c1
written-ConnOk n id r c c1 v e =
    elim (Bool-cases (r.writable && not (is_empty c.outbox.write_buffer))) [
      | inl b ↦
          write-ConnOk n id c c1 r.sent r.clock v
            (sym (ap (λ x. if x then on_write c r.sent r.clock else some c) b) ∙ e)
      | inr b ↦ let same : c ≡ c1 = ground (arith, e, b) in subst (ConnOk n id) same v
    ]

after_write-PeersOk :
    (m : PeerManager) (r : Ready) (out : List PeerEvent) (c0 c : PeerConnection)
    → PeersOk m
    → find m.conns r.id ≡ some c0
    → ConnOk m.piece_count r.id c
    → PeersOk (after_write m r out (some c)).1
after_write-PeersOk m r out c0 c v e g =
    let m1 = record m { conns = assign m.conns r.id c } in
    let v1 : PeersOk m1 = replaced-PeersOk m r.id c0 c m.piece_frequency v e g in
    ground (
      arith,
      v1,
      on_read-PeersOk m1 r.id c c r.read r.clock out v1 (find-assign_self m.conns r.id c) g,
    )

serve-PeersOk :
    (m : PeerManager) (r : Ready) (out : List PeerEvent)
    → PeersOk m
    → PeersOk (serve m r out (find m.conns r.id)).1
serve-PeersOk m r out v = elim (Option-cases (find m.conns r.id)) [
  | inl e ↦ subst (λ o. PeersOk (serve m r out o).1) (sym e) v
  | inr (c, e) ↦
      subst (λ o. PeersOk (serve m r out o).1) (sym e)
        (elim (Option-cases (written r c)) [
          | inl gone ↦ subst (λ o. PeersOk (after_write m r out o).1) (sym gone) v
          | inr (c1, w) ↦
              subst (λ o. PeersOk (after_write m r out o).1) (sym w)
                (after_write-PeersOk m r out c c1 v e (
                  written-ConnOk m.piece_count r.id r c c1
                    (Entries-find (ConnOk m.piece_count) m.conns r.id v.each e) w))
        ])
]

conn_loop-PeersOk :
    (rs : List Ready) (m : PeerManager) (out : List PeerEvent)
    → PeersOk m
    → PeersOk (conn_loop m rs out).1
unfolding conn_loop
conn_loop-PeersOk [] m out v = v
conn_loop-PeersOk (r ∷ rs) m out v =
    let step = serve m r out (find m.conns r.id) in
    conn_loop-PeersOk rs (step.1) (step.2) (serve-PeersOk m r out v)

finish_round-PeersOk :
    (m : PeerManager) (r : Round) (ids : List ℕ) (out : List PeerEvent)
    → PeersOk m
    → PeersOk (finish_round m r ids out).0
unfolding finish_round
finish_round-PeersOk m r ids out v =
    let m1 = (drop_all m (ids ++ idle_ids r.clock m.conns) out).0 in
    let m2 = keep_alives r.clock m1.conns m1 in
    let m4 = expire_outbound (record m2 { inbound = expire_inbound r.clock m2.inbound }) r.clock in
    let v1 = drop_all-PeersOk (ids ++ idle_ids r.clock m.conns) m out v in
    let v2 = keep_alives-PeersOk r.clock m1.conns m1 v1 in
    let v4 = expire_outbound-PeersOk _ r.clock (expire_inbound-PeersOk m2 r.clock v2) in
    let v5 = accept_new-PeersOk r.accepted m4 r.clock v4 in
    dial_more-PeersOk (if m4.listening then accept_new m4 r.accepted r.clock else m4) r.dialler
      (either m4.listening v4 v5)
  where
    either : {a b : PeerManager} (x : Bool) → PeersOk b → PeersOk a → PeersOk (if x then a else b)
    either true v w = w
    either false v w = v

-- A round throws nothing and keeps the limits.
pub handle_events-PeersOk :
    (m : PeerManager) (r : Round)
    → PeersOk m
    → (m1 : PeerManager) × (out : List PeerEvent) × (handle_events m r ≡ ok (m1, out)) × PeersOk m1
unfolding handle_events
handle_events-PeersOk m r v =
    let (m1, out1, e, v1) = handle_inbound_total m r.inbound [] v in
    let outbound = handle_outbound m1 r.outbound out1 in
    let v2 = handle_outbound-PeersOk m1 r.outbound out1 v1 in
    let served = conn_loop (outbound.0) r.ready (outbound.1) in
    let v3 = conn_loop-PeersOk r.ready (outbound.0) (outbound.1) v2 in
    let end = finish_round (served.1) r (served.0) (served.2) in
    (end.0, end.1, ground (arith, e), finish_round-PeersOk (served.1) r (served.0) (served.2) v3)
