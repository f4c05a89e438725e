-- ===== src/Peers/Outbound.antt =====
-- The dials of a round, and the steps behind the handshakes, of `handle_events` in
-- src/runtime/managers/peer_manager.cpp.
use torrent_peer.Prelude.{
  ℕ, suc, ◌+◌, ◌≤◌, ◌≡◌, ap, ◌∙◌, List, [], ◌∷◌, if◌then◌else◌, length, ok, arith,
}
use torrent_peer.Prelude.Map.{Entries}
use torrent_peer.Torrent.{Bytes}
use torrent_peer.Peers.{PeerEvent, PendingOutbound, Phase, tcp_connecting, handshaking, PeerManager}
use torrent_peer.Peers.Dials.{
  HandshakeResult, keep, drop_it, promoted, Awaited, read_handshake, finish_connect,
  accept_outbound, receive_outbound, advance_phase, advance_outbound,
}
use torrent_peer.Peers.Events.{
  settle_outbound, kept_outbound, outbound_loop, handle_inbound, handle_outbound,
}
use torrent_peer.Peers.Invariant.{ConnOk, PeersOk}
use torrent_peer.Peers.Rounds.{
  Grown, same-Grown, Grown-trans, promote-Grown, joins, inbound_loop_total,
}

module _ (m : PeerManager) (all_ok : Entries (ConnOk m.piece_count) m.conns) where
  accept_outbound-Grown :
      (p : PendingOutbound) (buffer : Bytes) (now : ℕ) (out : List PeerEvent)
      → Grown
          (joins (accept_outbound m p buffer now out).0)
          m
          (accept_outbound m p buffer now out).1
  unfolding accept_outbound
  accept_outbound-Grown p buffer now out =
      ground (arith, same-Grown m all_ok, promote-Grown m p.peer now out all_ok)

  receive_outbound-Grown :
      (p : PendingOutbound) (now : ℕ) (out : List PeerEvent) (r : HandshakeResult × Bytes)
      → Grown (joins (receive_outbound m p now out r).0) m (receive_outbound m p now out r).2
  receive_outbound-Grown p now out (keep, buffer) = same-Grown m all_ok
  receive_outbound-Grown p now out (drop_it, buffer) = same-Grown m all_ok
  receive_outbound-Grown p now out (promoted, buffer) = accept_outbound-Grown p buffer now out

  advance_phase-Grown :
      (x : Phase) (p : PendingOutbound) (a : Awaited) (out : List PeerEvent)
      → Grown (joins (advance_phase x m p a out).0) m (advance_phase x m p a out).2
  unfolding finish_connect
  advance_phase-Grown tcp_connecting p a out = ground (arith, same-Grown m all_ok)
  advance_phase-Grown handshaking p a out = ground (
    arith,
    same-Grown m all_ok,
    receive_outbound-Grown p a.clock out (read_handshake p.buffer a.read),
  )

-- Forgetting a peer is no change of the connections.
settle_outbound-Grown :
    (n : ℕ) (m m1 : PeerManager) (h : HandshakeResult) (p : PendingOutbound)
    → Grown n m m1
    → Grown n m (settle_outbound h p m1)
settle_outbound-Grown n m m1 keep p g = g
settle_outbound-Grown n m m1 promoted p g = g
settle_outbound-Grown n m m1 drop_it p g = record {
  id = g.id;
  limit = g.limit;
  ins = g.ins;
  outs = g.outs;
  queue = g.queue;
  room = g.room;
  each = g.each;
}

kept_places :
    (h : HandshakeResult) (p : PendingOutbound) (ps : List PendingOutbound)
    → length (kept_outbound h p ps) + joins h ≤ suc (length ps)
kept_places keep p ps = omega arith
kept_places drop_it p ps = omega arith
kept_places promoted p ps = omega arith

-- What is kept and what joined have the places of the pending dials.
abbrev OutboundLoop : PeerManager → ℕ → List PendingOutbound × PeerManager × List PeerEvent → Type 0
OutboundLoop m n r = (k : ℕ) × Grown k m (r.1) × (length (r.0) + k ≤ n)

outbound_loop-Grown :
    (ps : List PendingOutbound) (m : PeerManager) (as_ : List Awaited) (out : List PeerEvent)
    → Entries (ConnOk m.piece_count) m.conns
    → OutboundLoop m (length ps) (outbound_loop m ps as_ out)
unfolding outbound_loop advance_outbound
outbound_loop-Grown [] m as_ out h = (0, same-Grown m h, omega arith)
outbound_loop-Grown (p ∷ ps) m [] out h = (0, same-Grown m h, omega arith)
outbound_loop-Grown (p ∷ ps) m (a ∷ as_) out h =
    let step = if a.any then advance_outbound m p a out else (keep, p, m, out) in
    let g : Grown (joins (step.0)) m (step.2) =
      ground (arith, same-Grown m h, advance_phase-Grown m h p.phase p a out) in
    let settled = settle_outbound-Grown (joins (step.0)) m (step.2) (step.0) (step.1) g in
    let m2 = settle_outbound (step.0) (step.1) (step.2) in
    let (k, g2, fits) = outbound_loop-Grown ps m2 as_ (step.3) settled.each in
    let kept = (outbound_loop m2 ps as_ (step.3)).0 in
    (
      joins (step.0) + k,
      Grown-trans (joins (step.0)) k m m2 _ settled g2,
      omega (arith, fits, kept_places (step.0) (step.1) kept),
    )

pub handle_inbound_total :
    (m : PeerManager) (as_ : List Awaited) (out : List PeerEvent)
    → PeersOk m
    → (m1 : PeerManager) × (out1 : List PeerEvent) × (handle_inbound m as_ out ≡ ok (m1, out1))
      × PeersOk m1
unfolding handle_inbound
handle_inbound_total m as_ out v =
    let (kept, m1, out1, k, e, g, fits) = inbound_loop_total m.inbound m as_ out v.own_id v.each in
    (
      record m1 { inbound = kept },
      out1,
      ground (arith, e),
      record {
        own_id = ap length g.id ∙ v.own_id;
        capacity = omega (arith, v.capacity, g.room, fits, g.limit, ap length g.outs);
        half_open = omega (arith, v.half_open, ap length g.outs);
        waiting = omega (arith, v.waiting, ap length g.queue);
        each = g.each;
      },
    )

pub handle_outbound-PeersOk :
    (m : PeerManager) (as_ : List Awaited) (out : List PeerEvent)
    → PeersOk m
    → PeersOk (handle_outbound m as_ out).0
unfolding handle_outbound
handle_outbound-PeersOk m as_ out v =
    let (k, g, fits) = outbound_loop-Grown m.outbound m as_ out v.each in
    record {
      own_id = ap length g.id ∙ v.own_id;
      capacity = omega (arith, v.capacity, g.room, fits, g.limit, ap length g.ins);
      half_open = omega (arith, v.half_open, fits);
      waiting = omega (arith, v.waiting, ap length g.queue);
      each = g.each;
    }
