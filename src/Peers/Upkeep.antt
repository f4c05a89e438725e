-- ===== src/Peers/Upkeep.antt =====
-- The steps behind the messages of a round, and new candidates, keep the limits:
-- src/runtime/managers/peer_manager.cpp.
use torrent_peer.Prelude.{
  ℕ, ◌+◌, ◌≤◌, ◌≡◌, true, false, List, [], ◌∷◌, leb, length, length-append, arith, Bool-cases, inl,
  inr, replicate,
}
use torrent_peer.Prelude.Map.{Map}
use torrent_peer.Types.{Peer}
use torrent_peer.Peers.{
  tcp_connecting, PeerConnection, PendingInbound, PendingOutbound, PeerManager,
}
use torrent_peer.Peers.Sends.{send_keep_alive}
use torrent_peer.Peers.Dials.{
  max_candidates, seconds, Dialler, start_dial, dial_one, has_room, dial_from, dial_more,
  add_candidate, add_candidates, add_peers,
}
use torrent_peer.Peers.Events.{
  keep_alives, expire_inbound, unexpired, expire_outbound, accept_one, accept_new,
}
use torrent_peer.Peers.Invariant.{PeersOk, send_to-PeersOk}

pub keep_alives-PeersOk :
    (now : ℕ) (cs : Map PeerConnection) (m : PeerManager)
    → PeersOk m
    → PeersOk (keep_alives now cs m)
unfolding keep_alives send_keep_alive
keep_alives-PeersOk now [] m v = v
keep_alives-PeersOk now ((id, c) ∷ cs) m v =
    keep_alives-PeersOk now cs _
      (ground (arith, v, send_to-PeersOk m c.id (replicate 4 0) (omega arith) v))

length-expire_inbound :
    (now : ℕ) (ps : List PendingInbound) → length (expire_inbound now ps) ≤ length ps
unfolding expire_inbound
length-expire_inbound now [] = omega arith
length-expire_inbound now (p ∷ ps) = ground (arith, length-expire_inbound now ps)

length-unexpired : (now : ℕ) (ps : List PendingOutbound) → length (unexpired now ps) ≤ length ps
unfolding unexpired
length-unexpired now [] = omega arith
length-unexpired now (p ∷ ps) = ground (arith, length-unexpired now ps)

pub expire_inbound-PeersOk :
    (m : PeerManager) (now : ℕ)
    → PeersOk m
    → PeersOk (record m { inbound = expire_inbound now m.inbound })
expire_inbound-PeersOk m now v = record {
  own_id = v.own_id;
  capacity = omega (arith, v.capacity, length-expire_inbound now m.inbound);
  half_open = v.half_open;
  waiting = v.waiting;
  each = v.each;
}

pub expire_outbound-PeersOk :
    (m : PeerManager) (now : ℕ) → PeersOk m → PeersOk (expire_outbound m now)
unfolding expire_outbound
expire_outbound-PeersOk m now v = record {
  own_id = v.own_id;
  capacity = omega (arith, v.capacity, length-unexpired now m.outbound);
  half_open = omega (arith, v.half_open, length-unexpired now m.outbound);
  waiting = v.waiting;
  each = v.each;
}

accept_one-PeersOk :
    (m : PeerManager) (peer : Peer) (now : ℕ) → PeersOk m → PeersOk (accept_one m peer now)
unfolding accept_one
accept_one-PeersOk m peer now v =
    ground
      (arith, v, length-append m.inbound (record { peer = peer; buffer = []; started = now } ∷ []))

pub accept_new-PeersOk :
    (ps : List Peer) (m : PeerManager) (now : ℕ) → PeersOk m → PeersOk (accept_new m ps now)
unfolding accept_new
accept_new-PeersOk [] m now v = v
accept_new-PeersOk (p ∷ ps) m now v =
    accept_new-PeersOk ps (accept_one m p now) now (accept_one-PeersOk m p now v)

dial_one-PeersOk :
    (m : PeerManager) (p : Peer) (d : Dialler)
    → has_room m ≡ true
    → PeersOk m
    → PeersOk (dial_one m p d)
unfolding dial_one start_dial has_room
dial_one-PeersOk m p d h v =
    let dial : PendingOutbound = record {
      phase = tcp_connecting;
      peer = p;
      buffer = [];
      deadline = d.clock + seconds 10;
    } in
    ground (arith, v, h, length-append m.outbound (dial ∷ []))

dial_from-PeersOk :
    (ps : List Peer) (m : PeerManager) (d : Dialler)
    → length ps ≤ max_candidates
    → PeersOk m
    → PeersOk (dial_from ps m d)
unfolding dial_from
dial_from-PeersOk [] m d h v = ground (arith, v)
dial_from-PeersOk (p ∷ ps) m d h v = elim (Bool-cases (has_room m)) [
  | inl e ↦
      simp e
        (dial_from-PeersOk ps (dial_one m p d) d (omega (arith, h)) (dial_one-PeersOk m p d e v))
  | inr e ↦ simp e (ground (arith, v, h))
]

pub dial_more-PeersOk : (m : PeerManager) (d : Dialler) → PeersOk m → PeersOk (dial_more m d)
unfolding dial_more
dial_more-PeersOk m d v = dial_from-PeersOk m.candidates m d v.waiting v

add_candidates-PeersOk :
    (ps : List Peer) (m : PeerManager) → PeersOk m → PeersOk (add_candidates ps m)
unfolding add_candidates
add_candidates-PeersOk [] m v = v
add_candidates-PeersOk (p ∷ ps) m v = elim (Bool-cases (leb max_candidates (length m.candidates))) [
  | inl e ↦ simp e v
  | inr e ↦ simp e (add_candidates-PeersOk ps (add_candidate m p) (added e))
]
  where
    added : leb max_candidates (length m.candidates) ≡ false → PeersOk (add_candidate m p)
    added e = unfold add_candidate in (ground (arith, v, e, length-append m.candidates (p ∷ [])))

pub add_peers-PeersOk :
    (m : PeerManager) (ps : List Peer) (d : Dialler) → PeersOk m → PeersOk (add_peers m ps d)
unfolding add_peers
add_peers-PeersOk m ps d v =
    dial_more-PeersOk (add_candidates ps m) d (add_candidates-PeersOk ps m v)
