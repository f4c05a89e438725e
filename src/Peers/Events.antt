-- ===== src/Peers/Events.antt =====
-- `handle_events` of src/runtime/managers/peer_manager.cpp, its steps in their order.
use torrent_peer.Prelude.{
  ℕ, zero, suc, ◌+◌, ◌-◌, Bool, true, false, not, ◌&&◌, List, [], ◌∷◌, ◌++◌, Option, none, some,
  ltb, leb, if◌then◌else◌, length, take, min, Result, ok, err, Exception, ◌>>=◌,
}
use torrent_peer.Prelude.Map.{Map, find, assign}
use torrent_peer.Torrent.{Bytes}
use torrent_peer.Types.{Peer}
use torrent_peer.Wire.{Outbox, extract_message, on_sent, is_banned}
use torrent_peer.Peers.{PeerEvent, PeerConnection, PendingInbound, PendingOutbound, PeerManager}
use torrent_peer.Peers.Messages.{handle_message}
use torrent_peer.Peers.Sends.{forget, key, at_peer, drop_all, send_keep_alive}
use torrent_peer.Peers.Dials.{
  seconds, total, Dialler, dial_more, Read, got, closed, would_block, interrupted, broken,
  HandshakeResult, keep, drop_it, promoted, Awaited, advance_inbound, advance_outbound,
}

-- Step 1a. What is kept stands first in the result.
abbrev pub settle_inbound :
    List PendingInbound × PeerManager × List PeerEvent
    → HandshakeResult × PendingInbound
    → List PendingInbound × PeerManager × List PeerEvent
settle_inbound (ps, m, out) (keep, p) = (p ∷ ps, m, out)
settle_inbound (ps, m, out) (drop_it, p) = (ps, m, out)
settle_inbound (ps, m, out) (promoted, p) = (ps, m, out)

abbrev pub step_inbound :
    PeerManager
    → PendingInbound
    → Awaited
    → List PeerEvent
    → Result (HandshakeResult × PendingInbound × PeerManager × List PeerEvent)
step_inbound m p a out =
    if not a.any
    then ok (keep, p, m, out)
    else if a.readable
    then advance_inbound m p a.read a.clock out
    else ok (drop_it, p, m, out)

unfoldable pub inbound_loop :
    PeerManager
    → List PendingInbound
    → List Awaited
    → List PeerEvent
    → Result (List PendingInbound × PeerManager × List PeerEvent)
inbound_loop m [] as_ out = ok ([], m, out)
inbound_loop m (p ∷ ps) [] out = ok (p ∷ ps, m, out)
inbound_loop m (p ∷ ps) (a ∷ as_) out = do
  (h, p1, m1, out1) ← step_inbound m p a out
  rest ← inbound_loop m1 ps as_ out1
  ok (settle_inbound rest (h, p1))

unfoldable pub handle_inbound :
    PeerManager → List Awaited → List PeerEvent → Result (PeerManager × List PeerEvent)
handle_inbound m as_ out = do
  (ps, m1, out1) ← inbound_loop m m.inbound as_ out
  ok (record m1 { inbound = ps }, out1)

-- Step 1b.
abbrev pub settle_outbound : HandshakeResult → PendingOutbound → PeerManager → PeerManager
settle_outbound keep p m = m
settle_outbound drop_it p m = record m { known = forget (key p.peer) m.known }
settle_outbound promoted p m = m

abbrev pub kept_outbound :
    HandshakeResult → PendingOutbound → List PendingOutbound → List PendingOutbound
kept_outbound keep p ps = p ∷ ps
kept_outbound drop_it p ps = ps
kept_outbound promoted p ps = ps

unfoldable pub outbound_loop :
    PeerManager
    → List PendingOutbound
    → List Awaited
    → List PeerEvent
    → List PendingOutbound × PeerManager × List PeerEvent
outbound_loop m [] as_ out = ([], m, out)
outbound_loop m (p ∷ ps) [] out = (p ∷ ps, m, out)
outbound_loop m (p ∷ ps) (a ∷ as_) out =
    let (h, p1, m1, out1) = if a.any then advance_outbound m p a out else (keep, p, m, out) in
    let (kept, m2, out2) = outbound_loop (settle_outbound h p1 m1) ps as_ out1 in
    (kept_outbound h p1 kept, m2, out2)

unfoldable pub handle_outbound :
    PeerManager → List Awaited → List PeerEvent → PeerManager × List PeerEvent
handle_outbound m as_ out =
    let (ps, m1, out1) = outbound_loop m m.outbound as_ out in (record m1 { outbound = ps }, out1)

-- What `send` gives: the number of bytes taken, or an error that passes or not.
pub data Sent : Type 0 where
  taken : ℕ → Sent
  not_now lost : Sent

-- What poll and the system have for a connection.
pub record Ready : Type 0 where
  pub id : ℕ
  pub writable : Bool
  pub sent : Sent
  pub readable : Bool
  pub read : Read
  pub clock : ℕ

-- One round of the loop over the messages in the read buffer: there is none, one of them breaks the
-- protocol, or the loop goes on.
pub data Turn : Type 0 where
  done : Turn
  breaks more : PeerManager → List PeerEvent → Turn

abbrev pub handled : PeerManager × List PeerEvent × Option Exception → Turn
handled (m, out, none) = more m out
handled (m, out, some e) = breaks m out

abbrev pub extracted : PeerManager → ℕ → List PeerEvent → Result (Option Bytes × Bytes) → Turn
extracted m id out (err e) = breaks m out
extracted m id out (ok (none, rest)) = done
extracted m id out (ok (some msg, rest)) =
    handled (handle_message (at_peer m id (λ c. record c { read_buffer = rest })) id msg out)

abbrev pub turn_of : PeerManager → ℕ → List PeerEvent → Option PeerConnection → Turn
turn_of m id out none = done
turn_of m id out (some c) = extracted m id out (extract_message c.read_buffer)

unfoldable pub message_turn : PeerManager → ℕ → List PeerEvent → Turn
message_turn m id out = turn_of m id out (find m.conns id)

-- The loop; it tells whether a message broke the protocol.
unfoldable pub message_loop :
    ℕ → PeerManager → ℕ → List PeerEvent → Bool × PeerManager × List PeerEvent
message_loop zero m id out = (false, m, out)
message_loop (suc fuel) m id out = elim (message_turn m id out) [
  | done ↦ (false, m, out)
  | breaks m1 out1 ↦ (true, m1, out1)
  | more m1 out1 ↦ message_loop fuel m1 id out1
]

-- A connection in its turn of step 2: whether it is to be dropped, the manager and the events.
abbrev pub on_read :
    PeerManager
    → ℕ
    → PeerConnection
    → Read
    → ℕ
    → List PeerEvent
    → Bool × PeerManager × List PeerEvent
on_read m id c (got chunk) now out =
    let buffer = c.read_buffer ++ take 16384 chunk in
    message_loop (suc (length buffer))
      (record m {
        conns = assign m.conns id (record c { read_buffer = buffer; last_received = now });
      })
      id out
on_read m id c closed now out = (true, m, out)
on_read m id c would_block now out = (false, m, out)
on_read m id c interrupted now out = (false, m, out)
on_read m id c broken now out = (true, m, out)

-- `send` takes no more than what is left of the first message.
abbrev pub unsent : Outbox → ℕ
unsent o = elim o.write_buffer [ [] ↦ 0 | front ∷ rest ↦ length front - o.cursor ]

-- The write of the first message: what it leaves, if the connection is not lost.
abbrev pub on_write : PeerConnection → Sent → ℕ → Option PeerConnection
on_write c (taken w) now =
    some (record c { outbox = on_sent c.outbox (min w (unsent c.outbox)); last_sent = now })
on_write c not_now now = some c
on_write c lost now = none

abbrev pub is_empty : List Bytes → Bool
is_empty [] = true
is_empty (x ∷ xs) = false

abbrev pub after_write :
    PeerManager
    → Ready
    → List PeerEvent
    → Option PeerConnection
    → Bool × PeerManager × List PeerEvent
after_write m r out none = (true, m, out)
after_write m r out (some c) =
    let m1 = record m { conns = assign m.conns r.id c } in
    if r.readable then on_read m1 r.id c r.read r.clock out else (false, m1, out)

abbrev pub serve :
    PeerManager
    → Ready
    → List PeerEvent
    → Option PeerConnection
    → Bool × PeerManager × List PeerEvent
serve m r out none = (false, m, out)
serve m r out (some c) = after_write m r out (
    if r.writable && not (is_empty c.outbox.write_buffer)
    then on_write c r.sent r.clock
    else some c)

-- Step 2 over the connections that poll has an event for.
unfoldable pub conn_loop :
    PeerManager → List Ready → List PeerEvent → List ℕ × PeerManager × List PeerEvent
conn_loop m [] out = ([], m, out)
conn_loop m (r ∷ rs) out =
    let (lost_, m1, out1) = serve m r out (find m.conns r.id) in
    let (ids, m2, out2) = conn_loop m1 rs out1 in (if lost_ then r.id ∷ ids else ids, m2, out2)

-- Step 3.
unfoldable pub idle_ids : ℕ → Map PeerConnection → List ℕ
idle_ids now [] = []
idle_ids now ((id, c) ∷ cs) =
    let rest = idle_ids now cs in
    if leb (seconds 150) (now - c.last_received) then id ∷ rest else rest

-- Step 4, on the snapshot of the connections.
unfoldable pub keep_alives : ℕ → Map PeerConnection → PeerManager → PeerManager
keep_alives now [] m = m
keep_alives now ((id, c) ∷ cs) m =
    let m1 =
      if is_empty c.outbox.write_buffer && leb (seconds 60) (now - c.last_sent)
      then send_keep_alive m c.id
      else m in
    keep_alives now cs m1

-- Step 5. A handshake that began before the cutoff is given up.
unfoldable pub expire_inbound : ℕ → List PendingInbound → List PendingInbound
expire_inbound now [] = []
expire_inbound now (p ∷ ps) =
    let rest = expire_inbound now ps in if ltb (p.started + seconds 15) now then rest else p ∷ rest

unfoldable pub expired_keys : ℕ → List PendingOutbound → List Bytes → List Bytes
expired_keys now [] ks = ks
expired_keys now (p ∷ ps) ks =
    let ks1 = if leb p.deadline now then forget (key p.peer) ks else ks in expired_keys now ps ks1

unfoldable pub unexpired : ℕ → List PendingOutbound → List PendingOutbound
unexpired now [] = []
unexpired now (p ∷ ps) =
    let rest = unexpired now ps in if leb p.deadline now then rest else p ∷ rest

unfoldable pub expire_outbound : PeerManager → ℕ → PeerManager
expire_outbound m now = record m {
  outbound = unexpired now m.outbound;
  known = expired_keys now m.outbound m.known;
}

-- Step 6, over the peers that `accept` gives.
unfoldable pub accept_one : PeerManager → Peer → ℕ → PeerManager
accept_one m peer now =
    if leb m.max_peers (total m)
    then m
    else if is_banned m.banned peer.host
    then m
    else record m { inbound = m.inbound ++ record { peer = peer; buffer = []; started = now } ∷ [] }

unfoldable pub accept_new : PeerManager → List Peer → ℕ → PeerManager
accept_new m [] now = m
accept_new m (p ∷ ps) now = accept_new (accept_one m p now) ps now

-- What poll and the system have in one round: the answers to the handshakes and the connections, the
-- clock of steps 3 to 6, the peers that are accepted, and the dialler of step 7.
pub record Round : Type 0 where
  pub inbound : List Awaited
  pub outbound : List Awaited
  pub ready : List Ready
  pub clock : ℕ
  pub accepted : List Peer
  pub dialler : Dialler

-- Steps 3 to 7.
unfoldable pub finish_round :
    PeerManager → Round → List ℕ → List PeerEvent → PeerManager × List PeerEvent
finish_round m r lost_ out =
    let (m1, out1) = drop_all m (lost_ ++ idle_ids r.clock m.conns) out in
    let m2 = keep_alives r.clock m1.conns m1 in
    let m3 = record m2 { inbound = expire_inbound r.clock m2.inbound } in
    let m4 = expire_outbound m3 r.clock in
    let m5 = if m4.listening then accept_new m4 r.accepted r.clock else m4 in
    (dial_more m5 r.dialler, out1)

unfoldable pub handle_events : PeerManager → Round → Result (PeerManager × List PeerEvent)
handle_events m r = do
  (m1, out1) ← handle_inbound m r.inbound []
  let (m2, out2) = handle_outbound m1 r.outbound out1
  let (lost_, m3, out3) = conn_loop m2 r.ready out2
  ok (finish_round m3 r lost_ out3)
