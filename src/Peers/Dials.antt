-- ===== src/Peers/Dials.antt =====
-- Candidates, dials and handshakes, in src/runtime/managers/peer_manager.cpp. What the system answers
-- is an argument.
use torrent_peer.Prelude.{
  ℕ, ◌+◌, ◌-◌, ◌*◌, Bool, true, false, not, ◌&&◌, ◌||◌, List, [], ◌∷◌, ◌++◌, ltb, leb, ◌==◌,
  if◌then◌else◌, length, take, Result, ok, err, ◌>>=◌,
}
use torrent_peer.Torrent.{Bytes}
use torrent_peer.Types.{Peer}
use torrent_peer.Bencode.{digit_run}
use torrent_peer.Bencode.Digits.{value}
use torrent_peer.Wire.{build_handshake, verify_handshake, is_banned}
use torrent_peer.Peers.{
  PeerEvent, PendingInbound, Phase, tcp_connecting, handshaking, PendingOutbound, PeerManager,
}
use torrent_peer.Peers.Sends.{remember, forget, key, promote, send_to}

-- kMaxHalfOpen, kMaxCandidates and the times, in nanoseconds.
abbrev pub max_half_open : ℕ
max_half_open = 20

abbrev pub max_candidates : ℕ
max_candidates = 1000

abbrev pub seconds : ℕ → ℕ
seconds n = n * 1000000000

abbrev pub total : PeerManager → ℕ
total m = length m.conns + length m.inbound + length m.outbound

-- The system behind a dial: what `inet_pton` says of a host, whether a socket is made and its connect
-- is under way, and the clock.
pub record Dialler : Type 0 where
  pub is_address : Bytes → Bool
  pub connects : Peer → Bool
  pub clock : ℕ

-- `from_chars` of a `uint16_t` that reads the whole text and does not give 0.
unfoldable pub is_port : Bytes → Bool
is_port s =
    let ds = digit_run s in
    not (length ds == 0)
    && (length ds == length s)
    && leb (value 0 ds) 65535
    && not (value 0 ds == 0)

unfoldable pub start_dial : PeerManager → Peer → Dialler → Bool × PeerManager
start_dial m peer d =
    if not (is_port peer.port) || not (d.is_address peer.host)
    then (false, m)
    else if not (d.connects peer)
    then (false, m)
    else (
      true,
      record m {
        outbound =
            m.outbound
            ++ record {
              phase = tcp_connecting;
              peer = peer;
              buffer = [];
              deadline = d.clock + seconds 10;
            }
              ∷ [];
      },
    )

-- A round of the loop of `dial_more`.
abbrev pub unless_dialled : Peer → Bool × PeerManager → PeerManager
unless_dialled p (true, m) = m
unless_dialled p (false, m) = record m { known = forget (key p) m.known }

unfoldable pub dial_one : PeerManager → Peer → Dialler → PeerManager
dial_one m p d =
    if is_banned m.banned p.host
    then record m { known = forget (key p) m.known }
    else unless_dialled p (start_dial m p d)

unfoldable pub has_room : PeerManager → Bool
has_room m = ltb (length m.outbound) max_half_open && ltb (total m) m.max_peers

-- The loop over the candidates that are left.
unfoldable pub dial_from : List Peer → PeerManager → Dialler → PeerManager
dial_from [] m d = record m { candidates = [] }
dial_from (p ∷ ps) m d =
    let rest = dial_from ps (dial_one m p d) d in
    if has_room m then rest else record m { candidates = p ∷ ps }

unfoldable pub dial_more : PeerManager → Dialler → PeerManager
dial_more m d = dial_from m.candidates m d

-- A candidate that is not known yet.
unfoldable pub add_candidate : PeerManager → Peer → PeerManager
add_candidate m p =
    if is_banned m.known (key p)
    then m
    else record m { known = remember (key p) m.known; candidates = m.candidates ++ p ∷ [] }

unfoldable pub add_candidates : List Peer → PeerManager → PeerManager
add_candidates [] m = m
add_candidates (p ∷ ps) m =
    let rest = add_candidates ps (add_candidate m p) in
    if leb max_candidates (length m.candidates) then m else rest

unfoldable pub add_peers : PeerManager → List Peer → Dialler → PeerManager
add_peers m ps d = dial_more (add_candidates ps m) d

-- What `recv` gives.
pub data Read : Type 0 where
  got : Bytes → Read
  closed would_block interrupted broken : Read

pub data HandshakeResult : Type 0 where
  keep drop_it promoted : HandshakeResult

-- The bytes of the handshake so far, and whether to go on: at most what is missing of 68 is read.
unfoldable pub read_handshake : Bytes → Read → HandshakeResult × Bytes
read_handshake buffer (got chunk) =
    let buffer1 = buffer ++ take (68 - length buffer) chunk in
    (if ltb (length buffer1) 68 then keep else promoted, buffer1)
read_handshake buffer closed = (drop_it, buffer)
read_handshake buffer would_block = (keep, buffer)
read_handshake buffer interrupted = (keep, buffer)
read_handshake buffer broken = (drop_it, buffer)

abbrev pub is_ours : PeerManager → Bytes → Peer → Bool
is_ours m buffer peer = verify_handshake m.banned m.torrent.info_hash m.peer_id buffer peer.host

-- An inbound peer with a whole handshake; the reply goes to its queue.
abbrev pub greet_back :
    ℕ → Result Bytes → PeerManager × List PeerEvent → Result (PeerManager × List PeerEvent)
greet_back id (err e) (m, out) = err e
greet_back id (ok hs) (m, out) = ok (send_to m id hs, out)

unfoldable pub accept_inbound :
    PeerManager
    → PendingInbound
    → Bytes
    → ℕ
    → List PeerEvent
    → Result (HandshakeResult × PeerManager × List PeerEvent)
accept_inbound m p buffer now out =
    if not (is_ours m buffer p.peer) then ok (drop_it, m, out) else (do
      (m1, out1) ←
          greet_back m.next_id (build_handshake m.torrent m.peer_id) (promote m p.peer now out)
      ok (promoted, m1, out1))

-- `advance_inbound`; the pending connection is given back with what it has received.
abbrev pub received_inbound :
    PeerManager
    → PendingInbound
    → ℕ
    → List PeerEvent
    → HandshakeResult × Bytes
    → Result (HandshakeResult × PendingInbound × PeerManager × List PeerEvent)
received_inbound m p now out (keep, buffer) = ok (keep, record p { buffer = buffer }, m, out)
received_inbound m p now out (drop_it, buffer) = ok (drop_it, p, m, out)
received_inbound m p now out (promoted, buffer) = do
  (h, m1, out1) ← accept_inbound m p buffer now out
  ok (h, p, m1, out1)

unfoldable pub advance_inbound :
    PeerManager
    → PendingInbound
    → Read
    → ℕ
    → List PeerEvent
    → Result (HandshakeResult × PendingInbound × PeerManager × List PeerEvent)
advance_inbound m p r now out = received_inbound m p now out (read_handshake p.buffer r)

-- A connect that is done: the handshake is sent, or the error is taken.
unfoldable pub finish_connect : PendingOutbound → Bool → ℕ → HandshakeResult × PendingOutbound
finish_connect p fine now =
    if fine
    then (keep, record p { phase = handshaking; deadline = now + seconds 15 })
    else (drop_it, p)

-- A handshake that is whole.
unfoldable pub accept_outbound :
    PeerManager
    → PendingOutbound
    → Bytes
    → ℕ
    → List PeerEvent
    → HandshakeResult × PeerManager × List PeerEvent
accept_outbound m p buffer now out =
    if not (is_ours m buffer p.peer)
    then (drop_it, m, out)
    else let (m1, out1) = promote m p.peer now out in (promoted, m1, out1)

-- What poll and the system have for a pending socket: whether there is an event, whether it is one
-- of those for reading, what is read, whether a connect was fine, and the clock.
pub record Awaited : Type 0 where
  pub any : Bool
  pub readable : Bool
  pub read : Read
  pub fine : Bool
  pub clock : ℕ

abbrev pub receive_outbound :
    PeerManager
    → PendingOutbound
    → ℕ
    → List PeerEvent
    → HandshakeResult × Bytes
    → HandshakeResult × PendingOutbound × PeerManager × List PeerEvent
receive_outbound m p now out (keep, buffer) = (keep, record p { buffer = buffer }, m, out)
receive_outbound m p now out (drop_it, buffer) = (drop_it, p, m, out)
receive_outbound m p now out (promoted, buffer) =
    let (h, m1, out1) = accept_outbound m p buffer now out in (h, p, m1, out1)

abbrev pub advance_phase :
    Phase
    → PeerManager
    → PendingOutbound
    → Awaited
    → List PeerEvent
    → HandshakeResult × PendingOutbound × PeerManager × List PeerEvent
advance_phase tcp_connecting m p a out =
    let (h, p1) = finish_connect p a.fine a.clock in (h, p1, m, out)
advance_phase handshaking m p a out =
    if a.readable
    then receive_outbound m p a.clock out (read_handshake p.buffer a.read)
    else (keep, p, m, out)

-- `advance_outbound`
unfoldable pub advance_outbound :
    PeerManager
    → PendingOutbound
    → Awaited
    → List PeerEvent
    → HandshakeResult × PendingOutbound × PeerManager × List PeerEvent
advance_outbound m p a out = advance_phase p.phase m p a out
