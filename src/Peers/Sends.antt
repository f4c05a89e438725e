-- ===== src/Peers/Sends.antt =====
-- What the session asks of a peer, and how connections come and go, in
-- src/runtime/managers/peer_manager.cpp.
use torrent_peer.Prelude.{
  ℕ, ◌+◌, ◌%◌, ◌^◌, Bool, true, false, not, List, [], ◌∷◌, ◌++◌, Option, none, some, ◌==◌,
  if◌then◌else◌, length, replicate, same_bytes, Result, ok, runtime_error, throw_if, ◌>>◌,
}
use torrent_peer.Prelude.Map.{Map, find, assign, emplace, erase}
use torrent_peer.Torrent.{Bytes, TorrentFile}
use torrent_peer.Types.{Peer, BlockRequest}
use torrent_peer.Bitfield
use torrent_peer.Bitfield.{Bitfield}
use torrent_peer.Wire.{
  htonl, requests_of, build_message, build_request, build_piece, enqueue, is_banned,
}
use torrent_peer.Peers.{
  dropped_event, joined_event, PeerEvent, PeerConnection, PeerManager, down, apply_availability,
}
use torrent_peer.Peers.Messages.{event_of}

-- `known_.insert`, `known_.erase` and `key`.
unfoldable pub remember : Bytes → List Bytes → List Bytes
remember k ks = if is_banned ks k then ks else k ∷ ks

unfoldable pub forget : Bytes → List Bytes → List Bytes
forget k [] = []
forget k (x ∷ xs) = let rest = forget k xs in if same_bytes x k then rest else x ∷ rest

abbrev pub key : Peer → Bytes
key p = p.host ++ b':' ∷ p.port

abbrev pub queue : PeerConnection → Bytes → PeerConnection
queue c msg = record c { outbox = enqueue c.outbox msg }

-- The manager with the connection of `id` changed, if there is one.
abbrev pub changed :
    PeerManager → ℕ → (PeerConnection → PeerConnection) → Option PeerConnection → PeerManager
changed m id f none = m
changed m id f (some c) = record m { conns = assign m.conns id (f c) }

unfoldable pub at_peer : PeerManager → ℕ → (PeerConnection → PeerConnection) → PeerManager
at_peer m id f = changed m id f (find m.conns id)

unfoldable pub send_to : PeerManager → ℕ → Bytes → PeerManager
send_to m id msg = at_peer m id (λ c. queue c msg)

unfoldable pub send_keep_alive : PeerManager → ℕ → PeerManager
send_keep_alive m id = send_to m id (replicate 4 0)

unfoldable pub send_interested : PeerManager → ℕ → PeerManager
send_interested m id =
    at_peer m id (λ c. queue (record c { am_interested = true }) (build_message 2 []))

unfoldable pub send_choke : PeerManager → ℕ → PeerManager
send_choke m id = at_peer m id (λ c. queue (record c { am_choking = true }) (build_message 0 []))

unfoldable pub send_unchoke : PeerManager → ℕ → PeerManager
send_unchoke m id =
    send_to (at_peer m id (λ c. record c { am_choking = false })) id (build_message 1 [])

unfoldable pub send_bitfield : PeerManager → ℕ → Bitfield → PeerManager
send_bitfield m id our_have = send_to m id (build_message 5 our_have.bytes)

unfoldable pub send_piece : PeerManager → ℕ → ℕ → ℕ → Bytes → PeerManager
send_piece m id index begin payload = send_to m id (build_piece index begin payload)

unfoldable pub send_request : PeerManager → ℕ → BlockRequest → ℕ → PeerManager
send_request m id req now =
    send_to
      (at_peer m id
        (λ c. record c { pending = c.pending ++ record { req = req; sent_at = now } ∷ [] }))
      id (build_request req)

unfoldable pub queue_all : Bytes → Map PeerConnection → Map PeerConnection
queue_all msg [] = []
queue_all msg ((id, c) ∷ cs) = (id, queue c msg) ∷ queue_all msg cs

unfoldable pub broadcast_have : PeerManager → ℕ → PeerManager
broadcast_have m index = record m { conns = queue_all (build_message 4 (htonl index)) m.conns }

-- `drop` of a connection that is there.
abbrev pub dropped :
    PeerManager → ℕ → List PeerEvent → Option PeerConnection → PeerManager × List PeerEvent
dropped m id out none = (m, out)
dropped m id out (some c) = (
  record m {
    piece_frequency = apply_availability c.has_pieces down m.piece_frequency;
    known = forget (key c.peer) m.known;
    conns = erase m.conns id;
  },
  out ++ record (event_of dropped_event id) { released = requests_of c.pending } ∷ [],
)

unfoldable pub drop_peer : PeerManager → ℕ → List PeerEvent → PeerManager × List PeerEvent
drop_peer m id out = dropped m id out (find m.conns id)

unfoldable pub drop_all : PeerManager → List ℕ → List PeerEvent → PeerManager × List PeerEvent
drop_all m [] out = (m, out)
drop_all m (id ∷ ids) out = let (m1, out1) = drop_peer m id out in drop_all m1 ids out1

unfoldable pub ids_at : Bytes → Map PeerConnection → List ℕ
ids_at host [] = []
ids_at host ((id, c) ∷ cs) =
    let rest = ids_at host cs in if same_bytes c.peer.host host then id ∷ rest else rest

unfoldable pub ban : PeerManager → Bytes → PeerManager × List PeerEvent
ban m host =
    if is_banned m.banned host
    then (m, [])
    else drop_all (record m { banned = host ∷ m.banned }) (ids_at host m.conns) []

-- A new connection.
unfoldable pub fresh_connection : ℕ → Peer → ℕ → ℕ → PeerConnection
fresh_connection id peer piece_count now = record {
  id = id;
  peer = peer;
  am_choking = true;
  am_interested = false;
  peer_choking = true;
  peer_interested = false;
  got_bitfield = false;
  pending = [];
  snubbed = false;
  last_sent = now;
  last_received = now;
  has_pieces = Bitfield.zeros piece_count;
  read_buffer = [];
  outbox = record { write_buffer = []; queued_bytes = 0; cursor = 0 };
}

-- The id of the connection is the `next_id` that was.
unfoldable pub promote : PeerManager → Peer → ℕ → List PeerEvent → PeerManager × List PeerEvent
promote m peer now out = (
  record m {
    next_id = (m.next_id + 1) % 2 ^ 32;
    conns = emplace m.conns m.next_id (fresh_connection m.next_id peer m.piece_count now);
  },
  out ++ event_of joined_event m.next_id ∷ [],
)

-- A manager that has met nobody.
abbrev pub fresh_manager : TorrentFile → Bytes → Bool → ℕ → PeerManager
fresh_manager torrent peer_id listening max_peers = record {
  conns = [];
  inbound = [];
  outbound = [];
  candidates = [];
  known = [];
  banned = [];
  torrent = torrent;
  peer_id = peer_id;
  piece_count = length torrent.pieces % 2 ^ 32;
  next_id = 0;
  listening = listening;
  max_peers = max_peers;
  piece_frequency = replicate (length torrent.pieces) 0;
}

-- The constructor; `listening` tells whether a listening socket was made.
unfoldable pub make : TorrentFile → Bytes → Bool → ℕ → Result PeerManager
make torrent peer_id listening max_peers = do
  throw_if (not (length peer_id == 20)) (runtime_error "peer_id must be exactly 20 bytes")
  ok (fresh_manager torrent peer_id listening max_peers)
