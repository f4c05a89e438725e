-- ===== src/Peers/Runs.antt =====
-- The peer manager of src/runtime/managers/peer_manager.cpp over any sequence of its operations.
use torrent_peer.Prelude.{
  ℕ, ◌≡◌, refl, ap, ◌∙◌, Bool, List, [], ◌∷◌, length, replicate, ok, Result, ◌>>=◌, arith,
}
use torrent_peer.Torrent.{Bytes, TorrentFile}
use torrent_peer.Types.{Peer, BlockRequest}
use torrent_peer.Bitfield.{Bitfield}
use torrent_peer.Peers.{PeerEvent, PeerManager}
use torrent_peer.Peers.Sends.{
  send_keep_alive, send_interested, send_choke, send_unchoke, send_bitfield, send_piece,
  send_request, broadcast_have, ban, fresh_manager, make,
}
use torrent_peer.Peers.Dials.{Dialler, add_peers}
use torrent_peer.Peers.Events.{Round, handle_events}
use torrent_peer.Peers.Invariant.{PeersOk, send_to-PeersOk}
use torrent_peer.Peers.Upkeep.{add_peers-PeersOk}
use torrent_peer.Peers.Sending.{
  ban-PeersOk, broadcast_have-PeersOk, send_interested-PeersOk, send_choke-PeersOk,
  send_unchoke-PeersOk, send_bitfield-PeersOk, send_piece-PeersOk, send_request-PeersOk,
}
use torrent_peer.Peers.Turns.{handle_events-PeersOk}

-- What the session asks of the manager, with the answers of the system.
pub data Operation : Type 0 where
  rounds : Round → Operation
  adds : List Peer → Dialler → Operation
  bans : Bytes → Operation
  keeps_alive interests chokes unchokes announces : ℕ → Operation
  shows : ℕ → Bitfield → Operation
  gives : ℕ → ℕ → ℕ → Bytes → Operation
  requests : ℕ → BlockRequest → ℕ → Operation

abbrev pub perform : PeerManager → Operation → Result PeerManager
perform m (rounds r) = handle_events m r >>= λ (out : PeerManager × List PeerEvent). ok (out.0)
perform m (adds peers d) = ok (add_peers m peers d)
perform m (bans host) = ok (ban m host).0
perform m (keeps_alive id) = ok (send_keep_alive m id)
perform m (interests id) = ok (send_interested m id)
perform m (chokes id) = ok (send_choke m id)
perform m (unchokes id) = ok (send_unchoke m id)
perform m (announces index) = ok (broadcast_have m index)
perform m (shows id field) = ok (send_bitfield m id field)
perform m (gives id index begin payload) = ok (send_piece m id index begin payload)
perform m (requests id req now) = ok (send_request m id req now)

unfoldable pub run : PeerManager → List Operation → Result PeerManager
run m [] = ok m
run m (op ∷ ops) = perform m op >>= λ m1. run m1 ops

perform_total :
    (m : PeerManager) (op : Operation)
    → PeersOk m
    → (m1 : PeerManager) × (perform m op ≡ ok m1) × PeersOk m1
unfolding send_keep_alive
perform_total m (rounds r) v =
    let (m1, out, e, v1) = handle_events-PeersOk m r v in
    (m1, ap (λ r. r >>= λ (out : PeerManager × List PeerEvent). ok (out.0)) e, v1)
perform_total m (adds peers d) v = (_, refl, add_peers-PeersOk m peers d v)
perform_total m (bans host) v = (_, refl, ban-PeersOk m host v)
perform_total m (keeps_alive id) v = (_, refl, send_to-PeersOk m id (replicate 4 0) (omega arith) v)
perform_total m (interests id) v = (_, refl, send_interested-PeersOk m id v)
perform_total m (chokes id) v = (_, refl, send_choke-PeersOk m id v)
perform_total m (unchokes id) v = (_, refl, send_unchoke-PeersOk m id v)
perform_total m (announces index) v = (_, refl, broadcast_have-PeersOk m index v)
perform_total m (shows id field) v = (_, refl, send_bitfield-PeersOk m id field v)
perform_total m (gives id index begin payload) v =
    (_, refl, send_piece-PeersOk m id index begin payload v)
perform_total m (requests id req now) v = (_, refl, send_request-PeersOk m id req now v)

run_total :
    (ops : List Operation) (m : PeerManager)
    → PeersOk m
    → (m1 : PeerManager) × (run m ops ≡ ok m1) × PeersOk m1
unfolding run
run_total [] m v = (m, refl, v)
run_total (op ∷ ops) m v =
    let (m1, e, v1) = perform_total m op v in
    let (m2, e2, v2) = run_total ops m1 v1 in (m2, ap (λ r. r >>= λ x. run x ops) e ∙ e2, v2)

make_total :
    (torrent : TorrentFile) (peer_id : Bytes) (listening : Bool) (max_peers : ℕ)
    → length peer_id ≡ 20
    → (m : PeerManager) × (make torrent peer_id listening max_peers ≡ ok m) × PeersOk m
unfolding make
make_total torrent peer_id listening max_peers h = (
  fresh_manager torrent peer_id listening max_peers,
  ground (arith, h),
  record {
    own_id = h;
    capacity = omega arith;
    half_open = omega arith;
    waiting = omega arith;
    each = tt;
  },
)

-- With a peer id of 20 bytes, any run of rounds, new candidates, bans and messages to peers on a
-- new peer manager throws nothing and keeps its limits: connections and handshakes together are
-- at most max_peers, dials at most 20, candidates at most 1000; every connection has its own id,
-- a field of one bit for each piece and a coherent queue.
pub run-PeersOk :
    (torrent : TorrentFile) (peer_id : Bytes) (listening : Bool) (max_peers : ℕ)
    (ops : List Operation)
    → length peer_id ≡ 20
    → (m : PeerManager) × ((make torrent peer_id listening max_peers >>= λ m0. run m0 ops) ≡ ok m)
      × PeersOk m
run-PeersOk torrent peer_id listening max_peers ops h =
    let (m0, e0, v0) = make_total torrent peer_id listening max_peers h in
    let (m1, e1, v1) = run_total ops m0 v0 in (m1, ap (λ r. r >>= λ x. run x ops) e0 ∙ e1, v1)
