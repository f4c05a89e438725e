-- ===== src/Peers/Sending.antt =====
-- The messages to peers, and bans, keep the limits: src/runtime/managers/peer_manager.cpp.
use torrent_peer.Prelude.{
  ℕ, suc, ◌<◌, ◌≡◌, refl, sym, ap, subst, ◌∙◌, true, false, [], ◌∷◌, ◌++◌, length, arith,
  Bool-cases, inl, inr,
}
use torrent_peer.Prelude.Map.{Map, Entries}
use torrent_peer.Torrent.{Bytes}
use torrent_peer.Types.{BlockRequest}
use torrent_peer.Bitfield.{Bitfield}
use torrent_peer.Wire.{htonl, build_message, build_request, build_piece, is_banned}
use torrent_peer.Wire.Queued.{IsCoherent}
use torrent_peer.Peers.{PeerConnection, PeerManager}
use torrent_peer.Peers.Sends.{
  at_peer, queue, send_interested, send_choke, send_unchoke, send_bitfield, send_piece,
  send_request, queue_all, broadcast_have, ids_at, ban,
}
use torrent_peer.Peers.Invariant.{
  ConnOk, PeersOk, queue-ConnOk, at_peer-PeersOk, send_to-PeersOk, drop_all-PeersOk,
}

build_message_some : (id : ℕ) (payload : Bytes) → 0 < length (build_message id payload)
unfolding build_message htonl
build_message_some id payload = omega arith

pub ban-PeersOk : (m : PeerManager) (host : Bytes) → PeersOk m → PeersOk (ban m host).0
unfolding ban
ban-PeersOk m host v = elim (Bool-cases (is_banned m.banned host)) [
  | inl e ↦ simp e v
  | inr e ↦ simp e (
      drop_all-PeersOk (ids_at host m.conns) (record m { banned = host ∷ m.banned }) []
        (record {
          own_id = v.own_id;
          capacity = v.capacity;
          half_open = v.half_open;
          waiting = v.waiting;
          each = v.each;
        }))
]

queue_all_lem :
    (n : ℕ) (msg : Bytes) (cs : Map PeerConnection)
    → 0 < length msg
    → Entries (ConnOk n) cs
    → (length (queue_all msg cs) ≡ length cs) × Entries (ConnOk n) (queue_all msg cs)
unfolding queue_all
queue_all_lem n msg [] h v = (refl, tt)
queue_all_lem n msg ((id, c) ∷ cs) h v =
    let (size, each) = queue_all_lem n msg cs h v.1 in
    (ap suc size, (queue-ConnOk n id c msg h v.0, each))

pub broadcast_have-PeersOk :
    (m : PeerManager) (index : ℕ) → PeersOk m → PeersOk (broadcast_have m index)
unfolding broadcast_have
broadcast_have-PeersOk m index v =
    let (size, each) =
      queue_all_lem m.piece_count (build_message 4 (htonl index)) m.conns
        (build_message_some 4 (htonl index)) v.each in
    record {
      own_id = v.own_id;
      capacity = omega (arith, v.capacity, size);
      half_open = v.half_open;
      waiting = v.waiting;
      each = each;
    }

-- A change of a connection's flags or requests.
flags :
    {n id : ℕ} {c c1 : PeerConnection}
    → c1.id ≡ c.id
    → c1.has_pieces ≡ c.has_pieces
    → c1.outbox ≡ c.outbox
    → ConnOk n id c
    → ConnOk n id c1
flags e f g v = record {
  named = e ∙ v.named;
  sized = ap (λ b. b.bits) f ∙ v.sized;
  coherent = subst IsCoherent (sym g) v.coherent;
}

pub send_interested-PeersOk :
    (m : PeerManager) (id : ℕ) → PeersOk m → PeersOk (send_interested m id)
unfolding send_interested
send_interested-PeersOk m id v =
    at_peer-PeersOk m id (λ c. queue (record c { am_interested = true }) (build_message 2 []))
      (λ c g.
        queue-ConnOk m.piece_count id (record c { am_interested = true }) _
          (build_message_some 2 []) (flags refl refl refl g))
      v

pub send_choke-PeersOk : (m : PeerManager) (id : ℕ) → PeersOk m → PeersOk (send_choke m id)
unfolding send_choke
send_choke-PeersOk m id v =
    at_peer-PeersOk m id (λ c. queue (record c { am_choking = true }) (build_message 0 []))
      (λ c g.
        queue-ConnOk m.piece_count id (record c { am_choking = true }) _ (build_message_some 0 [])
          (flags refl refl refl g))
      v

pub send_unchoke-PeersOk : (m : PeerManager) (id : ℕ) → PeersOk m → PeersOk (send_unchoke m id)
unfolding send_unchoke
send_unchoke-PeersOk m id v =
    let v1 =
      at_peer-PeersOk m id (λ c. record c { am_choking = false }) (λ c g. flags refl refl refl g)
        v in
    send_to-PeersOk (at_peer m id (λ c. record c { am_choking = false })) id (build_message 1 [])
      (build_message_some 1 []) v1

pub send_bitfield-PeersOk :
    (m : PeerManager) (id : ℕ) (field : Bitfield) → PeersOk m → PeersOk (send_bitfield m id field)
unfolding send_bitfield
send_bitfield-PeersOk m id field v =
    send_to-PeersOk m id (build_message 5 field.bytes) (build_message_some 5 field.bytes) v

pub send_piece-PeersOk :
    (m : PeerManager) (id index begin : ℕ) (payload : Bytes)
    → PeersOk m
    → PeersOk (send_piece m id index begin payload)
unfolding send_piece build_piece
send_piece-PeersOk m id index begin payload v =
    let body = htonl index ++ htonl begin ++ payload in
    send_to-PeersOk m id (build_message 7 body) (build_message_some 7 body) v

pub send_request-PeersOk :
    (m : PeerManager) (id : ℕ) (req : BlockRequest) (now : ℕ)
    → PeersOk m
    → PeersOk (send_request m id req now)
unfolding send_request build_request
send_request-PeersOk m id req now v =
    let asked =
      at_peer m id
        (λ c. record c { pending = c.pending ++ record { req = req; sent_at = now } ∷ [] }) in
    let v1 : PeersOk asked =
      at_peer-PeersOk m id
        (λ c. record c { pending = c.pending ++ record { req = req; sent_at = now } ∷ [] })
        (λ c g. flags refl refl refl g) v in
    let body = htonl req.piece_index ++ htonl req.offset ++ htonl req.length in
    send_to-PeersOk asked id (build_message 6 body) (build_message_some 6 body) v1
