-- ===== src/Peers/Invariant.antt =====
-- What holds of the peers between two operations of src/runtime/managers/peer_manager.cpp, and the
-- operations on one peer that keep it.
use torrent_peer.Prelude.{
  ℕ, suc, ◌≤◌, ◌<◌, ◌≡◌, sym, subst, ◌∙◌, List, [], ◌∷◌, some, ◌==◌, length, length-append, ok,
  arith, Bool-cases, Option-cases, Result-cases, inl, inr,
}
use torrent_peer.Prelude.Map.{
  Map, find, assign, emplace, erase, Entries, Entries-find, Entries-assign, Entries-erase,
}
use torrent_peer.Torrent.{Bytes}
use torrent_peer.Bitfield
use torrent_peer.Bitfield.{Bitfield}
use torrent_peer.Wire.Queued.{IsCoherent, enqueue-IsCoherent, remove_queued_piece-IsCoherent}
use torrent_peer.Peers.{PeerEvent, PeerConnection, PeerManager}
use torrent_peer.Peers.Messages.{
  MessageId, msg_choke, msg_unchoke, msg_interested, msg_not_interested, msg_have, msg_bitfield,
  msg_request, msg_piece, msg_cancel, msg_unknown, message_id, on_choke, on_unchoke, on_have,
  on_bitfield, on_request, on_piece, on_cancel, on_message, with_field, request_in, handle_in,
  handle_message,
}
use torrent_peer.Peers.Sends.{queue, changed, at_peer, send_to, dropped, drop_peer, drop_all}
use torrent_peer.Peers.Dials.{total, max_half_open, max_candidates}

-- A connection: its own id, a field of one bit for each piece, and a coherent queue.
pub record ConnOk (pieces id : ℕ) (c : PeerConnection) : Type 0 where
  pub named : c.id ≡ id
  pub sized : c.has_pieces.bits ≡ pieces
  pub coherent : IsCoherent c.outbox

-- The limits are kept, and every connection is well formed.
pub record PeersOk (m : PeerManager) : Type 0 where
  pub own_id : length m.peer_id ≡ 20
  pub capacity : total m ≤ m.max_peers
  pub half_open : length m.outbound ≤ max_half_open
  pub waiting : length m.candidates ≤ max_candidates
  pub each : Entries (ConnOk m.piece_count) m.conns

pub length-assign {ℓ} :
    {V : Type ℓ} (m : Map V) (k : ℕ) (v w : V)
    → find m k ≡ some w
    → length (assign m k v) ≡ length m
unfolding assign find
length-assign [] k v w e = ground (arith, e)
length-assign ((j, x) ∷ m) k v w e = elim (Bool-cases (j == k)) [
  | inl hit ↦ ground (arith, hit)
  | inr miss ↦ ground (arith, miss, length-assign m k v w (ground (arith, miss, e)))
]

pub length-erase {ℓ} : {V : Type ℓ} (m : Map V) (k : ℕ) → length (erase m k) ≤ length m
unfolding erase
length-erase [] k = omega arith
length-erase ((j, x) ∷ m) k = ground (arith, length-erase m k)

pub length-emplace {ℓ} :
    {V : Type ℓ} (m : Map V) (k : ℕ) (v : V) → length (emplace m k v) ≤ suc (length m)
unfolding emplace
length-emplace m k v = ground (arith, length-append m ((k, v) ∷ []))

-- A connection that is there is put back in another form.
pub replaced-PeersOk :
    (m : PeerManager) (id : ℕ) (c c1 : PeerConnection) (counts : List ℕ)
    → PeersOk m
    → find m.conns id ≡ some c
    → ConnOk m.piece_count id c1
    → PeersOk (record m { conns = assign m.conns id c1; piece_frequency = counts })
replaced-PeersOk m id c c1 counts v e good = record {
  own_id = v.own_id;
  capacity = ground (arith, v.capacity, length-assign m.conns id c1 c e);
  half_open = v.half_open;
  waiting = v.waiting;
  each = Entries-assign (ConnOk m.piece_count) m.conns id c1 good v.each;
}

pub at_peer-PeersOk :
    (m : PeerManager) (id : ℕ) (f : PeerConnection → PeerConnection)
    → ((c : PeerConnection) → ConnOk m.piece_count id c → ConnOk m.piece_count id (f c))
    → PeersOk m
    → PeersOk (at_peer m id f)
unfolding at_peer
at_peer-PeersOk m id f h v = elim (Option-cases (find m.conns id)) [
  | inl e ↦ subst (λ o. PeersOk (changed m id f o)) (sym e) v
  | inr (c, e) ↦
      subst (λ o. PeersOk (changed m id f o)) (sym e)
        (replaced-PeersOk m id c (f c) m.piece_frequency v e
          (h c (Entries-find (ConnOk m.piece_count) m.conns id v.each e)))
]

pub queue-ConnOk :
    (n id : ℕ) (c : PeerConnection) (msg : Bytes)
    → 0 < length msg
    → ConnOk n id c
    → ConnOk n id (queue c msg)
queue-ConnOk n id c msg h v = record {
  named = v.named;
  sized = v.sized;
  coherent = enqueue-IsCoherent c.outbox v.coherent msg h;
}

pub send_to-PeersOk :
    (m : PeerManager) (id : ℕ) (msg : Bytes)
    → 0 < length msg
    → PeersOk m
    → PeersOk (send_to m id msg)
unfolding send_to
send_to-PeersOk m id msg h v =
    at_peer-PeersOk m id (λ c. queue c msg) (λ c. queue-ConnOk m.piece_count id c msg h) v

from_bytes_bits :
    (raw : Bytes) (bits : ℕ) (field : Bitfield)
    → Bitfield.from_bytes raw bits ≡ ok field
    → field.bits ≡ bits
unfolding Bitfield.from_bytes
from_bytes_bits raw bits field e = ground (arith, e)

-- What a message leaves of its connection.
module _ (n id : ℕ) (c : PeerConnection) (v : ConnOk n id c) (counts : List ℕ)
    (out : List PeerEvent) where
  on_have-ConnOk : (payload : Bytes) → ConnOk n id (on_have c counts out payload).conn
  unfolding on_have Bitfield.set_bit
  on_have-ConnOk payload = ground (arith, v)

  with_field-ConnOk :
      (payload : Bytes)
      → ConnOk n id (with_field c counts out (Bitfield.from_bytes payload c.has_pieces.bits)).conn
  with_field-ConnOk payload = elim (Result-cases (Bitfield.from_bytes payload c.has_pieces.bits)) [
    | inr (e, h) ↦
        subst (λ r. ConnOk n id (with_field c counts out r).conn) (sym h)
          (record { named = v.named; sized = v.sized; coherent = v.coherent })
    | inl (field, h) ↦
        subst (λ r. ConnOk n id (with_field c counts out r).conn) (sym h)
          (record {
            named = v.named;
            sized = from_bytes_bits payload c.has_pieces.bits field h ∙ v.sized;
            coherent = v.coherent;
          })
  ]

  on_bitfield-ConnOk : (payload : Bytes) → ConnOk n id (on_bitfield c counts out payload).conn
  unfolding on_bitfield
  on_bitfield-ConnOk payload = ground (arith, v, with_field-ConnOk payload)

  on_message-ConnOk :
      (k : MessageId) (payload : Bytes) → ConnOk n id (on_message c counts out id k payload).conn
  unfolding on_message on_choke on_unchoke on_request on_piece on_cancel
  on_message-ConnOk msg_choke payload = ground (arith, v)
  on_message-ConnOk msg_unchoke payload = ground (arith, v)
  on_message-ConnOk msg_interested payload = ground (arith, v)
  on_message-ConnOk msg_not_interested payload = ground (arith, v)
  on_message-ConnOk msg_have payload = on_have-ConnOk payload
  on_message-ConnOk msg_bitfield payload = on_bitfield-ConnOk payload
  on_message-ConnOk msg_request payload = ground (arith, v)
  on_message-ConnOk msg_piece payload = ground (arith, v)
  on_message-ConnOk msg_cancel payload =
      let r = request_in payload in
      ground (
        arith,
        v,
        remove_queued_piece-IsCoherent c.outbox v.coherent r.piece_index r.offset r.length,
      )
  on_message-ConnOk msg_unknown payload = v

pub handle_message-PeersOk :
    (m : PeerManager) (id : ℕ) (msg : Bytes) (out : List PeerEvent)
    → PeersOk m
    → PeersOk (handle_message m id msg out).0
unfolding handle_message
handle_message-PeersOk m id msg out v = elim (Option-cases (find m.conns id)) [
  | inl e ↦ subst (λ o. PeersOk (handle_in m id msg out o).0) (sym e) v
  | inr (c, e) ↦ subst (λ o. PeersOk (handle_in m id msg out o).0) (sym e) (found msg c e)
]
  where
    found :
        (msg : Bytes) (c : PeerConnection)
        → find m.conns id ≡ some c
        → PeersOk (handle_in m id msg out (some c)).0
    found [] c e = v
    found (kind ∷ payload) c e =
        let good = Entries-find (ConnOk m.piece_count) m.conns id v.each e in
        let h = on_message c m.piece_frequency out id (message_id kind) payload in
        replaced-PeersOk m id c h.conn h.counts v e (
          on_message-ConnOk m.piece_count id c good m.piece_frequency out (message_id kind) payload)

pub drop_peer-PeersOk :
    (m : PeerManager) (id : ℕ) (out : List PeerEvent) → PeersOk m → PeersOk (drop_peer m id out).0
unfolding drop_peer
drop_peer-PeersOk m id out v = elim (Option-cases (find m.conns id)) [
  | inl e ↦ subst (λ o. PeersOk (dropped m id out o).0) (sym e) v
  | inr (c, e) ↦
      subst (λ o. PeersOk (dropped m id out o).0) (sym e)
        (record {
          own_id = v.own_id;
          capacity = omega (arith, v.capacity, length-erase m.conns id);
          half_open = v.half_open;
          waiting = v.waiting;
          each = Entries-erase (ConnOk m.piece_count) m.conns id v.each;
        })
]

pub drop_all-PeersOk :
    (ids : List ℕ) (m : PeerManager) (out : List PeerEvent)
    → PeersOk m
    → PeersOk (drop_all m ids out).0
unfolding drop_all
drop_all-PeersOk [] m out v = v
drop_all-PeersOk (id ∷ ids) m out v =
    drop_all-PeersOk ids (drop_peer m id out).0 (drop_peer m id out).1
      (drop_peer-PeersOk m id out v)
