-- ===== src/Session/Sound.antt =====
-- The events of the peers keep the managers in order, `dispatch` of src/runtime/session.cpp.
use torrent_peer.Prelude.{
  ℕ, ◌≡◌, refl, ap, ◌∙◌, List, [], ◌∷◌, Option, none, some, Result, ok, err, ◌>>=◌, arith, All,
  All-append, inl, inr, Bool-cases,
}
use torrent_peer.Prelude.Map.{find}
use torrent_peer.Torrent.{Bytes}
use torrent_peer.Bitfield.{Bitfield}
use torrent_peer.Types.{BlockRequest}
use torrent_peer.Torrent.Layout.{IsTiled}
use torrent_peer.Pieces
use torrent_peer.Pieces.{
  BlockStatus, incomplete, rejected, piece_verified, piece_failed, BlockResult, PieceManager,
}
use torrent_peer.Pieces.Invariant.{Inv, release-Inv}
use torrent_peer.Disk
use torrent_peer.Disk.{Slice}
use torrent_peer.Disk.Ranges.{IsOpen}
use torrent_peer.Wire.{is_banned}
use torrent_peer.Peers
use torrent_peer.Peers.{
  EventType, choke_event, unchoke_event, piece_event, dropped_event, request_event, joined_event,
  PeerEvent, PeerConnection,
}
use torrent_peer.Peers.Sends
use torrent_peer.Peers.Sends.{dropped, drop_peer, drop_all, ids_at}
use torrent_peer.Peers.Invariant.{PeersOk}
use torrent_peer.Peers.Sending.{
  ban-PeersOk, send_interested-PeersOk, send_unchoke-PeersOk, send_bitfield-PeersOk,
  send_piece-PeersOk,
}
use torrent_peer.Session.{
  Session, Storage, hello, greet, answer, on_request, release_all, known_host, on_joined,
  dispatch_by, dispatch_all, ban, ban_all,
}

-- The managers are in order, and agree on the torrent.
pub record SessionOk (s : Session) : Type 0 where
  pub tiled : IsTiled s.torrent
  pub same_torrent : s.disk.torrent ≡ s.torrent
  pub files : IsOpen s.disk
  pub pieces_ok : Inv s.torrent s.pieces
  pub peers_ok : PeersOk s.peers

-- A session that differs in its peers, its pieces and what it counts.
pub with_peers :
    (s : Session) (p : Peers.PeerManager)
    → SessionOk s
    → PeersOk p
    → SessionOk (record s { peers = p })
with_peers s p v w = record {
  tiled = v.tiled;
  same_torrent = v.same_torrent;
  files = v.files;
  pieces_ok = v.pieces_ok;
  peers_ok = w;
}

hello-PeersOk : (s : Session) (id : ℕ) → SessionOk s → PeersOk (hello s id)
hello-PeersOk s id v =
    send_unchoke-PeersOk (Sends.send_bitfield s.peers id s.pieces.have_) id
      (send_bitfield-PeersOk s.peers id s.pieces.have_ v.peers_ok)

greet-SessionOk : (s : Session) (id : ℕ) → SessionOk s → SessionOk (greet s id)
unfolding greet
greet-SessionOk s id v = elim (Bool-cases (Pieces.is_complete s.pieces)) [
  | inl e ↦ simp e (with_peers s (hello s id) v (hello-PeersOk s id v))
  | inr e ↦
      simp e (with_peers s _ v (send_interested-PeersOk (hello s id) id (hello-PeersOk s id v)))
]

pub on_joined-SessionOk : (s : Session) (ev : PeerEvent) → SessionOk s → SessionOk (on_joined s ev)
unfolding on_joined
on_joined-SessionOk s ev v =
    greet-SessionOk (known_host s ev (find s.peers.conns ev.peer_id)) ev.peer_id
      (at (find s.peers.conns ev.peer_id))
  where
    at : (o : Option PeerConnection) → SessionOk (known_host s ev o)
    at none = v
    at (some c) = record {
      tiled = v.tiled;
      same_torrent = v.same_torrent;
      files = v.files;
      pieces_ok = v.pieces_ok;
      peers_ok = v.peers_ok;
    }

answer-SessionOk :
    (s : Session) (ev : PeerEvent) (r : Result Bytes) → SessionOk s → SessionOk (answer s ev r)
answer-SessionOk s ev (err e) v = v
answer-SessionOk s ev (ok payload) v = record {
  tiled = v.tiled;
  same_torrent = v.same_torrent;
  files = v.files;
  pieces_ok = v.pieces_ok;
  peers_ok =
      send_piece-PeersOk s.peers ev.peer_id ev.req.piece_index ev.req.offset payload v.peers_ok;
}

pub on_request-SessionOk :
    (io : Storage) (s : Session) (ev : PeerEvent) → SessionOk s → SessionOk (on_request io s ev)
unfolding on_request
on_request-SessionOk io s ev v = ground (
  arith,
  v,
  answer-SessionOk s ev
      (Disk.read_block s.disk ev.req.piece_index ev.req.offset ev.req.length >>= io.read) v,
)

pub release_all-SessionOk :
    (s : Session) (ev : PeerEvent) → SessionOk s → SessionOk (release_all s ev)
unfolding release_all
release_all-SessionOk s ev v = record {
  tiled = v.tiled;
  same_torrent = v.same_torrent;
  files = v.files;
  pieces_ok = release-Inv s.torrent v.tiled s.pieces ev.released v.pieces_ok;
  peers_ok = v.peers_ok;
}

-- The events of a ban.
abbrev Drops : List PeerEvent → Type 0
Drops evs = All (λ ev. ev.type ≡ dropped_event) evs

drop_peer-Drops :
    (m : Peers.PeerManager) (id : ℕ) (out : List PeerEvent)
    → Drops out
    → Drops (drop_peer m id out).1
unfolding drop_peer
drop_peer-Drops m id out h = at (find m.conns id)
  where
    at : (o : Option PeerConnection) → Drops (dropped m id out o).1
    at none = h
    at (some c) = All-append (λ ev. ev.type ≡ dropped_event) out _ h (refl, tt)

drop_all-Drops :
    (ids : List ℕ) (m : Peers.PeerManager) (out : List PeerEvent)
    → Drops out
    → Drops (drop_all m ids out).1
unfolding drop_all
drop_all-Drops [] m out h = h
drop_all-Drops (id ∷ ids) m out h =
    drop_all-Drops ids (drop_peer m id out).0 (drop_peer m id out).1 (drop_peer-Drops m id out h)

ban-Drops : (m : Peers.PeerManager) (host : Bytes) → Drops (Sends.ban m host).1
unfolding Sends.ban
ban-Drops m host = elim (Bool-cases (is_banned m.banned host)) [
  | inl e ↦ simp e tt
  | inr e ↦
      simp e (drop_all-Drops (ids_at host m.conns) (record m { banned = host ∷ m.banned }) [] tt)
]

-- A result without an exception, in order, that has the pieces of a bitfield.
abbrev pub Fine : Bitfield → Result Session → Type 0
Fine have r = (s1 : Session) × (r ≡ ok s1) × SessionOk s1 × (s1.pieces.have_ ≡ have)

-- The events that are no blocks change nothing about the pieces that the session has.
release_have :
    (reqs : List BlockRequest) (m : PieceManager) → (Pieces.release m reqs).have_ ≡ m.have_
unfolding Pieces.release Pieces.release_one
release_have [] m = refl
release_have (r ∷ rs) m =
    let one : (Pieces.release_one m r).have_ ≡ m.have_ = ground arith in
    release_have rs (Pieces.release_one m r) ∙ one

pub release_all-Fine :
    (s : Session) (ev : PeerEvent) → SessionOk s → Fine s.pieces.have_ (ok (release_all s ev))
unfolding release_all
release_all-Fine s ev v =
    (release_all s ev, refl, release_all-SessionOk s ev v, release_have ev.released s.pieces)

greet_have : (s : Session) (id : ℕ) → (greet s id).pieces.have_ ≡ s.pieces.have_
unfolding greet
greet_have s id = elim (Bool-cases (Pieces.is_complete s.pieces)) [
  | inl e ↦ simp e refl
  | inr e ↦ simp e refl
]

pub on_joined-Fine :
    (s : Session) (ev : PeerEvent) → SessionOk s → Fine s.pieces.have_ (ok (on_joined s ev))
unfolding on_joined
on_joined-Fine s ev v =
    (on_joined s ev, refl, on_joined-SessionOk s ev v, greet_have _ ev.peer_id ∙ at _)
  where
    at : (o : Option PeerConnection) → (known_host s ev o).pieces.have_ ≡ s.pieces.have_
    at none = refl
    at (some c) = refl

answer_have : (s : Session) (ev : PeerEvent) (r : Result Bytes) → (answer s ev r).pieces ≡ s.pieces
answer_have s ev (err e) = refl
answer_have s ev (ok payload) = refl

pub on_request-Fine :
    (io : Storage) (s : Session) (ev : PeerEvent)
    → SessionOk s
    → Fine s.pieces.have_ (ok (on_request io s ev))
unfolding on_request
on_request-Fine io s ev v =
    let read = Disk.read_block s.disk ev.req.piece_index ev.req.offset ev.req.length >>= io.read in
    let same : (on_request io s ev).pieces ≡ s.pieces = ground (arith, answer_have s ev read) in
    (on_request io s ev, refl, on_request-SessionOk io s ev v, ap (λ m. m.have_) same)

module _ (sha1 : Bytes → Bytes) (io : Storage) (f : Session → PeerEvent → Result Session) where
  dispatch_all-Fine :
      (evs : List PeerEvent) (s : Session)
      → Drops evs
      → SessionOk s
      → Fine s.pieces.have_ (dispatch_all sha1 io f s evs)
  unfolding dispatch_all dispatch_by release_all
  dispatch_all-Fine [] s h v = (s, refl, v, refl)
  dispatch_all-Fine (ev ∷ evs) s h v =
      let (s1, e, v1, have) =
        dispatch_all-Fine evs (release_all s ev) h.1 (release_all-SessionOk s ev v) in
      (
        s1,
        ap (λ t. dispatch_by sha1 io f s ev t >>= λ s2. dispatch_all sha1 io f s2 evs) h.0 ∙ e,
        v1,
        have ∙ release_have ev.released s.pieces,
      )

  ban-Fine : (s : Session) (host : Bytes) → SessionOk s → Fine s.pieces.have_ (ban sha1 io f s host)
  unfolding ban
  ban-Fine s host v = elim (Bool-cases (is_banned s.peers.banned host)) [
    | inl e ↦ (s, ground (arith, e), v, refl)
    | inr e ↦
        let made = Sends.ban s.peers host in
        let (s1, run, v1, have) =
          dispatch_all-Fine made.1 (record s { peers = made.0 }) (ban-Drops s.peers host)
            (with_peers s made.0 v (ban-PeersOk s.peers host v.peers_ok)) in
        (s1, ground (arith, e, run), v1, have)
  ]

  pub ban_all-Fine :
      (hosts : List Bytes) (s : Session)
      → SessionOk s
      → Fine s.pieces.have_ (ban_all sha1 io f s hosts)
  unfolding ban_all
  ban_all-Fine [] s v = (s, refl, v, refl)
  ban_all-Fine (host ∷ hosts) s v =
      let (s1, e, v1, have) = ban-Fine s host v in
      let (s2, e2, v2, have2) = ban_all-Fine hosts s1 v1 in
      (s2, ap (λ r. r >>= λ x. ban_all sha1 io f x hosts) e ∙ e2, v2, have2 ∙ have)
