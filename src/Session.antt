-- ===== src/Session.antt =====
-- src/runtime/session.hpp and session.cpp: what the session does with the events of its peers. The
-- managers are those of the other modules.
pub mod Sound
pub mod Verdicts
mod Tests
use torrent_peer.Prelude.{
  ℕ, zero, suc, ◌+◌, ◌%◌, ◌^◌, Bool, true, false, not, ◌&&◌, ◌||◌, List, [], ◌∷◌, ◌++◌, Option,
  none, some, ltb, leb, ◌==◌, if◌then◌else◌, length, Result, ok, err, Exception, runtime_error,
  ◌>>=◌, ◌>>◌,
}
use torrent_peer.Prelude.Map.{Map, find, assign}
use torrent_peer.Torrent.{Bytes, TorrentFile, u64_mod}
use torrent_peer.Types.{Peer, Block, BlockRequest, CompletedPiece, PendingRequest, take_stale}
use torrent_peer.Bitfield
use torrent_peer.Pieces
use torrent_peer.Pieces.{
  BlockStatus, incomplete, rejected, piece_verified, piece_failed, BlockResult,
}
use torrent_peer.Bans
use torrent_peer.Bans.{BanManager}
use torrent_peer.Disk
use torrent_peer.Disk.{DiskManager, Slice}
use torrent_peer.Wire.{is_banned}
use torrent_peer.Tracker.{TrackerManager}
use torrent_peer.Peers
use torrent_peer.Peers.{
  EventType, choke_event, unchoke_event, piece_event, dropped_event, request_event, joined_event,
  PeerEvent, PeerConnection,
}
use torrent_peer.Peers.Sends
use torrent_peer.Tracker.Manager

pub record Session : Type 0 where
  pub torrent : TorrentFile
  pub disk : DiskManager
  pub pieces : Pieces.PieceManager
  pub peers : Peers.PeerManager
  pub bans : BanManager
  pub trackers : TrackerManager
  pub use_trackers : Bool
  pub completed : Bool
  pub downloaded : ℕ
  pub uploaded : ℕ

-- The system behind the disk: what writing the slices of a buffer throws, and what reading them gives.
pub record Storage : Type 0 where
  pub write : List Slice → Bytes → Option Exception
  pub read : List Slice → Result Bytes

-- `greet`
abbrev pub hello : Session → ℕ → Peers.PeerManager
hello s id = Sends.send_unchoke (Sends.send_bitfield s.peers id s.pieces.have_) id

unfoldable pub greet : Session → ℕ → Session
greet s id =
    if Pieces.is_complete s.pieces
    then record s { peers = hello s id }
    else record s { peers = Sends.send_interested (hello s id) id }

abbrev pub has_queue : Option PeerConnection → Bool
has_queue none = false
has_queue (some c) = Peers.can_queue c.outbox

abbrev pub answer : Session → PeerEvent → Result Bytes → Session
answer s ev (err e) = s
answer s ev (ok payload) = record s {
  peers = Sends.send_piece s.peers ev.peer_id ev.req.piece_index ev.req.offset payload;
  uploaded = (s.uploaded + length payload) % u64_mod;
}

unfoldable pub on_request : Storage → Session → PeerEvent → Session
on_request io s ev =
    if not (Bitfield.get s.pieces.have_ ev.req.piece_index)
    then s
    else if not (has_queue (find s.peers.conns ev.peer_id))
    then s
    else answer s ev
        (Disk.read_block s.disk ev.req.piece_index ev.req.offset ev.req.length >>= io.read)

unfoldable pub release_all : Session → PeerEvent → Session
release_all s ev = record s { pieces = Pieces.release s.pieces ev.released }

-- The case `Joined` of `dispatch`.
abbrev pub known_host : Session → PeerEvent → Option PeerConnection → Session
known_host s ev none = s
known_host s ev (some c) = record s { bans = Bans.on_join s.bans ev.peer_id c.peer.host }

unfoldable pub on_joined : Session → PeerEvent → Session
on_joined s ev = greet (known_host s ev (find s.peers.conns ev.peer_id)) ev.peer_id

abbrev pub is_rejected : BlockStatus → Bool
is_rejected incomplete = false
is_rejected rejected = true
is_rejected piece_verified = false
is_rejected piece_failed = false

-- The session when the piece manager has filed a block: it is counted, and its sender recorded, unless
-- it is rejected.
abbrev pub filed : Session → PeerEvent → BlockStatus → Pieces.PieceManager → Session
filed s ev status pieces =
    let s1 = record s {
      downloaded = (s.downloaded + length ev.block.payload) % u64_mod;
      pieces = pieces;
    } in
    if is_rejected status
    then s1
    else record s1 { bans = Bans.on_block s1.bans ev.peer_id ev.block }

module _ (sha1 : Bytes → Bytes) (io : Storage) where
  -- The cases of `dispatch`, with what is done for a block.
  unfoldable pub dispatch_by :
      (Session → PeerEvent → Result Session) → Session → PeerEvent → EventType → Result Session
  dispatch_by on_piece s ev joined_event = ok (on_joined s ev)
  dispatch_by on_piece s ev piece_event = on_piece s ev
  dispatch_by on_piece s ev request_event = ok (on_request io s ev)
  dispatch_by on_piece s ev choke_event = ok (release_all s ev)
  dispatch_by on_piece s ev dropped_event = ok (release_all s ev)
  dispatch_by on_piece s ev unchoke_event = ok s

  -- The loop of `ban` over the events.
  unfoldable pub dispatch_all :
      (Session → PeerEvent → Result Session) → Session → List PeerEvent → Result Session
  dispatch_all on_piece s [] = ok s
  dispatch_all on_piece s (ev ∷ evs) = do
    s1 ← dispatch_by on_piece s ev ev.type
    dispatch_all on_piece s1 evs

  unfoldable pub ban : (Session → PeerEvent → Result Session) → Session → Bytes → Result Session
  ban on_piece s host =
      if is_banned s.peers.banned host
      then ok s
      else let (peers, evs) = Sends.ban s.peers host in
        dispatch_all on_piece (record s { peers = peers }) evs

  unfoldable pub ban_all :
      (Session → PeerEvent → Result Session) → Session → List Bytes → Result Session
  ban_all on_piece s [] = ok s
  ban_all on_piece s (host ∷ hosts) = do s1 ← ban on_piece s host; ban_all on_piece s1 hosts

  -- `write_piece` with its system calls.
  abbrev pub written : Option Exception → Session → Result Session
  written none s = ok s
  written (some e) s = err e

  unfoldable pub save : Session → CompletedPiece → Result Session
  save s piece = do
    slices ← Disk.write_piece s.disk piece
    written (io.write slices piece.payload) s

  -- What follows the verdict on a block.
  unfoldable pub verdict :
      (Session → PeerEvent → Result Session)
      → Session
      → CompletedPiece
      → BlockStatus
      → Result Session
  verdict on_piece s piece rejected = ok s
  verdict on_piece s piece incomplete = ok s
  verdict on_piece s piece piece_verified = do
    s1 ← save s piece
    let (hosts, bans) = Bans.on_piece_verified s1.bans piece
    ban_all on_piece (record s1 { peers = Sends.broadcast_have s1.peers piece.index; bans = bans })
        hosts
  verdict on_piece s piece piece_failed =
      let (hosts, bans) = Bans.on_piece_failed s.bans piece in
      ban_all on_piece (record s { bans = bans }) hosts

  -- `on_piece`, with the `on_piece` of the events that its bans give.
  unfoldable pub on_piece_by :
      (Session → PeerEvent → Result Session) → Session → PeerEvent → Result Session
  on_piece_by on_piece s ev = do
    (out, pieces) ← Pieces.on_block sha1 s.torrent s.pieces ev.block
    verdict on_piece (filed s ev out.status pieces) out.piece out.status

  -- `on_piece` and `dispatch` call each other through `ban`; `depth` bounds how often.
  unfoldable pub on_piece : ℕ → Session → PeerEvent → Result Session
  on_piece zero s ev = err (runtime_error "depth")
  on_piece (suc depth) s ev = on_piece_by (on_piece depth) s ev

  -- The events of a ban are drops, so one call of `on_piece` is as deep as it gets.
  unfoldable pub dispatch : Session → PeerEvent → Result Session
  dispatch s ev = dispatch_by (on_piece 1) s ev ev.type
