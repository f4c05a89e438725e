-- ===== src/Session/Verdicts.antt =====
-- A block that arrives, from the event to the bans: `on_piece` and `dispatch` of
-- src/runtime/session.cpp.
use torrent_peer.Prelude.{
  ◌<◌, ◌≡◌, refl, sym, ap, subst, ◌∙◌, List, some, length, Result, err, Exception, ◌>>=◌, arith,
  ◌*◌, ◌≢◌, none, ok, inl, inr, Option-cases,
}
use torrent_peer.Torrent.{Bytes, TorrentFile, piece_size, to_u64}
use torrent_peer.Torrent.Layout.{IsTiled}
use torrent_peer.Types.{Block, CompletedPiece}
use torrent_peer.Pieces.{
  BlockStatus, incomplete, rejected, piece_verified, piece_failed, BlockResult, PieceManager,
}
use torrent_peer.Pieces.Invariant.{Inv}
use torrent_peer.Pieces.Filing.{Verdict, refuses, stores, fails, completes, on_block_total}
use torrent_peer.Pieces.Accepted.{length-splice, Accepted-ActiveOk}
use torrent_peer.Bans
use torrent_peer.Bitfield.{Bitfield}
use torrent_peer.Pieces
use torrent_peer.Disk
use torrent_peer.Disk.Slices.{Tiles}
use torrent_peer.Disk.{Slice}
use torrent_peer.Disk.Ranges.{write_piece-Tiles}
use torrent_peer.Peers.{
  EventType, choke_event, unchoke_event, piece_event, dropped_event, request_event, joined_event,
  PeerEvent,
}
use torrent_peer.Peers.Sends
use torrent_peer.Peers.Sending.{broadcast_have-PeersOk}
use torrent_peer.Session.{
  Session, Storage, dispatch_by, save, verdict, filed, on_piece_by, on_piece, dispatch,
}
use torrent_peer.Session.Sound.{
  SessionOk, on_joined-Fine, on_request-Fine, release_all-Fine, Fine, ban_all-Fine,
}

-- A piece that verified is one of the torrent, and whole.
abbrev pub IsWhole : TorrentFile → CompletedPiece → Type 0
IsWhole t p = (p.index < length t.pieces) × (length p.payload ≡ piece_size t p.index)

verified-IsWhole :
    (sha1 : Bytes → Bytes) (t : TorrentFile) (v : IsTiled t) (m m1 : PieceManager) (inv : Inv t m)
    (block : Block) (out : BlockResult)
    → Verdict sha1 t m block out m1
    → out.status ≡ piece_verified
    → IsWhole t out.piece
verified-IsWhole sha1 t v m m1 inv block out (refuses a b c) e = ground (arith, a, e)
verified-IsWhole sha1 t v m m1 inv block out (stores pp a b c d) e = ground (arith, b, e)
verified-IsWhole sha1 t v m m1 inv block out (fails pp a all b c d g) e = ground (arith, b, e)
verified-IsWhole sha1 t v m m1 inv block out (completes pp a all b piece d g h i) e =
    let o = (Accepted-ActiveOk t v m inv block pp a).piece in
    subst (IsWhole t) (sym piece)
      (o.in_range, length-splice pp.payload block.offset block.payload a.inside ∙ o.filled)

-- Where `write_piece` writes a whole piece of the torrent: to slices that tile it in its files.
pub record Placed (s : Session) (piece : CompletedPiece) (ss : List Slice) : Type 0 where
  pub whole : IsWhole s.torrent piece
  pub slices : Disk.write_piece s.disk piece ≡ ok ss
  pub tiles : Tiles (piece.index * to_u64 s.disk.torrent.piece_length) (length piece.payload) 0 ss

-- What comes of the verdict on a block. A verified piece is written, whole and in its place, and
-- what that write throws is thrown; in all other cases nothing is thrown.
pub data Judged (io : Storage) (s : Session) (piece : CompletedPiece) (have : Bitfield)
    (r : Result Session) : BlockStatus → Type 0 where
  unfinished :
      (status : BlockStatus)
      → status ≢ piece_verified
      → Fine have r
      → Judged io s piece have r status
  saved :
      (ss : List Slice)
      → Placed s piece ss
      → io.write ss piece.payload ≡ none
      → Fine have r
      → Judged io s piece have r piece_verified
  lost :
      (ss : List Slice) (e : Exception)
      → Placed s piece ss
      → io.write ss piece.payload ≡ some e
      → r ≡ err e
      → Judged io s piece have r piece_verified

-- What comes of an event: of a block, what its verdict leads to, and else a session in order.
pub data Outcome (sha1 : Bytes → Bytes) (io : Storage) (s : Session) (ev : PeerEvent)
    (r : Result Session) : EventType → Type 0 where
  plain : (t : EventType) → t ≢ piece_event → Fine s.pieces.have_ r → Outcome sha1 io s ev r t
  block :
      (out : BlockResult) (pieces : PieceManager)
      → Pieces.on_block sha1 s.torrent s.pieces ev.block ≡ ok (out, pieces)
      → Verdict sha1 s.torrent s.pieces ev.block out pieces
      → Judged io s out.piece pieces.have_ r out.status
      → Outcome sha1 io s ev r piece_event

module _ (sha1 : Bytes → Bytes) (io : Storage) (f : Session → PeerEvent → Result Session) where
  -- What follows the write of a verified piece.
  announced-Fine :
      (s : Session) (piece : CompletedPiece) (ss : List Slice)
      → SessionOk s
      → Disk.write_piece s.disk piece ≡ ok ss
      → io.write ss piece.payload ≡ none
      → Fine s.pieces.have_ (verdict sha1 io f s piece piece_verified)
  unfolding verdict save
  announced-Fine s piece ss v e fine =
      let (hosts, bans) = Bans.on_piece_verified s.bans piece in
      let peers = Sends.broadcast_have s.peers piece.index in
      let (s1, run, v1, have) =
        ban_all-Fine sha1 io f hosts (record s { peers = peers; bans = bans })
          (record {
            tiled = v.tiled;
            same_torrent = v.same_torrent;
            files = v.files;
            pieces_ok = v.pieces_ok;
            peers_ok = broadcast_have-PeersOk s.peers piece.index v.peers_ok;
          }) in
      (s1, ground (arith, e, fine, run), v1, have)

  verified-Judged :
      (s : Session) (piece : CompletedPiece)
      → SessionOk s
      → IsWhole s.torrent piece
      → Judged io s piece s.pieces.have_ (verdict sha1 io f s piece piece_verified) piece_verified
  unfolding verdict save
  verified-Judged s piece v whole =
      let (at, size) = subst (λ t. IsWhole t piece) (sym v.same_torrent) whole in
      let (ss, e, tiles) = write_piece-Tiles s.disk v.files piece at size in
      let placed : Placed s piece ss = record { whole = whole; slices = e; tiles = tiles } in
      elim (Option-cases (io.write ss piece.payload)) [
        | inr (x, threw) ↦ lost ss x placed threw (ground (arith, e, threw))
        | inl fine ↦ saved ss placed fine (announced-Fine s piece ss v e fine)
      ]

  failed-Fine :
      (s : Session) (piece : CompletedPiece)
      → SessionOk s
      → Fine s.pieces.have_ (verdict sha1 io f s piece piece_failed)
  unfolding verdict
  failed-Fine s piece v =
      let (hosts, bans) = Bans.on_piece_failed s.bans piece in
      ban_all-Fine sha1 io f hosts (record s { bans = bans })
        (record {
          tiled = v.tiled;
          same_torrent = v.same_torrent;
          files = v.files;
          pieces_ok = v.pieces_ok;
          peers_ok = v.peers_ok;
        })

  filed-SessionOk :
      (s : Session) (ev : PeerEvent) (status : BlockStatus) (pieces : PieceManager)
      → SessionOk s
      → Inv s.torrent pieces
      → SessionOk (filed s ev status pieces)
  filed-SessionOk s ev status pieces v inv = at status
    where
      at : (b : BlockStatus) → SessionOk (filed s ev b pieces)
      at rejected = record {
        tiled = v.tiled;
        same_torrent = v.same_torrent;
        files = v.files;
        pieces_ok = inv;
        peers_ok = v.peers_ok;
      }
      at incomplete = record {
        tiled = v.tiled;
        same_torrent = v.same_torrent;
        files = v.files;
        pieces_ok = inv;
        peers_ok = v.peers_ok;
      }
      at piece_verified = record {
        tiled = v.tiled;
        same_torrent = v.same_torrent;
        files = v.files;
        pieces_ok = inv;
        peers_ok = v.peers_ok;
      }
      at piece_failed = record {
        tiled = v.tiled;
        same_torrent = v.same_torrent;
        files = v.files;
        pieces_ok = inv;
        peers_ok = v.peers_ok;
      }

  verdict-Judged :
      (s : Session) (ev : PeerEvent) (pieces : PieceManager) (piece : CompletedPiece)
      (status : BlockStatus)
      → SessionOk (filed s ev status pieces)
      → (status ≡ piece_verified → IsWhole s.torrent piece)
      → Judged io s piece pieces.have_
          (verdict sha1 io f (filed s ev status pieces) piece status)
          status
  unfolding verdict
  verdict-Judged s ev pieces piece rejected v whole =
      unfinished rejected (λ e. cc) (filed s ev rejected pieces, refl, v, refl)
  verdict-Judged s ev pieces piece incomplete v whole =
      unfinished incomplete (λ e. cc) (filed s ev incomplete pieces, refl, v, refl)
  verdict-Judged s ev pieces piece piece_verified v whole =
      elim (verified-Judged (filed s ev piece_verified pieces) piece v (whole refl)) [
        | unfinished b n h ↦ unfinished b n h
        | saved ss p e h ↦
            saved ss (record { whole = p.whole; slices = p.slices; tiles = p.tiles }) e h
        | lost ss x p e h ↦
            lost ss x (record { whole = p.whole; slices = p.slices; tiles = p.tiles }) e h
      ]
  verdict-Judged s ev pieces piece piece_failed v whole =
      unfinished piece_failed (λ e. cc) (failed-Fine (filed s ev piece_failed pieces) piece v)

  on_piece_by-Outcome :
      (s : Session) (ev : PeerEvent)
      → SessionOk s
      → Outcome sha1 io s ev (on_piece_by sha1 io f s ev) piece_event
  unfolding on_piece_by
  on_piece_by-Outcome s ev v =
      let (out, pieces, e, inv, given) =
        on_block_total s.torrent v.tiled s.pieces v.pieces_ok ev.block sha1 in
      let judged =
        verdict-Judged s ev pieces out.piece out.status
          (filed-SessionOk s ev out.status pieces v inv)
          (verified-IsWhole sha1 s.torrent v.tiled s.pieces pieces v.pieces_ok ev.block out
            given) in
      subst (λ r. Outcome sha1 io s ev r piece_event) (sym (ap (λ r. r >>= next) e))
        (block out pieces e given judged)
    where
      next : BlockResult × PieceManager → Result Session
      next (out, pieces) = verdict sha1 io f (filed s ev out.status pieces) out.piece out.status

dispatch_by-Outcome :
    (sha1 : Bytes → Bytes) (io : Storage) (s : Session) (ev : PeerEvent) (t : EventType)
    → SessionOk s
    → Outcome sha1 io s ev (dispatch_by sha1 io (on_piece sha1 io 1) s ev t) t
unfolding dispatch_by on_piece
dispatch_by-Outcome sha1 io s ev joined_event v =
    plain joined_event (λ e. cc) (on_joined-Fine s ev v)
dispatch_by-Outcome sha1 io s ev piece_event v =
    on_piece_by-Outcome sha1 io (on_piece sha1 io 0) s ev v
dispatch_by-Outcome sha1 io s ev request_event v =
    plain request_event (λ e. cc) (on_request-Fine io s ev v)
dispatch_by-Outcome sha1 io s ev choke_event v =
    plain choke_event (λ e. cc) (release_all-Fine s ev v)
dispatch_by-Outcome sha1 io s ev dropped_event v =
    plain dropped_event (λ e. cc) (release_all-Fine s ev v)
dispatch_by-Outcome sha1 io s ev unchoke_event v = plain unchoke_event (λ e. cc) (s, refl, v, refl)

-- For a session whose managers are in order, whose files are laid over a tiled torrent and whose
-- disk has that torrent, dispatching an event of a peer other than a block throws nothing, leaves
-- the managers in order and the pieces that the session has as they are. For a block, the verdict
-- is that of on_block. On a verified piece, which is in range and whole, write_piece finds slices
-- that tile the range of the piece in its files, and dispatch throws just what the write of its
-- payload to those slices throws, and else leaves the managers in order with the pieces had that
-- on_block gives. On any other verdict dispatch throws nothing and leaves the managers in order
-- with the pieces had that on_block gives.
pub dispatch-Outcome :
    (sha1 : Bytes → Bytes) (io : Storage) (s : Session) (ev : PeerEvent)
    → SessionOk s
    → Outcome sha1 io s ev (dispatch sha1 io s ev) ev.type
unfolding dispatch
dispatch-Outcome sha1 io s ev v = dispatch_by-Outcome sha1 io s ev ev.type v
