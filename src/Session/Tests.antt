-- ===== src/Session/Tests.antt =====
-- A session of the sample torrent that gets a block.
use torrent_peer.Prelude.{
  ℕ, zero, suc, ◌≤◌, ◌≡◌, ◌>>=◌, List, get_or, same_bytes, refl, arith, true, false, [], ◌∷◌, none,
  ok, codes, replicate,
}
use torrent_peer.Torrent.{Bytes}
use torrent_peer.Torrent.Sample.{small, small-IsTiled}
use torrent_peer.Prelude.Map.{contains, find, assign, erase, emplace}
use torrent_peer.Torrent.{piece_size}
use torrent_peer.Bitfield
use torrent_peer.Bitfield.{Bitfield}
use torrent_peer.Pieces
use torrent_peer.Pieces.{piece_verified}
use torrent_peer.Pieces.Choice.{pick_block-Inv}
use torrent_peer.Pieces.Invariant.{Inv, make-Inv}
use torrent_peer.Bans
use torrent_peer.Disk.{DiskManager}
use torrent_peer.Disk.Slices.{IsLaid}
use torrent_peer.Disk.Ranges.{IsOpen}
use torrent_peer.Peers.{piece_event, PeerEvent}
use torrent_peer.Peers.Messages.{event_of}
use torrent_peer.Peers.Sends.{fresh_manager}
use torrent_peer.Tracker.Manager
use torrent_peer.Session.{Session, Storage, dispatch}
use torrent_peer.Session.Sound.{SessionOk}
use torrent_peer.Session.Verdicts.{Outcome, dispatch-Outcome}

abbrev disk : DiskManager
disk = record {
  torrent = small;
  files = record { path = codes "a" ∷ []; offset = 0; length = 12 } ∷ [];
  piece_length = 8;
  total_length = 12;
  piece_count = 2;
}

abbrev storage : Storage
storage = record { write = λ slices payload. none; read = λ slices. ok [] }

abbrev digest : Bytes → Bytes
digest payload = codes "bbbbbbbbbbbbbbbbbbbb"

-- A peer with both pieces, and how many peers have each.
abbrev seed : Bitfield
seed = record { bits = 2; bytes = 192 ∷ [] }

abbrev counts : List ℕ
counts = 3 ∷ 2 ∷ []

counts_small : (i : ℕ) → get_or counts i 0 ≤ 65535
counts_small zero = omega arith
counts_small (suc zero) = omega arith
counts_small (suc (suc i)) = omega arith

-- The pieces when the one block of piece 1 is asked for.
abbrev asked : Pieces.PieceManager
asked = (Pieces.pick_block small (Pieces.make small) seed counts 7 0).1

asked-Inv : Inv small asked
asked-Inv =
    pick_block-Inv small small-IsTiled (Pieces.make small) seed counts 7 0
      (make-Inv small small-IsTiled (omega arith)) counts_small

abbrev session : Session
session = record {
  torrent = small;
  disk = disk;
  pieces = asked;
  peers = fresh_manager small (replicate 20 65) true 60;
  bans = Bans.empty;
  trackers = Manager.make small (replicate 20 65) 6881 1;
  use_trackers = true;
  completed = false;
  downloaded = 0;
  uploaded = 0;
}

disk-IsOpen : IsOpen disk
unfolding IsLaid
disk-IsOpen = record {
  laid = (refl, omega arith, refl);
  tiled = small-IsTiled;
  same_total = refl;
  same_length = refl;
  same_count = refl;
}

session-SessionOk : SessionOk session
session-SessionOk = record {
  tiled = small-IsTiled;
  same_torrent = refl;
  files = disk-IsOpen;
  pieces_ok = asked-Inv;
  peers_ok = record {
    own_id = refl;
    capacity = omega arith;
    half_open = omega arith;
    waiting = omega arith;
    each = tt;
  };
}

abbrev arrived : PeerEvent
arrived = record (event_of piece_event 3) {
  block = record { piece_index = 1; offset = 0; payload = codes "wxyz" };
}

-- The block completes the piece, and its hash is right.
block_verifies :
    (Pieces.on_block digest small asked arrived.block >>= λ out. ok out.0.status)
    ≡ ok piece_verified
unfolding Pieces.make Pieces.pick_block Pieces.pick_active Pieces.rarest Pieces.consider
    Pieces.is_candidate Pieces.start_piece Pieces.fresh_piece Pieces.next_missing
    Pieces.take_missing Pieces.request_for Pieces.on_block Pieces.check_block Pieces.file_block
    Pieces.finish_piece Pieces.verify Pieces.splice Pieces.mark_have Bitfield.get Bitfield.bit_of
    Bitfield.zeros Bitfield.set_bit piece_size contains find assign erase emplace same_bytes
block_verifies = refl

dispatch-Outcome_example :
    Outcome digest storage session arrived (dispatch digest storage session arrived) piece_event
dispatch-Outcome_example = dispatch-Outcome digest storage session arrived session-SessionOk
