-- ===== src/Peers/History.antt =====
-- The availability counts over any history of timely changes to the peers, from the constructor of
-- src/runtime/managers/peer_manager.cpp on.
use torrent_peer.Prelude.{
  ℕ, ◌%◌, ◌^◌, ◌≤◌, ◌-◌, ◌≡◌, sym, ◌∙◌, Bool, List, [], ◌∷◌, length, get_or-replicate,
  length-replicate, arith,
}
use torrent_peer.Torrent.{Bytes, TorrentFile}
use torrent_peer.Bitfield.{u32_mod}
use torrent_peer.Peers.{PeerManager}
use torrent_peer.Peers.Sends.{fresh_manager}
use torrent_peer.Peers.Counts.{holders}
use torrent_peer.Peers.Available.{Available, Change, apply, Timely, apply-Available}

unfoldable pub apply_all : PeerManager → List Change → PeerManager
apply_all m [] = m
apply_all m (change ∷ changes) = apply_all (apply m change) changes

-- Every change is timely when it comes.
abbrev pub AllTimely : PeerManager → List Change → Type 0
AllTimely m [] = Unit
AllTimely m (change ∷ changes) = Timely m change × AllTimely (apply m change) changes

apply_all-Available :
    (changes : List Change) (m : PeerManager)
    → Available m
    → AllTimely m changes
    → Available (apply_all m changes)
unfolding apply_all
apply_all-Available [] m v timely = v
apply_all-Available (change ∷ changes) m v timely =
    apply_all-Available changes (apply m change) (apply-Available m change v timely.0) timely.1

fresh-Available :
    (torrent : TorrentFile) (peer_id : Bytes) (listening : Bool) (max_peers : ℕ)
    → length torrent.pieces ≤ u32_mod - 8
    → Available (fresh_manager torrent peer_id listening max_peers)
unfolding holders
fresh-Available torrent peer_id listening max_peers few =
    let n = length torrent.pieces in
    let fits : n % 2 ^ 32 ≡ n = omega (arith, few) in
    record {
      counted = (
        length-replicate n 0 ∙ sym fits,
        λ i less. get_or-replicate n i 0 0 (omega (arith, less, fits)),
      );
      distinct = tt;
      fields = tt;
      few = omega (arith, few);
    }

-- Over any history of joins, drops and messages from the constructor on, with at most 2^32 - 8
-- pieces, if every first bitfield comes before any have of its peer and messages are of bytes,
-- each availability count is the number of connected peers that have the piece, modulo 2^16; no
-- id stands twice and every field is valid.
pub history-Available :
    (torrent : TorrentFile) (peer_id : Bytes) (listening : Bool) (max_peers : ℕ)
    (changes : List Change)
    → length torrent.pieces ≤ u32_mod - 8
    → AllTimely (fresh_manager torrent peer_id listening max_peers) changes
    → Available (apply_all (fresh_manager torrent peer_id listening max_peers) changes)
history-Available torrent peer_id listening max_peers changes few timely =
    apply_all-Available changes (fresh_manager torrent peer_id listening max_peers)
      (fresh-Available torrent peer_id listening max_peers few) timely
