-- ===== src/Peers.antt =====
-- src/runtime/managers/peer_manager.hpp: the peers, and the availability counts that rarest-first
-- reads. A socket that is open belongs to the connection; its descriptor is not modelled.
pub mod Availability
pub mod Messages
pub mod Sends
pub mod Dials
pub mod Events
pub mod Invariant
pub mod Rounds
pub mod Outbound
pub mod Upkeep
pub mod Turns
pub mod Fuel
pub mod Counts
pub mod Shares
pub mod Available
pub mod Sending
pub mod Runs
pub mod History
mod Tests
use torrent_peer.Prelude.{
  ℕ, suc, ◌+◌, ◌-◌, ◌%◌, ◌^◌, Bool, true, false, List, [], ◌∷◌, ltb, if◌then◌else◌,
}
use torrent_peer.Prelude.Map.{Map}
use torrent_peer.Torrent.{Bytes, TorrentFile}
use torrent_peer.Types.{Peer, Block, BlockRequest, PendingRequest}
use torrent_peer.Bitfield
use torrent_peer.Bitfield.{Bitfield}
use torrent_peer.Wire.{Outbox}

pub data EventType : Type 0 where
  choke_event unchoke_event piece_event dropped_event request_event joined_event : EventType

pub record PeerEvent : Type 0 where
  pub type : EventType
  pub peer_id : ℕ
  pub block : Block
  pub req : BlockRequest
  pub released : List BlockRequest

-- The write side is an `Outbox`. Times are numbers of nanoseconds.
pub record PeerConnection : Type 0 where
  pub id : ℕ
  pub peer : Peer
  pub am_choking : Bool
  pub am_interested : Bool
  pub peer_choking : Bool
  pub peer_interested : Bool
  pub got_bitfield : Bool
  pub pending : List PendingRequest
  pub snubbed : Bool
  pub last_sent : ℕ
  pub last_received : ℕ
  pub has_pieces : Bitfield
  pub read_buffer : Bytes
  pub outbox : Outbox

-- `buffer` is the bytes that are received.
pub record PendingInbound : Type 0 where
  pub peer : Peer
  pub buffer : Bytes
  pub started : ℕ

pub data Phase : Type 0 where
  tcp_connecting handshaking : Phase

pub record PendingOutbound : Type 0 where
  pub phase : Phase
  pub peer : Peer
  pub buffer : Bytes
  pub deadline : ℕ

-- The numbers of the poll slots are left out: answers are handed to each socket.
pub record PeerManager : Type 0 where
  pub conns : Map PeerConnection
  pub inbound : List PendingInbound
  pub outbound : List PendingOutbound
  pub candidates : List Peer
  pub known : List Bytes
  pub banned : List Bytes
  pub torrent : TorrentFile
  pub peer_id : Bytes
  pub piece_count : ℕ
  pub next_id : ℕ
  pub listening : Bool
  pub max_peers : ℕ
  pub piece_frequency : List ℕ

-- A count is a `uint16_t`.
abbrev pub u16_mod : ℕ
u16_mod = 2 ^ 16

-- `delta`, which is +1 or -1.
pub data Delta : Type 0 where
  up down : Delta

unfoldable pub shifted : Delta → ℕ → ℕ
shifted up n = (n + 1) % u16_mod
shifted down n = (n + u16_mod - 1) % u16_mod

-- The loop of `apply_availability`, from piece `i` on.
unfoldable pub apply_from : ℕ → Bitfield → Delta → List ℕ → List ℕ
apply_from i bf delta [] = []
apply_from i bf delta (n ∷ ns) =
    let rest = apply_from (suc i) bf delta ns in
    (if Bitfield.get bf i then shifted delta n else n) ∷ rest

unfoldable pub apply_availability : Bitfield → Delta → List ℕ → List ℕ
apply_availability bf delta counts = apply_from 0 bf delta counts

-- kMaxQueuedBytes
abbrev pub max_queued_bytes : ℕ
max_queued_bytes = 2 ^ 22

-- `can_queue` on the peer's connection.
unfoldable pub can_queue : Outbox → Bool
can_queue c = ltb c.queued_bytes max_queued_bytes
