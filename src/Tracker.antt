-- ===== src/Tracker.antt =====
-- src/runtime/managers/tracker_manager.hpp, and the packets and addresses of tracker_manager.cpp.
-- An open socket is a Boolean; the future of a lookup is what the lookup gives when it is asked for.
pub mod Machine
pub mod Manager
pub mod Invariant
pub mod Runs
pub mod Timers
pub mod Progress
pub mod Protocol
pub mod Contract
pub mod Refines
pub mod Urls
pub mod Replies
pub mod Requests
mod Tests
use torrent_peer.Prelude.{
  ℕ, zero, suc, ◌+◌, ◌-◌, ◌*◌, ◌/◌, ◌%◌, ◌^◌, Bool, true, false, not, ◌&&◌, ◌||◌, List, [], ◌∷◌,
  ◌++◌, Option, none, some, ltb, leb, ◌==◌, if◌then◌else◌, length, get_or, take, drop, replicate,
  same_bytes, Result, ok, err, ◌>>=◌, ◌>>◌, throw_if, runtime_error, codes,
}
use torrent_peer.Torrent.{Bytes}
use torrent_peer.Types.{Peer}
use torrent_peer.Wire.{htonl, ntohl_at}
use torrent_peer.Bencode.Digits.{decimal}
use torrent_peer.Args.{rfind}

pub data TrackerEvent : Type 0 where
  event_none event_completed event_started event_stopped : TrackerEvent

-- The value of the enumeration.
abbrev pub event_code : TrackerEvent → ℕ
event_code event_none = 0
event_code event_completed = 1
event_code event_started = 2
event_code event_stopped = 3

pub data Reported : Type 0 where
  reported_nothing reported_started reported_completed : Reported

pub record TrackerAddress : Type 0 where
  pub host : Bytes
  pub port : Bytes

pub data TrackerState : Type 0 where
  disconnected resolving connecting connected announcing idle stopped : TrackerState

pub record TrackerSession : Type 0 where
  pub address : TrackerAddress
  pub state : TrackerState
  pub sock : Bool
  pub connection_id : ℕ
  pub transaction_id : ℕ
  pub key : ℕ
  pub connected_at : ℕ
  pub next_action : ℕ
  pub retries : ℕ
  pub in_flight : TrackerEvent
  pub reported : Reported
  pub interval : ℕ
  pub seeders : ℕ
  pub leechers : ℕ

pub record AnnounceParams : Type 0 where
  pub downloaded : ℕ
  pub uploaded : ℕ
  pub left : ℕ

pub record TrackerManager : Type 0 where
  pub trackers : List TrackerSession
  pub peer_id : Bytes
  pub info_hash : Bytes
  pub listen_port : ℕ
  pub download_complete : Bool
  pub stopping : Bool
  pub key : ℕ

-- kBitTorrentProtocol
abbrev pub protocol_id : ℕ
protocol_id = 4497486125440

-- `htobe64` of a `uint64_t` and `htons` of a `uint16_t`, as the bytes that are copied.
unfoldable pub htobe64 : ℕ → Bytes
htobe64 n = htonl (n / 2 ^ 32) ++ htonl n

unfoldable pub htons : ℕ → Bytes
htons n = n / 256 % 256 ∷ n % 256 ∷ []

-- `be64toh` and `ntohs` of the bytes at `p`.
unfoldable pub be64toh_at : Bytes → ℕ → ℕ
be64toh_at m p = ntohl_at m p * 2 ^ 32 + ntohl_at m (p + 4)

unfoldable pub ntohs_at : Bytes → ℕ → ℕ
ntohs_at m p = get_or m p 0 * 256 + get_or m (p + 1) 0

unfoldable pub build_connect_request : ℕ → Bytes
build_connect_request transaction_id = htobe64 protocol_id ++ (htonl 0 ++ htonl transaction_id)

unfoldable pub build_announce_request :
    TrackerSession → TrackerEvent → Bytes → Bytes → ℕ → AnnounceParams → Result Bytes
build_announce_request t e peer_id info_hash port p = do
  throw_if (not (length peer_id == 20)) (runtime_error "peer_id must be exactly 20 bytes")
  ok (
      htobe64 t.connection_id
      ++ (htonl 1
          ++ (htonl t.transaction_id
              ++ (take 20 info_hash
                  ++ (peer_id
                      ++ (htobe64 p.downloaded
                          ++ (htobe64 p.left
                              ++ (htobe64 p.uploaded
                                  ++ (htonl (event_code e)
                                      ++ (replicate 4 0
                                          ++ (htonl t.key
                                              ++ (htonl (2 ^ 32 - 1) ++ htons port))))))))))))

pub data ReplyKind : Type 0 where
  ignore ok_reply error_reply : ReplyKind

pub record AnnounceReply : Type 0 where
  pub kind : ReplyKind
  pub interval : ℕ
  pub leechers : ℕ
  pub seeders : ℕ
  pub peers : List Peer
  pub error : Bytes

abbrev pub no_reply : AnnounceReply
no_reply = record { kind = ignore; interval = 0; leechers = 0; seeders = 0; peers = []; error = [] }

-- `inet_ntop` of the four bytes of an address: decimal numbers with dots between them.
unfoldable pub inet_ntop : Bytes → Bytes
inet_ntop b =
    decimal (get_or b 0 0)
    ++ (b'.' ∷ decimal (get_or b 1 0)
        ++ (b'.' ∷ decimal (get_or b 2 0) ++ (b'.' ∷ decimal (get_or b 3 0))))

-- The loop over the addresses of a reply, six bytes each, on what is left of them.
unfoldable pub reply_peers : Bytes → List Peer
reply_peers (a ∷ b ∷ c ∷ d ∷ p ∷ q ∷ rest) =
    let port = ntohs_at (p ∷ q ∷ []) 0 in
    let more = reply_peers rest in
    if port == 0
    then more
    else record { host = inet_ntop (a ∷ b ∷ c ∷ d ∷ []); port = decimal port } ∷ more
reply_peers rest = []

unfoldable pub parse_announce_reply : Bytes → ℕ → AnnounceReply
parse_announce_reply buf expect_txn =
    if ltb (length buf) 8
    then no_reply
    else if not (ntohl_at buf 4 == expect_txn)
    then no_reply
    else if ntohl_at buf 0 == 3
    then record no_reply { kind = error_reply; error = drop 8 buf }
    else if not (ntohl_at buf 0 == 1) || ltb (length buf) 20
    then no_reply
    else record {
      kind = ok_reply;
      interval = ntohl_at buf 8;
      leechers = ntohl_at buf 12;
      seeders = ntohl_at buf 16;
      peers = reply_peers (drop 20 buf);
      error = [];
    }

-- `s.find(c)`
unfoldable pub find_byte : ℕ → Bytes → Option ℕ
find_byte c [] = none
find_byte c (x ∷ xs) =
    if x == c then some 0 else elim (find_byte c xs) [ none ↦ none | some i ↦ some (suc i) ]

-- `rest` up to the first slash.
unfoldable pub before_slash : Bytes → Bytes
before_slash rest = elim (find_byte b'/' rest) [ none ↦ rest | some i ↦ take i rest ]

abbrev pub udp_prefix : Bytes
udp_prefix = codes "udp://"

unfoldable pub parse_tracker_url : Bytes → Result TrackerAddress
parse_tracker_url url = do
  throw_if (not (same_bytes (take 6 url) udp_prefix)) (runtime_error "Only UDP trackers supported")
  let rest = before_slash (drop 6 url)
  elim (rfind b':' rest) [
    | none ↦ err (runtime_error "No port in tracker URL")
    | some colon ↦ ok (record { host = take colon rest; port = drop (colon + 1) rest })
  ]
