-- ===== src/Wire.antt =====
-- The wire format of src/runtime/managers/peer_manager.cpp: how messages are built, queued and cut
-- from the bytes that arrive.
pub mod Frames
pub mod Queued
pub mod Handshake
mod Tests
use torrent_peer.Prelude.{
  ℕ, zero, suc, ◌+◌, ◌-◌, ◌*◌, ◌/◌, ◌%◌, ◌^◌, Bool, true, false, not, ◌&&◌, ◌||◌, List, [], ◌∷◌,
  ◌++◌, Option, none, some, ltb, leb, ◌==◌, if◌then◌else◌, length, get_or, take, drop, replicate,
  same_bytes, Result, ok, err, ◌>>=◌, ◌>>◌, throw_if, runtime_error, codes,
}
use torrent_peer.Torrent.{Bytes, TorrentFile}
use torrent_peer.Types.{BlockRequest, PendingRequest}

-- The ids of `MessageId` that are sent with a payload here.
abbrev pub msg_request : ℕ
msg_request = 6

abbrev pub msg_piece : ℕ
msg_piece = 7

-- `htonl` of a `uint32_t`, as the four bytes that are copied.
unfoldable pub htonl : ℕ → Bytes
htonl n = n / 2 ^ 24 % 256 ∷ n / 2 ^ 16 % 256 ∷ n / 2 ^ 8 % 256 ∷ n % 256 ∷ []

-- `ntohl` of the four bytes at `p`.
unfoldable pub ntohl_at : Bytes → ℕ → ℕ
ntohl_at m p =
    get_or m p 0 * 2 ^ 24
    + get_or m (p + 1) 0 * 2 ^ 16
    + get_or m (p + 2) 0 * 2 ^ 8
    + get_or m (p + 3) 0

unfoldable pub build_handshake : TorrentFile → Bytes → Result Bytes
build_handshake t peer_id = do
  throw_if (not (length peer_id == 20)) (runtime_error "peer_id must be exactly 20 bytes")
  ok (19 ∷ codes "BitTorrent protocol" ++ replicate 8 0 ++ take 20 t.info_hash ++ peer_id)

-- `extract_message`, as the message, if there is one, and what it leaves in the buffer.
unfoldable pub extract_message : Bytes → Result (Option Bytes × Bytes)
extract_message buf =
    if ltb (length buf) 4
    then ok (none, buf)
    else let len = ntohl_at buf 0 in
      if ltb (2 ^ 20) len
      then err (runtime_error "absurd message length")
      else if ltb (length buf) (4 + len)
      then ok (none, buf)
      else ok (some (take len (drop 4 buf)), drop (4 + len) buf)

unfoldable pub requests_of : List PendingRequest → List BlockRequest
requests_of [] = []
requests_of (p ∷ ps) = p.req ∷ requests_of ps

unfoldable pub build_message : ℕ → Bytes → Bytes
build_message id payload = htonl ((1 + length payload) % 2 ^ 32) ++ id ∷ payload

unfoldable pub build_request : BlockRequest → Bytes
build_request req =
    build_message msg_request (htonl req.piece_index ++ htonl req.offset ++ htonl req.length)

-- The write side of a `PeerConnection`: the queue of messages, the bytes in it, and how much of the
-- first is sent.
pub record Outbox : Type 0 where
  pub write_buffer : List Bytes
  pub queued_bytes : ℕ
  pub cursor : ℕ

-- The test of the loop in `remove_queued_piece`.
unfoldable pub is_queued_piece : ℕ → ℕ → ℕ → Bytes → Bool
is_queued_piece index begin len m =
    (length m == 13 + len)
    && (get_or m 4 0 == msg_piece)
    && (ntohl_at m 5 == index)
    && (ntohl_at m 9 == begin)

-- The first message that `test` holds of, and the queue without it.
unfoldable pub take_first : (Bytes → Bool) → List Bytes → Option (Bytes × List Bytes)
take_first test [] = none
take_first test (m ∷ ms) =
    if test m
    then some (m, ms)
    else elim (take_first test ms) [ none ↦ none | some (found, rest) ↦ some (found, m ∷ rest) ]

-- `first`: a first message that is partly sent stays.
abbrev pub first_open : Outbox → ℕ
first_open c = if ltb 0 c.cursor then 1 else 0

-- The queue with the rest behind what stays in front.
abbrev pub without : Outbox → Option (Bytes × List Bytes) → Bool × Outbox
without c none = (false, c)
without c (some (m, rest)) = (
  true,
  record c {
    write_buffer = take (first_open c) c.write_buffer ++ rest;
    queued_bytes = c.queued_bytes - length m;
  },
)

unfoldable pub remove_queued_piece : Outbox → ℕ → ℕ → ℕ → Bool × Outbox
remove_queued_piece c index begin len =
    without c (take_first (is_queued_piece index begin len) (drop (first_open c) c.write_buffer))

unfoldable pub enqueue : Outbox → Bytes → Outbox
enqueue c msg = record c {
  write_buffer = c.write_buffer ++ msg ∷ [];
  queued_bytes = c.queued_bytes + length msg;
}

-- The write of `handle_events` when `send` has taken `w` bytes of the first message.
unfoldable pub on_sent : Outbox → ℕ → Outbox
on_sent c w = elim c.write_buffer [
  | [] ↦ c
  | front ∷ rest ↦
      if c.cursor + w == length front
      then record { write_buffer = rest; queued_bytes = c.queued_bytes - length front; cursor = 0 }
      else record c { cursor = c.cursor + w }
]

-- `send_piece` without the lookup of the peer.
unfoldable pub build_piece : ℕ → ℕ → Bytes → Bytes
build_piece index begin payload = build_message msg_piece (htonl index ++ htonl begin ++ payload)

-- `banned_.contains(host)`
unfoldable pub is_banned : List Bytes → Bytes → Bool
is_banned [] host = false
is_banned (b ∷ bs) host = same_bytes b host || is_banned bs host

-- `verify_handshake` on the 68 bytes `hs`; `banned`, `info_hash` and `own_id` are members.
unfoldable pub verify_handshake : List Bytes → Bytes → Bytes → Bytes → Bytes → Bool
verify_handshake banned info_hash own_id hs host =
    if is_banned banned host
    then false
    else if not (get_or hs 0 0 == 19)
        || not (same_bytes (take 19 (drop 1 hs)) (codes "BitTorrent protocol"))
    then false
    else if not (same_bytes (take 20 (drop 28 hs)) (take 20 info_hash))
    then false
    else if same_bytes (take 20 (drop 48 hs)) own_id
    then false
    else true
