-- ===== src/Tracker/Replies.antt =====
-- The replies to an announce, `parse_announce_reply` of src/runtime/managers/tracker_manager.cpp.
use torrent_peer.Prelude.{
  ℕ, ◌+◌, ◌*◌, ◌/◌, ◌%◌, ◌^◌, ◌<◌, ◌≡◌, refl, List, [], ◌∷◌, ◌++◌, ◌==◌, if◌then◌else◌, length,
  arith, All,
}
use torrent_peer.Torrent.{Bytes}
use torrent_peer.Types.{Peer}
use torrent_peer.Bencode.Digits.{decimal}
use torrent_peer.Wire.{htonl, ntohl_at}
use torrent_peer.Wire.Frames.{bytes_of}
use torrent_peer.Tracker.{ntohs_at, inet_ntop, reply_peers, ok_reply, parse_announce_reply}

-- An address as the tracker sends it.
pub record Endpoint : Type 0 where
  pub a : ℕ
  pub b : ℕ
  pub c : ℕ
  pub d : ℕ
  pub port : ℕ

abbrev pub compact : List Endpoint → Bytes
compact [] = []
compact (e ∷ es) = e.a ∷ e.b ∷ e.c ∷ e.d ∷ e.port / 256 % 256 ∷ e.port % 256 ∷ compact es

-- The peers that the addresses name: those with a port.
abbrev pub named : List Endpoint → List Peer
named [] = []
named (e ∷ es) =
    if e.port == 0
    then named es
    else record { host = inet_ntop (e.a ∷ e.b ∷ e.c ∷ e.d ∷ []); port = decimal e.port } ∷ named es

-- The packet of a reply.
abbrev pub reply_packet : ℕ → ℕ → ℕ → ℕ → List Endpoint → Bytes → Bytes
reply_packet txn interval leechers seeders es rest =
    htonl 1
    ++ (htonl txn
        ++ (htonl interval ++ (htonl leechers ++ (htonl seeders ++ (compact es ++ rest)))))

port_read : (p : ℕ) → p < 2 ^ 16 → p / 256 % 256 * 256 + p % 256 ≡ p
port_read p h = omega (arith, h)

reply_peers-short : (rest : Bytes) → length rest < 6 → reply_peers rest ≡ []
unfolding reply_peers
reply_peers-short [] h = refl
reply_peers-short (a ∷ []) h = refl
reply_peers-short (a ∷ b ∷ []) h = refl
reply_peers-short (a ∷ b ∷ c ∷ []) h = refl
reply_peers-short (a ∷ b ∷ c ∷ d ∷ []) h = refl
reply_peers-short (a ∷ b ∷ c ∷ d ∷ p ∷ []) h = refl
reply_peers-short (a ∷ b ∷ c ∷ d ∷ p ∷ q ∷ rest) h = ground (arith, h)

reply_peers-compact :
    (es : List Endpoint) (rest : Bytes)
    → All (λ e. e.port < 2 ^ 16) es
    → length rest < 6
    → reply_peers (compact es ++ rest) ≡ named es
unfolding reply_peers ntohs_at
reply_peers-compact [] rest hs short = reply_peers-short rest short
reply_peers-compact (e ∷ es) rest hs short =
    ground (arith, port_read e.port hs.0, reply_peers-compact es rest hs.1 short)

-- The reply that a tracker builds, with fields that fit their widths and fewer than six bytes
-- behind the addresses, is read back: its interval, its counts, and the peers of those addresses
-- that have a port.
pub parse_announce_reply-reply_packet :
    (txn interval leechers seeders : ℕ) (es : List Endpoint) (rest : Bytes)
    → txn < 2 ^ 32
    → interval < 2 ^ 32
    → leechers < 2 ^ 32
    → seeders < 2 ^ 32
    → All (λ e. e.port < 2 ^ 16) es
    → length rest < 6
    → parse_announce_reply (reply_packet txn interval leechers seeders es rest) txn ≡ record {
      kind = ok_reply;
      interval = interval;
      leechers = leechers;
      seeders = seeders;
      peers = named es;
      error = [];
    }
unfolding parse_announce_reply htonl ntohl_at
parse_announce_reply-reply_packet txn interval leechers seeders es rest t i l s ports short =
    let peers = reply_peers-compact es rest ports short in
    ground
      (arith, bytes_of txn t, bytes_of interval i, bytes_of leechers l, bytes_of seeders s, peers)
