-- ===== src/Tracker/Requests.antt =====
-- The requests, `build_announce_request` of src/runtime/managers/tracker_manager.cpp.
use torrent_peer.Prelude.{
  ℕ, zero, suc, ◌+◌, ◌-◌, ◌*◌, ◌/◌, ◌%◌, ◌^◌, ◌<◌, ◌≡◌, refl, sym, ap, ◌∙◌, [], ◌∷◌, ◌++◌, ok,
  length, length-append, take, drop, get_or, arith, take-append, drop-append, drop-add, replicate,
  append-nil, take-append-drop, drop_all,
}
use torrent_peer.Torrent.{Bytes}
use torrent_peer.Wire.{htonl, ntohl_at}
use torrent_peer.Wire.Frames.{bytes_of, ntohl-htonl}
use torrent_peer.Tracker.{
  htons, ntohs_at, htobe64, be64toh_at, TrackerEvent, event_none, event_completed, event_started,
  event_stopped, event_code, TrackerSession, AnnounceParams, build_announce_request,
}

-- What the tracker reads in an announce, at the offsets of BEP 15.
pub record Announces (packet : Bytes) (t : TrackerSession) (e : TrackerEvent)
    (peer_id info_hash : Bytes) (port : ℕ) (p : AnnounceParams) : Type 0 where
  pub size : length packet ≡ 98
  pub connection : be64toh_at packet 0 ≡ t.connection_id
  pub action : ntohl_at packet 8 ≡ 1
  pub transaction : ntohl_at packet 12 ≡ t.transaction_id
  pub hash : take 20 (drop 16 packet) ≡ info_hash
  pub id : take 20 (drop 36 packet) ≡ peer_id
  pub downloaded : be64toh_at packet 56 ≡ p.downloaded
  pub left : be64toh_at packet 64 ≡ p.left
  pub uploaded : be64toh_at packet 72 ≡ p.uploaded
  pub event : ntohl_at packet 80 ≡ event_code e
  pub ip : ntohl_at packet 84 ≡ 0
  pub key : ntohl_at packet 88 ≡ t.key
  pub num_want : ntohl_at packet 92 ≡ 2 ^ 32 - 1
  pub listens : ntohs_at packet 96 ≡ port

-- The numbers fit their types.
pub record InRange (t : TrackerSession) (listen_port : ℕ) (p : AnnounceParams) : Type 0 where
  pub connection : t.connection_id < 2 ^ 64
  pub transaction : t.transaction_id < 2 ^ 32
  pub key : t.key < 2 ^ 32
  pub port : listen_port < 2 ^ 16
  pub downloaded : p.downloaded < 2 ^ 64
  pub left : p.left < 2 ^ 64
  pub uploaded : p.uploaded < 2 ^ 64

get_or-drop : (p i k : ℕ) (m : Bytes) → k ≡ p + i → get_or m k 0 ≡ get_or (drop p m) i 0
get_or-drop zero i k m e = let same : k ≡ i = omega (arith, e) in ap (λ j. get_or m j 0) same
get_or-drop (suc p) i k [] e = ground (arith, e)
get_or-drop (suc p) i zero (x ∷ m) e = omega (arith, e)
get_or-drop (suc p) i (suc k) (x ∷ m) e = get_or-drop p i k m (omega (arith, e))

ntohl_at-drop : (p i k : ℕ) (m : Bytes) → k ≡ p + i → ntohl_at m k ≡ ntohl_at (drop p m) i
unfolding ntohl_at
ntohl_at-drop p i k m e =
    let g0 = get_or-drop p i k m e in
    let g1 = get_or-drop p (i + 1) (k + 1) m (omega (arith, e)) in
    let g2 = get_or-drop p (i + 2) (k + 2) m (omega (arith, e)) in
    let g3 = get_or-drop p (i + 3) (k + 3) m (omega (arith, e)) in ground (arith, g0, g1, g2, g3)

be64toh_at-drop : (p i k : ℕ) (m : Bytes) → k ≡ p + i → be64toh_at m k ≡ be64toh_at (drop p m) i
unfolding be64toh_at
be64toh_at-drop p i k m e =
    let g0 = ntohl_at-drop p i k m e in
    let g1 = ntohl_at-drop p (i + 4) (k + 4) m (omega (arith, e)) in ground (arith, g0, g1)

low_bytes :
    (n : ℕ)
    → n / 2 ^ 24 % 256 * 2 ^ 24 + n / 2 ^ 16 % 256 * 2 ^ 16 + n / 2 ^ 8 % 256 * 2 ^ 8 + n % 256
      ≡ n % 2 ^ 32
low_bytes n = omega arith

be64toh-htobe64 : (n : ℕ) (rest : Bytes) → n < 2 ^ 64 → be64toh_at (htobe64 n ++ rest) 0 ≡ n
unfolding be64toh_at htobe64 htonl ntohl_at
be64toh-htobe64 n rest h =
    let high = bytes_of (n / 2 ^ 32) (omega (arith, h)) in
    let low = low_bytes n in ground (arith, h, high, low)

-- What is read behind the first bytes of a packet.
module _ (m : Bytes) (rest : Bytes) (n : ℕ) where
  read64 : (k : ℕ) → drop k m ≡ htobe64 n ++ rest → n < 2 ^ 64 → be64toh_at m k ≡ n
  read64 k e h =
      be64toh_at-drop k 0 k m (omega arith) ∙ ap (λ x. be64toh_at x 0) e ∙ be64toh-htobe64 n rest h

  read32 : (k : ℕ) → drop k m ≡ htonl n ++ rest → n < 2 ^ 32 → ntohl_at m k ≡ n
  read32 k e h =
      ntohl_at-drop k 0 k m (omega arith) ∙ ap (λ x. ntohl_at x 0) e ∙ ntohl-htonl n rest h

  read16 : (k : ℕ) → drop k m ≡ htons n ++ rest → n < 2 ^ 16 → ntohs_at m k ≡ n
  unfolding ntohs_at htons
  read16 k e h =
      let g0 = get_or-drop k 0 k m (omega arith) ∙ ap (λ x. get_or x 0 0) e in
      let g1 = get_or-drop k 1 (k + 1) m (omega arith) ∙ ap (λ x. get_or x 1 0) e in
      ground (arith, g0, g1, h)

take_all : (n : ℕ) (xs : Bytes) → length xs ≡ n → take n xs ≡ xs
take_all n xs h =
    sym (append-nil (take n xs))
    ∙ ap (λ ys. take n xs ++ ys) (sym (drop_all n xs (omega (arith, h))))
    ∙ take-append-drop n xs

-- The packet behind the peer id.
abbrev after_id : TrackerSession → TrackerEvent → ℕ → AnnounceParams → Bytes
after_id t e port p =
    htobe64 p.downloaded
    ++ (htobe64 p.left
        ++ (htobe64 p.uploaded
            ++ (htonl (event_code e)
                ++ (replicate 4 0 ++ (htonl t.key ++ (htonl (2 ^ 32 - 1) ++ htons port))))))

abbrev whole : TrackerSession → TrackerEvent → Bytes → Bytes → ℕ → AnnounceParams → Bytes
whole t e peer_id info_hash port p =
    htobe64 t.connection_id
    ++ (htonl 1 ++ (htonl t.transaction_id ++ (info_hash ++ (peer_id ++ after_id t e port p))))

-- With a peer id and an info hash of 20 bytes and numbers that fit their types, an announce is
-- built, has 98 bytes, and holds each field at the offset of BEP 15.
pub build_announce_request-Announces :
    (t : TrackerSession) (e : TrackerEvent) (peer_id info_hash : Bytes) (port : ℕ)
    (p : AnnounceParams)
    → length peer_id ≡ 20
    → length info_hash ≡ 20
    → InRange t port p
    → (packet : Bytes) × (build_announce_request t e peer_id info_hash port p ≡ ok packet)
      × Announces packet t e peer_id info_hash port p
unfolding build_announce_request htobe64 htonl htons
build_announce_request-Announces t e peer_id info_hash port p id_size hash_size v =
    let packet = whole t e peer_id info_hash port p in
    let end = after_id t e port p in
    let built : build_announce_request t e peer_id info_hash port p ≡ ok packet =
      ground (arith, id_size, take_all 20 info_hash hash_size) in
    let behind20 : (xs ys : Bytes) → length xs ≡ 20 → drop 20 (xs ++ ys) ≡ ys =
      λ xs ys h. ap (λ n. drop n (xs ++ ys)) (sym h) ∙ drop-append xs ys in
    let first20 : (xs ys : Bytes) → length xs ≡ 20 → take 20 (xs ++ ys) ≡ xs =
      λ xs ys h. ap (λ n. take n (xs ++ ys)) (sym h) ∙ take-append xs ys in
    let at16 : drop 16 packet ≡ info_hash ++ (peer_id ++ end) = refl in
    let at36 : drop 36 packet ≡ peer_id ++ end = behind20 info_hash (peer_id ++ end) hash_size in
    let at56 : drop 56 packet ≡ end =
      drop-add 36 20 packet ∙ ap (drop 20) at36 ∙ behind20 peer_id end id_size in
    let at : (k : ℕ) → drop (56 + k) packet ≡ drop k end =
      λ k. drop-add 56 k packet ∙ ap (drop k) at56 in
    (
      packet,
      built,
      record {
        size = ground (
          arith,
          length-append info_hash (peer_id ++ end),
          length-append peer_id end,
          id_size,
          hash_size,
        );
        connection = read64 packet (drop 8 packet) t.connection_id 0 refl v.connection;
        action = read32 packet (drop 12 packet) 1 8 refl (omega arith);
        transaction = read32 packet (drop 16 packet) t.transaction_id 12 refl v.transaction;
        hash = first20 info_hash (peer_id ++ end) hash_size;
        id = ap (take 20) at36 ∙ first20 peer_id end id_size;
        downloaded = read64 packet (drop 8 end) p.downloaded 56 (at 0) v.downloaded;
        left = read64 packet (drop 16 end) p.left 64 (at 8) v.left;
        uploaded = read64 packet (drop 24 end) p.uploaded 72 (at 16) v.uploaded;
        event = read32 packet (drop 28 end) (event_code e) 80 (at 24) (code_small e);
        ip = read32 packet (drop 32 end) 0 84 (at 28) (omega arith);
        key = read32 packet (drop 36 end) t.key 88 (at 32) v.key;
        num_want = read32 packet (drop 40 end) (2 ^ 32 - 1) 92 (at 36) (omega arith);
        listens = read16 packet [] port 96 (at 40) v.port;
      },
    )
  where
    code_small : (e : TrackerEvent) → event_code e < 2 ^ 32
    code_small event_none = omega arith
    code_small event_completed = omega arith
    code_small event_started = omega arith
    code_small event_stopped = omega arith
