-- ===== src/Wire/Handshake.antt =====
-- The handshake that one side builds is the one that the other side accepts.
use torrent_peer.Prelude.{
  ◌≡◌, refl, sym, ap, ◌∙◌, Bool, true, false, not, ◌&&◌, ◌||◌, List, [], ◌∷◌, ◌++◌, ◌==◌, arith,
  if◌then◌else◌, length, length-take, get_or, take, drop, take-append, drop-append, append-nil,
  same_bytes, same_bytes_iff, ok, throw_if, ◌>>◌, runtime_error, subst, inl, inr, codes, Bool-cases,
  replicate,
}
use mathlib.Core.Path.{ap₂}
use torrent_peer.Torrent.{Bytes, TorrentFile}
use torrent_peer.Wire.{build_handshake, is_banned, verify_handshake}

-- A handshake that is built, of 68 bytes.
handshake_parts :
    (t : TorrentFile) (peer_id hs : Bytes)
    → length t.info_hash ≡ 20
    → build_handshake t peer_id ≡ ok hs
    → (get_or hs 0 0 ≡ 19)
      × (take 19 (drop 1 hs) ≡ codes "BitTorrent protocol")
      × (take 20 (drop 28 hs) ≡ take 20 t.info_hash)
      × (take 20 (drop 48 hs) ≡ peer_id)
unfolding build_handshake
handshake_parts t peer_id hs sized h = elim (Bool-cases (length peer_id == 20)) [
  | inr e ↦ absurd (ground (arith, e, h))
  | inl e ↦
      let info = take 20 t.info_hash in
      let id_len : 20 ≡ length peer_id = ground (arith, e) in
      let info_len : 20 ≡ length info = omega (arith, length-take 20 t.info_hash, sized) in
      let taken : take 20 (info ++ peer_id) ≡ info =
        ap (λ k. take k (info ++ peer_id)) info_len ∙ take-append info peer_id in
      let left : drop 20 (info ++ peer_id) ≡ peer_id =
        ap (λ k. drop k (info ++ peer_id)) info_len ∙ drop-append info peer_id in
      let id_taken : take 20 peer_id ≡ peer_id =
        ap₂ take id_len (sym (append-nil peer_id)) ∙ take-append peer_id [] in
      let same : 19 ∷ codes "BitTorrent protocol" ++ replicate 8 0 ++ info ++ peer_id ≡ hs =
        sent (length peer_id == 20) e h in
      subst
        (λ x.
          (get_or x 0 0 ≡ 19)
          × (take 19 (drop 1 x) ≡ codes "BitTorrent protocol")
          × (take 20 (drop 28 x) ≡ info)
          × (take 20 (drop 48 x) ≡ peer_id))
        same (refl, refl, taken, ap (take 20) left ∙ id_taken)
]
  where
    sent :
        {x : Bytes} (b : Bool)
        → b ≡ true
        → (throw_if (not b) (runtime_error "peer_id must be exactly 20 bytes") >> ok x) ≡ ok hs
        → x ≡ hs
    sent true e k = cc
    sent false e k = absurd (cc)

-- A built handshake, for an info hash of 20 bytes, is accepted just when the host of its sender
-- is not banned and its peer id is not our own.
pub verify-build_handshake :
    (t : TorrentFile) (peer_id own_id hs : Bytes) (banned : List Bytes) (host : Bytes)
    → length t.info_hash ≡ 20
    → build_handshake t peer_id ≡ ok hs
    → verify_handshake banned t.info_hash own_id hs host
      ≡ (not (is_banned banned host) && not (same_bytes peer_id own_id))
unfolding verify_handshake
verify-build_handshake t peer_id own_id hs banned host sized h =
    let (p1, p2, p3, p4) = handshake_parts t peer_id hs sized h in
    let header : same_bytes (take 19 (drop 1 hs)) (codes "BitTorrent protocol") ≡ true =
      (same_bytes_iff _ _).1 p2 in
    let info : same_bytes (take 20 (drop 28 hs)) (take 20 t.info_hash) ≡ true =
      (same_bytes_iff _ _).1 p3 in
    let first : (get_or hs 0 0 == 19) ≡ true = ground (arith, p1) in
    let own : same_bytes (take 20 (drop 48 hs)) own_id ≡ same_bytes peer_id own_id =
      ap (λ x. same_bytes x own_id) p4 in
    decides (is_banned banned host) _ _ _ _ _ first header info own
  where
    decides :
        (a b c d e f : Bool)
        → b ≡ true
        → c ≡ true
        → d ≡ true
        → e ≡ f
        → (if a
            then false
            else if not b || not c
            then false
            else if not d
            then false
            else if e
            then false
            else true)
          ≡ (not a && not f)
    decides a b c d e f hb hc hd he = ground (arith, hb, hc, hd, he)
