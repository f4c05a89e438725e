-- ===== src/Bencode/Order.antt =====
-- The order of strings is a strict total order.
use torrent_peer.Prelude.{◌≡◌, ◌≢◌, refl, true, false, [], ◌∷◌, arith}
use torrent_peer.Torrent.{Bytes}
use torrent_peer.Bencode.{before}

pub before_irrefl : (xs : Bytes) → before xs xs ≢ true
unfolding before
before_irrefl [] h = cc
before_irrefl (x ∷ xs) h = before_irrefl xs (ground (arith, h))

pub before_trans :
    (xs ys zs : Bytes) → before xs ys ≡ true → before ys zs ≡ true → before xs zs ≡ true
unfolding before
before_trans [] [] zs h k = absurd (cc)
before_trans [] (y ∷ ys) [] h k = absurd (cc)
before_trans [] (y ∷ ys) (z ∷ zs) h k = refl
before_trans (x ∷ xs) [] zs h k = absurd (cc)
before_trans (x ∷ xs) (y ∷ ys) [] h k = absurd (cc)
before_trans (x ∷ xs) (y ∷ ys) (z ∷ zs) h k = ground (arith, h, k, before_trans xs ys zs)

pub before_total : (xs ys : Bytes) → before xs ys ≡ false → before ys xs ≡ false → xs ≡ ys
unfolding before
before_total [] [] h k = refl
before_total [] (y ∷ ys) h k = absurd (cc)
before_total (x ∷ xs) [] h k = absurd (cc)
before_total (x ∷ xs) (y ∷ ys) h k = ground (arith, h, k, before_total xs ys)
