-- ===== src/Bitfield/Tests.antt =====
-- A bit of a small field.
use torrent_peer.Prelude.{◌≡◌, refl, arith, ◌||◌, ◌==◌, [], ◌∷◌, ok}
use torrent_peer.Bitfield.{zeros, get, set_bit, with_bit}
use torrent_peer.Bitfield.Laws.{get-set_bit, zeros-IsValid}

set_run : set_bit (zeros 10) 9 ≡ ok (record { bits = 10; bytes = 0 ∷ 64 ∷ [] })
unfolding set_bit zeros with_bit
set_run = refl

get-set_bit_example :
    get (record { bits = 10; bytes = 0 ∷ 64 ∷ [] }) 9 ≡ (9 == 9 || get (zeros 10) 9)
get-set_bit_example = get-set_bit (zeros 10) 9 9 (zeros-IsValid 10 (omega arith)) set_run
