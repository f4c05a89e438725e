-- ===== src/Peers/Availability.antt =====
-- A peer that leaves takes back just what it added to the counts.
use torrent_peer.Prelude.{ℕ, suc, ◌<◌, ◌≡◌, refl, List, [], ◌∷◌, arith, All, Bool-cases, inl, inr}
use torrent_peer.Bitfield
use torrent_peer.Bitfield.{Bitfield}
use torrent_peer.Peers.{u16_mod, up, down, shifted, apply_from, apply_availability}

apply_from_back :
    (i : ℕ) (bf : Bitfield) (counts : List ℕ)
    → All (λ n. n < u16_mod) counts
    → apply_from i bf down (apply_from i bf up counts) ≡ counts
unfolding apply_from shifted
apply_from_back i bf [] small = refl
apply_from_back i bf (n ∷ ns) small = elim (Bool-cases (Bitfield.get bf i)) [
  | inl e ↦ ground (arith, e, small.0, apply_from_back (suc i) bf ns small.1)
  | inr e ↦ ground (arith, e, apply_from_back (suc i) bf ns small.1)
]

-- With counts that fit a uint16_t, taking the pieces of a field off the availability counts after
-- adding them gives the counts back.
pub apply_availability_back :
    (bf : Bitfield) (counts : List ℕ)
    → All (λ n. n < u16_mod) counts
    → apply_availability bf down (apply_availability bf up counts) ≡ counts
unfolding apply_availability
apply_availability_back bf counts small = apply_from_back 0 bf counts small
