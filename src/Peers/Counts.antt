-- ===== src/Peers/Counts.antt =====
-- The availability counts of src/runtime/managers/peer_manager.cpp against what the connected peers
-- have: how a change of a connection shows in both.
use torrent_peer.Prelude.{
  ℕ, zero, suc, ◌+◌, ◌%◌, ◌<◌, ◌≡◌, refl, sym, ap, subst, List, [], ◌∷◌, ◌++◌, none, some, ◌==◌,
  if◌then◌else◌, length, get_or, arith, inl, inr, Bool-cases, ℕ_discrete, ==_iff, ne→==_false,
}
use torrent_peer.Prelude.Map.{Map, find, assign, erase}
use torrent_peer.Bitfield
use torrent_peer.Bitfield.{Bitfield}
use torrent_peer.Peers.{u16_mod, Delta, shifted, apply_from, PeerConnection}

-- Whether a peer has a piece, as a number, and how many of the connected peers have it.
abbrev pub has : PeerConnection → ℕ → ℕ
has c i = if Bitfield.get c.has_pieces i then 1 else 0

unfoldable pub holders : Map PeerConnection → ℕ → ℕ
holders [] i = 0
holders ((id, c) ∷ cs) i = has c i + holders cs i

-- Every count is the number of peers that have the piece, as a uint16_t.
abbrev pub CountsOk : ℕ → Map PeerConnection → List ℕ → Type 0
CountsOk n conns counts =
    (length counts ≡ n) × ((i : ℕ) → i < n → get_or counts i 0 ≡ holders conns i % u16_mod)

-- No id stands twice.
abbrev pub Distinct : Map PeerConnection → Type 0
Distinct [] = Unit
Distinct ((id, c) ∷ cs) = (find cs id ≡ none) × Distinct cs

pub holders-assign :
    (m : Map PeerConnection) (id i : ℕ) (c c1 : PeerConnection)
    → find m id ≡ some c
    → holders (assign m id c1) i + has c i ≡ holders m i + has c1 i
unfolding find assign holders
holders-assign [] id i c c1 e = ground (arith, e)
holders-assign ((j, x) ∷ m) id i c c1 e = elim (Bool-cases (j == id)) [
  | inl hit ↦
      let same : x ≡ c = ground (arith, hit, e) in
      let seen : has x i ≡ has c i = ap (λ y. has y i) same in simp hit (omega (arith, seen))
  | inr miss ↦ simp miss (omega (arith, holders-assign m id i c c1 (ground (arith, miss, e))))
]

holders-erase_absent :
    (m : Map PeerConnection) (id i : ℕ) → find m id ≡ none → holders (erase m id) i ≡ holders m i
unfolding find erase holders
holders-erase_absent [] id i e = refl
holders-erase_absent ((j, x) ∷ m) id i e = elim (Bool-cases (j == id)) [
  | inl hit ↦ ground (arith, hit, e)
  | inr miss ↦ simp miss (omega (arith, holders-erase_absent m id i (ground (arith, miss, e))))
]

pub holders-erase :
    (m : Map PeerConnection) (id i : ℕ) (c : PeerConnection)
    → Distinct m
    → find m id ≡ some c
    → holders (erase m id) i + has c i ≡ holders m i
unfolding find erase holders
holders-erase [] id i c d e = ground (arith, e)
holders-erase ((j, x) ∷ m) id i c d e = elim (ℕ_discrete j id) [
  | yes hit ↦
      let same : x ≡ c = ground (arith, hit, e) in
      let seen : has x i ≡ has c i = ap (λ y. has y i) same in
      let gone = holders-erase_absent m id i (subst (λ k. find m k ≡ none) hit d.0) in
      simp ((==_iff j id).1 hit) (omega (arith, seen, gone))
  | no miss ↦
      simp (ne→==_false j id miss)
        (omega (arith, holders-erase m id i c d.1 (ground (arith, miss, e))))
]

pub holders-append :
    (m k : Map PeerConnection) (i : ℕ) → holders (m ++ k) i ≡ holders m i + holders k i
unfolding holders
holders-append [] k i = omega arith
holders-append ((j, x) ∷ m) k i = omega (arith, holders-append m k i)

-- The counts behind a whole field.
pub get_or-apply_from :
    (k i : ℕ) (bf : Bitfield) (d : Delta) (counts : List ℕ)
    → i < length counts
    → get_or (apply_from k bf d counts) i 0
      ≡ (if Bitfield.get bf (k + i) then shifted d (get_or counts i 0) else get_or counts i 0)
unfolding apply_from
get_or-apply_from k i bf d [] h = omega (arith, h)
get_or-apply_from k zero bf d (n ∷ ns) h =
    let at : k + 0 ≡ k = omega arith in
    subst
      (λ j.
        (if Bitfield.get bf k then shifted d n else n)
        ≡ (if Bitfield.get bf j then shifted d n else n))
      (sym at) refl
get_or-apply_from k (suc i) bf d (n ∷ ns) h =
    let at : suc k + i ≡ k + suc i = omega arith in
    subst
      (λ j.
        get_or (apply_from (suc k) bf d ns) i 0
        ≡ (if Bitfield.get bf j then shifted d (get_or ns i 0) else get_or ns i 0))
      at (get_or-apply_from (suc k) i bf d ns (omega (arith, h)))

pub length-apply_from :
    (k : ℕ) (bf : Bitfield) (d : Delta) (counts : List ℕ)
    → length (apply_from k bf d counts) ≡ length counts
unfolding apply_from
length-apply_from k bf d [] = refl
length-apply_from k bf d (n ∷ ns) = ap suc (length-apply_from (suc k) bf d ns)
