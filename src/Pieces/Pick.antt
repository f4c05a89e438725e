-- ===== src/Pieces/Pick.antt =====
-- The first loop of `pick_block`, as a relation: which piece in progress it takes a block of.
use torrent_peer.Prelude.{
  ℕ, ◌≡◌, subst, inl, inr, ◌⊎◌, true, false, [], ◌∷◌, none, some, arith, Option-cases, Bool-cases,
}
use torrent_peer.Prelude.Map.{Map, Entries}
use torrent_peer.Torrent.{TorrentFile}
use torrent_peer.Bitfield.{Bitfield}
use torrent_peer.Bitfield
use torrent_peer.Types.{BlockRequest}
use torrent_peer.Pieces.{PartialPiece, next_missing, pick_active, may_take}

-- One entry of the map gives up a block; the peer has the piece and may take of it.
pub data Picks (t : TorrentFile) (peer_has : Bitfield) (tag : ℕ) (r : BlockRequest)
    : Map PartialPiece → Map PartialPiece → Type 0 where
  here :
      (i : ℕ) (pp pp' : PartialPiece) (ps : Map PartialPiece)
      → Bitfield.get peer_has i ≡ true
      → may_take pp.owner tag ≡ true
      → next_missing t i pp ≡ some (r, pp')
      → Picks t peer_has tag r ((i, pp) ∷ ps) ((i, pp') ∷ ps)
  there :
      (e : ℕ × PartialPiece) {ps ps' : Map PartialPiece}
      → Picks t peer_has tag r ps ps'
      → Picks t peer_has tag r (e ∷ ps) (e ∷ ps')

-- A piece with nothing for the peer: not the peer's, not the peer's to take, or with no block left.
abbrev pub NothingFor : TorrentFile → Bitfield → ℕ → ℕ → PartialPiece → Type 0
NothingFor t peer_has tag i pp =
    (Bitfield.get peer_has i ≡ false)
    ⊎ (may_take pp.owner tag ≡ false)
    ⊎ (next_missing t i pp ≡ none)

module _ (t : TorrentFile) (peer_has : Bitfield) (tag : ℕ) where
  -- The entry at the head is taken, or passed over.
  head_cases :
      (i : ℕ) (pp : PartialPiece)
      → ((r : BlockRequest) × (pp' : PartialPiece) × (Bitfield.get peer_has i ≡ true)
          × (may_take pp.owner tag ≡ true)
          × (next_missing t i pp ≡ some (r, pp')))
        ⊎ NothingFor t peer_has tag i pp
  head_cases i pp = elim (Bool-cases (Bitfield.get peer_has i)) [
    | inr lacks ↦ inr (inl lacks)
    | inl has ↦ elim (Bool-cases (may_take pp.owner tag)) [
      | inr kept ↦ inr (inr (inl kept))
      | inl free ↦ elim (Option-cases (next_missing t i pp)) [
        | inl e ↦ inr (inr (inr e))
        | inr ((r, pp'), e) ↦ inl (r, pp', has, free, e)
      ]
    ]
  ]

  pub pick_active-Picks :
      (ps : Map PartialPiece) {r : BlockRequest} {ps' : Map PartialPiece}
      → pick_active t peer_has tag ps ≡ some (r, ps')
      → Picks t peer_has tag r ps ps'
  unfolding pick_active
  pick_active-Picks [] h = cc
  pick_active-Picks ((i, pp) ∷ ps) {r} {ps'} h = elim (head_cases i pp) [
    | inl (r', pp', has, free, e) ↦
        subst (λ q. Picks t peer_has tag r ((i, pp) ∷ ps) q) (ground arith)
          (here i pp pp' ps has free (ground arith))
    | inr nothing ↦ elim (Option-cases (pick_active t peer_has tag ps)) [
      | inl e ↦ absurd (ground arith)
      | inr ((r', qs), e) ↦
          subst (Picks t peer_has tag r ((i, pp) ∷ ps)) (ground arith)
            (there (i, pp) (pick_active-Picks ps {r = r} {ps' = qs} (ground arith)))
    ]
  ]

  pub pick_active-none :
      (ps : Map PartialPiece)
      → pick_active t peer_has tag ps ≡ none
      → Entries (NothingFor t peer_has tag) ps
  unfolding pick_active
  pick_active-none [] h = tt
  pick_active-none ((i, pp) ∷ ps) h = elim (head_cases i pp) [
    | inl (r, pp', has, free, e) ↦ absurd (ground arith)
    | inr nothing ↦ (nothing, pick_active-none ps (ground arith))
  ]
