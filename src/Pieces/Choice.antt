-- ===== src/Pieces/Choice.antt =====
-- What `pick_block` returns: a block that is wanted and on offer, of a rarest piece where a new
-- piece is begun, and nothing only where there is nothing to ask for.
use torrent_peer.Prelude.{
  ℕ, ◌+◌, ◌-◌, ◌/◌, ◌%◌, ◌≤◌, ◌<◌, ◌≡◌, refl, subst, inl, inr, ◌⊎◌, ◌≢◌, true, false, List, [], ◌∷◌,
  none, some, arith, length, length-replicate, get_or, replicate, All, get_or-replicate,
  All-get_or_lt, List-cases, Option-cases, Bool-cases,
}
use torrent_peer.Prelude.Map.{Map, Entries, contains}
use torrent_peer.Torrent.{TorrentFile, piece_size}
use torrent_peer.Torrent.Layout.{IsTiled, piece_size_bounds}
use torrent_peer.Bitfield.{Bitfield, u32_mod}
use torrent_peer.Bitfield
use torrent_peer.Types.{block_size, BlockRequest}
use torrent_peer.Pieces.Blocks.{take_missing_sound, take_missing-none}
use torrent_peer.Pieces.Rarest.{rarest-Scanned, drawn, drawn_lt}
use torrent_peer.Pieces.Pick.{Picks, here, there, NothingFor, pick_active-Picks, pick_active-none}
use torrent_peer.Pieces.Invariant.{
  PieceOk, ActiveOk, Inv, Picks-Entries, start_piece-Inv, fresh_piece-PieceOk, with_active,
}
use torrent_peer.Pieces.{
  PieceManager, PartialPiece, missing, received, take_missing, request_for, next_missing,
  pick_active, is_candidate, rarest, fresh_piece, start_piece, pick_block,
}

-- A request that the peer can serve: an aligned block, or what the last block has of it.
pub record RequestOk (t : TorrentFile) (r : BlockRequest) : Type 0 where
  pub aligned : r.offset % block_size ≡ 0
  pub nonempty : 0 < r.length
  pub at_most : r.length ≤ block_size
  pub inside : r.offset + r.length ≤ piece_size t r.piece_index

-- What is true of an offered block: the peer has the piece, it is wanted, the request is sound.
pub record OfferOk (t : TorrentFile) (m : PieceManager) (peer_has : Bitfield) (r : BlockRequest)
    : Type 0 where
  pub offered : Bitfield.get peer_has r.piece_index ≡ true
  pub wanted : Bitfield.get m.have_ r.piece_index ≡ false
  pub request : RequestOk t r

module _ (t : TorrentFile) (v : IsTiled t) where
  request_for-RequestOk :
      (i k : ℕ)
      → i < length t.pieces
      → k < (piece_size t i + block_size - 1) / block_size
      → RequestOk t (request_for t i k)
  unfolding request_for
  request_for-RequestOk i k h lt = omega (arith, v, piece_size_bounds t v i h)

  next_missing-RequestOk :
      (i : ℕ) (pp : PartialPiece) {r : BlockRequest} {pp' : PartialPiece}
      → PieceOk t i pp
      → next_missing t i pp ≡ some (r, pp')
      → RequestOk t r × (r.piece_index ≡ i)
  unfolding next_missing
  next_missing-RequestOk i pp {r} {pp'} o h = elim (Option-cases (take_missing 0 pp.states)) [
    | inl e ↦ absurd (ground arith)
    | inr ((b, ss), e) ↦
        let (k, at, lt, was, now) = take_missing_sound 0 pp.states e in
        subst (λ q. RequestOk t q × (q.piece_index ≡ i)) (ground arith)
          (
            request_for-RequestOk i b o.in_range (omega (arith, at, lt, o.blocks)),
            unfold request_for in refl,
          )
  ]

  -- A new piece has a first block.
  next_missing_fresh : (c : ℕ) → c < length t.pieces → next_missing t c (fresh_piece t c) ≢ none
  unfolding next_missing fresh_piece
  next_missing_fresh c lt e =
      let n = (piece_size t c + block_size - 1) / block_size in
      let some_block : 0 < n = omega (arith, piece_size_bounds t v c lt) in
      take_missing-none 0 (replicate n missing) (ground (arith, e)) 0
        (omega (arith, some_block, length-replicate n missing))
        (get_or-replicate n 0 missing received some_block)

  Picks-OfferOk :
      (m : PieceManager) (peer_has : Bitfield) (tag : ℕ) {r : BlockRequest}
      {ps ps' : Map PartialPiece}
      → Picks t peer_has tag r ps ps'
      → Entries (ActiveOk t m.have_) ps
      → OfferOk t m peer_has r
  Picks-OfferOk m peer_has tag (here i pp pp' ps has free e) a =
      let (q, at) = next_missing-RequestOk i pp a.0.piece e in
      record { offered = rw at has; wanted = rw at a.0.wanted; request = q }
  Picks-OfferOk m peer_has tag (there e p) a = Picks-OfferOk m peer_has tag p a.1

module _ (t : TorrentFile) (v : IsTiled t) (m : PieceManager) (peer_has : Bitfield)
    (availability : List ℕ) (tag draw : ℕ) (inv : Inv t m)
    (top : (i : ℕ) → get_or availability i 0 ≤ 65535) where
  -- The three ways in which `pick_block` ends.
  pick_block_cases :
      ((r : BlockRequest) × (ps : Map PartialPiece) × (pick_active t peer_has tag m.active
          ≡ some (r, ps))
        × (pick_block t m peer_has availability tag draw ≡ (some r, record m { active = ps })))
      ⊎ ((pick_active t peer_has tag m.active ≡ none)
          × (rarest m peer_has availability ≡ [])
          × (pick_block t m peer_has availability tag draw ≡ (none, m)))
      ⊎ ((c : ℕ) × (pick_active t peer_has tag m.active ≡ none)
          × (c < m.piece_count)
          × (is_candidate m peer_has c ≡ true)
          × ((j : ℕ)
              → j < m.piece_count
              → is_candidate m peer_has j ≡ true
              → get_or availability c 0 ≤ get_or availability j 0)
          × (pick_block t m peer_has availability tag draw ≡ start_piece t m c))
  unfolding pick_block
  pick_block_cases = elim (Option-cases (pick_active t peer_has tag m.active)) [
    | inr ((r, ps), e) ↦ inl (r, ps, e, ground arith)
    | inl e ↦
        let (best, scan) = rarest-Scanned m peer_has availability top in
        elim (List-cases (rarest m peer_has availability)) [
          | inl none_left ↦ inr (inl (e, none_left, ground arith))
          | inr (c, cs, some_left) ↦
              let (lt, fit, best_at) =
                All-get_or_lt _ (c ∷ cs) (draw % length (c ∷ cs)) 0 (drawn_lt draw c cs)
                  (subst (All _) some_left scan.kept) in
              inr (
                inr (
                  drawn draw c cs,
                  e,
                  lt,
                  fit,
                  (λ j j_lt j_fit. omega (arith, best_at, scan.least j j_lt j_fit)),
                  ground arith,
                ))
        ]
  ]

  candidate_new :
      (c : ℕ)
      → is_candidate m peer_has c ≡ true
      → (Bitfield.get m.have_ c ≡ false)
        × (contains m.active c ≡ false)
        × (Bitfield.get peer_has c ≡ true)
  unfolding is_candidate
  candidate_new c h = ground arith

  -- pick_block keeps the invariant of the piece manager, given availabilities that fit a
  -- uint16_t.
  pub pick_block-Inv : Inv t (pick_block t m peer_has availability tag draw).1
  pick_block-Inv = elim pick_block_cases [
    | inl (r, ps, e, out) ↦ rw out (
        with_active t v m ps inv.accounts (
          Picks-Entries t v m.have_ peer_has tag (pick_active-Picks t peer_has tag m.active e)
            inv.actives))
    | inr (inl (_, _, out)) ↦ rw out inv
    | inr (inr (c, _, lt, fit, _, out)) ↦ rw out (
        start_piece-Inv t v m c inv (omega (arith, inv.accounts.total, lt)) (candidate_new c fit).0)
  ]

  start_piece-some :
      (c : ℕ)
      → c < length t.pieces
      → (r : BlockRequest) × ((start_piece t m c).0 ≡ some r) × RequestOk t r × (r.piece_index ≡ c)
  unfolding start_piece
  start_piece-some c lt = elim (Option-cases (next_missing t c (fresh_piece t c))) [
    | inl e ↦ absurd (next_missing_fresh t v c lt e)
    | inr ((r, pp), e) ↦
        let (q, at) = next_missing-RequestOk t v c _ (fresh_piece-PieceOk t v c lt) e in
        (r, ground arith, q, at)
  ]

  -- For a manager that keeps the invariant, and availabilities that fit a uint16_t, a block
  -- that pick_block offers is of a piece that the peer has and that is not had yet; it starts
  -- at a multiple of the block size, is 1 to 16384 bytes long and ends inside the piece.
  pub pick_block_sound :
      (r : BlockRequest)
      → (pick_block t m peer_has availability tag draw).0 ≡ some r
      → OfferOk t m peer_has r
  pick_block_sound r h = elim pick_block_cases [
    | inl (r', ps, e, out) ↦
        subst (OfferOk t m peer_has) (ground (arith, out, h)) (
          Picks-OfferOk t v m peer_has tag (pick_active-Picks t peer_has tag m.active e)
            inv.actives)
    | inr (inl (_, _, out)) ↦ absurd (ground (arith, out, h))
    | inr (inr (c, _, lt, fit, _, out)) ↦
        let (r', e, q, at) = start_piece-some c (omega (arith, inv.accounts.total, lt)) in
        let (new, _, has) = candidate_new c fit in
        subst (OfferOk t m peer_has) (ground (arith, out, h, e))
          (record { offered = rw at has; wanted = rw at new; request = q })
  ]

  -- Under the invariant, and with availabilities that fit a uint16_t, when pick_block offers
  -- nothing the manager is unchanged, no active piece that the peer may be given has a missing
  -- block, and no piece is a candidate to start.
  pub pick_block-none :
      (pick_block t m peer_has availability tag draw).0 ≡ none
      → ((pick_block t m peer_has availability tag draw).1 ≡ m)
        × Entries (NothingFor t peer_has tag) m.active
        × ((j : ℕ) → j < m.piece_count → is_candidate m peer_has j ≡ false)
  pick_block-none h = elim pick_block_cases [
    | inl (r, ps, e, out) ↦ absurd (ground (arith, out, h))
    | inr (inl (e, empty, out)) ↦
        let (best, scan) = rarest-Scanned m peer_has availability top in
        (
          ground (arith, out),
          pick_active-none t peer_has tag m.active e,
          (λ j lt. elim (Bool-cases (is_candidate m peer_has j)) [
            | inl fit ↦ absurd ((scan.least j lt fit).1 empty)
            | inr unfit ↦ unfit
          ]),
        )
    | inr (inr (c, _, lt, fit, _, out)) ↦
        let (r', e, _, _) = start_piece-some c (omega (arith, inv.accounts.total, lt)) in
        absurd (ground (arith, out, h, e))
  ]

  -- Under the invariant, and with availabilities that fit a uint16_t, when no active piece
  -- gives a block, the piece that pick_block starts is a candidate, and no candidate is less
  -- available.
  pub pick_block_rarest :
      (r : BlockRequest)
      → pick_active t peer_has tag m.active ≡ none
      → (pick_block t m peer_has availability tag draw).0 ≡ some r
      → (is_candidate m peer_has r.piece_index ≡ true)
        × ((j : ℕ)
            → j < m.piece_count
            → is_candidate m peer_has j ≡ true
            → get_or availability r.piece_index 0 ≤ get_or availability j 0)
  pick_block_rarest r e h = elim pick_block_cases [
    | inl (r', ps, e', out) ↦ absurd (ground (arith, e, e'))
    | inr (inl (_, _, out)) ↦ absurd (ground (arith, out, h))
    | inr (inr (c, _, lt, fit, least, out)) ↦
        let (r', e', _, at) = start_piece-some c (omega (arith, inv.accounts.total, lt)) in
        let same : c ≡ r.piece_index = ground (arith, out, h, e', at) in
        subst
          (λ k.
            (is_candidate m peer_has k ≡ true)
            × ((j : ℕ)
                → j < m.piece_count
                → is_candidate m peer_has j ≡ true
                → get_or availability k 0 ≤ get_or availability j 0))
          same (fit, least)
  ]
