-- ===== src/Pieces/Invariant.antt =====
-- What PieceManager keeps true, and the operations that keep it.
use torrent_peer.Prelude.{
  ℕ, zero, suc, ◌+◌, ◌-◌, ◌/◌, ◌%◌, ◌≤◌, ◌<◌, ◌≡◌, refl, sym, ap, ◌∙◌, subst, inl, inr, ◌⊎◌, false,
  List, [], ◌∷◌, Option, some, arith, leb, length, get_or, set, length-set, length-replicate,
  Option-cases, Bool-cases,
}
use torrent_peer.Prelude.Map.{
  Map, Entries, Entries-find, Entries-assign, Entries-emplace, find, assign,
}
use torrent_peer.Torrent.{TorrentFile, piece_size}
use torrent_peer.Torrent.Layout.{IsTiled, piece_size_bounds}
use torrent_peer.Bitfield.{Bitfield, u32_mod, zeros}
use torrent_peer.Bitfield
use torrent_peer.Bitfield.Laws.{get-zeros, zeros-IsValid}
use torrent_peer.Prelude.Loops.{sum_below}
use torrent_peer.Types.{block_size, BlockRequest}
use torrent_peer.Pieces.Have.{IsCounted, marked}
use torrent_peer.Pieces.Blocks.{
  received_count, received_count-set, received_count-fresh, take_missing_sound,
}
use torrent_peer.Pieces.Pick.{Picks, here, there}
use torrent_peer.Pieces.{
  BlockState, missing, requested, received, PartialPiece, PieceManager, is_received, take_missing,
  next_missing, make, fresh_piece, start_piece, set_owner, release_one, release, is_requested,
}

-- An active piece: storage for its bytes, a state for each block, and not all of them received.
pub record PieceOk (t : TorrentFile) (index : ℕ) (pp : PartialPiece) : Type 0 where
  pub in_range : index < length t.pieces
  pub filled : length pp.payload ≡ piece_size t index
  pub blocks : length pp.states ≡ (piece_size t index + block_size - 1) / block_size
  pub counted : pp.received ≡ received_count pp.states
  pub unfinished : pp.received < length pp.states

-- An active piece is not yet had.
pub record ActiveOk (t : TorrentFile) (have_ : Bitfield) (index : ℕ) (pp : PartialPiece)
    : Type 0 where
  pub wanted : Bitfield.get have_ index ≡ false
  pub piece : PieceOk t index pp

pub record Inv (t : TorrentFile) (m : PieceManager) : Type 0 where
  pub accounts : IsCounted t m
  pub actives : Entries (ActiveOk t m.have_) m.active

-- Piece numbers fit the code's `uint32_t`.
abbrev pub IsSmall : TorrentFile → Type 0
IsSmall t = length t.pieces ≤ u32_mod - 8

module _ (t : TorrentFile) (v : IsTiled t) where
  marked-zeros : (n k : ℕ) (w : ℕ → ℕ) → marked n w (zeros k) ≡ 0
  unfolding sum_below
  marked-zeros zero k w = refl
  marked-zeros (suc n) k w = ground (arith, marked-zeros n k w, get-zeros k n)

  -- A new piece manager has the invariant, for a tiled torrent whose number of pieces is at
  -- most 2^32 - 8.
  pub make-Inv : IsSmall t → Inv t (make t)
  unfolding make zeros
  make-Inv s =
      let count : length t.pieces % u32_mod ≡ length t.pieces = omega arith in
      record {
        accounts = record {
          total = count;
          sized = refl;
          field_valid = zeros-IsValid _ (omega arith);
          counted = sym (marked-zeros (length t.pieces % u32_mod) _ _);
          weighed = sym (marked-zeros (length t.pieces % u32_mod) _ _);
        };
        actives = tt;
      }

  -- `next_missing` keeps the piece well formed.
  next_missing-PieceOk :
      (index : ℕ) (pp : PartialPiece) {r : BlockRequest} {pp' : PartialPiece}
      → PieceOk t index pp
      → next_missing t index pp ≡ some (r, pp')
      → PieceOk t index pp'
  unfolding next_missing
  next_missing-PieceOk index pp {r} {pp'} o h = elim (Option-cases (take_missing 0 pp.states)) [
    | inl e ↦ absurd (ground arith)
    | inr ((b, ss), e) ↦
        let (k, at, inside, was, now) = take_missing_sound 0 pp.states e in
        let len = ap length now ∙ length-set pp.states k requested in
        let count = ap received_count now in
        subst (PieceOk t index) (ground arith) (
          let q : PieceOk t index (record pp { states = ss }) = record {
            in_range = o.in_range;
            filled = o.filled;
            blocks = omega (arith, len, o.blocks);
            counted =
                ground (arith, count, received_count-set pp.states k requested inside, o.counted);
            unfinished = omega (arith, len, o.unfinished);
          } in
          q)
  ]

  pub Picks-Entries :
      (bf peer_has : Bitfield) (tag : ℕ) {r : BlockRequest} {ps ps' : Map PartialPiece}
      → Picks t peer_has tag r ps ps'
      → Entries (ActiveOk t bf) ps
      → Entries (ActiveOk t bf) ps'
  Picks-Entries bf peer_has tag (here i pp pp' ps has free e) a =
      (record { wanted = a.0.wanted; piece = next_missing-PieceOk i pp a.0.piece e }, a.1)
  Picks-Entries bf peer_has tag (there e p) a = (a.0, Picks-Entries bf peer_has tag p a.1)

  pub fresh_piece-PieceOk : (i : ℕ) → i < length t.pieces → PieceOk t i (fresh_piece t i)
  unfolding fresh_piece
  fresh_piece-PieceOk i h = record {
    in_range = h;
    filled = length-replicate _ _;
    blocks = length-replicate _ _;
    counted = sym (received_count-fresh _);
    unfinished = omega (
      arith,
      piece_size_bounds t v i h,
      length-replicate ((piece_size t i + block_size - 1) / block_size) missing,
    );
  }

  -- The accounting does not read the active pieces.
  pub with_active :
      (m : PieceManager) (ps : Map PartialPiece)
      → IsCounted t m
      → Entries (ActiveOk t m.have_) ps
      → Inv t (record m { active = ps })
  with_active m ps c a = record {
    accounts = record {
      total = c.total;
      sized = c.sized;
      field_valid = c.field_valid;
      counted = c.counted;
      weighed = c.weighed;
    };
    actives = a;
  }

  -- Another owner, or other states of the blocks that are not received.
  with_owner :
      (i : ℕ) (pp : PartialPiece) (o : Option ℕ)
      → PieceOk t i pp
      → PieceOk t i (record pp { owner = o })
  with_owner i pp o p = record {
    in_range = p.in_range;
    filled = p.filled;
    blocks = p.blocks;
    counted = p.counted;
    unfinished = p.unfinished;
  }

  with_state :
      (i b : ℕ) (s : BlockState) (pp : PartialPiece)
      → b < length pp.states
      → is_received (get_or pp.states b received) ≡ false
      → is_received s ≡ false
      → PieceOk t i pp
      → PieceOk t i (record pp { states = set pp.states b s })
  with_state i b s pp lt was now p = record {
    in_range = p.in_range;
    filled = p.filled;
    blocks = omega (arith, length-set pp.states b s, p.blocks);
    counted = ground (arith, received_count-set pp.states b s lt, p.counted);
    unfinished = omega (arith, length-set pp.states b s, p.unfinished);
  }

  pub start_piece-Inv :
      (m : PieceManager) (i : ℕ)
      → Inv t m
      → i < length t.pieces
      → Bitfield.get m.have_ i ≡ false
      → Inv t (start_piece t m i).1
  unfolding start_piece
  start_piece-Inv m i v' h new = elim (Option-cases (next_missing t i (fresh_piece t i))) [
    | inl e ↦
        rw (e, start_piece)
          (with_active m _ v'.accounts (
            Entries-emplace (ActiveOk t m.have_) m.active i _
              (record { wanted = new; piece = fresh_piece-PieceOk i h }) v'.actives))
    | inr ((r, pp), e) ↦
        rw (e, start_piece)
          (with_active m _ v'.accounts (
            Entries-emplace (ActiveOk t m.have_) m.active i _
              (record {
                wanted = new;
                piece = next_missing-PieceOk i _ (fresh_piece-PieceOk i h) e;
              })
              v'.actives))
  ]

  pub set_owner-Inv : (m : PieceManager) (i : ℕ) (o : Option ℕ) → Inv t m → Inv t (set_owner m i o)
  unfolding set_owner
  set_owner-Inv m i o v' = elim (Option-cases (find m.active i)) [
    | inl e ↦ rw (e, set_owner) v'
    | inr (pp, e) ↦
        let a = Entries-find (ActiveOk t m.have_) m.active i v'.actives e in
        rw (e, set_owner)
          (with_active m _ v'.accounts (
            Entries-assign (ActiveOk t m.have_) m.active i _
              (record { wanted = a.wanted; piece = with_owner i pp o a.piece }) v'.actives))
  ]

  -- The two outcomes of releasing one request.
  pub release_one_cases :
      (m : PieceManager) (req : BlockRequest)
      → (release_one m req ≡ m)
        ⊎ ((pp : PartialPiece) × (find m.active req.piece_index ≡ some pp)
            × (req.offset / block_size < length pp.states)
            × (get_or pp.states (req.offset / block_size) received ≡ requested)
            × (release_one m req ≡ record m {
              active =
                  assign m.active req.piece_index
                    (record pp { states = set pp.states (req.offset / block_size) missing });
            }))
  unfolding release_one
  release_one_cases m req = elim (Option-cases (find m.active req.piece_index)) [
    | inl e ↦ inl (rw (e, release_one))
    | inr (pp, e) ↦ elim (Bool-cases (leb (length pp.states) (req.offset / block_size))) [
      | inl past ↦ inl (ground arith)
      | inr inside ↦
          elim (Bool-cases (is_requested (get_or pp.states (req.offset / block_size) received))) [
            | inl was ↦ inr (pp, e, ground arith, ground arith, ground arith)
            | inr other ↦ inl (ground arith)
          ]
    ]
  ]

  release_one-Inv : (m : PieceManager) (req : BlockRequest) → Inv t m → Inv t (release_one m req)
  release_one-Inv m req v' = elim (release_one_cases m req) [
    | inl e ↦ subst (Inv t) (sym e) v'
    | inr (pp, found, inside, was, e) ↦
        let a = Entries-find (ActiveOk t m.have_) m.active req.piece_index v'.actives found in
        subst (Inv t) (sym e) (
          with_active m _ v'.accounts (
            Entries-assign (ActiveOk t m.have_) m.active req.piece_index _
              (record {
                wanted = a.wanted;
                piece = with_state req.piece_index _ missing pp inside (ground arith) refl a.piece;
              })
              v'.actives))
  ]

  -- release keeps the invariant of the piece manager.
  pub release-Inv : (m : PieceManager) (reqs : List BlockRequest) → Inv t m → Inv t (release m reqs)
  unfolding release
  release-Inv m [] v' = v'
  release-Inv m (r ∷ rs) v' = release-Inv (release_one m r) rs (release_one-Inv m r v')
