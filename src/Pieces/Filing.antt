-- ===== src/Pieces/Filing.antt =====
-- What `on_block` does with an arrived block, on every branch.
use torrent_peer.Prelude.{
  ℕ, ◌+◌, ◌/◌, ◌%◌, ◌<◌, ◌≡◌, refl, sym, subst, inl, inr, true, false, ◌||◌, some, arith, ◌==◌,
  length, get_or, set, length-set, Result, ok, Option-cases, Bool-cases, dec_lt, dec_le, ℕ_discrete,
}
use torrent_peer.Prelude.Map.{
  Entries, Entries-find, Entries-assign, Entries-erase, find, assign, erase,
}
use torrent_peer.Torrent.{Bytes, TorrentFile}
use torrent_peer.Torrent.Layout.{IsTiled, piece_size_bounds}
use torrent_peer.Bitfield.{Bitfield, u32_mod}
use torrent_peer.Bitfield
use torrent_peer.Types.{block_size, Block}
use torrent_peer.Pieces.Have.{mark_have_total}
use torrent_peer.Pieces.Invariant.{ActiveOk, Inv, with_active}
use torrent_peer.Pieces.{
  received, PartialPiece, PieceManager, rejected, incomplete, piece_verified, piece_failed,
  BlockResult, is_received, refused, verify, finish_piece, file_block, check_block, on_block,
  no_piece,
}
use torrent_peer.Pieces.Accepted.{
  stored, reset, Accepted, AllReceived, StillMissing, Accepted-ActiveOk, stored-PieceOk,
  reset-PieceOk, others-ActiveOk, stored-StillMissing, stored-AllReceived,
}

-- The verdicts of `on_block`, and the manager after each.
pub data Verdict (sha1 : Bytes → Bytes) (t : TorrentFile) (m : PieceManager) (block : Block)
    (out : BlockResult) (m' : PieceManager) : Type 0 where
  refuses :
      out.status ≡ rejected
      → ((pp : PartialPiece) → Accepted m block pp → ⊥)
      → m' ≡ m
      → Verdict sha1 t m block out m'
  stores :
      (pp : PartialPiece)
      → Accepted m block pp
      → out.status ≡ incomplete
      → StillMissing pp block
      → m' ≡ record m { active = assign m.active block.piece_index (stored pp block) }
      → Verdict sha1 t m block out m'
  fails :
      (pp : PartialPiece)
      → Accepted m block pp
      → AllReceived pp block
      → out.status ≡ piece_failed
      → out.piece ≡ record { index = block.piece_index; payload = (stored pp block).payload }
      → verify sha1 t block.piece_index (stored pp block).payload ≡ false
      → m' ≡ record m { active = assign m.active block.piece_index (reset (stored pp block)) }
      → Verdict sha1 t m block out m'
  completes :
      (pp : PartialPiece)
      → Accepted m block pp
      → AllReceived pp block
      → out.status ≡ piece_verified
      → out.piece ≡ record { index = block.piece_index; payload = (stored pp block).payload }
      → verify sha1 t block.piece_index (stored pp block).payload ≡ true
      → ((j : ℕ) → Bitfield.get m'.have_ j ≡ (block.piece_index == j || Bitfield.get m.have_ j))
      → m'.have_count ≡ m.have_count + 1
      → m'.active ≡ erase m.active block.piece_index
      → Verdict sha1 t m block out m'

module _ (t : TorrentFile) (v : IsTiled t) (m : PieceManager) (inv : Inv t m) (block : Block) where
  module _ (sha1 : Bytes → Bytes) where
    -- What a call gives: a verdict, and a well-formed manager; it throws nothing.
    abbrev pub Answers : Result (BlockResult × PieceManager) → Type 0
    Answers res =
        (out : BlockResult) × (m' : PieceManager) × (res ≡ ok (out, m'))
        × Inv t m'
        × Verdict sha1 t m block out m'

    completed :
        (pp : PartialPiece)
        → Accepted m block pp
        → AllReceived pp block
        → verify sha1 t block.piece_index (stored pp block).payload ≡ true
        → block.piece_index < m.piece_count
        → Answers (finish_piece t m block.piece_index (stored pp block).payload)
    unfolding finish_piece
    completed pp a all good lt =
        let gone = record m { active = erase m.active block.piece_index } in
        let c =
          (with_active t v m (erase m.active block.piece_index) inv.accounts
            (Entries-erase (ActiveOk t m.have_) m.active block.piece_index inv.actives)).accounts in
        let (m', e, c', bits, act, _, up) =
          mark_have_total t v gone block.piece_index c lt
            (Accepted-ActiveOk t v m inv block pp a).wanted in
        (
          _,
          m',
          rw e,
          record {
            accounts = c';
            actives =
                subst (Entries (ActiveOk t m'.have_)) (sym act)
                  (others-ActiveOk t v m inv block m' bits);
          },
          completes pp a all refl refl good bits up act,
        )

    -- The count of blocks does not wrap around, and setting a state keeps their number.
    small_count :
        (pp : PartialPiece)
        → Accepted m block pp
        → ((pp.received + 1) % u32_mod ≡ pp.received + 1)
          × (length (set pp.states (block.offset / block_size) received) ≡ length pp.states)
    small_count pp a =
        let o = (Accepted-ActiveOk t v m inv block pp a).piece in
        (
          omega (
            arith,
            o.blocks,
            o.unfinished,
            v.capped,
            piece_size_bounds t v block.piece_index o.in_range,
          ),
          length-set pp.states (block.offset / block_size) received,
        )

    filed :
        (pp : PartialPiece)
        → Accepted m block pp
        → block.piece_index < m.piece_count
        → Answers (file_block sha1 t m block pp)
    unfolding file_block
    filed pp a lt =
        let (count, len) = small_count pp a in
        elim (dec_lt (pp.received + 1) (length pp.states)) [
          | yes more ↦ (
            record { status = incomplete; piece = no_piece },
            record m { active = assign m.active block.piece_index (stored pp block) },
            ground (arith, count, len, more),
            with_active t v m _ inv.accounts (
                Entries-assign (ActiveOk t m.have_) m.active block.piece_index _
                  (record {
                    wanted = (Accepted-ActiveOk t v m inv block pp a).wanted;
                    piece = stored-PieceOk t v m inv block pp a more;
                  })
                  inv.actives),
            stores pp a refl (stored-StillMissing t v m inv block pp a more) refl,
          )
          | no full ↦
              elim (Bool-cases (verify sha1 t block.piece_index (stored pp block).payload)) [
                | inr bad ↦ (
                  record {
                    status = piece_failed;
                    piece = record {
                      index = block.piece_index;
                      payload = (stored pp block).payload;
                    };
                  },
                  record m { active = assign m.active block.piece_index (reset (stored pp block)) },
                  ground (arith, count, len, full, bad),
                  with_active t v m _ inv.accounts (
                      Entries-assign (ActiveOk t m.have_) m.active block.piece_index _
                        (record {
                          wanted = (Accepted-ActiveOk t v m inv block pp a).wanted;
                          piece = reset-PieceOk t v m inv block pp a;
                        })
                        inv.actives),
                  fails pp a (stored-AllReceived t v m inv block pp a (omega (arith, full))) refl
                      refl bad refl,
                )
                | inl good ↦
                    let (out, m', e, i, w) =
                      completed pp a (stored-AllReceived t v m inv block pp a (omega (arith, full)))
                        good lt in
                    (out, m', ground (arith, count, len, full, good, e), i, w)
              ]
        ]

    refusal : ((pp : PartialPiece) → Accepted m block pp → ⊥) → Answers (refused m)
    refusal bad =
        (record { status = rejected; piece = no_piece }, m, refl, inv, refuses refl bad refl)

    -- A block that is not accepted is refused by one of the guards.
    checked :
        (pp : PartialPiece)
        → find m.active block.piece_index ≡ some pp
        → block.piece_index < m.piece_count
        → Answers (check_block sha1 t m block pp)
    unfolding check_block
    checked pp e lt =
        let b = block.offset / block_size in
        let refuse : check_block sha1 t m block pp ≡ refused m
            → ((q : PartialPiece) → Accepted m block q → ⊥)
            → Answers (check_block sha1 t m block pp) =
          λ eq bad. subst Answers (sym eq) (refusal bad) in
        elim (ℕ_discrete (block.offset % block_size) 0) [
          | no odd ↦ refuse (ground (arith, odd)) (λ q a. odd a.aligned)
          | yes even ↦ elim (dec_lt b (length pp.states)) [
            | no past ↦ refuse (ground (arith, even, past)) (λ q a. ground (arith, e, past, a))
            | yes known ↦ elim (dec_le (block.offset + length block.payload) (length pp.payload)) [
              | no long ↦
                  refuse (ground (arith, even, known, long)) (λ q a. ground (arith, e, long, a))
              | yes inside ↦ elim (Bool-cases (is_received (get_or pp.states b received))) [
                | inl old ↦
                    refuse (ground (arith, even, known, inside, old))
                      (λ q a. ground (arith, e, old, a))
                | inr new ↦ subst Answers (sym (ground (arith, even, known, inside, new))) (
                    filed pp
                      (record {
                        active = e;
                        aligned = even;
                        known = known;
                        inside = inside;
                        new = new;
                      })
                      lt)
              ]
            ]
          ]
        ]

    -- For a manager that keeps the invariant, on_block throws nothing and keeps the
    -- invariant. It rejects and changes nothing just when the block is not of an active
    -- piece, not aligned, not inside, or had already. Otherwise it stores the block: while a
    -- block of the piece is still missing, that is all; when every block of it is received,
    -- it hands out the finished piece, which is verified and had from then on when its hash
    -- is right, and else failed with all its blocks to be asked for again.
    pub on_block_total : Answers (on_block sha1 t m block)
    unfolding on_block
    on_block_total = elim (Option-cases (find m.active block.piece_index)) [
      | inl e ↦ subst Answers (sym (ground (arith, e))) (refusal (λ pp a. cc (a.active, e)))
      | inr (pp, e) ↦
          let w = (Entries-find (ActiveOk t m.have_) m.active block.piece_index inv.actives e) in
          let lt : block.piece_index < m.piece_count =
            omega (arith, inv.accounts.total, w.piece.in_range) in
          subst Answers (sym (ground (arith, e, lt, w.wanted))) (checked pp e lt)
    ]
