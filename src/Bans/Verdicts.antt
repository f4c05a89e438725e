-- ===== src/Bans/Verdicts.antt =====
-- Whom BanManager bans: the senders of blocks that do not match, and no others.
use torrent_peer.Prelude.{
  ℕ, zero, suc, ◌+◌, ◌≡◌, refl, sym, ap, subst, inl, inr, ◌⊎◌, ◌↔◌, Bool, true, false, not, ◌||◌,
  ◌&&◌, List, [], ◌∷◌, ◌++◌, none, some, arith, get_elem?, Option-cases, Bool-cases, same_bytes,
  same_bytes_iff,
}
use native.Mathlib.Nat.{add-zero}
use torrent_peer.Prelude.Map.{find, find-erase_self}
use torrent_peer.Torrent.{Bytes}
use torrent_peer.Types.{CompletedPiece}
use torrent_peer.Bans.{
  Evidence, BanManager, block_matches, has_host, accuse, compare_blocks, on_piece_verified,
}

-- `h` is the host of the sender of a block of the evidence, from block `b` on, that does not match.
pub record Guilty (m : BanManager) (ev : Evidence) (piece : CompletedPiece) (h : Bytes) (b : ℕ)
    (ss : List ℕ) : Type 0 where
  pub block : ℕ
  pub sender : ℕ
  pub sent : get_elem? ss block ≡ some sender
  pub mismatch : block_matches ev piece (b + block) ≡ false
  pub known : find m.hosts sender ≡ some h

has_host-append :
    (h g : Bytes) (bs : List Bytes) → has_host h (bs ++ g ∷ []) ≡ (has_host h bs || same_bytes g h)
unfolding has_host
has_host-append h g [] = ground arith
has_host-append h g (x ∷ bs) = ground (arith, has_host-append h g bs)

module _ (m : BanManager) (ev : Evidence) (piece : CompletedPiece) (h : Bytes) where
  -- Block numbers, counted from the next round.
  shift : (b k : ℕ) → b + 1 + k ≡ b + suc k
  shift b k = omega arith

  -- The test that the host of peer `s` is `h`.
  is_host : ℕ → Bool
  is_host s = elim (find m.hosts s) [ none ↦ false | some g ↦ same_bytes g h ]

  is_host_iff : (s : ℕ) → (is_host s ≡ true) ↔ (find m.hosts s ≡ some h)
  unfolding is_host
  is_host_iff s = elim (Option-cases (find m.hosts s)) [
    | inl e ↦ ((λ x. absurd (ground (arith, e, x))), (λ x. absurd (ground (arith, e, x))))
    | inr (g, e) ↦ (
      (λ x. ground (arith, e, x, same_bytes_iff g h)),
      (λ x. ground (arith, e, x, same_bytes_iff g h)),
    )
  ]

  -- After a round, a host is in the bans if it was, or if the round's sender is at fault.
  has_host-accuse :
      (b s : ℕ) (bans : List Bytes)
      → has_host h (accuse m ev piece b s bans)
        ≡ (has_host h bans || (not (block_matches ev piece b) && is_host s))
  unfolding accuse is_host
  has_host-accuse b s bans = elim (Option-cases (find m.hosts s)) [
    | inl e ↦ ground (arith, e)
    | inr (g, e) ↦ elim (Bool-cases (same_bytes g h)) [
      | inl same ↦
          let at : g ≡ h = (same_bytes_iff g h).0 same in
          ground (arith, e, same, ap (λ k. has_host k bans) at, has_host-append h g bans)
      | inr other ↦ ground (arith, e, other, has_host-append h g bans)
    ]
  ]

  compare_blocks_sound :
      (b : ℕ) (ss : List ℕ) (bans : List Bytes)
      → has_host h (compare_blocks m ev piece b ss bans) ≡ true
      → (has_host h bans ≡ true) ⊎ Guilty m ev piece h b ss
  unfolding compare_blocks
  compare_blocks_sound b [] bans x = inl x
  compare_blocks_sound b (s ∷ ss) bans x =
      elim (compare_blocks_sound (b + 1) ss (accuse m ev piece b s bans) x) [
        | inr g ↦ inr (record {
          block = suc g.block;
          sender = g.sender;
          sent = g.sent;
          mismatch = subst (λ k. block_matches ev piece k ≡ false) (shift b g.block) g.mismatch;
          known = g.known;
        })
        | inl y ↦ elim (Bool-cases (has_host h bans)) [
          | inl was ↦ inl was
          | inr new ↦ inr (record {
            block = 0;
            sender = s;
            sent = refl;
            mismatch = rw (add-zero b) (ground (arith, has_host-accuse b s bans, y, new));
            known = (is_host_iff s).0 (ground (arith, has_host-accuse b s bans, y, new));
          })
        ]
      ]

  compare_blocks_keeps :
      (b : ℕ) (ss : List ℕ) (bans : List Bytes)
      → has_host h bans ≡ true
      → has_host h (compare_blocks m ev piece b ss bans) ≡ true
  unfolding compare_blocks
  compare_blocks_keeps b [] bans x = x
  compare_blocks_keeps b (s ∷ ss) bans x =
      compare_blocks_keeps (b + 1) ss (accuse m ev piece b s bans)
        (ground (arith, has_host-accuse b s bans, x))

  compare_blocks_complete :
      (b k s : ℕ) (ss : List ℕ) (bans : List Bytes)
      → get_elem? ss k ≡ some s
      → block_matches ev piece (b + k) ≡ false
      → find m.hosts s ≡ some h
      → has_host h (compare_blocks m ev piece b ss bans) ≡ true
  unfolding compare_blocks
  compare_blocks_complete b k s [] bans e f g = cc
  compare_blocks_complete b zero s (r ∷ ss) bans e f g =
      compare_blocks_keeps (b + 1) ss (accuse m ev piece b r bans) (
        ground (
          arith,
          has_host-accuse b r bans,
          e,
          g,
          (is_host_iff s).1 g,
          ap (block_matches ev piece) (add-zero b),
          f,
        ))
  compare_blocks_complete b (suc k) s (r ∷ ss) bans e f g =
      compare_blocks_complete (b + 1) k s ss (accuse m ev piece b r bans) e
        (subst (λ j. block_matches ev piece j ≡ false) (sym (shift b k)) f) g

-- When there is evidence for the verified piece, a host is banned just when a block of the failed
-- attempt that a peer of that host sent differs from the good piece.
pub on_piece_verified_iff :
    (m : BanManager) (ev : Evidence) (piece : CompletedPiece) (h : Bytes)
    → find m.evidence piece.index ≡ some ev
    → (has_host h (on_piece_verified m piece).0 ≡ true) ↔ Guilty m ev piece h 0 ev.senders
unfolding on_piece_verified has_host
on_piece_verified_iff m ev piece h e =
    rw (e, on_piece_verified)
      (
        (λ x. elim (compare_blocks_sound m ev piece h 0 ev.senders [] x) [
          | inl none_yet ↦ absurd (ground (arith, none_yet))
          | inr g ↦ g
        ]),
        (λ g.
            compare_blocks_complete m ev piece h 0 g.block g.sender ev.senders [] g.sent g.mismatch
              g.known),
      )

-- Nobody is banned for a verified piece with no failed copy on record; in both cases the piece is
-- forgotten.
pub on_piece_verified_forgets :
    (m : BanManager) (piece : CompletedPiece)
    → (find m.evidence piece.index ≡ none → (on_piece_verified m piece).0 ≡ [])
      × (find (on_piece_verified m piece).1.senders piece.index ≡ none)
      × (find (on_piece_verified m piece).1.evidence piece.index ≡ none)
      × (find (on_piece_verified m piece).1.retry_owner piece.index ≡ none)
unfolding on_piece_verified
on_piece_verified_forgets m piece = elim (Option-cases (find m.evidence piece.index)) [
  | inl e ↦
      rw (e, on_piece_verified)
        (
          (λ _. refl),
          find-erase_self m.senders piece.index,
          e,
          find-erase_self m.retry_owner piece.index,
        )
  | inr (ev, e) ↦
      rw (e, on_piece_verified)
        (
          (λ absent. absurd (ground (arith, e, absent))),
          find-erase_self m.senders piece.index,
          find-erase_self m.evidence piece.index,
          find-erase_self m.retry_owner piece.index,
        )
]
