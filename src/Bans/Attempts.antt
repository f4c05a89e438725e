-- ===== src/Bans/Attempts.antt =====
-- What a failed attempt at a piece leads to, over `on_piece_failed` and `on_piece_verified` of
-- src/runtime/managers/ban_manager.cpp.
use torrent_peer.Prelude.{
  ℕ, ◌≡◌, refl, sym, ap, ◌∙◌, subst, inl, inr, ◌↔◌, true, false, List, [], ◌∷◌, none, some, arith,
  get_elem?, Option-cases, Bool-cases, ◌⊎◌,
}
use torrent_peer.Prelude.Map.{find, emplace, contains, find-emplace}
use torrent_peer.Torrent.{Bytes}
use torrent_peer.Types.{CompletedPiece}
use torrent_peer.Bans.{
  Evidence, BanManager, all_same, blame, on_piece_failed, has_host, on_piece_verified, slots,
}
use torrent_peer.Bans.Verdicts.{Guilty, on_piece_verified_iff, on_piece_verified_forgets}
use torrent_peer.Bans.Senders.{Mixed, all_same-Mixed, slots_of, slots-none}

-- The evidence about a piece when `bad` has failed: that of an earlier attempt, if there is any, and
-- else the bytes and the senders of `bad`, if they are several.
pub data OnRecord (m : BanManager) (bad : CompletedPiece) (ev : Evidence) : Type 0 where
  earlier : find m.evidence bad.index ≡ some ev → OnRecord m bad ev
  first_failure :
      (senders : List ℕ)
      → find m.evidence bad.index ≡ none
      → find m.senders bad.index ≡ some senders
      → Mixed senders
      → ev ≡ record { payload = bad.payload; senders = senders }
      → OnRecord m bad ev

-- Without evidence from several senders, `on_piece_failed` leaves the evidence as it is.
evidence_stays :
    (m : BanManager) (bad : CompletedPiece)
    → (slots m.senders bad.index ≡ [])
      ⊎ ((first : ℕ) × (rest : List ℕ) × (slots m.senders bad.index ≡ first ∷ rest)
          × (all_same first rest ≡ true))
    → (on_piece_failed m bad).1.evidence ≡ m.evidence
unfolding on_piece_failed blame all_same
evidence_stays m bad (inl e) = ground (arith, e)
evidence_stays m bad (inr (first, rest, e, same)) = rw (e, on_piece_failed) (ground (arith, same))

-- With several senders, their piece is emplaced.
evidence_added :
    (m : BanManager) (bad : CompletedPiece) (first : ℕ) (rest : List ℕ)
    → slots m.senders bad.index ≡ first ∷ rest
    → all_same first rest ≡ false
    → (on_piece_failed m bad).1.evidence
      ≡ emplace m.evidence bad.index (record { payload = bad.payload; senders = first ∷ rest })
unfolding on_piece_failed blame all_same
evidence_added m bad first rest e other = rw (e, on_piece_failed) (ground (arith, other))

emplace_old :
    (m : BanManager) (k : ℕ) (ev new : Evidence)
    → find m.evidence k ≡ some ev
    → find (emplace m.evidence k new) k ≡ some ev
unfolding emplace contains
emplace_old m k ev new e = rw (e, contains) e

emplace_new :
    (m : BanManager) (k : ℕ) (new : Evidence)
    → find m.evidence k ≡ none
    → find (emplace m.evidence k new) k ≡ some new
emplace_new m k new e = ground (arith, find-emplace m.evidence k k new e)

-- Nothing is added when the senders are not several.
stays_iff :
    (m : BanManager) (bad : CompletedPiece) (ev : Evidence)
    → (on_piece_failed m bad).1.evidence ≡ m.evidence
    → ((ss : List ℕ) → find m.senders bad.index ≡ some ss → ¬ Mixed ss)
    → (find (on_piece_failed m bad).1.evidence bad.index ≡ some ev) ↔ OnRecord m bad ev
stays_iff m bad ev same few = (
  (λ e. earlier (ap (λ es. find es bad.index) (sym same) ∙ e)),
  (λ r. elim r [
    | earlier e ↦ ap (λ es. find es bad.index) same ∙ e
    | first_failure ss fresh found mixed at ↦ absurd (few ss found mixed)
  ]),
)

added_iff :
    (m : BanManager) (bad : CompletedPiece) (ev : Evidence) (first : ℕ) (rest : List ℕ)
    → find m.senders bad.index ≡ some (first ∷ rest)
    → all_same first rest ≡ false
    → (find (on_piece_failed m bad).1.evidence bad.index ≡ some ev) ↔ OnRecord m bad ev
added_iff m bad ev first rest found other =
    let made : Evidence = record { payload = bad.payload; senders = first ∷ rest } in
    let now =
      ap (λ es. find es bad.index)
        (evidence_added m bad first rest (slots_of m bad.index _ found) other) in
    elim (Option-cases (find m.evidence bad.index)) [
      | inr (old, e) ↦
          let kept = now ∙ emplace_old m bad.index old made e in
          (
            (λ h. earlier (e ∙ sym kept ∙ h)),
            (λ r. elim r [
              | earlier e1 ↦ kept ∙ sym e ∙ e1
              | first_failure ss fresh f mixed at ↦ cc (e, fresh)
            ]),
          )
      | inl e ↦
          let added = now ∙ emplace_new m bad.index made e in
          (
            (λ h.
                let at : ev ≡ made = ground (arith, h, added) in
                first_failure (first ∷ rest) e found ((all_same-Mixed first rest).0 other) at),
            (λ r. elim r [
              | earlier e1 ↦ cc (e, e1)
              | first_failure ss fresh f mixed at ↦
                  let same : ss ≡ first ∷ rest = ground (arith, f, found) in
                  let is : made ≡ ev =
                    ap (λ xs. record { payload = bad.payload; senders = xs }) (sym same) ∙ sym at in
                  added ∙ ap some is
            ]),
          )
    ]

-- X
pub on_piece_failed-OnRecord :
    (m : BanManager) (bad : CompletedPiece) (ev : Evidence)
    → (find (on_piece_failed m bad).1.evidence bad.index ≡ some ev) ↔ OnRecord m bad ev
on_piece_failed-OnRecord m bad ev = elim (Option-cases (find m.senders bad.index)) [
  | inl absent ↦
      stays_iff m bad ev (evidence_stays m bad (inl (slots-none m bad.index absent)))
        (λ ss found mixed. cc (absent, found))
  | inr ([], found) ↦
      stays_iff m bad ev (evidence_stays m bad (inl (slots_of m bad.index [] found))) (λ ss f mixed.
        let at : ss ≡ [] = ground (arith, f, found) in
        let sent = subst (λ xs. get_elem? xs mixed.block ≡ some mixed.sender) at mixed.sent in
        cc sent)
  | inr (first ∷ rest, found) ↦ elim (Bool-cases (all_same first rest)) [
    | inr other ↦ added_iff m bad ev first rest found other
    | inl same ↦
        stays_iff m bad ev
          (evidence_stays m bad (inr (first, rest, slots_of m bad.index _ found, same)))
          (λ ss f mixed.
            let at : ss ≡ first ∷ rest = ground (arith, f, found) in
            let mixed1 = subst Mixed at mixed in cc (same, (all_same-Mixed first rest).1 mixed1))
  ]
]

-- Peers stay known to be of their hosts.
same_hosts :
    (m : BanManager) (bad : CompletedPiece) (ss : List ℕ)
    → slots m.senders bad.index ≡ ss
    → (on_piece_failed m bad).1.hosts ≡ m.hosts
unfolding on_piece_failed blame
same_hosts m bad [] e = rw (e, on_piece_failed) refl
same_hosts m bad (first ∷ rest) e =
    rw (e, on_piece_failed)
      (elim (Bool-cases (all_same first (first ∷ rest))) [
        | inl same ↦ rw same refl
        | inr other ↦ rw other refl
      ])

-- A guilty sender is one in any manager that knows the same hosts.
Guilty-hosts :
    (m m1 : BanManager) (ev : Evidence) (good : CompletedPiece) (h : Bytes) (b : ℕ) (ss : List ℕ)
    → m.hosts ≡ m1.hosts
    → Guilty m ev good h b ss
    → Guilty m1 ev good h b ss
Guilty-hosts m m1 ev good h b ss same g = record {
  block = g.block;
  sender = g.sender;
  sent = g.sent;
  mismatch = g.mismatch;
  known = ap (λ hs. find hs g.sender) (sym same) ∙ g.known;
}

-- When a piece fails and another copy of it is then verified, a host is banned just when a peer
-- of it sent a block that differs from the good copy in the attempt on record: the earlier failed
-- one that there is evidence of, or else the one that has just failed, if two different peers
-- sent blocks of it.
pub on_piece_verified-on_piece_failed :
    (m : BanManager) (bad good : CompletedPiece) (h : Bytes)
    → good.index ≡ bad.index
    → (has_host h (on_piece_verified (on_piece_failed m bad).1 good).0 ≡ true)
      ↔ ((ev : Evidence) × OnRecord m bad ev × Guilty m ev good h 0 ev.senders)
unfolding has_host
on_piece_verified-on_piece_failed m bad good h at =
    let m1 : BanManager = (on_piece_failed m bad).1 in
    let same : m1.hosts ≡ m.hosts = same_hosts m bad (slots m.senders bad.index) refl in
    let place : find m1.evidence good.index ≡ find m1.evidence bad.index =
      ap (find m1.evidence) at in
    (
      (λ x. elim (Option-cases (find m1.evidence good.index)) [
        | inl absent ↦
            let nobody = (on_piece_verified_forgets m1 good).0 absent in
            absurd (ground (arith, ap (has_host h) nobody, x))
        | inr (ev, found) ↦ (
          ev,
          (on_piece_failed-OnRecord m bad ev).0 (sym place ∙ found),
          Guilty-hosts m1 m ev good h 0 ev.senders same
              ((on_piece_verified_iff m1 ev good h found).0 x),
        )
      ]),
      (λ w.
          let found = place ∙ (on_piece_failed-OnRecord m bad w.0).1 w.1 in
          (on_piece_verified_iff m1 w.0 good h found).1
            (Guilty-hosts m m1 w.0 good h 0 w.0.senders (sym same) w.2)),
    )
