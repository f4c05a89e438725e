-- ===== src/Bans/Senders.antt =====
-- The recorded senders of a failed piece: one peer or several, in `on_piece_failed` of
-- src/runtime/managers/ban_manager.cpp.
use torrent_peer.Prelude.{
  ℕ, zero, suc, ◌≡◌, ◌≢◌, refl, sym, ap, ◌∙◌, subst, inl, inr, ◌↔◌, true, false, List, [], ◌∷◌,
  none, some, arith, All, get_elem?, Option-cases, Bool-cases, ◌==◌, same_bytes_iff,
}
use torrent_peer.Prelude.Map.{find}
use torrent_peer.Torrent.{Bytes}
use torrent_peer.Types.{CompletedPiece}
use torrent_peer.Bans.{BanManager, all_same, host_of, blame, on_piece_failed, has_host, slots}

-- One peer, of host `h`, sent every recorded block of the piece.
pub record SoleSender (m : BanManager) (index : ℕ) (h : Bytes) : Type 0 where
  pub senders : List ℕ
  pub sender : ℕ
  pub recorded : find m.senders index ≡ some senders
  pub sent : get_elem? senders 0 ≡ some sender
  pub sole : All (λ s. s ≡ sender) senders
  pub known : find m.hosts sender ≡ some h

-- Two of the senders are different peers.
pub record Mixed (senders : List ℕ) : Type 0 where
  pub block : ℕ
  pub sender : ℕ
  pub other_block : ℕ
  pub other : ℕ
  pub sent : get_elem? senders block ≡ some sender
  pub also_sent : get_elem? senders other_block ≡ some other
  pub differ : sender ≢ other

all_same_iff : (x : ℕ) (xs : List ℕ) → (all_same x xs ≡ true) ↔ All (λ s. s ≡ x) xs
unfolding all_same
all_same_iff x [] = ((λ _. tt), (λ _. refl))
all_same_iff x (y ∷ ys) = (
  (λ h. (ground (arith, h), (all_same_iff x ys).0 (ground (arith, h)))),
  (λ h. ground (arith, h.0, (all_same_iff x ys).1 h.1)),
)

All-get_elem :
    (x : ℕ) (xs : List ℕ) (k s : ℕ) → All (λ r. r ≡ x) xs → get_elem? xs k ≡ some s → s ≡ x
All-get_elem x [] k s h e = cc
All-get_elem x (y ∷ ys) zero s h e = ground (arith, h.0, e)
All-get_elem x (y ∷ ys) (suc k) s h e = All-get_elem x ys k s h.1 e

other_sender :
    (x : ℕ) (xs : List ℕ)
    → all_same x xs ≡ false
    → (k : ℕ) × (s : ℕ) × (get_elem? xs k ≡ some s) × (x ≢ s)
unfolding all_same
other_sender x [] h = cc
other_sender x (y ∷ ys) h = elim (Bool-cases (y == x)) [
  | inr e ↦ (0, y, refl, λ same. ground (arith, e, same))
  | inl e ↦
      let rest : all_same x ys ≡ false = ground (arith, e, h) in
      let (k, s, at, ne) = other_sender x ys rest in (suc k, s, at, ne)
]

pub all_same-Mixed : (x : ℕ) (xs : List ℕ) → (all_same x xs ≡ false) ↔ Mixed (x ∷ xs)
all_same-Mixed x xs = (
  (λ h.
      let (k, s, at, ne) = other_sender x xs h in
      record {
        block = 0;
        sender = x;
        other_block = suc k;
        other = s;
        sent = refl;
        also_sent = at;
        differ = ne;
      }),
  (λ w. elim (Bool-cases (all_same x xs)) [
    | inr e ↦ e
    | inl e ↦
        let same : All (λ r. r ≡ x) (x ∷ xs) = (refl, (all_same_iff x xs).0 e) in
        absurd (
          w.differ (
            All-get_elem x (x ∷ xs) w.block w.sender same w.sent
            ∙ sym (All-get_elem x (x ∷ xs) w.other_block w.other same w.also_sent)))
  ]),
)

-- The senders that `on_piece_failed` reads.
pub slots_of :
    (m : BanManager) (k : ℕ) (ss : List ℕ) → find m.senders k ≡ some ss → slots m.senders k ≡ ss
unfolding slots
slots_of m k ss e = ground (arith, e)

pub slots-none : (m : BanManager) (k : ℕ) → find m.senders k ≡ none → slots m.senders k ≡ []
unfolding slots
slots-none m k e = ground (arith, e)

no_senders :
    (m : BanManager) (piece : CompletedPiece) (h : Bytes)
    → slots m.senders piece.index ≡ []
    → has_host h (on_piece_failed m piece).0 ≢ true
unfolding on_piece_failed has_host
no_senders m piece h e x = ground (arith, e, x)

-- What `blame` tests.
blamed :
    (m : BanManager) (piece : CompletedPiece) (first : ℕ) (rest : List ℕ) (h : Bytes)
    → slots m.senders piece.index ≡ first ∷ rest
    → (has_host h (on_piece_failed m piece).0 ≡ true)
      ↔ ((all_same first rest ≡ true) × (find m.hosts first ≡ some h))
unfolding on_piece_failed blame host_of has_host all_same
blamed m piece first rest h e =
    rw (e, on_piece_failed)
      (elim (Option-cases (find m.hosts first)) [
        | inl absent ↦
            ((λ x. absurd (ground (arith, absent, x))), (λ x. absurd (ground (arith, absent, x.1))))
        | inr (g, known) ↦ (
          (λ x. ground (arith, known, x, same_bytes_iff g h)),
          (λ x. ground (arith, known, x, same_bytes_iff g h)),
        )
      ])

-- When a piece fails, a host is banned at once just when blocks of the piece are recorded, one
-- peer sent all that are, and it is of that host.
pub on_piece_failed_iff :
    (m : BanManager) (piece : CompletedPiece) (h : Bytes)
    → (has_host h (on_piece_failed m piece).0 ≡ true) ↔ SoleSender m piece.index h
on_piece_failed_iff m piece h = elim (Option-cases (find m.senders piece.index)) [
  | inl absent ↦ (
    (λ x. absurd (no_senders m piece h (slots-none m piece.index absent) x)),
    (λ w. cc (w.recorded, absent)),
  )
  | inr ([], found) ↦ (
    (λ x. absurd (no_senders m piece h (slots_of m piece.index [] found) x)),
    (λ w.
        let at : w.senders ≡ [] = ground (arith, w.recorded, found) in
        let sent = subst (λ ss. get_elem? ss 0 ≡ some w.sender) at w.sent in cc sent),
  )
  | inr (first ∷ rest, found) ↦ (
    (λ x.
        let (same, known) = (blamed m piece first rest h (slots_of m piece.index _ found)).0 x in
        record {
          senders = first ∷ rest;
          sender = first;
          recorded = found;
          sent = refl;
          sole = (refl, (all_same_iff first rest).0 same);
          known = known;
        }),
    (λ w.
        let at : w.senders ≡ first ∷ rest = ground (arith, w.recorded, found) in
        let sent = subst (λ ss. get_elem? ss 0 ≡ some w.sender) at w.sent in
        let is : first ≡ w.sender = ground (arith, sent) in
        let all_ = subst (λ ss. All (λ s. s ≡ w.sender) ss) at w.sole in
        (blamed m piece first rest h (slots_of m piece.index _ found)).1 (
          (all_same_iff first rest).1 (subst (λ k. All (λ s. s ≡ k) rest) (sym is) all_.1),
          ap (find m.hosts) is ∙ w.known,
        )),
  )
]
