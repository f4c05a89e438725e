-- ===== src/Pieces/Rarest.antt =====
-- The second loop of `pick_block`: after it, the candidates are the wanted pieces of least availability.
use torrent_peer.Prelude.{
  ℕ, ◌+◌, ◌%◌, ◌≤◌, ◌<◌, ◌≡◌, refl, sym, subst, inl, inr, ◌⊎◌, ◌≢◌, true, false, List, [], ◌∷◌,
  ◌++◌, arith, length, get_or, All, All-append, All-impl, Bool-cases, dec_lt, ℕ_discrete,
}
use mathlib.Core.List.{cons-ne-nil, concat-ne-nil}
use torrent_peer.Prelude.Loops.{for_range_inv}
use torrent_peer.Bitfield.{Bitfield}
use torrent_peer.Pieces.{PieceManager, is_candidate, consider, rarest}

-- After the rounds below `i`: the candidates are pieces of least availability, and there is one if
-- any piece below `i` would do.
pub record Scanned (m : PieceManager) (peer_has : Bitfield) (availability : List ℕ) (i : ℕ)
    (s : ℕ × List ℕ) : Type 0 where
  pub kept :
      All (λ c. (c < i) × (is_candidate m peer_has c ≡ true) × (get_or availability c 0 ≡ s.0)) s.1
  pub least :
      (j : ℕ)
      → j < i
      → is_candidate m peer_has j ≡ true
      → (s.0 ≤ get_or availability j 0) × (s.1 ≢ [])
  pub started : s.0 < 65535 → s.1 ≢ []

module _ (m : PieceManager) (peer_has : Bitfield) (availability : List ℕ) where
  consider_cases :
      (i best : ℕ) (cs : List ℕ)
      → ((is_candidate m peer_has i ≡ false)
          × (consider m peer_has availability i (best, cs) ≡ (best, cs)))
        ⊎ ((is_candidate m peer_has i ≡ true)
            × (get_or availability i 0 < best)
            × (consider m peer_has availability i (best, cs) ≡ (get_or availability i 0, i ∷ [])))
        ⊎ ((is_candidate m peer_has i ≡ true)
            × (get_or availability i 0 ≡ best)
            × (consider m peer_has availability i (best, cs) ≡ (best, cs ++ i ∷ [])))
        ⊎ ((is_candidate m peer_has i ≡ true)
            × (best < get_or availability i 0)
            × (consider m peer_has availability i (best, cs) ≡ (best, cs)))
  unfolding consider
  consider_cases i best cs = elim (Bool-cases (is_candidate m peer_has i)) [
    | inr out ↦ inl (out, ground arith)
    | inl fit ↦ elim (dec_lt (get_or availability i 0) best) [
      | yes less ↦ inr (inl (fit, less, ground arith))
      | no more ↦ elim (ℕ_discrete (get_or availability i 0) best) [
        | yes same ↦ inr (inr (inl (fit, same, ground arith)))
        | no other ↦ inr (inr (inr (fit, omega arith, ground arith)))
      ]
    ]
  ]

  -- A round's result, from what it says of the new index.
  Least : ℕ × List ℕ → ℕ → Type 0
  Least s j = is_candidate m peer_has j ≡ true → (s.0 ≤ get_or availability j 0) × (s.1 ≢ [])

  all_up_to :
      (i : ℕ) (s : ℕ × List ℕ)
      → ((j : ℕ) → j < i → Least s j)
      → Least s i
      → (j : ℕ) → j < i + 1
      → Least s j
  all_up_to i s below at j lt = elim (ℕ_discrete j i) [
    | yes e ↦ subst (Least s) (sym e) at
    | no e ↦ below j (omega arith)
  ]

  later :
      (i best : ℕ) (cs : List ℕ)
      → All
          (λ c. (c < i) × (is_candidate m peer_has c ≡ true) × (get_or availability c 0 ≡ best))
          cs
      → All
          (λ c. (c < i + 1) × (is_candidate m peer_has c ≡ true) × (get_or availability c 0 ≡ best))
          cs
  later i best cs = All-impl _ _ cs (λ c h. (omega (arith, h.0), h.1, h.2))

  consider-Scanned :
      (i : ℕ) (s : ℕ × List ℕ)
      → get_or availability i 0 ≤ 65535
      → Scanned m peer_has availability i s
      → Scanned m peer_has availability (i + 1) (consider m peer_has availability i s)
  unfolding Least
  consider-Scanned i (best, cs) top h = elim (consider_cases i best cs) [
    | inl (out, e) ↦ subst (Scanned m peer_has availability (i + 1)) (sym e) (record {
      kept = later i best cs h.kept;
      least = all_up_to i (best, cs) h.least (λ fit. cc);
      started = h.started;
    })
    | inr (inl (fit, less, e)) ↦ subst (Scanned m peer_has availability (i + 1)) (sym e) (record {
      kept = ((omega arith, fit, refl), tt);
      least =
          all_up_to i _ (λ j lt c. (omega (arith, h.least j lt c), cons-ne-nil i []))
            (λ _. (omega arith, cons-ne-nil i []));
      started = λ _. cons-ne-nil i [];
    })
    | inr (inr (inl (fit, same, e))) ↦
        subst (Scanned m peer_has availability (i + 1)) (sym e) (record {
          kept = All-append _ cs (i ∷ []) (later i best cs h.kept) ((omega arith, fit, same), tt);
          least =
              all_up_to i _ (λ j lt c. ((h.least j lt c).0, concat-ne-nil i cs))
                (λ _. (omega arith, concat-ne-nil i cs));
          started = λ _. concat-ne-nil i cs;
        })
    | inr (inr (inr (fit, more, e))) ↦
        subst (Scanned m peer_has availability (i + 1)) (sym e) (record {
          kept = later i best cs h.kept;
          least = all_up_to i (best, cs) h.least (λ _. (omega arith, h.started (omega arith)));
          started = h.started;
        })
  ]

  pub rarest-Scanned :
      ((i : ℕ) → get_or availability i 0 ≤ 65535)
      → (best : ℕ) × Scanned m peer_has availability m.piece_count
          (best, rarest m peer_has availability)
  unfolding rarest
  rarest-Scanned top = (
    _,
    for_range_inv (Scanned m peer_has availability) _ m.piece_count
        (λ i s lt h. consider-Scanned i s (top i) h) m.piece_count 0 (65535, []) (omega arith)
        (record {
          kept = tt;
          least = λ j lt. absurd (omega arith);
          started = λ lt. absurd (omega arith);
        }),
  )

-- `mt19937` draws an index of the list.
abbrev pub drawn : ℕ → ℕ → List ℕ → ℕ
drawn draw c cs = get_or (c ∷ cs) (draw % length (c ∷ cs)) 0

pub drawn_lt : (draw c : ℕ) (cs : List ℕ) → draw % length (c ∷ cs) < length (c ∷ cs)
drawn_lt draw c cs = omega arith
