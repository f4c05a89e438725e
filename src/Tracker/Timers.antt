-- ===== src/Tracker/Timers.antt =====
-- How long the session may sleep for the trackers: `until_next_action` of
-- src/runtime/managers/tracker_manager.cpp, and what a tick does when there is no time to sleep.
use torrent_peer.Prelude.{
  ℕ, zero, suc, ◌+◌, ◌-◌, ◌*◌, ◌≤◌, ◌<◌, ◌≡◌, refl, ◌∙◌, List, [], ◌∷◌, Option, none, some,
  get_elem?, min, arith, dec_le,
}
use torrent_peer.Tracker.{TrackerSession, TrackerManager}
use torrent_peer.Tracker.Manager.{due, earlier, soonest, until_next_action}

-- The tracker that is due first.
pub soonest-first :
    (now : ℕ) (ts : List TrackerSession) (when : ℕ)
    → soonest now ts ≡ some when
    → (i : ℕ) × (t : TrackerSession) × (get_elem? ts i ≡ some t) × (due now t ≡ some when)
unfolding soonest
soonest-first now [] when e = ground (arith, e)
soonest-first now (t ∷ ts) when e =
    first (λ w ew. soonest-first now ts w ew) (due now t) (soonest now ts) refl refl e
  where
    first :
        ((w : ℕ)
          → soonest now ts ≡ some w
          → (i : ℕ) × (u : TrackerSession) × (get_elem? ts i ≡ some u) × (due now u ≡ some w))
        → (d s : Option ℕ) → due now t ≡ d
        → soonest now ts ≡ s
        → earlier d s ≡ some when
        → (i : ℕ) × (u : TrackerSession) × (get_elem? (t ∷ ts) i ≡ some u) × (due now u ≡ some when)
    first later none s ed es h = let (i, u, g, w) = later when (es ∙ h) in (suc i, u, g, w)
    first later (some x) none ed es h = (0, t, refl, ed ∙ h)
    first later (some x) (some y) ed es h = elim (dec_le x y) [
      | yes le ↦ (0, t, refl, ground (arith, ed, h, le))
      | no gt ↦ let (i, u, g, w) = later when (ground (arith, es, h, gt)) in (suc i, u, g, w)
    ]

-- No tracker is due before the first.
soonest-le :
    (now : ℕ) (ts : List TrackerSession) (i : ℕ) (t : TrackerSession) (d : ℕ)
    → get_elem? ts i ≡ some t
    → due now t ≡ some d
    → (when : ℕ) × (soonest now ts ≡ some when) × (when ≤ d)
unfolding soonest
soonest-le now [] i t d g e = ground (arith, g)
soonest-le now (u ∷ ts) zero t d g e = first (soonest now ts) refl
  where
    at : due now u ≡ some d
    at = ground (arith, g, e)

    first :
        (s : Option ℕ)
        → soonest now ts ≡ s
        → (when : ℕ) × (earlier (due now u) (soonest now ts) ≡ some when) × (when ≤ d)
    first none es = (d, ground (arith, at, es), ground arith)
    first (some y) es = (min d y, ground (arith, at, es), ground arith)
soonest-le now (u ∷ ts) (suc i) t d g e =
    let (when, es, le) = soonest-le now ts i t d g e in first when es le (due now u) refl
  where
    first :
        (when : ℕ)
        → soonest now ts ≡ some when
        → when ≤ d
        → (x : Option ℕ) → due now u ≡ x
        → (w : ℕ) × (earlier (due now u) (soonest now ts) ≡ some w) × (w ≤ d)
    first when es le none ex = (when, ground (arith, ex, es), le)
    first when es le (some x) ex = (min x when, ground (arith, ex, es), ground (arith, le))

-- The sleep that until_next_action gives ends less than a millisecond behind the time at which a
-- tracker is due, where that is to come, and not before some tracker is due.
pub until_next_action_bounds :
    (m : TrackerManager) (now i : ℕ) (t : TrackerSession) (d : ℕ)
    → get_elem? m.trackers i ≡ some t
    → due now t ≡ some d
    → (until_next_action m now * 1000000 < (d - now) + 1000000)
      × ((j : ℕ) × (u : TrackerSession) × (first : ℕ) × (get_elem? m.trackers j ≡ some u)
          × (due now u ≡ some first)
          × (first ≤ now + until_next_action m now * 1000000))
unfolding until_next_action
until_next_action_bounds m now i t d g e =
    let (when, es, le) = soonest-le now m.trackers i t d g e in
    let (j, u, gu, eu) = soonest-first now m.trackers when es in
    (ground (arith, es, le), (j, u, when, gu, eu, ground (arith, es)))
