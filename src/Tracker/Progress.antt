-- ===== src/Tracker/Progress.antt =====
-- A tick that is not worth sleeping before is not in vain: `until_next_action` and `advance` of
-- src/runtime/managers/tracker_manager.cpp.
use torrent_peer.Prelude.{
  ℕ, zero, suc, ◌+◌, ◌-◌, ◌*◌, ◌^◌, ◌≤◌, ◌<◌, ◌≡◌, ◌≢◌, refl, false, some, get_elem?, ok, arith,
  All-get_elem?, subst, ◌⊎◌, inl, inr, Option-cases, Bool-cases, Result-cases, leb,
}
use torrent_peer.Torrent.{Bytes}
use torrent_peer.Tracker.{
  TrackerState, disconnected, resolving, connecting, connected, announcing, idle, stopped,
  TrackerSession, AnnounceParams, TrackerManager, build_announce_request,
}
use torrent_peer.Tracker.Machine.{
  Answers, advance, advance_in, send_connect, fail_send, fail_backoff, response_timeout, second,
  send_announce, announce, after_send, on_timeout, pending_event,
}
use torrent_peer.Tracker.Manager.{due, soonest, until_next_action}
use torrent_peer.Tracker.Invariant.{TrackerOk, advance_total}
use torrent_peer.Tracker.Runs.{ManagerOk}
use torrent_peer.Tracker.Timers.{soonest-first}

-- The tracker goes on to another state, or waits for a time that is still to come.
abbrev pub Moves : ℕ → TrackerSession → TrackerSession → Type 0
Moves now t u = (u.state ≢ t.state) ⊎ (now < u.next_action)

timeout_positive : (t : TrackerSession) → 0 < response_timeout t
unfolding response_timeout
timeout_positive t = omega (arith, power_positive t.retries)
  where
    power_positive : (n : ℕ) → 0 < 2 ^ n
    power_positive zero = omega arith
    power_positive (suc n) = omega (arith, power_positive n)

lost :
    (t : TrackerSession) (clock : ℕ)
    → (fail_backoff t clock).next_action ≡ clock + response_timeout (fail_backoff t clock)
unfolding fail_backoff response_timeout
lost t clock = refl

fail_backoff-Moves :
    (t u : TrackerSession) (now clock : ℕ) → now ≤ clock → Moves now u (fail_backoff t clock)
fail_backoff-Moves t u now clock later =
    inr (omega (arith, lost t clock, timeout_positive (fail_backoff t clock), later))

send_connect-Moves :
    (t : TrackerSession) (now : ℕ) (a : Answers)
    → t.state ≡ disconnected
    → now ≤ a.fail_clock
    → Moves now t (send_connect t a)
unfolding send_connect fail_send
send_connect-Moves t now a e later =
    let t1 = record t { sock = false; transaction_id = a.txn } in
    ground (arith, e, fail_backoff-Moves t1 t now a.fail_clock later)

after_send-Moves :
    (t u : TrackerSession) (now : ℕ) (a : Answers) (packet : Bytes)
    → t.state ≡ connected
    → Moves now t (after_send u a packet)
unfolding fail_send fail_backoff
after_send-Moves t u now a packet e = ground (arith, e)

-- The tracker behind the choice of the event.
abbrev asked : TrackerManager → TrackerSession → Answers → TrackerSession
asked m t a = record t { transaction_id = a.txn; in_flight = pending_event m t }

advance_in-Moves :
    (x : TrackerState) (m : TrackerManager) (t u : TrackerSession) (stats : AnnounceParams)
    (now : ℕ) (a : Answers)
    → t.state ≡ x
    → x ≢ stopped
    → x ≢ resolving
    → t.next_action ≤ now
    → now ≤ a.fail_clock
    → advance_in x m t stats now a ≡ ok u
    → Moves now t u
unfolding advance_in on_timeout send_announce announce
advance_in-Moves disconnected m t u stats now a e n1 n2 h later made =
    let same : send_connect t a ≡ u = ground (arith, made, h) in
    subst (Moves now t) same (send_connect-Moves t now a e later)
advance_in-Moves resolving m t u stats now a e n1 n2 h later made = absurd (n2 refl)
advance_in-Moves connecting m t u stats now a e n1 n2 h later made = ground (arith, made, h, e)
advance_in-Moves connected m t u stats now a e n1 n2 h later made =
    elim (Bool-cases (leb (60 * second) (a.send_clock - t.connected_at))) [
      | inl old ↦ ground (arith, made, old, e)
      | inr young ↦
          elim (Result-cases (
            build_announce_request (asked m t a) (pending_event m t) m.peer_id m.info_hash
              m.listen_port stats)) [
                | inl (packet, built) ↦
                    let same : after_send (asked m t a) a packet ≡ u =
                      ground (arith, made, young, built) in
                    subst (Moves now t) same (after_send-Moves t (asked m t a) now a packet e)
                | inr (x, threw) ↦ ground (arith, made, young, threw)
              ]
    ]
advance_in-Moves announcing m t u stats now a e n1 n2 h later made = ground (arith, made, h, e)
advance_in-Moves idle m t u stats now a e n1 n2 h later made = ground (arith, made, h, e)
advance_in-Moves stopped m t u stats now a e n1 n2 h later made = absurd (n1 refl)

due-past :
    (now when : ℕ) (t : TrackerSession)
    → due now t ≡ some when
    → when ≤ now
    → (t.state ≢ stopped) × (t.state ≢ resolving) × (t.next_action ≤ now)
unfolding due
due-past now when t e h = ground (arith, e, h)

until_next_action_zero :
    (m : TrackerManager) (now : ℕ)
    → until_next_action m now ≡ 0
    → (when : ℕ) × (soonest now m.trackers ≡ some when) × (when ≤ now)
unfolding until_next_action
until_next_action_zero m now awake = elim (Option-cases (soonest now m.trackers)) [
  | inl e ↦ ground (arith, awake, e)
  | inr (when, e) ↦ (when, e, ground (arith, awake, e))
]

-- When a well-formed tracker manager has no time to sleep, and the clock at a failure is not
-- before now, advance brings some tracker to another state or gives it a time to wait for that is
-- still to come.
pub until_next_action_progress :
    (m : TrackerManager) (now : ℕ) (stats : AnnounceParams) (a : Answers)
    → ManagerOk m
    → until_next_action m now ≡ 0
    → now ≤ a.fail_clock
    → (i : ℕ) × (t : TrackerSession) × (u : TrackerSession) × (get_elem? m.trackers i ≡ some t)
      × (advance m t stats now a ≡ ok u)
      × Moves now t u
unfolding advance
until_next_action_progress m now stats a v awake later =
    let (when, e, past) = until_next_action_zero m now awake in
    let (i, t, at, d) = soonest-first now m.trackers when e in
    let (running, found, late) = due-past now when t d past in
    let (u, made, good) =
      advance_total m t
        (All-get_elem? (TrackerOk m.stopping m.download_complete) m.trackers i v.each at) stats now
        a v.sized in
    (
      i,
      t,
      u,
      at,
      made,
      advance_in-Moves t.state m t u stats now a refl running found late later made,
    )
