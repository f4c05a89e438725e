-- ===== src/Tracker/Refines.antt =====
-- Every run of the manager of src/runtime/managers/tracker_manager.cpp keeps to the protocol.
use torrent_peer.Prelude.{
  ℕ, ◌≡◌, refl, sym, ap, ◌∙◌, subst, Bool, true, List, [], ◌∷◌, length, ◌==◌, ok, ◌>>=◌, >>=-eq-ok,
  arith, All, inl, inr, Bool-cases, Result-cases,
}
use torrent_peer.Types.{Peer}
use torrent_peer.Tracker.{
  Reported, reported_nothing, reported_started, reported_completed, TrackerSession, AnnounceParams,
  TrackerManager,
}
use torrent_peer.Tracker.Machine.{Answers, advance}
use torrent_peer.Tracker.Manager.{
  receive_all, advance_all, tick, announce_now, announce_all, on_download_complete, withdraw,
  shut_down, shut_down_all, begin_shutdown,
}
use torrent_peer.Tracker.Runs.{
  ManagerOk, Operation, ticks, completes, shuts_down, perform, run, perform_total,
}
use torrent_peer.Tracker.Invariant.{TrackerOk}
use torrent_peer.Tracker.Contract.{receive-Follows, advance_in-Advances}
use torrent_peer.Tracker.Protocol.{
  view, View-cases, Turn, stays, gives_up, Turn-refl, Advances, Turn-Advances, IsTold,
  TrackerOk-IsTold,
}

-- One turn of each tracker.
abbrev pub Turns : Bool → Bool → List TrackerSession → List TrackerSession → Type 0
Turns s c [] [] = Unit
Turns s c [] (w ∷ ws) = ⊥
Turns s c (t ∷ ts) [] = ⊥
Turns s c (t ∷ ts) (w ∷ ws) = Turn s c t w × Turns s c ts ws

Turns-refl : (s c : Bool) (ts : List TrackerSession) → Turns s c ts ts
Turns-refl s c [] = tt
Turns-refl s c (t ∷ ts) = (Turn-refl s c t, Turns-refl s c ts)

receive_all-Turns :
    (s c : Bool) (ts : List TrackerSession) (as_ : List Answers)
    → All (TrackerOk s c) ts
    → Turns s c ts (receive_all ts as_).0
unfolding receive_all
receive_all-Turns s c [] as_ h = tt
receive_all-Turns s c (t ∷ ts) [] h = Turns-refl s c (t ∷ ts)
receive_all-Turns s c (t ∷ ts) (a ∷ as_) h =
    (receive-Follows s c t h.0 a, receive_all-Turns s c ts as_ h.1)

advance-Advances :
    (m : TrackerManager) (t u : TrackerSession) (stats : AnnounceParams) (now : ℕ) (a : Answers)
    → advance m t stats now a ≡ ok u
    → Advances t u
unfolding advance
advance-Advances m t u stats now a e = advance_in-Advances t.state m t u stats now a refl e

-- The rest of a tick leaves the turns as they are.
advance_all-Turns :
    (m : TrackerManager) (s c : Bool) (stats : AnnounceParams) (now : ℕ)
    (ts us ws : List TrackerSession) (as_ : List Answers)
    → Turns s c ts us
    → advance_all m stats now us as_ ≡ ok ws
    → Turns s c ts ws
unfolding advance_all
advance_all-Turns m s c stats now [] [] ws as_ h e =
    let same : [] ≡ ws = ground (arith, e) in subst (Turns s c []) same tt
advance_all-Turns m s c stats now [] (u ∷ us) ws as_ h e = elim h [ ]
advance_all-Turns m s c stats now (t ∷ ts) [] ws as_ h e = elim h [ ]
advance_all-Turns m s c stats now (t ∷ ts) (u ∷ us) ws [] h e =
    let same : (u ∷ us) ≡ ws = ground (arith, e) in subst (Turns s c (t ∷ ts)) same h
advance_all-Turns m s c stats now (t ∷ ts) (u ∷ us) ws (a ∷ as_) h e =
    let (w, made, e1) =
      >>=-eq-ok (advance m u stats now a)
        (λ x. advance_all m stats now us as_ >>= λ xs. ok (x ∷ xs)) e in
    let (rest, made_rest, e2) = >>=-eq-ok (advance_all m stats now us as_) (λ xs. ok (w ∷ xs)) e1 in
    let same : (w ∷ rest) ≡ ws = ground (arith, e2) in
    subst (Turns s c (t ∷ ts)) same (
      Turn-Advances s c t u w h.0 (advance-Advances m u w stats now a made),
      advance_all-Turns m s c stats now ts us rest as_ h.1 made_rest,
    )

announce_now_state : (now : ℕ) (t : TrackerSession) → (announce_now now t).state ≡ t.state
unfolding announce_now
announce_now_state now t = ground arith

announce_all-Turns :
    (s c : Bool) (now : ℕ) (ts : List TrackerSession) → Turns s c ts (announce_all now ts)
unfolding announce_all announce_now
announce_all-Turns s c now [] = tt
announce_all-Turns s c now (t ∷ ts) = (
  stays (ground arith) (λ a i. cc (sym (announce_now_state now t) ∙ i, a)),
  announce_all-Turns s c now ts,
)

shut_down-Turn :
    (c : Bool) (now : ℕ) (t : TrackerSession) (r : Reported)
    → t.reported ≡ r
    → Turn true c t (shut_down now t)
unfolding shut_down withdraw
shut_down-Turn c now t reported_nothing h = elim (View-cases (view t)) [
  | inl new ↦ gives_up refl new (ground (arith, h))
  | inr (inl left) ↦ stays (ground (arith, h, left)) (λ a i. ground (arith, h, a, i))
  | inr (inr told) ↦ ground (arith, h, told)
]
shut_down-Turn c now t reported_started h =
    stays (ground (arith, h)) (λ a i. ground (arith, h, a, i))
shut_down-Turn c now t reported_completed h =
    stays (ground (arith, h)) (λ a i. ground (arith, h, a, i))

shut_down_all-Turns :
    (c : Bool) (now : ℕ) (ts : List TrackerSession) → Turns true c ts (shut_down_all now ts)
unfolding shut_down_all
shut_down_all-Turns c now [] = tt
shut_down_all-Turns c now (t ∷ ts) =
    (shut_down-Turn c now t t.reported refl, shut_down_all-Turns c now ts)

-- What an operation does to the manager: the flags are not taken back, each tracker makes one turn
-- at most, and each that is now being announced to is told what the protocol allows.
pub record Grows (m m1 : TrackerManager) : Type 0 where
  pub stopping : m.stopping ≡ true → m1.stopping ≡ true
  pub complete : m.download_complete ≡ true → m1.download_complete ≡ true
  pub turns : Turns m1.stopping m1.download_complete m.trackers m1.trackers
  pub told : All (IsTold m1.stopping m1.download_complete) m1.trackers

-- The run of the operations, one after the other.
abbrev pub IsTrace : TrackerManager → List Operation → TrackerManager → Type 0
IsTrace m [] m1 = m ≡ m1
IsTrace m (op ∷ ops) m1 =
    (m2 : TrackerManager) × (perform m op ≡ ok m2) × Grows m m2 × IsTrace m2 ops m1

All-IsTold : (s c : Bool) (ts : List TrackerSession) → All (TrackerOk s c) ts → All (IsTold s c) ts
All-IsTold s c [] h = tt
All-IsTold s c (t ∷ ts) h = (TrackerOk-IsTold s c t h.0, All-IsTold s c ts h.1)

tick-Turns :
    (m m1 : TrackerManager) (as_ : List Answers) (stats : AnnounceParams) (now : ℕ)
    (peers : List Peer)
    → ManagerOk m
    → tick m as_ stats now ≡ ok (peers, m1)
    → (m.stopping ≡ m1.stopping)
      × (m.download_complete ≡ m1.download_complete)
      × Turns m.stopping m.download_complete m.trackers m1.trackers
unfolding tick
tick-Turns m m1 as_ stats now peers v e = elim (Bool-cases (length as_ == length m.trackers)) [
  | inr off ↦
      let same : m ≡ m1 = ground (arith, e, off) in
      (
        ap (λ x. x.stopping) same,
        ap (λ x. x.download_complete) same,
        subst (λ x. Turns m.stopping m.download_complete m.trackers x.trackers) same
            (Turns-refl m.stopping m.download_complete m.trackers),
      )
  | inl on ↦ elim (Result-cases (advance_all m stats now (receive_all m.trackers as_).0 as_)) [
    | inr (x, threw) ↦ ground (arith, e, on, threw)
    | inl (us, made) ↦
        let same : record m { trackers = us } ≡ m1 = ground (arith, e, on, made) in
        (
          ap (λ x. x.stopping) same,
          ap (λ x. x.download_complete) same,
          advance_all-Turns m m.stopping m.download_complete stats now m.trackers
              (receive_all m.trackers as_).0 m1.trackers as_
              (receive_all-Turns m.stopping m.download_complete m.trackers as_ v.each)
              (subst
                (λ x. advance_all m stats now (receive_all m.trackers as_).0 as_ ≡ ok x.trackers)
                same made),
        )
  ]
]

perform-Grows :
    (m m1 : TrackerManager) (op : Operation)
    → ManagerOk m
    → ManagerOk m1
    → perform m op ≡ ok m1
    → Grows m m1
unfolding on_download_complete begin_shutdown
perform-Grows m m1 (ticks as_ stats now) v v1 e =
    let ((peers, m2), made, e1) =
      >>=-eq-ok (tick m as_ stats now) (λ (out : List Peer × TrackerManager). ok (out.1)) e in
    let same : m2 ≡ m1 = ground (arith, e1) in
    let (ss, cs, turns) =
      tick-Turns m m1 as_ stats now peers v
        (subst (λ x. tick m as_ stats now ≡ ok (peers, x)) same made) in
    record {
      stopping = λ h. sym ss ∙ h;
      complete = λ h. sym cs ∙ h;
      turns =
          subst (λ c. Turns m1.stopping c m.trackers m1.trackers) cs
            (subst (λ s. Turns s m.download_complete m.trackers m1.trackers) ss turns);
      told = All-IsTold m1.stopping m1.download_complete m1.trackers v1.each;
    }
perform-Grows m m1 (completes now) v v1 e =
    let same : on_download_complete m now ≡ m1 = ground (arith, e) in
    let told = All-IsTold m1.stopping m1.download_complete m1.trackers v1.each in
    subst (Grows m) same (record {
      stopping = λ h. h;
      complete = λ h. refl;
      turns = announce_all-Turns m.stopping true now m.trackers;
      told = subst (λ x. All (IsTold x.stopping x.download_complete) x.trackers) (sym same) told;
    })
perform-Grows m m1 (shuts_down now) v v1 e =
    let same : begin_shutdown m now ≡ m1 = ground (arith, e) in
    let told = All-IsTold m1.stopping m1.download_complete m1.trackers v1.each in
    subst (Grows m) same (record {
      stopping = λ h. refl;
      complete = λ h. h;
      turns = shut_down_all-Turns m.download_complete now m.trackers;
      told = subst (λ x. All (IsTold x.stopping x.download_complete) x.trackers) (sym same) told;
    })

-- Any run of operations on a well-formed tracker manager throws nothing and is a trace of the
-- announce protocol. In each operation, each tracker confirms the one event it was told and
-- changes its view of us by it, or is given up at shutdown before it knows us, or keeps its view
-- and does not go from announcing to idle. After each operation, a tracker that is announced to
-- was told started only if it does not know us, completed only if it takes us for a downloading
-- peer and the download is complete, no event only if it knows us, and stopped only if it knows
-- us and the manager shuts down. No operation takes back a flag of the manager.
pub run-IsTrace :
    (ops : List Operation) (m : TrackerManager)
    → ManagerOk m
    → (m1 : TrackerManager) × (run m ops ≡ ok m1) × IsTrace m ops m1
unfolding run
run-IsTrace [] m v = (m, refl, refl)
run-IsTrace (op ∷ ops) m v =
    let (m2, made, v2) = perform_total m op v in
    let (m1, ran, rest) = run-IsTrace ops m2 v2 in
    (
      m1,
      ap (λ r. r >>= λ x. run x ops) made ∙ ran,
      (m2, made, perform-Grows m m2 op v v2 made, rest),
    )
