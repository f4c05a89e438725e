-- ===== src/Tracker/Protocol.antt =====
-- The announce protocol that the trackers of src/runtime/managers/tracker_manager.cpp are held
-- against: what a tracker makes of us, what it may be told, and a turn of it.
use torrent_peer.Prelude.{
  ◌≡◌, ◌≢◌, refl, sym, ◌∙◌, subst, Bool, true, arith, inl, inr, ◌⊎◌, if◌then◌else◌,
}
use torrent_peer.Tracker.{
  TrackerEvent, event_none, event_completed, event_started, event_stopped, Reported,
  reported_nothing, reported_started, reported_completed, TrackerState, disconnected, resolving,
  connecting, connected, announcing, idle, stopped, TrackerSession,
}
use torrent_peer.Tracker.Machine.{acknowledged, is_stop}
use torrent_peer.Tracker.Invariant.{TrackerOk, Fits}

-- What the tracker makes of us.
pub data View : Type 0 where
  stranger member seed gone : View

abbrev pub known : Reported → View
known reported_nothing = stranger
known reported_started = member
known reported_completed = seed

abbrev pub seen : TrackerState → Reported → View
seen stopped r = gone
seen disconnected r = known r
seen resolving r = known r
seen connecting r = known r
seen connected r = known r
seen announcing r = known r
seen idle r = known r

abbrev pub view : TrackerSession → View
view t = seen t.state t.reported

pub View-cases : (v : View) → (v ≡ stranger) ⊎ ((v ≡ gone) ⊎ ((v ≡ member) ⊎ (v ≡ seed)))
View-cases stranger = inl refl
View-cases member = inr (inr (inl refl))
View-cases seed = inr (inr (inr refl))
View-cases gone = inr (inl refl)

-- The protocol: which event a tracker may be told, by what it makes of us. It is told `started` as
-- long as it does not know us, `completed` as long as it takes us for a peer that still downloads,
-- and `stopped`, when the client shuts down, if it knows us.
pub data Says (stopping complete : Bool) : TrackerEvent → View → Type 0 where
  says_started : Says stopping complete event_started stranger
  says_completed : complete ≡ true → Says stopping complete event_completed member
  member_again : Says stopping complete event_none member
  seed_again : Says stopping complete event_none seed
  member_leaves : stopping ≡ true → Says stopping complete event_stopped member
  seed_leaves : stopping ≡ true → Says stopping complete event_stopped seed

-- What a tracker that confirms an event makes of us from then on.
pub heard : TrackerEvent → View → View
heard event_none v = v
heard event_completed v = seed
heard event_started v = member
heard event_stopped v = gone

-- One turn of a tracker, from `t` to `w`: nothing is confirmed, and if `t` is announced to, it does
-- not come to rest; or it confirms the event that it was told, which the protocol allows; or it is
-- given up, at shutdown, before it knows us.
pub data Turn (stopping complete : Bool) (t w : TrackerSession) : Type 0 where
  stays : view t ≡ view w → (t.state ≡ announcing → w.state ≢ idle) → Turn stopping complete t w
  confirms :
      t.state ≡ announcing
      → Says stopping complete t.in_flight (view t)
      → view w ≡ heard t.in_flight (view t)
      → Turn stopping complete t w
  gives_up : stopping ≡ true → view t ≡ stranger → view w ≡ gone → Turn stopping complete t w

pub Turn-refl : (s c : Bool) (t : TrackerSession) → Turn s c t t
Turn-refl s c t = stays refl (λ a i. cc (a, i))

-- What the rest of a tick does to a tracker: it keeps its view, and comes to no rest.
abbrev pub Advances : TrackerSession → TrackerSession → Type 0
Advances u w = (view u ≡ view w) × (w.state ≡ idle → u.state ≡ idle)

pub Turn-Advances :
    (s c : Bool) (t u w : TrackerSession) → Turn s c t u → Advances u w → Turn s c t w
Turn-Advances s c t u w (stays e n) h = stays (e ∙ h.0) (λ a i. n a (h.1 i))
Turn-Advances s c t u w (confirms a says e) h = confirms a says (sym h.0 ∙ e)
Turn-Advances s c t u w (gives_up x y e) h = gives_up x y (sym h.0 ∙ e)

-- An announcing tracker was told what the protocol allows.
abbrev pub IsTold : Bool → Bool → TrackerSession → Type 0
IsTold s c t = t.state ≡ announcing → Says s c t.in_flight (view t)

Fits-Says :
    (s c : Bool) (e : TrackerEvent) (r : Reported)
    → Fits c e r
    → (e ≡ event_stopped → s ≡ true)
    → Says s c e (known r)
Fits-Says s c event_none reported_nothing f h = absurd (f refl)
Fits-Says s c event_none reported_started f h = member_again
Fits-Says s c event_none reported_completed f h = seed_again
Fits-Says s c event_completed reported_nothing f h = cc
Fits-Says s c event_completed reported_started f h = says_completed f.1
Fits-Says s c event_completed reported_completed f h = cc
Fits-Says s c event_started reported_nothing f h = says_started
Fits-Says s c event_started reported_started f h = cc
Fits-Says s c event_started reported_completed f h = cc
Fits-Says s c event_stopped reported_nothing f h = absurd (f refl)
Fits-Says s c event_stopped reported_started f h = member_leaves (h refl)
Fits-Says s c event_stopped reported_completed f h = seed_leaves (h refl)

pub TrackerOk-IsTold : (s c : Bool) (t : TrackerSession) → TrackerOk s c t → IsTold s c t
TrackerOk-IsTold s c t v h =
    let told : known t.reported ≡ view t = ground (arith, h) in
    subst (Says s c t.in_flight) told (Fits-Says s c t.in_flight t.reported (v.fits h) v.leaving)

-- An event that the tracker acknowledges.
pub acknowledged_view :
    (e : TrackerEvent) (r : Reported)
    → (if is_stop e then gone else known (acknowledged e r)) ≡ heard e (known r)
unfolding acknowledged heard
acknowledged_view event_none r = refl
acknowledged_view event_completed r = refl
acknowledged_view event_started r = refl
acknowledged_view event_stopped r = refl
