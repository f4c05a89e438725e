-- ===== src/Peers/Fuel.antt =====
-- The loop over the messages in a read buffer, in `handle_events` of
-- src/runtime/managers/peer_manager.cpp, ends within the steps that it is given.
use torrent_peer.Prelude.{
  ℕ, zero, suc, ◌+◌, ◌-◌, ◌^◌, ◌≤◌, ◌<◌, ◌≡◌, refl, sym, ap, subst, ◌∙◌, Bool, true, false, List,
  [], ◌∷◌, Option, none, some, ltb, length, drop, length-drop, Result, ok, err, Exception, arith,
  Bool-cases, inl, inr,
}
use torrent_peer.Prelude.Map.{find, find-assign_self}
use torrent_peer.Torrent.{Bytes}
use torrent_peer.Wire.{ntohl_at, extract_message}
use torrent_peer.Peers.{PeerEvent, PeerConnection, PeerManager}
use torrent_peer.Peers.Messages.{
  MessageId, msg_choke, msg_unchoke, msg_interested, msg_not_interested, msg_have, msg_bitfield,
  msg_request, msg_piece, msg_cancel, msg_unknown, message_id, on_choke, on_unchoke, on_have,
  on_bitfield, on_request, on_piece, on_cancel, on_message, handle_in, handle_message,
}
use torrent_peer.Peers.Sends.{changed, at_peer}
use torrent_peer.Peers.Events.{
  Turn, done, breaks, more, handled, extracted, turn_of, message_turn, message_loop,
}

-- No message changes the read buffer of its connection.
on_message_buffer :
    (c : PeerConnection) (counts : List ℕ) (out : List PeerEvent) (id : ℕ) (k : MessageId)
    (payload : Bytes)
    → (on_message c counts out id k payload).conn.read_buffer ≡ c.read_buffer
unfolding on_message on_choke on_unchoke on_request on_piece on_cancel on_have on_bitfield
on_message_buffer c counts out id msg_choke payload = refl
on_message_buffer c counts out id msg_unchoke payload = refl
on_message_buffer c counts out id msg_interested payload = refl
on_message_buffer c counts out id msg_not_interested payload = refl
on_message_buffer c counts out id msg_have payload = ground arith
on_message_buffer c counts out id msg_bitfield payload = ground arith
on_message_buffer c counts out id msg_request payload = ground arith
on_message_buffer c counts out id msg_piece payload = ground arith
on_message_buffer c counts out id msg_cancel payload = ground arith
on_message_buffer c counts out id msg_unknown payload = refl

-- The connection of the message is still there, with the same buffer.
handle_message_buffer :
    (m : PeerManager) (id : ℕ) (msg : Bytes) (out : List PeerEvent) (c : PeerConnection)
    → find m.conns id ≡ some c
    → (c1 : PeerConnection) × (find (handle_message m id msg out).0.conns id ≡ some c1)
      × (c1.read_buffer ≡ c.read_buffer)
unfolding handle_message
handle_message_buffer m id [] out c e =
    subst
      (λ o.
        (c1 : PeerConnection) × (find (handle_in m id [] out o).0.conns id ≡ some c1)
        × (c1.read_buffer ≡ c.read_buffer))
      (sym e) (c, e, refl)
handle_message_buffer m id (kind ∷ payload) out c e =
    let h = on_message c m.piece_frequency out id (message_id kind) payload in
    subst
      (λ o.
        (c1 : PeerConnection) × (find (handle_in m id (kind ∷ payload) out o).0.conns id ≡ some c1)
        × (c1.read_buffer ≡ c.read_buffer))
      (sym e)
      (
        h.conn,
        find-assign_self m.conns id h.conn,
        on_message_buffer c m.piece_frequency out id (message_id kind) payload,
      )

-- What is left behind a message is shorter.
extract_shorter :
    (buf msg rest : Bytes) → extract_message buf ≡ ok (some msg, rest) → length rest < length buf
unfolding extract_message
extract_shorter buf msg rest e = elim (Bool-cases (ltb (length buf) 4)) [
  | inl short ↦ ground (arith, e, short)
  | inr long ↦ elim (Bool-cases (ltb (2 ^ 20) (ntohl_at buf 0))) [
    | inl big ↦ ground (arith, e, long, big)
    | inr fits ↦ elim (Bool-cases (ltb (length buf) (4 + ntohl_at buf 0))) [
      | inl partial ↦ ground (arith, e, long, fits, partial)
      | inr whole ↦
          let same : drop (4 + ntohl_at buf 0) buf ≡ rest = ground (arith, e, long, fits, whole) in
          let size = length-drop (4 + ntohl_at buf 0) buf in
          let fewer : length rest ≡ length buf - (4 + ntohl_at buf 0) =
            sym (ap length same) ∙ size in
          let four : 4 ≤ length buf = ground (arith, long) in omega (arith, fewer, four)
    ]
  ]
]

-- A round of the loop that goes on leaves a shorter buffer.
abbrev Shorter : ℕ → ℕ → Turn → Type 0
Shorter id n done = Unit
Shorter id n (breaks m out) = Unit
Shorter id n (more m out) =
    (c : PeerConnection) × (find m.conns id ≡ some c) × (length c.read_buffer < n)

set_buffer :
    (m : PeerManager) (id : ℕ) (c : PeerConnection) (rest : Bytes)
    → find m.conns id ≡ some c
    → find (at_peer m id (λ x. record x { read_buffer = rest })).conns id
      ≡ some (record c { read_buffer = rest })
unfolding at_peer
set_buffer m id c rest e =
    subst
      (λ o.
        find (changed m id (λ x. record x { read_buffer = rest }) o).conns id
        ≡ some (record c { read_buffer = rest }))
      (sym e) (find-assign_self m.conns id (record c { read_buffer = rest }))

goes_on :
    (id n : ℕ) (r : PeerManager × List PeerEvent × Option Exception) (c : PeerConnection)
    → find (r.0).conns id ≡ some c
    → length c.read_buffer < n
    → Shorter id n (handled r)
goes_on id n (m, out, none) c e h = (c, e, h)
goes_on id n (m, out, some x) c e h = tt

message_turn-Shorter :
    (m : PeerManager) (id : ℕ) (out : List PeerEvent) (c : PeerConnection)
    → find m.conns id ≡ some c
    → Shorter id (length c.read_buffer) (message_turn m id out)
unfolding message_turn
message_turn-Shorter m id out c e =
    subst (λ o. Shorter id (length c.read_buffer) (turn_of m id out o)) (sym e)
      (at (extract_message c.read_buffer) refl)
  where
    at :
        (r : Result (Option Bytes × Bytes))
        → extract_message c.read_buffer ≡ r
        → Shorter id (length c.read_buffer) (extracted m id out r)
    at (err x) h = tt
    at (ok (none, rest)) h = tt
    at (ok (some msg, rest)) h =
        let m1 = at_peer m id (λ x. record x { read_buffer = rest }) in
        let c1 = record c { read_buffer = rest } in
        let there : find m1.conns id ≡ some c1 = set_buffer m id c rest e in
        let (c2, found, same) = handle_message_buffer m1 id msg out c1 there in
        goes_on id (length c.read_buffer) (handle_message m1 id msg out) c2 found
          (omega (arith, ap length same, extract_shorter c.read_buffer msg rest h))

-- The loop behind one of its rounds.
abbrev behind : ℕ → PeerManager → ℕ → List PeerEvent → Turn → Bool × PeerManager × List PeerEvent
behind fuel m id out t = elim t [
  | done ↦ (false, m, out)
  | breaks m1 out1 ↦ (true, m1, out1)
  | more m1 out1 ↦ message_loop fuel m1 id out1
]

behind_fuel :
    (fuel extra n : ℕ) (m : PeerManager) (id : ℕ) (out : List PeerEvent) (t : Turn)
    → Shorter id n t
    → n ≤ fuel
    → ((m1 : PeerManager) (out1 : List PeerEvent) (c : PeerConnection)
        → find m1.conns id ≡ some c
        → length c.read_buffer < fuel
        → message_loop (fuel + extra) m1 id out1 ≡ message_loop fuel m1 id out1)
    → behind (fuel + extra) m id out t ≡ behind fuel m id out t
behind_fuel fuel extra n m id out done s h k = refl
behind_fuel fuel extra n m id out (breaks m1 out1) s h k = refl
behind_fuel fuel extra n m id out (more m1 out1) (c, e, lt) h k =
    k m1 out1 c e (omega (arith, lt, h))

-- The loop over the messages of a connection that is there, given a step more than its read
-- buffer has bytes, gives what it gives with any more steps: it is never cut short.
pub message_loop_fuel :
    (fuel extra : ℕ) (m : PeerManager) (id : ℕ) (out : List PeerEvent) (c : PeerConnection)
    → find m.conns id ≡ some c
    → length c.read_buffer < fuel
    → message_loop (fuel + extra) m id out ≡ message_loop fuel m id out
unfolding message_loop
message_loop_fuel zero extra m id out c e h = ground (arith, h)
message_loop_fuel (suc fuel) extra m id out c e h =
    let step : suc fuel + extra ≡ suc (fuel + extra) = omega arith in
    ap (λ n. message_loop n m id out) step
    ∙ behind_fuel fuel extra (length c.read_buffer) m id out (message_turn m id out)
        (message_turn-Shorter m id out c e) (omega (arith, h))
        (λ m1 out1 c1 f lt. message_loop_fuel fuel extra m1 id out1 c1 f lt)
