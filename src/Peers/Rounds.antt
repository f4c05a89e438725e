-- ===== src/Peers/Rounds.antt =====
-- The handshakes of a round, `handle_events` of src/runtime/managers/peer_manager.cpp: a peer that is
-- promoted gives up its place among the pending.
use torrent_peer.Prelude.{
  ℕ, suc, ◌+◌, ◌≤◌, ◌<◌, ◌≡◌, refl, sym, ap, subst, ◌∙◌, List, [], ◌∷◌, length, Result, ok, ◌>>=◌,
  arith, Bool-cases, Option-cases, Result-cases, inl, inr,
}
use torrent_peer.Prelude.Map.{find, Entries, Entries-emplace, Entries-assign, Entries-find}
use torrent_peer.Torrent.{Bytes, TorrentFile}
use torrent_peer.Types.{Peer}
use torrent_peer.Bitfield
use torrent_peer.Wire.{build_handshake}
use torrent_peer.Peers.{PeerEvent, PendingInbound, PeerManager}
use torrent_peer.Peers.Sends.{queue, changed, at_peer, send_to, promote, fresh_connection}
use torrent_peer.Peers.Dials.{
  HandshakeResult, keep, drop_it, promoted, Awaited, read_handshake, is_ours, accept_inbound,
  received_inbound, advance_inbound,
}
use torrent_peer.Peers.Events.{settle_inbound, step_inbound, inbound_loop}
use torrent_peer.Peers.Invariant.{ConnOk, length-emplace, length-assign, queue-ConnOk}

-- The manager has as many connections more as `n` says, at most, and is else as it was.
pub record Grown (n : ℕ) (m m1 : PeerManager) : Type 0 where
  pub id : m1.peer_id ≡ m.peer_id
  pub limit : m1.max_peers ≡ m.max_peers
  pub ins : m1.inbound ≡ m.inbound
  pub outs : m1.outbound ≡ m.outbound
  pub queue : m1.candidates ≡ m.candidates
  pub room : length m1.conns ≤ n + length m.conns
  pub each : Entries (ConnOk m1.piece_count) m1.conns

fresh-ConnOk : (id : ℕ) (peer : Peer) (n now : ℕ) → ConnOk n id (fresh_connection id peer n now)
unfolding fresh_connection Bitfield.zeros
fresh-ConnOk id peer n now = record {
  named = refl;
  sized = refl;
  coherent = record { counted = refl; no_empty = tt; cursor_ok = refl };
}

pub same-Grown : (m : PeerManager) → Entries (ConnOk m.piece_count) m.conns → Grown 0 m m
same-Grown m h = record {
  id = refl;
  limit = refl;
  ins = refl;
  outs = refl;
  queue = refl;
  room = omega arith;
  each = h;
}

pub Grown-trans :
    (a b : ℕ) (m m1 m2 : PeerManager) → Grown a m m1 → Grown b m1 m2 → Grown (a + b) m m2
Grown-trans a b m m1 m2 g h = record {
  id = h.id ∙ g.id;
  limit = h.limit ∙ g.limit;
  ins = h.ins ∙ g.ins;
  outs = h.outs ∙ g.outs;
  queue = h.queue ∙ g.queue;
  room = omega (arith, g.room, h.room);
  each = h.each;
}

pub promote-Grown :
    (m : PeerManager) (peer : Peer) (now : ℕ) (out : List PeerEvent)
    → Entries (ConnOk m.piece_count) m.conns
    → Grown 1 m (promote m peer now out).0
unfolding promote
promote-Grown m peer now out h = record {
  id = refl;
  limit = refl;
  ins = refl;
  outs = refl;
  queue = refl;
  room =
      omega (
        arith,
        length-emplace m.conns m.next_id (fresh_connection m.next_id peer m.piece_count now),
      );
  each =
      Entries-emplace (ConnOk m.piece_count) m.conns m.next_id
        (fresh_connection m.next_id peer m.piece_count now)
        (fresh-ConnOk m.next_id peer m.piece_count now) h;
}

-- A promoted socket is a connection more.
abbrev pub joins : HandshakeResult → ℕ
joins keep = 0
joins drop_it = 0
joins promoted = 1

send_to-Grown :
    (n : ℕ) (m m1 : PeerManager) (id : ℕ) (msg : Bytes)
    → 0 < length msg
    → Grown n m m1
    → Grown n m (send_to m1 id msg)
unfolding send_to at_peer
send_to-Grown n m m1 id msg h g = elim (Option-cases (find m1.conns id)) [
  | inl e ↦ subst (λ o. Grown n m (changed m1 id (λ c. queue c msg) o)) (sym e) g
  | inr (c, e) ↦
      subst (λ o. Grown n m (changed m1 id (λ c'. queue c' msg) o)) (sym e)
        (record {
          id = g.id;
          limit = g.limit;
          ins = g.ins;
          outs = g.outs;
          queue = g.queue;
          room = omega (arith, g.room, length-assign m1.conns id (queue c msg) c e);
          each =
              Entries-assign (ConnOk m1.piece_count) m1.conns id (queue c msg)
                (queue-ConnOk m1.piece_count id c msg h
                  (Entries-find (ConnOk m1.piece_count) m1.conns id g.each e))
                g.each;
        })
]

-- A handshake is built, and is not empty.
handshake_built :
    (t : TorrentFile) (peer_id : Bytes)
    → length peer_id ≡ 20
    → (hs : Bytes) × (build_handshake t peer_id ≡ ok hs) × (0 < length hs)
unfolding build_handshake
handshake_built t peer_id h = elim (Result-cases (build_handshake t peer_id)) [
  | inl (hs, e) ↦ (hs, e, ground (arith, h, e))
  | inr (x, e) ↦ absurd (ground (arith, h, e))
]

-- The results of a step that is fine.
abbrev Inbound :
    PeerManager → Result (HandshakeResult × PendingInbound × PeerManager × List PeerEvent) → Type 0
Inbound m r =
    (h : HandshakeResult) × (p1 : PendingInbound) × (m1 : PeerManager) × (out1 : List PeerEvent)
    × (r ≡ ok (h, p1, m1, out1))
    × Grown (joins h) m m1

module _ (m : PeerManager) (sized : length m.peer_id ≡ 20)
    (all_ok : Entries (ConnOk m.piece_count) m.conns) where
  accept_inbound_total :
      (p : PendingInbound) (buffer : Bytes) (now : ℕ) (out : List PeerEvent)
      → (h : HandshakeResult) × (m1 : PeerManager) × (out1 : List PeerEvent) × (accept_inbound m p
            buffer now out
          ≡ ok (h, m1, out1))
        × Grown (joins h) m m1
  unfolding accept_inbound
  accept_inbound_total p buffer now out = elim (Bool-cases (is_ours m buffer p.peer)) [
    | inr e ↦ (drop_it, m, out, ground (arith, e), same-Grown m all_ok)
    | inl e ↦
        let (hs, built, some_bytes) = handshake_built m.torrent m.peer_id sized in
        let made = promote m p.peer now out in
        (
          promoted,
          send_to made.0 m.next_id hs,
          made.1,
          ground (arith, e, built),
          send_to-Grown 1 m made.0 m.next_id hs some_bytes (promote-Grown m p.peer now out all_ok),
        )
  ]

  received_inbound_total :
      (p : PendingInbound) (now : ℕ) (out : List PeerEvent) (r : HandshakeResult × Bytes)
      → Inbound m (received_inbound m p now out r)
  received_inbound_total p now out (keep, buffer) =
      (keep, record p { buffer = buffer }, m, out, refl, same-Grown m all_ok)
  received_inbound_total p now out (drop_it, buffer) =
      (drop_it, p, m, out, refl, same-Grown m all_ok)
  received_inbound_total p now out (promoted, buffer) =
      let (h, m1, out1, e, g) = accept_inbound_total p buffer now out in
      (h, p, m1, out1, ground (arith, e), g)

  step_inbound_total :
      (p : PendingInbound) (a : Awaited) (out : List PeerEvent) → Inbound m (step_inbound m p a out)
  unfolding advance_inbound
  step_inbound_total p a out = elim (Bool-cases a.any) [
    | inr e ↦ (keep, p, m, out, ground (arith, e), same-Grown m all_ok)
    | inl e ↦ elim (Bool-cases a.readable) [
      | inr f ↦ (drop_it, p, m, out, ground (arith, e, f), same-Grown m all_ok)
      | inl f ↦
          let (h, p1, m1, out1, made, g) =
            received_inbound_total p a.clock out (read_handshake p.buffer a.read) in
          (h, p1, m1, out1, ground (arith, e, f, made), g)
    ]
  ]

-- What is kept and what joined have the places of the pending sockets.
abbrev pub InboundLoop :
    PeerManager → ℕ → Result (List PendingInbound × PeerManager × List PeerEvent) → Type 0
InboundLoop m n r =
    (kept : List PendingInbound) × (m1 : PeerManager) × (out1 : List PeerEvent) × (k : ℕ) × (r
      ≡ ok (kept, m1, out1))
    × Grown k m m1
    × (length kept + k ≤ n)

pub inbound_loop_total :
    (ps : List PendingInbound) (m : PeerManager) (as_ : List Awaited) (out : List PeerEvent)
    → length m.peer_id ≡ 20
    → Entries (ConnOk m.piece_count) m.conns
    → InboundLoop m (length ps) (inbound_loop m ps as_ out)
unfolding inbound_loop
inbound_loop_total [] m as_ out sized h = ([], m, out, 0, refl, same-Grown m h, omega arith)
inbound_loop_total (p ∷ ps) m [] out sized h =
    (p ∷ ps, m, out, 0, refl, same-Grown m h, omega arith)
inbound_loop_total (p ∷ ps) m (a ∷ as_) out sized h =
    let (r, p1, m1, out1, made, g) = step_inbound_total m sized h p a out in
    let (kept, m2, out2, k, rest, g2, fits) =
      inbound_loop_total ps m1 as_ out1 (ap length g.id ∙ sized) g.each in
    settled r p1 m1 kept m2 out1 out2 k made rest (Grown-trans (joins r) k m m1 m2 g g2) fits
  where
    settled :
        (r : HandshakeResult) (p1 : PendingInbound) (m1 : PeerManager) (kept : List PendingInbound)
        (m2 : PeerManager) (out1 out2 : List PeerEvent) (k : ℕ)
        → step_inbound m p a out ≡ ok (r, p1, m1, out1)
        → inbound_loop m1 ps as_ out1 ≡ ok (kept, m2, out2)
        → Grown (joins r + k) m m2
        → length kept + k ≤ length ps
        → InboundLoop m (suc (length ps)) (
            step_inbound m p a out
            >>= λ (s : HandshakeResult × PendingInbound × PeerManager × List PeerEvent).
                inbound_loop s.2 ps as_ s.3 >>= λ rest. ok (settle_inbound rest (s.0, s.1)))
    settled keep p1 m1 kept m2 out1 out2 k made rest g fits =
        (p1 ∷ kept, m2, out2, joins keep + k, ground (arith, made, rest), g, omega (arith, fits))
    settled drop_it p1 m1 kept m2 out1 out2 k made rest g fits =
        (kept, m2, out2, joins drop_it + k, ground (arith, made, rest), g, omega (arith, fits))
    settled promoted p1 m1 kept m2 out1 out2 k made rest g fits =
        (kept, m2, out2, joins promoted + k, ground (arith, made, rest), g, omega (arith, fits))
