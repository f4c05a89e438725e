-- ===== src/Peers/Available.antt =====
-- The availability that rarest-first reads is that of the connected peers: the operations of
-- src/runtime/managers/peer_manager.cpp that touch it.
use torrent_peer.Prelude.{
  ℕ, zero, suc, ◌+◌, ◌-◌, ◌%◌, ◌^◌, ◌≤◌, ◌<◌, ◌≡◌, refl, sym, subst, ◌∙◌, false, List, [], ◌∷◌,
  ◌++◌, none, some, ◌==◌, if◌then◌else◌, get_or, replicate, length-replicate, arith, All,
  All-replicate, All-append, ◌/◌, inl, inr, Bool-cases, Option-cases,
}
use native.Mathlib.Nat.{zero-div}
use torrent_peer.Prelude.Map.{
  Map, find, assign, emplace, erase, contains, Entries, Entries-find, Entries-assign, Entries-erase,
  find-assign, find-erase, find-append-absent,
}
use torrent_peer.Torrent.{Bytes}
use torrent_peer.Types.{Peer}
use torrent_peer.Bitfield
use torrent_peer.Bitfield.{Bitfield, u32_mod, byte_count}
use torrent_peer.Peers.{
  u16_mod, down, shifted, apply_from, apply_availability, PeerEvent, PeerConnection, PeerManager,
}
use torrent_peer.Peers.Messages.{msg_bitfield, message_id, on_message, handle_in, handle_message}
use torrent_peer.Peers.Sends.{promote, fresh_connection, dropped, drop_peer}
use torrent_peer.Peers.Counts.{
  has, holders, CountsOk, Distinct, holders-erase, holders-append, get_or-apply_from,
  length-apply_from,
}
use torrent_peer.Peers.Shares.{FieldOk, Shares, put-CountsOk, on_message-Shares}

-- The counts are those of the connected peers, and their fields are well formed.
pub record Available (m : PeerManager) : Type 0 where
  pub counted : CountsOk m.piece_count m.conns m.piece_frequency
  pub distinct : Distinct m.conns
  pub fields : Entries (λ id c. FieldOk m.piece_count c) m.conns
  pub few : m.piece_count ≤ u32_mod - 8

-- What changes the pieces that peers have.
pub data Change : Type 0 where
  hears : ℕ → ℕ → Bytes → Change
  leaves : ℕ → Change
  joins : Peer → ℕ → Change

abbrev pub apply : PeerManager → Change → PeerManager
apply m (hears id kind payload) = (handle_message m id (kind ∷ payload) []).0
apply m (leaves id) = (drop_peer m id []).0
apply m (joins peer now) = (promote m peer now []).0

-- Bytes are bytes, and a first bitfield comes before any have.
abbrev pub Timely : PeerManager → Change → Type 0
Timely m (hears id kind payload) =
    All (λ b. b < 256) payload
    × ((c : PeerConnection)
        → find m.conns id ≡ some c
        → message_id kind ≡ msg_bitfield
        → c.got_bitfield ≡ false
        → (i : ℕ) → Bitfield.get c.has_pieces i ≡ false)
Timely m (leaves id) = Unit
Timely m (joins peer now) = Unit

Distinct-assign :
    (m : Map PeerConnection) (id : ℕ) (c c0 : PeerConnection)
    → find m id ≡ some c0
    → Distinct m
    → Distinct (assign m id c)
unfolding find assign
Distinct-assign [] id c c0 e d = (refl, tt)
Distinct-assign ((j, x) ∷ m) id c c0 e d = elim (Bool-cases (j == id)) [
  | inl hit ↦ simp hit (ground (arith, hit, d))
  | inr miss ↦ simp miss (
    ground (arith, miss, d, find-assign m id j c),
    Distinct-assign m id c c0 (ground (arith, miss, e)) d.1,
  )
]

Distinct-erase : (m : Map PeerConnection) (id : ℕ) → Distinct m → Distinct (erase m id)
unfolding erase
Distinct-erase [] id d = tt
Distinct-erase ((j, x) ∷ m) id d = elim (Bool-cases (j == id)) [
  | inl hit ↦ simp hit (Distinct-erase m id d.1)
  | inr miss ↦ simp miss (ground (arith, d, find-erase m id j), Distinct-erase m id d.1)
]

Distinct-append :
    (m : Map PeerConnection) (id : ℕ) (c : PeerConnection)
    → find m id ≡ none
    → Distinct m
    → Distinct (m ++ (id, c) ∷ [])
unfolding find
Distinct-append [] id c e d = (refl, tt)
Distinct-append ((j, x) ∷ m) id c e d =
    let away : (j == id) ≡ false = ground (arith, e) in
    let absent : find m id ≡ none = ground (arith, e, away) in
    (ground (arith, away, d, find-append-absent m id j c absent), Distinct-append m id c absent d.1)

get_or_zeros : (k i : ℕ) → get_or {A = ℕ} (replicate k 0) i 0 ≡ 0
get_or_zeros zero i = refl
get_or_zeros (suc k) zero = refl
get_or_zeros (suc k) (suc i) = get_or_zeros k i

-- A new connection has no piece.
fresh_has : (id : ℕ) (peer : Peer) (n now i : ℕ) → has (fresh_connection id peer n now) i ≡ 0
unfolding fresh_connection Bitfield.get Bitfield.bit_of Bitfield.zeros
fresh_has id peer n now i =
    ground (arith, get_or_zeros (byte_count n) (i / 8), zero-div (2 ^ (7 - i % 8)))

fresh-FieldOk :
    (id : ℕ) (peer : Peer) (n now : ℕ)
    → n ≤ u32_mod - 8
    → FieldOk n (fresh_connection id peer n now)
unfolding fresh_connection Bitfield.zeros
fresh-FieldOk id peer n now h = record {
  valid = record {
    sized = length-replicate (byte_count n) 0;
    small = h;
    in_byte = All-replicate (λ b. b < 256) (byte_count n) 0 (omega arith);
  };
  sized = refl;
}

emplace_old :
    (m : Map PeerConnection) (id : ℕ) (c c0 : PeerConnection)
    → find m id ≡ some c0
    → emplace m id c ≡ m
unfolding emplace contains
emplace_old m id c c0 e = ground (arith, e)

emplace_new :
    (m : Map PeerConnection) (id : ℕ) (c : PeerConnection)
    → find m id ≡ none
    → emplace m id c ≡ m ++ (id, c) ∷ []
unfolding emplace contains
emplace_new m id c e = ground (arith, e)

count_down :
    (m : PeerManager) (id i : ℕ) (c : PeerConnection)
    → Available m
    → find m.conns id ≡ some c
    → i < m.piece_count
    → get_or (apply_from 0 c.has_pieces down m.piece_frequency) i 0
      ≡ holders (erase m.conns id) i % u16_mod
unfolding shifted
count_down m id i c v e less =
    let counted =
      get_or-apply_from 0 i c.has_pieces down m.piece_frequency
        (omega (arith, less, v.counted.0)) in
    let at : 0 + i ≡ i = omega arith in
    let here =
      subst
        (λ j. get_or (apply_from 0 c.has_pieces down m.piece_frequency) i 0 ≡ (
          if Bitfield.get c.has_pieces j
          then shifted down (get_or m.piece_frequency i 0)
          else get_or m.piece_frequency i 0))
        at counted in
    let was = v.counted.1 i less in
    let lost = holders-erase m.conns id i c v.distinct e in
    elim (Bool-cases (Bitfield.get c.has_pieces i)) [
      | inl b ↦
          let one : has c i ≡ 1 = ground (arith, b) in
          let now : get_or (apply_from 0 c.has_pieces down m.piece_frequency) i 0
              ≡ (get_or m.piece_frequency i 0 + u16_mod - 1) % u16_mod =
            ground (arith, b, here) in
          omega (arith, one, now, was, lost)
      | inr b ↦
          let none_ : has c i ≡ 0 = ground (arith, b) in
          let now : get_or (apply_from 0 c.has_pieces down m.piece_frequency) i 0
              ≡ get_or m.piece_frequency i 0 =
            ground (arith, b, here) in
          omega (arith, none_, now, was, lost)
    ]

drop_peer-Available :
    (m : PeerManager) (id : ℕ) (out : List PeerEvent)
    → Available m
    → Available (drop_peer m id out).0
unfolding drop_peer apply_availability
drop_peer-Available m id out v = elim (Option-cases (find m.conns id)) [
  | inl e ↦ subst (λ o. Available (dropped m id out o).0) (sym e) v
  | inr (c, e) ↦
      subst (λ o. Available (dropped m id out o).0) (sym e)
        (record {
          counted = (
            length-apply_from 0 c.has_pieces down m.piece_frequency ∙ v.counted.0,
            λ i less. count_down m id i c v e less,
          );
          distinct = Distinct-erase m.conns id v.distinct;
          fields = Entries-erase (λ id c. FieldOk m.piece_count c) m.conns id v.fields;
          few = v.few;
        })
]

promote-Available :
    (m : PeerManager) (peer : Peer) (now : ℕ) (out : List PeerEvent)
    → Available m
    → Available (promote m peer now out).0
unfolding promote holders
promote-Available m peer now out v =
    let c = fresh_connection m.next_id peer m.piece_count now in
    let P : Map PeerConnection → Type 0 =
      λ cs. Available (record m { next_id = (m.next_id + 1) % 2 ^ 32; conns = cs }) in
    elim (Option-cases (find m.conns m.next_id)) [
      | inr (c0, e) ↦
          subst P (sym (emplace_old m.conns m.next_id c c0 e))
            (record { counted = v.counted; distinct = v.distinct; fields = v.fields; few = v.few })
      | inl e ↦ subst P (sym (emplace_new m.conns m.next_id c e)) (record {
        counted = (
          v.counted.0,
          λ i less. omega (
            arith,
            v.counted.1 i less,
            holders-append m.conns ((m.next_id, c) ∷ []) i,
            fresh_has m.next_id peer m.piece_count now i,
          ),
        );
        distinct = Distinct-append m.conns m.next_id c e v.distinct;
        fields =
            All-append (λ (entry : ℕ × PeerConnection). FieldOk m.piece_count (entry.1)) m.conns
              ((m.next_id, c) ∷ []) v.fields
              (fresh-FieldOk m.next_id peer m.piece_count now v.few, tt);
        few = v.few;
      })
    ]

handle_message-Available :
    (m : PeerManager) (id kind : ℕ) (payload : Bytes)
    → Available m
    → Timely m (hears id kind payload)
    → Available (handle_message m id (kind ∷ payload) []).0
unfolding handle_message
handle_message-Available m id kind payload v timely = elim (Option-cases (find m.conns id)) [
  | inl e ↦ subst (λ o. Available (handle_in m id (kind ∷ payload) [] o).0) (sym e) v
  | inr (c, e) ↦
      let h = on_message c m.piece_frequency [] id (message_id kind) payload in
      let s : Shares m.piece_count c m.piece_frequency h =
        on_message-Shares m.piece_count c m.piece_frequency
          (Entries-find (λ id c. FieldOk m.piece_count c) m.conns id v.fields e) (v.counted.0) [] id
          (message_id kind) payload timely.0 (timely.1 c e) in
      subst (λ o. Available (handle_in m id (kind ∷ payload) [] o).0) (sym e)
        (record {
          counted =
              put-CountsOk m.piece_count m.conns id c h.conn m.piece_frequency h.counts e v.counted
                s.same_length s.change;
          distinct = Distinct-assign m.conns id h.conn c e v.distinct;
          fields =
              Entries-assign (λ id c. FieldOk m.piece_count c) m.conns id h.conn s.field v.fields;
          few = v.few;
        })
]

-- A timely change keeps the counts those of the connected peers.
pub apply-Available :
    (m : PeerManager) (change : Change) → Available m → Timely m change → Available (apply m change)
apply-Available m (hears id kind payload) v timely =
    handle_message-Available m id kind payload v timely
apply-Available m (leaves id) v timely = drop_peer-Available m id [] v
apply-Available m (joins peer now) v timely = promote-Available m peer now [] v
