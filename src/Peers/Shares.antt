-- ===== src/Peers/Shares.antt =====
-- What a message does to the availability counts, `handle_message` of
-- src/runtime/managers/peer_manager.cpp.
use torrent_peer.Prelude.{
  ℕ, ◌+◌, ◌%◌, ◌<◌, ◌≡◌, refl, sym, ap, subst, ◌∙◌, true, false, List, some, leb, ◌==◌,
  if◌then◌else◌, length, get_or, set, length-set, get_or-set_self, get_or-set_ne, ok, arith, All,
  ◌⊎◌, inl, inr, Bool-cases, Result-cases, ℕ_discrete, ==_iff, ne→==_false,
}
use torrent_peer.Prelude.Map.{Map, find, assign}
use torrent_peer.Torrent.{Bytes}
use torrent_peer.Bitfield
use torrent_peer.Bitfield.{Bitfield, u32_mod, byte_count}
use torrent_peer.Bitfield.Laws.{IsValid, get-set_bit, set_bit-IsValid}
use torrent_peer.Wire.{ntohl_at}
use torrent_peer.Peers.{
  u16_mod, up, shifted, apply_from, apply_availability, PeerEvent, PeerConnection,
}
use torrent_peer.Peers.Messages.{
  Handled, MessageId, msg_choke, msg_unchoke, msg_interested, msg_not_interested, msg_have,
  msg_bitfield, msg_request, msg_piece, msg_cancel, msg_unknown, on_choke, on_unchoke, on_have,
  on_bitfield, on_request, on_piece, on_cancel, on_message, with_piece, with_field,
}
use torrent_peer.Peers.Counts.{
  has, holders, CountsOk, holders-assign, get_or-apply_from, length-apply_from,
}

-- The field of a connection has a bit for each piece.
pub record FieldOk (n : ℕ) (c : PeerConnection) : Type 0 where
  pub valid : IsValid c.has_pieces
  pub sized : c.has_pieces.bits ≡ n

-- A piece is as it was, or is new with the peer and counted.
abbrev pub Change : PeerConnection → PeerConnection → List ℕ → List ℕ → ℕ → Type 0
Change c c1 counts counts1 i =
    ((has c1 i ≡ has c i) × (get_or counts1 i 0 ≡ get_or counts i 0))
    ⊎ ((has c i ≡ 0) × (has c1 i ≡ 1) × (get_or counts1 i 0 ≡ (get_or counts i 0 + 1) % u16_mod))

pub put-CountsOk :
    (n : ℕ) (m : Map PeerConnection) (id : ℕ) (c c1 : PeerConnection) (counts counts1 : List ℕ)
    → find m id ≡ some c
    → CountsOk n m counts
    → length counts1 ≡ length counts
    → ((i : ℕ) → i < n → Change c c1 counts counts1 i)
    → CountsOk n (assign m id c1) counts1
put-CountsOk n m id c c1 counts counts1 e v same change = (same ∙ v.0, λ i h. at i h (change i h))
  where
    at :
        (i : ℕ)
        → i < n
        → Change c c1 counts counts1 i
        → get_or counts1 i 0 ≡ holders (assign m id c1) i % u16_mod
    at i h (inl (kept, count)) = omega (arith, kept, count, v.1 i h, holders-assign m id i c c1 e)
    at i h (inr (before, after, count)) =
        omega (arith, before, after, count, v.1 i h, holders-assign m id i c c1 e)

-- What a message may do to its connection and to the counts.
pub record Shares (n : ℕ) (c : PeerConnection) (counts : List ℕ) (h : Handled) : Type 0 where
  pub same_length : length h.counts ≡ length counts
  pub change : (i : ℕ) → i < n → Change c h.conn counts h.counts i
  pub field : FieldOk n h.conn

module _ (n : ℕ) (c : PeerConnection) (counts : List ℕ) (v : FieldOk n c)
    (whole : length counts ≡ n) where
  -- A message that leaves the pieces alone.
  untouched :
      (h : Handled) → h.conn.has_pieces ≡ c.has_pieces → h.counts ≡ counts → Shares n c counts h
  untouched h e f = record {
    same_length = ap length f;
    change =
        λ i lt. inl (ap (λ b. if Bitfield.get b i then 1 else 0) e, ap (λ xs. get_or xs i 0) f);
    field = record { valid = subst IsValid (sym e) v.valid; sized = ap (λ b. b.bits) e ∙ v.sized };
  }

  set-Change :
      (index : ℕ) (field : Bitfield) (i : ℕ)
      → Bitfield.get c.has_pieces index ≡ false
      → index < n
      → Bitfield.set_bit c.has_pieces index ≡ ok field
      → Change c
          (record c { has_pieces = field })
          counts
          (set counts index (shifted up (get_or counts index 0)))
          i
  unfolding shifted
  set-Change index field i unset lt h =
      let now = get-set_bit c.has_pieces index i v.valid h in
      elim (ℕ_discrete index i) [
        | yes e ↦
            let was = subst (λ j. Bitfield.get c.has_pieces j ≡ false) e unset in
            let counted =
              get_or-set_self counts index (shifted up (get_or counts index 0)) 0
                (omega (arith, lt, whole)) in
            let at : get_or (set counts index (shifted up (get_or counts index 0))) i 0
                ≡ (get_or counts i 0 + 1) % u16_mod =
              subst
                (λ j.
                  get_or (set counts index (shifted up (get_or counts index 0))) j 0
                  ≡ (get_or counts j 0 + 1) % u16_mod)
                e counted in
            inr (ground (arith, was), ground (arith, now, (==_iff index i).1 e), at)
        | no e ↦ inl (
          ground (arith, now, ne→==_false index i e),
          get_or-set_ne counts index i (shifted up (get_or counts index 0)) 0 e,
        )
      ]

  with_piece-Shares :
      (out : List PeerEvent) (index : ℕ)
      → Bitfield.get c.has_pieces index ≡ false
      → index < n
      → Shares n c counts (with_piece c counts out index (Bitfield.set_bit c.has_pieces index))
  with_piece-Shares out index unset lt = elim (Result-cases (Bitfield.set_bit c.has_pieces index)) [
    | inr (e, h) ↦
        subst (λ r. Shares n c counts (with_piece c counts out index r)) (sym h)
          (untouched _ refl refl)
    | inl (field, h) ↦
        subst (λ r. Shares n c counts (with_piece c counts out index r)) (sym h)
          (record {
            same_length = length-set counts index _;
            change = λ i less. set-Change index field i unset lt h;
            field = record {
              valid = (set_bit-IsValid c.has_pieces index v.valid h).0;
              sized = (set_bit-IsValid c.has_pieces index v.valid h).1 ∙ v.sized;
            };
          })
  ]

  field-Change :
      (field : Bitfield) (i : ℕ)
      → i < n
      → Bitfield.get c.has_pieces i ≡ false
      → Change c
          (record c { got_bitfield = true; has_pieces = field })
          counts
          (apply_availability field up counts)
          i
  unfolding apply_availability shifted
  field-Change field i less unset =
      let counted = get_or-apply_from 0 i field up counts (omega (arith, less, whole)) in
      let at : 0 + i ≡ i = omega arith in
      let here =
        subst
          (λ j.
            get_or (apply_from 0 field up counts) i 0
            ≡ (if Bitfield.get field j then shifted up (get_or counts i 0) else get_or counts i 0))
          at counted in
      elim (Bool-cases (Bitfield.get field i)) [
        | inl e ↦ inr (ground (arith, unset), ground (arith, e), ground (arith, e, here))
        | inr e ↦ inl (ground (arith, e, unset), ground (arith, e, here))
      ]

  from_bytes-FieldOk :
      (payload : Bytes) (field : Bitfield)
      → All (λ b. b < 256) payload
      → Bitfield.from_bytes payload c.has_pieces.bits ≡ ok field
      → FieldOk n (record c { got_bitfield = true; has_pieces = field })
  unfolding Bitfield.from_bytes
  from_bytes-FieldOk payload field bytes h =
      let same : record { bits = c.has_pieces.bits; bytes = payload } ≡ field = ground (arith, h) in
      let size : length payload ≡ byte_count c.has_pieces.bits = ground (arith, h) in
      subst (λ b. FieldOk n (record c { got_bitfield = true; has_pieces = b })) same
        (record {
          valid = record { sized = size; small = v.valid.small; in_byte = bytes };
          sized = v.sized;
        })

  with_field-Shares :
      (out : List PeerEvent) (payload : Bytes)
      → ((i : ℕ) → Bitfield.get c.has_pieces i ≡ false)
      → All (λ b. b < 256) payload
      → Shares n c counts (with_field c counts out (Bitfield.from_bytes payload c.has_pieces.bits))
  unfolding apply_availability apply_from
  with_field-Shares out payload empty bytes =
      elim (Result-cases (Bitfield.from_bytes payload c.has_pieces.bits)) [
        | inr (e, h) ↦
            subst (λ r. Shares n c counts (with_field c counts out r)) (sym h)
              (untouched _ refl refl)
        | inl (field, h) ↦
            subst (λ r. Shares n c counts (with_field c counts out r)) (sym h)
              (record {
                same_length = length-apply_from 0 field up counts;
                change = λ i less. field-Change field i less (empty i);
                field = from_bytes-FieldOk payload field bytes h;
              })
      ]

  on_have-Shares :
      (out : List PeerEvent) (payload : Bytes) → Shares n c counts (on_have c counts out payload)
  unfolding on_have
  on_have-Shares out payload =
      let index = ntohl_at payload 0 in
      elim (Bool-cases (length payload == 4)) [
        | inr e ↦ simp e (untouched _ refl refl)
        | inl e ↦ elim (Bool-cases (leb c.has_pieces.bits index)) [
          | inl past ↦ simp (e, past) (untouched _ refl refl)
          | inr inside ↦ elim (Bool-cases (Bitfield.get c.has_pieces index)) [
            | inl old ↦ simp (e, inside, old) (untouched _ refl refl)
            | inr new ↦
                simp (e, inside, new)
                  (with_piece-Shares out index new (ground (arith, inside, v.sized)))
          ]
        ]
      ]

  on_bitfield-Shares :
      (out : List PeerEvent) (payload : Bytes)
      → (c.got_bitfield ≡ false → (i : ℕ) → Bitfield.get c.has_pieces i ≡ false)
      → All (λ b. b < 256) payload
      → Shares n c counts (on_bitfield c counts out payload)
  unfolding on_bitfield
  on_bitfield-Shares out payload early bytes = elim (Bool-cases c.got_bitfield) [
    | inl e ↦ simp e (untouched _ refl refl)
    | inr e ↦ simp e (with_field-Shares out payload (early e) bytes)
  ]

  pub on_message-Shares :
      (out : List PeerEvent) (id : ℕ) (k : MessageId) (payload : Bytes)
      → All (λ b. b < 256) payload
      → (k ≡ msg_bitfield → c.got_bitfield ≡ false → (i : ℕ) → Bitfield.get c.has_pieces i ≡ false)
      → Shares n c counts (on_message c counts out id k payload)
  unfolding on_message on_choke on_unchoke on_request on_piece on_cancel
  on_message-Shares out id msg_choke payload bytes timely = untouched _ refl refl
  on_message-Shares out id msg_unchoke payload bytes timely = untouched _ refl refl
  on_message-Shares out id msg_interested payload bytes timely = untouched _ refl refl
  on_message-Shares out id msg_not_interested payload bytes timely = untouched _ refl refl
  on_message-Shares out id msg_have payload bytes timely = on_have-Shares out payload
  on_message-Shares out id msg_bitfield payload bytes timely =
      on_bitfield-Shares out payload (timely refl) bytes
  on_message-Shares out id msg_request payload bytes timely =
      untouched _ (ground arith) (ground arith)
  on_message-Shares out id msg_piece payload bytes timely =
      untouched _ (ground arith) (ground arith)
  on_message-Shares out id msg_cancel payload bytes timely =
      untouched _ (ground arith) (ground arith)
  on_message-Shares out id msg_unknown payload bytes timely = untouched _ refl refl
