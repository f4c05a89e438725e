-- ===== src/Peers/Messages.antt =====
-- `handle_message` of src/runtime/managers/peer_manager.cpp: a case for each message.
use torrent_peer.Prelude.{
  ℕ, ◌%◌, ◌^◌, Bool, true, false, not, ◌&&◌, List, [], ◌∷◌, ◌++◌, Option, none, some, ltb, leb,
  ◌==◌, if◌then◌else◌, length, get_or, set, drop, Result, ok, err, Exception, runtime_error,
}
use torrent_peer.Prelude.Map.{find, assign}
use torrent_peer.Torrent.{Bytes}
use torrent_peer.Types.{Block, BlockRequest, PendingRequest, block_size}
use torrent_peer.Bitfield
use torrent_peer.Bitfield.{Bitfield}
use torrent_peer.Wire.{ntohl_at, requests_of, remove_queued_piece}
use torrent_peer.Peers.{
  EventType, choke_event, unchoke_event, piece_event, dropped_event, request_event, joined_event,
  PeerEvent, PeerConnection, PeerManager, up, shifted, apply_availability,
}

abbrev pub no_block : Block
no_block = record { piece_index = 0; offset = 0; payload = [] }

abbrev pub no_request : BlockRequest
no_request = record { piece_index = 0; offset = 0; length = 0 }

abbrev pub event_of : EventType → ℕ → PeerEvent
event_of type id = record {
  type = type;
  peer_id = id;
  block = no_block;
  req = no_request;
  released = [];
}

-- `msg_unknown` stands for the numbers that have no name.
pub data MessageId : Type 0 where
  msg_choke msg_unchoke msg_interested msg_not_interested msg_have msg_bitfield msg_request
        msg_piece msg_cancel msg_unknown :
      MessageId

unfoldable pub message_id : ℕ → MessageId
message_id n =
    if n == 0
    then msg_choke
    else if n == 1
    then msg_unchoke
    else if n == 2
    then msg_interested
    else if n == 3
    then msg_not_interested
    else if n == 4
    then msg_have
    else if n == 5
    then msg_bitfield
    else if n == 6
    then msg_request
    else if n == 7
    then msg_piece
    else if n == 8
    then msg_cancel
    else msg_unknown

-- What a message leaves: the connection, the counts, the events, and what is thrown.
pub record Handled : Type 0 where
  pub conn : PeerConnection
  pub counts : List ℕ
  pub out : List PeerEvent
  pub thrown : Option Exception

abbrev pub same_request : BlockRequest → BlockRequest → Bool
same_request a b =
    (a.piece_index == b.piece_index) && (a.offset == b.offset) && (a.length == b.length)

-- The three numbers of a request or a cancel.
abbrev pub request_in : Bytes → BlockRequest
request_in payload = record {
  piece_index = ntohl_at payload 0;
  offset = ntohl_at payload 4;
  length = ntohl_at payload 8;
}

module _ (c : PeerConnection) (counts : List ℕ) (out : List PeerEvent) where
  abbrev pub unchanged : Handled
  unchanged = record { conn = c; counts = counts; out = out; thrown = none }

  abbrev pub throws : Exception → Handled
  throws e = record unchanged { thrown = some e }

  unfoldable pub on_choke : ℕ → Handled
  on_choke id = record unchanged {
    conn = record c { peer_choking = true; pending = [] };
    out = out ++ record (event_of choke_event id) { released = requests_of c.pending } ∷ [];
  }

  unfoldable pub on_unchoke : ℕ → Handled
  on_unchoke id = record unchanged {
    conn = record c { peer_choking = false };
    out = out ++ event_of unchoke_event id ∷ [];
  }

  -- The bit is set and the piece counted.
  abbrev pub with_piece : ℕ → Result Bitfield → Handled
  with_piece index (err e) = throws e
  with_piece index (ok field) = record unchanged {
    conn = record c { has_pieces = field };
    counts = set counts index (shifted up (get_or counts index 0));
  }

  unfoldable pub on_have : Bytes → Handled
  on_have payload =
      let index = ntohl_at payload 0 in
      if not (length payload == 4)
      then throws (runtime_error "bad have")
      else if leb c.has_pieces.bits index
      then throws (runtime_error "have out of range")
      else if Bitfield.get c.has_pieces index
      then unchanged
      else with_piece index (Bitfield.set_bit c.has_pieces index)

  abbrev pub with_field : Result Bitfield → Handled
  with_field (err e) = record unchanged { conn = record c { got_bitfield = true }; thrown = some e }
  with_field (ok field) = record unchanged {
    conn = record c { got_bitfield = true; has_pieces = field };
    counts = apply_availability field up counts;
  }

  unfoldable pub on_bitfield : Bytes → Handled
  on_bitfield payload =
      if c.got_bitfield
      then unchanged
      else with_field (Bitfield.from_bytes payload c.has_pieces.bits)

  unfoldable pub on_request : ℕ → Bytes → Handled
  on_request id payload =
      if c.am_choking
      then unchanged
      else if not (length payload == 12)
      then throws (runtime_error "bad request")
      else if ltb block_size (ntohl_at payload 8)
      then throws (runtime_error "request too large")
      else record unchanged {
        out = out ++ record (event_of request_event id) { req = request_in payload } ∷ [];
      }

-- The first pending request that is asked for, taken out.
unfoldable pub take_pending : BlockRequest → List PendingRequest → Option (List PendingRequest)
take_pending r [] = none
take_pending r (p ∷ ps) =
    if same_request p.req r
    then some ps
    else elim (take_pending r ps) [ none ↦ none | some rest ↦ some (p ∷ rest) ]

abbrev pub block_in : Bytes → Block
block_in payload = record {
  piece_index = ntohl_at payload 0;
  offset = ntohl_at payload 4;
  payload = drop 8 payload;
}

abbrev pub request_of : Block → BlockRequest
request_of b = record {
  piece_index = b.piece_index;
  offset = b.offset;
  length = length b.payload % 2 ^ 32;
}

-- The events without the last request of this peer that is the one cancelled.
abbrev pub is_event_for : ℕ → BlockRequest → PeerEvent → Bool
is_event_for id r ev = is_request ev.type && (ev.peer_id == id) && same_request ev.req r
  where
    is_request : EventType → Bool
    is_request t = elim t [
      | choke_event ↦ false
      | unchoke_event ↦ false
      | piece_event ↦ false
      | dropped_event ↦ false
      | request_event ↦ true
      | joined_event ↦ false
    ]

unfoldable pub without_last : ℕ → BlockRequest → List PeerEvent → Option (List PeerEvent)
without_last id r [] = none
without_last id r (ev ∷ evs) = elim (without_last id r evs) [
  | some rest ↦ some (ev ∷ rest)
  | none ↦ if is_event_for id r ev then some evs else none
]

module _ (c : PeerConnection) (counts : List ℕ) (out : List PeerEvent) where
  abbrev pub accept_piece : ℕ → Block → Option (List PendingRequest) → Handled
  accept_piece id block none = unchanged c counts out
  accept_piece id block (some rest) = record (unchanged c counts out) {
    conn = record c { pending = rest; snubbed = false };
    out = out ++ record (event_of piece_event id) { block = block } ∷ [];
  }

  unfoldable pub on_piece : ℕ → Bytes → Handled
  on_piece id payload =
      if ltb (length payload) 8
      then throws c counts out (runtime_error "bad piece")
      else accept_piece id (block_in payload)
          (take_pending (request_of (block_in payload)) c.pending)

  -- Taken from the events of this round, or else from the queue.
  abbrev pub cancel : BlockRequest → Option (List PeerEvent) → Handled
  cancel r (some evs) = record (unchanged c counts out) { out = evs }
  cancel r none = record (unchanged c counts out) {
    conn = record c { outbox = (remove_queued_piece c.outbox r.piece_index r.offset r.length).1 };
  }

  unfoldable pub on_cancel : ℕ → Bytes → Handled
  on_cancel id payload =
      if not (length payload == 12)
      then throws c counts out (runtime_error "bad cancel")
      else if ltb block_size (ntohl_at payload 8)
      then throws c counts out (runtime_error "cancel too large")
      else cancel (request_in payload) (without_last id (request_in payload) out)

  -- The cases of the switch.
  unfoldable pub on_message : ℕ → MessageId → Bytes → Handled
  on_message id msg_choke payload = on_choke c counts out id
  on_message id msg_unchoke payload = on_unchoke c counts out id
  on_message id msg_interested payload = record (unchanged c counts out) {
    conn = record c { peer_interested = true };
  }
  on_message id msg_not_interested payload = record (unchanged c counts out) {
    conn = record c { peer_interested = false };
  }
  on_message id msg_have payload = on_have c counts out payload
  on_message id msg_bitfield payload = on_bitfield c counts out payload
  on_message id msg_request payload = on_request c counts out id payload
  on_message id msg_piece payload = on_piece id payload
  on_message id msg_cancel payload = on_cancel id payload
  on_message id msg_unknown payload = unchanged c counts out

-- The manager behind the message, the events, and what is thrown.
abbrev pub put_back : PeerManager → ℕ → Handled → PeerManager × List PeerEvent × Option Exception
put_back m id h =
    (record m { conns = assign m.conns id h.conn; piece_frequency = h.counts }, h.out, h.thrown)

abbrev pub handle_in :
    PeerManager
    → ℕ
    → Bytes
    → List PeerEvent
    → Option PeerConnection
    → PeerManager × List PeerEvent × Option Exception
handle_in m id msg out none = (m, out, none)
handle_in m id [] out (some c) = (m, out, none)
handle_in m id (kind ∷ payload) out (some c) =
    put_back m id (on_message c m.piece_frequency out id (message_id kind) payload)

unfoldable pub handle_message :
    PeerManager → ℕ → Bytes → List PeerEvent → PeerManager × List PeerEvent × Option Exception
handle_message m id msg out = handle_in m id msg out (find m.conns id)
