-- ===== src/Peers/Tests.antt =====
-- A peer that joins, announces a piece and leaves; a round.
use torrent_peer.Prelude.{ℕ, ◌≡◌, refl, arith, true, List, [], ◌∷◌, ok, codes, replicate, ◌>>=◌}
use torrent_peer.Prelude.{◌+◌}
use torrent_peer.Torrent.Sample.{small}
use torrent_peer.Types.{Peer}
use torrent_peer.Bitfield.{Bitfield}
use torrent_peer.Bitfield
use torrent_peer.Prelude.Map.{find, assign, emplace, contains}
use torrent_peer.Prelude.{◌⊎◌, inl, inr, ◌≢◌}
use torrent_peer.Wire.{ntohl_at}
use torrent_peer.Peers.{shifted, apply_from, apply_availability, PeerConnection, PeerManager}
use torrent_peer.Peers.Messages.{
  msg_bitfield, message_id, handle_message, on_message, on_have, on_bitfield,
}
use torrent_peer.Peers.Sends.{promote, fresh_connection, fresh_manager, make, drop_peer, forget}
use torrent_peer.Peers.Dials.{Dialler}
use torrent_peer.Peers.Events.{Round, message_loop}
use torrent_peer.Peers.Fuel.{message_loop_fuel}
use torrent_peer.Peers.Invariant.{PeersOk}
use torrent_peer.Peers.Available.{Available, Change, joins, hears, leaves}
use torrent_peer.Peers.History.{apply_all, history-Available}
use torrent_peer.Peers.Runs.{Operation, adds, rounds, announces, bans, run, run-PeersOk}

abbrev someone : Peer
someone = record { host = codes "10.0.0.1"; port = codes "6881" }

abbrev our_id : List ℕ
our_id = replicate 20 65

abbrev fresh : PeerManager
fresh = fresh_manager small our_id true 60

abbrev history : List Change
history = joins someone 0 ∷ hears 0 4 (0 ∷ 0 ∷ 0 ∷ 1 ∷ []) ∷ hears 7 9 [] ∷ leaves 0 ∷ []

no_bitfield : (kind : ℕ) → (kind ≡ 4) ⊎ (kind ≡ 9) → message_id kind ≢ msg_bitfield
unfolding message_id
no_bitfield kind h e = ground (arith, h, e)

-- The counts while the peer is there, and behind it.
counts_there :
    (apply_all fresh (joins someone 0 ∷ hears 0 4 (0 ∷ 0 ∷ 0 ∷ 1 ∷ []) ∷ [])).piece_frequency
    ≡ 0 ∷ 1 ∷ []
unfolding apply_all promote emplace contains fresh_connection handle_message message_id on_message
    on_have ntohl_at find Bitfield.get Bitfield.bit_of Bitfield.zeros Bitfield.set_bit
    Bitfield.with_bit shifted assign
counts_there = refl

history-Available_example : Available (apply_all fresh history)
history-Available_example = history-Available small our_id true 60 history (omega arith) (
  tt,
  (
    (
      (omega arith, (omega arith, (omega arith, (omega arith, tt)))),
      λ c e k g i. absurd (no_bitfield 4 (inl refl) k),
    ),
    ((tt, λ c e k g i. absurd (no_bitfield 9 (inr refl) k)), (tt, tt)),
  ),
)

-- The peer announces a piece, then sends a bitfield with that piece, and leaves: it is counted twice.
drift :
    (apply_all fresh (
      joins someone 0
      ∷ hears 0 4 (0 ∷ 0 ∷ 0 ∷ 1 ∷ [])
      ∷ hears 0 5 (64 ∷ [])
      ∷ leaves 0
      ∷ [])).piece_frequency
    ≡ 0 ∷ 1 ∷ []
unfolding apply_all promote emplace contains fresh_connection handle_message message_id on_message
    on_have ntohl_at find Bitfield.get Bitfield.bit_of Bitfield.zeros Bitfield.set_bit
    Bitfield.with_bit shifted assign on_bitfield Bitfield.from_bytes apply_availability apply_from
    drop_peer forget
drift = refl

abbrev dialler : Dialler
dialler = record { is_address = λ host. true; connects = λ p. true; clock = 5 }

abbrev quiet : Round
quiet = record {
  inbound = [];
  outbound = [];
  ready = [];
  clock = 6;
  accepted = someone ∷ [];
  dialler = dialler;
}

abbrev operations : List Operation
operations = adds (someone ∷ []) dialler ∷ rounds quiet ∷ announces 1 ∷ bans (codes "10.0.0.1") ∷ []

run-PeersOk_example :
    (m : PeerManager) × ((make small our_id true 60 >>= λ m0. run m0 operations) ≡ ok m) × PeersOk m
run-PeersOk_example = run-PeersOk small our_id true 60 operations refl

abbrev talker : PeerConnection
talker = record (fresh_connection 0 someone 2 0) {
  read_buffer = 0 ∷ 0 ∷ 0 ∷ 1 ∷ 1 ∷ 0 ∷ 0 ∷ 0 ∷ 0 ∷ [];
}

message_loop_fuel_example :
    message_loop (10 + 5) (record fresh { conns = (0, talker) ∷ [] }) 0 []
    ≡ message_loop 10 (record fresh { conns = (0, talker) ∷ [] }) 0 []
unfolding find
message_loop_fuel_example =
    message_loop_fuel 10 5 (record fresh { conns = (0, talker) ∷ [] }) 0 [] talker refl
      (omega arith)
