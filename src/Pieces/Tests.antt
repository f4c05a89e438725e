-- ===== src/Pieces/Tests.antt =====
-- The piece manager on the sample torrent.
use torrent_peer.Prelude.{
  ℕ, zero, suc, ◌≤◌, ◌<◌, ◌≡◌, refl, arith, true, false, List, [], ◌∷◌, none, some, ◌↔◌, get_or,
  if◌then◌else◌,
}
use torrent_peer.Prelude.Map.{Entries, contains, find}
use torrent_peer.Prelude.Loops.{sum_below}
use torrent_peer.Bitfield
use torrent_peer.Bitfield.{Bitfield, zeros}
use torrent_peer.Torrent.{Bytes, piece_size}
use torrent_peer.Torrent.Sample.{small, small-IsTiled}
use torrent_peer.Types.{BlockRequest, Block}
use torrent_peer.Pieces.{
  PieceManager, make, pick_block, pick_active, rarest, consider, is_candidate, start_piece,
  fresh_piece, next_missing, take_missing, request_for, release, bytes_left, is_complete, on_block,
}
use torrent_peer.Pieces.Pick.{NothingFor}
use torrent_peer.Pieces.Have.{bytes_left_lem, is_complete_iff}
use torrent_peer.Pieces.Invariant.{Inv, make-Inv, release-Inv}
use torrent_peer.Pieces.Choice.{
  OfferOk, pick_block-Inv, pick_block_sound, pick_block-none, pick_block_rarest,
}
use torrent_peer.Pieces.Filing.{Answers, on_block_total}

abbrev fresh : PieceManager
fresh = make small

-- A peer with both pieces, and one with none.
abbrev seed : Bitfield
seed = record { bits = 2; bytes = 192 ∷ [] }

abbrev counts : List ℕ
counts = 3 ∷ 2 ∷ []

abbrev offer : BlockRequest
offer = record { piece_index = 1; offset = 0; length = 4 }

make-Inv_example : Inv small fresh
make-Inv_example = make-Inv small small-IsTiled (omega arith)

fresh-Inv : Inv small fresh
fresh-Inv = make-Inv small small-IsTiled (omega arith)

counts_small : (i : ℕ) → get_or counts i 0 ≤ 65535
counts_small zero = omega arith
counts_small (suc zero) = omega arith
counts_small (suc (suc i)) = omega arith

offered_run : (pick_block small fresh seed counts 7 0).0 ≡ some offer
unfolding make pick_block pick_active rarest consider is_candidate start_piece fresh_piece
    next_missing take_missing request_for Bitfield.get Bitfield.bit_of zeros piece_size contains
    find
offered_run = refl

nothing_run : (pick_block small fresh (zeros 2) counts 7 0).0 ≡ none
unfolding make pick_block pick_active rarest consider is_candidate start_piece fresh_piece
    next_missing take_missing request_for Bitfield.get Bitfield.bit_of zeros piece_size contains
    find
nothing_run = refl

none_active : pick_active small seed 7 fresh.active ≡ none
unfolding make pick_active
none_active = refl

pick_block-Inv_example : Inv small (pick_block small fresh seed counts 7 0).1
pick_block-Inv_example =
    pick_block-Inv small small-IsTiled fresh seed counts 7 0 fresh-Inv counts_small

pick_block_sound_example : OfferOk small fresh seed offer
pick_block_sound_example =
    pick_block_sound small small-IsTiled fresh seed counts 7 0 fresh-Inv counts_small offer
      offered_run

pick_block-none_example :
    ((pick_block small fresh (zeros 2) counts 7 0).1 ≡ fresh)
    × Entries (NothingFor small (zeros 2) 7) fresh.active
    × ((j : ℕ) → j < fresh.piece_count → is_candidate fresh (zeros 2) j ≡ false)
pick_block-none_example =
    pick_block-none small small-IsTiled fresh (zeros 2) counts 7 0 fresh-Inv counts_small
      nothing_run

pick_block_rarest_example :
    (is_candidate fresh seed 1 ≡ true)
    × ((j : ℕ)
        → j < fresh.piece_count
        → is_candidate fresh seed j ≡ true
        → get_or counts 1 0 ≤ get_or counts j 0)
pick_block_rarest_example =
    pick_block_rarest small small-IsTiled fresh seed counts 7 0 fresh-Inv counts_small offer
      none_active offered_run

-- The manager after the offer.
abbrev picked : PieceManager
picked = (pick_block small fresh seed counts 7 0).1

picked-Inv : Inv small picked
picked-Inv = pick_block-Inv small small-IsTiled fresh seed counts 7 0 fresh-Inv counts_small

release-Inv_example : Inv small (release picked (offer ∷ []))
release-Inv_example = release-Inv small small-IsTiled picked (offer ∷ []) picked-Inv

-- A digest that fits no piece.
abbrev no_digest : Bytes → Bytes
no_digest data_ = []

abbrev answer : Block
answer = record { piece_index = 1; offset = 0; payload = 1 ∷ 2 ∷ 3 ∷ 4 ∷ [] }

on_block_total_example :
    Answers small small-IsTiled picked picked-Inv answer no_digest
      (on_block no_digest small picked answer)
on_block_total_example = on_block_total small small-IsTiled picked picked-Inv answer no_digest

bytes_left_example :
    bytes_left small fresh
    ≡ sum_below fresh.piece_count
        (λ i. if Bitfield.get fresh.have_ i then 0 else piece_size small i)
bytes_left_example = bytes_left_lem small small-IsTiled fresh fresh-Inv.accounts

is_complete_example :
    (is_complete fresh ≡ true)
    ↔ ((i : ℕ) → i < fresh.piece_count → Bitfield.get fresh.have_ i ≡ true)
is_complete_example = is_complete_iff small small-IsTiled fresh fresh-Inv.accounts
