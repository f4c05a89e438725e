-- ===== src/Types.antt =====
-- src/core/types.hpp: what the managers hand to one another. A time point is a number of ticks.
use torrent_peer.Prelude.{ℕ, List, [], ◌∷◌, ltb, if◌then◌else◌}
use torrent_peer.Torrent.{Bytes}

-- kBlockSize
abbrev pub block_size : ℕ
block_size = 16384

pub record Peer : Type 0 where
  pub host : Bytes
  pub port : Bytes

pub record BlockRequest : Type 0 where
  pub piece_index : ℕ
  pub offset : ℕ
  pub length : ℕ

-- The field `data` of the source is `payload` here and in `CompletedPiece`.
pub record Block : Type 0 where
  pub piece_index : ℕ
  pub offset : ℕ
  pub payload : Bytes

pub record CompletedPiece : Type 0 where
  pub index : ℕ
  pub payload : Bytes

pub record PendingRequest : Type 0 where
  pub req : BlockRequest
  pub sent_at : ℕ

-- `take_stale`, as the pair of what it returns and what it leaves in `pending`: the requests before
-- the first that is no older than the cutoff, and the rest.
unfoldable pub take_stale : List PendingRequest → ℕ → List BlockRequest × List PendingRequest
take_stale [] cutoff = ([], [])
take_stale (p ∷ ps) cutoff =
    let (stale, fresh) = take_stale ps cutoff in
    if ltb p.sent_at cutoff then (p.req ∷ stale, fresh) else ([], p ∷ ps)
