-- ===== src/Torrent.antt =====
-- src/metainfo/torrent.hpp, and the piece layout of src/metainfo/torrent.cpp.
-- A `std::string` is its bytes; `int64_t` fields are integers, converted as C++ converts them.
pub mod Layout
pub mod Sample
mod Tests
use torrent_peer.Prelude.{
  ℕ, ◌+◌, ◌-◌, ◌*◌, ◌%◌, ◌^◌, Bool, true, false, List, Option, none, some, ◌==◌, if◌then◌else◌,
  length,
}
use torrent_peer.Prelude.Int.{ℤ, pos, negsuc}

abbrev pub Bytes : Type 0
Bytes = List ℕ

abbrev pub u64_mod : ℕ
u64_mod = 2 ^ 64

pub record FileInfo : Type 0 where
  pub length : ℤ
  pub path : List Bytes

pub record TorrentFile : Type 0 where
  pub announce : Bytes
  pub announce_list : List (List Bytes)
  pub url_list : List Bytes
  pub comment : Option Bytes
  pub created_by : Option Bytes
  pub creation_date : Option ℤ
  pub encoding : Option Bytes
  pub name : Bytes
  pub piece_length : ℤ
  pub pieces : List Bytes
  pub info_hash : Bytes
  pub length : Option ℤ
  pub files : Option (List FileInfo)
  pub total_length : ℕ

unfoldable pub is_multifile : TorrentFile → Bool
is_multifile t = elim t.files [ none ↦ false | some fs ↦ true ]

-- An `int64_t` converted to `uint64_t`.
abbrev pub to_u64 : ℤ → ℕ
to_u64 (pos n) = n % u64_mod
to_u64 (negsuc n) = (u64_mod - 1 - n) % u64_mod

unfoldable pub piece_size : TorrentFile → ℕ → ℕ
piece_size t i =
    if i == (length t.pieces + u64_mod - 1) % u64_mod
    then (t.total_length + u64_mod - i * to_u64 t.piece_length % u64_mod) % u64_mod
    else to_u64 t.piece_length
