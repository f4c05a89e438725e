-- ===== src/Bitfield.antt =====
-- src/core/bitfield.hpp: one bit for each piece, packed into bytes, most significant bit first.
-- `uint32_t` arithmetic wraps where the source computes in it. `1u << k` is `2 ^ k`.
mod Tests
pub mod Laws
use Prim.Native.Nat.{bit_or, bit_and}
use torrent_peer.Prelude.{
  ℕ, ◌+◌, ◌-◌, ◌*◌, ◌/◌, ◌%◌, ◌^◌, Bool, true, false, not, ◌&&◌, List, ltb, leb, ◌==◌,
  if◌then◌else◌, length, get_or, set, replicate, Result, ok, err, throw_if, ◌>>◌, ◌>>=◌,
  runtime_error, out_of_range,
}

abbrev pub u32_mod : ℕ
u32_mod = 2 ^ 32

pub record Bitfield : Type 0 where
  pub bits : ℕ
  pub bytes : List ℕ

-- `(bits + 7) / 8`, computed in `uint32_t`.
abbrev pub byte_count : ℕ → ℕ
byte_count bits = (bits + 7) % u32_mod / 8

unfoldable pub zeros : ℕ → Bitfield
zeros bits = record { bits = bits; bytes = replicate (byte_count bits) 0 }

-- `bytes.back()`
abbrev pub last_byte : List ℕ → ℕ
last_byte raw = get_or raw (length raw - 1) 0

-- The unused bits of the last byte: `bytes.size() * 8 - bits`, stored in a `uint32_t`.
abbrev pub spare_bits : List ℕ → ℕ → ℕ
spare_bits raw bits = (length raw * 8 + u32_mod - bits) % u32_mod

unfoldable pub from_bytes : List ℕ → ℕ → Result Bitfield
from_bytes raw bits = do
  throw_if (not (length raw == byte_count bits)) (runtime_error "bitfield: wrong length")
  let spare = spare_bits raw bits
  throw_if (ltb 0 spare && not (bit_and (last_byte raw) (2 ^ spare - 1) == 0))
      (runtime_error "bitfield: spare bits set")
  ok (record { bits = bits; bytes = raw })

-- `(byte >> (7 - k)) & 1`
unfoldable pub bit_of : ℕ → ℕ → Bool
bit_of byte k = byte / 2 ^ (7 - k) % 2 == 1

-- `byte |= (uint8_t)(1u << (7 - k))`
unfoldable pub with_bit : ℕ → ℕ → ℕ
with_bit byte k = bit_or byte (2 ^ (7 - k) % 256)

unfoldable pub get : Bitfield → ℕ → Bool
get bf i = if leb bf.bits i then false else bit_of (get_or bf.bytes (i / 8) 0) (i % 8)

unfoldable pub set_bit : Bitfield → ℕ → Result Bitfield
set_bit bf i =
    if leb bf.bits i
    then err (out_of_range "bitfield index")
    else ok
        (record bf { bytes = set bf.bytes (i / 8) (with_bit (get_or bf.bytes (i / 8) 0) (i % 8)) })
