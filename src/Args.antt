-- ===== src/Args.antt =====
-- src/cli/args.cpp: the values of `--port` and `--peer`.
pub mod Values
mod Tests
use torrent_peer.Prelude.{
  ℕ, suc, ◌+◌, Bool, true, false, not, ◌||◌, List, [], ◌∷◌, Option, none, some, ltb, ◌==◌,
  if◌then◌else◌, length, take, drop, Result, ok, err, invalid_argument,
}
use torrent_peer.Torrent.{Bytes}
use torrent_peer.Types.{Peer}
use torrent_peer.Bencode.{digit_run}
use torrent_peer.Bencode.Digits.{value}

-- `from_chars` has to read at least a digit and to stop at the end; what is out of the range of an
-- `unsigned` is no port either.
unfoldable pub parse_port : Bytes → Result ℕ
parse_port s =
    let ds = digit_run s in
    if (length ds == 0)
      || not (length ds == length s)
      || ltb (value 0 ds) 1024
      || ltb 65535 (value 0 ds)
    then err (invalid_argument "invalid port")
    else ok (value 0 ds)

-- `s.rfind(c)`
unfoldable pub rfind : ℕ → Bytes → Option ℕ
rfind c [] = none
rfind c (x ∷ xs) = elim (rfind c xs) [
  | some i ↦ some (suc i)
  | none ↦ if x == c then some 0 else none
]

unfoldable pub parse_peer : Bytes → Result Peer
parse_peer s = elim (rfind b':' s) [
  | none ↦ err (invalid_argument "--peer wants host:port")
  | some colon ↦
      if (colon == 0) || (colon + 1 == length s)
      then err (invalid_argument "--peer wants host:port")
      else ok (record { host = take colon s; port = drop (colon + 1) s })
]
