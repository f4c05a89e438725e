-- ===== src/Args/Values.antt =====
-- The values that are accepted are read as they were written.
use torrent_peer.Prelude.{
  ℕ, suc, ◌+◌, ◌≤◌, ◌<◌, ◌≡◌, ◌≢◌, refl, ap, ◌∙◌, [], ◌∷◌, ◌++◌, none, some, length, length-append,
  drop, take-append, drop-append, drop-add, ok, arith, All,
}
use torrent_peer.Torrent.{Bytes}
use torrent_peer.Bencode.{digit_run}
use torrent_peer.Bencode.Digits.{decimal, value-decimal, IsDigit}
use torrent_peer.Args.{parse_port, rfind, parse_peer}

digit_run-digits : (ds : Bytes) → All IsDigit ds → digit_run ds ≡ ds
unfolding digit_run
digit_run-digits [] a = refl
digit_run-digits (d ∷ ds) a = ground (arith, a.0, digit_run-digits ds a.1)

-- The decimal print of a number from 1024 to 65535 is read as that port.
pub parse_port-decimal : (n : ℕ) → 1024 ≤ n → n ≤ 65535 → parse_port (decimal n) ≡ ok n
unfolding parse_port
parse_port-decimal n lo hi =
    let (c, cs, p) = value-decimal (suc n) n (omega arith) in
    let run : digit_run (decimal n) ≡ c ∷ cs =
      ap digit_run p.shown ∙ digit_run-digits (c ∷ cs) p.all_digits in
    ground (arith, run, p.shown, p.spells, lo, hi)

pub no_colon : (s : Bytes) → All (λ x. x ≢ b':') s → rfind b':' s ≡ none
unfolding rfind
no_colon [] a = refl
no_colon (x ∷ xs) a = ground (arith, a.0, no_colon xs a.1)

pub last_colon :
    (host port : Bytes)
    → All (λ x. x ≢ b':') port
    → rfind b':' (host ++ b':' ∷ port) ≡ some (length host)
unfolding rfind
last_colon [] port a = ground (arith, no_colon port a)
last_colon (x ∷ xs) port a = ground (arith, last_colon xs port a)

-- A host and a port, neither empty and the port without a colon, are read back from the text that
-- joins them by a colon, whatever colons the host has.
pub parse_peer_lem :
    (host port : Bytes)
    → 0 < length host
    → 0 < length port
    → All (λ x. x ≢ b':') port
    → parse_peer (host ++ b':' ∷ port) ≡ ok (record { host = host; port = port })
unfolding parse_peer
parse_peer_lem host port some_host some_port a =
    let s = host ++ b':' ∷ port in
    let found = last_colon host port a in
    let size = length-append host (b':' ∷ port) in
    let behind : drop (length host + 1) s ≡ port =
      drop-add (length host) 1 s ∙ ap (drop 1) (drop-append host (b':' ∷ port)) in
    ground (arith, found, size, some_host, some_port, take-append host (b':' ∷ port), behind)
