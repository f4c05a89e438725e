-- ===== src/Args/Tests.antt =====
-- A port and a peer.
use torrent_peer.Prelude.{◌≡◌, ◌++◌, ◌∷◌, arith, ok, codes}
use torrent_peer.Bencode.Digits.{decimal}
use torrent_peer.Args.{parse_port, parse_peer}
use torrent_peer.Args.Values.{parse_port-decimal, parse_peer_lem}

parse_port-decimal_example : parse_port (decimal 6881) ≡ ok 6881
parse_port-decimal_example = parse_port-decimal 6881 (omega arith) (omega arith)

parse_peer_example :
    parse_peer (codes "::1" ++ b':' ∷ codes "80")
    ≡ ok (record { host = codes "::1"; port = codes "80" })
parse_peer_example =
    parse_peer_lem (codes "::1") (codes "80") (omega arith) (omega arith)
      ((λ h. omega (arith, h)), ((λ h. omega (arith, h)), tt))
