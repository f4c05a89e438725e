-- ===== src/Metainfo/Lengths.antt =====
-- The length that `parse_torrent` reads fits an `int64_t`.
use torrent_peer.Prelude.{
  ℕ, suc, ◌≡◌, ap, subst, inl, inr, not, Option, none, some, arith, ok, throw_if, or_throw,
  Bool-cases, Option-cases, Exception, >>=-result, codes, same_bytes,
}
use torrent_peer.Prelude.Int.{ℤ}
use torrent_peer.Torrent.{Bytes, TorrentFile}
use torrent_peer.Bencode.{Value, Fields, parse}
use torrent_peer.Bencode.Access.{lookup, at, get_int, get_string, get_dict, is_dict}
use torrent_peer.Bencode.Print.{
  InRange, ValueOk, FieldsOk, int_ok, string_ok, list_ok, dict_ok, end_ok, field_ok,
}
use torrent_peer.Bencode.Sound.{parse_sound}
use torrent_peer.Metainfo.{generate_pieces}
use torrent_peer.Metainfo.Reading.{
  optional_int, optional_string, optional_files, string_or_empty, announce_tiers, url_strings,
  read_torrent,
}

abbrev pub LengthOk : Option ℤ → Type 0
LengthOk none = Unit {0}
LengthOk (some z) = InRange z

-- An entry of a valid dictionary is valid.
lookup-ValueOk :
    (d : ℕ) (last : Option Bytes) (key : Bytes) (fs : Fields) (v : Value)
    → FieldsOk d last fs
    → lookup key fs ≡ some v
    → ValueOk d v
unfolding lookup
lookup-ValueOk d _ key _ v (end_ok last) h = absurd (cc)
lookup-ValueOk d _ key _ v (field_ok last k {v = w} {fs} after fits ok_w ok_fs) h =
    elim (Bool-cases (same_bytes k key)) [
      | inl e ↦ subst (ValueOk d) (ground (arith, e, h)) ok_w
      | inr e ↦ lookup-ValueOk d (some k) key fs v ok_fs (ground (arith, e, h))
    ]

get_dict-FieldsOk :
    (d : ℕ) (v : Value) (fs : Fields) → ValueOk d v → get_dict v ≡ ok fs → FieldsOk (suc d) none fs
unfolding get_dict
get_dict-FieldsOk d _ fs (int_ok z r) h = absurd (cc)
get_dict-FieldsOk d _ fs (string_ok s r) h = absurd (cc)
get_dict-FieldsOk d _ fs (list_ok vs r i) h = absurd (cc)
get_dict-FieldsOk d _ fs (dict_ok gs r i) h = subst (FieldsOk (suc d) none) (ground (arith, h)) i

get_int-InRange : (d : ℕ) (v : Value) (z : ℤ) → ValueOk d v → get_int v ≡ ok z → InRange z
unfolding get_int
get_int-InRange d _ z (int_ok w r) h = subst InRange (ground (arith, h)) r
get_int-InRange d _ z (string_ok s r) h = absurd (cc)
get_int-InRange d _ z (list_ok vs r i) h = absurd (cc)
get_int-InRange d _ z (dict_ok gs r i) h = absurd (cc)

optional_int-LengthOk :
    (d : ℕ) (key : Bytes) (fs : Fields) (o : Option ℤ)
    → FieldsOk d none fs
    → optional_int (lookup key fs) ≡ ok o
    → LengthOk o
unfolding optional_int
optional_int-LengthOk d key fs none valid h = tt
optional_int-LengthOk d key fs (some z) valid h = elim (Option-cases (lookup key fs)) [
  | inl e ↦ absurd (ground (arith, e, h))
  | inr (v, e) ↦
      get_int-InRange d v z (lookup-ValueOk d none key fs v valid e) (ground (arith, e, h))
]

same_torrent : (t u : TorrentFile) → ok t ≡ ok u → t ≡ u
same_torrent t u h = cc

found_value : (o : Option Value) (e : Exception) {v : Value} → or_throw o e ≡ ok v → o ≡ some v
found_value none e h = absurd (cc)
found_value (some w) e h = cc

abbrev LengthRead : TorrentFile → Type 0
LengthRead t = LengthOk t.length

pub read_torrent-LengthOk :
    (sha1 : Bytes → Bytes) (data_ : Bytes) (t : TorrentFile)
    → read_torrent sha1 data_ ≡ ok t
    → LengthOk t.length
unfolding read_torrent
read_torrent-LengthOk sha1 data_ t h = >>=-result LengthRead (parse data_) _ t h λ x1 e1 h1.
    let (root, st) = x1 in
    >>=-result LengthRead (throw_if (not (is_dict root)) _) _ t h1 λ u e2 h2.
      >>=-result LengthRead (get_dict root) _ t h2 λ entries e3 h3.
        >>=-result LengthRead (or_throw (lookup (codes "info") entries) _) _ t h3
          λ info_value e4 h4. >>=-result LengthRead (get_dict info_value) _ t h4 λ info e5 h5.
            >>=-result LengthRead (string_or_empty (lookup (codes "announce") entries)) _ t h5
              λ announce e6 h6.
                >>=-result LengthRead (announce_tiers (lookup (codes "announce-list") entries)) _ t
                  h6
                  λ listed e7 h7.
                    >>=-result LengthRead (url_strings (lookup (codes "url-list") entries)) _ t h7
                      λ urls e8 h8.
                        >>=-result LengthRead (optional_int (lookup (codes "length") info)) _ t h8
                          λ single e9 h9.
                            >>=-result LengthRead (optional_files (lookup (codes "files") info)) _ t
                              h9
                              λ files e10 h10.
                                >>=-result LengthRead
                                  (optional_string (lookup (codes "comment") entries)) _ t h10
                                  λ comment e11 h11.
                                    >>=-result LengthRead
                                      (optional_string (lookup (codes "created by") entries)) _ t
                                      h11
                                      λ created_by e12 h12.
                                        >>=-result LengthRead
                                          (optional_int (lookup (codes "creation date") entries)) _
                                          t h12
                                          λ date e13 h13.
                                            >>=-result LengthRead
                                              (optional_string (lookup (codes "encoding") entries))
                                              _ t h13
                                              λ encoding e14 h14.
                                                >>=-result LengthRead (at (codes "name") info) _ t
                                                  h14
                                                  λ name_value e15 h15.
                                                    >>=-result LengthRead (get_string name_value) _
                                                      t h15
                                                      λ name e16 h16.
                                                        >>=-result LengthRead
                                                          (at (codes "piece length") info) _ t h16
                                                          λ piece_length_value e17 h17.
                                                            >>=-result LengthRead
                                                            (get_int piece_length_value) _ t h17
                                                            λ piece_length e18 h18.
                                                            >>=-result LengthRead
                                                            (at (codes "pieces") info) _ t h18
                                                            λ pieces_value e19 h19.
                                                            >>=-result LengthRead
                                                            (get_string pieces_value) _ t h19
                                                            λ raw e20 h20.
                                                            >>=-result LengthRead
                                                            (generate_pieces raw) _ t h20
                                                            λ pieces e21 h21.
                                                            let info_found : lookup (codes "info")
                                                            entries
                                                            ≡ some info_value =
                                                            found_value _ _ e4 in
                                                            let root_ok =
                                                            get_dict-FieldsOk 0 root entries
                                                            (parse_sound data_ e1).1 e3 in
                                                            let info_ok =
                                                            get_dict-FieldsOk 1 info_value info
                                                            (lookup-ValueOk 1 none (codes "info")
                                                            entries info_value root_ok info_found)
                                                            e5 in
                                                            subst LengthOk
                                                            (ap (λ (q : TorrentFile). q.length)
                                                            (same_torrent _ t h21))
                                                            (optional_int-LengthOk 2
                                                            (codes "length") info single info_ok e9)
