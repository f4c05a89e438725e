-- ===== src/Tracker/Urls.antt =====
-- The addresses of trackers, `parse_tracker_url` of src/runtime/managers/tracker_manager.cpp.
use torrent_peer.Prelude.{
  ℕ, zero, suc, ◌+◌, ◌≡◌, ◌≢◌, refl, sym, ap, ◌∙◌, [], ◌∷◌, ◌++◌, none, some, length, take, drop,
  same_bytes, same_bytes_iff, ok, arith, All, All-append, ◌↔◌, inl, inr, take-append-drop,
  take-append, drop-append, drop-add, Option-cases, Bool-cases, ℕ_discrete, subst, All-impl,
}
use torrent_peer.Torrent.{Bytes}
use torrent_peer.Args.{rfind}
use torrent_peer.Args.Values.{last_colon}
use torrent_peer.Tracker.{find_byte, before_slash, udp_prefix, parse_tracker_url}

-- Nothing, or a path.
pub data IsPath : Bytes → Type 0 where
  none_left : IsPath []
  from_slash : (rest : Bytes) → IsPath (b'/' ∷ rest)

-- What a URL of a tracker is: `udp://`, the host, a colon, the port and a path.
pub record Spells (url host port : Bytes) : Type 0 where
  pub path : Bytes
  pub spelled : url ≡ udp_prefix ++ ((host ++ b':' ∷ port) ++ path)
  pub plain_host : All (λ x. x ≢ b'/') host
  pub plain_port : All (λ x. (x ≢ b'/') × (x ≢ b':')) port
  pub after : IsPath path

before_slash-cons : (x : ℕ) (xs : Bytes) → x ≢ b'/' → before_slash (x ∷ xs) ≡ x ∷ before_slash xs
unfolding before_slash find_byte
before_slash-cons x xs h = elim (Option-cases (find_byte b'/' xs)) [
  | inl e ↦ ground (arith, e, h)
  | inr (i, e) ↦ ground (arith, e, h)
]

before_slash-append :
    (xs path : Bytes) → All (λ x. x ≢ b'/') xs → IsPath path → before_slash (xs ++ path) ≡ xs
unfolding before_slash find_byte
before_slash-append [] [] a none_left = refl
before_slash-append [] (b ∷ path) a (from_slash rest) = refl
before_slash-append (x ∷ xs) path a p =
    before_slash-cons x (xs ++ path) a.0 ∙ ap (λ ys. x ∷ ys) (before_slash-append xs path a.1 p)

before_slash-split :
    (s : Bytes)
    → (path : Bytes) × (s ≡ before_slash s ++ path)
      × IsPath path
      × All (λ x. x ≢ b'/') (before_slash s)
unfolding before_slash find_byte
before_slash-split [] = ([], refl, none_left, tt)
before_slash-split (x ∷ xs) = elim (ℕ_discrete x b'/') [
  | yes e ↦
      let nothing : before_slash (x ∷ xs) ≡ [] = ground (arith, e) in
      (
        x ∷ xs,
        ap (λ ys. ys ++ x ∷ xs) (sym nothing),
        subst (λ y. IsPath (y ∷ xs)) (sym e) (from_slash xs),
        subst (All (λ y. y ≢ b'/')) (sym nothing) tt,
      )
  | no ne ↦
      let (path, split, p, a) = before_slash-split xs in
      let shown = before_slash-cons x xs ne in
      (
        path,
        ap (λ ys. x ∷ ys) split ∙ ap (λ ys. ys ++ path) (sym shown),
        p,
        subst (All (λ y. y ≢ b'/')) (sym shown) (ne, a),
      )
]

rfind-none : (s : Bytes) → rfind b':' s ≡ none → All (λ x. x ≢ b':') s
unfolding rfind
rfind-none [] e = tt
rfind-none (x ∷ xs) e = elim (Option-cases (rfind b':' xs)) [
  | inl n ↦ (λ same. ground (arith, e, n, same), rfind-none xs n)
  | inr (i, f) ↦ ground (arith, e, f)
]

rfind-split :
    (s : Bytes) (i : ℕ)
    → rfind b':' s ≡ some i
    → (s ≡ take i s ++ b':' ∷ drop (suc i) s) × All (λ x. x ≢ b':') (drop (suc i) s)
unfolding rfind
rfind-split [] i e = ground (arith, e)
rfind-split (x ∷ xs) zero e = elim (Option-cases (rfind b':' xs)) [
  | inl n ↦ (ap (λ c. c ∷ xs) (ground (arith, e, n)), rfind-none xs n)
  | inr (i, f) ↦ ground (arith, e, f)
]
rfind-split (x ∷ xs) (suc j) e =
    let (split, a) = rfind-split xs j (ground (arith, e)) in (ap (λ ys. x ∷ ys) split, a)

All-append_left : (P : ℕ → Type 0) (xs ys : Bytes) → All P (xs ++ ys) → All P xs
All-append_left P [] ys a = tt
All-append_left P (x ∷ xs) ys a = (a.0, All-append_left P xs ys a.1)

All-append_right : (P : ℕ → Type 0) (xs ys : Bytes) → All P (xs ++ ys) → All P ys
All-append_right P [] ys a = a
All-append_right P (x ∷ xs) ys a = All-append_right P xs ys a.1

All-both : (P Q : ℕ → Type 0) (xs : Bytes) → All P xs → All Q xs → All (λ x. P x × Q x) xs
All-both P Q [] a b = tt
All-both P Q (x ∷ xs) a b = ((a.0, b.0), All-both P Q xs a.1 b.1)

parse_pieces :
    (host port path : Bytes)
    → All (λ x. x ≢ b'/') host
    → All (λ x. (x ≢ b'/') × (x ≢ b':')) port
    → IsPath path
    → parse_tracker_url (udp_prefix ++ ((host ++ b':' ∷ port) ++ path))
      ≡ ok (record { host = host; port = port })
unfolding parse_tracker_url same_bytes
parse_pieces host port path h p after =
    let rest = host ++ b':' ∷ port in
    let shown : before_slash (rest ++ path) ≡ rest =
      before_slash-append rest path
        (All-append (λ x. x ≢ b'/') host (b':' ∷ port) h
          (
            (λ e. omega (arith, e)),
            All-impl (λ x. (x ≢ b'/') × (x ≢ b':')) (λ x. x ≢ b'/') port (λ x both. both.0) p,
          ))
        after in
    let found =
      last_colon host port
        (All-impl (λ x. (x ≢ b'/') × (x ≢ b':')) (λ x. x ≢ b':') port (λ x both. both.1) p) in
    let behind : drop (length host + 1) rest ≡ port =
      drop-add (length host) 1 rest ∙ ap (drop 1) (drop-append host (b':' ∷ port)) in
    ground (arith, shown, found, take-append host (b':' ∷ port), behind)

parse_spelled :
    (url host port : Bytes)
    → Spells url host port
    → parse_tracker_url url ≡ ok (record { host = host; port = port })
parse_spelled url host port v =
    ap parse_tracker_url v.spelled ∙ parse_pieces host port v.path v.plain_host v.plain_port v.after

spelled_parse :
    (url host port : Bytes)
    → parse_tracker_url url ≡ ok (record { host = host; port = port })
    → Spells url host port
unfolding parse_tracker_url
spelled_parse url host port e = elim (Bool-cases (same_bytes (take 6 url) udp_prefix)) [
  | inr f ↦ ground (arith, e, f)
  | inl same ↦ elim (Option-cases (rfind b':' (before_slash (drop 6 url)))) [
    | inl f ↦ ground (arith, e, f, same)
    | inr (i, f) ↦
        let rest = before_slash (drop 6 url) in
        let (path, split, after, plain) = before_slash-split (drop 6 url) in
        let (at, last) = rfind-split rest i f in
        let is_host : take i rest ≡ host = ground (arith, e, f, same) in
        let cut : drop (i + 1) rest ≡ port = ground (arith, e, f, same) in
        let next : suc i ≡ i + 1 = omega arith in
        let is_port : drop (suc i) rest ≡ port = ap (λ n. drop n rest) next ∙ cut in
        let whole : rest ≡ host ++ b':' ∷ port =
          at
          ∙ ap (λ xs. xs ++ b':' ∷ drop (suc i) rest) is_host
          ∙ ap (λ xs. host ++ b':' ∷ xs) is_port in
        let noted = subst (All (λ x. x ≢ b'/')) whole plain in
        record {
          path = path;
          spelled =
              sym (take-append-drop 6 url)
              ∙ ap (λ xs. xs ++ drop 6 url) ((same_bytes_iff (take 6 url) udp_prefix).0 same)
              ∙ ap (λ xs. udp_prefix ++ xs) (split ∙ ap (λ xs. xs ++ path) whole);
          plain_host = All-append_left (λ x. x ≢ b'/') host (b':' ∷ port) noted;
          plain_port =
              All-both (λ x. x ≢ b'/') (λ x. x ≢ b':') port
                (All-append_right (λ x. x ≢ b'/') host (b':' ∷ port) noted).1
                (subst (All (λ x. x ≢ b':')) is_port last);
          after = after;
        }
  ]
]

-- A URL is read as a host and a port just when it is udp://, the host, a colon and the port, with
-- nothing or a path behind them, where the host has no slash and the port neither slash nor
-- colon; so every other URL is refused.
pub parse_tracker_url_iff :
    (url host port : Bytes)
    → (parse_tracker_url url ≡ ok (record { host = host; port = port })) ↔ Spells url host port
parse_tracker_url_iff url host port = (spelled_parse url host port, parse_spelled url host port)
