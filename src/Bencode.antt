-- ===== src/Bencode.antt =====
-- src/metainfo/parser.hpp and parser.cpp: the bencode parser. The parser's `data_` is an argument of
-- each function, and its other members are the state that a function returns anew. The parser is
-- recursive; the recursion is bounded by fuel.
pub mod Digits
pub mod Input
pub mod Print
pub mod Tokens
pub mod Numbers
pub mod Steps
pub mod Reads
pub mod Sound
pub mod Order
pub mod Access
pub mod Complete
pub mod Fuel
pub mod Range
mod Tests
use torrent_peer.Prelude.{
  ℕ, zero, suc, ◌+◌, ◌-◌, ◌*◌, ◌%◌, ◌^◌, Bool, true, false, not, ◌&&◌, ◌||◌, List, [], ◌∷◌, ◌++◌,
  Option, none, some, ltb, leb, ◌==◌, if◌then◌else◌, length, get_or, take, drop, same_bytes, Result,
  ok, err, ◌>>=◌, ◌>>◌, throw_if, runtime_error, fuel_ran_out, codes,
}
use torrent_peer.Prelude.Int.{ℤ, pos, negsuc}
use torrent_peer.Torrent.{Bytes, u64_mod}
use Digits.{is_digit, value, decimal}

-- `BencodeValue`; a dictionary holds its entries in the order of its keys.
mutual
  pub data Value : Type 0 where
    int : ℤ → Value
    string : Bytes → Value
    list : Items → Value
    dict : Fields → Value

  pub data Items : Type 0 where
    nil : Items
    cons : Value → Items → Items

  pub data Fields : Type 0 where
    end : Fields
    field : Bytes → Value → Fields → Fields

-- `at` is `pos_`.
pub record Parser : Type 0 where
  pub at : ℕ
  pub info_start : ℕ
  pub info_end : ℕ
  pub depth : ℕ

-- kMaxDepth
abbrev pub max_depth : ℕ
max_depth = 100

abbrev pub start : Parser
start = record { at = 0; info_start = 0; info_end = 0; depth = 0 }

abbrev pub past_end : Bytes → ℕ → Bool
past_end data_ p = leb (length data_) p

-- `data_[p]`, after the test that it is there.
abbrev pub byte_at : Bytes → ℕ → ℕ
byte_at data_ p = get_or data_ p 0

-- `while (pos_ < data_.size() && isdigit(data_[pos_])) ++pos_;` over what is left of the input: the
-- digits that it passes.
unfoldable pub digit_run : Bytes → Bytes
digit_run [] = []
digit_run (c ∷ cs) = if is_digit c then c ∷ digit_run cs else []

-- `data_[digits_start] == '0' && digit_count > 1`
abbrev pub leading_zero : Bytes → Bool
leading_zero ds = get_or ds 0 0 == b'0' && ltb 1 (length ds)

unfoldable pub read_string : Bytes → Parser → Result (Bytes × Parser)
read_string data_ st = do
  let ds = digit_run (drop st.at data_)
  let colon = st.at + length ds
  throw_if (past_end data_ colon) (runtime_error "Unterminated string length")
  throw_if (not (byte_at data_ colon == b':'))
      (runtime_error "Unexpected character in string length")
  throw_if (length ds == 0) (runtime_error "String length has no digits")
  throw_if (leading_zero ds) (runtime_error "Leading zero in string length")
  throw_if (leb u64_mod (value 0 ds)) (runtime_error "String length out of range")
  throw_if (ltb (length data_ - (colon + 1)) (value 0 ds))
      (runtime_error "String length out of bounds")
  ok (take (value 0 ds) (drop (colon + 1) data_), record st { at = colon + 1 + value 0 ds })

-- `from_chars` into an `int64_t`, of an optional minus sign and digits: nothing is out of range.
unfoldable pub from_chars_int : Bool → ℕ → Result ℤ
from_chars_int negative n =
    if negative
    then if ltb (2 ^ 63) n
      then err (runtime_error "Integer out of range")
      else ok (if n == 0 then pos 0 else negsuc (n - 1))
    else if leb (2 ^ 63) n
    then err (runtime_error "Integer out of range")
    else ok (pos n)

-- `pos_ < data_.size() && data_[pos_] == '-'`
abbrev pub is_negative : Bytes → ℕ → Bool
is_negative data_ first = not (past_end data_ first) && byte_at data_ first == b'-'

-- digits_start
abbrev pub digits_from : Bytes → ℕ → ℕ
digits_from data_ first = if is_negative data_ first then first + 1 else first

unfoldable pub parse_int : Bytes → Parser → Result (Value × Parser)
parse_int data_ st = do
  let first = st.at + 1
  let negative = is_negative data_ first
  let digits_start = digits_from data_ first
  let ds = digit_run (drop digits_start data_)
  let last = digits_start + length ds
  throw_if (past_end data_ last) (runtime_error "Unterminated integer")
  throw_if (not (byte_at data_ last == b'e')) (runtime_error "Unexpected character in integer")
  throw_if (length ds == 0) (runtime_error "Integer has no digits")
  throw_if (get_or ds 0 0 == b'0' && (ltb 1 (length ds) || negative))
      (runtime_error "Leading zero or negative zero")
  v ← from_chars_int negative (value 0 ds)
  ok (int v, record st { at = last + 1 })

-- `operator<` of strings: by bytes, a prefix first.
unfoldable pub before : Bytes → Bytes → Bool
before [] [] = false
before [] (y ∷ ys) = true
before (x ∷ xs) [] = false
before (x ∷ xs) (y ∷ ys) = if ltb x y then true else if x == y then before xs ys else false

-- The test of a key against the last one in the dictionary.
unfoldable pub check_key : Option Bytes → Bytes → Result (Unit {0})
check_key none key = ok tt
check_key (some last) key =
    if before last key
    then ok tt
    else if same_bytes key last
    then err (runtime_error "Duplicate dictionary key")
    else err (runtime_error "Dictionary keys not sorted")

abbrev pub info_key : Bytes
info_key = codes "info"

abbrev pub is_info : Parser → Bytes → Bool
is_info st key = st.depth == 1 && same_bytes key info_key

-- What the first byte of a value says it is.
pub data Kind : Type 0 where
  an_int a_list a_dict a_string unknown : Kind

unfoldable pub kind_of : ℕ → Kind
kind_of c =
    if c == b'i'
    then an_int
    else if c == b'l'
    then a_list
    else if c == b'd'
    then a_dict
    else if is_digit c
    then a_string
    else unknown

-- `++depth_` and the test, and the skipped `l` or `d`.
unfoldable pub enter : Parser → Result Parser
enter st = do
  throw_if (ltb max_depth (st.depth + 1)) (runtime_error "Nesting too deep")
  ok (record st { at = st.at + 1; depth = st.depth + 1 })

-- The skipped `e` and `--depth_`.
abbrev pub leave : Parser → Parser
leave st = record st { at = st.at + 1; depth = st.depth - 1 }

abbrev pub mark_start : Bool → Parser → Parser
mark_start b st = if b then record st { info_start = st.at } else st

abbrev pub mark_end : Bool → Parser → Parser
mark_end b st = if b then record st { info_end = st.at } else st

unfoldable mutual
  pub parse_value : ℕ → Bytes → Parser → Result (Value × Parser)
  parse_value zero data_ st = err fuel_ran_out
  parse_value (suc f) data_ st = elim (past_end data_ st.at) [
    | true ↦ err (runtime_error "Unexpected end of input")
    | false ↦ elim (kind_of (byte_at data_ st.at)) [
      | an_int ↦ parse_int data_ st
      | a_list ↦ (do st1 ← enter st; (vs, st2) ← list_loop f data_ st1; ok (list vs, leave st2))
      | a_dict ↦ (do
        st1 ← enter st
        (fs, st2) ← dict_loop f data_ none st1
        ok (dict fs, leave st2))
      | a_string ↦ (do (s, st1) ← read_string data_ st; ok (string s, st1))
      | unknown ↦ err (runtime_error "Invalid bencode value")
    ]
  ]

  -- The loop of `parse_list`, which stops at its `e`.
  pub list_loop : ℕ → Bytes → Parser → Result (Items × Parser)
  list_loop zero data_ st = err fuel_ran_out
  list_loop (suc f) data_ st = elim (past_end data_ st.at) [
    | true ↦ err (runtime_error "Unterminated list")
    | false ↦ elim (byte_at data_ st.at == b'e') [
      | true ↦ ok (nil, st)
      | false ↦ (do
        (v, st1) ← parse_value f data_ st
        (vs, st2) ← list_loop f data_ st1
        ok (cons v vs, st2))
    ]
  ]

  -- The loop of `parse_dict`; `last` is the last key in the dictionary.
  pub dict_loop : ℕ → Bytes → Option Bytes → Parser → Result (Fields × Parser)
  dict_loop zero data_ last st = err fuel_ran_out
  dict_loop (suc f) data_ last st = elim (past_end data_ st.at) [
    | true ↦ err (runtime_error "Unterminated dict")
    | false ↦ elim (byte_at data_ st.at == b'e') [
      | true ↦ ok (end, st)
      | false ↦ (do
        (key, st1) ← read_string data_ st
        check_key last key
        (v, st2) ← parse_value f data_ (mark_start (is_info st1 key) st1)
        (fs, st3) ← dict_loop f data_ (some key) (mark_end (is_info st1 key) st2)
        ok (field key v fs, st3))
    ]
  ]

-- Fuel for an input: two calls for each byte, and a few.
abbrev pub fuel_for : Bytes → ℕ
fuel_for data_ = 2 * length data_ + 2

-- `parse`, with the state that `get_info_range` reads.
unfoldable pub parse : Bytes → Result (Value × Parser)
parse data_ = do
  (v, st) ← parse_value (fuel_for data_) data_ start
  throw_if (not (st.at == length data_)) (runtime_error "Invalid extra data")
  ok (v, st)

abbrev pub get_info_range : Parser → ℕ × ℕ
get_info_range st = (st.info_start, st.info_end)
