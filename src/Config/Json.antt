-- ===== src/Config/Json.antt =====
-- The JSON scanner of sample/common/src/config.rs: a flat object whose values are strings. A place
-- in the text is the rest of its bytes from there on. A string is the list of its code points.
pub mod Strings
pub mod Total
pub mod Printed
use volumecrypt_kit.Prelude.{
  ℕ, zero, suc, ◌+◌, ◌-◌, ◌*◌, ◌<◌, Bool, true, false, ◌&&◌, ◌||◌, Option, none, some, List, [],
  ◌∷◌, ◌++◌, take, drop, length, ltb, leb, ◌==◌, if◌then◌else◌,
}
use volumecrypt_kit.Prelude.Fields.{bytes_eq}
use volumecrypt_kit.Error.{VckError, invalid_data, VckResult, ok, err, ok_or, ensure, ◌>>=◌, ◌>>◌}

unfoldable pub is_ws : ℕ → Bool
is_ws c = c == b' ' || c == b'\t' || c == b'\r' || c == b'\n'

unfoldable pub skip_ws : List ℕ → List ℕ
unfolding is_ws
skip_ws [] = []
skip_ws (c ∷ bytes) = if is_ws c then skip_ws bytes else c ∷ bytes

-- `char::to_digit(16)`
unfoldable pub to_digit16 : ℕ → Option ℕ
to_digit16 c =
    if leb b'0' c && leb c b'9'
    then some (c - b'0')
    else if leb b'a' c && leb c b'f'
    then some (c - b'a' + 10)
    else if leb b'A' c && leb c b'F'
    then some (c - b'A' + 10)
    else none

-- The loop over the digits of a `\u` escape.
unfoldable pub hex_value : ℕ → List ℕ → VckResult ℕ
unfolding to_digit16
hex_value cp [] = ok cp
hex_value cp (h ∷ hex) = elim (to_digit16 h) [
  | none ↦ err (invalid_data "vck.json: bad \\u escape")
  | some d ↦ hex_value (cp * 16 + d) hex
]

-- `char::from_u32`, of a value of four hexadecimal digits
unfoldable pub char_from_u32 : ℕ → Option ℕ
char_from_u32 cp = if leb 0xD800 cp && leb cp 0xDFFF then none else some cp

unfoldable pub unicode_escape : List ℕ → VckResult ℕ
unfolding hex_value char_from_u32
unicode_escape bytes =
    if ltb (length bytes) 4 then err (invalid_data "vck.json: truncated \\u escape") else do
      cp ← hex_value 0 (take 4 bytes)
      ok_or (char_from_u32 cp) (invalid_data "vck.json: bad code point")

-- What stands behind a backslash: the character, and how many bytes it takes.
unfoldable pub escape : List ℕ → VckResult (ℕ × ℕ)
unfolding unicode_escape
escape [] = err (invalid_data "vck.json: bad escape")
escape (c ∷ bytes) =
    if c == b'"'
    then ok (b'"', 1)
    else if c == b'\\'
    then ok (b'\\', 1)
    else if c == b'/'
    then ok (b'/', 1)
    else if c == b'n'
    then ok (b'\n', 1)
    else if c == b'r'
    then ok (b'\r', 1)
    else if c == b't'
    then ok (b'\t', 1)
    else if c == b'b'
    then ok (8, 1)
    else if c == b'f'
    then ok (12, 1)
    else if c == b'u'
    then (do ch ← unicode_escape bytes; ok (ch, 5))
    else err (invalid_data "vck.json: bad escape")

-- The loop of `parse_string` behind the opening quote, with `out` so far and `skip` bytes of an
-- escape to pass over.
unfoldable pub string_body : ℕ → List ℕ → List ℕ → VckResult (List ℕ × List ℕ)
unfolding escape
string_body skip out [] = err (invalid_data "vck.json: unterminated string")
string_body (suc skip) out (c ∷ bytes) = string_body skip out bytes
string_body zero out (c ∷ bytes) = elim (c == b'"') [
  | true ↦ ok (out, bytes)
  | false ↦ elim (c == b'\\') [
    | true ↦ elim (escape bytes) [
      | err e ↦ err e
      | ok (ch, skip) ↦ string_body skip (out ++ ch ∷ []) bytes
    ]
    | false ↦ string_body 0 (out ++ c ∷ []) bytes
  ]
]

-- The bytes behind an expected one.
unfoldable pub expect : ℕ → VckError → List ℕ → VckResult (List ℕ)
expect c e [] = err e
expect c e (b ∷ bytes) = if b == c then ok bytes else err e

-- One turn of the loop of `JsonObject::parse`, from a key's opening quote on: the entry, and the
-- bytes from the comma or the closing brace on.
unfoldable pub json_entry : List ℕ → VckResult ((List ℕ × List ℕ) × List ℕ)
unfolding expect string_body skip_ws
json_entry bytes = do
  (key, next) ← string_body 0 [] bytes
  colon ← expect b':' (invalid_data "vck.json: expected ':'") (skip_ws next)
  quote ← expect b'"' (invalid_data "vck.json: only string values supported") (skip_ws colon)
  (value, rest) ← string_body 0 [] quote
  ok ((key, value), skip_ws rest)

-- How a turn of the loop of `JsonObject::parse` ends: with the result, or with the entries so far and
-- the bytes from the next turn on.
pub data Turn : Type 0 where
  done : VckResult (List (List ℕ × List ℕ)) → Turn
  more : List (List ℕ × List ℕ) → List ℕ → Turn

-- The end of a turn, behind an entry.
unfoldable pub entry_end : List (List ℕ × List ℕ) → List ℕ → Turn
entry_end seen [] = done (err (invalid_data "vck.json: expected ',' or '}'"))
entry_end seen (c ∷ rest) =
    if c == b','
    then more seen rest
    else if c == b'}'
    then done (ok seen)
    else done (err (invalid_data "vck.json: expected ',' or '}'"))

unfoldable pub entry_turn : List (List ℕ × List ℕ) → VckResult ((List ℕ × List ℕ) × List ℕ) → Turn
unfolding entry_end
entry_turn seen (err e) = done (err e)
entry_turn seen (ok (kv, rest)) = entry_end (seen ++ kv ∷ []) rest

unfoldable pub key_turn : List (List ℕ × List ℕ) → List ℕ → Turn
unfolding json_entry entry_turn
key_turn seen [] = done (err (invalid_data "vck.json: expected key or '}'"))
key_turn seen (c ∷ next) =
    if c == b'}'
    then done (ok seen)
    else if c == b'"'
    then entry_turn seen (json_entry next)
    else done (err (invalid_data "vck.json: expected key or '}'"))

-- The loop of `JsonObject::parse`, for at most `fuel` turns.
unfoldable pub json_entries :
    ℕ → List (List ℕ × List ℕ) → List ℕ → Option (VckResult (List (List ℕ × List ℕ)))
unfolding key_turn skip_ws
json_entries zero seen bytes = none
json_entries (suc fuel) seen bytes = elim (key_turn seen (skip_ws bytes)) [
  | done r ↦ some r
  | more seen' rest ↦ json_entries fuel seen' rest
]

-- `JsonObject::parse`. A turn takes at least one byte, so there are at most as many as bytes.
unfoldable pub parse_object : List ℕ → Option (VckResult (List (List ℕ × List ℕ)))
unfolding json_entries skip_ws expect
parse_object bytes = elim (expect b'{' (invalid_data "vck.json: expected '{'") (skip_ws bytes)) [
  | err e ↦ some (err e)
  | ok rest ↦ json_entries (suc (length rest)) [] rest
]

-- `JsonObject::get`
unfoldable pub get_key : List ℕ → List (List ℕ × List ℕ) → Option (List ℕ)
get_key key [] = none
get_key key ((k, v) ∷ rest) = if bytes_eq k key then some v else get_key key rest
