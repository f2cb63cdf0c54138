-- ===== src/Config/Base64.antt =====
-- `base64_decode` of sample/common/src/config.rs.
pub mod Coded
use volumecrypt_kit.Prelude.{
  ℕ, ◌+◌, ◌-◌, ◌*◌, ◌/◌, ◌%◌, ◌^◌, Bool, true, false, ◌&&◌, Option, none, some, List, [], ◌∷◌, ◌++◌,
  leb, ◌==◌, if◌then◌else◌,
}
use volumecrypt_kit.Error.{invalid_data, VckResult, ok, err}
use volumecrypt_kit.Config.Json.{is_ws}

-- `val`
unfoldable pub base64_val : ℕ → Option ℕ
base64_val c =
    if leb b'A' c && leb c b'Z'
    then some (c - b'A')
    else if leb b'a' c && leb c b'z'
    then some (c - b'a' + 26)
    else if leb b'0' c && leb c b'9'
    then some (c - b'0' + 52)
    else if c == b'+'
    then some 62
    else if c == b'/'
    then some 63
    else none

-- What the loop keeps: `acc` (a u32), `nbits` and `out`.
pub record Decoder : Type 0 where
  pub acc : ℕ
  pub nbits : ℕ
  pub out : List ℕ

-- A digit of six bits: the shift of a u32 loses its upper bits.
unfoldable pub take_digit : Decoder → ℕ → Decoder
take_digit s v =
    let acc = (s.acc * 64) % 2 ^ 32 + v in
    let nbits = s.nbits + 6 in
    if leb 8 nbits
    then record { acc = acc; nbits = nbits - 8; out = s.out ++ (acc / 2 ^ (nbits - 8)) % 256 ∷ [] }
    else record { acc = acc; nbits = nbits; out = s.out }

unfoldable pub decode_loop : Decoder → List ℕ → VckResult (List ℕ)
unfolding base64_val take_digit is_ws
decode_loop s [] = ok s.out
decode_loop s (c ∷ input) = elim (c == b'=') [
  | true ↦ ok s.out
  | false ↦ elim (is_ws c) [
    | true ↦ decode_loop s input
    | false ↦ elim (base64_val c) [
      | none ↦ err (invalid_data "vck.json: invalid base64 in vmk")
      | some v ↦ decode_loop (take_digit s v) input
    ]
  ]
]

unfoldable pub base64_decode : List ℕ → VckResult (List ℕ)
unfolding decode_loop
base64_decode input = decode_loop (record { acc = 0; nbits = 0; out = [] }) input
