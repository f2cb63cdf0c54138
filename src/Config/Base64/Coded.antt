-- ===== src/Config/Base64/Coded.antt =====
-- sample/common/src/config.rs: base64_decode beside an encoder of the standard alphabet.
use volumecrypt_kit.Prelude.{
  ℕ, ◌+◌, ◌-◌, ◌*◌, ◌/◌, ◌%◌, ◌^◌, ◌<◌, ◌≡◌, refl, sym, ap, ◌∙◌, false, some, List, [], ◌∷◌, ◌++◌,
  All, arith, ltb, ◌==◌, if◌then◌else◌,
}
use mathlib.Core.List.{append-nil, append_assoc}
use volumecrypt_kit.Prelude.Bytes.{IsByte}
use volumecrypt_kit.Error.{ok}
use volumecrypt_kit.Config.Json.{is_ws}
use volumecrypt_kit.Config.Base64.{Decoder, base64_val, take_digit, decode_loop, base64_decode}

-- RFC 4648, the alphabet
unfoldable pub base64_digit : ℕ → ℕ
base64_digit v =
    if ltb v 26
    then b'A' + v
    else if ltb v 52
    then b'a' + (v - 26)
    else if ltb v 62
    then b'0' + (v - 52)
    else if v == 62
    then b'+'
    else b'/'

-- RFC 4648, with padding
unfoldable pub base64_encode : List ℕ → List ℕ
unfolding base64_digit
base64_encode [] = []
base64_encode (a ∷ []) = base64_digit (a / 4) ∷ base64_digit (a % 4 * 16) ∷ b'=' ∷ b'=' ∷ []
base64_encode (a ∷ b ∷ []) =
    base64_digit (a / 4)
    ∷ base64_digit (a % 4 * 16 + b / 16)
    ∷ base64_digit (b % 16 * 4)
    ∷ b'='
    ∷ []
base64_encode (a ∷ b ∷ c ∷ bytes) =
    base64_digit (a / 4)
    ∷ base64_digit (a % 4 * 16 + b / 16)
    ∷ base64_digit (b % 16 * 4 + c / 64)
    ∷ base64_digit (c % 64)
    ∷ base64_encode bytes

base64_digit-pad : (v : ℕ) → v < 64 → (base64_digit v == b'=') ≡ false
unfolding base64_digit
base64_digit-pad v lt = ground arith

is_ws-base64_digit : (v : ℕ) → v < 64 → is_ws (base64_digit v) ≡ false
unfolding base64_digit is_ws
is_ws-base64_digit v lt = ground arith

base64_val-base64_digit : (v : ℕ) → v < 64 → base64_val (base64_digit v) ≡ some v
unfolding base64_digit base64_val
base64_val-base64_digit v lt = ground arith

decode_loop-base64_digit :
    (s : Decoder) (v : ℕ) (input : List ℕ)
    → v < 64
    → decode_loop s (base64_digit v ∷ input) ≡ decode_loop (take_digit s v) input
unfolding decode_loop
decode_loop-base64_digit s v input lt =
    rw (decode_loop, base64_digit-pad v lt, is_ws-base64_digit v lt, base64_val-base64_digit v lt)
      refl

decode_loop-pad : (s : Decoder) (input : List ℕ) → decode_loop s (b'=' ∷ input) ≡ ok s.out
unfolding decode_loop
decode_loop-pad s input = refl

decode_loop-nil : (s : Decoder) → decode_loop s [] ≡ ok s.out
unfolding decode_loop
decode_loop-nil s = refl

abbrev state_of : ℕ → ℕ → List ℕ → Decoder
state_of acc nbits out = record { acc = acc; nbits = nbits; out = out }

-- What the digits of a group leave: `d`, `e` and `f` are its second, third and fourth digit.
module _ (acc : ℕ) (out : List ℕ) where
  first_byte :
      (a d : ℕ)
      → a < 256
      → d < 64
      → d / 16 ≡ a % 4
      → take_digit (take_digit (state_of acc 0 out) (a / 4)) d
        ≡ state_of (((acc * 64 % 2 ^ 32 + a / 4) * 64) % 2 ^ 32 + d) 4 (out ++ a ∷ [])
  unfolding take_digit
  first_byte a d small lt is =
      ap (λ x. state_of (((acc * 64 % 2 ^ 32 + a / 4) * 64) % 2 ^ 32 + d) 4 (out ++ x ∷ []))
        (omega arith)

  second_byte :
      (b e : ℕ)
      → b < 256
      → e < 64
      → acc % 16 ≡ b / 16
      → e / 4 ≡ b % 16
      → take_digit (state_of acc 4 out) e ≡ state_of (acc * 64 % 2 ^ 32 + e) 2 (out ++ b ∷ [])
  unfolding take_digit
  second_byte b e small lt high low =
      ap (λ x. state_of (acc * 64 % 2 ^ 32 + e) 2 (out ++ x ∷ [])) (omega arith)

  third_byte :
      (c f : ℕ)
      → c < 256
      → f < 64
      → acc % 4 ≡ c / 64
      → f ≡ c % 64
      → take_digit (state_of acc 2 out) f ≡ state_of (acc * 64 % 2 ^ 32 + f) 0 (out ++ c ∷ [])
  unfolding take_digit
  third_byte c f small lt high low =
      ap (λ x. state_of (acc * 64 % 2 ^ 32 + f) 0 (out ++ x ∷ [])) (omega arith)

  -- A group: the state after its two first digits.
  two_digits :
      (a d : ℕ) (input : List ℕ)
      → a < 256
      → d < 64
      → d / 16 ≡ a % 4
      → decode_loop (state_of acc 0 out) (base64_digit (a / 4) ∷ base64_digit d ∷ input)
        ≡ decode_loop
            (state_of (((acc * 64 % 2 ^ 32 + a / 4) * 64) % 2 ^ 32 + d) 4 (out ++ a ∷ []))
            input
  two_digits a d input small lt is =
      decode_loop-base64_digit (state_of acc 0 out) (a / 4) (base64_digit d ∷ input) (omega arith)
      ∙ decode_loop-base64_digit (take_digit (state_of acc 0 out) (a / 4)) d input lt
      ∙ ap (λ s. decode_loop s input) (first_byte a d small lt is)

  third_digit :
      (b e : ℕ) (input : List ℕ)
      → b < 256
      → e < 64
      → acc % 16 ≡ b / 16
      → e / 4 ≡ b % 16
      → decode_loop (state_of acc 4 out) (base64_digit e ∷ input)
        ≡ decode_loop (state_of (acc * 64 % 2 ^ 32 + e) 2 (out ++ b ∷ [])) input
  third_digit b e input small lt high low =
      decode_loop-base64_digit (state_of acc 4 out) e input lt
      ∙ ap (λ s. decode_loop s input) (second_byte b e small lt high low)

decode_loop-base64_encode :
    (acc : ℕ) (out bytes : List ℕ)
    → All IsByte bytes
    → decode_loop (state_of acc 0 out) (base64_encode bytes) ≡ ok (out ++ bytes)
unfolding base64_encode
decode_loop-base64_encode acc out [] h = decode_loop-nil _ ∙ ap ok (sym (append-nil out))
decode_loop-base64_encode acc out (a ∷ []) (ha, h) =
    two_digits acc out a (a % 4 * 16) (b'=' ∷ b'=' ∷ []) ha (omega arith) (omega arith)
    ∙ decode_loop-pad _ (b'=' ∷ [])
decode_loop-base64_encode acc out (a ∷ b ∷ []) (ha, (hb, h)) =
    let acc2 = ((acc * 64 % 2 ^ 32 + a / 4) * 64) % 2 ^ 32 + (a % 4 * 16 + b / 16) in
    two_digits acc out a (a % 4 * 16 + b / 16) (base64_digit (b % 16 * 4) ∷ b'=' ∷ []) ha
      (omega arith) (omega arith)
    ∙ third_digit acc2 (out ++ a ∷ []) b (b % 16 * 4) (b'=' ∷ []) hb (omega arith) (omega arith)
        (omega arith)
    ∙ decode_loop-pad _ []
    ∙ ap ok (append_assoc out (a ∷ []) (b ∷ []))
decode_loop-base64_encode acc out (a ∷ b ∷ c ∷ bytes) (ha, (hb, (hc, h))) =
    let acc2 = ((acc * 64 % 2 ^ 32 + a / 4) * 64) % 2 ^ 32 + (a % 4 * 16 + b / 16) in
    let e = b % 16 * 4 + c / 64 in
    let acc3 = acc2 * 64 % 2 ^ 32 + e in
    let digits = base64_digit (c % 64) ∷ base64_encode bytes in
    two_digits acc out a (a % 4 * 16 + b / 16) (base64_digit e ∷ digits) ha (omega arith)
      (omega arith)
    ∙ third_digit acc2 (out ++ a ∷ []) b e digits hb (omega arith) (omega arith) (omega arith)
    ∙ decode_loop-base64_digit (state_of acc3 2 ((out ++ a ∷ []) ++ b ∷ [])) (c % 64)
        (base64_encode bytes) (omega arith)
    ∙ ap (λ s. decode_loop s (base64_encode bytes))
        (third_byte acc3 ((out ++ a ∷ []) ++ b ∷ []) c (c % 64) hc (omega arith) (omega arith) refl)
    ∙ decode_loop-base64_encode (acc3 * 64 % 2 ^ 32 + c % 64)
        (((out ++ a ∷ []) ++ b ∷ []) ++ c ∷ []) bytes h
    ∙ ap ok (
        append_assoc ((out ++ a ∷ []) ++ b ∷ []) (c ∷ []) bytes
        ∙ append_assoc (out ++ a ∷ []) (b ∷ []) (c ∷ bytes)
        ∙ append_assoc out (a ∷ []) (b ∷ c ∷ bytes))

pub base64_decode-base64_encode :
    (bytes : List ℕ) → All IsByte bytes → base64_decode (base64_encode bytes) ≡ ok bytes
unfolding base64_decode
base64_decode-base64_encode bytes h = decode_loop-base64_encode 0 [] bytes h
