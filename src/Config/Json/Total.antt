-- ===== src/Config/Json/Total.antt =====
-- sample/common/src/config.rs: the turns that the JSON scanner takes.
use volumecrypt_kit.Prelude.{
  ℕ, zero, suc, ◌≤◌, ◌<◌, ◌≡◌, ◌⊎◌, inl, inr, refl, sym, some, List, [], ◌∷◌, ◌++◌, length, arith,
  Bool-cases, ◌==◌,
}
use volumecrypt_kit.Error.{VckError, VckResult, ok, err, Result-cases}
use volumecrypt_kit.Config.Json.{
  Turn, done, more, entry_end, entry_turn, key_turn, is_ws, skip_ws, escape, string_body, expect,
  json_entry, json_entries, parse_object,
}

length-skip_ws : (bytes : List ℕ) → length (skip_ws bytes) ≤ length bytes
unfolding skip_ws
length-skip_ws [] = omega arith
length-skip_ws (c ∷ bytes) = elim (Bool-cases (is_ws c)) [
  | inl ws ↦ rw ws (omega (arith, length-skip_ws bytes))
  | inr other ↦ rw other (omega arith)
]

length-string_body :
    (skip : ℕ) (out bytes value rest : List ℕ)
    → string_body skip out bytes ≡ ok (value, rest)
    → length rest < length bytes
unfolding string_body
length-string_body skip out [] value rest is = cc
length-string_body (suc skip) out (c ∷ bytes) value rest is =
    omega (arith, length-string_body skip out bytes value rest is)
length-string_body zero out (c ∷ bytes) value rest is = elim (Bool-cases (c == b'"')) [
  | inl quote ↦ let e : bytes ≡ rest = cc (rw (string_body, quote) at is) in rw e (omega arith)
  | inr plain ↦ elim (Bool-cases (c == b'\\')) [
    | inr other ↦ omega (
      arith,
      length-string_body 0 (out ++ c ∷ []) bytes value rest (rw (string_body, plain, other) at is),
    )
    | inl slash ↦ elim (Result-cases (escape bytes)) [
      | inr (e, bad) ↦ cc (rw (string_body, plain, slash, bad) at is)
      | inl ((ch, skip), good) ↦ omega (
        arith,
        length-string_body skip (out ++ ch ∷ []) bytes value rest
            (rw (string_body, plain, slash, good) at is),
      )
    ]
  ]
]

length-expect :
    (c : ℕ) (e : VckError) (bytes rest : List ℕ)
    → expect c e bytes ≡ ok rest
    → length rest < length bytes
unfolding expect
length-expect c e [] rest is = cc
length-expect c e (b ∷ bytes) rest is = elim (Bool-cases (b == c)) [
  | inr bad ↦ cc (rw bad at is)
  | inl good ↦ let d : bytes ≡ rest = cc (rw good at is) in rw d (omega arith)
]

length-json_entry :
    (bytes rest : List ℕ) (kv : List ℕ × List ℕ)
    → json_entry bytes ≡ ok (kv, rest)
    → length rest ≤ length bytes
unfolding json_entry
length-json_entry bytes rest kv is = elim (Result-cases (string_body 0 [] bytes)) [
  | inr (e, bad) ↦ cc (rw bad at is)
  | inl ((key, next), k) ↦
      elim (Result-cases
        (expect b':' (VckError.invalid_data "vck.json: expected ':'") (skip_ws next))) [
          | inr (e, bad) ↦ cc (rw (k, bad) at is)
          | inl (colon, a) ↦
              elim (Result-cases (
                expect b'"' (VckError.invalid_data "vck.json: only string values supported")
                  (skip_ws colon))) [
                    | inr (e, bad) ↦ cc (rw (k, a, bad) at is)
                    | inl (quote, b) ↦ elim (Result-cases (string_body 0 [] quote)) [
                      | inr (e, bad) ↦ cc (rw (k, a, b, bad) at is)
                      | inl ((value, tail), v) ↦
                          let e : skip_ws tail ≡ rest = cc (rw (k, a, b, v) at is) in
                          rw (sym e) (
                            omega (
                              arith,
                              length-string_body 0 [] bytes key next k,
                              length-skip_ws next,
                              length-expect b':' (VckError.invalid_data "vck.json: expected ':'")
                                  (skip_ws next) colon a,
                              length-skip_ws colon,
                              length-expect b'"'
                                  (VckError.invalid_data "vck.json: only string values supported")
                                  (skip_ws colon) quote b,
                              length-string_body 0 [] quote value tail v,
                              length-skip_ws tail,
                            ))
                    ]
                  ]
        ]
]

Turn-cases :
    (t : Turn)
    → ((r : VckResult (List (List ℕ × List ℕ))) × (t ≡ done r))
      ⊎ ((seen : List (List ℕ × List ℕ)) × (rest : List ℕ) × (t ≡ more seen rest))
Turn-cases (done r) = inl (r, refl)
Turn-cases (more seen rest) = inr (seen, rest, refl)

length-entry_end :
    (seen seen' : List (List ℕ × List ℕ)) (bytes rest : List ℕ)
    → entry_end seen bytes ≡ more seen' rest
    → length rest < length bytes
unfolding entry_end
length-entry_end seen seen' [] rest is = cc
length-entry_end seen seen' (c ∷ bytes) rest is = elim (Bool-cases (c == b',')) [
  | inl comma ↦ let e : bytes ≡ rest = cc (rw comma at is) in rw e (omega arith)
  | inr other ↦ elim (Bool-cases (c == b'}')) [
    | inl brace ↦ cc (rw (other, brace) at is)
    | inr bad ↦ cc (rw (other, bad) at is)
  ]
]

length-key_turn :
    (seen seen' : List (List ℕ × List ℕ)) (bytes rest : List ℕ)
    → key_turn seen bytes ≡ more seen' rest
    → length rest < length bytes
unfolding key_turn entry_turn
length-key_turn seen seen' [] rest is = cc
length-key_turn seen seen' (c ∷ next) rest is = elim (Bool-cases (c == b'}')) [
  | inl brace ↦ cc (rw brace at is)
  | inr a ↦ elim (Bool-cases (c == b'"')) [
    | inr bad ↦ cc (rw (a, bad) at is)
    | inl quote ↦ elim (Result-cases (json_entry next)) [
      | inr (e, bad) ↦ cc (rw (a, quote, bad) at is)
      | inl ((kv, tail), good) ↦ omega (
        arith,
        length-json_entry next tail kv good,
        length-entry_end (seen ++ kv ∷ []) seen' tail rest (rw (a, quote, good) at is),
      )
    ]
  ]
]

-- More turns than bytes are enough.
pub json_entries_total :
    (fuel : ℕ) (seen : List (List ℕ × List ℕ)) (bytes : List ℕ)
    → length bytes < fuel
    → (r : VckResult (List (List ℕ × List ℕ))) × (json_entries fuel seen bytes ≡ some r)
unfolding json_entries
json_entries_total zero seen bytes enough = absurd (omega arith)
json_entries_total (suc fuel) seen bytes enough =
    elim (Turn-cases (key_turn seen (skip_ws bytes))) [
      | inl (r, ends) ↦ (r, rw (json_entries, ends) refl)
      | inr (seen', rest, goes_on) ↦
          let (r, is) = json_entries_total fuel seen' rest (
            omega (
              arith,
              length-key_turn seen seen' (skip_ws bytes) rest goes_on,
              length-skip_ws bytes,
            )) in
          (r, rw (json_entries, goes_on) is)
    ]

pub parse_object_total :
    (bytes : List ℕ) → (r : VckResult (List (List ℕ × List ℕ))) × (parse_object bytes ≡ some r)
unfolding parse_object
parse_object_total bytes =
    elim (Result-cases
      (expect b'{' (VckError.invalid_data "vck.json: expected '{'") (skip_ws bytes))) [
        | inr (e, bad) ↦ (err e, rw (parse_object, bad) refl)
        | inl (rest, good) ↦
            let (r, is) = json_entries_total (suc (length rest)) [] rest (omega arith) in
            (r, rw (parse_object, good) is)
      ]
