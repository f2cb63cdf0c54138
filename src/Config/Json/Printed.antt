-- ===== src/Config/Json/Printed.antt =====
-- sample/common/src/config.rs: the JSON scanner on the texts of the printer.
use volumecrypt_kit.Prelude.{
  ℕ, zero, suc, ◌<◌, ◌≡◌, inl, inr, refl, ap, ◌∙◌, some, List, [], ◌∷◌, ◌++◌, length, arith,
  Bool-cases, ◌==◌, ==_iff,
}
use mathlib.Core.List.{append-nil, append_assoc}
use volumecrypt_kit.Error.{ok}
use volumecrypt_kit.Config.Json.{
  skip_ws, string_body, json_entry, key_turn, entry_turn, entry_end, expect, json_entries,
  parse_object,
}
use volumecrypt_kit.Config.Json.Strings.{print_string, print_entry, print_entries, print_object}

string_body-print_string :
    (out s rest : List ℕ) → string_body 0 out (print_string s rest) ≡ ok (out ++ s, rest)
unfolding string_body print_string
string_body-print_string out [] rest = rw (append-nil out) refl
string_body-print_string out (c ∷ s) rest =
    let go : (d : ℕ)
        → string_body 0 (out ++ d ∷ []) (print_string s rest) ≡ ok (out ++ d ∷ s, rest) =
      λ d.
        string_body-print_string (out ++ d ∷ []) s rest
        ∙ ap (λ v. ok (v, rest)) (append_assoc out (d ∷ []) s) in
    elim (Bool-cases (c == b'"')) [
      | inl quote ↦ let e : c ≡ 34 = (==_iff c 34).0 quote in rw e (go 34)
      | inr a ↦ elim (Bool-cases (c == b'\\')) [
        | inl slash ↦ let e : c ≡ 92 = (==_iff c 92).0 slash in rw e (go 92)
        | inr b ↦ rw (print_string, a, b, string_body, a, b) (go c)
      ]
    ]

json_entry-print_entry :
    (kv : List ℕ × List ℕ) (rest : List ℕ)
    → json_entry (print_entry kv rest) ≡ ok (kv, skip_ws rest)
unfolding json_entry print_entry expect skip_ws
json_entry-print_entry (key, value) rest =
    rw
      (
        string_body-print_string [] key (b':' ∷ b'"' ∷ print_string value rest),
        string_body-print_string [] value rest,
      )
      refl

length-print_string : (s rest : List ℕ) → length rest < length (print_string s rest)
unfolding print_string
length-print_string [] rest = omega arith
length-print_string (c ∷ s) rest = elim (Bool-cases (c == b'"')) [
  | inl quote ↦ rw quote (omega (arith, length-print_string s rest))
  | inr a ↦ elim (Bool-cases (c == b'\\')) [
    | inl slash ↦ rw (a, slash) (omega (arith, length-print_string s rest))
    | inr b ↦ rw (a, b) (omega (arith, length-print_string s rest))
  ]
]

length-print_entry :
    (kv : List ℕ × List ℕ) (rest : List ℕ) → length rest < length (print_entry kv rest)
unfolding print_entry
length-print_entry (key, value) rest = omega (
  arith,
  length-print_string key (b':' ∷ b'"' ∷ print_string value rest),
  length-print_string value rest,
)

length-print_entries :
    (kvs : List (List ℕ × List ℕ)) → length kvs < suc (length (print_entries kvs))
unfolding print_entries
length-print_entries [] = omega arith
length-print_entries (kv ∷ []) = omega arith
length-print_entries (kv ∷ kv2 ∷ kvs) = omega (
  arith,
  length-print_entries (kv2 ∷ kvs),
  length-print_entry kv (b',' ∷ print_entries (kv2 ∷ kvs)),
)

json_entries-print_entries :
    (fuel : ℕ) (seen kvs : List (List ℕ × List ℕ))
    → length kvs < fuel
    → json_entries fuel seen (print_entries kvs) ≡ some (ok (seen ++ kvs))
unfolding json_entries print_entries skip_ws key_turn entry_turn entry_end
json_entries-print_entries zero seen kvs enough = absurd (omega arith)
json_entries-print_entries (suc fuel) seen [] enough = rw (append-nil seen) refl
json_entries-print_entries (suc fuel) seen (kv ∷ []) enough =
    rw (json_entries, json_entry-print_entry kv (b'}' ∷ [])) refl
json_entries-print_entries (suc fuel) seen (kv ∷ kv2 ∷ kvs) enough =
    rw (json_entries, json_entry-print_entry kv (b',' ∷ print_entries (kv2 ∷ kvs)))
      (json_entries-print_entries fuel (seen ++ kv ∷ []) (kv2 ∷ kvs) (omega arith)
        ∙ ap (λ (all : List (List ℕ × List ℕ)). some (ok all))
            (append_assoc seen (kv ∷ []) (kv2 ∷ kvs)))

pub parse_object-print_object :
    (kvs : List (List ℕ × List ℕ)) → parse_object (print_object kvs) ≡ some (ok kvs)
unfolding parse_object print_object skip_ws expect
parse_object-print_object kvs =
    json_entries-print_entries (suc (length (print_entries kvs))) [] kvs (length-print_entries kvs)
