-- ===== src/Config/Json/Strings.antt =====
-- A printer of flat objects, against which the scanner is stated: it escapes quotes and backslashes
-- and writes no white space.
use volumecrypt_kit.Prelude.{ℕ, ◌||◌, List, [], ◌∷◌, ◌==◌, if◌then◌else◌}

-- The rest of a string behind its opening quote, and what follows it.
unfoldable pub print_string : List ℕ → List ℕ → List ℕ
print_string [] rest = b'"' ∷ rest
print_string (c ∷ s) rest =
    if c == b'"' || c == b'\\' then b'\\' ∷ c ∷ print_string s rest else c ∷ print_string s rest

-- An entry behind the opening quote of its key, and what follows it.
unfoldable pub print_entry : List ℕ × List ℕ → List ℕ → List ℕ
unfolding print_string
print_entry (key, value) rest = print_string key (b':' ∷ b'"' ∷ print_string value rest)

unfoldable pub print_entries : List (List ℕ × List ℕ) → List ℕ
unfolding print_entry
print_entries [] = b'}' ∷ []
print_entries (kv ∷ []) = b'"' ∷ print_entry kv (b'}' ∷ [])
print_entries (kv ∷ kv2 ∷ kvs) = b'"' ∷ print_entry kv (b',' ∷ print_entries (kv2 ∷ kvs))

unfoldable pub print_object : List (List ℕ × List ℕ) → List ℕ
unfolding print_entries
print_object kvs = b'{' ∷ print_entries kvs
