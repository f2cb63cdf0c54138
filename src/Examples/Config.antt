-- ===== src/Examples/Config.antt =====
-- A `vck.json` with a key of four bytes, and a text that is no object. The GUID parser is a toy that
-- takes 36 characters, and the UTF-8 test takes ASCII.
use volumecrypt_kit.Prelude.{
  ℕ, ◌≡◌, refl, Bool, true, ◌&&◌, Option, some, none, List, [], ◌∷◌, length, take, replicate, ltb,
  ◌==◌, if◌then◌else◌, arith,
}
use volumecrypt_kit.Error.{VckResult, ok}
use volumecrypt_kit.Config.{VckConfig, parse_json, default_osloader}
use volumecrypt_kit.Config.Parsed.{print_config, parse_json-print_config, parse_json_total}

abbrev toy_guid : List ℕ → Option (List ℕ)
toy_guid text = if length text == 36 then some (take 16 text) else none

abbrev is_ascii : List ℕ → Bool
is_ascii [] = true
is_ascii (b ∷ bytes) = ltb b 128 && is_ascii bytes

abbrev guid_text : List ℕ
guid_text = replicate 36 b'7'

abbrev key_bytes : List ℕ
key_bytes = 0 ∷ 1 ∷ 2 ∷ 255 ∷ []

is_text : is_ascii (print_config guid_text key_bytes default_osloader) ≡ true
unfolding print_config
is_text = refl

parse_json-print_config_example :
    parse_json toy_guid is_ascii (print_config guid_text key_bytes default_osloader)
    ≡ some (
        ok (record {
          partition_guid = replicate 16 b'7';
          vmk = key_bytes;
          osloader = default_osloader;
        }))
parse_json-print_config_example =
    parse_json-print_config toy_guid is_ascii guid_text (replicate 16 b'7') key_bytes
      default_osloader is_text refl (omega arith) (omega arith) (omega arith)

parse_json_total_example :
    (r : VckResult VckConfig) × (parse_json toy_guid is_ascii
        (b'{' ∷ b'"' ∷ b'\\' ∷ b'u' ∷ b'0' ∷ [])
      ≡ some r)
parse_json_total_example =
    parse_json_total toy_guid is_ascii (b'{' ∷ b'"' ∷ b'\\' ∷ b'u' ∷ b'0' ∷ [])
