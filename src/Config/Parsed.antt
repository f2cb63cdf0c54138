-- ===== src/Config/Parsed.antt =====
-- sample/common/src/config.rs: parse_json as a whole, on any text and on a printed one.
use volumecrypt_kit.Prelude.{
  ℕ, ◌<◌, ◌≡◌, inl, inr, refl, ap, ◌∙◌, Bool, true, Bool-cases, Option, some, List, [], ◌∷◌, All,
  length, arith,
}
use volumecrypt_kit.Prelude.Bytes.{IsByte}
use volumecrypt_kit.Error.{invalid_data, VckResult, ok, err, ◌>>=◌}
use volumecrypt_kit.Config.{
  VckConfig, guid_key, vmk_key, osloader_key, config_of, parse_json, some_bytes,
  osloader_or_default,
}
use volumecrypt_kit.Config.Json.{get_key, parse_object}
use volumecrypt_kit.Config.Json.Strings.{print_object}
use volumecrypt_kit.Config.Json.Total.{parse_object_total}
use volumecrypt_kit.Config.Json.Printed.{parse_object-print_object}
use volumecrypt_kit.Config.Base64.Coded.{base64_encode, base64_decode-base64_encode}

-- A `vck.json` of the three keys.
unfoldable pub print_config : List ℕ → List ℕ → List ℕ → List ℕ
unfolding print_object base64_encode
print_config guid_str vmk osloader =
    print_object
      ((guid_key, guid_str) ∷ (vmk_key, base64_encode vmk) ∷ (osloader_key, osloader) ∷ [])

some_bytes_lem : (vmk : List ℕ) → 0 < length vmk → some_bytes vmk ≡ ok vmk
unfolding some_bytes
some_bytes_lem [] pos = absurd (omega arith)
some_bytes_lem (b ∷ vmk) pos = refl

osloader_lem : (path : List ℕ) → 0 < length path → osloader_or_default (some path) ≡ path
unfolding osloader_or_default
osloader_lem [] pos = absurd (omega arith)
osloader_lem (c ∷ path) pos = refl

module _ (parse_guid : List ℕ → Option (List ℕ)) (is_utf8 : List ℕ → Bool) where
  -- On every text the scan of `vck.json` ends, with a configuration or an error: the loop over the
  -- entries takes no more turns than the text has bytes.
  pub parse_json_total :
      (bytes : List ℕ) → (r : VckResult VckConfig) × (parse_json parse_guid is_utf8 bytes ≡ some r)
  unfolding parse_json
  parse_json_total bytes = elim (Bool-cases (is_utf8 bytes)) [
    | inr bad ↦ (err (invalid_data "vck.json is not valid UTF-8"), rw (parse_json, bad) refl)
    | inl good ↦
        let (r, is) = parse_object_total bytes in
        (r >>= config_of parse_guid, rw (parse_json, good, is) refl)
  ]

  parse_json-config_of :
      (bytes : List ℕ) (obj : List (List ℕ × List ℕ))
      → is_utf8 bytes ≡ true
      → parse_object bytes ≡ some (ok obj)
      → parse_json parse_guid is_utf8 bytes ≡ some (config_of parse_guid obj)
  unfolding parse_json
  parse_json-config_of bytes obj text scanned = rw (parse_json, text, scanned) refl

  config_of_lem :
      (guid_str guid vmk osloader : List ℕ)
      → parse_guid guid_str ≡ some guid
      → All IsByte vmk
      → 0 < length vmk
      → 0 < length osloader
      → config_of parse_guid
          ((guid_key, guid_str) ∷ (vmk_key, base64_encode vmk) ∷ (osloader_key, osloader) ∷ [])
        ≡ ok (record { partition_guid = guid; vmk = vmk; osloader = osloader })
  unfolding config_of get_key
  config_of_lem guid_str guid vmk osloader parsed bytes key path =
      rw
        (
          parsed,
          base64_decode-base64_encode vmk bytes,
          some_bytes_lem vmk key,
          osloader_lem osloader path,
        )
        refl

  -- When `vck.json` is written with the three keys, the strings escaped where they must be and the
  -- key in standard base64 with its padding, and the text is UTF-8, the GUID one that the GUID
  -- parser takes and the key and the path not empty, then `parse_json` gives the GUID, the bytes of
  -- the key and the path back, one character for each byte of the path.
  pub parse_json-print_config :
      (guid_str guid vmk osloader : List ℕ)
      → is_utf8 (print_config guid_str vmk osloader) ≡ true
      → parse_guid guid_str ≡ some guid
      → All IsByte vmk
      → 0 < length vmk
      → 0 < length osloader
      → parse_json parse_guid is_utf8 (print_config guid_str vmk osloader)
        ≡ some (ok (record { partition_guid = guid; vmk = vmk; osloader = osloader }))
  unfolding print_config
  parse_json-print_config guid_str guid vmk osloader text parsed bytes key path =
      let obj : List (List ℕ × List ℕ) =
        (guid_key, guid_str) ∷ (vmk_key, base64_encode vmk) ∷ (osloader_key, osloader) ∷ [] in
      parse_json-config_of (print_object obj) obj text (parse_object-print_object obj)
      ∙ ap some (config_of_lem guid_str guid vmk osloader parsed bytes key path)
