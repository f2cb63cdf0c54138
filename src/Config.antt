-- ===== src/Config.antt =====
-- sample/common/src/config.rs: `vck.json`, which names the partition, the key and the next loader.
-- `is_utf8` is `core::str::from_utf8` and `parse_guid` is `Guid::parse_str` of the uuid crate, which
-- gives the bytes of the GUID.
pub mod Json
pub mod Base64
pub mod Parsed
use volumecrypt_kit.Prelude.{ℕ, Bool, Option, none, some, List, [], ◌∷◌, if◌then◌else◌}
use volumecrypt_kit.Error.{invalid_data, VckResult, ok, err, ok_or, ◌>>=◌, ◌>>◌}
use volumecrypt_kit.Config.Json.{parse_object, get_key}
use volumecrypt_kit.Config.Base64.{base64_decode}

-- "partition_guid"
abbrev pub guid_key : List ℕ
guid_key =
    b'p' ∷ b'a' ∷ b'r' ∷ b't' ∷ b'i' ∷ b't' ∷ b'i' ∷ b'o' ∷ b'n' ∷ b'_' ∷ b'g' ∷ b'u' ∷ b'i' ∷ b'd'
    ∷ []

-- "vmk"
abbrev pub vmk_key : List ℕ
vmk_key = b'v' ∷ b'm' ∷ b'k' ∷ []

-- "osloader"
abbrev pub osloader_key : List ℕ
osloader_key = b'o' ∷ b's' ∷ b'l' ∷ b'o' ∷ b'a' ∷ b'd' ∷ b'e' ∷ b'r' ∷ []

-- "/EFI/Microsoft/Boot/msbootmgfw.os.efi"
abbrev pub default_osloader : List ℕ
default_osloader =
    b'/' ∷ b'E' ∷ b'F' ∷ b'I' ∷ b'/' ∷ b'M' ∷ b'i' ∷ b'c' ∷ b'r' ∷ b'o' ∷ b's' ∷ b'o' ∷ b'f' ∷ b't'
    ∷ b'/' ∷ b'B' ∷ b'o' ∷ b'o' ∷ b't' ∷ b'/' ∷ b'm' ∷ b's' ∷ b'b' ∷ b'o' ∷ b'o' ∷ b't' ∷ b'm'
    ∷ b'g' ∷ b'f' ∷ b'w' ∷ b'.' ∷ b'o' ∷ b's' ∷ b'.' ∷ b'e' ∷ b'f' ∷ b'i' ∷ []

pub record VckConfig : Type 0 where
  pub partition_guid : List ℕ
  pub vmk : List ℕ
  pub osloader : List ℕ

-- `filter(|s| !s.is_empty()).unwrap_or(DEFAULT_OSLOADER)`
unfoldable pub osloader_or_default : Option (List ℕ) → List ℕ
osloader_or_default none = default_osloader
osloader_or_default (some []) = default_osloader
osloader_or_default (some (c ∷ path)) = c ∷ path

unfoldable pub some_bytes : List ℕ → VckResult (List ℕ)
some_bytes [] = err (invalid_data "vck.json: vmk is empty")
some_bytes (b ∷ bytes) = ok (b ∷ bytes)

module _ (parse_guid : List ℕ → Option (List ℕ)) where
  -- The keys of a scanned object.
  unfoldable pub config_of : List (List ℕ × List ℕ) → VckResult VckConfig
  unfolding get_key base64_decode some_bytes osloader_or_default
  config_of obj = do
    guid_str ← ok_or (get_key guid_key obj) (invalid_data "vck.json: missing partition_guid")
    partition_guid ←
        ok_or (parse_guid guid_str) (invalid_data "vck.json: partition_guid is not a valid GUID")
    vmk_b64 ← ok_or (get_key vmk_key obj) (invalid_data "vck.json: missing vmk")
    decoded ← base64_decode vmk_b64
    vmk ← some_bytes decoded
    ok (record {
      partition_guid = partition_guid;
      vmk = vmk;
      osloader = osloader_or_default (get_key osloader_key obj);
    })

  -- `none` would be a scan that has not ended.
  unfoldable pub parse_json : (List ℕ → Bool) → List ℕ → Option (VckResult VckConfig)
  unfolding parse_object config_of
  parse_json is_utf8 bytes =
      if is_utf8 bytes
      then elim (parse_object bytes) [ none ↦ none | some scanned ↦ some (scanned >>= config_of) ]
      else some (err (invalid_data "vck.json is not valid UTF-8"))
