-- ===== src/Nt.antt =====
-- `win32_volume_path_to_nt` of lib/windrv/src/nt.rs.
use Prim.Native.Char.{Char}
use Prim.Native.String.{[], ◌∷◌, ◌++◌, len, slice}
use text.Mathlib.Text.{starts_with, ◌==◌ as same}
use volumecrypt_kit.Prelude.{String, Bool, ◌&&◌, ◌||◌, Option, none, some, if◌then◌else◌}

-- `trim_end_matches` of a single character
unfoldable pub trim_end : Char → String → String
trim_end c [] = []
trim_end c (d ∷ s) =
    let rest = trim_end c s in if same (d ∷ []) (c ∷ []) && same rest "" then "" else d ∷ rest

unfoldable pub strip_prefix : String → String → Option String
strip_prefix prefix s = if starts_with s prefix then some (slice s (len prefix) (len s)) else none

unfoldable pub is_nt_path : String → Bool
is_nt_path s =
    starts_with s "\\??\\" || starts_with s "\\Device\\" || starts_with s "\\DosDevices\\"

unfoldable pub to_nt : String → Option String → Option String → String
unfolding is_nt_path
to_nt trimmed (some rest) _ = "\\??\\" ++ rest
to_nt trimmed none (some rest) = "\\??\\" ++ rest
to_nt trimmed none none = if is_nt_path trimmed then trimmed else "\\??\\" ++ trimmed

unfoldable pub win32_volume_path_to_nt : String → String
unfolding to_nt trim_end strip_prefix
win32_volume_path_to_nt path =
    let trimmed = trim_end "\\" path in
    to_nt trimmed (strip_prefix "\\\\.\\" trimmed) (strip_prefix "\\\\?\\" trimmed)
