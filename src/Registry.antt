-- ===== src/Registry.antt =====
-- `VolumeAttachRegistry` of lib/windrv/src/registry.rs, a map from paths to attached volumes. The
-- entries stand in the order of their keys, as those of a BTreeMap; an insertion takes an older
-- entry of the key away first.
pub mod Laws
use Prim.Native.Nat.{Ordering}
use Prim.Native.String.{compare}
use text.Mathlib.Text.{◌==◌ as same}
use volumecrypt_kit.Prelude.{
  ℕ, String, Bool, true, false, ◌&&◌, ◌||◌, Option, none, some, List, [], ◌∷◌, map, ◌==◌,
  if◌then◌else◌,
}
use volumecrypt_kit.Volume.{AttachedVolume, is_os_volume, has_encrypted_data}

pub record Entry : Type 0 where
  pub key : String
  pub volume : AttachedVolume

unfoldable pub remove : String → List Entry → List Entry
remove path [] = []
remove path (e ∷ es) = if same path e.key then remove path es else e ∷ remove path es

unfoldable pub get : String → List Entry → Option AttachedVolume
get path [] = none
get path (e ∷ es) = if same path e.key then some e.volume else get path es

unfoldable pub place : Entry → List Entry → List Entry
place x [] = x ∷ []
place x (e ∷ es) = elim (compare x.key e.key) [ Ordering.gt ↦ e ∷ place x es | _ ↦ x ∷ e ∷ es ]

unfoldable pub insert : AttachedVolume → List Entry → List Entry
insert v es = place (record { key = v.volume_path; volume = v }) (remove v.volume_path es)

unfoldable pub all : List Entry → List AttachedVolume
all es = map (λ e. e.volume) es

-- No filter is 0, which no volume is bound to.
unfoldable pub find_by_filter : ℕ → List AttachedVolume → Option AttachedVolume
find_by_filter filter_do [] = none
find_by_filter filter_do (v ∷ vs) =
    if v.filter_device == filter_do then some v else find_by_filter filter_do vs

unfoldable pub get_by_filter : ℕ → List Entry → Option AttachedVolume
get_by_filter filter_do es = if filter_do == 0 then none else find_by_filter filter_do (all es)

unfoldable pub is_protected : AttachedVolume → Bool
is_protected v = is_os_volume v && has_encrypted_data v

unfoldable pub any_protected : List AttachedVolume → Bool
any_protected [] = false
any_protected (v ∷ vs) = is_protected v || any_protected vs

unfoldable pub has_encrypted_os_volume : List Entry → Bool
has_encrypted_os_volume es = any_protected (all es)
