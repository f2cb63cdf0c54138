-- ===== src/Dispatch.antt =====
-- lib/windrv/src/ioctl/dispatch.rs: detaching volumes and pausing the OS volume, on the registry.
-- What the Windows kernel does is a parameter: a status is whether `nt_success` takes it. The
-- `filter_device` that detach_volume_with_dismount clears is that of a volume already taken out of
-- the registry, and is not kept. The thread of a filter, which unbind_filter and detach_filter of
-- lib/windrv/src/filter/manager.rs stop first, is that of Thread.
pub mod Entries
pub mod Pauses
pub mod Protects
pub mod Fails
use volumecrypt_kit.Prelude.{
  ℕ, zero, suc, String, Bool, true, false, ◌&&◌, not, Option, none, some, List, [], ◌∷◌, map, ◌==◌,
  if◌then◌else◌,
}
use volumecrypt_kit.Error.{VckResult, ok, err, not_found, permission_denied, io}
use volumecrypt_kit.Exec.{Exec}
use volumecrypt_kit.Engine
use volumecrypt_kit.Volume.{AttachedVolume, is_os_volume}
use volumecrypt_kit.Nt.{win32_volume_path_to_nt}
use volumecrypt_kit.Registry.{Entry, get, remove, all, is_protected}

pub data Fsctl : Type 0 where
  lock_volume dismount_volume unlock_volume : Fsctl

-- `open_volume` is open_volume_handle_raw; a delay is in units of 100 ns.
pub record Kernel (W : Type 0) : Type 0 where
  pub open_volume : String → W → Option ℕ × W
  pub send_fsctl : ℕ → Fsctl → W → Bool × W
  pub close : ℕ → W → W
  pub delay : ℕ → W → W
  pub detach_device : ℕ → W → W
  pub delete_device : ℕ → W → W

-- `bound` lists the filters that have a volume.
pub record Driver (W : Type 0) : Type 0 where
  pub entries : List Entry
  pub bound : List ℕ
  pub kernel : W

unfoldable pub without : ℕ → List ℕ → List ℕ
without f [] = []
without f (g ∷ gs) = if g == f then without f gs else g ∷ without f gs

abbrev pub max_retries : ℕ
max_retries = 100

unfoldable pub pause_volume : AttachedVolume → AttachedVolume
pause_volume v = record v {
  encryption = if is_os_volume v then Engine.pause v.encryption else v.encryption;
}

abbrev pub pause_entry : Entry → Entry
pause_entry e = record e { volume = pause_volume e.volume }

unfoldable pub handle_pause_os_volume : {W : Type 0} → Exec (Driver W) (Unit {0})
handle_pause_os_volume d = (ok tt, record d { entries = map pause_entry d.entries })

unfoldable pub refused : Option AttachedVolume → Bool
refused none = false
refused (some v) = is_protected v

-- The paths are those of the volumes themselves, not their keys.
unfoldable pub data_paths : List AttachedVolume → List String
data_paths [] = []
data_paths (v ∷ vs) = if is_os_volume v then data_paths vs else v.volume_path ∷ data_paths vs

module _ {W : Type 0} (k : Kernel W) where
  -- The loop over the attempts, `left` of which remain.
  unfoldable pub dismount : ℕ → ℕ → W → Bool × W
  dismount h zero w = (false, w)
  dismount h (suc left) w =
      let (success, w1) = k.send_fsctl h dismount_volume w in
      elim success [
        | true ↦ (true, w1)
        | false ↦ dismount h left (if left == 0 then w1 else k.delay 1000000 w1)
      ]

  unfoldable pub release_locked : ℕ → Bool → W → W
  release_locked h held_lock w =
      let w1 = (dismount h max_retries w).1 in
      k.close h (if held_lock then (k.send_fsctl h unlock_volume w1).1 else w1)

  unfoldable pub release_volume : Bool → Option ℕ → W → VckResult (Unit {0}) × W
  unfolding release_locked
  release_volume ignore none w = (ok tt, w)
  release_volume ignore (some h) w =
      let (locked, w1) = k.send_fsctl h lock_volume w in
      if not locked && not ignore
      then (err (io "FSCTL_LOCK_VOLUME failed (files open)"), k.close h w1)
      else (ok tt, release_locked h locked w1)

  unfoldable pub unbind_filter : ℕ → Driver W → Driver W
  unbind_filter f d = if f == 0 then d else record d { bound = without f d.bound }

  unfoldable pub detach_filter : ℕ → Driver W → Driver W
  detach_filter f d = if f == 0 then d else record d {
    bound = without f d.bound;
    kernel = k.delete_device f (k.detach_device f d.kernel);
  }

  unfoldable pub teardown : Bool → ℕ → VckResult (Unit {0}) → Exec (Driver W) (Unit {0})
  unfolding unbind_filter detach_filter
  teardown keep_filter f (err e) d = (err e, d)
  teardown keep_filter f (ok _) d =
      let d1 = record d { kernel = k.delay 5000000 d.kernel } in
      (ok tt, if keep_filter then unbind_filter f d1 else detach_filter f d1)

  unfoldable pub detach_found :
      String → Bool → Bool → Option AttachedVolume → Exec (Driver W) (Unit {0})
  unfolding teardown release_volume
  detach_found path ignore keep none d = (err (not_found "volume is not attached"), d)
  detach_found path ignore keep (some v) d =
      let (handle, w1) = k.open_volume (win32_volume_path_to_nt path) d.kernel in
      let (released, w2) = release_volume ignore handle w1 in
      teardown keep v.filter_device released
        (record d { entries = remove path d.entries; kernel = w2 })

  unfoldable pub detach_volume : String → Bool → Bool → Exec (Driver W) (Unit {0})
  unfolding detach_found
  detach_volume path ignore keep d = detach_found path ignore keep (get path d.entries) d

  unfoldable pub handle_detach : String → Exec (Driver W) (Unit {0})
  unfolding refused detach_volume
  handle_detach path d =
      if refused (get path d.entries)
      then (err (permission_denied "OS volume is encrypted; detach is not allowed"), d)
      else detach_volume path false true d

  unfoldable pub detach_each : List String → Driver W → Driver W
  unfolding detach_volume
  detach_each [] d = d
  detach_each (p ∷ ps) d = detach_each ps (detach_volume p true false d).1

  unfoldable pub handle_detach_all_volumes : Exec (Driver W) (Unit {0})
  unfolding detach_each data_paths
  handle_detach_all_volumes d = (ok tt, detach_each (data_paths (all d.entries)) d)
