-- ===== src/Examples/Dispatch.antt =====
-- Two attached volumes, one of them the OS volume, and a kernel whose volume is in use.
use mathlib.Core.Bool.{true≢false}
use volumecrypt_kit.Prelude.{◌≡◌, refl, true, false, none, some, List, [], ◌∷◌}
use volumecrypt_kit.Error.{ok, err, io, not_found}
use volumecrypt_kit.Volume.{AttachedVolume, handover, sweep_step, is_os_volume, has_encrypted_data}
use volumecrypt_kit.Registry.{Entry, get, is_protected}
use volumecrypt_kit.Registry.Laws.{IsRegistry}
use volumecrypt_kit.Dispatch.{
  Kernel, Driver, unlock_volume, handle_detach, handle_detach_all_volumes, handle_pause_os_volume,
  pause_volume, refused,
}
use volumecrypt_kit.Dispatch.Entries.{os_entries, handle_detach_all-entries}
use volumecrypt_kit.Dispatch.Protects.{
  Ioctl, detach, detach_all_volumes, pause_os_volume, answer_ioctls, has, Protected,
  answer_ioctls-Protected,
}
use volumecrypt_kit.Dispatch.Pauses.{handle_pause_os_volume-sweep_step}
use volumecrypt_kit.Dispatch.Fails.{handle_detach-busy}
use volumecrypt_kit.Examples.Disk.{Disk, disk_io, register}
use volumecrypt_kit.Examples.Sweep.{disk, volume}

-- Files are open on every volume: no lock is given, and the dismount is refused.
abbrev pub in_use : Kernel Disk
in_use = record {
  open_volume = λ path w. (some 7, w);
  send_fsctl = λ h code w. (elim code [ unlock_volume ↦ true | _ ↦ false ], w);
  close = λ h w. w;
  delay = λ t w. w;
  detach_device = λ f w. w;
  delete_device = λ f w. w;
}

abbrev os_volume : AttachedVolume
os_volume = record volume {
  volume_path = "\\Device\\HarddiskVolume3";
  attach_source = handover;
  filter_device = 2;
}

abbrev os_entry : Entry
os_entry = record { key = os_volume.volume_path; volume = os_volume }

abbrev pub driver : Driver Disk
driver = record {
  entries = record { key = volume.volume_path; volume = volume } ∷ os_entry ∷ [];
  bound = 1 ∷ 2 ∷ [];
  kernel = disk;
}

driver-IsRegistry : IsRegistry driver.entries
unfolding IsRegistry get
driver-IsRegistry = (refl, refl, (refl, refl, tt))

handle_detach_all-entries_example :
    (handle_detach_all_volumes in_use driver).1.entries ≡ os_entries driver.entries
handle_detach_all-entries_example = handle_detach_all-entries in_use driver driver-IsRegistry

only_os : os_entries driver.entries ≡ os_entry ∷ []
unfolding os_entries is_os_volume
only_os = refl

driver-Protected : Protected os_volume.volume_path 2 driver
unfolding get is_protected is_os_volume has_encrypted_data has
driver-Protected = record {
  registry = driver-IsRegistry;
  attached = (os_volume, refl, refl, refl);
  filter_bound = refl;
  apart = (λ h. refl, (λ h. absurd (true≢false h), tt));
}

abbrev requests : List Ioctl
requests = detach_all_volumes ∷ pause_os_volume ∷ detach os_volume.volume_path ∷ []

answer_ioctls-Protected_example :
    Protected os_volume.volume_path 2 (answer_ioctls in_use requests driver)
answer_ioctls-Protected_example =
    answer_ioctls-Protected in_use os_volume.volume_path 2 requests driver driver-Protected

handle_pause_os_volume-sweep_step_example :
    let v = pause_volume os_volume in
    let r = sweep_step (disk_io 16) register 2 (v, disk) in
    (get os_volume.volume_path (handle_pause_os_volume driver).1.entries ≡ some v)
    × (r.0 ≡ ok false)
    × (r.1.1 ≡ disk)
unfolding get is_os_volume
handle_pause_os_volume-sweep_step_example =
    handle_pause_os_volume-sweep_step (disk_io 16) register 2 disk os_volume.volume_path os_volume
      driver refl refl

abbrev after : Driver Disk
after = (handle_detach in_use volume.volume_path driver).1

handle_detach-busy_example :
    ((handle_detach in_use volume.volume_path driver).0
      ≡ err (io "FSCTL_LOCK_VOLUME failed (files open)"))
    × (get volume.volume_path after.entries ≡ none)
    × (after.bound ≡ driver.bound)
    × (handle_detach in_use volume.volume_path after
        ≡ (err (not_found "volume is not attached"), after))
unfolding get refused is_protected is_os_volume has_encrypted_data
handle_detach-busy_example =
    handle_detach-busy in_use volume.volume_path driver volume refl refl 7 refl refl
