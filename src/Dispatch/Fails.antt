-- ===== src/Dispatch/Fails.antt =====
-- lib/windrv/src/ioctl/dispatch.rs: a detach that fails because files are open.
use text.Mathlib.TextPositions.{eq_refl}
use volumecrypt_kit.Prelude.{ℕ, String, false, none, some, ◌≡◌, refl, ap, ◌∙◌}
use volumecrypt_kit.Error.{err, not_found, io}
use volumecrypt_kit.Nt.{win32_volume_path_to_nt}
use volumecrypt_kit.Registry.{get, remove}
use volumecrypt_kit.Registry.Laws.{get-remove}
use volumecrypt_kit.Volume.{AttachedVolume}
use volumecrypt_kit.Dispatch.{
  Kernel, Driver, lock_volume, teardown, detach_found, detach_volume, release_volume, handle_detach,
  refused,
}

detach-absent :
    {W : Type 0} (k : Kernel W) (path : String) (d : Driver W)
    → get path d.entries ≡ none
    → handle_detach k path d ≡ (err (not_found "volume is not attached"), d)
unfolding handle_detach detach_volume detach_found refused
detach-absent k path d absent = rw absent refl

module _ {W : Type 0} (k : Kernel W) (path : String) (d : Driver W) (v : AttachedVolume)
    (attached : get path d.entries ≡ some v) (allowed : refused (some v) ≡ false) (h : ℕ)
    (opened : (k.open_volume (win32_volume_path_to_nt path) d.kernel).0 ≡ some h)
    (busy : (k.send_fsctl h lock_volume (k.open_volume (win32_volume_path_to_nt path) d.kernel).1).0
      ≡ false) where
  abbrev failed : Driver W
  failed = (handle_detach k path d).1

  detach_failed : handle_detach k path d ≡ (
    err (io "FSCTL_LOCK_VOLUME failed (files open)"),
    record {
      entries = remove path d.entries;
      bound = d.bound;
      kernel =
          k.close h
            (k.send_fsctl h lock_volume
              (k.open_volume (win32_volume_path_to_nt path) d.kernel).1).1;
    },
  )
  unfolding handle_detach detach_volume detach_found release_volume teardown
  detach_failed = rw (attached, allowed, opened, busy) refl

  gone : get path failed.entries ≡ none
  gone =
      ap (λ r. get path r.1.entries) detach_failed
      ∙ get-remove path path d.entries
      ∙ rw (eq_refl path) refl

  -- When a detach is allowed and its volume can be opened but not locked, it returns the lock
  -- error, the volume is no longer registered while every filter is bound as before, and a second
  -- detach of the path returns NotFound and changes nothing.
  pub handle_detach-busy :
      ((handle_detach k path d).0 ≡ err (io "FSCTL_LOCK_VOLUME failed (files open)"))
      × (get path failed.entries ≡ none)
      × (failed.bound ≡ d.bound)
      × (handle_detach k path failed ≡ (err (not_found "volume is not attached"), failed))
  handle_detach-busy = (
    ap (λ r. r.0) detach_failed,
    gone,
    ap (λ r. r.1.bound) detach_failed,
    detach-absent k path failed gone,
  )
