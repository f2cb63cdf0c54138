-- ===== src/Examples/Filter.antt =====
-- The filter on a volume of four sectors of 16 bytes that start at LBA 1.
use volumecrypt_kit.Prelude.{
  ℕ, ◌+◌, ◌*◌, ◌^◌, ◌<◌, ◌≤◌, ◌≡◌, ◌⊎◌, inl, inr, refl, true, false, ◌&&◌, some, List, replicate,
  arith, leb, if◌then◌else◌,
}
use volumecrypt_kit.Volume.{offset_sector, data_sectors}
use volumecrypt_kit.Irp.{first_lba}
use volumecrypt_kit.Filter.{
  write, device_control, size_query, passed, blocked, queued, handle_filter_irp,
  size_ioctl_completion,
}
use volumecrypt_kit.Filter.Guard.{handle_filter_irp-guards}
use volumecrypt_kit.Filter.Size.{HasLengthAt, Names, size_ioctl_completion-handle_filter_irp}
use volumecrypt_kit.Examples.Sweep.{volume, write_request}

fits : 16 + offset_sector volume * 16 < 2 ^ 64
unfolding offset_sector
fits = omega arith

shifted : write_request.byte_offset ≡ 16 + offset_sector volume * 16
unfolding offset_sector
shifted = refl

handle_filter_irp_example :
    (handle_filter_irp
        (record { volume = some volume; has_thread = true })
        (record { major = write; byte_offset = 16; user_mode = true; pool = true })
      ≡ (if leb (data_sectors volume) 1 && true
          then blocked
          else queued true write_request.byte_offset))
    × (first_lba volume write_request ≡ offset_sector volume + 1)
handle_filter_irp_example =
    handle_filter_irp-guards volume (omega arith) 16 fits true true true write_request shifted

known : HasLengthAt 0x00074004 8
known = inr (inl (refl, refl))

small : data_sectors volume * 16 < 2 ^ 64
unfolding data_sectors
small = omega arith

size_ioctl_completion_example :
    (handle_filter_irp
        (record { volume = some volume; has_thread = true })
        (record {
          major = device_control 0x00074004;
          byte_offset = 0;
          user_mode = true;
          pool = true;
        })
      ≡ (if true then size_query 0x00074004 (data_sectors volume * 16) else passed 0))
    × ((after : List ℕ) × ((size_ioctl_completion true 0x00074004
              (data_sectors volume * 16)
              32
              (some (replicate 32 1))
            ≡ some after)
          × (((true ≡ true) × (16 ≤ 32) × Names (data_sectors volume * 16) 8 (replicate 32 1) after)
              ⊎ (((true ≡ false) ⊎ (32 < 16)) × (after ≡ replicate 32 1)))))
size_ioctl_completion_example =
    size_ioctl_completion-handle_filter_irp volume 0x00074004 8 known small true true true true 0 32
      (replicate 32 1) (omega arith)
