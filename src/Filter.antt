-- ===== src/Filter.antt =====
-- lib/windrv/src/filter/io.rs: what the filter does with an IRP on a filter device. The calls of the
-- kernel that carry it out are the outcomes.
pub mod Guard
pub mod Size
use volumecrypt_kit.Prelude.{
  ℕ, ◌+◌, ◌-◌, ◌*◌, ◌/◌, ◌%◌, ◌^◌, min, Bool, true, false, ◌&&◌, Option, none, some, List, ◌++◌,
  take, drop, length, ltb, leb, ◌==◌, if◌then◌else◌,
}
use volumecrypt_kit.Engine.{data_relative}
use volumecrypt_kit.Volume.{AttachedVolume, offset_sector, data_sectors}
use volumecrypt_kit.Xts.{to_le_bytes}

-- The major functions that the filter tells apart; `device_control` has its code.
pub data Major : Type 0 where
  read write pnp_start_device pnp_other other : Major
  device_control : ℕ → Major

-- `pool` is whether ExAllocatePool2 gives memory for the context of a completion routine.
pub record FilterIrp : Type 0 where
  pub major : Major
  pub byte_offset : ℕ
  pub user_mode : Bool
  pub pool : Bool

-- The device extension: the volume that is bound, and whether it has a thread.
pub record DeviceExtension : Type 0 where
  pub volume : Option AttachedVolume
  pub has_thread : Bool

-- Offsets are those that the lower device or the thread sees.
pub data FilterOutcome : Type 0 where
  passed : ℕ → FilterOutcome
  blocked : FilterOutcome
  queued : Bool → ℕ → FilterOutcome
  size_query : ℕ → ℕ → FilterOutcome
  start_device : FilterOutcome

unfoldable pub size_field_offset : ℕ → Option ℕ
size_field_offset code =
    if code == 0x0007405C
    then some 0
    else if code == 0x00074004
    then some 8
    else if code == 0x00070048
    then some 16
    else none

-- u64::saturating_mul
abbrev pub saturating_mul : ℕ → ℕ → ℕ
saturating_mul a b = min (a * b) (2 ^ 64 - 1)

unfoldable pub shift_offset : AttachedVolume → ℕ → ℕ
unfolding offset_sector
shift_offset v byte_offset = (byte_offset + saturating_mul (offset_sector v) v.sector_size) % 2 ^ 64

unfoldable pub is_metadata_sector : AttachedVolume → ℕ → ℕ → Bool
unfolding data_relative offset_sector data_sectors
is_metadata_sector v byte_offset sector_size =
    if sector_size == 0
    then false
    else elim (data_relative (offset_sector v) (data_sectors v) (byte_offset / sector_size)) [
      | none ↦ true
      | some _ ↦ false
    ]

-- A READ or a WRITE on a bound volume.
unfoldable pub read_or_write : Bool → Bool → AttachedVolume → FilterIrp → FilterOutcome
unfolding shift_offset is_metadata_sector
read_or_write is_write has_thread v irp =
    let byte_off = shift_offset v irp.byte_offset in
    if is_metadata_sector v byte_off v.sector_size && irp.user_mode
    then blocked
    else if has_thread
    then queued is_write byte_off
    else passed byte_off

unfoldable pub intercept_size_ioctl : AttachedVolume → FilterIrp → ℕ → FilterOutcome
unfolding data_sectors
intercept_size_ioctl v irp code =
    if irp.pool
    then size_query code (saturating_mul (data_sectors v) v.sector_size)
    else passed irp.byte_offset

unfoldable pub bound_irp : Bool → AttachedVolume → FilterIrp → Major → FilterOutcome
unfolding read_or_write intercept_size_ioctl size_field_offset
bound_irp has_thread v irp read = read_or_write false has_thread v irp
bound_irp has_thread v irp write = read_or_write true has_thread v irp
bound_irp has_thread v irp (device_control code) = elim (size_field_offset code) [
  | none ↦ passed irp.byte_offset
  | some _ ↦ intercept_size_ioctl v irp code
]
bound_irp has_thread v irp m = passed irp.byte_offset

unfoldable pub handle_filter_irp : DeviceExtension → FilterIrp → FilterOutcome
unfolding bound_irp
handle_filter_irp ext irp = elim irp.major [
  | pnp_start_device ↦ start_device
  | pnp_other ↦ passed irp.byte_offset
  | m ↦ elim ext.volume [
    | none ↦ passed irp.byte_offset
    | some v ↦ bound_irp ext.has_thread v irp m
  ]
]

-- When the query has succeeded and its buffer holds the field, the field is replaced. `info` is the
-- number of bytes that the lower device returned in the buffer.
unfoldable pub size_ioctl_completion : Bool → ℕ → ℕ → ℕ → Option (List ℕ) → Option (List ℕ)
unfolding size_field_offset
size_ioctl_completion succeeded code data_bytes info sysbuf =
    if succeeded
    then elim (size_field_offset code) [
      | none ↦ sysbuf
      | some off ↦ elim sysbuf [
        | none ↦ none
        | some buf ↦
            if leb (off + 8) info
            then some (take off buf ++ (to_le_bytes 8 data_bytes ++ drop (off + 8) buf))
            else some buf
      ]
    ]
    else sysbuf
