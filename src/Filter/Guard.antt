-- ===== src/Filter/Guard.antt =====
-- lib/windrv/src/filter/io.rs: which requests reach the disk, and where.
use volumecrypt_kit.Prelude.{
  ℕ, ◌+◌, ◌-◌, ◌*◌, ◌/◌, ◌^◌, ◌<◌, ◌≡◌, refl, ◌∙◌, Bool, true, false, none, some, arith, ltb, leb,
  ◌==◌, if◌then◌else◌, ◌&&◌,
}
use native.Mathlib.Nat.{add-mul-div_right}
use volumecrypt_kit.Engine.{data_relative}
use volumecrypt_kit.Volume.{AttachedVolume, offset_sector, data_sectors}
use volumecrypt_kit.Irp.{Request, first_lba}
use volumecrypt_kit.Filter.{
  Major, read, write, FilterIrp, passed, blocked, queued, saturating_mul, shift_offset,
  is_metadata_sector, read_or_write, bound_irp, handle_filter_irp,
}

module _ (v : AttachedVolume) (pos : 0 < v.sector_size) (b : ℕ)
    (fits : b + offset_sector v * v.sector_size < 2 ^ 64) where
  abbrev shifted : ℕ
  shifted = b + offset_sector v * v.sector_size

  shift_offset_lem : shift_offset v b ≡ shifted
  unfolding shift_offset
  shift_offset_lem =
      let whole : saturating_mul (offset_sector v) v.sector_size ≡ offset_sector v * v.sector_size =
        omega arith in
      rw whole (omega arith)

  first_sector : shifted / v.sector_size ≡ b / v.sector_size + offset_sector v
  first_sector = add-mul-div_right b (offset_sector v) pos

  data_relative_lem :
      data_relative (offset_sector v) (data_sectors v) (b / v.sector_size + offset_sector v)
      ≡ (if ltb (b / v.sector_size) (data_sectors v) then some (b / v.sector_size) else none)
  unfolding data_relative
  data_relative_lem =
      let reaches : leb (offset_sector v) (b / v.sector_size + offset_sector v) ≡ true =
        ground arith in
      let back : b / v.sector_size + offset_sector v - offset_sector v ≡ b / v.sector_size =
        omega arith in
      rw (reaches, back) refl

  is_metadata_sector_lem :
      is_metadata_sector v shifted v.sector_size ≡ leb (data_sectors v) (b / v.sector_size)
  unfolding is_metadata_sector
  is_metadata_sector_lem =
      let some_size : (v.sector_size == 0) ≡ false = ground arith in
      rw (some_size, first_sector, data_relative_lem) (ground arith)

  read_or_write_lem :
      (is_write has_thread : Bool) (irp : FilterIrp)
      → irp.byte_offset ≡ b
      → read_or_write is_write has_thread v irp ≡ (
          if leb (data_sectors v) (b / v.sector_size) && irp.user_mode
          then blocked
          else if has_thread
          then queued is_write shifted
          else passed shifted)
  unfolding read_or_write
  read_or_write_lem is_write has_thread irp e =
      rw (e, shift_offset_lem, is_metadata_sector_lem) refl

  abbrev major_of : Bool → Major
  major_of true = write
  major_of false = read

  abbrev irp_of : Bool → Bool → Bool → FilterIrp
  irp_of is_write user_mode pool = record {
    major = major_of is_write;
    byte_offset = b;
    user_mode = user_mode;
    pool = pool;
  }

  bound_irp_lem :
      (is_write has_thread : Bool) (irp : FilterIrp)
      → bound_irp has_thread v irp (major_of is_write) ≡ read_or_write is_write has_thread v irp
  unfolding bound_irp
  bound_irp_lem true has_thread irp = refl
  bound_irp_lem false has_thread irp = refl

  handle_filter_irp_lem :
      (is_write has_thread user_mode pool : Bool)
      → handle_filter_irp
          (record { volume = some v; has_thread = has_thread })
          (irp_of is_write user_mode pool)
        ≡ (if leb (data_sectors v) (b / v.sector_size) && user_mode
            then blocked
            else if has_thread
            then queued is_write shifted
            else passed shifted)
  unfolding handle_filter_irp
  handle_filter_irp_lem true has_thread user_mode pool =
      bound_irp_lem true has_thread (irp_of true user_mode pool)
      ∙ read_or_write_lem true has_thread (irp_of true user_mode pool) refl
  handle_filter_irp_lem false has_thread user_mode pool =
      bound_irp_lem false has_thread (irp_of false user_mode pool)
      ∙ read_or_write_lem false has_thread (irp_of false user_mode pool) refl

  -- On a volume with a thread, with sectors of positive size and an offset that fits 64 bits, a
  -- READ or WRITE from user mode whose first sector lies behind the data region is blocked; any
  -- other is queued at its offset shifted by the header, so that its first LBA is the start of the
  -- data region plus the sector that the file system named.
  pub handle_filter_irp-guards :
      (is_write user_mode pool : Bool) (q : Request)
      → q.byte_offset ≡ shifted
      → let outcome =
          handle_filter_irp
            (record { volume = some v; has_thread = true })
            (record {
              major = if is_write then write else read;
              byte_offset = b;
              user_mode = user_mode;
              pool = pool;
            }) in
        (outcome ≡ (
          if leb (data_sectors v) (b / v.sector_size) && user_mode
          then blocked
          else queued is_write q.byte_offset))
        × (first_lba v q ≡ offset_sector v + b / v.sector_size)
  unfolding first_lba
  handle_filter_irp-guards true user_mode pool q e =
      (rw e (handle_filter_irp_lem true true user_mode pool), rw (e, first_sector) (omega arith))
  handle_filter_irp-guards false user_mode pool q e =
      (rw e (handle_filter_irp_lem false true user_mode pool), rw (e, first_sector) (omega arith))
