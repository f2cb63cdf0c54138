-- ===== src/Filter/Size.antt =====
-- lib/windrv/src/filter/io.rs: intercept_size_ioctl and size_ioctl_completion, from the query to its
-- answer.
use volumecrypt_kit.Prelude.{
  ℕ, zero, suc, ◌+◌, ◌*◌, ◌/◌, ap, inl, inr, ◌⊎◌, Bool, false, ◌^◌, ◌≤◌, ◌<◌, ◌≡◌, refl, ◌∙◌, sym,
  true, if◌then◌else◌, some, List, ◌++◌, take, drop, length, arith, leb, length-take, drop-drop,
  take-append_exact, drop-append_exact,
}
use native.Mathlib.Nat.{pow-suc}
use native.Mathlib.Decide.{dec_le}
use volumecrypt_kit.Xts.{to_le_bytes, from_le_bytes}
use volumecrypt_kit.Xts.Blocks.{length-to_le_bytes}
use volumecrypt_kit.Filter.{
  device_control, size_query, passed, size_field_offset, intercept_size_ioctl, bound_irp,
  handle_filter_irp, size_ioctl_completion,
}
use volumecrypt_kit.Volume.{AttachedVolume, data_sectors}

-- Reading a number back.
pub from_le_bytes-to_le_bytes : (k n : ℕ) → n < 256 ^ k → from_le_bytes (to_le_bytes k n) ≡ n
unfolding from_le_bytes to_le_bytes
from_le_bytes-to_le_bytes zero n fits = omega arith
from_le_bytes-to_le_bytes (suc k) n fits =
    omega (arith, from_le_bytes-to_le_bytes k (n / 256) (omega (arith, pow-suc 256 k)))

-- The size queries of ntdddisk.h and where in its answer each has the 64-bit length:
-- IOCTL_DISK_GET_LENGTH_INFO, IOCTL_DISK_GET_PARTITION_INFO and IOCTL_DISK_GET_PARTITION_INFO_EX.
abbrev pub HasLengthAt : ℕ → ℕ → Type 0
HasLengthAt code off =
    ((code ≡ 0x0007405C) × (off ≡ 0))
    ⊎ ((code ≡ 0x00074004) × (off ≡ 8))
    ⊎ ((code ≡ 0x00070048) × (off ≡ 16))

HasLengthAt-size_field_offset :
    (code off : ℕ) → HasLengthAt code off → size_field_offset code ≡ some off
unfolding size_field_offset
HasLengthAt-size_field_offset code off (inl (c, o)) = rw (c, o) refl
HasLengthAt-size_field_offset code off (inr (inl (c, o))) = rw (c, o) refl
HasLengthAt-size_field_offset code off (inr (inr (c, o))) = rw (c, o) refl

-- The bytes name the number in the field of 8 bytes at an offset, and are those of the buffer before
-- the field and behind it.
abbrev pub Names : ℕ → ℕ → List ℕ → List ℕ → Type 0
Names n off buf after =
    (take off after ≡ take off buf)
    × (from_le_bytes (take 8 (drop off after)) ≡ n)
    × (drop (off + 8) after ≡ drop (off + 8) buf)

module _ (code data_bytes info off : ℕ) (buf : List ℕ) (known : size_field_offset code ≡ some off)
    (room : off + 8 ≤ info) (holds : info ≤ length buf) (small : data_bytes < 2 ^ 64) where
  abbrev result : List ℕ
  result = take off buf ++ (to_le_bytes 8 data_bytes ++ drop (off + 8) buf)

  abbrev field : List ℕ
  field = to_le_bytes 8 data_bytes

  replaced : size_ioctl_completion true code data_bytes info (some buf) ≡ some result
  unfolding size_ioctl_completion
  replaced = let fits : leb (off + 8) info ≡ true = ground arith in rw (known, fits) refl

  before_lem : length (take off buf) ≡ off
  before_lem = omega (arith, length-take off buf)

  behind : drop off result ≡ field ++ drop (off + 8) buf
  behind = drop-append_exact off (take off buf) _ before_lem

  size_ioctl_completion-field :
      (after : List ℕ) × ((size_ioctl_completion true code data_bytes info (some buf) ≡ some after)
        × Names data_bytes off buf after)
  size_ioctl_completion-field = (
    result,
    (
      replaced,
      (
        take-append_exact off (take off buf) _ before_lem,
        rw
            (
              behind,
              take-append_exact 8 field (drop (off + 8) buf) (length-to_le_bytes 8 data_bytes),
            )
            (from_le_bytes-to_le_bytes 8 data_bytes small),
        sym (drop-drop 8 off result)
            ∙ rw behind
                (drop-append_exact 8 field (drop (off + 8) buf) (length-to_le_bytes 8 data_bytes)),
      ),
    ),
  )

module _ (v : AttachedVolume) (code off : ℕ) (known : HasLengthAt code off)
    (small : data_sectors v * v.sector_size < 2 ^ 64) where
  abbrev bytes : ℕ
  bytes = data_sectors v * v.sector_size

  handle_filter_irp-size_query :
      (has_thread user_mode pool : Bool) (byte_offset : ℕ)
      → handle_filter_irp
          (record { volume = some v; has_thread = has_thread })
          (record {
            major = device_control code;
            byte_offset = byte_offset;
            user_mode = user_mode;
            pool = pool;
          })
        ≡ (if pool then size_query code bytes else passed byte_offset)
  unfolding handle_filter_irp bound_irp intercept_size_ioctl
  handle_filter_irp-size_query has_thread user_mode true byte_offset =
      rw (handle_filter_irp, bound_irp, HasLengthAt-size_field_offset code off known)
        (ap (size_query code) (omega arith))
  handle_filter_irp-size_query has_thread user_mode false byte_offset =
      rw (handle_filter_irp, bound_irp, HasLengthAt-size_field_offset code off known) refl

  abbrev Answer : Bool → ℕ → List ℕ → List ℕ → Type 0
  Answer succeeded info buf after =
      ((succeeded ≡ true) × (off + 8 ≤ info) × Names bytes off buf after)
      ⊎ (((succeeded ≡ false) ⊎ (info < off + 8)) × (after ≡ buf))

  short_answer :
      (info : ℕ) (buf : List ℕ)
      → info < off + 8
      → size_ioctl_completion true code bytes info (some buf) ≡ some buf
  unfolding size_ioctl_completion
  short_answer info buf short =
      let no_room : leb (off + 8) info ≡ false = ground arith in
      rw (HasLengthAt-size_field_offset code off known, no_room) refl

  answer :
      (succeeded : Bool) (info : ℕ) (buf : List ℕ)
      → info ≤ length buf
      → (after : List ℕ) × ((size_ioctl_completion succeeded code bytes info (some buf)
            ≡ some after)
          × Answer succeeded info buf after)
  unfolding size_ioctl_completion
  answer false info buf holds = (buf, (refl, inr (inl refl, refl)))
  answer true info buf holds = elim (dec_le (off + 8) info) [
    | yes room ↦
        let (after, (is, names)) =
          size_ioctl_completion-field code bytes info off buf
            (HasLengthAt-size_field_offset code off known) room holds small in
        (after, (is, inl (refl, room, names)))
    | no short ↦ (buf, (short_answer info buf (omega arith), inr (inr (omega arith), refl)))
  ]

  -- On a volume whose data region has fewer than 2^64 bytes, each of the three size queries, at the
  -- offset that ntdddisk.h gives its 64-bit length, is intercepted with the size of the data region
  -- in bytes, or goes to the lower device as it is when there is no memory for its context; and for
  -- an answer whose byte count its buffer holds, either the query has succeeded, the count covers
  -- the field, and the field then reads as that size with the bytes before and behind it as they
  -- were, or the query has failed or the count does not cover the field, and the buffer is as it
  -- was.
  pub size_ioctl_completion-handle_filter_irp :
      (has_thread user_mode pool succeeded : Bool) (byte_offset info : ℕ) (buf : List ℕ)
      → info ≤ length buf
      → (handle_filter_irp
            (record { volume = some v; has_thread = has_thread })
            (record {
              major = device_control code;
              byte_offset = byte_offset;
              user_mode = user_mode;
              pool = pool;
            })
          ≡ (if pool then size_query code bytes else passed byte_offset))
        × ((after : List ℕ) × ((size_ioctl_completion succeeded code bytes info (some buf)
                ≡ some after)
              × Answer succeeded info buf after))
  size_ioctl_completion-handle_filter_irp has_thread user_mode pool succeeded byte_offset info buf
        holds =
      (
        handle_filter_irp-size_query has_thread user_mode pool byte_offset,
        answer succeeded info buf holds,
      )
