-- ===== src/Types.antt =====
-- lib/common/src/types.rs: the sweep direction, the progress record and sector ranges.
use volumecrypt_kit.Prelude.{ℕ, ◌+◌, ◌%◌, ◌^◌, Bool, ◌&&◌, ltb, leb, ◌==◌, if◌then◌else◌}

pub data VolumeState : Type 0 where
  encrypt decrypt : VolumeState

unfoldable pub as_u16 : VolumeState → ℕ
as_u16 encrypt = 0
as_u16 decrypt = 1

unfoldable pub from_u16 : ℕ → VolumeState
from_u16 v = if v == 1 then decrypt else encrypt

-- Both numbers are relative to the data region.
pub record EncryptedOffset : Type 0 where
  pub sector : ℕ
  pub total_sectors : ℕ

unfoldable pub is_encrypted : EncryptedOffset → ℕ → Bool
is_encrypted o sector = ltb sector o.sector

unfoldable pub is_fully_encrypted : EncryptedOffset → Bool
is_fully_encrypted o = leb o.total_sectors o.sector

pub record SectorRange : Type 0 where
  pub start : ℕ
  pub count : ℕ

-- `self.start + self.count` in u64
unfoldable pub end : SectorRange → ℕ
end r = (r.start + r.count) % 2 ^ 64

unfoldable pub contains : SectorRange → ℕ → Bool
unfolding end
contains r sector = leb r.start sector && ltb sector (end r)
