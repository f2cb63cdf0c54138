-- ===== src/Hook.antt =====
-- lib/loader/src/hook: the boot loader's hooks on a Block IO protocol. The calls of a
-- function pointer are a `SectorIo`, whose sector size is the block size of the media, and a protocol
-- is its address.
pub mod Reads
pub mod Writes
pub mod Table
pub mod Installed
use volumecrypt_kit.Prelude.{
  ℕ, zero, suc, ◌+◌, ◌-◌, ◌%◌, ◌^◌, Bool, true, false, not, ◌&&◌, ◌||◌, Option, none, some, List,
  [], ◌∷◌, ◌++◌, replicate, length, ltb, leb, ◌==◌, if◌then◌else◌,
}
use volumecrypt_kit.Prelude.Bytes.{chunks}
use volumecrypt_kit.Error.{VckError, VckResult, ok, err}
use volumecrypt_kit.Types.{EncryptedOffset, is_encrypted}
use volumecrypt_kit.Device.{SectorIo}
use volumecrypt_kit.Cipher.{VolumeCipher}

pub record HookGeometry : Type 0 where
  pub offset_sector : ℕ
  pub encrypted_offset : EncryptedOffset

-- `cipher` is what the supplier gives.
pub record BlockIoHookEngine : Type 0 where
  pub geometry : HookGeometry
  pub cipher : Option VolumeCipher

-- The body of the loops: a sector before the region, behind it, or at or above the boundary stays.
unfoldable pub hook_sector : HookGeometry → (ℕ → List ℕ → List ℕ) → ℕ → List ℕ → List ℕ
unfolding is_encrypted
hook_sector g each abs sector =
    if leb g.offset_sector abs
    then (if leb g.encrypted_offset.total_sectors (abs - g.offset_sector)
        then sector
        else if is_encrypted g.encrypted_offset (abs - g.offset_sector)
        then each (abs - g.offset_sector) sector
        else sector)
    else sector

-- `for (i, sector) in buf.chunks_mut(sector_size).enumerate()`
unfoldable pub hook_sectors : HookGeometry → (ℕ → List ℕ → List ℕ) → ℕ → ℕ → List (List ℕ) → List ℕ
unfolding hook_sector
hook_sectors g each lba i [] = []
hook_sectors g each lba i (s ∷ ss) =
    hook_sector g each ((lba + i) % 2 ^ 64) s ++ hook_sectors g each lba (suc i) ss

unfoldable pub decrypt_after_read : BlockIoHookEngine → ℕ → ℕ → List ℕ → VckResult (List ℕ)
unfolding hook_sectors
decrypt_after_read e lba sector_size buf = if sector_size == 0 then ok buf else elim e.cipher [
  | none ↦ ok buf
  | some c ↦ ok (hook_sectors e.geometry c.decrypt_sector lba 0 (chunks sector_size buf))
]

unfoldable pub encrypt_before_write : BlockIoHookEngine → ℕ → ℕ → List ℕ → VckResult (List ℕ)
unfolding hook_sectors
encrypt_before_write e lba sector_size buf = if sector_size == 0 then ok buf else elim e.cipher [
  | none ↦ ok buf
  | some c ↦ ok (hook_sectors e.geometry c.encrypt_sector lba 0 (chunks sector_size buf))
]

-- The status of a call: SUCCESS, DEVICE_ERROR, or the firmware's error.
pub data Status : Type 0 where
  success device_error : Status
  firmware : VckError → Status

unfoldable pub decrypted : VckResult (List ℕ) → Status × List ℕ
decrypted (ok buf) = (success, buf)
decrypted (err _) = (device_error, [])

-- A function pointer of a protocol: one of the firmware's, or the hook.
pub data BlocksFn : Type 0 where
  original : ℕ → BlocksFn
  hooked : BlocksFn

-- `engine` is `none` for a null pointer.
pub record HookEntry : Type 0 where
  pub protocol : ℕ
  pub original_read : BlocksFn
  pub original_write : BlocksFn
  pub engine : Option BlockIoHookEngine

unfoldable pub find_entry : ℕ → List (Option HookEntry) → Option HookEntry
find_entry p [] = none
find_entry p (none ∷ es) = find_entry p es
find_entry p (some e ∷ es) = if e.protocol == p then some e else find_entry p es

module _ {W : Type 0} (io : SectorIo W) where
  -- After the firmware's read. `present` is whether neither the media nor the buffer is a null
  -- pointer.
  unfoldable pub finish_blocks :
      Bool → Option BlockIoHookEngine → ℕ → VckResult (List ℕ) → Status × List ℕ
  unfolding decrypted decrypt_after_read
  finish_blocks present engine lba (err x) = (firmware x, [])
  finish_blocks present engine lba (ok buf) =
      if not present || (length buf == 0 || io.sector_size == 0)
      then (success, buf)
      else elim engine [
        | none ↦ (success, buf)
        | some e ↦ decrypted (decrypt_after_read e lba io.sector_size buf)
      ]

  unfoldable pub write_status : VckResult (Unit {0}) → Status
  write_status (ok _) = success
  write_status (err x) = firmware x

  unfoldable pub write_encrypted : ℕ → VckResult (List ℕ) → W → Status × W
  unfolding write_status
  write_encrypted lba (err _) w = (device_error, w)
  write_encrypted lba (ok buf) w = let (r, w') = io.write_sectors lba buf w in (write_status r, w')

  unfoldable pub write_blocks_of : Bool → Option BlockIoHookEngine → ℕ → List ℕ → W → Status × W
  unfolding write_encrypted encrypt_before_write
  write_blocks_of present engine lba buf w =
      if not present || (length buf == 0 || io.sector_size == 0)
      then write_encrypted lba (ok buf) w
      else elim engine [
        | none ↦ write_encrypted lba (ok buf) w
        | some e ↦ write_encrypted lba (encrypt_before_write e lba io.sector_size buf) w
      ]

-- `calls` is what a function pointer does when it is called.
module _ {W : Type 0} (calls : BlocksFn → SectorIo W) where
  unfoldable pub hooked_read_blocks :
      List (Option HookEntry) → ℕ → Bool → ℕ → ℕ → W → (Status × List ℕ) × W
  unfolding finish_blocks find_entry
  hooked_read_blocks entries this present lba len w = elim (find_entry this entries) [
    | none ↦ ((device_error, []), w)
    | some e ↦
        let (r, w') = (calls e.original_read).read_sectors lba len w in
        (finish_blocks (calls e.original_read) present e.engine lba r, w')
  ]

  unfoldable pub hooked_write_blocks :
      List (Option HookEntry) → ℕ → Bool → ℕ → List ℕ → W → Status × W
  unfolding write_blocks_of find_entry
  hooked_write_blocks entries this present lba buf w = elim (find_entry this entries) [
    | none ↦ (device_error, w)
    | some e ↦ write_blocks_of (calls e.original_write) present e.engine lba buf w
  ]

-- The table of hooks, and the read and write pointers of each protocol.
pub record Hooks : Type 0 where
  pub entries : List (Option HookEntry)
  pub read_blocks : ℕ → BlocksFn
  pub write_blocks : ℕ → BlocksFn

abbrev pub no_hooks : List (Option HookEntry)
no_hooks = replicate 8 none

abbrev pub put : ℕ → BlocksFn → (ℕ → BlocksFn) → ℕ → BlocksFn
put p f fs q = if q == p then f else fs q

-- The first free slot, taken; `none` when the table is full.
unfoldable pub take_slot : HookEntry → List (Option HookEntry) → Option (List (Option HookEntry))
take_slot new [] = none
take_slot new (none ∷ es) = some (some new ∷ es)
take_slot new (some e ∷ es) = elim (take_slot new es) [
  | none ↦ none
  | some es' ↦ some (some e ∷ es')
]

unfoldable pub install : ℕ → Option BlockIoHookEngine → Hooks → VckResult (Unit {0}) × Hooks
unfolding take_slot
install p engine h =
    elim (take_slot
      (record {
        protocol = p;
        original_read = h.read_blocks p;
        original_write = h.write_blocks p;
        engine = engine;
      })
      h.entries) [
        | none ↦ (err (VckError.io "Block IO hook table is full"), h)
        | some es ↦ (
          ok tt,
          record {
            entries = es;
            read_blocks = put p hooked h.read_blocks;
            write_blocks = put p hooked h.write_blocks;
          },
        )
      ]

unfoldable pub clear_entries : ℕ → List (Option HookEntry) → List (Option HookEntry)
clear_entries p [] = []
clear_entries p (none ∷ es) = none ∷ clear_entries p es
clear_entries p (some e ∷ es) = (if e.protocol == p then none else some e) ∷ clear_entries p es

unfoldable pub uninstall : ℕ → Hooks → Hooks
unfolding find_entry clear_entries
uninstall p h = elim (find_entry p h.entries) [
  | none ↦ h
  | some e ↦ record {
    entries = clear_entries p h.entries;
    read_blocks = put p e.original_read h.read_blocks;
    write_blocks = put p e.original_write h.write_blocks;
  }
]
