-- ===== src/Examples/Loader.antt =====
-- The loader's hooks on the disk of `Examples.Sweep`.
use volumecrypt_kit.Prelude.{
  ℕ, ◌+◌, ◌-◌, ◌*◌, ◌≡◌, ◌⊎◌, refl, true, ◌&&◌, Option, some, none, List, [], ◌∷◌, arith, leb, ltb,
  if◌then◌else◌,
}
use volumecrypt_kit.Prelude.Bytes.{gather}
use volumecrypt_kit.Error.{VckError, ok}
use volumecrypt_kit.Plain.{plain}
use volumecrypt_kit.Pipeline.{decrypt_read}
use volumecrypt_kit.Hook.{
  HookGeometry, BlockIoHookEngine, decrypt_after_read, success, firmware, hooked_read_blocks,
  hooked_write_blocks, HookEntry, original, Hooks, no_hooks, find_entry, take_slot, install,
  write_blocks_of, write_encrypted, write_status, encrypt_before_write,
}
use volumecrypt_kit.Hook.Reads.{decrypt_after_read-decrypt_read, hooked_read_blocks_lem}
use volumecrypt_kit.Hook.Writes.{Written, hooked_write_blocks_lem}
use volumecrypt_kit.Hook.Installed.{hooked_read_blocks-hooked_write_blocks}
use volumecrypt_kit.Hook.Table.{Hooked, uninstall-install}
use volumecrypt_kit.Examples.Disk.{disk_io, at, toy_xts}
use volumecrypt_kit.Examples.Sweep.{disk, dev16, xts16, nines, nines-whole}

abbrev geometry : HookGeometry
geometry = record { offset_sector = 1; encrypted_offset = disk.saved }

abbrev loader : BlockIoHookEngine
loader = record { geometry = geometry; cipher = some toy_xts }

decrypt_after_read_example :
    decrypt_after_read loader 2 16 (gather 3 nines)
    ≡ ok (decrypt_read toy_xts 1 2 (gather 3 nines) 16)
decrypt_after_read_example =
    decrypt_after_read-decrypt_read 16 (omega arith) toy_xts geometry xts16 3 1 (omega arith) nines
      (λ i. nines-whole) (omega arith)

abbrev shows : ℕ → List ℕ
shows l = if leb 1 l && ltb (l - 1) 4 then plain toy_xts 1 2 (at 16 disk) (l - 1) else at 16 disk l

-- The one protocol with hooks, at address 5: its reads and writes go to the disk, and so do those of
-- every other pointer.
abbrev entry : HookEntry
entry = record {
  protocol = 5;
  original_read = original 5;
  original_write = original 6;
  engine = some loader;
}

abbrev table : List (Option HookEntry)
table = none ∷ some entry ∷ []

found : find_entry 5 table ≡ some entry
unfolding find_entry
found = refl

hooked_read_blocks_example :
    let r = hooked_read_blocks (λ f. disk_io 16) table 5 true 0 (3 * 16) disk in
    ((r.0 ≡ (success, gather 3 (λ i. shows (0 + i)))) ⊎ ((x : VckError) × (r.0 ≡ (firmware x, []))))
    × ((l : ℕ) → at 16 r.1 l ≡ at 16 disk l)
hooked_read_blocks_example =
    hooked_read_blocks_lem dev16 xts16 geometry 3 0 (omega arith) (omega arith) disk
      (λ f. disk_io 16) table 5 entry found refl refl

hooked_write_blocks_example :
    Written dev16 xts16 geometry 3 2
      (omega arith)
      (omega arith)
      disk
      nines
      (λ i. nines-whole)
      (hooked_write_blocks (λ f. disk_io 16) table 5 true 2 (gather 3 nines) disk)
hooked_write_blocks_example =
    hooked_write_blocks_lem dev16 xts16 geometry 3 2 (omega arith) (omega arith) disk nines
      (λ i. nines-whole) (λ f. disk_io 16) table 5 entry found refl refl

abbrev protocols : Hooks
protocols = record {
  entries = no_hooks;
  read_blocks = λ p. original p;
  write_blocks = λ p. original (p + 1);
}

unhooked : find_entry 5 no_hooks ≡ none
unfolding find_entry
unhooked = refl

uninstall-install_example :
    (((install 5 (some loader) protocols).0 ≡ ok tt)
      × Hooked 5 (some loader) protocols unhooked (install 5 (some loader) protocols).1)
    ⊎ ((install 5 (some loader) protocols).1 ≡ protocols)
uninstall-install_example = uninstall-install 5 (some loader) protocols unhooked

abbrev hooked_up : Hooks
hooked_up = (install 5 (some loader) protocols).1

installs : (install 5 (some loader) protocols).0 ≡ ok tt
unfolding install take_slot
installs = refl

writes_done :
    (hooked_write_blocks (λ f. disk_io 16) hooked_up.entries 5 true 2 (gather 3 nines) disk).0
    ≡ success
unfolding hooked_write_blocks install take_slot find_entry write_blocks_of write_encrypted
    write_status encrypt_before_write
writes_done = refl

hooked_read_blocks-hooked_write_blocks_example :
    let w =
      (hooked_write_blocks (λ f. disk_io 16) hooked_up.entries 5 true 2 (gather 3 nines) disk).1 in
    let r = (hooked_read_blocks (λ f. disk_io 16) hooked_up.entries 5 true 2 (3 * 16) w).0 in
    (r ≡ (success, gather 3 nines)) ⊎ ((x : VckError) × (r ≡ (firmware x, [])))
hooked_read_blocks-hooked_write_blocks_example =
    hooked_read_blocks-hooked_write_blocks dev16 xts16 geometry 3 2 (omega arith) (omega arith) disk
      nines (λ i. nines-whole) 5 protocols unhooked (λ f. disk_io 16) refl refl installs writes_done
