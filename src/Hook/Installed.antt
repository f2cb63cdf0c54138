-- ===== src/Hook/Installed.antt =====
-- lib/loader/src/hook/block_io.rs: installing the hooks, and then writing and reading through them.
use volumecrypt_kit.Prelude.{
  ℕ, ◌+◌, ◌*◌, ◌^◌, ◌≤◌, ◌<◌, ◌≡◌, ◌⊎◌, refl, inl, inr, ap, ◌∙◌, true, none, some, List, [],
}
use volumecrypt_kit.Prelude.Bytes.{IsSector, gather, gather_cong}
use volumecrypt_kit.Error.{VckError, ok}
use volumecrypt_kit.Device.{SectorIo, IsDevice}
use volumecrypt_kit.Cipher.{VolumeCipher, IsCipher}
use volumecrypt_kit.Hook.{
  HookGeometry, BlockIoHookEngine, BlocksFn, Hooks, Status, success, firmware, find_entry, install,
  hooked_read_blocks, hooked_write_blocks,
}
use volumecrypt_kit.Hook.Reads.{hooks, hooked_read_blocks_lem}
use volumecrypt_kit.Hook.Writes.{hooked_write_blocks_lem}
use volumecrypt_kit.Hook.Table.{entry_of, find_entry-install}

module _ {W : Type 0} {io : SectorIo W} {sector : W → ℕ → List ℕ} (dev : IsDevice io sector)
    {c : VolumeCipher} (ci : IsCipher c io.sector_size) (g : HookGeometry) (n lba : ℕ)
    (some_sectors : 0 < n) (fits : lba + n ≤ 2 ^ 64) (w : W) (new : ℕ → List ℕ)
    (new_whole : (i : ℕ) → IsSector io.sector_size (new i)) (p : ℕ) (h : Hooks)
    (free : find_entry p h.entries ≡ none) (calls : BlocksFn → SectorIo W)
    (reads : calls (h.read_blocks p) ≡ io) (writes : calls (h.write_blocks p) ≡ io) where
  abbrev pub engine : BlockIoHookEngine
  engine = hooks dev ci g n lba some_sectors fits w

  abbrev installed : Hooks
  installed = (install p (some engine) h).1

  abbrev pub wrote : Status × W
  wrote = hooked_write_blocks calls installed.entries p true lba (gather n new) w

  abbrev pub read_back : (Status × List ℕ) × W
  read_back = hooked_read_blocks calls installed.entries p true lba (n * io.sector_size) wrote.1

  -- When the hooks were installed, with an engine that has a lawful cipher, on a protocol that was
  -- not hooked and whose read and write are the firmware's: after a hooked write of some whole
  -- sectors that has succeeded, at any LBA that fits 64 bits and wherever it lies to the data
  -- region and the boundary, a hooked read of the same sectors returns what was written, or the
  -- firmware's error.
  pub hooked_read_blocks-hooked_write_blocks :
      (install p (some engine) h).0 ≡ ok tt
      → wrote.0 ≡ success
      → (read_back.0 ≡ (success, gather n new))
        ⊎ ((x : VckError) × (read_back.0 ≡ (firmware x, [])))
  hooked_read_blocks-hooked_write_blocks good done =
      let entry = entry_of p (some engine) h in
      let found = find_entry-install p (some engine) h free good in
      let written =
        hooked_write_blocks_lem dev ci g n lba some_sectors fits w new new_whole calls
          installed.entries p entry found refl writes in
      let shows =
        hooked_read_blocks_lem dev ci g n lba some_sectors fits wrote.1 calls installed.entries p
          entry found refl reads in
      elim shows.0 [
        | inl same ↦ inl (same ∙ ap (λ b. (success, b)) (gather_cong n _ new (written.inside done)))
        | inr failed ↦ inr failed
      ]
