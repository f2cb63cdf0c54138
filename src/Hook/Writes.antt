-- ===== src/Hook/Writes.antt =====
-- lib/loader/src/hook/block_io.rs: the write hook.
use volumecrypt_kit.Prelude.{
  ℕ, ◌+◌, ◌-◌, ◌*◌, ◌^◌, ◌≤◌, ◌<◌, ◌≡◌, ◌⊎◌, inl, inr, refl, sym, ap, ◌∙◌, Bool, true, false,
  Option, some, List, arith, ◌==◌, length,
}
use volumecrypt_kit.Prelude.Bytes.{IsSector, gather, length-gather, All-gather, slice-gather}
use volumecrypt_kit.Error.{VckError, VckResult, ok, err}
use volumecrypt_kit.Types.{is_encrypted}
use volumecrypt_kit.Device.{SectorIo, IsDevice}
use volumecrypt_kit.Cipher.{VolumeCipher, IsCipher}
use volumecrypt_kit.Hook.{
  HookGeometry, BlockIoHookEngine, hook_sector, encrypt_before_write, Status, success, firmware,
  HookEntry, BlocksFn, find_entry, write_blocks_of, write_encrypted, write_status,
  hooked_write_blocks,
}
use volumecrypt_kit.Hook.Reads.{
  encrypt_before_write-gather, hook_sector-shown, whole_size, length-gather_lem, shown, hooks,
}

module _ {W : Type 0} {io : SectorIo W} {sector : W → ℕ → List ℕ} (dev : IsDevice io sector)
    {c : VolumeCipher} (ci : IsCipher c io.sector_size) (g : HookGeometry) (n lba : ℕ)
    (some_sectors : 0 < n) (fits : lba + n ≤ 2 ^ 64) (w : W) (new : ℕ → List ℕ)
    (new_whole : (i : ℕ) → IsSector io.sector_size (new i)) where
  open g use {offset_sector as offset}
  open g.encrypted_offset use {sector as boundary, total_sectors as total}

  abbrev stored : ℕ → List ℕ
  stored i = hook_sector g c.encrypt_sector (lba + i) (new i)

  hook_sector-cases :
      (l : ℕ) (s : List ℕ) (each : ℕ → List ℕ → List ℕ)
      → (hook_sector g each l s ≡ s) ⊎ (hook_sector g each l s ≡ each (l - offset) s)
  unfolding hook_sector is_encrypted
  hook_sector-cases l s each = ground arith

  hook_sector-inverse :
      (l : ℕ) (s : List ℕ)
      → IsSector io.sector_size s
      → hook_sector g c.decrypt_sector l (hook_sector g c.encrypt_sector l s) ≡ s
  unfolding hook_sector is_encrypted
  hook_sector-inverse l s whole = ground (arith, ci.decrypt-encrypt (l - offset) s whole)

  stored_whole : (i : ℕ) → IsSector io.sector_size (stored i)
  stored_whole i = elim (hook_sector-cases (lba + i) (new i) c.encrypt_sector) [
    | inl plain ↦ rw plain (new_whole i)
    | inr crypted ↦ rw crypted (ci.encrypt_whole _ (new i) (new_whole i))
  ]

  -- What a WRITE leaves: its sectors show what was written if it succeeds, and others are the same.
  pub record Written (r : Status × W) : Type 0 where
    pub shows : (r.0 ≡ success) ⊎ ((x : VckError) × (r.0 ≡ firmware x))
    pub inside :
        r.0 ≡ success
        → (i : ℕ) → i < n
        → shown dev ci g n lba some_sectors fits w (sector r.1) (lba + i) ≡ new i
    pub outside : (l : ℕ) → (l < lba) ⊎ (lba + n ≤ l) → sector r.1 l ≡ sector w l

  abbrev here : BlockIoHookEngine
  here = hooks dev ci g n lba some_sectors fits w

  length-stored : length (gather n stored) ≡ n * io.sector_size
  length-stored = length-gather io.sector_size n stored stored_whole

  abbrev wrote : VckResult (Unit {0}) × W
  wrote = io.write_sectors lba (gather n stored) w

  shows_new :
      wrote.0 ≡ ok tt
      → (i : ℕ) → i < n
      → shown dev ci g n lba some_sectors fits w (sector wrote.1) (lba + i) ≡ new i
  shows_new good i lt =
      sym (hook_sector-shown dev ci g n lba some_sectors fits w (sector wrote.1) (lba + i))
      ∙ ap (hook_sector g c.decrypt_sector (lba + i)) (
          dev.write_sets lba n (gather n stored) w i length-stored
            (All-gather io.sector_size n stored stored_whole) good lt
          ∙ slice-gather io.sector_size n i stored stored_whole lt)
      ∙ hook_sector-inverse (lba + i) (new i) (new_whole i)

  write_status_lem : (r : VckResult (Unit {0})) → wrote.0 ≡ r → Written (write_status io r, wrote.1)
  unfolding write_status
  write_status_lem (ok _) is = record {
    shows = inl refl;
    inside = λ _ i lt. shows_new is i lt;
    outside = λ l out. dev.write_frame lba n (gather n stored) w l length-stored out;
  }
  write_status_lem (err x) is = record {
    shows = inr (x, refl);
    inside = λ s. cc s;
    outside = λ l out. dev.write_frame lba n (gather n stored) w l length-stored out;
  }

  write_encrypted_lem : Written (write_encrypted io lba (ok (gather n stored)) w)
  unfolding write_encrypted
  write_encrypted_lem = write_status_lem wrote.0 refl

  write_blocks_of-full :
      (buf : List ℕ)
      → (length buf == 0) ≡ false
      → write_blocks_of io true (some here) lba buf w
        ≡ write_encrypted io lba (encrypt_before_write here lba io.sector_size buf) w
  unfolding write_blocks_of
  write_blocks_of-full buf some_bytes =
      rw (some_bytes, whole_size dev ci g n lba some_sectors fits w) refl

  write_blocks_of_lem : Written (write_blocks_of io true (some here) lba (gather n new) w)
  write_blocks_of_lem =
      rw
        (
          write_blocks_of-full (gather n new)
              (length-gather_lem dev ci g n lba some_sectors fits w new new_whole),
          encrypt_before_write-gather io.sector_size dev.size_pos c g n lba fits new new_whole,
        )
        write_encrypted_lem

  hooked_write_blocks-found :
      (calls : BlocksFn → SectorIo W) (entries : List (Option HookEntry)) (this : ℕ) (e : HookEntry)
      (present : Bool) (buf : List ℕ)
      → find_entry this entries ≡ some e
      → hooked_write_blocks calls entries this present lba buf w
        ≡ write_blocks_of (calls e.original_write) present e.engine lba buf w
  unfolding hooked_write_blocks
  hooked_write_blocks-found calls entries this e present buf found =
      rw (hooked_write_blocks, found) refl

  -- When the table has an entry for the protocol, with an engine and a saved write that is the
  -- firmware's, a hooked write of some whole sectors, at any LBA that fits 64 bits, succeeds or
  -- returns the firmware's error; when it succeeds, its sectors are shown as what was written, and
  -- on both paths the other sectors of the disk are as they were.
  pub hooked_write_blocks_lem :
      (calls : BlocksFn → SectorIo W) (entries : List (Option HookEntry)) (this : ℕ) (e : HookEntry)
      → find_entry this entries ≡ some e
      → e.engine ≡ some here
      → calls e.original_write ≡ io
      → Written (hooked_write_blocks calls entries this true lba (gather n new) w)
  hooked_write_blocks_lem calls entries this e found keyed writes =
      rw (hooked_write_blocks-found calls entries this e true (gather n new) found, keyed, writes)
        write_blocks_of_lem
