-- ===== src/Hook/Reads.antt =====
-- lib/loader/src/hook/block_io.rs: the read hook, and the driver's own read.
use volumecrypt_kit.Prelude.{
  ℕ, zero, suc, ◌+◌, ◌-◌, ◌*◌, ◌%◌, ◌^◌, ◌≤◌, ◌<◌, ◌≡◌, ◌⊎◌, inl, inr, refl, sym, ap, ◌∙◌, true,
  false, ◌&&◌, Bool, Option, some, List, [], ◌++◌, arith, ltb, leb, ◌==◌, if◌then◌else◌, Bool-cases,
  length,
}
use mathlib.Core.Path.{ap₂}
use volumecrypt_kit.Prelude.Bytes.{
  IsSector, gather, gather_cong, tabulate, chunks-gather, length-gather,
}
use volumecrypt_kit.Error.{VckError, VckResult, ok, err}
use volumecrypt_kit.Types.{is_encrypted}
use volumecrypt_kit.Device.{SectorIo, IsDevice}
use volumecrypt_kit.Cipher.{VolumeCipher, IsCipher}
use volumecrypt_kit.Plain.{plain, plain_at}
use volumecrypt_kit.Pipeline.{decrypt_read, decrypt_read-gather}
use native.Mathlib.Nat.{mul-pos}
use native.Mathlib.Decide.{dec_lt}
use volumecrypt_kit.Hook.{
  HookGeometry, BlockIoHookEngine, hook_sector, hook_sectors, decrypt_after_read,
  encrypt_before_write, success, firmware, HookEntry, BlocksFn, find_entry, finish_blocks,
  decrypted, hooked_read_blocks,
}

hook_sectors-tabulate :
    (g : HookGeometry) (each : ℕ → List ℕ → List ℕ) (n lba i : ℕ) (f : ℕ → List ℕ)
    → lba + i + n ≤ 2 ^ 64
    → hook_sectors g each lba i (tabulate n f)
      ≡ gather n (λ j. hook_sector g each (lba + (i + j)) (f j))
unfolding hook_sectors
hook_sectors-tabulate g each zero lba i f fits = refl
hook_sectors-tabulate g each (suc n) lba i f fits =
    ap₂ (λ (a b : List ℕ). a ++ b)
      (ap (λ (l : ℕ). hook_sector g each l (f 0))
        (let e : (lba + i) % 2 ^ 64 ≡ lba + (i + 0) = omega arith in e))
      (hook_sectors-tabulate g each n lba (suc i) (λ j. f (suc j)) (omega arith)
        ∙ gather_cong n _ _ (λ j lt.
          ap (λ (l : ℕ). hook_sector g each l (f (suc j)))
            (let e : lba + (suc i + j) ≡ lba + (i + suc j) = omega arith in e)))

module _ (ss : ℕ) (pos : 0 < ss) (c : VolumeCipher) (g : HookGeometry) where
  open g use {offset_sector as offset}
  open g.encrypted_offset use {sector as boundary, total_sectors as total}

  abbrev pub engine : BlockIoHookEngine
  engine = record { geometry = g; cipher = some c }

  module _ (n lba : ℕ) (fits : lba + n ≤ 2 ^ 64) (f : ℕ → List ℕ)
      (whole : (i : ℕ) → IsSector ss (f i)) where
    abbrev pub each_sector : (ℕ → List ℕ → List ℕ) → List ℕ
    each_sector each = gather n (λ i. hook_sector g each (lba + i) (f i))

    hook_sectors-gather :
        (each : ℕ → List ℕ → List ℕ) → hook_sectors g each lba 0 (tabulate n f) ≡ each_sector each
    hook_sectors-gather each =
        hook_sectors-tabulate g each n lba 0 f (omega arith)
        ∙ gather_cong n _ _ (λ j lt.
          ap (λ (l : ℕ). hook_sector g each l (f j))
            (let e : lba + (0 + j) ≡ lba + j = omega arith in e))

    decrypt_after_read-gather :
        decrypt_after_read engine lba ss (gather n f) ≡ ok (each_sector c.decrypt_sector)
    unfolding decrypt_after_read
    decrypt_after_read-gather =
        let some_size : (ss == 0) ≡ false = ground arith in
        rw (some_size, chunks-gather ss n f whole pos)
          (ap ok (hook_sectors-gather c.decrypt_sector))

    pub encrypt_before_write-gather :
        encrypt_before_write engine lba ss (gather n f) ≡ ok (each_sector c.encrypt_sector)
    unfolding encrypt_before_write
    encrypt_before_write-gather =
        let some_size : (ss == 0) ≡ false = ground arith in
        rw (some_size, chunks-gather ss n f whole pos)
          (ap ok (hook_sectors-gather c.encrypt_sector))

  -- From a sector of the data region on, with LBAs that fit 64 bits and a boundary within the
  -- region, the loader's hook decrypts a buffer of whole sectors to what the driver's pipeline
  -- makes of it.
  pub decrypt_after_read-decrypt_read :
      (ci : IsCipher c ss) (n rel : ℕ) (fits : offset + rel + n ≤ 2 ^ 64) (f : ℕ → List ℕ)
      (whole : (i : ℕ) → IsSector ss (f i))
      → boundary ≤ total
      → decrypt_after_read engine (offset + rel) ss (gather n f)
        ≡ ok (decrypt_read c rel boundary (gather n f) ss)
  unfolding hook_sector is_encrypted
  decrypt_after_read-decrypt_read ci n rel fits f whole le =
      decrypt_after_read-gather n (offset + rel) fits f whole
      ∙ ap ok (
          gather_cong n _ _ (λ i lt.
            let e : offset + rel + i - offset ≡ rel + i = omega arith in
            let reaches : leb offset (offset + rel + i) ≡ true = ground arith in
            rw (reaches, e) (ground arith))
          ∙ sym (decrypt_read-gather c ss ci rel boundary n f whole pos))

module _ {W : Type 0} {io : SectorIo W} {sector : W → ℕ → List ℕ} (dev : IsDevice io sector)
    {c : VolumeCipher} (ci : IsCipher c io.sector_size) (g : HookGeometry) (n lba : ℕ)
    (some_sectors : 0 < n) (fits : lba + n ≤ 2 ^ 64) (w : W) where
  open g use {offset_sector as offset}
  open g.encrypted_offset use {sector as boundary, total_sectors as total}

  -- What the loader shows of the sector at an LBA: its plaintext in the data region, and what the
  -- disk holds elsewhere.
  abbrev pub shown : (ℕ → List ℕ) → ℕ → List ℕ
  shown disk l =
      if leb offset l && ltb (l - offset) total
      then plain c offset boundary disk (l - offset)
      else disk l

  pub hook_sector-shown :
      (disk : ℕ → List ℕ) (l : ℕ) → hook_sector g c.decrypt_sector l (disk l) ≡ shown disk l
  unfolding hook_sector is_encrypted
  hook_sector-shown disk l = elim (Bool-cases (leb offset l)) [
    | inr before ↦ rw before refl
    | inl reaches ↦
        let e : l ≡ offset + (l - offset) = ground arith in
        elim (dec_lt (l - offset) total) [
          | yes lt ↦
              let t : leb total (l - offset) ≡ false = ground arith in
              let u : ltb (l - offset) total ≡ true = ground arith in
              rw (reaches, t, u) (plain_at c offset boundary disk (l - offset) l e)
          | no ge ↦
              let t : leb total (l - offset) ≡ true = ground arith in
              let u : ltb (l - offset) total ≡ false = ground arith in rw (reaches, t, u) refl
        ]
  ]

  abbrev pub hooks : BlockIoHookEngine
  hooks = engine io.sector_size dev.size_pos c g

  pub whole_size : (io.sector_size == 0) ≡ false
  whole_size = ground (arith, dev.size_pos)

  pub length-gather_lem :
      (f : ℕ → List ℕ)
      → ((i : ℕ) → IsSector io.sector_size (f i))
      → (length (gather n f) == 0) ≡ false
  length-gather_lem f whole =
      ground (arith, length-gather io.sector_size n f whole, mul-pos some_sectors dev.size_pos)

  finish_blocks-err :
      (x : VckError) → finish_blocks io true (some hooks) lba (err x) ≡ (firmware x, [])
  unfolding finish_blocks
  finish_blocks-err x = refl

  finish_blocks-ok :
      (buf : List ℕ)
      → (length buf == 0) ≡ false
      → finish_blocks io true (some hooks) lba (ok buf)
        ≡ decrypted (decrypt_after_read hooks lba io.sector_size buf)
  unfolding finish_blocks
  finish_blocks-ok buf some_bytes = rw (some_bytes, whole_size) refl

  abbrev onto : ℕ → List ℕ
  onto i = sector w (lba + i)

  finish_blocks_lem :
      (r : VckResult (List ℕ))
      → ((buf : List ℕ) → r ≡ ok buf → buf ≡ gather n onto)
      → (finish_blocks io true (some hooks) lba r
          ≡ (success, gather n (λ i. shown (sector w) (lba + i))))
        ⊎ ((x : VckError) × (finish_blocks io true (some hooks) lba r ≡ (firmware x, [])))
  unfolding decrypted
  finish_blocks_lem (err x) gives = inr (x, finish_blocks-err x)
  finish_blocks_lem (ok buf) gives = inl (
      ap (λ b. finish_blocks io true (some hooks) lba (ok b)) (gives buf refl)
      ∙ finish_blocks-ok (gather n onto) (length-gather_lem onto (λ i. dev.whole w (lba + i)))
      ∙ ap decrypted (
          decrypt_after_read-gather io.sector_size dev.size_pos c g n lba fits onto
            (λ i. dev.whole w (lba + i)))
      ∙ ap (λ b. (success, b))
          (gather_cong n _ (λ i. shown (sector w) (lba + i))
            (λ i lt. hook_sector-shown (sector w) (lba + i))))

  hooked_read_blocks-found :
      (calls : BlocksFn → SectorIo W) (entries : List (Option HookEntry)) (this : ℕ) (e : HookEntry)
      (present : Bool) (len : ℕ)
      → find_entry this entries ≡ some e
      → hooked_read_blocks calls entries this present lba len w
        ≡ let (r, w') = (calls e.original_read).read_sectors lba len w in
          (finish_blocks (calls e.original_read) present e.engine lba r, w')
  unfolding hooked_read_blocks
  hooked_read_blocks-found calls entries this e present len found =
      rw (hooked_read_blocks, found) refl

  -- When the table has an entry for the protocol, with an engine and a saved read that is the
  -- firmware's, a hooked read of some whole sectors, at any LBA that fits 64 bits, returns the
  -- plaintext of the sectors in the data region and the others as the disk holds them, or the
  -- firmware's error; the disk is as it was.
  pub hooked_read_blocks_lem :
      (calls : BlocksFn → SectorIo W) (entries : List (Option HookEntry)) (this : ℕ) (e : HookEntry)
      → find_entry this entries ≡ some e
      → e.engine ≡ some hooks
      → calls e.original_read ≡ io
      → let r = hooked_read_blocks calls entries this true lba (n * io.sector_size) w in
        ((r.0 ≡ (success, gather n (λ i. shown (sector w) (lba + i))))
          ⊎ ((x : VckError) × (r.0 ≡ (firmware x, []))))
        × ((l : ℕ) → sector r.1 l ≡ sector w l)
  hooked_read_blocks_lem calls entries this e found keyed reads =
      rw
        (
          hooked_read_blocks-found calls entries this e true (n * io.sector_size) found,
          keyed,
          reads,
        )
        (
          finish_blocks_lem (io.read_sectors lba (n * io.sector_size) w).0 (dev.read_gives lba n w),
          dev.read_keeps lba (n * io.sector_size) w,
        )
