-- ===== src/Jvck/Replicas.antt =====
-- Writing a block to all replicas, and scanning them.
use volumecrypt_kit.Prelude.{
  ℕ, ◌+◌, ◌-◌, ◌*◌, ◌^◌, ◌≤◌, ◌<◌, ◌≡◌, ◌⊎◌, inl, inr, max, refl, sym, ap, ◌∙◌, none, some, List,
  [], ◌∷◌, ◌++◌, take, length, replicate, map, All, All-append, All-replicate, length-append,
  length-replicate, take-append_exact, take-length, arith,
}
use mathlib.Core.List.{append-nil}
use mathlib.Core.Path.{subst}
use native.Mathlib.Nat.{zero-mul}
use native.Mathlib.Decide.{dec_lt}
use volumecrypt_kit.Prelude.Bytes.{IsByte, IsSector}
use volumecrypt_kit.Error.{VckResult, ok, Result-cases}
use volumecrypt_kit.Exec.{Exec}
use volumecrypt_kit.Types.{VolumeState}
use volumecrypt_kit.Device.{SectorIo, IsDevice}
use volumecrypt_kit.Jvck.Store.{
  MetadataCodec, JvckConfig, read_block, write_block, write_replicas, block_offset, better,
  scan_replicas,
}

-- What a codec seals is a block that passes the CRC test and gives the offset back.
pub record IsCodec (codec : MetadataCodec) : Type 0 where
  pub seals :
      (offset : ℕ) (state : VolumeState) (salt block : List ℕ)
      → IsSector 16 salt
      → codec.seal offset state salt ≡ ok block
      → (length block ≡ 512) × All IsByte block
  pub verifies :
      (offset : ℕ) (state : VolumeState) (salt block : List ℕ)
      → IsSector 16 salt
      → codec.seal offset state salt ≡ ok block
      → codec.verify_crc block ≡ ok tt
  pub reads_back :
      (offset : ℕ) (state : VolumeState) (salt block : List ℕ)
      → offset < 2 ^ 64
      → IsSector 16 salt
      → codec.seal offset state salt ≡ ok block
      → codec.read_offset block ≡ ok offset

module _ {D : Type 0} {io : SectorIo D} {sector : D → ℕ → List ℕ} (dev : IsDevice io sector)
    (fits : 512 ≤ io.sector_size) where
  abbrev pub ss : ℕ
  ss = io.sector_size

  -- The sector of a block.
  abbrev pub padded : List ℕ → List ℕ
  padded block = block ++ replicate (ss - 512) 0

  module _ (block : List ℕ) (len : length block ≡ 512) (bytes : All IsByte block) where
    length-padded : length (padded block) ≡ 1 * ss
    length-padded =
        omega (
          arith,
          length-append block (replicate (ss - 512) 0),
          length-replicate {A = ℕ} (ss - 512) 0,
        )

    padded_bytes : All IsByte (padded block)
    padded_bytes = All-append IsByte block _ bytes (All-replicate IsByte (ss - 512) 0 (omega arith))

    write_block_sets :
        (lba : ℕ) (d : D)
        → (write_block io ss lba block d).0 ≡ ok tt
        → sector (write_block io ss lba block d).1 lba ≡ padded block
    unfolding write_block
    write_block_sets lba d good =
        let e : lba + 0 ≡ lba = omega arith in
        rw (e, zero-mul ss) at
          (dev.write_sets lba 1 (padded block) d 0 length-padded padded_bytes good (omega arith))
        ∙ take-length ss (padded block) (omega (arith, length-padded))

    write_block_frame :
        (lba : ℕ) (d : D) (l : ℕ)
        → (l < lba) ⊎ (lba + 1 ≤ l)
        → sector (write_block io ss lba block d).1 l ≡ sector d l
    unfolding write_block
    write_block_frame lba d l out = dev.write_frame lba 1 (padded block) d l length-padded out

    -- Sectors that are no replica are untouched, also when a write fails.
    pub write_replicas_frame :
        (lbas : List ℕ) (d : D) (l : ℕ)
        → All (λ lba. (l < lba) ⊎ (lba + 1 ≤ l)) lbas
        → sector (write_replicas io ss block lbas d).1 l ≡ sector d l
    unfolding write_replicas
    write_replicas_frame [] d l out = refl
    write_replicas_frame (lba ∷ lbas) d l (o, out) =
        elim (Result-cases (write_block io ss lba block d).0) [
          | inr (x, bad) ↦ rw bad (write_block_frame lba d l o)
          | inl (_, good) ↦ rw good (
              write_replicas_frame lbas (write_block io ss lba block d).1 l out
              ∙ write_block_frame lba d l o)
        ]

    write_none : (d : D) (l : ℕ) → sector (write_replicas io ss block [] d).1 l ≡ sector d l
    unfolding write_replicas
    write_none d l = refl

    cons_ok :
        (lba : ℕ) (lbas : List ℕ) (d : D)
        → (write_replicas io ss block (lba ∷ lbas) d).0 ≡ ok tt
        → ((write_block io ss lba block d).0 ≡ ok tt)
          × (write_replicas io ss block (lba ∷ lbas) d
              ≡ write_replicas io ss block lbas (write_block io ss lba block d).1)
    unfolding write_replicas
    cons_ok lba lbas d good = elim (Result-cases (write_block io ss lba block d).0) [
      | inr (x, bad) ↦ cc (rw bad at good)
      | inl (_, g) ↦ (g, rw g refl)
    ]

    after_write :
        (lba : ℕ) (d : D) (l : ℕ)
        → (write_block io ss lba block d).0 ≡ ok tt
        → sector d l ≡ padded block
        → sector (write_block io ss lba block d).1 l ≡ padded block
    after_write lba d l good holds = elim (dec_lt l lba) [
      | yes lt ↦ write_block_frame lba d l (inl lt) ∙ holds
      | no ge ↦ elim (dec_lt lba l) [
        | yes gt ↦ write_block_frame lba d l (inr (omega arith)) ∙ holds
        | no le ↦ let e : l ≡ lba = omega arith in rw e (write_block_sets lba d good)
      ]
    ]

    write_replicas_stays :
        (lbas : List ℕ) (d : D) (l : ℕ)
        → (write_replicas io ss block lbas d).0 ≡ ok tt
        → sector d l ≡ padded block
        → sector (write_replicas io ss block lbas d).1 l ≡ padded block
    write_replicas_stays [] d l good holds = write_none d l ∙ holds
    write_replicas_stays (lba ∷ lbas) d l good holds =
        let (g, e) = cons_ok lba lbas d good in
        rw e (
          write_replicas_stays lbas (write_block io ss lba block d).1 l (rw e at good)
            (after_write lba d l g holds))

    pub write_replicas_sets :
        (lbas : List ℕ) (d : D)
        → (write_replicas io ss block lbas d).0 ≡ ok tt
        → All (λ lba. sector (write_replicas io ss block lbas d).1 lba ≡ padded block) lbas
    write_replicas_sets [] d good = tt
    write_replicas_sets (lba ∷ lbas) d good =
        let (g, e) = cons_ok lba lbas d good in
        let d1 = (write_block io ss lba block d).1 in
        subst
          (λ (r : VckResult (Unit {0}) × D). All (λ l. sector r.1 l ≡ padded block) (lba ∷ lbas))
          (sym e)
          (
            write_replicas_stays lbas d1 lba (rw e at good) (write_block_sets lba d g),
            write_replicas_sets lbas d1 (rw e at good),
          )

-- The largest of a list of numbers and one more.
abbrev pub largest : ℕ → List ℕ → ℕ
largest b [] = b
largest b (x ∷ xs) = largest (max b x) xs

module _ {D : Type 0} {io : SectorIo D} {sector : D → ℕ → List ℕ} (dev : IsDevice io sector)
    (fits : 512 ≤ io.sector_size)
    (reads : (lba len : ℕ) (d : D) → (buf : List ℕ) × ((io.read_sectors lba len d).0 ≡ ok buf))
    {codec : MetadataCodec} (ic : IsCodec codec) (fill_random : Exec D (List ℕ)) (cfg : JvckConfig)
    (same_size : cfg.geometry.sector_size ≡ io.sector_size) where
  -- The sector holds a sealed block with that offset.
  abbrev pub Holds : D → ℕ → ℕ → Type 0
  Holds d lba offset =
      (block : List ℕ) × ((state : VolumeState) × ((salt : List ℕ) × ((offset < 2 ^ 64)
            × IsSector 16 salt
            × (codec.seal offset state salt ≡ ok block)
            × (sector d lba ≡ block ++ replicate (io.sector_size - 512) 0))))

  abbrev size : ℕ
  size = cfg.geometry.sector_size

  read_block_ok :
      (d : D) (lba : ℕ) (buf : List ℕ)
      → (io.read_sectors lba size d).0 ≡ ok buf
      → read_block io size lba d ≡ (ok (take 512 buf), (io.read_sectors lba size d).1)
  unfolding read_block
  read_block_ok d lba buf good = rw good refl

  read_gives_sector :
      (d : D) (lba : ℕ) (buf : List ℕ)
      → (io.read_sectors lba size d).0 ≡ ok buf
      → buf ≡ sector d lba
  read_gives_sector d lba buf good =
      let one : size ≡ 1 * io.sector_size = omega (arith, same_size) in
      let e : lba + 0 ≡ lba = omega arith in
      dev.read_gives lba 1 d buf (rw one at good)
      ∙ append-nil (sector d (lba + 0))
      ∙ ap (sector d) e

  block_offset_ok :
      (block : List ℕ) (offset : ℕ) (state : VolumeState) (salt : List ℕ)
      → offset < 2 ^ 64
      → IsSector 16 salt
      → codec.seal offset state salt ≡ ok block
      → block_offset io codec fill_random cfg (ok block) ≡ some offset
  unfolding block_offset
  block_offset_ok block offset state salt small whole sealed =
      rw
        (
          block_offset,
          ic.verifies offset state salt block whole sealed,
          ic.reads_back offset state salt block small whole sealed,
        )
        refl

  -- Reading back the sector of a block.
  pub read_block_padded :
      (d : D) (lba : ℕ) (block : List ℕ)
      → length block ≡ 512
      → sector d lba ≡ block ++ replicate (io.sector_size - 512) 0
      → read_block io size lba d ≡ (ok block, (io.read_sectors lba size d).1)
  read_block_padded d lba block len holds =
      let (buf, good) = reads lba size d in
      let rest = replicate (io.sector_size - 512) 0 in
      let front : take 512 buf ≡ block =
        ap (take 512) (read_gives_sector d lba buf good ∙ holds)
        ∙ take-append_exact 512 block rest len in
      rw (sym front) (read_block_ok d lba buf good)

  read_block_gives :
      (d : D) (lba offset : ℕ)
      → Holds d lba offset
      → block_offset io codec fill_random cfg (read_block io size lba d).0 ≡ some offset
  read_block_gives d lba offset (block, (state, (salt, (small, whole, sealed, holds)))) =
      rw (read_block_padded d lba block (ic.seals offset state salt block whole sealed).0 holds)
        (block_offset_ok block offset state salt small whole sealed)

  pub read_block_keeps : (d : D) (lba l : ℕ) → sector (read_block io size lba d).1 l ≡ sector d l
  read_block_keeps d lba l =
      let (buf, good) = reads lba size d in
      rw (read_block_ok d lba buf good) (dev.read_keeps lba size d l)

  -- Replicas that all hold sealed blocks, each with its offset.
  abbrev pub AllHold : D → (ℕ → ℕ) → List ℕ → Type 0
  AllHold d f lbas = All (λ lba. Holds d lba (f lba)) lbas

  AllHold-after :
      (d d' : D) (f : ℕ → ℕ) (lbas : List ℕ)
      → ((l : ℕ) → sector d' l ≡ sector d l)
      → AllHold d f lbas
      → AllHold d' f lbas
  AllHold-after d d' f [] same h = tt
  AllHold-after d d' f (lba ∷ lbas) same
        ((block, (state, (salt, (small, whole, sealed, holds)))), h) =
      (
        (block, (state, (salt, (small, whole, sealed, same lba ∙ holds)))),
        AllHold-after d d' f lbas same h,
      )

  scan_some :
      (lbas : List ℕ) (d : D) (f : ℕ → ℕ) (b : ℕ)
      → AllHold d f lbas
      → (scan_replicas io codec fill_random cfg (some b) lbas d).0 ≡ some (largest b (map f lbas))
  unfolding scan_replicas better
  scan_some [] d f b h = refl
  scan_some (lba ∷ lbas) d f b (h, hs) =
      let d1 = (read_block io size lba d).1 in
      rw (scan_replicas, read_block_gives d lba (f lba) h, better)
        (scan_some lbas d1 f (max b (f lba))
          (AllHold-after d d1 f lbas (read_block_keeps d lba) hs))

  pub scan_none :
      (lba : ℕ) (lbas : List ℕ) (d : D) (f : ℕ → ℕ)
      → AllHold d f (lba ∷ lbas)
      → (scan_replicas io codec fill_random cfg none (lba ∷ lbas) d).0
        ≡ some (largest (f lba) (map f lbas))
  unfolding scan_replicas better
  scan_none lba lbas d f (h, hs) =
      let d1 = (read_block io size lba d).1 in
      rw (scan_replicas, read_block_gives d lba (f lba) h, better)
        (scan_some lbas d1 f (f lba) (AllHold-after d d1 f lbas (read_block_keeps d lba) hs))
