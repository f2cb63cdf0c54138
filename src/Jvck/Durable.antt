-- ===== src/Jvck/Durable.antt =====
-- lib/common/src/jvck/store.rs: the JVCK store as the offset store of the sweep.
use volumecrypt_kit.Prelude.{
  ℕ, ◌+◌, ◌^◌, ◌≤◌, ◌<◌, ◌≡◌, ◌⊎◌, inl, inr, max, refl, sym, ap, ◌∙◌, List, [], ◌∷◌, map, All,
  length, arith,
}
use mathlib.Core.Path.{subst}
use volumecrypt_kit.Prelude.Bytes.{IsByte, IsSector}
use volumecrypt_kit.Error.{ok, Result-cases}
use volumecrypt_kit.Exec.{Exec}
use volumecrypt_kit.Types.{VolumeState, EncryptedOffset, as_u16, from_u16}
use volumecrypt_kit.Device.{SectorIo, IsDevice, KeepsData}
use volumecrypt_kit.Jvck.{compute_geometry}
use volumecrypt_kit.Jvck.Layout.{layout, metadata_sector_lbas-outside}
use volumecrypt_kit.Jvck.Store.{
  MetadataCodec, JvckFields, JvckConfig, replica_lbas, write_replicas, write_all_replicas,
  load_offset, jvck_load, jvck_store, jvck_load_state, jvck_store_state, jvck_offset_store,
}
use volumecrypt_kit.Jvck.Replicas.{
  IsCodec, padded, write_replicas_frame, write_replicas_sets, AllHold, scan_none, largest,
}

-- The configuration is what the geometry of a device of that size gives.
pub record IsConfig (ss : ℕ) (cfg : JvckConfig) : Type 0 where
  pub accepted : compute_geometry ss cfg.volume_sectors cfg.options ≡ ok cfg.geometry
  pub counts : cfg.options.use_header + cfg.options.use_footer < 2 ^ 32

module _ {D : Type 0} {io : SectorIo D} {sector : D → ℕ → List ℕ} (dev : IsDevice io sector)
    {codec : MetadataCodec} (ic : IsCodec codec) (fill_random : Exec D (List ℕ))
    (random_keeps : (d : D) (l : ℕ) → sector (fill_random d).1 l ≡ sector d l)
    (random_whole : (d : D) (salt : List ℕ) → (fill_random d).0 ≡ ok salt → IsSector 16 salt)
    (cfg : JvckConfig) (config : IsConfig io.sector_size cfg) where
  pub size_lem : cfg.geometry.sector_size ≡ io.sector_size
  size_lem =
      (layout io.sector_size cfg.volume_sectors cfg.options cfg.geometry config.counts
        config.accepted).size

  pub fits_lem : 512 ≤ io.sector_size
  fits_lem =
      (layout io.sector_size cfg.volume_sectors cfg.options cfg.geometry config.counts
        config.accepted).block_fits

  away :
      (lbas : List ℕ) (rel : ℕ)
      → rel < cfg.geometry.data_sectors
      → All
          (λ l.
            (l < cfg.volume_sectors)
            × ((l < cfg.geometry.offset_sector)
                ⊎ (cfg.geometry.offset_sector + cfg.geometry.data_sectors ≤ l)))
          lbas
      → All
          (λ lba.
            (cfg.geometry.offset_sector + rel < lba) ⊎ (lba + 1 ≤ cfg.geometry.offset_sector + rel))
          lbas
  away [] rel lt h = tt
  away (l ∷ lbas) rel lt ((_, inl below), h) = (inr (omega arith), away lbas rel lt h)
  away (l ∷ lbas) rel lt ((_, inr above), h) = (inl (omega arith), away lbas rel lt h)

  pub replicas_away :
      (rel : ℕ)
      → rel < cfg.geometry.data_sectors
      → All
          (λ lba.
            (cfg.geometry.offset_sector + rel < lba) ⊎ (lba + 1 ≤ cfg.geometry.offset_sector + rel))
          (replica_lbas cfg)
  unfolding replica_lbas
  replicas_away rel lt = rw size_lem (
      away _ rel lt (
        metadata_sector_lbas-outside io.sector_size cfg.volume_sectors cfg.options cfg.geometry
          config.counts config.accepted))

  abbrev stored_size : ℕ
  stored_size = cfg.geometry.sector_size

  replicas_frame :
      (block : List ℕ)
      → length block ≡ 512
      → All IsByte block
      → (d : D) (rel : ℕ) → rel < cfg.geometry.data_sectors
      → sector
          (write_replicas io stored_size block (replica_lbas cfg) d).1
          (cfg.geometry.offset_sector + rel)
        ≡ sector d (cfg.geometry.offset_sector + rel)
  replicas_frame block len bytes d rel lt =
      subst
        (λ (k : ℕ).
          sector (write_replicas io k block (replica_lbas cfg) d).1
            (cfg.geometry.offset_sector + rel)
          ≡ sector d (cfg.geometry.offset_sector + rel))
        (sym size_lem)
        (write_replicas_frame dev fits_lem block len bytes (replica_lbas cfg) d _
          (replicas_away rel lt))

  write_all_keeps :
      (s : JvckFields) (d : D) (rel : ℕ)
      → rel < cfg.geometry.data_sectors
      → sector
          (write_all_replicas io codec fill_random cfg (s, d)).1.1
          (cfg.geometry.offset_sector + rel)
        ≡ sector d (cfg.geometry.offset_sector + rel)
  unfolding write_all_replicas
  write_all_keeps s d rel lt =
      let l = cfg.geometry.offset_sector + rel in
      elim (Result-cases (fill_random d).0) [
        | inr (x, bad) ↦ rw bad (random_keeps d l)
        | inl (salt, good) ↦
            rw good (elim (Result-cases (codec.seal s.offset (from_u16 s.state) salt)) [
              | inr (x, bad) ↦ rw bad (random_keeps d l)
              | inl (block, sealed) ↦
                  let (len, bytes) =
                    ic.seals s.offset (from_u16 s.state) salt block (random_whole d salt good)
                      sealed in
                  rw sealed
                    (replicas_frame block len bytes (fill_random d).1 rel lt ∙ random_keeps d l)
            ])
      ]

  -- When the geometry was accepted and the replica counts add up without overflow, and random salts
  -- have 16 bytes and leave the disk alone, no operation of the JVCK store changes a sector of the
  -- data region, on success and on failure.
  pub jvck_offset_store-KeepsData :
      KeepsData
        (jvck_offset_store io codec fill_random cfg)
        (λ (w : JvckFields × D). sector w.1)
        cfg.geometry.offset_sector
        cfg.geometry.data_sectors
  unfolding jvck_store jvck_store_state jvck_load_state
  jvck_offset_store-KeepsData = record {
    store_keeps = λ o w rel lt. write_all_keeps (record (w.0) { offset = o.sector }) w.1 rel lt;
    flush_keeps = λ w l. refl;
    load_state_keeps = λ w l. refl;
    store_state_keeps =
        λ v w rel lt. write_all_keeps (record (w.0) { state = as_u16 v }) w.1 rel lt;
  }

  module _
      (reads : (lba len : ℕ) (d : D) → (buf : List ℕ) × ((io.read_sectors lba len d).0 ≡ ok buf))
      (first : ℕ) (others : List ℕ) (is_replicas : replica_lbas cfg ≡ first ∷ others) where
    abbrev HoldsAll : D → (ℕ → ℕ) → List ℕ → Type 0
    HoldsAll = AllHold dev fits_lem reads ic fill_random cfg size_lem

    -- With an accepted geometry, at least one replica, a lawful codec and reads that succeed: when
    -- every replica holds a sealed block, of whatever offset, `load_offset` returns the largest of
    -- these offsets.
    pub load_offset-largest :
        (d : D) (f : ℕ → ℕ)
        → HoldsAll d f (first ∷ others)
        → (load_offset io codec fill_random cfg d).0 ≡ ok (largest (f first) (map f others))
    unfolding load_offset
    load_offset-largest d f h =
        rw
          (is_replicas, scan_none dev fits_lem reads ic fill_random cfg size_lem first others d f h)
          refl

    pub holds_of :
        (block : List ℕ) (offset : ℕ) (state : VolumeState) (salt : List ℕ)
        → offset < 2 ^ 64
        → IsSector 16 salt
        → codec.seal offset state salt ≡ ok block
        → (d : D) (lbas : List ℕ) → All (λ lba. sector d lba ≡ padded dev fits_lem block) lbas
        → HoldsAll d (λ _. offset) lbas
    holds_of block offset state salt small whole sealed d [] h = tt
    holds_of block offset state salt small whole sealed d (l ∷ lbas) (h, hs) = (
      (block, (state, (salt, (small, whole, sealed, h)))),
      holds_of block offset state salt small whole sealed d lbas hs,
    )

    sets-All :
        (block : List ℕ)
        → length block ≡ 512
        → All IsByte block
        → (d : D) → (write_replicas io stored_size block (replica_lbas cfg) d).0 ≡ ok tt
        → All
            (λ lba.
              sector (write_replicas io stored_size block (replica_lbas cfg) d).1 lba
              ≡ padded dev fits_lem block)
            (replica_lbas cfg)
    sets-All block len bytes d =
        subst
          (λ (k : ℕ).
            (write_replicas io k block (replica_lbas cfg) d).0 ≡ ok tt
            → All
                (λ lba.
                  sector (write_replicas io k block (replica_lbas cfg) d).1 lba
                  ≡ padded dev fits_lem block)
                (replica_lbas cfg))
          (sym size_lem) (write_replicas_sets dev fits_lem block len bytes (replica_lbas cfg) d)

    -- A successful write leaves one sealed block in every replica.
    pub stored_block :
        (s : JvckFields) (d : D)
        → (write_all_replicas io codec fill_random cfg (s, d)).0 ≡ ok tt
        → (salt : List ℕ) × ((block : List ℕ) × IsSector 16 salt
            × (codec.seal s.offset (from_u16 s.state) salt ≡ ok block)
            × All
                (λ lba.
                  sector (write_all_replicas io codec fill_random cfg (s, d)).1.1 lba
                  ≡ padded dev fits_lem block)
                (replica_lbas cfg))
    unfolding write_all_replicas
    stored_block s d good = elim (Result-cases (fill_random d).0) [
      | inr (x, bad) ↦ cc (rw bad at good)
      | inl (salt, r) ↦ elim (Result-cases (codec.seal s.offset (from_u16 s.state) salt)) [
        | inr (x, bad) ↦ cc (rw (r, bad) at good)
        | inl (block, sealed) ↦
            let whole = random_whole d salt r in
            let (len, bytes) = ic.seals s.offset (from_u16 s.state) salt block whole sealed in
            (
              salt,
              (
                block,
                whole,
                sealed,
                rw (r, sealed)
                    (sets-All block len bytes (fill_random d).1 (rw (r, sealed) at good)),
              ),
            )
      ]
    ]

    stored_holds :
        (s : JvckFields) (d : D)
        → s.offset < 2 ^ 64
        → (write_all_replicas io codec fill_random cfg (s, d)).0 ≡ ok tt
        → HoldsAll
            (write_all_replicas io codec fill_random cfg (s, d)).1.1
            (λ _. s.offset)
            (replica_lbas cfg)
    stored_holds s d small good =
        let (salt, (block, whole, sealed, sets)) = stored_block s d good in
        holds_of block s.offset (from_u16 s.state) salt small whole sealed _ (replica_lbas cfg) sets

    largest-same : (b : ℕ) (xs : List ℕ) → largest b (map (λ _. b) xs) ≡ b
    largest-same b [] = refl
    largest-same b (x ∷ xs) =
        let e : max b b ≡ b = omega arith in
        ap (λ (m : ℕ). largest m (map (λ _. b) xs)) e ∙ largest-same b xs

    pub load_offset-same :
        (d : D) (o : ℕ)
        → HoldsAll d (λ _. o) (replica_lbas cfg)
        → (load_offset io codec fill_random cfg d).0 ≡ ok o
    load_offset-same d o h =
        load_offset-largest d (λ _. o) (rw is_replicas at h) ∙ ap ok (largest-same o others)

    load_after :
        (s : JvckFields) (d : D) (o : ℕ)
        → HoldsAll d (λ _. o) (replica_lbas cfg)
        → (jvck_load io codec fill_random cfg (s, d)).0
          ≡ ok (record { sector = o; total_sectors = cfg.geometry.data_sectors })
    unfolding jvck_load
    load_after s d o h = rw (load_offset-same d o h) refl

    -- With an accepted geometry, at least one replica, random salts of 16 bytes, a codec whose
    -- sealed blocks pass the CRC test and give their offset back, and reads that succeed: when a
    -- store of a progress record of this region has succeeded, loading returns that record.
    pub jvck_load-jvck_store :
        (o : EncryptedOffset) (w : JvckFields × D)
        → o.sector < 2 ^ 64
        → o.total_sectors ≡ cfg.geometry.data_sectors
        → (jvck_store io codec fill_random cfg o w).0 ≡ ok tt
        → (jvck_load io codec fill_random cfg (jvck_store io codec fill_random cfg o w).1).0 ≡ ok o
    unfolding jvck_store
    jvck_load-jvck_store o w small total good =
        load_after _ _ o.sector (stored_holds (record (w.0) { offset = o.sector }) w.1 small good)
        ∙ ap (λ (t : ℕ). ok (record { sector = o.sector; total_sectors = t })) (sym total)
