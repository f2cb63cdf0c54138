-- ===== src/Prepare/Replicas.antt =====
-- lib/windrv/src/ioctl/dispatch.rs: the LBAs that PREPARE writes, beside those of the JVCK
-- layout.
use volumecrypt_kit.Prelude.{
  ℕ, zero, suc, ◌+◌, ◌-◌, ◌*◌, ◌^◌, ◌≤◌, ◌<◌, ◌≡◌, min, inl, inr, refl, ap, List, [], ◌∷◌, ◌++◌,
  take-length, ltb, false, replicate, length, arith,
}
use volumecrypt_kit.Prelude.Bytes.{tabulate}
use volumecrypt_kit.Error.{ok, Result-cases}
use volumecrypt_kit.Device.{SectorIo}
use volumecrypt_kit.Jvck.{
  JvckMetadataOptions, Geometry, compute_geometry, replica_sectors, metadata_sector_lbas,
}
use volumecrypt_kit.Jvck.Layout.{layout, rows}
use volumecrypt_kit.Jvck.Store.{write_replicas, write_block}
use volumecrypt_kit.Prepare.{
  write_metadata, sub64, prepare_lbas, prepare_data_sectors, sector_buf, write_lbas,
}

tabulate_cong : (n : ℕ) (f g : ℕ → ℕ) → ((i : ℕ) → i < n → f i ≡ g i) → tabulate n f ≡ tabulate n g
tabulate_cong zero f g h = refl
tabulate_cong (suc n) f g h = rw (
  h 0 (omega arith),
  tabulate_cong n (λ i. f (suc i)) (λ i. g (suc i)) (λ i lt. h (suc i) (omega arith)),
)

module _ (ss total : ℕ) (o : JvckMetadataOptions) (g : Geometry)
    (counts : o.use_header + o.use_footer < 2 ^ 32) (is : compute_geometry ss total o ≡ ok g)
    (total_fits : total < 2 ^ 64) where
  abbrev rs : ℕ
  rs = replica_sectors o.metadata_size ss

  pub prepare_lbas_lem :
      prepare_lbas total rs o.use_header o.use_footer
      ≡ metadata_sector_lbas total rs o.use_header o.use_footer
  unfolding prepare_lbas metadata_sector_lbas sub64
  prepare_lbas_lem =
      let l = layout ss total o g counts is in
      ap (λ footers. tabulate o.use_header (λ i. i * rs) ++ footers)
        (tabulate_cong o.use_footer (λ j. sub64 (sub64 total (o.use_footer * rs) + j * rs + rs) 1)
          (λ j. total - o.use_footer * rs + j * rs + rs - 1)
          (λ j lt.
            let room : j * rs + rs ≤ o.use_footer * rs = rows j o.use_footer rs lt in
            let start : sub64 total (o.use_footer * rs) ≡ total - o.use_footer * rs =
              omega (arith, l.regions) in
            rw start (omega (arith, room, l.regions, l.some_replica))))

  pub prepare_data_sectors_lem :
      prepare_data_sectors total rs o.use_header o.use_footer ≡ g.data_sectors
  unfolding prepare_data_sectors
  prepare_data_sectors_lem =
      let l = layout ss total o g counts is in omega (arith, l.regions, l.offset)

sector_buf_lem :
    (ss : ℕ) (block : List ℕ)
    → 512 ≤ ss
    → length block ≡ 512
    → sector_buf ss block ≡ block ++ replicate (ss - 512) 0
unfolding sector_buf
sector_buf_lem ss block fits len =
    let e : min 512 ss ≡ 512 = omega arith in rw (e, take-length 512 block (omega arith)) refl

pub write_lbas-write_replicas :
    {D : Type 0} (io : SectorIo D) (ss : ℕ) (block lbas : List ℕ) (d : D)
    → write_lbas io (block ++ replicate (ss - 512) 0) lbas d ≡ write_replicas io ss block lbas d
unfolding write_lbas write_replicas write_block
write_lbas-write_replicas io ss block [] d = refl
write_lbas-write_replicas io ss block (lba ∷ lbas) d =
    let r = io.write_sectors lba (block ++ replicate (ss - 512) 0) d in
    elim (Result-cases r.0) [
      | inr (e, bad) ↦ rw bad refl
      | inl (_, good) ↦ rw good (write_lbas-write_replicas io ss block lbas r.1)
    ]

pub write_metadata-write_replicas :
    {D : Type 0} (io : SectorIo D) (ss : ℕ) (block lbas : List ℕ) (d : D)
    → 512 ≤ ss
    → length block ≡ 512
    → write_metadata io ss block lbas d ≡ write_replicas io ss block lbas d
unfolding write_metadata
write_metadata-write_replicas io ss [] lbas d fits len = absurd (omega arith)
write_metadata-write_replicas io ss (b ∷ block) lbas d fits len =
    let enough : ltb (length (b ∷ block)) 512 ≡ false = ground (arith, len) in
    rw (write_metadata, enough, sector_buf_lem ss (b ∷ block) fits len)
      (write_lbas-write_replicas io ss (b ∷ block) lbas d)
