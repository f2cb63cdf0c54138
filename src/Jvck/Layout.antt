-- ===== src/Jvck/Layout.antt =====
-- lib/common/src/jvck/options.rs and store.rs: where the replicas, the vendor areas and the
-- data region stand.
use volumecrypt_kit.Prelude.{
  ℕ, zero, suc, ◌+◌, ◌-◌, ◌*◌, ◌/◌, ◌%◌, ◌^◌, ◌≤◌, ◌<◌, ◌≡◌, ◌⊎◌, inl, inr, ap, false, some, All,
  List, [], ◌∷◌, ◌++◌, All-append, arith, ltb, leb, ◌==◌, if◌then◌else◌, Bool-cases, Option-cases,
}
use mathlib.Core.Path.{subst}
use volumecrypt_kit.Prelude.Bytes.{tabulate}
use native.Mathlib.Nat.{add-mul, mul-le-mul_right}
use volumecrypt_kit.Error.{ok, err, validation_failed}
use volumecrypt_kit.Jvck.{
  JvckMetadataOptions, replica_count, Geometry, replica_sectors, metadata_sector_lbas,
  vendor_data_base_lba_at, compute_geometry, vendor_data_lba_checked,
}

pub All-tabulate :
    (P : ℕ → Type 0) (n : ℕ) (f : ℕ → ℕ) → ((i : ℕ) → i < n → P (f i)) → All P (tabulate n f)
All-tabulate P zero f h = tt
All-tabulate P (suc n) f h =
    (h 0 (omega arith), All-tabulate P n (λ i. f (suc i)) (λ i lt. h (suc i) (omega arith)))

tabulate-All : (P : ℕ → Type 0) (n : ℕ) (f : ℕ → ℕ) (i : ℕ) → All P (tabulate n f) → i < n → P (f i)
tabulate-All P zero f i h lt = absurd (omega arith)
tabulate-All P (suc n) f zero h lt = h.0
tabulate-All P (suc n) f (suc i) h lt = tabulate-All P n (λ k. f (suc k)) i h.1 (omega arith)

All-append_right : (P : ℕ → Type 0) (xs ys : List ℕ) → All P (xs ++ ys) → All P ys
All-append_right P [] ys h = h
All-append_right P (x ∷ xs) ys h = All-append_right P xs ys h.1

pub rows : (i n rs : ℕ) → i < n → i * rs + rs ≤ n * rs
rows i n rs lt =
    let le : (i + 1) * rs ≤ n * rs = mul-le-mul_right rs (omega arith) in
    omega (arith, add-mul i 1 rs)

module _ (ss volume : ℕ) (o : JvckMetadataOptions) (g : Geometry)
    (counts : o.use_header + o.use_footer < 2 ^ 32) (is : compute_geometry ss volume o ≡ ok g) where
  abbrev rs : ℕ
  rs = replica_sectors o.metadata_size ss

  -- What the geometry says: the three regions are the volume.
  pub record IsLayout : Type 0 where
    pub offset : g.offset_sector ≡ o.use_header * rs
    pub regions : g.offset_sector + g.data_sectors + o.use_footer * rs ≡ volume
    pub some_data : 0 < g.data_sectors
    pub some_replica : 0 < rs
    pub size : g.sector_size ≡ ss
    pub block_fits : 512 ≤ ss

  abbrev found : Geometry
  found = record {
    offset_sector = o.use_header * rs;
    data_sectors = volume - replica_count o * rs;
    sector_size = ss;
  }

  accepted :
      ((ltb ss 512 ≡ false) × ((rs == 0) ≡ false) × (leb volume (replica_count o * rs) ≡ false))
      × (g ≡ found)
  unfolding compute_geometry
  accepted = elim (Bool-cases (ltb ss 512)) [
    | inl bad ↦ cc (rw bad at is)
    | inr a ↦ elim (Bool-cases (rs == 0)) [
      | inl bad ↦ cc (rw (a, bad) at is)
      | inr b ↦ elim (Bool-cases (leb volume (replica_count o * rs))) [
        | inl bad ↦ cc (rw (a, b, bad) at is)
        | inr d ↦ ((a, b, d), cc (rw (a, b, d) at is))
      ]
    ]
  ]

  consumed_lem : replica_count o * rs ≡ o.use_header * rs + o.use_footer * rs
  unfolding replica_count
  consumed_lem =
      let n : (o.use_header + o.use_footer) % 2 ^ 32 ≡ o.use_header + o.use_footer = omega arith in
      rw n (add-mul o.use_header o.use_footer rs)

  pub layout : IsLayout
  layout = record {
    offset = ap (λ (x : Geometry). x.offset_sector) accepted.1;
    regions = rw accepted.1 (ground (arith, accepted.0.2, consumed_lem));
    some_data = rw accepted.1 (ground (arith, accepted.0.2));
    some_replica = ground (arith, accepted.0.1);
    size = ap (λ (x : Geometry). x.sector_size) accepted.1;
    block_fits = ground (arith, accepted.0.0);
  }

  -- Inside the volume, and outside the data region.
  abbrev IsOutside : ℕ → Type 0
  IsOutside l = (l < volume) × ((l < g.offset_sector) ⊎ (g.offset_sector + g.data_sectors ≤ l))

  header-IsOutside : (i k : ℕ) → i < o.use_header → k < rs → IsOutside (i * rs + k)
  header-IsOutside i k lt small =
      let room : i * rs + rs ≤ o.use_header * rs = rows i o.use_header rs lt in
      (omega (arith, layout.offset, layout.regions), inl (omega (arith, layout.offset)))

  footer-IsOutside :
      (j k : ℕ) → j < o.use_footer → k < rs → IsOutside (volume - o.use_footer * rs + j * rs + k)
  footer-IsOutside j k lt small =
      let room : j * rs + rs ≤ o.use_footer * rs = rows j o.use_footer rs lt in
      (omega (arith, layout.regions), inr (omega (arith, layout.regions)))

  -- When the geometry was accepted and the replica counts add up without overflow, every metadata
  -- sector lies inside the volume and outside the data region.
  pub metadata_sector_lbas-outside :
      All
        (λ l. (l < volume) × ((l < g.offset_sector) ⊎ (g.offset_sector + g.data_sectors ≤ l)))
        (metadata_sector_lbas volume rs o.use_header o.use_footer)
  unfolding metadata_sector_lbas
  metadata_sector_lbas-outside =
      All-append IsOutside _ _
        (All-tabulate IsOutside o.use_header (λ i. i * rs)
          (λ i lt.
            let e : i * rs ≡ i * rs + 0 = omega arith in
            rw e (header-IsOutside i 0 lt layout.some_replica)))
        (All-tabulate IsOutside o.use_footer (λ j. volume - o.use_footer * rs + j * rs + rs - 1)
          (λ j lt.
            let e : volume - o.use_footer * rs + j * rs + rs - 1
                ≡ volume - o.use_footer * rs + j * rs + (rs - 1) =
              omega (arith, layout.some_replica) in
            rw e (footer-IsOutside j (rs - 1) lt (omega (arith, layout.some_replica)))))

  module _ (index rel len : ℕ) where
    -- A base of a vendor area, and how far the area goes.
    vendor-IsOutside :
        (base k : ℕ)
        → vendor_data_base_lba_at volume rs o.use_header o.use_footer index ≡ some base
        → k + 1 < rs
        → IsOutside (base + k)
    unfolding vendor_data_base_lba_at
    vendor-IsOutside base k at_base small = elim (Bool-cases (ltb index o.use_header)) [
      | inl header ↦
          let e : base ≡ index * rs + 1 = cc (rw header at at_base) in
          let d : index * rs + 1 + k ≡ index * rs + (1 + k) = omega arith in
          rw (e, d) (header-IsOutside index (1 + k) (ground arith) (omega arith))
      | inr h ↦ elim (Bool-cases (ltb index (o.use_header + o.use_footer))) [
        | inl footer ↦
            let e : base ≡ volume - o.use_footer * rs + (index - o.use_header) * rs =
              cc (rw (h, footer) at at_base) in
            rw e (footer-IsOutside (index - o.use_header) k (ground arith) (omega arith))
        | inr f ↦ cc (rw (h, f) at at_base)
      ]
    ]

    in_area :
        (lba base : ℕ)
        → (if leb (2 ^ 64) (rel + len / ss)
            then err (validation_failed "vendor data range exceeds the replica region")
            else if ltb (rs - 1) (rel + len / ss)
            then err (validation_failed "vendor data range exceeds the replica region")
            else ok (base + rel))
          ≡ ok lba
        → (lba ≡ base + rel) × (rel + len / ss ≤ rs - 1)
    in_area lba base accepts = elim (Bool-cases (leb (2 ^ 64) (rel + len / ss))) [
      | inl bad ↦ cc (rw bad at accepts)
      | inr a ↦ elim (Bool-cases (ltb (rs - 1) (rel + len / ss))) [
        | inl bad ↦ cc (rw (a, bad) at accepts)
        | inr b ↦ (cc (rw (a, b) at accepts), ground arith)
      ]
    ]

    pub vendor_accepted :
        (lba : ℕ)
        → vendor_data_lba_checked o ss volume index rel len ≡ ok lba
        → (base : ℕ) × ((vendor_data_base_lba_at volume rs o.use_header o.use_footer index
              ≡ some base)
            × ((lba ≡ base + rel) × (rel + len / ss ≤ rs - 1)))
    unfolding vendor_data_lba_checked
    vendor_accepted lba accepts = elim (Bool-cases (ss == 0)) [
      | inl bad ↦ cc (rw bad at accepts)
      | inr a ↦ elim (Bool-cases (len == 0)) [
        | inl bad ↦ cc (rw (a, bad) at accepts)
        | inr b ↦ elim (Bool-cases (ltb 0 (len % ss))) [
          | inl bad ↦ cc (rw (a, b, bad) at accepts)
          | inr d ↦
              elim (Option-cases
                (vendor_data_base_lba_at volume rs o.use_header o.use_footer index)) [
                  | inl missing ↦ cc (rw (a, b, d, missing) at accepts)
                  | inr (base, at_base) ↦
                      (base, (at_base, in_area lba base (rw (a, b, d, at_base) at accepts)))
                ]
        ]
      ]
    ]

    -- When the geometry was accepted and the replica counts add up without overflow, every sector
    -- of a vendor-data access that passes its checks lies inside the volume and outside the data
    -- region.
    pub vendor_data_lba_checked-outside :
        (lba : ℕ)
        → vendor_data_lba_checked o ss volume index rel len ≡ ok lba
        → (k : ℕ) → k < len / ss
        → (lba + k < volume)
          × ((lba + k < g.offset_sector) ⊎ (g.offset_sector + g.data_sectors ≤ lba + k))
    vendor_data_lba_checked-outside lba accepts k lt =
        let (base, (at_base, (e, room))) = vendor_accepted lba accepts in
        let d : base + rel + k ≡ base + (rel + k) = omega arith in
        rw (e, d) (vendor-IsOutside base (rel + k) at_base (omega arith))

  -- The last sector of the volume is the metadata sector of the last footer replica.
  pub last_replica :
      (P : ℕ → Type 0)
      → 1 ≤ o.use_footer
      → All P (metadata_sector_lbas volume rs o.use_header o.use_footer)
      → P (volume - 1)
  unfolding metadata_sector_lbas
  last_replica P some_footer h =
      let j = o.use_footer - 1 in
      let full : j * rs + rs ≡ o.use_footer * rs =
        let one : j + 1 ≡ o.use_footer = omega arith in
        let split : (j + 1) * rs ≡ j * rs + 1 * rs = add-mul j 1 rs in
        omega (arith, rw one at split) in
      let e : volume - o.use_footer * rs + j * rs + rs - 1 ≡ volume - 1 =
        omega (arith, layout.regions, layout.some_replica) in
      subst P e (
        tabulate-All P o.use_footer (λ i. volume - o.use_footer * rs + i * rs + rs - 1) j
          (All-append_right P (tabulate o.use_header (λ i. i * rs)) _ h) (omega arith))
