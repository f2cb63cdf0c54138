-- ===== src/Jvck/Vendor/Areas.antt =====
-- lib/common/src/jvck/store.rs: the vendor areas of the replicas, beside each other and the
-- blocks.
use volumecrypt_kit.Prelude.{
  ℕ, ◌+◌, ◌-◌, ◌*◌, ◌^◌, ◌≤◌, ◌<◌, ◌≡◌, ◌⊎◌, inl, inr, some, All, All-append, arith, ltb,
  Bool-cases,
}
use native.Mathlib.Decide.{dec_lt}
use volumecrypt_kit.Error.{ok}
use volumecrypt_kit.Jvck.{
  JvckMetadataOptions, Geometry, replica_sectors, metadata_sector_lbas, vendor_data_base_lba_at,
  compute_geometry,
}
use volumecrypt_kit.Jvck.Layout.{layout, rows, All-tabulate}

-- Two places in rows of `rs` sectors, a sector and a range, that do not meet when they do not meet
-- in the same row.
apart :
    (m i rs a b n : ℕ)
    → a < rs
    → b + n ≤ rs
    → (a < b) ⊎ (b + n ≤ a)
    → (m * rs + a < i * rs + b) ⊎ (i * rs + b + n ≤ m * rs + a)
apart m i rs a b n small fits out = elim (dec_lt m i) [
  | yes lt ↦ inl (omega (arith, rows m i rs lt))
  | no ge ↦ elim (dec_lt i m) [
    | yes gt ↦ inr (omega (arith, rows i m rs gt))
    | no le ↦
        let e : m ≡ i = omega arith in
        elim out [ inl before ↦ inl (rw e (omega arith)) | inr behind ↦ inr (rw e (omega arith)) ]
  ]
]

module _ (ss volume : ℕ) (o : JvckMetadataOptions) (g : Geometry)
    (counts : o.use_header + o.use_footer < 2 ^ 32) (is : compute_geometry ss volume o ≡ ok g) where
  abbrev rs : ℕ
  rs = replica_sectors o.metadata_size ss

  abbrev footers : ℕ
  footers = volume - o.use_footer * rs

  -- A base is in a header or in a footer.
  base-cases :
      (i base : ℕ)
      → vendor_data_base_lba_at volume rs o.use_header o.use_footer i ≡ some base
      → ((i < o.use_header) × (base ≡ i * rs + 1))
        ⊎ ((o.use_header ≤ i)
            × (i < o.use_header + o.use_footer)
            × (base ≡ footers + (i - o.use_header) * rs))
  unfolding vendor_data_base_lba_at
  base-cases i base at_base = elim (Bool-cases (ltb i o.use_header)) [
    | inl header ↦ inl (ground arith, cc (rw header at at_base))
    | inr h ↦ elim (Bool-cases (ltb i (o.use_header + o.use_footer))) [
      | inl footer ↦ inr (ground arith, ground arith, cc (rw (h, footer) at at_base))
      | inr f ↦ cc (rw (h, f) at at_base)
    ]
  ]

  pub areas-apart :
      (i j base_i base_j : ℕ)
      → i < j
      → vendor_data_base_lba_at volume rs o.use_header o.use_footer i ≡ some base_i
      → vendor_data_base_lba_at volume rs o.use_header o.use_footer j ≡ some base_j
      → base_i + (rs - 1) ≤ base_j
  areas-apart i j base_i base_j lt at_i at_j =
      let l = layout ss volume o g counts is in
      elim (base-cases i base_i at_i) [
        | inl (header, e) ↦ elim (base-cases j base_j at_j) [
          | inl (_, d) ↦ omega (arith, rows i j rs lt, e, d)
          | inr (_, _, d) ↦ omega (arith, rows i o.use_header rs header, e, d, l.regions, l.offset)
        ]
        | inr (after, _, e) ↦ elim (base-cases j base_j at_j) [
          | inl (header, d) ↦ absurd (omega arith)
          | inr (_, _, d) ↦
              omega (arith, rows (i - o.use_header) (j - o.use_header) rs (omega arith), e, d)
        ]
      ]

  -- The metadata blocks stand outside the sectors `rel`, …, `rel + n - 1` of a vendor area.
  pub area-metadata :
      (i base rel n : ℕ)
      → vendor_data_base_lba_at volume rs o.use_header o.use_footer i ≡ some base
      → rel + n ≤ rs - 1
      → All
          (λ lba. (lba < base + rel) ⊎ (base + rel + n ≤ lba))
          (metadata_sector_lbas volume rs o.use_header o.use_footer)
  unfolding metadata_sector_lbas
  area-metadata i base rel n at_base room =
      let l = layout ss volume o g counts is in
      All-append _ _ _
        (All-tabulate _ o.use_header (λ m. m * rs)
          (λ m lt. elim (base-cases i base at_base) [
            | inl (header, e) ↦
                elim (apart m i rs 0 (1 + rel) n (omega arith) (omega arith) (inl (omega arith))) [
                  | inl before ↦ inl (omega arith)
                  | inr behind ↦ inr (omega arith)
                ]
            | inr (_, _, e) ↦
                inl (omega (arith, rows m o.use_header rs lt, l.regions, l.offset, l.some_replica))
          ]))
        (All-tabulate _ o.use_footer (λ m. volume - o.use_footer * rs + m * rs + rs - 1)
          (λ m lt. elim (base-cases i base at_base) [
            | inl (header, e) ↦
                inr (
                  omega (arith, rows i o.use_header rs header, l.regions, l.offset, l.some_replica))
            | inr (_, _, e) ↦
                elim (apart m (i - o.use_header) rs (rs - 1) rel n (omega (arith, l.some_replica))
                  (omega arith) (inr (omega arith))) [
                    | inl before ↦ inl (omega (arith, l.some_replica))
                    | inr behind ↦ inr (omega (arith, l.some_replica))
                  ]
          ]))
