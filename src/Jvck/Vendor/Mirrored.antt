-- ===== src/Jvck/Vendor/Mirrored.antt =====
-- Vendor data that was written to every replica.
use volumecrypt_kit.Prelude.{
  ℕ, zero, suc, ◌+◌, ◌-◌, ◌*◌, ◌/◌, ◌%◌, ◌^◌, ◌≤◌, ◌<◌, ◌≡◌, ◌⊎◌, inl, inr, sym, ap, ◌∙◌, refl,
  some, List, [], ◌∷◌, ◌++◌, All, All-imp, length, take, drop, length-drop, take-append-drop,
  drop-drop, arith, ltb, ◌==◌, Bool-cases,
}
use native.Mathlib.Decide.{dec_lt}
use native.Mathlib.Omega.{div_any}
use native.Mathlib.Nat.{mul_comm, zero-mul}
use volumecrypt_kit.Prelude.Bytes.{IsByte, gather, gather_cong}
use volumecrypt_kit.Error.{VckError, ok, err, Result-cases}
use volumecrypt_kit.Device.{SectorIo, IsDevice}
use volumecrypt_kit.Jvck.{
  JvckMetadataOptions, replica_count, replica_sectors, vendor_data_base_lba_at,
  vendor_data_lba_checked,
}
use volumecrypt_kit.Jvck.Layout.{layout, vendor_accepted, vendor_data_lba_checked-outside}
use volumecrypt_kit.Jvck.Store.{JvckConfig, replica_lbas}
use volumecrypt_kit.Jvck.Durable.{IsConfig}
use volumecrypt_kit.Jvck.Vendor.{
  vendor_lba, read_vendor_data, write_vendor_data, write_vendor_each, write_vendor_data_all,
}
use volumecrypt_kit.Jvck.Vendor.Areas.{areas-apart, area-metadata}

-- A checked length is a number of sectors.
vendor_whole :
    (ss len : ℕ) (o : JvckMetadataOptions) (volume i rel lba : ℕ)
    → vendor_data_lba_checked o ss volume i rel len ≡ ok lba
    → len ≡ len / ss * ss
unfolding vendor_data_lba_checked
vendor_whole ss len o volume i rel lba accepts = elim (Bool-cases (ss == 0)) [
  | inl bad ↦ cc (rw bad at accepts)
  | inr a ↦ elim (Bool-cases (len == 0)) [
    | inl bad ↦ cc (rw (a, bad) at accepts)
    | inr b ↦ elim (Bool-cases (ltb 0 (len % ss))) [
      | inl bad ↦ cc (rw (a, b, bad) at accepts)
      | inr d ↦
          let none_left : len % ss ≡ 0 = ground arith in
          omega (arith, div_any len ss, mul_comm ss (len / ss))
    ]
  ]
]

All-swap :
    {I : Type 0} (Q : I → ℕ → Type 0) (xs : List ℕ)
    → ((i : I) → All (Q i) xs)
    → All (λ x. (i : I) → Q i x) xs
All-swap Q [] h = tt
All-swap Q (x ∷ xs) h = (λ i. (h i).0, All-swap Q xs (λ i. (h i).1))

-- A buffer is the sectors that it is cut into.
gather-take-drop :
    (ss n : ℕ) (buf : List ℕ)
    → length buf ≡ n * ss
    → gather n (λ k. take ss (drop (k * ss) buf)) ≡ buf
gather-take-drop ss zero [] len = refl
gather-take-drop ss zero (x ∷ buf) len = absurd (omega (arith, len, zero-mul ss))
gather-take-drop ss (suc n) buf len = rw (zero-mul ss) (
    ap (λ r. take ss buf ++ r)
      (gather_cong n (λ k. take ss (drop (suc k * ss) buf))
          (λ k. take ss (drop (k * ss) (drop ss buf)))
          (λ k _. ap (take ss) (
            ap (λ m. drop m buf) (let e : suc k * ss ≡ ss + k * ss = omega arith in e)
            ∙ sym (drop-drop (k * ss) ss buf)))
        ∙ gather-take-drop ss n (drop ss buf) (omega (arith, len, length-drop ss buf)))
    ∙ take-append-drop ss buf)

module _ {D : Type 0} {io : SectorIo D} {sector : D → ℕ → List ℕ} (dev : IsDevice io sector)
    (cfg : JvckConfig) (config : IsConfig io.sector_size cfg) (rel : ℕ) (buf : List ℕ) where
  abbrev ss : ℕ
  ss = io.sector_size

  abbrev rs : ℕ
  rs = replica_sectors cfg.options.metadata_size ss

  abbrev n : ℕ
  n = length buf / ss

  -- The sector `l` is not one of a replica's range.
  abbrev Away : ℕ → ℕ → Type 0
  Away lba l = (l < lba) ⊎ (lba + n ≤ l)

  size : cfg.geometry.sector_size ≡ ss
  size = (layout ss cfg.volume_sectors cfg.options cfg.geometry config.counts config.accepted).size

  -- A checked access of one replica: where it is, and that its length is a number of sectors.
  record IsArea (i lba : ℕ) : Type 0 where
    base : ℕ
    at_base :
        vendor_data_base_lba_at cfg.volume_sectors rs cfg.options.use_header cfg.options.use_footer
          i
        ≡ some base
    lba_lem : lba ≡ base + rel
    room : rel + n ≤ rs - 1

  vendor_lba-checked :
      (i : ℕ)
      → vendor_lba io cfg i rel (length buf)
        ≡ vendor_data_lba_checked cfg.options ss cfg.volume_sectors i rel (length buf)
  unfolding vendor_lba
  vendor_lba-checked i =
      ap (λ s. vendor_data_lba_checked cfg.options s cfg.volume_sectors i rel (length buf)) size

  vendor_lba-IsArea : (i lba : ℕ) → vendor_lba io cfg i rel (length buf) ≡ ok lba → IsArea i lba
  vendor_lba-IsArea i lba accepts =
      let (base, (at_base, (e, room))) =
        vendor_accepted ss cfg.volume_sectors cfg.options cfg.geometry config.counts config.accepted
          i rel (length buf) lba (sym (vendor_lba-checked i) ∙ accepts) in
      record { base = base; at_base = at_base; lba_lem = e; room = room }

  whole_sectors : (i lba : ℕ) → vendor_lba io cfg i rel (length buf) ≡ ok lba → length buf ≡ n * ss
  whole_sectors i lba accepts =
      vendor_whole ss (length buf) cfg.options cfg.volume_sectors i rel lba
        (sym (vendor_lba-checked i) ∙ accepts)

  write-frame :
      (i : ℕ) (d : D) (l : ℕ)
      → ((lba : ℕ) → vendor_lba io cfg i rel (length buf) ≡ ok lba → Away lba l)
      → sector (write_vendor_data io cfg i rel buf d).1 l ≡ sector d l
  unfolding write_vendor_data
  write-frame i d l away = elim (Result-cases (vendor_lba io cfg i rel (length buf))) [
    | inr (e, bad) ↦ rw bad refl
    | inl (lba, good) ↦
        rw good (dev.write_frame lba n buf d l (whole_sectors i lba good) (away lba good))
  ]

  each-frame :
      (count i : ℕ) (d : D) (l : ℕ)
      → ((j lba : ℕ) → i ≤ j → vendor_lba io cfg j rel (length buf) ≡ ok lba → Away lba l)
      → sector (write_vendor_each io cfg rel buf count i d).1 l ≡ sector d l
  unfolding write_vendor_each
  each-frame zero i d l away = refl
  each-frame (suc count) i d l away =
      let here = write-frame i d l (λ lba accepts. away i lba (omega arith) accepts) in
      elim (Result-cases (write_vendor_data io cfg i rel buf d).0) [
        | inr (e, bad) ↦ rw bad here
        | inl (_, good) ↦ rw good (
            each-frame count (suc i) (write_vendor_data io cfg i rel buf d).1 l
              (λ j lba le accepts. away j lba (omega arith) accepts)
            ∙ here)
      ]

  all-frame :
      (d : D) (l : ℕ)
      → ((j lba : ℕ) → vendor_lba io cfg j rel (length buf) ≡ ok lba → Away lba l)
      → sector (write_vendor_data_all io cfg rel buf d).1 l ≡ sector d l
  unfolding write_vendor_data_all
  all-frame d l away = elim (Result-cases (vendor_lba io cfg 0 rel (length buf))) [
    | inr (e, bad) ↦ rw bad refl
    | inl (lba, good) ↦
        rw good
          (each-frame (replica_count cfg.options) 0 d l (λ j lba _ accepts. away j lba accepts))
  ]

  data-Away :
      (r j lba : ℕ)
      → r < cfg.geometry.data_sectors
      → vendor_lba io cfg j rel (length buf) ≡ ok lba
      → Away lba (cfg.geometry.offset_sector + r)
  data-Away r j lba lt accepts =
      let place = cfg.geometry.offset_sector + r in
      elim (dec_lt place lba) [
        | yes before ↦ inl before
        | no behind ↦ elim (dec_lt place (lba + n)) [
          | no past ↦ inr (omega arith)
          | yes inside ↦
              let (_, out) =
                vendor_data_lba_checked-outside ss cfg.volume_sectors cfg.options cfg.geometry
                  config.counts config.accepted j rel (length buf) lba
                  (sym (vendor_lba-checked j) ∙ accepts) (place - lba) (omega arith) in
              absurd (elim out [ inl below ↦ omega arith | inr above ↦ omega arith ])
        ]
      ]

  metadata-Away :
      (j lba : ℕ)
      → vendor_lba io cfg j rel (length buf) ≡ ok lba
      → All (λ l. Away lba l) (replica_lbas cfg)
  unfolding replica_lbas
  metadata-Away j lba accepts =
      let a = vendor_lba-IsArea j lba accepts in
      rw (size, a.lba_lem)
        (area-metadata ss cfg.volume_sectors cfg.options cfg.geometry config.counts config.accepted
          j a.base rel n a.at_base a.room)

  others-Away :
      (i j lba_i lba_j k : ℕ)
      → i < j
      → vendor_lba io cfg i rel (length buf) ≡ ok lba_i
      → vendor_lba io cfg j rel (length buf) ≡ ok lba_j
      → k < n
      → Away lba_j (lba_i + k)
  others-Away i j lba_i lba_j k lt at_i at_j small =
      let a = vendor_lba-IsArea i lba_i at_i in
      let b = vendor_lba-IsArea j lba_j at_j in
      inl (
        omega (
          arith,
          a.lba_lem,
          b.lba_lem,
          a.room,
          areas-apart ss cfg.volume_sectors cfg.options cfg.geometry config.counts config.accepted i
              j a.base b.base lt a.at_base b.at_base,
        ))

  module _ (bytes : All IsByte buf) where
    write-sets :
        (i : ℕ) (d : D)
        → (write_vendor_data io cfg i rel buf d).0 ≡ ok tt
        → (lba : ℕ) × (vendor_lba io cfg i rel (length buf) ≡ ok lba)
          × ((k : ℕ)
              → k < n
              → sector (write_vendor_data io cfg i rel buf d).1 (lba + k)
                ≡ take ss (drop (k * ss) buf))
    unfolding write_vendor_data
    write-sets i d good = elim (Result-cases (vendor_lba io cfg i rel (length buf))) [
      | inr (e, bad) ↦ cc (rw bad at good)
      | inl (lba, is) ↦ (
        lba,
        is,
        λ k lt.
            rw is (dev.write_sets lba n buf d k (whole_sectors i lba is) bytes (rw is at good) lt),
      )
    ]

    each-sets :
        (count i : ℕ) (d : D)
        → (write_vendor_each io cfg rel buf count i d).0 ≡ ok tt
        → (j : ℕ) → i ≤ j
        → j < i + count
        → (lba : ℕ) × (vendor_lba io cfg j rel (length buf) ≡ ok lba)
          × ((k : ℕ)
              → k < n
              → sector (write_vendor_each io cfg rel buf count i d).1 (lba + k)
                ≡ take ss (drop (k * ss) buf))
    unfolding write_vendor_each
    each-sets zero i d good j le lt = absurd (omega arith)
    each-sets (suc count) i d good j le lt =
        let d1 = (write_vendor_data io cfg i rel buf d).1 in
        elim (Result-cases (write_vendor_data io cfg i rel buf d).0) [
          | inr (e, bad) ↦ cc (rw bad at good)
          | inl (_, here) ↦ elim (dec_lt i j) [
            | yes later ↦
                let (lba, is, sets) =
                  each-sets count (suc i) d1 (rw here at good) j (omega arith) (omega arith) in
                (lba, is, λ k small. rw here (sets k small))
            | no now ↦
                let e : j ≡ i = omega arith in
                let (lba, is, sets) = write-sets i d here in
                (
                  lba,
                  rw e is,
                  λ k small. rw here (
                      each-frame count (suc i) d1 (lba + k) (λ j' lba' le' accepts.
                        others-Away i j' lba lba' k (omega arith) is accepts small)
                      ∙ sets k small),
                )
          ]
        ]

    read_lem :
        ((lba len : ℕ) (d : D) → (out : List ℕ) × ((io.read_sectors lba len d).0 ≡ ok out))
        → (d : D) (j lba : ℕ) → vendor_lba io cfg j rel (length buf) ≡ ok lba
        → ((k : ℕ) → k < n → sector d (lba + k) ≡ take ss (drop (k * ss) buf))
        → (read_vendor_data io cfg j rel (length buf) d).0 ≡ ok buf
    unfolding read_vendor_data
    read_lem reads d j lba is sets =
        let whole = whole_sectors j lba is in
        let (out, read) = reads lba (length buf) d in
        let same : out ≡ buf =
          dev.read_gives lba n d out (ap (λ len. (io.read_sectors lba len d).0) (sym whole) ∙ read)
          ∙ gather_cong n (λ k. sector d (lba + k)) (λ k. take ss (drop (k * ss) buf)) sets
          ∙ gather-take-drop ss n buf whole in
        rw is (read ∙ ap ok same)

    reads_back :
        ((lba len : ℕ) (d : D) → (out : List ℕ) × ((io.read_sectors lba len d).0 ≡ ok out))
        → (d : D) (j : ℕ) → j < cfg.options.use_header + cfg.options.use_footer
        → (write_vendor_data_all io cfg rel buf d).0 ≡ ok tt
        → (read_vendor_data io cfg j rel (length buf) (write_vendor_data_all io cfg rel buf d).1).0
          ≡ ok buf
    unfolding write_vendor_data_all read_vendor_data replica_count
    reads_back reads d j is_replica good =
        let same : (cfg.options.use_header + cfg.options.use_footer) % 2 ^ 32
            ≡ cfg.options.use_header + cfg.options.use_footer =
          omega (arith, config.counts) in
        elim (Result-cases (vendor_lba io cfg 0 rel (length buf))) [
          | inr (e, bad) ↦ cc (rw bad at good)
          | inl (first, checked) ↦
              let (lba, is, sets) =
                each-sets (replica_count cfg.options) 0 d (rw checked at good) j (omega arith)
                  (omega (arith, same)) in
              rw checked (
                read_lem reads (write_vendor_each io cfg rel buf (replica_count cfg.options) 0 d).1
                  j lba is sets)
        ]

    -- With an accepted geometry and replica counts that add up without overflow, over a device that
    -- meets its laws and whose reads succeed: whatever write_vendor_data_all is given and however
    -- it ends, every sector of the data region and every metadata block is as it was; and it ends
    -- in an error, or every replica of the volume gives the written buffer back.
    pub read_vendor_data-write_vendor_data_all :
        ((lba len : ℕ) (d : D) → (out : List ℕ) × ((io.read_sectors lba len d).0 ≡ ok out))
        → (d : D) (j r : ℕ) → j < cfg.options.use_header + cfg.options.use_footer
        → r < cfg.geometry.data_sectors
        → (let (w, d') = write_vendor_data_all io cfg rel buf d in
            (sector d' (cfg.geometry.offset_sector + r) ≡ sector d (cfg.geometry.offset_sector + r))
            × All (λ l. sector d' l ≡ sector d l) (replica_lbas cfg)
            × (((e : VckError) × (w ≡ err e))
                ⊎ ((w ≡ ok tt) × ((read_vendor_data io cfg j rel (length buf) d').0 ≡ ok buf))))
    read_vendor_data-write_vendor_data_all reads d j r is_replica is_data = (
      all-frame d (cfg.geometry.offset_sector + r)
          (λ j' lba accepts. data-Away r j' lba is_data accepts),
      All-imp _ _ (λ l away. all-frame d l (λ j' lba accepts. away (j', lba, accepts)))
          (replica_lbas cfg)
          (All-swap
            (λ (access : (j' : ℕ) × (lba : ℕ) × (vendor_lba io cfg j' rel (length buf) ≡ ok lba)) l.
              Away access.1 l)
            (replica_lbas cfg) (λ access. metadata-Away access.0 access.1 access.2)),
      elim (Result-cases (write_vendor_data_all io cfg rel buf d).0) [
        | inr failed ↦ inl failed
        | inl (_, good) ↦ inr (good, reads_back reads d j is_replica good)
      ],
    )
