-- ===== src/Jvck/Open/Created.antt =====
-- Opening a volume that was just created.
use volumecrypt_kit.Prelude.{
  ℕ, inl, inr, ◌%◌, ◌^◌, ◌≤◌, ◌<◌, ◌≡◌, refl, sym, ap, ◌∙◌, List, ◌∷◌, arith,
}
use volumecrypt_kit.Prelude.Bytes.{IsSector}
use volumecrypt_kit.Prelude.Fields.{zeros, zeros_lem}
use volumecrypt_kit.Error.{ok, Result-cases, ok-injective}
use volumecrypt_kit.Exec.{Exec}
use volumecrypt_kit.Types.{as_u16, from_u16}
use volumecrypt_kit.Device.{SectorIo, IsDevice}
use volumecrypt_kit.Jvck.{compute_geometry, validate, JvckMetadataOptions, Geometry}
use volumecrypt_kit.Jvck.Metadata.{Crypto, JvckSecrets}
use volumecrypt_kit.Jvck.Metadata.Block.{IsSecrets}
use volumecrypt_kit.Jvck.Metadata.RoundTrip.{IsCrypto}
use volumecrypt_kit.Jvck.Store.{replica_lbas}
use volumecrypt_kit.Jvck.Codec.{jvck_cbc_codec}
use volumecrypt_kit.Jvck.Reader.{options_of}
use volumecrypt_kit.Jvck.Open.Opened.{IsStore, open_store-write_store}
use volumecrypt_kit.Jvck.Open.{JvckMetadataStore, open_store, write_store, created, create}

small_mod : (n : ℕ) → n < 256 → n % 256 ≡ n
small_mod n lt = omega arith

module _ {D : Type 0} {io : SectorIo D} {sector : D → ℕ → List ℕ} (dev : IsDevice io sector)
    {crypto : Crypto} (ic : IsCrypto crypto) (fill_random : Exec D (List ℕ))
    (random_keeps : (d : D) (l : ℕ) → sector (fill_random d).1 l ≡ sector d l)
    (random_whole : (d : D) (salt : List ℕ) → (fill_random d).0 ≡ ok salt → IsSector 16 salt)
    (reads : (lba len : ℕ) (d : D) → (buf : List ℕ) × ((io.read_sectors lba len d).0 ≡ ok buf))
    (vmk : List ℕ) (options : JvckMetadataOptions) (secrets : JvckSecrets)
    (secrets_valid : IsSecrets secrets) (volume_id : List ℕ) (id_whole : IsSector 16 volume_id)
    (headers : options.use_header < 256) (footers : options.use_footer < 256)
    (some_footer : 1 ≤ options.use_footer) (size_fits : options.metadata_size < 2 ^ 32)
    (sector_fits : io.sector_size < 2 ^ 32) where
  abbrev new_store : Geometry → JvckMetadataStore D
  new_store g = created crypto io vmk options g secrets volume_id (jvck_cbc_codec crypto)

  pub new_store-IsStore :
      (g : Geometry)
      → compute_geometry io.sector_size io.total_sectors options ≡ ok g
      → IsStore crypto io (new_store g)
  unfolding created options_of zeros as_u16 from_u16
  new_store-IsStore g accepted = record {
    header_valid = record {
      vendor_id_fits = omega arith;
      metadata_version_fits = omega arith;
      vendor_version_fits = omega arith;
      metadata_size_fits = size_fits;
      sector_size_fits = sector_fits;
      header_replica_count_fits = omega arith;
      footer_replica_count_fits = omega arith;
      volume_id_whole = id_whole;
      vendor_reserved_whole = zeros_lem 192;
    };
    secrets_valid = secrets_valid;
    config_valid = record { accepted = accepted; counts = omega arith };
    same_volume = refl;
    same_options = λ i. record {
      use_header = small_mod options.use_header headers i;
      use_footer = small_mod options.use_footer footers i;
      metadata_size = options.metadata_size;
    };
    default_codec = refl;
    offset_fits = omega arith;
    state_known = refl;
    some_footer = some_footer;
  }

  create_steps :
      (d : D) (s : JvckMetadataStore D)
      → (create crypto io fill_random vmk options secrets volume_id (jvck_cbc_codec crypto) d).0
        ≡ ok s
      → (g : Geometry) × (compute_geometry io.sector_size io.total_sectors options ≡ ok g)
        × (s ≡ new_store g)
        × ((write_store crypto io fill_random (new_store g) d).0 ≡ ok tt)
        × ((create crypto io fill_random vmk options secrets volume_id (jvck_cbc_codec crypto) d).1
            ≡ (write_store crypto io fill_random (new_store g) d).1)
  unfolding create
  create_steps d s good = elim (Result-cases (validate options)) [
    | inr (e, bad) ↦ cc (rw bad at good)
    | inl (_, a) ↦ elim (Result-cases (compute_geometry io.sector_size io.total_sectors options)) [
      | inr (e, bad) ↦ cc (rw (a, bad) at good)
      | inl (g, b) ↦ elim (Result-cases (write_store crypto io fill_random (new_store g) d).0) [
        | inr (e, bad) ↦ cc (rw (a, b, bad) at good)
        | inl (_, w) ↦
            let e : (create crypto io fill_random vmk options secrets volume_id
                  (jvck_cbc_codec crypto) d).0
                ≡ ok (new_store g) =
              rw (a, b, w) refl in
            (g, b, ok-injective s (new_store g) (sym good ∙ e), w, rw (a, b, w) refl)
      ]
    ]
  ]

  -- With lawful crypto primitives, a device that meets its laws and whose reads succeed, random
  -- bytes that come as 16-byte salts and leave the disk alone, keys of 32 bytes, a volume id of 16,
  -- sizes that fit 32 bits, fewer than 256 header and footer replicas and at least one footer
  -- replica: when `create` has succeeded, opening the disk that it leaves with the same VMK gives
  -- the very store that it returned, with its geometry, header, keys, offset and state.
  pub open_store-create :
      (d : D) (s : JvckMetadataStore D) (first : ℕ) (others : List ℕ)
      → (create crypto io fill_random vmk options secrets volume_id (jvck_cbc_codec crypto) d).0
        ≡ ok s
      → replica_lbas s.config ≡ first ∷ others
      → (open_store crypto io fill_random vmk
          (create crypto io fill_random vmk options secrets volume_id
            (jvck_cbc_codec crypto)
            d).1).0
        ≡ ok s
  unfolding created
  open_store-create d s first others good is_replicas =
      let (g, accepted, same, w, e) = create_steps d s good in
      ap (λ d'. (open_store crypto io fill_random vmk d').0) e
      ∙ open_store-write_store dev ic fill_random random_keeps random_whole reads (new_store g)
          (new_store-IsStore g accepted) first others
          (ap (λ (t : JvckMetadataStore D). replica_lbas t.config) (sym same) ∙ is_replicas) d w
      ∙ ap ok (sym same)
