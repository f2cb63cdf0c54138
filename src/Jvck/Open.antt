-- ===== src/Jvck/Open.antt =====
-- `JvckMetadataStore` of lib/common/src/jvck/store.rs: how a store is created and opened.
pub mod Steps
pub mod Created
pub mod Opened
use volumecrypt_kit.Prelude.{
  ℕ, zero, suc, ◌+◌, ◌-◌, ◌%◌, ◌^◌, Option, none, some, List, [], ◌∷◌, ltb, ◌==◌, if◌then◌else◌,
  get_elem?, get_or, String,
}
use volumecrypt_kit.Prelude.Fields.{zeros}
use volumecrypt_kit.Error.{VckError, unsupported, not_found, VckResult, ok, err, ok_or}
use volumecrypt_kit.Exec.{Exec, pure, raise, lift, continue, ◌>>=◌, ◌>>◌}
use volumecrypt_kit.Types.{VolumeState, encrypt, as_u16}
use volumecrypt_kit.Device.{SectorIo}
use volumecrypt_kit.Jvck.{
  JvckMetadataOptions, Geometry, validate, compute_geometry, replica_sectors,
  vendor_data_base_lba_at, replica_count, vendor_data_lba_checked,
}
use volumecrypt_kit.Jvck.Store.{
  MetadataCodec, JvckFields, JvckConfig, replica_lbas, read_block, write_all_replicas, load_offset,
}
use volumecrypt_kit.Jvck.Metadata.{Crypto, JvckHeader, JvckSecrets, Unsealed, verify_crc, parse}
use volumecrypt_kit.Jvck.Codec.{ReplicaCtx, Codec, codec_of, jvck_cbc_codec, vendor_range}
use volumecrypt_kit.Jvck.Reader.{JvckMetadataReader, open_reader, choose}

pub record JvckMetadataStore (D : Type 0) : Type 0 where
  pub config : JvckConfig
  pub header : JvckHeader
  pub secrets : JvckSecrets
  pub vmk : List ℕ
  pub codec : Codec D
  pub fields : JvckFields

module _ {D : Type 0} (crypto : Crypto) (io : SectorIo D) where
  unfoldable pub unwrap_or : VckResult ℕ → ℕ → ℕ
  unwrap_or (ok n) m = n
  unwrap_or (err _) m = m

  -- The store of the chosen replica; its offset is the one that a scan of all replicas recovers.
  unfoldable pub adopt :
      Exec D (List ℕ)
      → JvckMetadataReader
      → List ℕ
      → Codec D
      → Unsealed
      → D
      → JvckMetadataStore D × D
  unfolding unwrap_or
  adopt fill_random r vmk codec u d =
      let (recovered, d1) =
        load_offset io (codec_of crypto codec r.header u.secrets vmk) fill_random r.config d in
      (
        record {
          config = r.config;
          header = r.header;
          secrets = u.secrets;
          vmk = vmk;
          codec = codec;
          fields = record {
            offset = unwrap_or recovered u.encrypted_offset;
            state = as_u16 u.state;
          };
        },
        d1,
      )

  unfoldable pub into_store :
      Exec D (List ℕ)
      → JvckMetadataReader
      → List ℕ
      → (ReplicaCtx → Exec D (Codec D × Unsealed))
      → Exec D (JvckMetadataStore D)
  unfolding choose adopt
  into_store fill_random r vmk select d =
      let (c, d1) = choose crypto io r select 0 none (replica_lbas r.config) d in
      elim c [
        | err e ↦ (err e, d1)
        | ok (codec, u) ↦ let (s, d2) = adopt fill_random r vmk codec u d1 in (ok s, d2)
      ]

  -- The selector of `JvckMetadataStore::open`.
  unfoldable pub default_select : List ℕ → ReplicaCtx → Exec D (Codec D × Unsealed)
  unfolding jvck_cbc_codec
  default_select vmk ctx = do
    u ← (jvck_cbc_codec crypto).unseal ctx vmk
    pure (jvck_cbc_codec crypto, u)

  unfoldable pub open_store : Exec D (List ℕ) → List ℕ → Exec D (JvckMetadataStore D)
  unfolding open_reader into_store default_select
  open_store fill_random vmk = do
    r ← open_reader crypto io
    into_store fill_random r vmk (default_select vmk)

  unfoldable pub created :
      List ℕ → JvckMetadataOptions → Geometry → JvckSecrets → List ℕ → Codec D → JvckMetadataStore D
  created vmk options geometry secrets volume_id codec = record {
    config = record { options = options; geometry = geometry; volume_sectors = io.total_sectors };
    header = record {
      vendor_id = 0;
      metadata_version = 1;
      vendor_version = 0;
      metadata_size = options.metadata_size;
      sector_size = io.sector_size;
      header_replica_count = options.use_header % 256;
      footer_replica_count = options.use_footer % 256;
      volume_id = volume_id;
      vendor_reserved = zeros 192;
    };
    secrets = secrets;
    vmk = vmk;
    codec = codec;
    fields = record { offset = 0; state = as_u16 encrypt };
  }

  -- `write_all_replicas` of a store.
  unfoldable pub write_store : Exec D (List ℕ) → JvckMetadataStore D → D → VckResult (Unit {0}) × D
  write_store fill_random s d =
      let (w, (_, d1)) =
        write_all_replicas io (codec_of crypto s.codec s.header s.secrets s.vmk) fill_random
          s.config (s.fields, d) in
      (w, d1)

  unfoldable pub create :
      Exec D (List ℕ)
      → List ℕ
      → JvckMetadataOptions
      → JvckSecrets
      → List ℕ
      → Codec D
      → Exec D (JvckMetadataStore D)
  unfolding created write_store
  create fill_random vmk options secrets volume_id codec = do
    lift (validate options)
    geometry ← lift (compute_geometry io.sector_size io.total_sectors options)
    let store = created vmk options geometry secrets volume_id codec
    write_store fill_random store
    pure store

  -- `set_vendor_reserved`
  unfoldable pub set_vendor_reserved :
      Exec D (List ℕ)
      → List ℕ
      → JvckMetadataStore D
      → D
      → VckResult (Unit {0}) × (JvckMetadataStore D × D)
  unfolding write_store
  set_vendor_reserved fill_random reserved s d =
      let s1 = record s { header = record (s.header) { vendor_reserved = reserved } } in
      let (w, d1) = write_store fill_random s1 d in (w, (s1, d1))
