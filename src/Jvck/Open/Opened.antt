-- ===== src/Jvck/Open/Opened.antt =====
-- lib/common/src/jvck/store.rs: opening a volume whose replicas hold the block of a store.
use volumecrypt_kit.Prelude.{
  ℕ, ◌-◌, ◌^◌, ◌≤◌, ◌<◌, ◌≡◌, sym, ap, ◌∙◌, none, List, [], ◌∷◌, length, All, All-imp, arith,
}
use mathlib.Core.Path.{subst}
use volumecrypt_kit.Prelude.Bytes.{IsSector}
use volumecrypt_kit.Error.{ok}
use volumecrypt_kit.Exec.{Exec}
use volumecrypt_kit.Types.{VolumeState, as_u16, from_u16}
use volumecrypt_kit.Device.{SectorIo, IsDevice}
use volumecrypt_kit.Jvck.Layout.{layout, last_replica}
use volumecrypt_kit.Jvck.Metadata.{Crypto, Unsealed, encode, parse, verify_crc, decrypt_payload}
use volumecrypt_kit.Jvck.Metadata.Block.{IsHeader, IsSecrets}
use volumecrypt_kit.Jvck.Metadata.RoundTrip.{IsCrypto}
use volumecrypt_kit.Jvck.Metadata.Sealed.{
  encode-whole, verify_crc-encode, parse-encode, decrypt_payload-sealed,
}
use volumecrypt_kit.Jvck.Store.{
  MetadataCodec, replica_lbas, read_block, write_all_replicas, load_offset,
}
use volumecrypt_kit.Jvck.Replicas.{IsCodec, padded, read_block_padded, read_block_keeps}
use volumecrypt_kit.Jvck.Durable.{
  IsConfig, size_lem, fits_lem, stored_block, holds_of, load_offset-same,
}
use volumecrypt_kit.Jvck.Codec.{ReplicaCtx, Codec, codec_of, jvck_cbc_codec}
use volumecrypt_kit.Jvck.Codec.Lawful.{jvck_cbc_codec-IsCodec}
use volumecrypt_kit.Jvck.Reader.{JvckMetadataReader, options_of, ctx_of, open_reader, choose}
use volumecrypt_kit.Jvck.Open.Steps.{
  open_header-ok, open_at-ok, open_reader-ok, default_select-ok, choose-ok, into_store-ok,
  open_store-ok,
}
use volumecrypt_kit.Jvck.Open.{
  JvckMetadataStore, into_store, default_select, open_store, write_store,
}

-- A store of the default suite whose parts agree with each other and with the device.
pub record IsStore {D : Type 0} (crypto : Crypto) (io : SectorIo D) (s : JvckMetadataStore D)
    : Type 0 where
  pub header_valid : IsHeader s.header
  pub secrets_valid : IsSecrets s.secrets
  pub config_valid : IsConfig io.sector_size s.config
  pub same_volume : s.config.volume_sectors ≡ io.total_sectors
  pub same_options : options_of s.header ≡ s.config.options
  pub default_codec : s.codec ≡ jvck_cbc_codec crypto
  pub offset_fits : s.fields.offset < 2 ^ 64
  pub state_known : as_u16 (from_u16 s.fields.state) ≡ s.fields.state
  pub some_footer : 1 ≤ s.config.options.use_footer

module _ {D : Type 0} {io : SectorIo D} {sector : D → ℕ → List ℕ} (dev : IsDevice io sector)
    {crypto : Crypto} (ic : IsCrypto crypto) (fill_random : Exec D (List ℕ))
    (random_keeps : (d : D) (l : ℕ) → sector (fill_random d).1 l ≡ sector d l)
    (random_whole : (d : D) (salt : List ℕ) → (fill_random d).0 ≡ ok salt → IsSector 16 salt)
    (reads : (lba len : ℕ) (d : D) → (buf : List ℕ) × ((io.read_sectors lba len d).0 ≡ ok buf))
    (s : JvckMetadataStore D) (is : IsStore crypto io s) (first : ℕ) (others : List ℕ)
    (is_replicas : replica_lbas s.config ≡ first ∷ others) where
  abbrev pub codec : MetadataCodec
  codec = codec_of crypto (jvck_cbc_codec {D = D} crypto) s.header s.secrets s.vmk

  pub lawful : IsCodec codec
  lawful = jvck_cbc_codec-IsCodec D ic s.header is.header_valid s.secrets is.secrets_valid s.vmk

  abbrev pub size : ℕ
  size = s.config.geometry.sector_size

  pub same_size : size ≡ io.sector_size
  same_size = size_lem dev lawful fill_random random_keeps random_whole s.config is.config_valid

  abbrev pub fits : 512 ≤ io.sector_size
  fits = fits_lem dev lawful fill_random random_keeps random_whole s.config is.config_valid

  abbrev pub state : VolumeState
  state = from_u16 s.fields.state

  abbrev unsealed : Unsealed
  unsealed = record { encrypted_offset = s.fields.offset; state = state; secrets = s.secrets }

  module _ (salt block : List ℕ) (salt_whole : IsSector 16 salt)
      (sealed : encode crypto s.header s.secrets s.fields.offset state salt s.vmk ≡ ok block) where
    pub block_len : length block ≡ 512
    block_len =
        (encode-whole ic s.header is.header_valid salt salt_whole s.vmk s.secrets is.secrets_valid
          s.fields.offset state block sealed).0

    verified : verify_crc crypto block ≡ ok tt
    verified =
        verify_crc-encode ic s.header is.header_valid salt salt_whole s.vmk s.secrets
          is.secrets_valid s.fields.offset state block sealed

    parsed : parse crypto block ≡ ok s.header
    parsed =
        parse-encode ic s.header is.header_valid salt salt_whole s.vmk s.secrets is.secrets_valid
          s.fields.offset state block sealed

    decrypted : decrypt_payload crypto block s.vmk ≡ ok unsealed
    decrypted =
        decrypt_payload-sealed ic s.header is.header_valid salt salt_whole s.vmk s.secrets
          is.secrets_valid s.fields.offset state block sealed is.offset_fits

    -- Every replica of the device holds the block.
    abbrev pub Written : D → Type 0
    Written d = All (λ lba. sector d lba ≡ padded dev fits block) (replica_lbas s.config)

    read_at :
        (d : D) (lba : ℕ)
        → sector d lba ≡ padded dev fits block
        → read_block io size lba d ≡ (ok block, (io.read_sectors lba size d).1)
    read_at d lba holds =
        read_block_padded dev fits reads lawful fill_random s.config same_size d lba block block_len
          holds

    abbrev reader : JvckMetadataReader
    reader = record { config = s.config; header = s.header }

    last_lem : (d : D) → Written d → sector d (io.total_sectors - 1) ≡ padded dev fits block
    unfolding replica_lbas
    last_lem d w = rw (sym is.same_volume) (
        last_replica io.sector_size s.config.volume_sectors s.config.options s.config.geometry
          is.config_valid.counts is.config_valid.accepted
          (λ lba. sector d lba ≡ padded dev fits block) is.some_footer (rw same_size at w))

    some_sector : 0 < io.total_sectors
    some_sector =
        let l =
          layout io.sector_size s.config.volume_sectors s.config.options s.config.geometry
            is.config_valid.counts is.config_valid.accepted in
        omega (arith, l.regions, l.some_data, is.same_volume)

    abbrev last : ℕ
    last = io.total_sectors - 1

    read_last : (d : D) → Written d → (read_block io io.sector_size last d).0 ≡ ok block
    read_last d w =
        subst (λ (n : ℕ). (read_block io n last d).0 ≡ ok block) same_size
          (ap (λ r. r.0) (read_at d last (last_lem d w)))

    opens :
        (d : D)
        → Written d
        → open_reader crypto io d ≡ (ok reader, (read_block io io.sector_size last d).1)
    opens d w =
        open_reader-ok crypto io d fits some_sector
        ∙ open_at-ok crypto io last (0 ∷ []) block d s.header reader (read_last d w) verified parsed
            (open_header-ok crypto io s.header s.config.options s.config.geometry
              s.config.volume_sectors is.same_options is.same_volume is.config_valid.accepted)

    still : (d : D) (lba : ℕ) → Written d → Written (read_block io size lba d).1
    still d lba w =
        All-imp _ _
          (λ l h. read_block_keeps dev fits reads lawful fill_random s.config same_size d lba l ∙ h)
          (replica_lbas s.config) w

    still_io : (d : D) (lba : ℕ) → Written d → Written (read_block io io.sector_size lba d).1
    still_io d lba w =
        subst (λ (n : ℕ). Written (read_block io n lba d).1) same_size (still d lba w)

    abbrev select : ReplicaCtx → Exec D (Codec D × Unsealed)
    select = default_select crypto io s.vmk

    chooses :
        (d : D)
        → Written d
        → choose crypto io reader select 0 none (replica_lbas s.config) d
          ≡ (ok (jvck_cbc_codec crypto, unsealed), (read_block io size first d).1)
    unfolding ctx_of
    chooses d w =
        let here : sector d first ≡ padded dev fits block = (rw is_replicas at w).0 in
        let picked =
          default_select-ok crypto io s.vmk (ctx_of reader 0 block) unsealed
            (read_block io size first d).1 decrypted in
        rw is_replicas (
          choose-ok crypto io reader select 0 none first others block d
            (jvck_cbc_codec crypto, unsealed) (ap (λ r. r.0) (read_at d first here)) verified
            (ap (λ r. r.0) picked)
          ∙ ap (λ r. (ok (jvck_cbc_codec crypto, unsealed), r.1)) picked)

    scans :
        (d : D) → Written d → (load_offset io codec fill_random s.config d).0 ≡ ok s.fields.offset
    unfolding codec_of jvck_cbc_codec
    scans d w =
        load_offset-same dev lawful fill_random random_keeps random_whole s.config is.config_valid
          reads first others is_replicas d s.fields.offset
          (holds_of dev lawful fill_random random_keeps random_whole s.config is.config_valid reads
            first others is_replicas block s.fields.offset state salt is.offset_fits salt_whole
            sealed d (replica_lbas s.config) w)

    adopts :
        (d : D)
        → Written d
        → (into_store crypto io fill_random reader s.vmk select d).0
          ≡ ok (record s { codec = jvck_cbc_codec crypto })
    adopts d w =
        let picked = chooses d w in
        into_store-ok crypto io fill_random reader s.vmk select d (jvck_cbc_codec crypto) unsealed
          s.fields.offset (ap (λ r. r.0) picked)
          (ap (λ r. (load_offset io codec fill_random s.config r.1).0) picked
            ∙ scans (read_block io size first d).1 (still d first w))
        ∙ ap
            (λ (v : ℕ). ok (record s {
              codec = jvck_cbc_codec crypto;
              fields = record { offset = s.fields.offset; state = v };
            }))
            is.state_known

    pub reopens :
        (d : D)
        → Written d
        → (open_store crypto io fill_random s.vmk d).0
          ≡ ok (record s { codec = jvck_cbc_codec crypto })
    reopens d w =
        open_store-ok crypto io fill_random s.vmk d reader (ap (λ r. r.0) (opens d w))
        ∙ ap (λ r. (into_store crypto io fill_random reader s.vmk select r.1).0) (opens d w)
        ∙ adopts (read_block io io.sector_size last d).1 (still_io d last w)

  pub same_codec : record s { codec = jvck_cbc_codec crypto } ≡ s
  same_codec = λ i. record s { codec = sym is.default_codec i }

  -- Opening the volume finds the store that was written.
  pub open_store-write_store :
      (d : D)
      → (write_store crypto io fill_random s d).0 ≡ ok tt
      → (open_store crypto io fill_random s.vmk (write_store crypto io fill_random s d).1).0 ≡ ok s
  unfolding write_store codec_of jvck_cbc_codec
  open_store-write_store d good =
      let e =
        ap
          (λ (c : Codec D).
            write_all_replicas io (codec_of crypto c s.header s.secrets s.vmk) fill_random s.config
              (s.fields, d))
          is.default_codec in
      let (salt, (block, whole, sealed, sets)) =
        stored_block dev lawful fill_random random_keeps random_whole s.config is.config_valid reads
          first others is_replicas s.fields d (sym (ap (λ r. r.0) e) ∙ good) in
      ap (λ r. (open_store crypto io fill_random s.vmk r.1.1).0) e
      ∙ reopens salt block whole sealed _ sets
      ∙ ap ok same_codec
