-- ===== src/Jvck/Open/Steps.antt =====
-- The steps of opening a volume, each when what it reads is sound.
use volumecrypt_kit.Prelude.{
  ℕ, ◌-◌, ◌≤◌, ◌<◌, ◌≡◌, refl, sym, Option, none, List, [], ◌∷◌, arith, ltb, ◌==◌, false,
}
use volumecrypt_kit.Error.{VckError, ok}
use volumecrypt_kit.Exec.{Exec}
use volumecrypt_kit.Types.{as_u16}
use volumecrypt_kit.Device.{SectorIo}
use volumecrypt_kit.Jvck.{compute_geometry, JvckMetadataOptions, Geometry}
use volumecrypt_kit.Jvck.Metadata.{Crypto, JvckHeader, Unsealed, parse, verify_crc, decrypt_payload}
use volumecrypt_kit.Jvck.Store.{replica_lbas, read_block, load_offset}
use volumecrypt_kit.Jvck.Codec.{ReplicaCtx, Codec, codec_of, jvck_cbc_codec}
use volumecrypt_kit.Jvck.Reader.{
  JvckMetadataReader, options_of, ctx_of, open_header, open_at, open_reader, choose,
}
use volumecrypt_kit.Jvck.Open.{unwrap_or, adopt, into_store, default_select, open_store}

module _ {D : Type 0} (crypto : Crypto) (io : SectorIo D) where
  pub open_header-ok :
      (h : JvckHeader) (o : JvckMetadataOptions) (g : Geometry) (volume : ℕ)
      → options_of h ≡ o
      → volume ≡ io.total_sectors
      → compute_geometry io.sector_size volume o ≡ ok g
      → open_header crypto io h
        ≡ ok (record {
          config = record { options = o; geometry = g; volume_sectors = volume };
          header = h;
        })
  unfolding open_header
  open_header-ok h o g volume same_o same_v accepted =
      let e : compute_geometry io.sector_size io.total_sectors (options_of h) ≡ ok g =
        rw (same_o, sym same_v) accepted in
      rw (open_header, e)
        (λ i. ok (record {
          config = record { options = same_o i; geometry = g; volume_sectors = sym same_v i };
          header = h;
        }))

  pub open_at-ok :
      (lba : ℕ) (lbas block : List ℕ) (d : D) (h : JvckHeader) (r : JvckMetadataReader)
      → (read_block io io.sector_size lba d).0 ≡ ok block
      → verify_crc crypto block ≡ ok tt
      → parse crypto block ≡ ok h
      → open_header crypto io h ≡ ok r
      → open_at crypto io (lba ∷ lbas) d ≡ (ok r, (read_block io io.sector_size lba d).1)
  unfolding open_at
  open_at-ok lba lbas block d h r read good parsed header =
      rw (open_at, read, good, parsed, header) refl

  pub open_reader-ok :
      (d : D)
      → 512 ≤ io.sector_size
      → 0 < io.total_sectors
      → open_reader crypto io d ≡ open_at crypto io ((io.total_sectors - 1) ∷ 0 ∷ []) d
  unfolding open_reader
  open_reader-ok d big some_sector =
      let a : ltb io.sector_size 512 ≡ false = ground arith in
      let b : (io.total_sectors == 0) ≡ false = ground arith in rw (a, b) refl

  pub default_select-ok :
      (vmk : List ℕ) (ctx : ReplicaCtx) (u : Unsealed) (d : D)
      → decrypt_payload crypto ctx.block vmk ≡ ok u
      → default_select crypto io vmk ctx d ≡ (ok (jvck_cbc_codec crypto, u), d)
  unfolding default_select jvck_cbc_codec
  default_select-ok vmk ctx u d good = rw good refl

  pub choose-ok :
      (r : JvckMetadataReader) (select : ReplicaCtx → Exec D (Codec D × Unsealed)) (idx : ℕ)
      (last : Option VckError) (lba : ℕ) (lbas block : List ℕ) (d : D) (p : Codec D × Unsealed)
      → let read = read_block io r.config.geometry.sector_size lba d in
        (read.0 ≡ ok block)
        → verify_crc crypto block ≡ ok tt
        → (select (ctx_of r idx block) read.1).0 ≡ ok p
        → choose crypto io r select idx last (lba ∷ lbas) d
          ≡ (ok p, (select (ctx_of r idx block) read.1).1)
  unfolding choose
  choose-ok r select idx last lba lbas block d p read good chosen =
      rw (choose, read, good, chosen) refl

  pub into_store-ok :
      (fill_random : Exec D (List ℕ)) (r : JvckMetadataReader) (vmk : List ℕ)
      (select : ReplicaCtx → Exec D (Codec D × Unsealed)) (d : D) (codec : Codec D) (u : Unsealed)
      (recovered : ℕ)
      → let chosen = choose crypto io r select 0 none (replica_lbas r.config) d in
        (chosen.0 ≡ ok (codec, u))
        → (load_offset io
            (codec_of crypto codec r.header u.secrets vmk)
            fill_random
            r.config
            chosen.1).0
          ≡ ok recovered
        → (into_store crypto io fill_random r vmk select d).0
          ≡ ok (record {
            config = r.config;
            header = r.header;
            secrets = u.secrets;
            vmk = vmk;
            codec = codec;
            fields = record { offset = recovered; state = as_u16 u.state };
          })
  unfolding into_store adopt unwrap_or
  into_store-ok fill_random r vmk select d codec u recovered chosen scanned =
      rw (into_store, chosen, scanned) refl

  pub open_store-ok :
      (fill_random : Exec D (List ℕ)) (vmk : List ℕ) (d : D) (r : JvckMetadataReader)
      → (open_reader crypto io d).0 ≡ ok r
      → (open_store crypto io fill_random vmk d).0
        ≡ (into_store crypto io fill_random r vmk
            (default_select crypto io vmk)
            (open_reader crypto io d).1).0
  unfolding open_store
  open_store-ok fill_random vmk d r opened = rw opened refl
