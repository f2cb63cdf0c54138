-- ===== src/Jvck/Metadata/Block.antt =====
-- The fields of a metadata block, read back from the block that `encode` writes.
use volumecrypt_kit.Prelude.{
  ℕ, suc, ◌≤◌, ◌+◌, ◌^◌, ◌<◌, ◌≡◌, refl, ap, ◌∙◌, true, List, [], ◌∷◌, ◌++◌, some, drop, All,
  All-append, get_elem?, arith,
}
use volumecrypt_kit.Prelude.Bytes.{IsSector}
use volumecrypt_kit.Prelude.Fields.{
  Field, IsField, zeros, zeros_lem, slice, write_fields, clear, get_or-slice, slice-write_fields,
  length-write_fields, All-write_fields,
}
use volumecrypt_kit.Xts.{to_le_bytes, from_le_bytes}
use volumecrypt_kit.Xts.Blocks.{to_le_bytes-whole}
use volumecrypt_kit.Filter.Size.{from_le_bytes-to_le_bytes}
use volumecrypt_kit.Jvck.Metadata.{
  JvckHeader, JvckSecrets, jvck_signature, header_fields, le_at, read_header,
}

-- The numbers of the header fit their fields.
pub record IsHeader (h : JvckHeader) : Type 0 where
  pub vendor_id_fits : h.vendor_id < 2 ^ 64
  pub metadata_version_fits : h.metadata_version < 2 ^ 16
  pub vendor_version_fits : h.vendor_version < 2 ^ 16
  pub metadata_size_fits : h.metadata_size < 2 ^ 32
  pub sector_size_fits : h.sector_size < 2 ^ 32
  pub header_replica_count_fits : h.header_replica_count < 256
  pub footer_replica_count_fits : h.footer_replica_count < 256
  pub volume_id_whole : IsSector 16 h.volume_id
  pub vendor_reserved_whole : IsSector 192 h.vendor_reserved

pub record IsSecrets (s : JvckSecrets) : Type 0 where
  pub key1_whole : IsSector 32 s.fvek_key1
  pub key2_whole : IsSector 32 s.fvek_key2

pub signature_whole : IsSector 4 jvck_signature
signature_whole = (refl, omega arith)

pub le_fits :
    (k off n : ℕ) (block : List ℕ)
    → slice off k block ≡ to_le_bytes k n
    → n < 256 ^ k
    → le_at k off block ≡ n
le_fits k off n block e fits = ap from_le_bytes e ∙ from_le_bytes-to_le_bytes k n fits

abbrev pub blob_field : List ℕ → Field
blob_field blob = record { off = 64; size = 128; bytes = blob }

abbrev pub tag_field : List ℕ → Field
tag_field tag = record { off = 192; size = 32; bytes = tag }

abbrev pub crc_field : ℕ → Field
crc_field crc = record { off = 508; size = 4; bytes = to_le_bytes 4 crc }

abbrev pub block_fields : JvckHeader → List ℕ → List ℕ → List ℕ → ℕ → List Field
block_fields h salt blob tag crc =
    header_fields h salt ++ (blob_field blob ∷ tag_field tag ∷ crc_field crc ∷ [])

-- The block: what `encode` has written when it ends.
abbrev pub block_of : JvckHeader → List ℕ → List ℕ → List ℕ → ℕ → List ℕ
block_of h salt blob tag crc = write_fields (block_fields h salt blob tag crc) (zeros 512)

pub number-IsField :
    (n k off v : ℕ)
    → off + k ≤ n
    → IsField n (record { off = off; size = k; bytes = to_le_bytes k v })
number-IsField n k off v fits = ((to_le_bytes-whole k v).0, (to_le_bytes-whole k v).1, fits)

pub bytes-IsField :
    (n k off : ℕ) (bs : List ℕ)
    → IsSector k bs
    → off + k ≤ n
    → IsField n (record { off = off; size = k; bytes = bs })
bytes-IsField n k off bs whole fits = (whole.0, whole.1, fits)

byte-IsField :
    (n off b : ℕ)
    → b < 256
    → off + 1 ≤ n
    → IsField n (record { off = off; size = 1; bytes = b ∷ [] })
byte-IsField n off b small fits = (refl, (small, tt), fits)

pub header_fit :
    (h : JvckHeader) (salt : List ℕ)
    → IsHeader h
    → IsSector 16 salt
    → All (IsField 512) (header_fields h salt)
header_fit h salt valid salt_whole = (
  bytes-IsField 512 4 0 jvck_signature signature_whole (omega arith),
  (
    number-IsField 512 8 4 h.vendor_id (omega arith),
    (
      number-IsField 512 2 12 h.metadata_version (omega arith),
      (
        number-IsField 512 2 14 h.vendor_version (omega arith),
        (
          number-IsField 512 4 16 h.metadata_size (omega arith),
          (
            number-IsField 512 4 20 h.sector_size (omega arith),
            (
              byte-IsField 512 24 h.header_replica_count valid.header_replica_count_fits
                  (omega arith),
              (
                byte-IsField 512 25 h.footer_replica_count valid.footer_replica_count_fits
                    (omega arith),
                (
                  bytes-IsField 512 16 32 h.volume_id valid.volume_id_whole (omega arith),
                  (
                    bytes-IsField 512 16 48 salt salt_whole (omega arith),
                    (
                      bytes-IsField 512 192 304 h.vendor_reserved valid.vendor_reserved_whole
                          (omega arith),
                      tt,
                    ),
                  ),
                ),
              ),
            ),
          ),
        ),
      ),
    ),
  ),
)

module _ (h : JvckHeader) (valid : IsHeader h) (salt blob tag : List ℕ)
    (salt_whole : IsSector 16 salt) (blob_whole : IsSector 128 blob) (tag_whole : IsSector 32 tag)
    (crc : ℕ) where
  pub fields_fit : All (IsField 512) (block_fields h salt blob tag crc)
  fields_fit =
      All-append (IsField 512) (header_fields h salt)
        (blob_field blob ∷ tag_field tag ∷ crc_field crc ∷ []) (header_fit h salt valid salt_whole)
        (
          bytes-IsField 512 128 64 blob blob_whole (omega arith),
          (
            bytes-IsField 512 32 192 tag tag_whole (omega arith),
            (number-IsField 512 4 508 crc (omega arith), tt),
          ),
        )

  abbrev block : List ℕ
  block = block_of h salt blob tag crc

  pub block_of-whole : IsSector 512 block
  block_of-whole = (
    length-write_fields 512 (block_fields h salt blob tag crc) (zeros 512) fields_fit
        (zeros_lem 512).0,
    All-write_fields 512 (block_fields h salt blob tag crc) (zeros 512) fields_fit (zeros_lem 512).0
        (zeros_lem 512).1,
  )

  pub read_field :
      (i : ℕ) (g : Field)
      → get_elem? (block_fields h salt blob tag crc) i ≡ some g
      → clear g.off g.size (drop (suc i) (block_fields h salt blob tag crc)) ≡ true
      → slice g.off g.size block ≡ g.bytes
  read_field i g is apart =
      slice-write_fields 512 i g (block_fields h salt blob tag crc) (zeros 512) is apart fields_fit
        (zeros_lem 512).0

  pub reads_signature : slice 0 4 block ≡ jvck_signature
  reads_signature = read_field 0 _ refl refl

  pub reads_volume_id : slice 32 16 block ≡ h.volume_id
  reads_volume_id = read_field 8 _ refl refl

  pub reads_salt : slice 48 16 block ≡ salt
  reads_salt = read_field 9 _ refl refl

  pub reads_blob : slice 64 128 block ≡ blob
  reads_blob = read_field 11 _ refl refl

  pub reads_tag : slice 192 32 block ≡ tag
  reads_tag = read_field 12 _ refl refl

  pub reads_crc : crc < 2 ^ 32 → le_at 4 508 block ≡ crc
  reads_crc small = le_fits 4 508 crc block (read_field 13 _ refl refl) small

  -- The header's fields as the parser reads them.
  pub read_header-block : read_header block ≡ h
  read_header-block = λ i. record {
    vendor_id = le_fits 8 4 h.vendor_id block (read_field 1 _ refl refl) valid.vendor_id_fits i;
    metadata_version =
        le_fits 2 12 h.metadata_version block (read_field 2 _ refl refl) valid.metadata_version_fits
          i;
    vendor_version =
        le_fits 2 14 h.vendor_version block (read_field 3 _ refl refl) valid.vendor_version_fits i;
    metadata_size =
        le_fits 4 16 h.metadata_size block (read_field 4 _ refl refl) valid.metadata_size_fits i;
    sector_size =
        le_fits 4 20 h.sector_size block (read_field 5 _ refl refl) valid.sector_size_fits i;
    header_replica_count =
        get_or-slice 24 h.header_replica_count block (read_field 6 _ refl refl) i;
    footer_replica_count =
        get_or-slice 25 h.footer_replica_count block (read_field 7 _ refl refl) i;
    volume_id = reads_volume_id i;
    vendor_reserved =
        read_field 10 (record { off = 304; size = 192; bytes = h.vendor_reserved }) refl refl i;
  }
