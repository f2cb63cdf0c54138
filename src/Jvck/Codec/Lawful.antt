-- ===== src/Jvck/Codec/Lawful.antt =====
-- lib/common/src/jvck/codec.rs: the default codec as the codec of an offset store.
use volumecrypt_kit.Prelude.{ℕ, refl, List}
use volumecrypt_kit.Jvck.Metadata.{Crypto, JvckHeader, JvckSecrets, read_encrypted_offset}
use volumecrypt_kit.Jvck.Metadata.Block.{IsHeader, IsSecrets}
use volumecrypt_kit.Jvck.Metadata.RoundTrip.{IsCrypto}
use volumecrypt_kit.Jvck.Metadata.Sealed.{encode-whole, verify_crc-encode, decrypt_payload-sealed}
use volumecrypt_kit.Jvck.Codec.{codec_of, jvck_cbc_codec}
use volumecrypt_kit.Jvck.Replicas.{IsCodec}

-- With lawful crypto primitives, a header whose fields fit the block and keys of 32 bytes, the
-- default codec is what the offset store asks of a codec: with a salt of 16 bytes it seals to whole
-- blocks that pass the CRC test and give their 64-bit offset back.
pub jvck_cbc_codec-IsCodec :
    (D : Type 0) {crypto : Crypto}
    → IsCrypto crypto
    → (h : JvckHeader) → IsHeader h
    → (secrets : JvckSecrets) → IsSecrets secrets
    → (vmk : List ℕ) → IsCodec (codec_of crypto (jvck_cbc_codec {D = D} crypto) h secrets vmk)
unfolding codec_of jvck_cbc_codec read_encrypted_offset
jvck_cbc_codec-IsCodec D ic h valid secrets sv vmk = record {
  seals = λ offset state salt block whole is.
      encode-whole ic h valid salt whole vmk secrets sv offset state block is;
  verifies = λ offset state salt block whole is.
      verify_crc-encode ic h valid salt whole vmk secrets sv offset state block is;
  reads_back = λ offset state salt block small whole is.
      rw (decrypt_payload-sealed ic h valid salt whole vmk secrets sv offset state block is small)
        refl;
}
