-- ===== src/Xts.antt =====
-- lib/common/src/xts.rs: AES-256-XTS on sectors. The AES block cipher of the `aes` crate is a
-- parameter, `BlockCipher`, with the two facts that the code relies on.
pub mod Blocks
pub mod Batch
pub mod Inverse
pub mod Area
use Prim.Native.Nat.{bit_or}
use volumecrypt_kit.Prelude.{
  ℕ, zero, suc, ◌+◌, ◌-◌, ◌*◌, ◌/◌, ◌%◌, ◌^◌, ◌≡◌, bit_xor, List, [], ◌∷◌, ◌++◌, map, Option, some,
  length, take, drop, ltb, leb, if◌then◌else◌,
}
use volumecrypt_kit.Prelude.Bytes.{IsSector, tabulate, chunks}
use volumecrypt_kit.Cipher.{VolumeCipher, CipherSupplier}

pub record BlockCipher : Type 0 where
  pub encrypt_block : List ℕ → List ℕ
  pub decrypt_block : List ℕ → List ℕ

-- The block cipher maps blocks of 16 bytes to such blocks, one-to-one.
pub record IsBlockCipher (b : BlockCipher) : Type 0 where
  pub encrypt_block_whole : (s : List ℕ) → IsSector 16 s → IsSector 16 (b.encrypt_block s)
  pub decrypt_block_whole : (s : List ℕ) → IsSector 16 s → IsSector 16 (b.decrypt_block s)
  pub decrypt_block-encrypt_block :
      (s : List ℕ) → IsSector 16 s → b.decrypt_block (b.encrypt_block s) ≡ s
  pub encrypt_block-decrypt_block :
      (s : List ℕ) → IsSector 16 s → b.encrypt_block (b.decrypt_block s) ≡ s

-- The `k` bytes of a number, lowest first, and the number again.
unfoldable pub to_le_bytes : ℕ → ℕ → List ℕ
to_le_bytes zero n = []
to_le_bytes (suc k) n = n % 256 ∷ to_le_bytes k (n / 256)

unfoldable pub from_le_bytes : List ℕ → ℕ
from_le_bytes [] = 0
from_le_bytes (b ∷ bs) = b + 256 * from_le_bytes bs

-- Two words of 64 bits; a shift to the left drops what leaves the word.
unfoldable pub gf128_mul : List ℕ → List ℕ
unfolding to_le_bytes from_le_bytes
gf128_mul t =
    let lo = from_le_bytes (take 8 t) in
    let hi = from_le_bytes (drop 8 t) in
    let carry = if ltb 0 (hi / 2 ^ 63) then 0x87 else 0 in
    to_le_bytes 8 (bit_xor ((lo * 2) % 2 ^ 64) carry)
    ++ to_le_bytes 8 (bit_or ((hi * 2) % 2 ^ 64) (lo / 2 ^ 63))

-- `for j in 0..16 { block[j] ^= tw[j]; }`
unfoldable pub xor_block : List ℕ → List ℕ → List ℕ
xor_block [] t = []
xor_block (x ∷ xs) [] = x ∷ xs
xor_block (x ∷ xs) (t ∷ ts) = bit_xor x t ∷ xor_block xs ts

-- `ts[0] = tw`, `ts[i] = gf128_mul(ts[i - 1])`
unfoldable pub tweaks : ℕ → List ℕ → List (List ℕ)
unfolding gf128_mul
tweaks zero tw = []
tweaks (suc k) tw = tw ∷ tweaks k (gf128_mul tw)

-- The tweak after `k` blocks.
unfoldable pub tweak_after : ℕ → List ℕ → List ℕ
tweak_after zero tw = tw
tweak_after (suc k) tw = tweak_after k (gf128_mul tw)

-- The first `k` blocks of what is left of the sector.
unfoldable pub blocks : ℕ → List ℕ → List (List ℕ)
blocks zero rest = []
blocks (suc k) rest = take 16 rest ∷ blocks k (drop 16 rest)

unfoldable pub xor_blocks : List (List ℕ) → List (List ℕ) → List (List ℕ)
unfolding xor_block
xor_blocks (b ∷ bs) (t ∷ ts) = xor_block b t ∷ xor_blocks bs ts
xor_blocks bs ts = []

unfoldable pub concat : List (List ℕ) → List ℕ
concat [] = []
concat (b ∷ bs) = b ++ concat bs

-- One block of the scalar loop.
unfoldable pub one_block : (List ℕ → List ℕ) → List ℕ → List ℕ → List ℕ
unfolding xor_block
one_block f tw block = xor_block (f (xor_block block tw)) tw

-- One batch: all the blocks are masked, run through the block cipher, and masked again.
unfoldable pub one_batch : (List ℕ → List ℕ) → ℕ → List ℕ → List ℕ → List ℕ
unfolding tweaks blocks xor_blocks concat
one_batch f k tw rest =
    concat (xor_blocks (map f (xor_blocks (blocks k rest) (tweaks k tw))) (tweaks k tw))

-- The scalar loop over the `left` blocks that are left: `rest` is the sector from byte `off * 16` on.
-- Bytes behind the last whole block stay.
unfoldable pub scalar_tail : (List ℕ → List ℕ) → ℕ → List ℕ → List ℕ → List ℕ
unfolding one_block
scalar_tail f zero tw rest = rest
scalar_tail f (suc left) tw rest =
    one_block f tw (take 16 rest) ++ scalar_tail f left (gf128_mul tw) (drop 16 rest)

abbrev pub batch_size : ℕ
batch_size = 8

-- The batch loop; it runs at most once for each block, which bounds it.
unfoldable pub batch_loop : (List ℕ → List ℕ) → ℕ → ℕ → List ℕ → List ℕ → List ℕ
unfolding one_batch scalar_tail
batch_loop f zero left tw rest = scalar_tail f left tw rest
batch_loop f (suc fuel) left tw rest =
    let more =
      batch_loop f fuel (left - batch_size) (tweak_after batch_size tw)
        (drop (batch_size * 16) rest) in
    if leb batch_size left
    then one_batch f batch_size tw rest ++ more
    else scalar_tail f left tw rest

-- `(rel_sector as u128).to_le_bytes()` of a u64, encrypted with the second key.
unfoldable pub first_tweak : BlockCipher → ℕ → List ℕ
first_tweak b2 rel_sector = b2.encrypt_block (to_le_bytes 16 (rel_sector % 2 ^ 64))

unfoldable pub sector_inner : (List ℕ → List ℕ) → BlockCipher → ℕ → List ℕ → List ℕ
unfolding batch_loop first_tweak
sector_inner f b2 rel_sector sector =
    batch_loop f (length sector / 16) (length sector / 16) (first_tweak b2 rel_sector) sector

-- `for (si, sector) in buf.chunks_mut(sector_size).enumerate()`
unfoldable pub over_sectors : (ℕ → List ℕ → List ℕ) → ℕ → ℕ → List (List ℕ) → List ℕ
over_sectors each first si [] = []
over_sectors each first si (s ∷ ss) =
    each ((first + si) % 2 ^ 64) s ++ over_sectors each first (suc si) ss

module _ (cipher_1 cipher_2 : BlockCipher) where
  unfoldable pub encrypt_sector_inner : ℕ → List ℕ → List ℕ
  unfolding sector_inner
  encrypt_sector_inner rel_sector sector =
      sector_inner cipher_1.encrypt_block cipher_2 rel_sector sector

  unfoldable pub decrypt_sector_inner : ℕ → List ℕ → List ℕ
  unfolding sector_inner
  decrypt_sector_inner rel_sector sector =
      sector_inner cipher_1.decrypt_block cipher_2 rel_sector sector

  unfoldable pub encrypt_area : List ℕ → ℕ → ℕ → List ℕ
  unfolding over_sectors encrypt_sector_inner
  encrypt_area buf sector_size first_rel_sector =
      over_sectors encrypt_sector_inner first_rel_sector 0 (chunks sector_size buf)

  unfoldable pub decrypt_area : List ℕ → ℕ → ℕ → List ℕ
  unfolding over_sectors decrypt_sector_inner
  decrypt_area buf sector_size first_rel_sector =
      over_sectors decrypt_sector_inner first_rel_sector 0 (chunks sector_size buf)

  abbrev pub xts_cipher : VolumeCipher
  xts_cipher = record {
    encrypt_sector = encrypt_sector_inner;
    decrypt_sector = decrypt_sector_inner;
    encrypt_area = encrypt_area;
    decrypt_area = decrypt_area;
  }

  -- `StaticCipherSupplier`: the keys are of the right length, so it always has a cipher.
  abbrev pub static_supplier : CipherSupplier
  static_supplier = record { get_cipher = some xts_cipher }
