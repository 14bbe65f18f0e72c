-- ===== src/Checksum/Tests.antt =====
-- The checksum and the hash of a text.
use bootpd.Common.{ℕ, ◌^◌, ◌<◌, ◌≡◌, ◌≢◌, refl, codes, [], ◌∷◌, ok, Bytes, arith}
use bootpd.Checksum.{crc32, cxhash}
use bootpd.Checksum.Detect.{crc32-changed_byte}
use bootpd.Checksum.Crc.{crc_by_bits, crc32-crc_by_bits}

-- The text whose check is published for each kind of CRC.
abbrev check_text : Bytes
check_text = codes "123456789"

crc32-crc_by_bits_example :
    (crc32 check_text 0xffffffff ≡ ok (crc_by_bits check_text 0xffffffff))
    × (crc_by_bits check_text 0xffffffff < 2 ^ 32)
crc32-crc_by_bits_example =
    crc32-crc_by_bits check_text 0xffffffff
      (
        omega arith,
        (
          omega arith,
          (
            omega arith,
            (
              omega arith,
              (omega arith, (omega arith, (omega arith, (omega arith, (omega arith, tt))))),
            ),
          ),
        ),
      )
      (omega arith)

-- CRC-32/MPEG-2 of it.
crc32_check : crc32 check_text 0xffffffff ≡ ok 0x0376e6e7
unfolding crc32
crc32_check = refl

-- The hash starts at 0 and multiplies by the number that FNV-1 starts with.
cxhash_one : cxhash (codes "a") ≡ 97
cxhash_one = refl

two_four : ◌≢◌ {A = ℕ} 2 4
two_four e = omega (arith, e)

crc32-changed_byte_example : crc32 (1 ∷ 2 ∷ 3 ∷ []) 0 ≢ crc32 (1 ∷ 4 ∷ 3 ∷ []) 0
crc32-changed_byte_example =
    crc32-changed_byte (1 ∷ []) (3 ∷ []) 2 4 0 (omega arith, (omega arith, (omega arith, tt)))
      (omega arith) (omega arith) two_four
