-- ===== src/Tests/Crc.antt =====
-- The checksum of a known input.
use aetherfs.Base.{ℕ, ◌≡◌, ◌++◌, refl, List, [], ◌∷◌, replicate}
use aetherfs.Format.Crc.{crc32c_data, AreBytes, crc32c_data-lt, crc32c_data_leading_zeros}

abbrev digits : List ℕ
digits = 0x31 ∷ 0x32 ∷ 0x33 ∷ 0x34 ∷ 0x35 ∷ 0x36 ∷ 0x37 ∷ 0x38 ∷ 0x39 ∷ []

crc_digits : crc32c_data digits ≡ 0xD202D277
unfolding crc32c_data aetherfs.Format.Crc.crc32c aetherfs.Format.Crc.crc_loop
    aetherfs.Format.Crc.crc_bits aetherfs.Format.Crc.crc_bit
crc_digits = refl

crc32c_data_leading_zeros_example : crc32c_data (replicate 3 0 ++ digits) ≡ crc32c_data digits
crc32c_data_leading_zeros_example = crc32c_data_leading_zeros 3 digits
