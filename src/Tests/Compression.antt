-- ===== src/Tests/Compression.antt =====
-- A compressor of sections and its decompressor, for the runs.
use locust_db.Prelude.{
  ℕ, ◌+◌, ◌*◌, ◌/◌, ◌%◌, ◌==◌, ◌<◌, ◌^◌, ◌≡◌, refl, ap, ap₂, List, [], ◌∷◌, map, if◌then◌else◌,
  arith,
}
use locust_db.Prelude.Int.{ℤ, pos, negsuc, IsI64}
use locust_db.Stringpack.{Bytes}
use locust_db.Engine.DataTypes.Types.{EncodingType}
use locust_db.MemStore.Column.{
  DataSection, section_u8, section_u16, section_u32, section_u64, section_i64, section_f64,
  section_null, encoding_type, len,
}

-- A compressor that only writes integers as natural numbers.
abbrev zigzag : ℤ → ℕ
zigzag (pos n) = n * 2
zigzag (negsuc n) = n * 2 + 1

abbrev unzigzag : ℕ → ℤ
unzigzag m = if m % 2 == 0 then pos (m / 2) else negsuc (m / 2)

unzigzag-zigzag : (a : ℤ) → unzigzag (zigzag a) ≡ a
unzigzag-zigzag a = ground arith

abbrev pub compress : DataSection → Bytes
compress (section_u8 x) = x
compress (section_u16 x) = x
compress (section_u32 x) = x
compress (section_u64 x) = x
compress (section_i64 x) = map zigzag x
compress (section_f64 x) = x
compress (section_null n) = []

abbrev pub decompress : Bytes → EncodingType → ℕ → DataSection
decompress bytes EncodingType.u8 n = section_u8 bytes
decompress bytes EncodingType.u16 n = section_u16 bytes
decompress bytes EncodingType.u32 n = section_u32 bytes
decompress bytes EncodingType.u64 n = section_u64 bytes
decompress bytes EncodingType.i64 n = section_i64 (map unzigzag bytes)
decompress bytes EncodingType.f64 n = section_f64 bytes
decompress bytes _ n = section_null n

map-zigzag : (xs : List ℤ) → map unzigzag (map zigzag xs) ≡ xs
map-zigzag [] = refl
map-zigzag (x ∷ xs) = ap₂ ◌∷◌ (unzigzag-zigzag x) (map-zigzag xs)

pub decompress-compress :
    (section : DataSection)
    → decompress (compress section) (encoding_type section) (len section) ≡ section
unfolding encoding_type len
decompress-compress (section_u8 x) = refl
decompress-compress (section_u16 x) = refl
decompress-compress (section_u32 x) = refl
decompress-compress (section_u64 x) = refl
decompress-compress (section_i64 x) = ap section_i64 (map-zigzag x)
decompress-compress (section_f64 x) = refl
decompress-compress (section_null n) = refl

pub IsI64-small : (n : ℕ) → n < 2 ^ 63 → IsI64 (pos n)
IsI64-small n h = record { below = h; above = omega arith }
