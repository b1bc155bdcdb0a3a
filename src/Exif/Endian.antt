-- ===== src/Exif/Endian.antt =====
-- `be16_to_cpu`, `be32_to_cpu` and `be64_to_cpu` of put/exifutil/exifutil.c.
use fuzzuf_cc.Prelude.{ℕ, ◌*◌, ◌/◌, ◌%◌, ◌^◌, bit_and, bit_or}
pub mod Reverse

infixl 60 ◌or◌
abbrev ◌or◌ : ℕ → ℕ → ℕ
a or b = bit_or a b

-- `*v` after the call; a `u16` is computed with as an `int`, and stored as a `u16` again.
unfoldable pub be16_to_cpu : ℕ → ℕ
be16_to_cpu v = (bit_and v 0xff00 / 2 ^ 8 or bit_and v 0x00ff * 2 ^ 8) % 2 ^ 16

unfoldable pub be32_to_cpu : ℕ → ℕ
be32_to_cpu v =
    bit_and v 0xff00_0000 / 2 ^ 24
    or bit_and v 0x00ff_0000 / 2 ^ 8
    or bit_and v 0x0000_ff00 * 2 ^ 8 % 2 ^ 32
    or bit_and v 0x0000_00ff * 2 ^ 24 % 2 ^ 32

unfoldable pub be64_to_cpu : ℕ → ℕ
be64_to_cpu v =
    bit_and v 0xff00_0000_0000_0000 / 2 ^ 56
    or bit_and v 0x00ff_0000_0000_0000 / 2 ^ 40
    or bit_and v 0x0000_ff00_0000_0000 * 2 ^ 24 % 2 ^ 64
    or bit_and v 0x0000_00ff_0000_0000 * 2 ^ 8 % 2 ^ 64
    or bit_and v 0x0000_0000_ff00_0000 * 2 ^ 8 % 2 ^ 64
    or bit_and v 0x0000_0000_00ff_0000 * 2 ^ 24 % 2 ^ 64
    or bit_and v 0x0000_0000_0000_ff00 * 2 ^ 40 % 2 ^ 64
    or bit_and v 0x0000_0000_0000_00ff * 2 ^ 56 % 2 ^ 64
