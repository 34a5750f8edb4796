-- ===== src/Aes/Word.antt =====
-- The word operations of openmpmic/aes.c and the `ror32` of bitops.h. A `uint32_t` is a number
-- below `2 ^ 32`, and each operation writes out where C cuts its result off.
pub mod Linear
pub mod Columns
use xeon_phi_kernel_integrat.Base.{
  ℕ, ◌-◌, ◌*◌, ◌/◌, ◌%◌, ◌^◌, bit_and, bit_or, bit_xor, List, get_or,
}
use xeon_phi_kernel_integrat.Aes.Tables.Fl.{fl_tab0, fl_tab1, fl_tab2, fl_tab3}

-- `(uint32_t) n`
abbrev pub u32 : ℕ → ℕ
u32 n = n % 2 ^ 32

-- `x >> (n << 3)`, cut to a `uint8_t` by the return type
unfoldable pub byte : ℕ → ℕ → ℕ
byte x n = x / 2 ^ (n * 2 ^ 3) % 2 ^ 8

-- `tab[i]`. A read out of range would give 0; every index that the code uses is a byte.
unfoldable pub entry : List ℕ → ℕ → ℕ
entry tab i = get_or tab i 0

-- The parameter `word` is a `uint32_t`, so an argument is cut to 32 bits.
unfoldable pub ror32 : ℕ → ℕ → ℕ
ror32 word shift = let w = u32 word in bit_or (w / 2 ^ shift) (u32 (w * 2 ^ (32 - shift)))

-- the macro `star_x`: each byte of the word times x in GF(2^8)
unfoldable pub star_x : ℕ → ℕ
star_x x = bit_xor (u32 (bit_and x 0x7f7f7f7f * 2 ^ 1)) (u32 (bit_and x 0x80808080 / 2 ^ 7 * 0x1b))

-- the macro `imix_col(y, x)`: the value that it leaves in `y`
unfoldable pub imix_col : ℕ → ℕ
unfolding star_x ror32
imix_col x =
    let u = star_x x in
    let v = star_x u in
    let w = star_x v in
    let t = bit_xor w x in
    let y = bit_xor (bit_xor u v) w in
    bit_xor y (bit_xor (bit_xor (ror32 (bit_xor u t) 8) (ror32 (bit_xor v t) 16)) (ror32 t 24))

-- the macro `ls_box`
unfoldable pub ls_box : ℕ → ℕ
ls_box x =
    bit_xor
      (bit_xor (bit_xor (entry fl_tab0 (byte x 0)) (entry fl_tab1 (byte x 1)))
        (entry fl_tab2 (byte x 2)))
      (entry fl_tab3 (byte x 3))
