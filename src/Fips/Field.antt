-- ===== src/Fips/Field.antt =====
-- Bytes as elements of GF(2^8), and the substitution box that FIPS-197 builds from them. This is
-- the description that the tables of openmpmic/aes.c are held against.
use xeon_phi_kernel_integrat.Base.{
  ℕ, zero, suc, ◌+◌, ◌-◌, ◌*◌, ◌/◌, ◌%◌, ◌^◌, bit_xor, ◌==◌, if◌then◌else◌,
}

-- x times the polynomial b, modulo x^8 + x^4 + x^3 + x + 1
unfoldable pub xtime : ℕ → ℕ
xtime b = bit_xor (b * 2 ^ 1 % 2 ^ 8) (b / 2 ^ 7 % 2 * 0x1b)

-- a times the polynomial with the lowest n digits of b
unfoldable pub multiply : ℕ → ℕ → ℕ → ℕ
multiply zero a b = 0
multiply (suc n) a b = bit_xor (if b % 2 == 1 then a else 0) (multiply n (xtime a) (b / 2))

unfoldable pub gf_mul : ℕ → ℕ → ℕ
unfolding multiply xtime
gf_mul a b = multiply 8 a b

-- the product of a^2, a^4, …, a^(2^n)
unfoldable pub square_product : ℕ → ℕ → ℕ
square_product zero a = 1
square_product (suc n) a = let sq = gf_mul a a in gf_mul sq (square_product n sq)

-- a^254, which is the inverse of a, and 0 for 0
unfoldable pub gf_inverse : ℕ → ℕ
unfolding gf_mul square_product
gf_inverse a = square_product 7 a

unfoldable pub rotl8 : ℕ → ℕ → ℕ
rotl8 y k = y * 2 ^ k % 2 ^ 8 + y / 2 ^ (8 - k)

-- the affine map of FIPS-197, 5.1.1, on the inverse
unfoldable pub s_box : ℕ → ℕ
unfolding gf_inverse rotl8
s_box x =
    let y = gf_inverse x in
    bit_xor
      (bit_xor (bit_xor (bit_xor (bit_xor y (rotl8 y 1)) (rotl8 y 2)) (rotl8 y 3)) (rotl8 y 4)) 0x63
