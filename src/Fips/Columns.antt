-- ===== src/Fips/Columns.antt =====
-- MixColumns of FIPS-197 is `mix_col`, the linear map that `imix_col` of openmpmic/aes.c undoes.
use xeon_phi_kernel_integrat.Base.{
  ℕ, ◌+◌, ◌*◌, ◌/◌, ◌%◌, ◌^◌, ◌<◌, bit_xor, ◌≡◌, refl, arith, ◌==◌, passes_below, true,
}
use xeon_phi_kernel_integrat.Bits.{
  IsLinear, compose-IsLinear, xor-IsLinear, shl-IsLinear, shr-IsLinear, mod-IsLinear, eq_of_basis,
}
use xeon_phi_kernel_integrat.Aes.Word.{byte}
use xeon_phi_kernel_integrat.Aes.Word.Columns.{mix_col, mix_col-IsLinear, join, byte-lt}
use xeon_phi_kernel_integrat.Aes.Cipher.{Block, word, build}
use xeon_phi_kernel_integrat.Fips.Field.{xtime}
use xeon_phi_kernel_integrat.Fips.Box.{products, xtime-IsLinear}
use xeon_phi_kernel_integrat.Fips.Cipher.{cell, mix_cell, mix_columns}

byte-IsLinear : (n : ℕ) → IsLinear (λ w. byte w n)
unfolding byte
byte-IsLinear n =
    compose-IsLinear (λ x. x % 2 ^ 8) (λ x. x / 2 ^ (n * 2 ^ 3)) (mod-IsLinear 8)
      (shr-IsLinear (n * 2 ^ 3))

xtime-byte-IsLinear : (n : ℕ) → IsLinear (λ w. xtime (byte w n))
xtime-byte-IsLinear n = compose-IsLinear xtime (λ w. byte w n) xtime-IsLinear (byte-IsLinear n)

-- One row of the product, by `xtime` alone.
abbrev row : ℕ → ℕ → ℕ
row r w =
    bit_xor
      (bit_xor (xtime (byte w r)) (bit_xor (xtime (byte w ((r + 1) % 4))) (byte w ((r + 1) % 4))))
      (bit_xor (byte w ((r + 2) % 4)) (byte w ((r + 3) % 4)))

row-IsLinear : (r : ℕ) → IsLinear (row r)
row-IsLinear r =
    xor-IsLinear
      (λ w.
        bit_xor (xtime (byte w r)) (bit_xor (xtime (byte w ((r + 1) % 4))) (byte w ((r + 1) % 4))))
      (λ w. bit_xor (byte w ((r + 2) % 4)) (byte w ((r + 3) % 4)))
      (xor-IsLinear (λ w. xtime (byte w r))
        (λ w. bit_xor (xtime (byte w ((r + 1) % 4))) (byte w ((r + 1) % 4))) (xtime-byte-IsLinear r)
        (xor-IsLinear (λ w. xtime (byte w ((r + 1) % 4))) (λ w. byte w ((r + 1) % 4))
          (xtime-byte-IsLinear ((r + 1) % 4)) (byte-IsLinear ((r + 1) % 4))))
      (xor-IsLinear (λ w. byte w ((r + 2) % 4)) (λ w. byte w ((r + 3) % 4))
        (byte-IsLinear ((r + 2) % 4)) (byte-IsLinear ((r + 3) % 4)))

abbrev mixed : ℕ → ℕ
mixed w = join (row 0 w) (row 1 w) (row 2 w) (row 3 w)

shifted-IsLinear : (k r : ℕ) → IsLinear (λ w. row r w * 2 ^ k)
shifted-IsLinear k r = compose-IsLinear (λ x. x * 2 ^ k) (row r) (shl-IsLinear k) (row-IsLinear r)

mixed-IsLinear : IsLinear mixed
mixed-IsLinear =
    xor-IsLinear (λ w. bit_xor (bit_xor (row 0 w) (row 1 w * 2 ^ 8)) (row 2 w * 2 ^ 16))
      (λ w. row 3 w * 2 ^ 24)
      (xor-IsLinear (λ w. bit_xor (row 0 w) (row 1 w * 2 ^ 8)) (λ w. row 2 w * 2 ^ 16)
        (xor-IsLinear (row 0) (λ w. row 1 w * 2 ^ 8) (row-IsLinear 0) (shifted-IsLinear 8 1))
        (shifted-IsLinear 16 2))
      (shifted-IsLinear 24 3)

same_on_basis : passes_below (λ i. mixed (2 ^ i) == mix_col (2 ^ i)) 32 ≡ true
unfolding passes_below byte xtime mix_col
same_on_basis = refl

mixed-mix_col : (w : ℕ) → w < 2 ^ 32 → mixed w ≡ mix_col w
mixed-mix_col = eq_of_basis 32 mixed mix_col mixed-IsLinear mix_col-IsLinear same_on_basis

mix_cell-row : (b : Block) (r c : ℕ) → mix_cell b r c ≡ row r (word b c)
unfolding mix_cell cell
mix_cell-row b r c = rw (
  (products (byte (word b c) r) (byte-lt _ _)).0,
  (products (byte (word b c) ((r + 1) % 4)) (byte-lt _ _)).1,
)

-- Each column of MixColumns is `mix_col` of the column.
pub mix_columns-mix_col :
    (b : Block)
    → ((c : ℕ) → c < 4 → word b c < 2 ^ 32)
    → mix_columns b ≡ build (λ c. mix_col (word b c))
unfolding mix_columns
mix_columns-mix_col b h = λ i. record {
  w0 = column 0 (omega arith) i;
  w1 = column 1 (omega arith) i;
  w2 = column 2 (omega arith) i;
  w3 = column 3 (omega arith) i;
}
  where
    column :
        (c : ℕ)
        → c < 4
        → join (mix_cell b 0 c) (mix_cell b 1 c) (mix_cell b 2 c) (mix_cell b 3 c)
          ≡ mix_col (word b c)
    column c p =
        rw (mix_cell-row b 0 c, mix_cell-row b 1 c, mix_cell-row b 2 c, mix_cell-row b 3 c)
          (mixed-mix_col (word b c) (h c p))
