-- ===== src/Aes/Word/Columns.antt =====
-- `imix_col` against MixColumns, and words as four bytes.
use xeon_phi_kernel_integrat.Base.{
  ℕ, ◌+◌, ◌*◌, ◌^◌, ◌<◌, bit_xor, ◌≡◌, refl, arith, ◌==◌, passes_below, true,
}
use xeon_phi_kernel_integrat.Bits.{
  IsLinear, compose-IsLinear, xor-IsLinear, id-IsLinear, eq_of_basis, xor_fields, xor_comm,
}
use xeon_phi_kernel_integrat.Aes.Word.{byte, ror32, star_x, imix_col}
use xeon_phi_kernel_integrat.Aes.Word.Linear.{
  star_x-IsLinear, ror32-8-IsLinear, ror32-16-IsLinear, ror32-24-IsLinear, imix_col-IsLinear,
}

-- MixColumns of FIPS-197 on one column: 2, 3, 1 and 1 times a byte and the three above it.
unfoldable pub mix_col : ℕ → ℕ
unfolding star_x ror32
mix_col x =
    bit_xor (bit_xor (star_x x) (ror32 (bit_xor (star_x x) x) 8))
      (bit_xor (ror32 x 16) (ror32 x 24))

pub mix_col-IsLinear : IsLinear mix_col
unfolding mix_col
mix_col-IsLinear =
    xor-IsLinear (λ x. bit_xor (star_x x) (ror32 (bit_xor (star_x x) x) 8))
      (λ x. bit_xor (ror32 x 16) (ror32 x 24))
      (xor-IsLinear star_x (λ x. ror32 (bit_xor (star_x x) x) 8) star_x-IsLinear
        (compose-IsLinear (λ x. ror32 x 8) (λ x. bit_xor (star_x x) x) ror32-8-IsLinear
          (xor-IsLinear star_x (λ x. x) star_x-IsLinear id-IsLinear)))
      (xor-IsLinear (λ x. ror32 x 16) (λ x. ror32 x 24) ror32-16-IsLinear ror32-24-IsLinear)

inverse_on_basis : passes_below (λ i. imix_col (mix_col (2 ^ i)) == 2 ^ i) 32 ≡ true
unfolding passes_below imix_col mix_col
inverse_on_basis = refl

-- `imix_col` undoes MixColumns on every word.
pub imix_col-mix_col : (w : ℕ) → w < 2 ^ 32 → imix_col (mix_col w) ≡ w
imix_col-mix_col =
    eq_of_basis 32 (λ x. imix_col (mix_col x)) (λ x. x)
      (compose-IsLinear imix_col mix_col imix_col-IsLinear mix_col-IsLinear) id-IsLinear
      inverse_on_basis

-- Four bytes as a word, lowest first.
abbrev pub join : ℕ → ℕ → ℕ → ℕ → ℕ
join s0 s1 s2 s3 = bit_xor (bit_xor (bit_xor s0 (s1 * 2 ^ 8)) (s2 * 2 ^ 16)) (s3 * 2 ^ 24)

module _ (s0 s1 s2 s3 : ℕ) (h0 : s0 < 2 ^ 8) (h1 : s1 < 2 ^ 8) (h2 : s2 < 2 ^ 8)
    (h3 : s3 < 2 ^ 8) where
  pub join_sum : join s0 s1 s2 s3 ≡ s0 + s1 * 2 ^ 8 + s2 * 2 ^ 16 + s3 * 2 ^ 24
  join_sum =
      rw
        (
          xor_comm s0 (s1 * 2 ^ 8),
          xor_fields 8 s1 s0 h0,
          xor_comm (s1 * 2 ^ 8 + s0) (s2 * 2 ^ 16),
          xor_fields 16 s2 (s1 * 2 ^ 8 + s0) (omega arith),
          xor_comm (s2 * 2 ^ 16 + (s1 * 2 ^ 8 + s0)) (s3 * 2 ^ 24),
          xor_fields 24 s3 (s2 * 2 ^ 16 + (s1 * 2 ^ 8 + s0)) (omega arith),
        )
        (omega arith)

  pub byte-join-zero : byte (join s0 s1 s2 s3) 0 ≡ s0
  unfolding byte
  byte-join-zero = rw join_sum (omega arith)

  pub byte-join-one : byte (join s0 s1 s2 s3) 1 ≡ s1
  unfolding byte
  byte-join-one = rw join_sum (omega arith)

  pub byte-join-two : byte (join s0 s1 s2 s3) 2 ≡ s2
  unfolding byte
  byte-join-two = rw join_sum (omega arith)

  pub byte-join-three : byte (join s0 s1 s2 s3) 3 ≡ s3
  unfolding byte
  byte-join-three = rw join_sum (omega arith)

pub byte-lt : (w n : ℕ) → byte w n < 2 ^ 8
unfolding byte
byte-lt w n = omega arith

-- A word is made of its four bytes.
pub join-byte : (w : ℕ) → w < 2 ^ 32 → join (byte w 0) (byte w 1) (byte w 2) (byte w 3) ≡ w
unfolding byte
join-byte w h =
    rw
      (join_sum (byte w 0) (byte w 1) (byte w 2) (byte w 3) (byte-lt w 0) (byte-lt w 1)
        (byte-lt w 2) (byte-lt w 3))
      (omega arith)
