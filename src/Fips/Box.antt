-- ===== src/Fips/Box.antt =====
-- The tables of openmpmic/aes.c hold the box and the products of FIPS-197.
use xeon_phi_kernel_integrat.Base.{
  ℕ, ◌*◌, ◌/◌, ◌%◌, ◌^◌, ◌<◌, bit_xor, ◌≡◌, refl, arith, ◌==◌, ◌&&◌, ==_iff, passes_below,
  passes_below_at, true,
}
use xeon_phi_kernel_integrat.Bits.{
  IsLinear, compose-IsLinear, xor-IsLinear, shl-IsLinear, shr-IsLinear, mod-IsLinear,
}
use xeon_phi_kernel_integrat.Aes.Word.{entry}
use xeon_phi_kernel_integrat.Aes.Word.Linear.{times_1b, times_1b-IsLinear, times_1b-digit}
use xeon_phi_kernel_integrat.Aes.Tables.Fl.{fl_tab0}
use xeon_phi_kernel_integrat.Aes.Tables.Laws.{sub_byte}
use xeon_phi_kernel_integrat.Fips.Field.{xtime, gf_mul, s_box}

box_table : passes_below (λ x. sub_byte x == s_box x) 256 ≡ true
unfolding passes_below entry fl_tab0 s_box
box_table = refl

-- The table of the last round is the substitution box of FIPS-197.
pub sub_byte-s_box : (x : ℕ) → x < 2 ^ 8 → sub_byte x ≡ s_box x
sub_byte-s_box x h =
    (==_iff (sub_byte x) (s_box x)).0
      (passes_below_at (λ x. sub_byte x == s_box x) 256 box_table x h)

products_table :
    passes_below (λ x. (gf_mul x 2 == xtime x) && (gf_mul x 3 == bit_xor (xtime x) x)) 256 ≡ true
unfolding passes_below gf_mul
products_table = refl

pub products : (x : ℕ) → x < 2 ^ 8 → (gf_mul x 2 ≡ xtime x) × (gf_mul x 3 ≡ bit_xor (xtime x) x)
products x h = ground (
  arith,
  passes_below_at (λ x. (gf_mul x 2 == xtime x) && (gf_mul x 3 == bit_xor (xtime x) x)) 256
      products_table x h,
)

xtime-parts : (b : ℕ) → xtime b ≡ bit_xor (b * 2 ^ 1 % 2 ^ 8) (times_1b (b / 2 ^ 7 % 2 ^ 1))
unfolding xtime
xtime-parts b = rw (times_1b-digit (b / 2 ^ 7 % 2 ^ 1) (omega arith))

pub xtime-IsLinear : IsLinear xtime
xtime-IsLinear a b =
    rw (xtime-parts (bit_xor a b), xtime-parts a, xtime-parts b)
      (xor-IsLinear (λ x. x * 2 ^ 1 % 2 ^ 8) (λ x. times_1b (x / 2 ^ 7 % 2 ^ 1))
        (compose-IsLinear (λ x. x % 2 ^ 8) (λ x. x * 2 ^ 1) (mod-IsLinear 8) (shl-IsLinear 1))
        (compose-IsLinear times_1b (λ x. x / 2 ^ 7 % 2 ^ 1) times_1b-IsLinear
          (compose-IsLinear (λ x. x % 2 ^ 1) (λ x. x / 2 ^ 7) (mod-IsLinear 1) (shr-IsLinear 7)))
        a b)
