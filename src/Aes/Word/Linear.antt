-- ===== src/Aes/Word/Linear.antt =====
-- `star_x`, `ror32` and `imix_col` distribute over `^`.
use xeon_phi_kernel_integrat.Base.{
  ℕ, zero, suc, ◌+◌, ◌-◌, ◌*◌, ◌/◌, ◌%◌, ◌^◌, ◌<◌, bit_and, bit_xor, ◌≡◌, refl, ap, arith,
}
use xeon_phi_kernel_integrat.Bits.{
  IsLinear, compose-IsLinear, xor-IsLinear, and-IsLinear, shl-IsLinear, shr-IsLinear, mod-IsLinear,
  id-IsLinear, bit_and_step, xor_fields, or-eq-xor, or_comm, xor_comm, xor-mul, and-zero, and-div,
  and_shl,
}
use xeon_phi_kernel_integrat.Aes.Word.{u32, ror32, star_x, imix_col}

-- Multiplication by 0x1b without carries.
abbrev pub times_1b : ℕ → ℕ
times_1b y = bit_xor (bit_xor (y * 2 ^ 0) (y * 2 ^ 1)) (bit_xor (y * 2 ^ 3) (y * 2 ^ 4))

pub times_1b-IsLinear : IsLinear times_1b
times_1b-IsLinear =
    xor-IsLinear (λ y. bit_xor (y * 2 ^ 0) (y * 2 ^ 1)) (λ y. bit_xor (y * 2 ^ 3) (y * 2 ^ 4))
      (xor-IsLinear (λ y. y * 2 ^ 0) (λ y. y * 2 ^ 1) (shl-IsLinear 0) (shl-IsLinear 1))
      (xor-IsLinear (λ y. y * 2 ^ 3) (λ y. y * 2 ^ 4) (shl-IsLinear 3) (shl-IsLinear 4))

pub times_1b-digit : (d : ℕ) → d < 2 → times_1b d ≡ d * 0x1b
times_1b-digit zero h = refl
times_1b-digit (suc zero) h = refl
times_1b-digit (suc (suc d)) h = absurd (omega arith)

times_1b-mul : (q : ℕ) → times_1b (q * 2 ^ 8) ≡ times_1b q * 2 ^ 8
times_1b-mul q = rw (
  ← xor-mul 8 (bit_xor (q * 2 ^ 0) (q * 2 ^ 1)) (bit_xor (q * 2 ^ 3) (q * 2 ^ 4)),
  ← xor-mul 8 (q * 2 ^ 0) (q * 2 ^ 1),
  ← xor-mul 8 (q * 2 ^ 3) (q * 2 ^ 4),
  swap 0,
  swap 1,
  swap 3,
  swap 4,
)
  where
    swap : (k : ℕ) → q * 2 ^ 8 * 2 ^ k ≡ q * 2 ^ k * 2 ^ 8
    swap k = omega arith

times_1b-fields :
    (q d : ℕ) → d < 2 → times_1b q ≡ q * 0x1b → times_1b (q * 2 ^ 8 + d) ≡ (q * 2 ^ 8 + d) * 0x1b
times_1b-fields q d h e =
    rw
      (
        ← xor_fields 8 q d (omega arith),
        times_1b-IsLinear (q * 2 ^ 8) d,
        times_1b-mul q,
        e,
        times_1b-digit d h,
        xor_fields 8 (q * 0x1b) (d * 0x1b) (omega arith),
        xor_fields 8 q d (omega arith),
      )
      (omega arith)

-- A mask with its ones at the bottom of each byte.
and_sparse : (z m : ℕ) → bit_and z (m * 2 ^ 8 + 1) ≡ bit_and (z / 2 ^ 8) m * 2 ^ 8 + z % 2
and_sparse z m = omega (
  arith,
  bit_and_step z (m * 2 ^ 8 + 1),
  ap (λ (t : ℕ). bit_and (z / 2) t) half,
  and_shl 7 (z / 2) m,
  ap (λ (t : ℕ). bit_and t m) quarter,
)
  where
    half : (m * 2 ^ 8 + 1) / 2 ≡ m * 2 ^ 7
    half = omega arith

    quarter : z / 2 / 2 ^ 7 ≡ z / 2 ^ 8
    quarter = omega arith

times_1b-sparse :
    (m : ℕ)
    → ((z : ℕ) → times_1b (bit_and z m) ≡ bit_and z m * 0x1b)
    → (z : ℕ) → times_1b (bit_and z (m * 2 ^ 8 + 1)) ≡ bit_and z (m * 2 ^ 8 + 1) * 0x1b
times_1b-sparse m h z =
    rw (and_sparse z m)
      (times_1b-fields (bit_and (z / 2 ^ 8) m) (z % 2) (omega arith) (h (z / 2 ^ 8)))

times_1b_lem : (z : ℕ) → times_1b (bit_and z 0x01010101) ≡ bit_and z 0x01010101 * 0x1b
times_1b_lem =
    times_1b-sparse 0x010101
      (times_1b-sparse 0x0101 (times_1b-sparse 0x01 (times_1b-sparse 0 none_set)))
  where
    none_set : (z : ℕ) → times_1b (bit_and z 0) ≡ bit_and z 0 * 0x1b
    none_set z = rw (and-zero z)

-- The two summands of `star_x`, each a composition of shifts, masks and `^`.
abbrev low_part : ℕ → ℕ
low_part x = u32 (bit_and x 0x7f7f7f7f * 2 ^ 1)

abbrev carry_part : ℕ → ℕ
carry_part x = u32 (times_1b (bit_and x 0x80808080 / 2 ^ 7))

star_x-parts : (x : ℕ) → star_x x ≡ bit_xor (low_part x) (carry_part x)
unfolding star_x
star_x-parts x = rw (and-div 7 x 0x80808080, times_1b_lem (x / 2 ^ 7))

low_part-IsLinear : IsLinear low_part
low_part-IsLinear =
    compose-IsLinear u32 (λ x. bit_and x 0x7f7f7f7f * 2 ^ 1) (mod-IsLinear 32)
      (compose-IsLinear (λ x. x * 2 ^ 1) (λ x. bit_and x 0x7f7f7f7f) (shl-IsLinear 1)
        (and-IsLinear 0x7f7f7f7f))

carry_part-IsLinear : IsLinear carry_part
carry_part-IsLinear =
    compose-IsLinear u32 (λ x. times_1b (bit_and x 0x80808080 / 2 ^ 7)) (mod-IsLinear 32)
      (compose-IsLinear times_1b (λ x. bit_and x 0x80808080 / 2 ^ 7) times_1b-IsLinear
        (compose-IsLinear (λ x. x / 2 ^ 7) (λ x. bit_and x 0x80808080) (shr-IsLinear 7)
          (and-IsLinear 0x80808080)))

pub star_x-IsLinear : IsLinear star_x
star_x-IsLinear a b =
    rw (star_x-parts (bit_xor a b), star_x-parts a, star_x-parts b)
      (xor-IsLinear low_part carry_part low_part-IsLinear carry_part-IsLinear a b)

-- A rotation is the exclusive or of its two shifts.
abbrev pub rotated : ℕ → ℕ → ℕ
rotated s x = bit_xor (u32 x / 2 ^ s) (u32 (u32 x * 2 ^ (32 - s)))

ror32-rotated :
    (s x q : ℕ)
    → u32 (u32 x * 2 ^ (32 - s)) ≡ q * 2 ^ (32 - s)
    → u32 x / 2 ^ s < 2 ^ (32 - s)
    → ror32 x s ≡ rotated s x
unfolding ror32
ror32-rotated s x q e h = rw (
  e,
  or_comm (u32 x / 2 ^ s) (q * 2 ^ (32 - s)),
  or-eq-xor (32 - s) q (u32 x / 2 ^ s) h,
  xor_comm (q * 2 ^ (32 - s)) (u32 x / 2 ^ s),
)

rotated-IsLinear : (s : ℕ) → IsLinear (rotated s)
rotated-IsLinear s =
    xor-IsLinear (λ x. u32 x / 2 ^ s) (λ x. u32 (u32 x * 2 ^ (32 - s)))
      (compose-IsLinear (λ x. x / 2 ^ s) u32 (shr-IsLinear s) (mod-IsLinear 32))
      (compose-IsLinear u32 (λ x. u32 x * 2 ^ (32 - s)) (mod-IsLinear 32)
        (compose-IsLinear (λ x. x * 2 ^ (32 - s)) u32 (shl-IsLinear (32 - s)) (mod-IsLinear 32)))

ror32-IsLinear_of : (s : ℕ) → ((x : ℕ) → ror32 x s ≡ rotated s x) → IsLinear (λ x. ror32 x s)
ror32-IsLinear_of s e a b = rw (e (bit_xor a b), e a, e b) (rotated-IsLinear s a b)

-- The three rotations of `imix_col` and `imix_col`'s rows.
pub rotate_8 : (x : ℕ) → ror32 x 8 ≡ rotated 8 x
rotate_8 x = ror32-rotated 8 x (u32 x % 2 ^ 8) (omega arith) (omega arith)

pub rotate_16 : (x : ℕ) → ror32 x 16 ≡ rotated 16 x
rotate_16 x = ror32-rotated 16 x (u32 x % 2 ^ 16) (omega arith) (omega arith)

pub rotate_24 : (x : ℕ) → ror32 x 24 ≡ rotated 24 x
rotate_24 x = ror32-rotated 24 x (u32 x % 2 ^ 24) (omega arith) (omega arith)

pub ror32-8-IsLinear : IsLinear (λ x. ror32 x 8)
ror32-8-IsLinear = ror32-IsLinear_of 8 rotate_8

pub ror32-16-IsLinear : IsLinear (λ x. ror32 x 16)
ror32-16-IsLinear = ror32-IsLinear_of 16 rotate_16

pub ror32-24-IsLinear : IsLinear (λ x. ror32 x 24)
ror32-24-IsLinear = ror32-IsLinear_of 24 rotate_24

-- The variables `v`, `w` and `t` of `imix_col`, as functions of its argument.
abbrev var_v : ℕ → ℕ
var_v x = star_x (star_x x)

abbrev var_w : ℕ → ℕ
var_w x = star_x (var_v x)

abbrev var_t : ℕ → ℕ
var_t x = bit_xor (var_w x) x

var_v-IsLinear : IsLinear var_v
var_v-IsLinear = compose-IsLinear star_x star_x star_x-IsLinear star_x-IsLinear

var_w-IsLinear : IsLinear var_w
var_w-IsLinear = compose-IsLinear star_x var_v star_x-IsLinear var_v-IsLinear

var_t-IsLinear : IsLinear var_t
var_t-IsLinear = xor-IsLinear var_w (λ x. x) var_w-IsLinear id-IsLinear

-- The sum of the four rotations, each distributing over `^`.
abbrev rotations : ℕ → ℕ
rotations x =
    bit_xor
      (bit_xor (ror32 (bit_xor (star_x x) (var_t x)) 8) (ror32 (bit_xor (var_v x) (var_t x)) 16))
      (ror32 (var_t x) 24)

rotations-IsLinear : IsLinear rotations
rotations-IsLinear =
    xor-IsLinear
      (λ x.
        bit_xor (ror32 (bit_xor (star_x x) (var_t x)) 8) (ror32 (bit_xor (var_v x) (var_t x)) 16))
      (λ x. ror32 (var_t x) 24)
      (xor-IsLinear (λ x. ror32 (bit_xor (star_x x) (var_t x)) 8)
        (λ x. ror32 (bit_xor (var_v x) (var_t x)) 16)
        (compose-IsLinear (λ x. ror32 x 8) (λ x. bit_xor (star_x x) (var_t x)) ror32-8-IsLinear
          (xor-IsLinear star_x var_t star_x-IsLinear var_t-IsLinear))
        (compose-IsLinear (λ x. ror32 x 16) (λ x. bit_xor (var_v x) (var_t x)) ror32-16-IsLinear
          (xor-IsLinear var_v var_t var_v-IsLinear var_t-IsLinear)))
      (compose-IsLinear (λ x. ror32 x 24) var_t ror32-24-IsLinear var_t-IsLinear)

-- `imix_col` distributes over `^`.
pub imix_col-IsLinear : IsLinear imix_col
unfolding imix_col
imix_col-IsLinear =
    xor-IsLinear (λ x. bit_xor (bit_xor (star_x x) (var_v x)) (var_w x)) rotations
      (xor-IsLinear (λ x. bit_xor (star_x x) (var_v x)) var_w
        (xor-IsLinear star_x var_v star_x-IsLinear var_v-IsLinear) var_w-IsLinear)
      rotations-IsLinear
