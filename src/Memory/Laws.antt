-- ===== src/Memory/Laws.antt =====
-- Reading back what was stored, byte by byte and block by block.
use native.Mathlib.Decide.{dec_lt}
use xeon_phi_kernel_integrat.Base.{ℕ, zero, suc, ◌+◌, ◌-◌, ◌^◌, ◌≤◌, ◌<◌, ◌≡◌, ◌⊎◌, ap, arith, ◌∙◌}
use xeon_phi_kernel_integrat.Aes.Word.{byte}
use xeon_phi_kernel_integrat.Aes.Word.Columns.{byte-lt}
use xeon_phi_kernel_integrat.Aes.Cipher.{Block}
use xeon_phi_kernel_integrat.Aes.Cipher.Rounds.{IsBlock}
use xeon_phi_kernel_integrat.Memory.{Memory, load32, store32, load_block, store_block}

abbrev pub IsBytes : Memory → Type 0
IsBytes m = (a : ℕ) → m a < 2 ^ 8

store32-IsBytes : (a v : ℕ) {m : Memory} → IsBytes m → IsBytes (store32 a v m)
unfolding store32
store32-IsBytes a v {m} h x =
    ground (arith, byte-lt v 0, byte-lt v 1, byte-lt v 2, byte-lt v 3, h x)

pub store_block-IsBytes : (a : ℕ) (b : Block) {m : Memory} → IsBytes m → IsBytes (store_block a b m)
unfolding store_block
store_block-IsBytes a b h =
    store32-IsBytes (a + 12) b.w3
      (store32-IsBytes (a + 8) b.w2 (store32-IsBytes (a + 4) b.w1 (store32-IsBytes a b.w0 h)))

store32_other : (a v : ℕ) (m : Memory) (x : ℕ) → (x < a) ⊎ (a + 4 ≤ x) → store32 a v m x ≡ m x
unfolding store32
store32_other a v m x h = ground arith

-- A store touches its sixteen bytes alone.
pub store_block_other :
    (a : ℕ) (b : Block) (m : Memory) (x : ℕ) → (x < a) ⊎ (a + 16 ≤ x) → store_block a b m x ≡ m x
unfolding store_block
store_block_other a b m x h = ground (
  arith,
  store32_other (a + 12) b.w3 (store32 (a + 8) b.w2 (store32 (a + 4) b.w1 (store32 a b.w0 m))) x,
  store32_other (a + 8) b.w2 (store32 (a + 4) b.w1 (store32 a b.w0 m)) x,
  store32_other (a + 4) b.w1 (store32 a b.w0 m) x,
  store32_other a b.w0 m x,
)

load32-store32 : (a v : ℕ) (m : Memory) → v < 2 ^ 32 → load32 (store32 a v m) a ≡ v
unfolding load32 store32 byte
load32-store32 a v m h = ground arith

-- The same bytes at two places are the same word.
load32_moved :
    (m m' : Memory) (a a' : ℕ)
    → ((i : ℕ) → i < 4 → m (a + i) ≡ m' (a' + i))
    → load32 m a ≡ load32 m' a'
unfolding load32
load32_moved m m' a a' h = omega (
  arith,
  ap m {x = a + 0} {y = a} (omega arith),
  ap m' {x = a' + 0} {y = a'} (omega arith),
  h 0 (omega arith),
  h 1 (omega arith),
  h 2 (omega arith),
  h 3 (omega arith),
)

-- The same sixteen bytes at two places are the same block.
pub load_block_moved :
    (m m' : Memory) (a a' : ℕ)
    → ((i : ℕ) → i < 16 → m (a + i) ≡ m' (a' + i))
    → load_block m a ≡ load_block m' a'
unfolding load_block
load_block_moved m m' a a' h = λ i. record {
  w0 = load32_moved m m' a a' (λ k p. h k (omega arith)) i;
  w1 = part 4 (omega arith) i;
  w2 = part 8 (omega arith) i;
  w3 = part 12 (omega arith) i;
}
  where
    part : (n : ℕ) → n ≤ 12 → load32 m (a + n) ≡ load32 m' (a' + n)
    part n le = load32_moved m m' (a + n) (a' + n) (λ k p.
        ap m {x = a + n + k} {y = a + (n + k)} (omega arith)
        ∙ h (n + k) (omega arith)
        ∙ ap m' {x = a' + (n + k)} {y = a' + n + k} (omega arith))

load32_kept :
    (n a v : ℕ) (m : Memory) → (n + 4 ≤ a) ⊎ (a + 4 ≤ n) → load32 (store32 a v m) n ≡ load32 m n
load32_kept n a v m h =
    load32_moved (store32 a v m) m n n (λ i p. store32_other a v m (n + i) (ground arith))

-- A block that is stored can be loaded again.
pub load_block-store_block :
    (a : ℕ) (b : Block) (m : Memory) → IsBlock b → load_block (store_block a b m) a ≡ b
unfolding load_block store_block
load_block-store_block a b m (h0, h1, h2, h3) = λ i. record {
  w0 = first i;
  w1 = second i;
  w2 = third i;
  w3 = load32-store32 (a + 12) b.w3 m3 h3 i;
}
  where
    m1 : Memory
    m1 = store32 a b.w0 m

    m2 : Memory
    m2 = store32 (a + 4) b.w1 m1

    m3 : Memory
    m3 = store32 (a + 8) b.w2 m2

    third : load32 (store32 (a + 12) b.w3 m3) (a + 8) ≡ b.w2
    third = load32_kept (a + 8) (a + 12) b.w3 m3 (omega arith) ∙ load32-store32 (a + 8) b.w2 m2 h2

    second : load32 (store32 (a + 12) b.w3 m3) (a + 4) ≡ b.w1
    second =
        load32_kept (a + 4) (a + 12) b.w3 m3 (omega arith)
        ∙ load32_kept (a + 4) (a + 8) b.w2 m2 (omega arith)
        ∙ load32-store32 (a + 4) b.w1 m1 h1

    first : load32 (store32 (a + 12) b.w3 m3) a ≡ b.w0
    first =
        load32_kept a (a + 12) b.w3 m3 (omega arith)
        ∙ load32_kept a (a + 8) b.w2 m2 (omega arith)
        ∙ load32_kept a (a + 4) b.w1 m1 (omega arith)
        ∙ load32-store32 a b.w0 m h0

pub load32-lt : {m : Memory} (a : ℕ) → IsBytes m → load32 m a < 2 ^ 32
unfolding load32
load32-lt a h = omega (arith, h a, h (a + 1), h (a + 2), h (a + 3))

pub load_block-IsBlock : {m : Memory} (a : ℕ) → IsBytes m → IsBlock (load_block m a)
unfolding load_block
load_block-IsBlock a h =
    (load32-lt a h, load32-lt (a + 4) h, load32-lt (a + 8) h, load32-lt (a + 12) h)

-- A word determines its four bytes.
load32_bytes :
    (m m' : Memory) (a a' : ℕ)
    → IsBytes m
    → IsBytes m'
    → load32 m a ≡ load32 m' a'
    → (i : ℕ) → i < 4
    → m (a + i) ≡ m' (a' + i)
unfolding load32
load32_bytes m m' a a' h h' e zero p = omega (
  arith,
  ap m {x = a + 0} {y = a} (omega arith),
  ap m' {x = a' + 0} {y = a'} (omega arith),
  h a,
  h (a + 1),
  h (a + 2),
  h (a + 3),
  h' a',
  h' (a' + 1),
  h' (a' + 2),
  h' (a' + 3),
)
load32_bytes m m' a a' h h' e (suc zero) p =
    omega
      (arith, h a, h (a + 1), h (a + 2), h (a + 3), h' a', h' (a' + 1), h' (a' + 2), h' (a' + 3))
load32_bytes m m' a a' h h' e (suc (suc zero)) p =
    omega
      (arith, h a, h (a + 1), h (a + 2), h (a + 3), h' a', h' (a' + 1), h' (a' + 2), h' (a' + 3))
load32_bytes m m' a a' h h' e (suc (suc (suc zero))) p =
    omega
      (arith, h a, h (a + 1), h (a + 2), h (a + 3), h' a', h' (a' + 1), h' (a' + 2), h' (a' + 3))
load32_bytes m m' a a' h h' e (suc (suc (suc (suc i)))) p = absurd (omega arith)

-- A block determines its sixteen bytes.
pub load_block_bytes :
    (m m' : Memory) (a a' : ℕ)
    → IsBytes m
    → IsBytes m'
    → load_block m a ≡ load_block m' a'
    → (i : ℕ) → i < 16
    → m (a + i) ≡ m' (a' + i)
unfolding load_block
load_block_bytes m m' a a' h h' e i p = elim (dec_lt i 4) [
  | yes q0 ↦ load32_bytes m m' a a' h h' (ap (λ (b : Block). b.w0) e) i q0
  | no g0 ↦ elim (dec_lt i 8) [
    | yes q1 ↦ part 4 (ap (λ (b : Block). b.w1) e) (omega arith) q1
    | no g1 ↦ elim (dec_lt i 12) [
      | yes q2 ↦ part 8 (ap (λ (b : Block). b.w2) e) (omega arith) q2
      | no g2 ↦ part 12 (ap (λ (b : Block). b.w3) e) (omega arith) p
    ]
  ]
]
  where
    part :
        (n : ℕ)
        → load32 m (a + n) ≡ load32 m' (a' + n)
        → n ≤ i
        → i < n + 4
        → m (a + i) ≡ m' (a' + i)
    part n w lo hi =
        ap m {x = a + i} {y = a + n + (i - n)} (omega arith)
        ∙ load32_bytes m m' (a + n) (a' + n) h h' w (i - n) (omega arith)
        ∙ ap m' {x = a' + n + (i - n)} {y = a' + i} (omega arith)
