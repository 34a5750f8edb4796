-- ===== src/Client/HostLaws.antt =====
-- The two routines of the host's programs that read and write whole buffers.
use native.Mathlib.Decide.{ℕ_discrete}
use xeon_phi_kernel_integrat.Base.{
  ℕ, zero, suc, ◌+◌, ◌%◌, ◌≤◌, ◌<◌, true, ◌≡◌, ◌⊎◌, inl, refl, ap, arith, ◌∙◌,
}
use xeon_phi_kernel_integrat.Memory.{Memory}
use xeon_phi_kernel_integrat.Client.Library.{Scif, IsDocumented}
use xeon_phi_kernel_integrat.Client.Host.{store8, same_bytes, random_from, random_buffer}

-- Two buffers that hold the same bytes.
abbrev pub IsSame : ℕ → ℕ → ℕ → Memory → Type 0
IsSame n a b m = (i : ℕ) → i < n → m (a + i) ≡ m (b + i)

pub same_bytes-IsSame : (n a b : ℕ) (m : Memory) → same_bytes n a b m ≡ true → IsSame n a b m
unfolding same_bytes
same_bytes-IsSame zero a b m e i p = absurd (omega arith)
same_bytes-IsSame (suc n) a b m e i p = elim (ℕ_discrete i n) [
  | yes q ↦ rw q (ground arith)
  | no ne ↦ same_bytes-IsSame n a b m (ground arith) i (omega arith)
]

pub IsSame-same_bytes : (n a b : ℕ) (m : Memory) → IsSame n a b m → same_bytes n a b m ≡ true
unfolding same_bytes
IsSame-same_bytes zero a b m h = refl
IsSame-same_bytes (suc n) a b m h =
    rw (IsSame-same_bytes n a b m (λ i p. h i (omega arith)), h n (omega arith)) (ground arith)

-- The rounds from `i` on, `left` of them, took the memory `m` to `m'`: they stored bytes of a kind, and
-- changed nothing else.
abbrev pub IsFilled : (ℕ → Type 0) → ℕ → ℕ → ℕ → Memory → Memory → Type 0
IsFilled Kind left i buffer m m' =
    ((j : ℕ) → i ≤ j → j < i + left → Kind (m' (buffer + j)))
    × ((x : ℕ) → (x < buffer + i) ⊎ (buffer + i + left ≤ x) → m' x ≡ m x)

pub store8_self : (a v : ℕ) (m : Memory) → store8 a v m a ≡ v
unfolding store8
store8_self a v m = ground arith

pub store8_other : (a v : ℕ) (m : Memory) (x : ℕ) → (x < a) ⊎ (a < x) → store8 a v m x ≡ m x
unfolding store8
store8_other a v m x h = ground arith

one_round :
    (Kind : ℕ → Type 0) (left i buffer v : ℕ) (m0 m m1 m' : Memory)
    → Kind v
    → m ≡ m0
    → m1 ≡ store8 (buffer + i) v m
    → IsFilled Kind left (i + 1) buffer m1 m'
    → IsFilled Kind (suc left) i buffer m0 m'
one_round Kind left i buffer v m0 m m1 m' kind e0 e1 (inside, outside) = (
  (λ j lo hi. elim (ℕ_discrete j i) [
    | yes e ↦
        rw
          (
            e,
            outside (buffer + i) (inl (omega arith)),
            ap (λ (f : Memory). f (buffer + i)) e1,
            store8_self (buffer + i) v m,
          )
          kind
    | no ne ↦ inside j (omega arith) (omega arith)
  ]),
  (λ x h.
      outside x (omega arith)
      ∙ ap (λ (f : Memory). f x) e1
      ∙ store8_other (buffer + i) v m x (omega arith)
      ∙ ap (λ (f : Memory). f x) e0),
)

module _ (lib : Scif) (doc : IsDocumented lib) where
  pub rounds_from :
      (Kind : ℕ → Type 0) (byte_of : ℕ → ℕ)
      → ((r : ℕ) → Kind (byte_of r))
      → (left i buffer : ℕ) (w : lib.World)
      → IsFilled Kind left i buffer
          (lib.local_memory w)
          (lib.local_memory (random_from lib byte_of left i buffer w))
  unfolding random_from
  rounds_from Kind byte_of h zero i buffer w = ((λ j lo hi. absurd (omega arith)), (λ x h. refl))
  rounds_from Kind byte_of h (suc left) i buffer w =
      let (r, w') = lib.rand w in
      let m = lib.local_memory w' in
      let m1 = store8 (buffer + i) (byte_of r) m in
      let w1 = lib.write_local m1 w' in
      one_round Kind left i buffer (byte_of r) (lib.local_memory w) m (lib.local_memory w1)
        (lib.local_memory (random_from lib byte_of left (i + 1) buffer w1)) (h r) (doc.rand_local w)
        (doc.local_written m1 w') (rounds_from Kind byte_of h left (i + 1) buffer w1)

  -- `randombuffer` fills its buffer with digits from 0 to 9, and changes no byte outside it.
  pub random_buffer_lem :
      (size buffer : ℕ) (w : lib.World)
      → let m = lib.local_memory (random_buffer lib size buffer w) in
        ((j : ℕ) → j < size → m (buffer + j) < 10)
        × ((x : ℕ) → (x < buffer) ⊎ (buffer + size ≤ x) → m x ≡ lib.local_memory w x)
  unfolding random_buffer
  random_buffer_lem size buffer w =
      let (inside, outside) =
        rounds_from (λ v. v < 10) (λ r. r % 10) (λ r. omega arith) size 0 buffer w in
      ((λ j lt. inside j (omega arith) (omega arith)), (λ x h. outside x (omega arith)))
