-- ===== src/Memory/Loop.antt =====
-- The loop over a buffer, sixteen bytes a round, whatever order its rounds run in.
use native.Mathlib.Decide.{ℕ_discrete}
use xeon_phi_kernel_integrat.Base.{
  ℕ, ◌+◌, ◌%◌, ◌≤◌, ◌<◌, List, [], ◌∷◌, ◌≡◌, ◌⊎◌, inl, inr, refl, ap, arith, ◌∙◌,
}
use xeon_phi_kernel_integrat.Aes.Cipher.{Block}
use xeon_phi_kernel_integrat.Aes.Cipher.Rounds.{IsBlock}
use xeon_phi_kernel_integrat.Memory.{Memory, load_block, store_block, parallel_for}
use xeon_phi_kernel_integrat.Memory.Laws.{
  IsBytes, store_block-IsBytes, store_block_other, load_block_moved, load_block-store_block,
  load_block-IsBlock,
}

-- `k` is among the rounds.
abbrev pub Among : ℕ → List ℕ → Type 0
Among k [] = ⊥
Among k (x ∷ xs) = (k ≡ x) ⊎ Among k xs

-- The rounds of `for (k = 0; k < n; k += 16)`, each at least once, in some order.
pub record IsOrder (n : ℕ) (order : List ℕ) : Type 0 where
  pub only : (k : ℕ) → Among k order → (k % 16 ≡ 0) × (k < n)
  pub every : (k : ℕ) → k % 16 ≡ 0 → k < n → Among k order

-- A buffer of `n` bytes at `a` and one at `b` have no byte in common.
abbrev pub Apart : ℕ → ℕ → ℕ → Type 0
Apart n a b = (a + n ≤ b) ⊎ (b + n ≤ a)

-- A loop whose round `k` stores `f` of the block at `inp + k` to `out + k`.
module _ (f : Block → Block) (keeps : (b : Block) → IsBlock b → IsBlock (f b)) (n out inp : ℕ)
    (whole : n % 16 ≡ 0) (apart : Apart n out inp) where
  abbrev pub crypt : ℕ → Memory → Memory
  crypt k m = store_block (out + k) (f (load_block m (inp + k))) m

  -- Nothing outside the output buffer changes.
  pub outside :
      (order : List ℕ) (m : Memory) (x : ℕ)
      → ((k : ℕ) → Among k order → (k % 16 ≡ 0) × (k < n))
      → (x < out) ⊎ (out + n ≤ x)
      → parallel_for order crypt m x ≡ m x
  unfolding parallel_for
  outside [] m x only h = refl
  outside (k ∷ ks) m x only h =
      outside ks (crypt k m) x (λ j p. only j (inr p)) h
      ∙ store_block_other (out + k) (f (load_block m (inp + k))) m x
          (omega (arith, only k (inl refl)))

  pub parallel_for-IsBytes :
      (order : List ℕ) (m : Memory) → IsBytes m → IsBytes (parallel_for order crypt m)
  unfolding parallel_for
  parallel_for-IsBytes [] m h = h
  parallel_for-IsBytes (k ∷ ks) m h =
      parallel_for-IsBytes ks (crypt k m)
        (store_block-IsBytes (out + k) (f (load_block m (inp + k))) h)

  -- The memory `m` holds what round `k` is to store, computed from `m0`.
  Done : Memory → Memory → ℕ → Type 0
  Done m0 m k = load_block m (out + k) ≡ f (load_block m0 (inp + k))

  -- The input is still that of `m0`.
  Same : Memory → Memory → Type 0
  Same m0 m = (x : ℕ) → inp ≤ x → x < inp + n → m x ≡ m0 x

  Same-block :
      (m0 m : Memory) (k : ℕ)
      → Same m0 m
      → k % 16 ≡ 0
      → k < n
      → load_block m (inp + k) ≡ load_block m0 (inp + k)
  unfolding Same
  Same-block m0 m k same mul lt =
      load_block_moved m m0 (inp + k) (inp + k)
        (λ i p. same (inp + k + i) (omega arith) (omega arith))

  Same-crypt : (m0 m : Memory) (k : ℕ) → Same m0 m → k % 16 ≡ 0 → k < n → Same m0 (crypt k m)
  unfolding Same
  Same-crypt m0 m k same mul lt x lo hi =
      store_block_other (out + k) (f (load_block m (inp + k))) m x (omega arith) ∙ same x lo hi

  -- A round makes its own block right.
  Done-crypt_self :
      (m0 m : Memory) (k : ℕ) → IsBytes m → Same m0 m → k % 16 ≡ 0 → k < n → Done m0 (crypt k m) k
  unfolding Done
  Done-crypt_self m0 m k bytes same mul lt =
      load_block-store_block (out + k) (f (load_block m (inp + k))) m
        (keeps (load_block m (inp + k)) (load_block-IsBlock (inp + k) bytes))
      ∙ ap f (Same-block m0 m k same mul lt)

  -- A block that is right stays right.
  Done-crypt :
      (m0 m : Memory) (k j : ℕ)
      → IsBytes m
      → Same m0 m
      → k % 16 ≡ 0
      → k < n
      → j % 16 ≡ 0
      → Done m0 m j
      → Done m0 (crypt k m) j
  Done-crypt m0 m k j bytes same mul lt mul_j done = elim (ℕ_discrete j k) [
    | yes e ↦ rw e (Done-crypt_self m0 m k bytes same mul lt)
    | no ne ↦
        unfold Done in
        load_block_moved (crypt k m) m (out + j) (out + j) (λ i p.
          store_block_other (out + k) (f (load_block m (inp + k))) m (out + j + i) (omega arith))
        ∙ done
  ]

  parallel_for-Done :
      (order : List ℕ) (m0 m : Memory) (j : ℕ)
      → ((k : ℕ) → Among k order → (k % 16 ≡ 0) × (k < n))
      → IsBytes m
      → Same m0 m
      → j % 16 ≡ 0
      → j < n
      → Among j order ⊎ Done m0 m j
      → Done m0 (parallel_for order crypt m) j
  unfolding parallel_for
  parallel_for-Done [] m0 m j only bytes same mul lt (inl h) = absurd h
  parallel_for-Done [] m0 m j only bytes same mul lt (inr done) = done
  parallel_for-Done (k ∷ ks) m0 m j only bytes same mul lt h =
      parallel_for-Done ks m0 (crypt k m) j (λ i p. only i (inr p))
        (store_block-IsBytes (out + k) (f (load_block m (inp + k))) bytes)
        (Same-crypt m0 m k same here.0 here.1) mul lt (next h)
    where
      here : (k % 16 ≡ 0) × (k < n)
      here = only k (inl refl)

      next : (Among j (k ∷ ks) ⊎ Done m0 m j) → (Among j ks ⊎ Done m0 (crypt k m) j)
      next (inl (inl e)) = inr (rw e (Done-crypt_self m0 m k bytes same here.0 here.1))
      next (inl (inr among)) = inl among
      next (inr done) = inr (Done-crypt m0 m k j bytes same here.0 here.1 mul done)

  -- After the loop every block of the output is `f` of the block of the input, in whatever order
  -- the rounds ran.
  pub parallel_for_blocks :
      (order : List ℕ) (m : Memory)
      → IsOrder n order
      → IsBytes m
      → (k : ℕ) → k % 16 ≡ 0
      → k < n
      → load_block (parallel_for order crypt m) (out + k) ≡ f (load_block m (inp + k))
  unfolding Done Same
  parallel_for_blocks order m ord bytes k mul lt =
      parallel_for-Done order m m k ord.only bytes (λ x lo hi. refl) mul lt
        (inl (ord.every k mul lt))
