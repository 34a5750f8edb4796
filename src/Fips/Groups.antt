-- ===== src/Fips/Groups.antt =====
-- The macros `loop4`, `loop6` and `loop8` of openmpmic/aes.c each make a group of words.
use xeon_phi_kernel_integrat.Base.{ℕ, suc, ◌+◌, ◌*◌, ◌%◌, ◌≤◌, ◌<◌, ◌≡◌, ◌≢◌, ◌⊎◌, inl, inr, arith}
use xeon_phi_kernel_integrat.Aes.KeySchedule.{Schedule, chain, loop4, loop6, loop8, loop8tophalf}
use xeon_phi_kernel_integrat.Fips.Schedule.{
  IsExpanded, chain-IsExpanded, first-IsExpanded, middle-IsExpanded,
}

moved :
    {key : ℕ → ℕ} (nk n n' : ℕ) (s : Schedule)
    → n ≡ n'
    → IsExpanded key nk n s
    → IsExpanded key nk n' s
moved nk n n' s e inv = rw (← e) inv

-- one more word, where the loop counts from the group's first
next_word :
    {key : ℕ → ℕ} (nk n n' from m : ℕ) (s : Schedule)
    → 1 ≤ nk
    → suc n ≡ n'
    → from + nk ≡ n'
    → n' < 60
    → n' % nk ≡ m
    → m ≢ 0
    → (nk ≤ 6) ⊎ (m ≢ 4)
    → IsExpanded key nk (suc n) s
    → IsExpanded key nk (suc n') (chain from n' s)
next_word nk n n' from m s pos e sum room rem h g inv =
    chain-IsExpanded nk n' from m s pos sum room rem h g (moved nk (suc n) n' s e inv)

pub loop4-IsExpanded :
    {key : ℕ → ℕ} (i : ℕ) (s : Schedule)
    → i < 10
    → IsExpanded key 4 (4 * i + 4) s
    → IsExpanded key 4 (4 * suc i + 4) (loop4 i s)
unfolding loop4
loop4-IsExpanded i s few inv = moved 4 _ _ _ (omega arith) (
    next_word 4 (4 * i + 6) (4 * i + 7) (4 * i + 3) 3 _ (omega arith) (omega arith) (omega arith)
      (omega arith) (omega arith) (omega arith) (inl (omega arith))
      (next_word 4 (4 * i + 5) (4 * i + 6) (4 * i + 2) 2 _ (omega arith) (omega arith) (omega arith)
        (omega arith) (omega arith) (omega arith) (inl (omega arith))
        (next_word 4 (4 * i + 4) (4 * i + 5) (4 * i + 1) 1 _ (omega arith) (omega arith)
          (omega arith) (omega arith) (omega arith) (omega arith) (inl (omega arith))
          (first-IsExpanded 4 (4 * i + 4) (4 * i) i s (omega arith) (omega arith) (omega arith)
            (omega arith) (omega arith) (omega arith) inv))))

pub loop6-IsExpanded :
    {key : ℕ → ℕ} (i : ℕ) (s : Schedule)
    → i < 8
    → IsExpanded key 6 (6 * i + 6) s
    → IsExpanded key 6 (6 * suc i + 6) (loop6 i s)
unfolding loop6
loop6-IsExpanded i s few inv = moved 6 _ _ _ (omega arith) (
    next_word 6 (6 * i + 10) (6 * i + 11) (6 * i + 5) 5 _ (omega arith) (omega arith) (omega arith)
      (omega arith) (omega arith) (omega arith) (inl (omega arith))
      (next_word 6 (6 * i + 9) (6 * i + 10) (6 * i + 4) 4 _ (omega arith) (omega arith)
        (omega arith) (omega arith) (omega arith) (omega arith) (inl (omega arith))
        (next_word 6 (6 * i + 8) (6 * i + 9) (6 * i + 3) 3 _ (omega arith) (omega arith)
          (omega arith) (omega arith) (omega arith) (omega arith) (inl (omega arith))
          (next_word 6 (6 * i + 7) (6 * i + 8) (6 * i + 2) 2 _ (omega arith) (omega arith)
            (omega arith) (omega arith) (omega arith) (omega arith) (inl (omega arith))
            (next_word 6 (6 * i + 6) (6 * i + 7) (6 * i + 1) 1 _ (omega arith) (omega arith)
              (omega arith) (omega arith) (omega arith) (omega arith) (inl (omega arith))
              (first-IsExpanded 6 (6 * i + 6) (6 * i) i s (omega arith) (omega arith) (omega arith)
                (omega arith) (omega arith) (omega arith) inv))))))

pub loop8tophalf-IsExpanded :
    {key : ℕ → ℕ} (i : ℕ) (s : Schedule)
    → i < 7
    → IsExpanded key 8 (8 * i + 8) s
    → IsExpanded key 8 (8 * i + 12) (loop8tophalf i s)
unfolding loop8tophalf
loop8tophalf-IsExpanded i s few inv = moved 8 _ _ _ (omega arith) (
    next_word 8 (8 * i + 10) (8 * i + 11) (8 * i + 3) 3 _ (omega arith) (omega arith) (omega arith)
      (omega arith) (omega arith) (omega arith) (inr (omega arith))
      (next_word 8 (8 * i + 9) (8 * i + 10) (8 * i + 2) 2 _ (omega arith) (omega arith)
        (omega arith) (omega arith) (omega arith) (omega arith) (inr (omega arith))
        (next_word 8 (8 * i + 8) (8 * i + 9) (8 * i + 1) 1 _ (omega arith) (omega arith)
          (omega arith) (omega arith) (omega arith) (omega arith) (inr (omega arith))
          (first-IsExpanded 8 (8 * i + 8) (8 * i) i s (omega arith) (omega arith) (omega arith)
            (omega arith) (omega arith) (omega arith) inv))))

pub loop8-IsExpanded :
    {key : ℕ → ℕ} (i : ℕ) (s : Schedule)
    → i < 6
    → IsExpanded key 8 (8 * i + 8) s
    → IsExpanded key 8 (8 * suc i + 8) (loop8 i s)
unfolding loop8
loop8-IsExpanded i s few inv = moved 8 _ _ _ (omega arith) (
    next_word 8 (8 * i + 14) (8 * i + 15) (8 * i + 7) 7 _ (omega arith) (omega arith) (omega arith)
      (omega arith) (omega arith) (omega arith) (inr (omega arith))
      (next_word 8 (8 * i + 13) (8 * i + 14) (8 * i + 6) 6 _ (omega arith) (omega arith)
        (omega arith) (omega arith) (omega arith) (omega arith) (inr (omega arith))
        (next_word 8 (8 * i + 12) (8 * i + 13) (8 * i + 5) 5 _ (omega arith) (omega arith)
          (omega arith) (omega arith) (omega arith) (omega arith) (inr (omega arith))
          (middle-IsExpanded i _ few (loop8tophalf-IsExpanded i s (omega arith) inv)))))
