-- ===== src/Aes/KeySchedule/Words.antt =====
-- What `crypto_aes_expand_key` of openmpmic/aes.c does to `key_enc`: the range of its words, and the
-- first four.
use xeon_phi_kernel_integrat.Base.{
  ℕ, zero, suc, ◌+◌, ◌*◌, ◌^◌, ◌≤◌, ◌<◌, List, [], ◌∷◌, length, get_or, set, get_or-set_ne, ◌≡◌,
  inl, inr, refl, arith, ◌∙◌,
}
use xeon_phi_kernel_integrat.Bits.{xor-lt}
use xeon_phi_kernel_integrat.Aes.Word.{entry, ls_box}
use xeon_phi_kernel_integrat.Aes.Word.Columns.{byte-lt}
use xeon_phi_kernel_integrat.Aes.Tables.Laws
use xeon_phi_kernel_integrat.Aes.Cipher.Inverse.{IsKeyLength}
use xeon_phi_kernel_integrat.Aes.KeySchedule.{
  Schedule, rco_tab, le32_to_cpu, key_word, for_below, chain, sub_rotate, sub_chain, loop4, loop6,
  loop8tophalf, loop8, load_key, case_128, case_192, case_256, expand_enc,
}
use xeon_phi_kernel_integrat.Aes.KeySchedule.Loops.{for_below_keeps, fill_hit}

abbrev pub AllWords : List ℕ → Type 0
AllWords xs = (i : ℕ) → get_or xs i 0 < 2 ^ 32

pub set-AllWords :
    (xs : List ℕ) (k v : ℕ)
    → v < 2 ^ 32
    → (i : ℕ) → get_or xs i 0 < 2 ^ 32
    → get_or (set xs k v) i 0 < 2 ^ 32
set-AllWords [] k v h i p = p
set-AllWords (x ∷ xs) zero v h zero p = h
set-AllWords (x ∷ xs) zero v h (suc i) p = p
set-AllWords (x ∷ xs) (suc k) v h zero p = p
set-AllWords (x ∷ xs) (suc k) v h (suc i) p = set-AllWords xs k v h i p

pub ls_box-lt : (x : ℕ) → ls_box x < 2 ^ 32
unfolding ls_box
ls_box-lt x =
    xor-lt 32 _ _
      (xor-lt 32 _ _ (xor-lt 32 _ _ (Laws.fl_tab0-lt _) (Laws.fl_tab1-lt _)) (Laws.fl_tab2-lt _))
      (Laws.fl_tab3-lt _)

pub le32_to_cpu-lt : (v : ℕ) → le32_to_cpu v < 2 ^ 32
unfolding le32_to_cpu
le32_to_cpu-lt v = omega (arith, byte-lt v 0, byte-lt v 1, byte-lt v 2, byte-lt v 3)

pub rco-lt : (i : ℕ) → get_or rco_tab i 0 < 2 ^ 32
unfolding rco_tab entry
rco-lt = Laws.entry-lt rco_tab refl

-- The state of the macros against the words `key` at the front of `key_enc`.
record IsSchedule (key : ℕ → ℕ) (s : Schedule) : Type 0 where
  words : AllWords s.key_enc
  small : s.t < 2 ^ 32
  front : (n : ℕ) → n < 4 → get_or s.key_enc n 0 ≡ key n

module _ {key : ℕ → ℕ} where
  -- A store behind the front.
  store-IsSchedule :
      (s : Schedule) (to v : ℕ)
      → 4 ≤ to
      → v < 2 ^ 32
      → IsSchedule key s
      → IsSchedule key (record { key_enc = set s.key_enc to v; t = v })
  store-IsSchedule s to v h small inv = record {
    words = λ i. set-AllWords s.key_enc to v small i (inv.words i);
    small = small;
    front = λ n p. get_or-set_ne s.key_enc to n v 0 (omega arith) ∙ inv.front n p;
  }

  chain-IsSchedule :
      (from to : ℕ) (s : Schedule) → 4 ≤ to → IsSchedule key s → IsSchedule key (chain from to s)
  unfolding chain
  chain-IsSchedule from to s h inv =
      store-IsSchedule s to _ h (xor-lt 32 _ _ inv.small (inv.words from)) inv

  sub_rotate-IsSchedule :
      (i : ℕ) (s : Schedule) → IsSchedule key s → IsSchedule key (sub_rotate i s)
  unfolding sub_rotate
  sub_rotate-IsSchedule i s inv = record {
    words = inv.words;
    small = xor-lt 32 _ _ (ls_box-lt _) (rco-lt i);
    front = inv.front;
  }

  sub_chain-IsSchedule : (i : ℕ) (s : Schedule) → IsSchedule key s → IsSchedule key (sub_chain i s)
  unfolding sub_chain
  sub_chain-IsSchedule i s inv =
      store-IsSchedule s (8 * i + 12) _ (omega arith)
        (xor-lt 32 _ _ (inv.words (8 * i + 4)) (ls_box-lt s.t)) inv

  loop4-IsSchedule : (i : ℕ) (s : Schedule) → IsSchedule key s → IsSchedule key (loop4 i s)
  unfolding loop4
  loop4-IsSchedule i s inv = chain-IsSchedule _ _ _ (omega arith) (
      chain-IsSchedule _ _ _ (omega arith) (
        chain-IsSchedule _ _ _ (omega arith)
          (chain-IsSchedule _ _ _ (omega arith) (sub_rotate-IsSchedule i s inv))))

  loop6-IsSchedule : (i : ℕ) (s : Schedule) → IsSchedule key s → IsSchedule key (loop6 i s)
  unfolding loop6
  loop6-IsSchedule i s inv = chain-IsSchedule _ _ _ (omega arith) (
      chain-IsSchedule _ _ _ (omega arith) (
        chain-IsSchedule _ _ _ (omega arith) (
          chain-IsSchedule _ _ _ (omega arith) (
            chain-IsSchedule _ _ _ (omega arith)
              (chain-IsSchedule _ _ _ (omega arith) (sub_rotate-IsSchedule i s inv))))))

  loop8tophalf-IsSchedule :
      (i : ℕ) (s : Schedule) → IsSchedule key s → IsSchedule key (loop8tophalf i s)
  unfolding loop8tophalf
  loop8tophalf-IsSchedule i s inv = chain-IsSchedule _ _ _ (omega arith) (
      chain-IsSchedule _ _ _ (omega arith) (
        chain-IsSchedule _ _ _ (omega arith)
          (chain-IsSchedule _ _ _ (omega arith) (sub_rotate-IsSchedule i s inv))))

  loop8-IsSchedule : (i : ℕ) (s : Schedule) → IsSchedule key s → IsSchedule key (loop8 i s)
  unfolding loop8
  loop8-IsSchedule i s inv = chain-IsSchedule _ _ _ (omega arith) (
      chain-IsSchedule _ _ _ (omega arith) (
        chain-IsSchedule _ _ _ (omega arith)
          (sub_chain-IsSchedule i _ (loop8tophalf-IsSchedule i s inv))))

-- The same for `key_enc` alone, where `t` is not yet in use.
pub record IsFront (key : ℕ → ℕ) (xs : List ℕ) : Type 0 where
  pub words : AllWords xs
  pub front : (n : ℕ) → n < 4 → get_or xs n 0 ≡ key n

module _ (in_key : List ℕ) where
  -- word `n` of the key, as `crypto_aes_expand_key` loads it
  abbrev pub loaded : ℕ → ℕ
  loaded n = le32_to_cpu (key_word in_key n)

  load_key-IsFront :
      (n : ℕ) (xs : List ℕ) → 4 ≤ n → IsFront loaded xs → IsFront loaded (load_key in_key n xs)
  unfolding load_key
  load_key-IsFront n xs h inv = record {
    words = λ i. set-AllWords xs n (loaded n) (le32_to_cpu-lt _) i (inv.words i);
    front = λ i p. get_or-set_ne xs n i (loaded n) 0 (omega arith) ∙ inv.front i p;
  }

  first_four :
      (xs : List ℕ)
      → AllWords xs
      → 4 ≤ length xs
      → IsFront loaded (for_below 4 (load_key in_key) xs)
  unfolding load_key
  first_four xs h room = record {
    words =
        for_below_keeps AllWords (load_key in_key)
          (λ i s p k. set-AllWords s i (loaded i) (le32_to_cpu-lt _) k (p k)) 4 xs h;
    front = λ n p. fill_hit (λ i. i) loaded 4 xs n p (omega arith) (λ k q r. omega arith);
  }

  start :
      (xs : List ℕ) (j : ℕ)
      → IsFront loaded xs
      → IsSchedule loaded (record { key_enc = xs; t = get_or xs j 0 })
  start xs j inv = record { words = inv.words; small = inv.words j; front = inv.front }

  case_128-IsSchedule : (k4 : List ℕ) → IsFront loaded k4 → IsSchedule loaded (case_128 k4)
  unfolding case_128
  case_128-IsSchedule k4 inv =
      for_below_keeps (IsSchedule loaded) loop4 loop4-IsSchedule 10 _ (start k4 3 inv)

  case_192-IsSchedule : (k4 : List ℕ) → IsFront loaded k4 → IsSchedule loaded (case_192 in_key k4)
  unfolding case_192
  case_192-IsSchedule k4 inv =
      for_below_keeps (IsSchedule loaded) loop6 loop6-IsSchedule 8 _
        (start _ 5 (load_key-IsFront 5 _ (omega arith) (load_key-IsFront 4 k4 (omega arith) inv)))

  case_256-IsSchedule : (k4 : List ℕ) → IsFront loaded k4 → IsSchedule loaded (case_256 in_key k4)
  unfolding case_256
  case_256-IsSchedule k4 inv = loop8tophalf-IsSchedule 6 _ (
      for_below_keeps (IsSchedule loaded) loop8 loop8-IsSchedule 6 _ (
        start _ 7 (
          load_key-IsFront 7 _ (omega arith) (
            load_key-IsFront 6 _ (omega arith)
              (load_key-IsFront 5 _ (omega arith) (load_key-IsFront 4 k4 (omega arith) inv))))))

  finish : {s : Schedule} → IsSchedule loaded s → IsFront loaded s.key_enc
  finish inv = record { words = inv.words; front = inv.front }

  -- After the expansion every word is a `uint32_t`, and the first four are those of the key.
  pub expand_enc-IsFront :
      {key_len : ℕ} (xs : List ℕ)
      → IsKeyLength key_len
      → AllWords xs
      → 4 ≤ length xs
      → IsFront loaded (expand_enc in_key key_len xs)
  unfolding expand_enc
  expand_enc-IsFront xs (inl e) h room =
      rw e (finish (case_128-IsSchedule _ (first_four xs h room)))
  expand_enc-IsFront xs (inr (inl e)) h room =
      rw e (finish (case_192-IsSchedule _ (first_four xs h room)))
  expand_enc-IsFront xs (inr (inr e)) h room =
      rw e (finish (case_256-IsSchedule _ (first_four xs h room)))
