-- ===== src/Fips/Schedule.antt =====
-- `crypto_aes_expand_key` of openmpmic/aes.c against the key expansion of FIPS-197.
use native.Mathlib.Decide.{ℕ_discrete}
use xeon_phi_kernel_integrat.Base.{
  ℕ, suc, ◌+◌, ◌-◌, ◌*◌, ◌/◌, ◌%◌, ◌^◌, ◌≤◌, ◌<◌, bit_xor, List, length, get_or, set, length-set,
  get_or-set_self, get_or-set_ne, ◌≡◌, ◌≢◌, ◌⊎◌, refl, ap, sym, arith, ◌∙◌, ==_iff, true,
  passes_below, passes_below_at, ◌==◌,
}
use xeon_phi_kernel_integrat.Bits.{xor-lt, xor_comm, xor_fields}
use xeon_phi_kernel_integrat.Aes.Word.{byte, ror32, ls_box, u32}
use xeon_phi_kernel_integrat.Aes.Word.Columns.{join_sum, byte-lt}
use xeon_phi_kernel_integrat.Aes.Word.Linear.{rotate_8}
use xeon_phi_kernel_integrat.Aes.Tables.Laws.{fl_tab1-sub_byte, fl_tab2-sub_byte, fl_tab3-sub_byte}
use xeon_phi_kernel_integrat.Aes.KeySchedule.{Schedule, chain, sub_rotate, sub_chain, rco_tab}
use xeon_phi_kernel_integrat.Aes.KeySchedule.Words.{AllWords, set-AllWords, ls_box-lt, rco-lt}
use xeon_phi_kernel_integrat.Fips.Field.{xtime}
use xeon_phi_kernel_integrat.Fips.Box.{sub_byte-s_box}
use xeon_phi_kernel_integrat.Fips.Expansion.{sub_word, rot_word, rcon, temp, key_step}

ls_box-sub_word : (w : ℕ) → ls_box w ≡ sub_word w
unfolding ls_box sub_word
ls_box-sub_word w =
    rw
      (
        fl_tab1-sub_byte (byte w 1),
        fl_tab2-sub_byte (byte w 2),
        fl_tab3-sub_byte (byte w 3),
        ← sub_byte-s_box (byte w 0) (byte-lt w 0),
        ← sub_byte-s_box (byte w 1) (byte-lt w 1),
        ← sub_byte-s_box (byte w 2) (byte-lt w 2),
        ← sub_byte-s_box (byte w 3) (byte-lt w 3),
      )
      refl

rcon_table : passes_below (λ j. rcon j == get_or rco_tab j 0) 10 ≡ true
unfolding passes_below rcon rco_tab xtime
rcon_table = refl

rotate-rot_word : (w : ℕ) → w < 2 ^ 32 → ror32 w 8 ≡ rot_word w
unfolding rot_word byte
rotate-rot_word w h =
    rotate_8 w
    ∙ ap (bit_xor (u32 w / 2 ^ 8)) {x = u32 (u32 w * 2 ^ 24)} {y = w % 2 ^ 8 * 2 ^ 24} (omega arith)
    ∙ xor_comm (u32 w / 2 ^ 8) (w % 2 ^ 8 * 2 ^ 24)
    ∙ xor_fields 24 (w % 2 ^ 8) (u32 w / 2 ^ 8) (omega arith)
    ∙ omega (
      arith,
      join_sum (byte w 1) (byte w 2) (byte w 3) (byte w 0) (byte-lt w 1) (byte-lt w 2) (byte-lt w 3)
          (byte-lt w 0),
    )

-- A word is read from the words before it.
key_step_kept :
    (nk n v : ℕ) (xs : List ℕ) (i : ℕ)
    → 1 ≤ nk
    → nk ≤ i
    → i ≤ n
    → key_step nk (set xs n v) i ≡ key_step nk xs i
unfolding key_step
key_step_kept nk n v xs i pos lo hi =
    rw (get_or-set_ne xs n (i - nk) v 0 (omega arith), get_or-set_ne xs n (i - 1) v 0 (omega arith))
      refl

-- The words up to `n` are those of FIPS-197, and `t` is the last of them.
pub record IsExpanded (key : ℕ → ℕ) (nk n : ℕ) (s : Schedule) : Type 0 where
  pub size : length s.key_enc ≡ 60
  pub words : AllWords s.key_enc
  pub steps : (i : ℕ) → nk ≤ i → i < n → get_or s.key_enc i 0 ≡ key_step nk s.key_enc i
  pub front : (i : ℕ) → i < nk → get_or s.key_enc i 0 ≡ key i
  pub last : s.t ≡ get_or s.key_enc (n - 1) 0

pub store-IsExpanded :
    {key : ℕ → ℕ} (nk n t v : ℕ) (xs : List ℕ)
    → 1 ≤ nk
    → nk ≤ n
    → n < 60
    → v < 2 ^ 32
    → IsExpanded key nk n (record { key_enc = xs; t = t })
    → v ≡ key_step nk xs n
    → IsExpanded key nk (suc n) (record { key_enc = set xs n v; t = v })
store-IsExpanded nk n t v xs pos le room small inv e = record {
  size = length-set xs n v ∙ inv.size;
  words = λ i. set-AllWords xs n v small i (inv.words i);
  steps = λ i lo hi. elim (ℕ_discrete i n) [
    | yes same ↦ rw same (stored ∙ e ∙ sym (key_step_kept nk n v xs n pos le (omega arith)))
    | no ne ↦
        get_or-set_ne xs n i v 0 (omega arith)
        ∙ inv.steps i lo (omega arith)
        ∙ sym (key_step_kept nk n v xs i pos lo (omega arith))
  ];
  front = λ i lt. get_or-set_ne xs n i v 0 (omega arith) ∙ inv.front i lt;
  last = sym stored ∙ ap (λ i. get_or (set xs n v) i 0) {x = n} {y = suc n - 1} (omega arith);
}
  where
    stored : get_or (set xs n v) n 0 ≡ v
    stored = get_or-set_self xs n v 0 (omega (arith, inv.size))

temp_plain : (nk n m p : ℕ) → n % nk ≡ m → m ≢ 0 → (nk ≤ 6) ⊎ (m ≢ 4) → temp nk n p ≡ p
unfolding temp
temp_plain nk n m p e h g = ground arith

-- A word that is the one before it, with the word `nk` places back added.
pub chain-IsExpanded :
    {key : ℕ → ℕ} (nk n from m : ℕ) (s : Schedule)
    → 1 ≤ nk
    → from + nk ≡ n
    → n < 60
    → n % nk ≡ m
    → m ≢ 0
    → (nk ≤ 6) ⊎ (m ≢ 4)
    → IsExpanded key nk n s
    → IsExpanded key nk (suc n) (chain from n s)
unfolding chain key_step
chain-IsExpanded nk n from m s pos sum room rem h g inv =
    store-IsExpanded nk n s.t (bit_xor s.t (get_or s.key_enc from 0)) s.key_enc pos (omega arith)
      room (xor-lt 32 _ _ (rw inv.last (inv.words (n - 1))) (inv.words from)) inv
      (xor_comm s.t (get_or s.key_enc from 0)
        ∙ ap (λ j. bit_xor (get_or s.key_enc j 0) s.t) {x = from} {y = n - nk} (omega arith)
        ∙ ap (bit_xor (get_or s.key_enc (n - nk) 0))
            (inv.last ∙ sym (temp_plain nk n m (get_or s.key_enc (n - 1) 0) rem h g)))

temp_first :
    (nk n i p : ℕ)
    → n % nk ≡ 0
    → n / nk - 1 ≡ i
    → temp nk n p ≡ bit_xor (sub_word (rot_word p)) (rcon i)
unfolding temp
temp_first nk n i p e d = rw (e, d) refl

-- The first word of a group.
pub first-IsExpanded :
    {key : ℕ → ℕ} (nk n from i : ℕ) (s : Schedule)
    → 1 ≤ nk
    → from + nk ≡ n
    → n < 60
    → n % nk ≡ 0
    → n / nk - 1 ≡ i
    → i < 10
    → IsExpanded key nk n s
    → IsExpanded key nk (suc n) (chain from n (sub_rotate i s))
unfolding chain key_step sub_rotate
first-IsExpanded nk n from i s pos sum room rem div few inv =
    store-IsExpanded nk n s.t (bit_xor rotated_t (get_or s.key_enc from 0)) s.key_enc pos
      (omega arith) room (xor-lt 32 _ _ (xor-lt 32 _ _ (ls_box-lt _) (rco-lt i)) (inv.words from))
      inv
      (xor_comm rotated_t (get_or s.key_enc from 0)
        ∙ ap (λ j. bit_xor (get_or s.key_enc j 0) rotated_t) {x = from} {y = n - nk} (omega arith)
        ∙ ap (bit_xor (get_or s.key_enc (n - nk) 0))
            (same ∙ sym (temp_first nk n i (get_or s.key_enc (n - 1) 0) rem div)))
  where
    rotated_t : ℕ
    rotated_t = bit_xor (ls_box (ror32 s.t 8)) (get_or rco_tab i 0)

    same : rotated_t ≡ bit_xor (sub_word (rot_word (get_or s.key_enc (n - 1) 0))) (rcon i)
    same =
        rw
          (
            inv.last,
            rotate-rot_word (get_or s.key_enc (n - 1) 0) (inv.words (n - 1)),
            ls_box-sub_word (rot_word (get_or s.key_enc (n - 1) 0)),
            (==_iff (rcon i) (get_or rco_tab i 0)).0
                (passes_below_at (λ j. rcon j == get_or rco_tab j 0) 10 rcon_table i few),
          )
          refl

temp_middle : (n p : ℕ) → n % 8 ≡ 4 → temp 8 n p ≡ sub_word p
unfolding temp
temp_middle n p e = rw e refl

-- The middle word of a group of eight.
pub middle-IsExpanded :
    {key : ℕ → ℕ} (i : ℕ) (s : Schedule)
    → i < 6
    → IsExpanded key 8 (8 * i + 12) s
    → IsExpanded key 8 (suc (8 * i + 12)) (sub_chain i s)
unfolding sub_chain key_step
middle-IsExpanded i s few inv =
    store-IsExpanded 8 (8 * i + 12) s.t (bit_xor (get_or s.key_enc (8 * i + 4) 0) (ls_box s.t))
      s.key_enc (omega arith) (omega arith) (omega arith)
      (xor-lt 32 _ _ (inv.words (8 * i + 4)) (ls_box-lt s.t)) inv
      (ap (λ j. bit_xor (get_or s.key_enc j 0) (ls_box s.t)) {x = 8 * i + 4} {y = 8 * i + 12 - 8}
          (omega arith)
        ∙ ap (bit_xor (get_or s.key_enc (8 * i + 12 - 8) 0)) (
            ls_box-sub_word s.t
            ∙ ap sub_word inv.last
            ∙ sym (temp_middle (8 * i + 12) (get_or s.key_enc (8 * i + 12 - 1) 0) (omega arith))))
