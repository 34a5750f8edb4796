-- ===== src/Aes/Tables/Laws.antt =====
-- How the sixteen tables hang together. Each fact about a table is checked by evaluation.
use xeon_phi_kernel_integrat.Base.{
  ℕ, ◌*◌, ◌%◌, ◌^◌, ◌<◌, List, map, get_or, get_or-map, ◌≡◌, refl, sym, ap, arith, ◌==◌, ==_iff,
  passes_below, passes_below_at, true,
}
use xeon_phi_kernel_integrat.Aes.Word.{u32, entry, imix_col}
use xeon_phi_kernel_integrat.Aes.Word.Columns.{mix_col}
use xeon_phi_kernel_integrat.Aes.Tables.Ft.{ft_tab0, ft_tab1, ft_tab2, ft_tab3}
use xeon_phi_kernel_integrat.Aes.Tables.Fl.{fl_tab0, fl_tab1, fl_tab2, fl_tab3}
use xeon_phi_kernel_integrat.Aes.Tables.It.{it_tab0, it_tab1, it_tab2, it_tab3}
use xeon_phi_kernel_integrat.Aes.Tables.Il.{il_tab0, il_tab1, il_tab2, il_tab3}

-- A table that is another one, entry by entry through `f`.
entry-map :
    (f : ℕ → ℕ) (xs ys : List ℕ) → f 0 ≡ 0 → map f xs ≡ ys → (i : ℕ) → entry ys i ≡ f (entry xs i)
unfolding entry
entry-map f xs ys z e i =
    rw (← e, ap (λ (d : ℕ). get_or (map f xs) i d) (sym z)) (get_or-map f xs i 0)

pub ft_tab0-mix_col : (i : ℕ) → entry ft_tab0 i ≡ mix_col (entry fl_tab0 i)
unfolding mix_col ft_tab0 fl_tab0
ft_tab0-mix_col = entry-map mix_col fl_tab0 ft_tab0 refl refl

pub ft_tab1-mix_col : (i : ℕ) → entry ft_tab1 i ≡ mix_col (entry fl_tab1 i)
unfolding mix_col ft_tab1 fl_tab1
ft_tab1-mix_col = entry-map mix_col fl_tab1 ft_tab1 refl refl

pub ft_tab2-mix_col : (i : ℕ) → entry ft_tab2 i ≡ mix_col (entry fl_tab2 i)
unfolding mix_col ft_tab2 fl_tab2
ft_tab2-mix_col = entry-map mix_col fl_tab2 ft_tab2 refl refl

pub ft_tab3-mix_col : (i : ℕ) → entry ft_tab3 i ≡ mix_col (entry fl_tab3 i)
unfolding mix_col ft_tab3 fl_tab3
ft_tab3-mix_col = entry-map mix_col fl_tab3 ft_tab3 refl refl

pub it_tab0-imix_col : (i : ℕ) → entry it_tab0 i ≡ imix_col (entry il_tab0 i)
unfolding imix_col it_tab0 il_tab0
it_tab0-imix_col = entry-map imix_col il_tab0 it_tab0 refl refl

pub it_tab1-imix_col : (i : ℕ) → entry it_tab1 i ≡ imix_col (entry il_tab1 i)
unfolding imix_col it_tab1 il_tab1
it_tab1-imix_col = entry-map imix_col il_tab1 it_tab1 refl refl

pub it_tab2-imix_col : (i : ℕ) → entry it_tab2 i ≡ imix_col (entry il_tab2 i)
unfolding imix_col it_tab2 il_tab2
it_tab2-imix_col = entry-map imix_col il_tab2 it_tab2 refl refl

pub it_tab3-imix_col : (i : ℕ) → entry it_tab3 i ≡ imix_col (entry il_tab3 i)
unfolding imix_col it_tab3 il_tab3
it_tab3-imix_col = entry-map imix_col il_tab3 it_tab3 refl refl

-- The substitution box is the first table of the last round.
abbrev pub sub_byte : ℕ → ℕ
sub_byte i = entry fl_tab0 i

abbrev pub inv_sub_byte : ℕ → ℕ
inv_sub_byte i = entry il_tab0 i

pub fl_tab1-sub_byte : (i : ℕ) → entry fl_tab1 i ≡ sub_byte i * 2 ^ 8
unfolding fl_tab1 fl_tab0
fl_tab1-sub_byte = entry-map (λ s. s * 2 ^ 8) fl_tab0 fl_tab1 refl refl

pub fl_tab2-sub_byte : (i : ℕ) → entry fl_tab2 i ≡ sub_byte i * 2 ^ 16
unfolding fl_tab2 fl_tab0
fl_tab2-sub_byte = entry-map (λ s. s * 2 ^ 16) fl_tab0 fl_tab2 refl refl

pub fl_tab3-sub_byte : (i : ℕ) → entry fl_tab3 i ≡ sub_byte i * 2 ^ 24
unfolding fl_tab3 fl_tab0
fl_tab3-sub_byte = entry-map (λ s. s * 2 ^ 24) fl_tab0 fl_tab3 refl refl

pub il_tab1-inv_sub_byte : (i : ℕ) → entry il_tab1 i ≡ inv_sub_byte i * 2 ^ 8
unfolding il_tab1 il_tab0
il_tab1-inv_sub_byte = entry-map (λ s. s * 2 ^ 8) il_tab0 il_tab1 refl refl

pub il_tab2-inv_sub_byte : (i : ℕ) → entry il_tab2 i ≡ inv_sub_byte i * 2 ^ 16
unfolding il_tab2 il_tab0
il_tab2-inv_sub_byte = entry-map (λ s. s * 2 ^ 16) il_tab0 il_tab2 refl refl

pub il_tab3-inv_sub_byte : (i : ℕ) → entry il_tab3 i ≡ inv_sub_byte i * 2 ^ 24
unfolding il_tab3 il_tab0
il_tab3-inv_sub_byte = entry-map (λ s. s * 2 ^ 24) il_tab0 il_tab3 refl refl

pub sub_byte-lt : (i : ℕ) → sub_byte i < 2 ^ 8
unfolding fl_tab0
sub_byte-lt i = omega (arith, entry-map (λ s. s % 2 ^ 8) fl_tab0 fl_tab0 refl refl i)

inverse_table : passes_below (λ x. inv_sub_byte (sub_byte x) == x) 256 ≡ true
unfolding passes_below entry fl_tab0 il_tab0
inverse_table = refl

-- The inverse box undoes the box on every byte.
pub inv_sub_byte-sub_byte : (x : ℕ) → x < 2 ^ 8 → inv_sub_byte (sub_byte x) ≡ x
inv_sub_byte-sub_byte x h =
    (==_iff (inv_sub_byte (sub_byte x)) x).0
      (passes_below_at (λ x. inv_sub_byte (sub_byte x) == x) 256 inverse_table x h)

pub entry-lt : (xs : List ℕ) → map u32 xs ≡ xs → (i : ℕ) → entry xs i < 2 ^ 32
entry-lt xs e i = omega (arith, entry-map u32 xs xs refl e i)

pub ft_tab0-lt : (i : ℕ) → entry ft_tab0 i < 2 ^ 32
unfolding ft_tab0
ft_tab0-lt = entry-lt ft_tab0 refl

pub ft_tab1-lt : (i : ℕ) → entry ft_tab1 i < 2 ^ 32
unfolding ft_tab1
ft_tab1-lt = entry-lt ft_tab1 refl

pub ft_tab2-lt : (i : ℕ) → entry ft_tab2 i < 2 ^ 32
unfolding ft_tab2
ft_tab2-lt = entry-lt ft_tab2 refl

pub ft_tab3-lt : (i : ℕ) → entry ft_tab3 i < 2 ^ 32
unfolding ft_tab3
ft_tab3-lt = entry-lt ft_tab3 refl

pub fl_tab0-lt : (i : ℕ) → entry fl_tab0 i < 2 ^ 32
unfolding fl_tab0
fl_tab0-lt = entry-lt fl_tab0 refl

pub fl_tab1-lt : (i : ℕ) → entry fl_tab1 i < 2 ^ 32
unfolding fl_tab1
fl_tab1-lt = entry-lt fl_tab1 refl

pub fl_tab2-lt : (i : ℕ) → entry fl_tab2 i < 2 ^ 32
unfolding fl_tab2
fl_tab2-lt = entry-lt fl_tab2 refl

pub fl_tab3-lt : (i : ℕ) → entry fl_tab3 i < 2 ^ 32
unfolding fl_tab3
fl_tab3-lt = entry-lt fl_tab3 refl

pub il_tab0-lt : (i : ℕ) → entry il_tab0 i < 2 ^ 32
unfolding il_tab0
il_tab0-lt = entry-lt il_tab0 refl

pub il_tab1-lt : (i : ℕ) → entry il_tab1 i < 2 ^ 32
unfolding il_tab1
il_tab1-lt = entry-lt il_tab1 refl

pub il_tab2-lt : (i : ℕ) → entry il_tab2 i < 2 ^ 32
unfolding il_tab2
il_tab2-lt = entry-lt il_tab2 refl

pub il_tab3-lt : (i : ℕ) → entry il_tab3 i < 2 ^ 32
unfolding il_tab3
il_tab3-lt = entry-lt il_tab3 refl
