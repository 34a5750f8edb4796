-- ===== src/Fips/Cipher.antt =====
-- The cipher of FIPS-197, 5.1, step by step. A state is four columns of four bytes.
use xeon_phi_kernel_integrat.Base.{ℕ, zero, suc, ◌+◌, ◌-◌, ◌*◌, ◌%◌, bit_xor, List, get_or}
use xeon_phi_kernel_integrat.Aes.Word.{byte}
use xeon_phi_kernel_integrat.Aes.Word.Columns.{join}
use xeon_phi_kernel_integrat.Aes.Cipher.{Block, word, build}
use xeon_phi_kernel_integrat.Fips.Field.{gf_mul, s_box}

-- the byte in row r and column c
unfoldable pub cell : Block → ℕ → ℕ → ℕ
cell b r c = byte (word b c) r

-- the state with `f r c` in row r and column c
abbrev pub state : (ℕ → ℕ → ℕ) → Block
state f = build (λ c. join (f 0 c) (f 1 c) (f 2 c) (f 3 c))

unfoldable pub sub_bytes : Block → Block
sub_bytes b = state (λ r c. s_box (cell b r c))

unfoldable pub shift_rows : Block → Block
shift_rows b = state (λ r c. cell b r ((c + r) % 4))

-- row r of one column of MixColumns
unfoldable pub mix_cell : Block → ℕ → ℕ → ℕ
mix_cell b r c =
    bit_xor (bit_xor (gf_mul (cell b r c) 2) (gf_mul (cell b ((r + 1) % 4) c) 3))
      (bit_xor (cell b ((r + 2) % 4) c) (cell b ((r + 3) % 4) c))

unfoldable pub mix_columns : Block → Block
mix_columns b = state (mix_cell b)

unfoldable pub add_round_key : List ℕ → ℕ → Block → Block
add_round_key key r b = build (λ c. bit_xor (word b c) (get_or key (4 * r + c) 0))

-- rounds 1 to n
unfoldable pub rounds : ℕ → List ℕ → Block → Block
rounds zero key b = b
rounds (suc n) key b =
    add_round_key key (suc n) (mix_columns (shift_rows (sub_bytes (rounds n key b))))

-- the cipher with `nr` rounds
unfoldable pub cipher : ℕ → List ℕ → Block → Block
cipher nr key b =
    add_round_key key nr (shift_rows (sub_bytes (rounds (nr - 1) key (add_round_key key 0 b))))
