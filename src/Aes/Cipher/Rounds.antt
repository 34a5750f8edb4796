-- ===== src/Aes/Cipher/Rounds.antt =====
-- One round of decryption against one round of encryption.
use xeon_phi_kernel_integrat.Base.{ℕ, ◌+◌, ◌^◌, ◌<◌, bit_and, bit_xor, List, get_or, ◌≡◌, arith}
use xeon_phi_kernel_integrat.Bits.{IsLinear}
use xeon_phi_kernel_integrat.Aes.Word.{byte, entry, imix_col}
use xeon_phi_kernel_integrat.Aes.Word.Linear.{imix_col-IsLinear}
use xeon_phi_kernel_integrat.Aes.Word.Columns.{
  mix_col, mix_col-IsLinear, join, join_sum, join-byte, byte-lt, byte-join-zero, byte-join-one,
  byte-join-two, byte-join-three,
}
use xeon_phi_kernel_integrat.Aes.Tables.Fl.{fl_tab0, fl_tab1, fl_tab2, fl_tab3}
use xeon_phi_kernel_integrat.Aes.Tables.Il.{il_tab0, il_tab1, il_tab2, il_tab3}
use xeon_phi_kernel_integrat.Aes.Tables.Laws
use xeon_phi_kernel_integrat.Aes.Tables.Laws.{
  sub_byte, inv_sub_byte, sub_byte-lt, inv_sub_byte-sub_byte,
}
use xeon_phi_kernel_integrat.Aes.Cipher.{
  Block, word, build, enc_column, encl_column, dec_column, decl_column,
}

-- SubBytes and ShiftRows on column `n`, and their inverse.
unfoldable pub sub_shift : Block → ℕ → ℕ
sub_shift b n =
    join (sub_byte (byte (word b n) 0)) (sub_byte (byte (word b (bit_and (n + 1) 3)) 1))
      (sub_byte (byte (word b (bit_and (n + 2) 3)) 2))
      (sub_byte (byte (word b (bit_and (n + 3) 3)) 3))

unfoldable pub inv_sub_shift : Block → ℕ → ℕ
inv_sub_shift b n =
    join (inv_sub_byte (byte (word b n) 0)) (inv_sub_byte (byte (word b (bit_and (n + 3) 3)) 1))
      (inv_sub_byte (byte (word b (bit_and (n + 2) 3)) 2))
      (inv_sub_byte (byte (word b (bit_and (n + 1) 3)) 3))

-- A linear function of four words.
linear_four :
    (f : ℕ → ℕ)
    → IsLinear f
    → (a b c d : ℕ)
    → bit_xor (bit_xor (bit_xor (f a) (f b)) (f c)) (f d) ≡ f (bit_xor (bit_xor (bit_xor a b) c) d)
linear_four f h a b c d = rw (h (bit_xor (bit_xor a b) c) d, h (bit_xor a b) c, h a b)

module _ (b : Block) (key : List ℕ) (kp n : ℕ) where
  abbrev b0 : ℕ
  b0 = byte (word b n) 0

  abbrev up : ℕ → ℕ
  up k = byte (word b (bit_and (n + k) 3)) k

  abbrev down : ℕ → ℕ → ℕ
  down k r = byte (word b (bit_and (n + k) 3)) r

  -- The last round of `aes_encrypt` adds a round key to SubBytes and ShiftRows.
  pub encl_column-sub_shift :
      encl_column b key kp n ≡ bit_xor (sub_shift b n) (get_or key (kp + n) 0)
  unfolding encl_column sub_shift
  encl_column-sub_shift =
      rw (Laws.fl_tab1-sub_byte (up 1), Laws.fl_tab2-sub_byte (up 2), Laws.fl_tab3-sub_byte (up 3))

  -- Every other round of `aes_encrypt` has MixColumns in between.
  pub enc_column-mix_col :
      enc_column b key kp n ≡ bit_xor (mix_col (sub_shift b n)) (get_or key (kp + n) 0)
  unfolding enc_column sub_shift
  enc_column-mix_col = rw (
    Laws.ft_tab0-mix_col b0,
    Laws.ft_tab1-mix_col (up 1),
    Laws.ft_tab2-mix_col (up 2),
    Laws.ft_tab3-mix_col (up 3),
    linear_four mix_col mix_col-IsLinear (entry fl_tab0 b0) (entry fl_tab1 (up 1))
        (entry fl_tab2 (up 2)) (entry fl_tab3 (up 3)),
    Laws.fl_tab1-sub_byte (up 1),
    Laws.fl_tab2-sub_byte (up 2),
    Laws.fl_tab3-sub_byte (up 3),
  )

  pub decl_column-inv_sub_shift :
      decl_column b key kp n ≡ bit_xor (inv_sub_shift b n) (get_or key (kp + n) 0)
  unfolding decl_column inv_sub_shift
  decl_column-inv_sub_shift = rw (
    Laws.il_tab1-inv_sub_byte (down 3 1),
    Laws.il_tab2-inv_sub_byte (down 2 2),
    Laws.il_tab3-inv_sub_byte (down 1 3),
  )

  pub dec_column-imix_col :
      dec_column b key kp n ≡ bit_xor (imix_col (inv_sub_shift b n)) (get_or key (kp + n) 0)
  unfolding dec_column inv_sub_shift
  dec_column-imix_col = rw (
    Laws.it_tab0-imix_col b0,
    Laws.it_tab1-imix_col (down 3 1),
    Laws.it_tab2-imix_col (down 2 2),
    Laws.it_tab3-imix_col (down 1 3),
    linear_four imix_col imix_col-IsLinear (entry il_tab0 b0) (entry il_tab1 (down 3 1))
        (entry il_tab2 (down 2 2)) (entry il_tab3 (down 1 3)),
    Laws.il_tab1-inv_sub_byte (down 3 1),
    Laws.il_tab2-inv_sub_byte (down 2 2),
    Laws.il_tab3-inv_sub_byte (down 1 3),
  )

-- The bytes of a column after SubBytes and ShiftRows.
module _ (b : Block) (n : ℕ) where
  abbrev sub_up : ℕ → ℕ
  sub_up k = sub_byte (byte (word b (bit_and (n + k) 3)) k)

  byte-sub_shift-zero : byte (sub_shift b n) 0 ≡ sub_byte (byte (word b n) 0)
  unfolding sub_shift
  byte-sub_shift-zero =
      byte-join-zero (sub_byte (byte (word b n) 0)) (sub_up 1) (sub_up 2) (sub_up 3) (sub_byte-lt _)
        (sub_byte-lt _) (sub_byte-lt _) (sub_byte-lt _)

  byte-sub_shift-one : byte (sub_shift b n) 1 ≡ sub_up 1
  unfolding sub_shift
  byte-sub_shift-one =
      byte-join-one (sub_byte (byte (word b n) 0)) (sub_up 1) (sub_up 2) (sub_up 3) (sub_byte-lt _)
        (sub_byte-lt _) (sub_byte-lt _) (sub_byte-lt _)

  byte-sub_shift-two : byte (sub_shift b n) 2 ≡ sub_up 2
  unfolding sub_shift
  byte-sub_shift-two =
      byte-join-two (sub_byte (byte (word b n) 0)) (sub_up 1) (sub_up 2) (sub_up 3) (sub_byte-lt _)
        (sub_byte-lt _) (sub_byte-lt _) (sub_byte-lt _)

  byte-sub_shift-three : byte (sub_shift b n) 3 ≡ sub_up 3
  unfolding sub_shift
  byte-sub_shift-three =
      byte-join-three (sub_byte (byte (word b n) 0)) (sub_up 1) (sub_up 2) (sub_up 3)
        (sub_byte-lt _) (sub_byte-lt _) (sub_byte-lt _) (sub_byte-lt _)

  pub sub_shift-lt : sub_shift b n < 2 ^ 32
  unfolding sub_shift
  sub_shift-lt = omega (
    arith,
    join_sum (sub_byte (byte (word b n) 0)) (sub_up 1) (sub_up 2) (sub_up 3) (sub_byte-lt _)
        (sub_byte-lt _) (sub_byte-lt _) (sub_byte-lt _),
    sub_byte-lt (byte (word b n) 0),
    sub_byte-lt (byte (word b (bit_and (n + 1) 3)) 1),
    sub_byte-lt (byte (word b (bit_and (n + 2) 3)) 2),
    sub_byte-lt (byte (word b (bit_and (n + 3) 3)) 3),
  )

-- The inverse box on each byte gives a word back.
restored :
    (w : ℕ)
    → w < 2 ^ 32
    → join
        (inv_sub_byte (sub_byte (byte w 0)))
        (inv_sub_byte (sub_byte (byte w 1)))
        (inv_sub_byte (sub_byte (byte w 2)))
        (inv_sub_byte (sub_byte (byte w 3)))
      ≡ w
restored w h = rw (
  inv_sub_byte-sub_byte (byte w 0) (byte-lt w 0),
  inv_sub_byte-sub_byte (byte w 1) (byte-lt w 1),
  inv_sub_byte-sub_byte (byte w 2) (byte-lt w 2),
  inv_sub_byte-sub_byte (byte w 3) (byte-lt w 3),
  join-byte w h,
)

-- Each word of a block is a `uint32_t`.
abbrev pub IsBlock : Block → Type 0
IsBlock b = (b.w0 < 2 ^ 32) × (b.w1 < 2 ^ 32) × (b.w2 < 2 ^ 32) × (b.w3 < 2 ^ 32)

-- The inverse of SubBytes and ShiftRows undoes them, on every block.
pub inv_sub_shift-sub_shift :
    (b : Block) → IsBlock b → build (inv_sub_shift (build (sub_shift b))) ≡ b
unfolding inv_sub_shift
inv_sub_shift-sub_shift b (h0, h1, h2, h3) =
    λ i. record { w0 = column0 i; w1 = column1 i; w2 = column2 i; w3 = column3 i }
  where
    column0 : inv_sub_shift (build (sub_shift b)) 0 ≡ b.w0
    column0 =
        rw
          (
            byte-sub_shift-zero b 0,
            byte-sub_shift-one b 3,
            byte-sub_shift-two b 2,
            byte-sub_shift-three b 1,
          )
          (restored b.w0 h0)

    column1 : inv_sub_shift (build (sub_shift b)) 1 ≡ b.w1
    column1 =
        rw
          (
            byte-sub_shift-zero b 1,
            byte-sub_shift-one b 0,
            byte-sub_shift-two b 3,
            byte-sub_shift-three b 2,
          )
          (restored b.w1 h1)

    column2 : inv_sub_shift (build (sub_shift b)) 2 ≡ b.w2
    column2 =
        rw
          (
            byte-sub_shift-zero b 2,
            byte-sub_shift-one b 1,
            byte-sub_shift-two b 0,
            byte-sub_shift-three b 3,
          )
          (restored b.w2 h2)

    column3 : inv_sub_shift (build (sub_shift b)) 3 ≡ b.w3
    column3 =
        rw
          (
            byte-sub_shift-zero b 3,
            byte-sub_shift-one b 2,
            byte-sub_shift-two b 1,
            byte-sub_shift-three b 0,
          )
          (restored b.w3 h3)
