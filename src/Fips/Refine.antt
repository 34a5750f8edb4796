-- ===== src/Fips/Refine.antt =====
-- `aes_encrypt` of openmpmic/aes.c, and the cipher of FIPS-197 under the round keys in `key_enc`.
use xeon_phi_kernel_integrat.Base.{
  ℕ, zero, suc, ◌+◌, ◌-◌, ◌*◌, ◌/◌, ◌^◌, ◌<◌, bit_xor, List, get_or, ◌≡◌, refl, sym, arith, ◌∙◌,
  inl, inr,
}
use xeon_phi_kernel_integrat.Aes.Word.{byte}
use xeon_phi_kernel_integrat.Aes.Word.Columns.{
  mix_col, join, byte-lt, byte-join-zero, byte-join-one, byte-join-two, byte-join-three,
}
use xeon_phi_kernel_integrat.Aes.Tables.Laws.{sub_byte, sub_byte-lt}
use xeon_phi_kernel_integrat.Aes.Context.{CryptoTfm, crypto_tfm_ctx}
use xeon_phi_kernel_integrat.Aes.Cipher.{
  Block, word, build, enc_column, encl_column, whiten, encrypt_block, aes_encrypt,
}
use xeon_phi_kernel_integrat.Aes.Cipher.Rounds.{
  sub_shift, sub_shift-lt, enc_column-mix_col, encl_column-sub_shift,
}
use xeon_phi_kernel_integrat.Aes.Cipher.Inverse.{
  IsKeyLength, enc_step, enc_rounds, encrypt_rounds, word-build, rounds_128, rounds_192, rounds_256,
}
use xeon_phi_kernel_integrat.Fips.Field.{s_box}
use xeon_phi_kernel_integrat.Fips.Box.{sub_byte-s_box}
use xeon_phi_kernel_integrat.Fips.Columns.{mix_columns-mix_col}
use xeon_phi_kernel_integrat.Fips.Cipher.{
  cell, sub_bytes, shift_rows, mix_columns, add_round_key, rounds, cipher,
}

-- The cells of a state after SubBytes.
module _ (b : Block) (c : ℕ) where
  abbrev boxed : ℕ → ℕ
  boxed r = s_box (byte (word b c) r)

  boxed-sub_byte : (r : ℕ) → boxed r ≡ sub_byte (byte (word b c) r)
  boxed-sub_byte r = sym (sub_byte-s_box (byte (word b c) r) (byte-lt _ _))

  boxed-lt : (r : ℕ) → boxed r < 2 ^ 8
  boxed-lt r = rw (boxed-sub_byte r) (sub_byte-lt _)

  byte-boxed-zero :
      byte (join (boxed 0) (boxed 1) (boxed 2) (boxed 3)) 0 ≡ sub_byte (byte (word b c) 0)
  byte-boxed-zero =
      byte-join-zero _ _ _ _ (boxed-lt 0) (boxed-lt 1) (boxed-lt 2) (boxed-lt 3) ∙ boxed-sub_byte 0

  byte-boxed-one :
      byte (join (boxed 0) (boxed 1) (boxed 2) (boxed 3)) 1 ≡ sub_byte (byte (word b c) 1)
  byte-boxed-one =
      byte-join-one _ _ _ _ (boxed-lt 0) (boxed-lt 1) (boxed-lt 2) (boxed-lt 3) ∙ boxed-sub_byte 1

  byte-boxed-two :
      byte (join (boxed 0) (boxed 1) (boxed 2) (boxed 3)) 2 ≡ sub_byte (byte (word b c) 2)
  byte-boxed-two =
      byte-join-two _ _ _ _ (boxed-lt 0) (boxed-lt 1) (boxed-lt 2) (boxed-lt 3) ∙ boxed-sub_byte 2

  byte-boxed-three :
      byte (join (boxed 0) (boxed 1) (boxed 2) (boxed 3)) 3 ≡ sub_byte (byte (word b c) 3)
  byte-boxed-three =
      byte-join-three _ _ _ _ (boxed-lt 0) (boxed-lt 1) (boxed-lt 2) (boxed-lt 3) ∙ boxed-sub_byte 3

-- SubBytes and then ShiftRows put `sub_shift` into each column.
shift_rows-sub_bytes : (b : Block) → shift_rows (sub_bytes b) ≡ build (sub_shift b)
unfolding shift_rows sub_bytes cell sub_shift
shift_rows-sub_bytes b =
    λ i. record { w0 = column0 i; w1 = column1 i; w2 = column2 i; w3 = column3 i }
  where
    column0 : word (shift_rows (sub_bytes b)) 0 ≡ sub_shift b 0
    column0 = rw (byte-boxed-zero b 0, byte-boxed-one b 1, byte-boxed-two b 2, byte-boxed-three b 3)

    column1 : word (shift_rows (sub_bytes b)) 1 ≡ sub_shift b 1
    column1 = rw (byte-boxed-zero b 1, byte-boxed-one b 2, byte-boxed-two b 3, byte-boxed-three b 0)

    column2 : word (shift_rows (sub_bytes b)) 2 ≡ sub_shift b 2
    column2 = rw (byte-boxed-zero b 2, byte-boxed-one b 3, byte-boxed-two b 0, byte-boxed-three b 1)

    column3 : word (shift_rows (sub_bytes b)) 3 ≡ sub_shift b 3
    column3 = rw (byte-boxed-zero b 3, byte-boxed-one b 0, byte-boxed-two b 1, byte-boxed-three b 2)

build_cong : (f g : ℕ → ℕ) → ((n : ℕ) → f n ≡ g n) → build f ≡ build g
build_cong f g h = λ i. record { w0 = h 0 i; w1 = h 1 i; w2 = h 2 i; w3 = h 3 i }

-- One round of FIPS-197 and one of `aes_encrypt`.
one_round :
    (key : List ℕ) (r : ℕ) (b : Block)
    → add_round_key key r (mix_columns (shift_rows (sub_bytes b))) ≡ enc_step key (4 * r) b
unfolding add_round_key
one_round key r b =
    rw
      (
        shift_rows-sub_bytes b,
        mix_columns-mix_col (build (sub_shift b))
            (λ c h. rw (word-build (sub_shift b) c h) (sub_shift-lt b c)),
      )
      (build_cong (λ c. bit_xor (mix_col (sub_shift b c)) (get_or key (4 * r + c) 0))
        (enc_column b key (4 * r)) (λ c. sym (enc_column-mix_col b key (4 * r) c)))

all_rounds : (n : ℕ) (key : List ℕ) (b : Block) → rounds n key b ≡ enc_rounds n key b
unfolding rounds enc_rounds
all_rounds zero key b = refl
all_rounds (suc n) key b = rw (all_rounds n key b) (one_round key (suc n) (enc_rounds n key b))

first_key : (key : List ℕ) (src : Block) → add_round_key key 0 src ≡ whiten src key
unfolding add_round_key whiten
first_key key src = refl

last_round :
    (key : List ℕ) (r : ℕ) (b : Block)
    → add_round_key key r (shift_rows (sub_bytes b)) ≡ build (encl_column b key (4 * r))
unfolding add_round_key
last_round key r b = rw (shift_rows-sub_bytes b) (
    build_cong (λ c. bit_xor (sub_shift b c) (get_or key (4 * r + c) 0)) (encl_column b key (4 * r))
      (λ c. sym (encl_column-sub_shift b key (4 * r) c)))

cipher-encrypt_rounds :
    (n : ℕ) (key : List ℕ) (src : Block) → cipher (suc n) key src ≡ encrypt_rounds n key src
unfolding cipher encrypt_rounds
cipher-encrypt_rounds n key src =
    rw (pred, all_rounds n key (add_round_key key 0 src), first_key key src)
      (last_round key (suc n) (enc_rounds n key (whiten src key)))
  where
    pred : suc n - 1 ≡ n
    pred = omega arith

encrypt_block-cipher :
    (key_len : ℕ) (key : List ℕ) (src : Block)
    → IsKeyLength key_len
    → encrypt_block key key_len src ≡ cipher (key_len / 4 + 6) key src
encrypt_block-cipher key_len key src (inl e) =
    rw e ((rounds_128 key key src).0 ∙ sym (cipher-encrypt_rounds 9 key src))
encrypt_block-cipher key_len key src (inr (inl e)) =
    rw e ((rounds_192 key key src).0 ∙ sym (cipher-encrypt_rounds 11 key src))
encrypt_block-cipher key_len key src (inr (inr e)) =
    rw e ((rounds_256 key key src).0 ∙ sym (cipher-encrypt_rounds 13 key src))

-- For every context with a key length of 16, 24 or 32 bytes, `aes_encrypt`, which looks its rounds
-- up in tables, computes the cipher of FIPS-197 on every block: SubBytes with the box built from
-- inverses in GF(2^8), ShiftRows, MixColumns and AddRoundKey, in 10, 12 or 14 rounds, with the
-- words of `key_enc` as the round keys.
pub aes_encrypt-cipher :
    (tfm : CryptoTfm) (src : Block)
    → IsKeyLength tfm.crt_ctx.key_length
    → aes_encrypt tfm src ≡ cipher (tfm.crt_ctx.key_length / 4 + 6) tfm.crt_ctx.key_enc src
unfolding aes_encrypt crypto_tfm_ctx
aes_encrypt-cipher tfm src len =
    encrypt_block-cipher tfm.crt_ctx.key_length tfm.crt_ctx.key_enc src len
