-- ===== src/Aes/Cipher/Inverse.antt =====
-- Decryption after encryption, for key arrays that fit each other.
use xeon_phi_kernel_integrat.Base.{
  ℕ, zero, suc, ◌+◌, ◌-◌, ◌*◌, ◌/◌, ◌^◌, ◌<◌, bit_xor, List, get_or, ◌≡◌, refl, sym, ap, arith, ◌∙◌,
  ◌⊎◌, inl, inr,
}
use xeon_phi_kernel_integrat.Bits.{xor-lt, xor_cancel}
use xeon_phi_kernel_integrat.Aes.Word.{imix_col}
use xeon_phi_kernel_integrat.Aes.Word.Linear.{imix_col-IsLinear}
use xeon_phi_kernel_integrat.Aes.Word.Columns.{mix_col, imix_col-mix_col}
use xeon_phi_kernel_integrat.Aes.Tables.Laws
use xeon_phi_kernel_integrat.Aes.Cipher.{
  Block, word, build, enc_column, encl_column, dec_column, decl_column, whiten, encrypt_block,
  decrypt_block,
}
use xeon_phi_kernel_integrat.Aes.Cipher.Rounds.{
  sub_shift, inv_sub_shift, IsBlock, sub_shift-lt, inv_sub_shift-sub_shift, encl_column-sub_shift,
  enc_column-mix_col, decl_column-inv_sub_shift, dec_column-imix_col,
}

-- `dec` is the array for the equivalent inverse cipher that belongs to `enc`.
pub record IsInverseKey (rounds : ℕ) (enc dec : List ℕ) : Type 0 where
  pub words : (i : ℕ) → get_or enc i 0 < 2 ^ 32
  pub first : (n : ℕ) → n < 4 → get_or dec n 0 ≡ get_or enc (4 * rounds + n) 0
  pub last : (n : ℕ) → n < 4 → get_or dec (4 * rounds + n) 0 ≡ get_or enc n 0
  pub middle :
      (r n : ℕ)
      → 0 < r
      → r < rounds
      → n < 4
      → get_or dec (4 * (rounds - r) + n) 0 ≡ imix_col (get_or enc (4 * r + n) 0)

abbrev sub_state : Block → Block
sub_state b = build (sub_shift b)

abbrev pub enc_step : List ℕ → ℕ → Block → Block
enc_step key kp b = build (enc_column b key kp)

abbrev dec_step : List ℕ → ℕ → Block → Block
dec_step key kp b = build (dec_column b key kp)

-- The rounds before the last, in the order in which each cipher makes them.
unfoldable pub enc_rounds : ℕ → List ℕ → Block → Block
enc_rounds zero key b = b
enc_rounds (suc n) key b = enc_step key (4 * suc n) (enc_rounds n key b)

dec_rounds : ℕ → List ℕ → ℕ → Block → Block
dec_rounds zero key kp b = b
dec_rounds (suc n) key kp b = dec_rounds n key (kp + 4) (dec_step key kp b)

-- Two blocks with the same words.
pub build_ext : (f : ℕ → ℕ) (b : Block) → ((n : ℕ) → n < 4 → f n ≡ word b n) → build f ≡ b
build_ext f b h = λ i. record {
  w0 = h 0 (omega arith) i;
  w1 = h 1 (omega arith) i;
  w2 = h 2 (omega arith) i;
  w3 = h 3 (omega arith) i;
}

pub word-build : (f : ℕ → ℕ) (n : ℕ) → n < 4 → word (build f) n ≡ f n
word-build f zero h = refl
word-build f (suc zero) h = refl
word-build f (suc (suc zero)) h = refl
word-build f (suc (suc (suc zero))) h = refl
word-build f (suc (suc (suc (suc n)))) h = absurd (omega arith)

IsBlock-build : (f : ℕ → ℕ) → ((n : ℕ) → f n < 2 ^ 32) → IsBlock (build f)
IsBlock-build f h = (h 0, h 1, h 2, h 3)

inv_column : (b : Block) (n : ℕ) → n < 4 → IsBlock b → inv_sub_shift (sub_state b) n ≡ word b n
inv_column b n h v =
    sym (word-build (inv_sub_shift (sub_state b)) n h)
    ∙ ap (λ (c : Block). word c n) (inv_sub_shift-sub_shift b v)

module _ {rounds : ℕ} {enc dec : List ℕ} (key : IsInverseKey rounds enc dec) where
  enc_column-lt : (b : Block) (kp n : ℕ) → enc_column b enc kp n < 2 ^ 32
  unfolding enc_column
  enc_column-lt b kp n =
      xor-lt 32 _ _
        (xor-lt 32 _ _
          (xor-lt 32 _ _ (xor-lt 32 _ _ (Laws.ft_tab0-lt _) (Laws.ft_tab1-lt _))
            (Laws.ft_tab2-lt _))
          (Laws.ft_tab3-lt _))
        (key.words (kp + n))

  -- One round of decryption undoes the round of encryption with the same key words.
  dec_step-enc_step :
      (r : ℕ) (b : Block)
      → 0 < r
      → r < rounds
      → dec_step dec (4 * (rounds - r)) (sub_state (enc_step enc (4 * r) b)) ≡ sub_state b
  dec_step-enc_step r b pos lt = build_ext _ (sub_state b) column
    where
      state : Block
      state = enc_step enc (4 * r) b

      column :
          (n : ℕ)
          → n < 4
          → dec_column (sub_state state) dec (4 * (rounds - r)) n ≡ word (sub_state b) n
      column n h = rw (
        word-build (sub_shift b) n h,
        dec_column-imix_col (sub_state state) dec (4 * (rounds - r)) n,
        inv_column state n h (IsBlock-build _ (enc_column-lt b (4 * r))),
        word-build (enc_column b enc (4 * r)) n h,
        enc_column-mix_col b enc (4 * r) n,
        imix_col-IsLinear (mix_col (sub_shift b n)) (get_or enc (4 * r + n) 0),
        key.middle r n pos lt h,
        xor_cancel (imix_col (mix_col (sub_shift b n))) (imix_col (get_or enc (4 * r + n) 0)),
        imix_col-mix_col (sub_shift b n) (sub_shift-lt b n),
      )

  dec_rounds-enc_rounds :
      (n : ℕ) (b : Block)
      → n < rounds
      → dec_rounds n dec (4 * (rounds - n)) (sub_state (enc_rounds n enc b)) ≡ sub_state b
  unfolding dec_rounds enc_rounds
  dec_rounds-enc_rounds zero b lt = refl
  dec_rounds-enc_rounds (suc n) b lt =
      rw (dec_step-enc_step (suc n) (enc_rounds n enc b) (omega arith) lt, next)
        (dec_rounds-enc_rounds n b (omega arith))
    where
      next : 4 * (rounds - suc n) + 4 ≡ 4 * (rounds - n)
      next = omega arith

-- Both ciphers with the number of rounds as a parameter.
unfoldable pub encrypt_rounds : ℕ → List ℕ → Block → Block
encrypt_rounds n key src = build (encl_column (enc_rounds n key (whiten src key)) key (4 * suc n))

pub decrypt_rounds : ℕ → List ℕ → Block → Block
decrypt_rounds n key src = build (decl_column (dec_rounds n key 4 (whiten src key)) key (4 * suc n))

module _ {n : ℕ} {enc dec : List ℕ} (key : IsInverseKey (suc n) enc dec) where
  whiten-IsBlock : (src : Block) → IsBlock src → IsBlock (whiten src enc)
  unfolding whiten
  whiten-IsBlock src (h0, h1, h2, h3) = (
    xor-lt 32 _ _ h0 (key.words 0),
    xor-lt 32 _ _ h1 (key.words 1),
    xor-lt 32 _ _ h2 (key.words 2),
    xor-lt 32 _ _ h3 (key.words 3),
  )

  word-whiten :
      (src : Block) (k : List ℕ) (i : ℕ)
      → i < 4
      → word (whiten src k) i ≡ bit_xor (word src i) (get_or k i 0)
  unfolding whiten
  word-whiten src k i h = word-build (λ j. bit_xor (word src j) (get_or k j 0)) i h

  whiten_undo : (b : Block) → whiten (build (encl_column b enc (4 * suc n))) dec ≡ sub_state b
  unfolding whiten
  whiten_undo b = build_ext _ (sub_state b) column
    where
      column :
          (i : ℕ)
          → i < 4
          → bit_xor (word (build (encl_column b enc (4 * suc n))) i) (get_or dec i 0)
            ≡ word (sub_state b) i
      column i h = rw (
        word-build (sub_shift b) i h,
        word-build (encl_column b enc (4 * suc n)) i h,
        encl_column-sub_shift b enc (4 * suc n) i,
        key.first i h,
        xor_cancel (sub_shift b i) (get_or enc (4 * suc n + i) 0),
      )

  last_undo :
      (src : Block)
      → IsBlock src
      → build (decl_column (sub_state (whiten src enc)) dec (4 * suc n)) ≡ src
  last_undo src v = build_ext _ src column
    where
      column :
          (i : ℕ) → i < 4 → decl_column (sub_state (whiten src enc)) dec (4 * suc n) i ≡ word src i
      column i h = rw (
        decl_column-inv_sub_shift (sub_state (whiten src enc)) dec (4 * suc n) i,
        inv_column (whiten src enc) i h (whiten-IsBlock src v),
        key.last i h,
        word-whiten src enc i h,
        xor_cancel (word src i) (get_or enc i 0),
      )

  decrypt_rounds-encrypt_rounds :
      (src : Block) → IsBlock src → decrypt_rounds n dec (encrypt_rounds n enc src) ≡ src
  unfolding decrypt_rounds encrypt_rounds
  decrypt_rounds-encrypt_rounds src v =
      rw (whiten_undo (enc_rounds n enc (whiten src enc)), middle) (last_undo src v)
    where
      start : 4 ≡ 4 * (suc n - n)
      start = omega arith

      middle :
          dec_rounds n dec 4 (sub_state (enc_rounds n enc (whiten src enc)))
          ≡ sub_state (whiten src enc)
      middle = rw start (dec_rounds-enc_rounds key n (whiten src enc) (omega arith))

-- The C functions unrolled: 10, 12 and 14 rounds.
pub rounds_128 :
    (enc dec : List ℕ) (b : Block)
    → (encrypt_block enc 16 b ≡ encrypt_rounds 9 enc b)
      × (decrypt_block dec 16 b ≡ decrypt_rounds 9 dec b)
unfolding encrypt_block decrypt_block encrypt_rounds decrypt_rounds enc_rounds dec_rounds
rounds_128 enc dec b = (refl, refl)

pub rounds_192 :
    (enc dec : List ℕ) (b : Block)
    → (encrypt_block enc 24 b ≡ encrypt_rounds 11 enc b)
      × (decrypt_block dec 24 b ≡ decrypt_rounds 11 dec b)
unfolding encrypt_block decrypt_block encrypt_rounds decrypt_rounds enc_rounds dec_rounds
rounds_192 enc dec b = (refl, refl)

pub rounds_256 :
    (enc dec : List ℕ) (b : Block)
    → (encrypt_block enc 32 b ≡ encrypt_rounds 13 enc b)
      × (decrypt_block dec 32 b ≡ decrypt_rounds 13 dec b)
unfolding encrypt_block decrypt_block encrypt_rounds decrypt_rounds enc_rounds dec_rounds
rounds_256 enc dec b = (refl, refl)

-- The key lengths that `crypto_aes_expand_key` accepts.
abbrev pub IsKeyLength : ℕ → Type 0
IsKeyLength n = (n ≡ 16) ⊎ ((n ≡ 24) ⊎ (n ≡ 32))

rounds_undo :
    (n key_len : ℕ) {enc dec : List ℕ}
    → IsInverseKey (suc n) enc dec
    → ((b : Block)
        → (encrypt_block enc key_len b ≡ encrypt_rounds n enc b)
          × (decrypt_block dec key_len b ≡ decrypt_rounds n dec b))
    → (src : Block) → IsBlock src
    → decrypt_block dec key_len (encrypt_block enc key_len src) ≡ src
rounds_undo n key_len {enc} key unrolled src v =
    rw ((unrolled src).0, (unrolled (encrypt_rounds n enc src)).1)
      (decrypt_rounds-encrypt_rounds key src v)

pub decrypt_block-encrypt_block :
    {key_len : ℕ} {enc dec : List ℕ}
    → IsKeyLength key_len
    → IsInverseKey (key_len / 4 + 6) enc dec
    → (src : Block) → IsBlock src
    → decrypt_block dec key_len (encrypt_block enc key_len src) ≡ src
decrypt_block-encrypt_block {enc} {dec} (inl e) key src v =
    rw e (rounds_undo 9 16 (rw e at key) (rounds_128 enc dec) src v)
decrypt_block-encrypt_block {enc} {dec} (inr (inl e)) key src v =
    rw e (rounds_undo 11 24 (rw e at key) (rounds_192 enc dec) src v)
decrypt_block-encrypt_block {enc} {dec} (inr (inr e)) key src v =
    rw e (rounds_undo 13 32 (rw e at key) (rounds_256 enc dec) src v)
