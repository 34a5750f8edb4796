-- ===== src/Aes/KeySchedule/Inverse.antt =====
-- The `key_dec` that `crypto_aes_expand_key` of openmpmic/aes.c computes beside its `key_enc`.
use xeon_phi_kernel_integrat.Base.{
  ℕ, ◌+◌, ◌-◌, ◌*◌, ◌/◌, ◌%◌, ◌≤◌, ◌<◌, List, length, get_or, bit_and, ◌≡◌, refl, sym, ap, arith,
  ◌∙◌, ◌&&◌, ◌==◌, passes_below, passes_below_at, true,
}
use xeon_phi_kernel_integrat.Aes.Word.{imix_col}
use xeon_phi_kernel_integrat.Aes.Cipher.Inverse.{IsKeyLength, IsInverseKey}
use xeon_phi_kernel_integrat.Aes.KeySchedule.{dec_index, expand_enc, expand_dec}
use xeon_phi_kernel_integrat.Aes.KeySchedule.Loops.{fill, length-fill, fill_miss, fill_hit}
use xeon_phi_kernel_integrat.Aes.KeySchedule.Words.{AllWords, IsFront, loaded, expand_enc-IsFront}

-- `i & ~3` and `i & 3` for the indices of the arrays.
masks_table :
    passes_below (λ i. (bit_and i 0xfffffffc == i / 4 * 4) && (bit_and i 3 == i % 4)) 64 ≡ true
unfolding passes_below
masks_table = refl

masks : (i : ℕ) → i < 64 → (bit_and i 0xfffffffc ≡ i / 4 * 4) × (bit_and i 3 ≡ i % 4)
masks i h = ground (
  arith,
  passes_below_at (λ i. (bit_and i 0xfffffffc == i / 4 * 4) && (bit_and i 3 == i % 4)) 64
      masks_table i h,
)

-- `dec_index` without its masks: rounds in reverse, columns in order.
dec_index_lem :
    (key_len i : ℕ)
    → i < key_len + 24
    → key_len ≤ 32
    → dec_index key_len i ≡ key_len + 24 - i / 4 * 4 + i % 4
unfolding dec_index
dec_index_lem key_len i h k =
    rw ((masks i (omega arith)).0, (masks i (omega arith)).1) (omega arith)

module _ (key_len : ℕ) (small : key_len ≤ 32) (even : key_len % 4 ≡ 0) (in_key enc : List ℕ) where
  abbrev place : ℕ → ℕ
  place n = dec_index key_len (n + 4)

  abbrev column : ℕ → ℕ
  column n = imix_col (get_or enc (n + 4) 0)

  place_lem : (n : ℕ) → n < key_len + 20 → place n ≡ key_len + 24 - (n + 4) / 4 * 4 + n % 4
  place_lem n h = omega (arith, dec_index_lem key_len (n + 4) (omega arith) small)

  module _ (dec : List ℕ) (room : key_len + 28 ≤ length dec) where
    abbrev with_last : List ℕ
    with_last = fill (λ n. key_len + 24 + n) (loaded in_key) 4 dec

    abbrev with_first : List ℕ
    with_first = fill (λ n. n) (λ n. get_or enc (key_len + 24 + n) 0) 4 with_last

    as_fills : expand_dec in_key enc key_len dec ≡ fill place column (key_len + 24 - 4) with_first
    unfolding expand_dec
    as_fills = refl

    length-with_first : length with_first ≡ length dec
    length-with_first = length-fill _ _ 4 with_last ∙ length-fill _ _ 4 dec

    -- The first four words of `key_dec` are the last four of `key_enc`.
    dec_first :
        (n : ℕ)
        → n < 4
        → get_or (expand_dec in_key enc key_len dec) n 0 ≡ get_or enc (key_len + 24 + n) 0
    dec_first n h = rw as_fills (
        fill_miss place column (key_len + 24 - 4) with_first n
          (λ i p. omega (arith, place_lem i (omega arith)))
        ∙ fill_hit (λ n. n) (λ n. get_or enc (key_len + 24 + n) 0) 4 with_last n h
            (omega (arith, length-fill (λ n. key_len + 24 + n) (loaded in_key) 4 dec))
            (λ k p q. omega arith))

    -- Its last four are the first four words of the key.
    dec_last :
        (n : ℕ)
        → n < 4
        → get_or (expand_dec in_key enc key_len dec) (key_len + 24 + n) 0 ≡ loaded in_key n
    dec_last n h = rw as_fills (
        fill_miss place column (key_len + 24 - 4) with_first (key_len + 24 + n)
          (λ i p. omega (arith, place_lem i (omega arith)))
        ∙ fill_miss (λ n. n) (λ n. get_or enc (key_len + 24 + n) 0) 4 with_last (key_len + 24 + n)
            (λ i p. omega arith)
        ∙ fill_hit (λ n. key_len + 24 + n) (loaded in_key) 4 dec n h (omega arith)
            (λ k p q. omega arith))

    -- In between stands `imix_col` of the words of `key_enc`.
    dec_middle :
        (i : ℕ)
        → 4 ≤ i
        → i < key_len + 24
        → get_or (expand_dec in_key enc key_len dec) (key_len + 24 - i / 4 * 4 + i % 4) 0
          ≡ imix_col (get_or enc i 0)
    dec_middle i lo hi =
        rw (at_place, as_fills)
          (fill_hit place column (key_len + 24 - 4) with_first (i - 4) (omega arith)
              (omega (arith, place_lem (i - 4) (omega arith), length-with_first))
              (λ k p q. omega (arith, place_lem k (omega arith), place_lem (i - 4) (omega arith)))
            ∙ ap (λ (t : ℕ). imix_col (get_or enc t 0)) back)
      where
        back : i - 4 + 4 ≡ i
        back = omega arith

        at_place : key_len + 24 - i / 4 * 4 + i % 4 ≡ place (i - 4)
        at_place = omega (arith, place_lem (i - 4) (omega arith))

-- The two arrays fit each other, for every key of a length that is accepted.
pub expand_dec-IsInverseKey :
    {key_len : ℕ} (in_key enc0 dec0 : List ℕ)
    → IsKeyLength key_len
    → AllWords enc0
    → 4 ≤ length enc0
    → key_len + 28 ≤ length dec0
    → let enc = expand_enc in_key key_len enc0 in
      IsInverseKey (key_len / 4 + 6) enc (expand_dec in_key enc key_len dec0)
expand_dec-IsInverseKey {key_len} in_key enc0 dec0 len words room4 room = record {
  words = inv.words;
  first = λ n h. dec_first key_len small even in_key enc dec0 room n h ∙ at_enc n;
  last =
      λ n h. at_dec n ∙ dec_last key_len small even in_key enc dec0 room n h ∙ sym (inv.front n h);
  middle = λ r n pos lt h.
      at_middle r n lt h
      ∙ dec_middle key_len small even in_key enc dec0 room (4 * r + n) (omega arith) (omega arith);
}
  where
    enc : List ℕ
    enc = expand_enc in_key key_len enc0

    inv : IsFront (loaded in_key) enc
    inv = expand_enc-IsFront in_key enc0 len words room4

    small : key_len ≤ 32
    small = omega arith

    even : key_len % 4 ≡ 0
    even = omega arith

    at_enc : (n : ℕ) → get_or enc (key_len + 24 + n) 0 ≡ get_or enc (4 * (key_len / 4 + 6) + n) 0
    at_enc n = ap (λ (t : ℕ). get_or enc t 0) (omega arith)

    at_dec :
        (n : ℕ)
        → get_or (expand_dec in_key enc key_len dec0) (4 * (key_len / 4 + 6) + n) 0
          ≡ get_or (expand_dec in_key enc key_len dec0) (key_len + 24 + n) 0
    at_dec n = ap (λ (t : ℕ). get_or (expand_dec in_key enc key_len dec0) t 0) (omega arith)

    at_middle :
        (r n : ℕ)
        → r < key_len / 4 + 6
        → n < 4
        → get_or (expand_dec in_key enc key_len dec0) (4 * (key_len / 4 + 6 - r) + n) 0
          ≡ get_or
              (expand_dec in_key enc key_len dec0)
              (key_len + 24 - (4 * r + n) / 4 * 4 + (4 * r + n) % 4)
              0
    at_middle r n p h =
        ap (λ (t : ℕ). get_or (expand_dec in_key enc key_len dec0) t 0) (omega arith)
