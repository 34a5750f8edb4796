-- ===== src/Memory.antt =====
-- Memory as the programs see it, a byte to each address, and the four words of an AES block in it.
-- The casts `(const __le32 *) in` and `(__le32 *) out` of `aes_encrypt` and `aes_decrypt` in
-- openmpmic/aes.c read and write whole words; both the card and its host are little-endian.
pub mod Laws
pub mod Loop
pub mod Order
pub mod Buffer
use xeon_phi_kernel_integrat.Base.{ℕ, ◌+◌, ◌*◌, ◌^◌, List, [], ◌∷◌, ◌==◌, if◌then◌else◌}
use xeon_phi_kernel_integrat.Aes.Word.{byte}
use xeon_phi_kernel_integrat.Aes.Context.{CryptoTfm}
use xeon_phi_kernel_integrat.Aes.Cipher.{Block, aes_encrypt, aes_decrypt}

abbrev pub Memory : Type 0
Memory = ℕ → ℕ

-- `*(const __le32 *) a`
unfoldable pub load32 : Memory → ℕ → ℕ
load32 m a = m a + m (a + 1) * 2 ^ 8 + m (a + 2) * 2 ^ 16 + m (a + 3) * 2 ^ 24

-- `*(__le32 *) a = v`
unfoldable pub store32 : ℕ → ℕ → Memory → Memory
store32 a v m x =
    if x == a
    then byte v 0
    else if x == a + 1
    then byte v 1
    else if x == a + 2
    then byte v 2
    else if x == a + 3
    then byte v 3
    else m x

-- `src[0]` to `src[3]`
unfoldable pub load_block : Memory → ℕ → Block
load_block m a = record {
  w0 = load32 m a;
  w1 = load32 m (a + 4);
  w2 = load32 m (a + 8);
  w3 = load32 m (a + 12);
}

-- `dst[0] = b[0];` to `dst[3] = b[3];`
unfoldable pub store_block : ℕ → Block → Memory → Memory
store_block a b m =
    store32 (a + 12) b.w3 (store32 (a + 8) b.w2 (store32 (a + 4) b.w1 (store32 a b.w0 m)))

-- `aes_encrypt(tfm, out, in)` and `aes_decrypt(tfm, out, in)`: all of `in` is read before `out` is
-- written.
unfoldable pub aes_encrypt_at : CryptoTfm → ℕ → ℕ → Memory → Memory
aes_encrypt_at tfm out inp m = store_block out (aes_encrypt tfm (load_block m inp)) m

unfoldable pub aes_decrypt_at : CryptoTfm → ℕ → ℕ → Memory → Memory
aes_decrypt_at tfm out inp m = store_block out (aes_decrypt tfm (load_block m inp)) m

-- `for (k = 0; k < size; k += 16) body(k)` under `#pragma omp parallel for`. The rounds run in the
-- order that the OpenMP runtime chooses, `order`.
unfoldable pub parallel_for : List ℕ → (ℕ → Memory → Memory) → Memory → Memory
parallel_for [] body m = m
parallel_for (k ∷ ks) body m = parallel_for ks body (body k m)
