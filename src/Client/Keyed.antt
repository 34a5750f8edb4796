-- ===== src/Client/Keyed.antt =====
-- What the loops need of a context that `crypto_aes_set_key` has filled.
use xeon_phi_kernel_integrat.Base.{ℕ, ◌%◌, List, ◌≡◌}
use xeon_phi_kernel_integrat.Aes.Context.{CryptoTfm}
use xeon_phi_kernel_integrat.Aes.KeySchedule.{crypto_aes_set_key}
use xeon_phi_kernel_integrat.Aes.KeySchedule.Words.{AllWords}
use xeon_phi_kernel_integrat.Aes.Cipher.Inverse.{IsKeyLength}
use xeon_phi_kernel_integrat.Aes.RoundTrip.{IsContext, aes_decrypt-aes_encrypt}
use xeon_phi_kernel_integrat.Memory.{Memory}
use xeon_phi_kernel_integrat.Memory.Laws.{IsBytes}
use xeon_phi_kernel_integrat.Memory.Buffer.{keyed_words}
use xeon_phi_kernel_integrat.Client.Session.{Session}
use xeon_phi_kernel_integrat.Client.Passes.{IsApart, IsSetting}

-- The hypotheses on a context before `crypto_aes_set_key`, and on the key's length.
pub record IsKeyable (tfm : CryptoTfm) (key_len : ℕ) : Type 0 where
  pub context : IsContext tfm.crt_ctx
  pub dec_words : AllWords tfm.crt_ctx.key_dec
  pub length_ok : IsKeyLength key_len

pub setting :
    (len : ℕ) (tfm : CryptoTfm) (in_key : List ℕ) (key_len : ℕ) (s : Session) (start : Memory)
    → IsKeyable tfm key_len
    → IsBytes start
    → IsApart len s
    → len % 16 ≡ 0
    → IsSetting len (crypto_aes_set_key tfm in_key key_len).0 s start
setting len tfm in_key key_len s start k bytes apart whole = record {
  enc_words = (keyed_words tfm in_key k.context k.dec_words k.length_ok).0;
  dec_words = (keyed_words tfm in_key k.context k.dec_words k.length_ok).1;
  back = λ b h. aes_decrypt-aes_encrypt tfm in_key key_len b k.context k.length_ok h;
  bytes = bytes;
  apart = apart;
  whole_len = whole;
}
