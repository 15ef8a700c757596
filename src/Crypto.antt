-- ===== src/Crypto.antt =====
-- The third-party cryptography that the source calls, as a parameter of the model: sha2, argon2,
-- aes-gcm, x25519-dalek and ed25519-dalek. Bytes are lists of numbers.
pub mod Keys
pub mod Envelope
pub mod Nonce
use re_vault.Prelude.{ℕ, ◌+◌, ◌≡◌, Bool, true, List, Option, some, length, All, IsByte}

pub record Primitives : Type 0 where
  -- `Sha256` over the bytes of all its updates
  pub sha256 : List ℕ → List ℕ
  -- `hash_password_into` at `m_cost_kib t_cost p_cost password salt`
  pub argon2id : ℕ → ℕ → ℕ → List ℕ → List ℕ → Option (List ℕ)
  -- AES-256-GCM at `key nonce aad text`; the sealed text ends in the tag
  pub seal : List ℕ → List ℕ → List ℕ → List ℕ → Option (List ℕ)
  pub unseal : List ℕ → List ℕ → List ℕ → List ℕ → Option (List ℕ)
  -- X25519: the public key of a secret, and the shared secret
  pub x_public : List ℕ → List ℕ
  pub diffie_hellman : List ℕ → List ℕ → List ℕ
  -- Ed25519: the public key of a seed, a signature, and its check; `none` for no valid key
  pub ed_public : List ℕ → List ℕ
  pub ed_sign : List ℕ → List ℕ → List ℕ
  pub ed_verify : List ℕ → List ℕ → List ℕ → Option Bool

-- What the crates document of these functions.
pub record Documented (c : Primitives) : Type 0 where
  pub digest_len : (b : List ℕ) → length (c.sha256 b) ≡ 32
  pub digest_bytes : (b : List ℕ) → All IsByte (c.sha256 b)
  pub sealed_len : (k n a t s : List ℕ) → c.seal k n a t ≡ some s → length s ≡ length t + 16
  pub unseal_seal : (k n a t s : List ℕ) → c.seal k n a t ≡ some s → c.unseal k n a s ≡ some t
  pub shared :
      (s t : List ℕ) → c.diffie_hellman s (c.x_public t) ≡ c.diffie_hellman t (c.x_public s)
  pub x_public_len : (s : List ℕ) → length (c.x_public s) ≡ 32
  pub ed_public_len : (s : List ℕ) → length (c.ed_public s) ≡ 32
  pub signature_len : (s m : List ℕ) → length (c.ed_sign s m) ≡ 64
  pub signed_verifies : (s m : List ℕ) → c.ed_verify (c.ed_public s) m (c.ed_sign s m) ≡ some true
