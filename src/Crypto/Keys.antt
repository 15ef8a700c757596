-- ===== src/Crypto/Keys.antt =====
-- core/crypto.rs: what the source builds from the primitives. Random bytes are arguments, in the
-- order in which the code draws them. A key is its 32 bytes.
use re_vault.Prelude.{
  ℕ, ◌+◌, List, [], ◌++◌, Option, none, some, length, take, drop, ltb, ◌==◌, if◌then◌else◌,
  to_le_bytes, ascii,
}
use re_vault.Error.{
  VaultError, crypto_failure, corrupt_container, incorrect_password, access_not_granted, Result, ok,
  err, ◌>>=◌,
}
use re_vault.Crypto.{Primitives}

abbrev pub key_len : ℕ
key_len = 32

abbrev pub nonce_len : ℕ
nonce_len = 12

abbrev pub tag_len : ℕ
tag_len = 16

abbrev pub salt_len : ℕ
salt_len = 16

pub record Argon2Params : Type 0 where
  pub m_cost_kib : ℕ
  pub t_cost : ℕ
  pub p_cost : ℕ

unfoldable pub default_params : Argon2Params
default_params = record { m_cost_kib = 19456; t_cost = 2; p_cost = 1 }

-- `.map_err(|_| e)` on the answer of a crate
abbrev pub or_else : Option (List ℕ) → VaultError → Result (List ℕ)
or_else none e = err e
or_else (some b) e = ok b

-- What the hasher of a block's nonce is given.
abbrev pub nonce_input : ℕ → ℕ → List ℕ
nonce_input file_id block_index =
    ascii "revault-block-nonce-v1" ++ (to_le_bytes 16 file_id ++ to_le_bytes 8 block_index)

module _ (c : Primitives) where
  unfoldable pub derive : List ℕ → List ℕ → Argon2Params → Result (List ℕ)
  derive password salt p =
      or_else (c.argon2id p.m_cost_kib p.t_cost p.p_cost password salt) crypto_failure

  -- `nonce || ciphertext_with_tag`
  unfoldable pub encrypt_random_nonce : List ℕ → List ℕ → List ℕ → List ℕ → Result (List ℕ)
  encrypt_random_nonce key nonce plaintext aad = do
    ciphertext ← or_else (c.seal key nonce aad plaintext) crypto_failure
    ok (nonce ++ ciphertext)

  unfoldable pub decrypt_random_nonce : List ℕ → List ℕ → List ℕ → Result (List ℕ)
  decrypt_random_nonce key blob aad =
      if ltb (length blob) (nonce_len + tag_len)
      then err (corrupt_container "ciphertext blob too short")
      else or_else (c.unseal key (take nonce_len blob) aad (drop nonce_len blob)) incorrect_password

  unfoldable pub block_nonce : ℕ → ℕ → List ℕ
  block_nonce file_id block_index = take nonce_len (c.sha256 (nonce_input file_id block_index))

  unfoldable pub encrypt_block : List ℕ → ℕ → ℕ → List ℕ → Result (List ℕ)
  encrypt_block key file_id block_index plaintext =
      or_else (c.seal key (block_nonce file_id block_index) [] plaintext) crypto_failure

  unfoldable pub decrypt_block : List ℕ → ℕ → ℕ → List ℕ → Result (List ℕ)
  decrypt_block key file_id block_index ciphertext =
      or_else (c.unseal key (block_nonce file_id block_index) [] ciphertext)
        (corrupt_container "block failed authentication (tampered or wrong key)")

  unfoldable pub derive_wrap_key : List ℕ → List ℕ
  derive_wrap_key shared_secret = c.sha256 (shared_secret ++ ascii "revault-dek-wrap-v1")

  -- The ephemeral secret and the nonce are drawn by the caller of the model.
  unfoldable pub wrap_dek_for_recipient : List ℕ → List ℕ → List ℕ → List ℕ → Result (List ℕ)
  wrap_dek_for_recipient ephemeral_secret nonce recipient_encryption_pub dek = do
    let wrap_key = derive_wrap_key (c.diffie_hellman ephemeral_secret recipient_encryption_pub)
    ciphertext ← or_else (c.seal wrap_key nonce [] dek) crypto_failure
    ok (c.x_public ephemeral_secret ++ (nonce ++ ciphertext))

  unfoldable pub unwrap_dek_for_recipient : List ℕ → List ℕ → Result (List ℕ)
  unwrap_dek_for_recipient recipient_secret wrapped = do
    let wrap_key = derive_wrap_key (c.diffie_hellman recipient_secret (take 32 wrapped))
    let nonce = take nonce_len (drop 32 wrapped)
    plaintext ←
        or_else (c.unseal wrap_key nonce [] (drop nonce_len (drop 32 wrapped))) access_not_granted
    if length plaintext == key_len
        then ok plaintext
        else err (corrupt_container "unwrapped DEK has the wrong length")
