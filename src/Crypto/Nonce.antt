-- ===== src/Crypto/Nonce.antt =====
-- core/crypto.rs: which blocks share a nonce.
use re_vault.Prelude.{
  ℕ, ◌≡◌, sym, ◌∙◌, false, take, bytes_eq, eq_of_bytes_eq, Bool-cases, inl, inr, ◌⊎◌, IsU64, IsU128,
  to_le_bytes, length-to_le_bytes, to_le_bytes-injective, append-split, ascii, refl,
}
use re_vault.Crypto.{Primitives}
use re_vault.Crypto.Keys.{nonce_len, nonce_input, block_nonce}

nonce_input-injective :
    (file_id block_index file_id' block_index' : ℕ)
    → IsU128 file_id
    → IsU64 block_index
    → IsU128 file_id'
    → IsU64 block_index'
    → nonce_input file_id block_index ≡ nonce_input file_id' block_index'
    → (file_id ≡ file_id') × (block_index ≡ block_index')
nonce_input-injective f b g d hf hb hg hd e =
    let tag = ascii "revault-block-nonce-v1" in
    let numbers = (append-split tag tag _ _ refl e).1 in
    let (files, blocks) =
      append-split (to_le_bytes 16 f) (to_le_bytes 16 g) _ _
        (length-to_le_bytes 16 f ∙ sym (length-to_le_bytes 16 g)) numbers in
    (to_le_bytes-injective 16 f g hf hg files, to_le_bytes-injective 8 b d hb hd blocks)

-- Two blocks, of any files, that are given the same nonce are the same block of the same file, or the
-- two different byte strings that are hashed for them have digests that agree in their first 12 bytes.
pub block_nonce-binds :
    (c : Primitives) (file_id block_index file_id' block_index' : ℕ)
    → IsU128 file_id
    → IsU64 block_index
    → IsU128 file_id'
    → IsU64 block_index'
    → block_nonce c file_id block_index ≡ block_nonce c file_id' block_index'
    → ((file_id ≡ file_id') × (block_index ≡ block_index'))
      ⊎ ((bytes_eq (nonce_input file_id block_index) (nonce_input file_id' block_index') ≡ false)
          × (take nonce_len (c.sha256 (nonce_input file_id block_index))
              ≡ take nonce_len (c.sha256 (nonce_input file_id' block_index'))))
unfolding block_nonce
block_nonce-binds c f b g d hf hb hg hd e =
    elim (Bool-cases (bytes_eq (nonce_input f b) (nonce_input g d))) [
      | inl same ↦ inl (nonce_input-injective f b g d hf hb hg hd (eq_of_bytes_eq _ _ same))
      | inr differ ↦ inr (differ, e)
    ]
