-- ===== src/Crypto/Envelope.antt =====
-- core/crypto.rs: opening after sealing, of blocks, under a password and for a peer.
use re_vault.Prelude.{
  ℕ, ◌+◌, ◌≡◌, refl, sym, List, [], ◌++◌, Option, none, some, length, length-append, take-append,
  drop-append, ltb, false, arith,
}
use re_vault.Error.{VaultError, ok, ◌>>=◌}
use re_vault.Crypto.{Primitives, Documented}
use re_vault.Crypto.Keys.{
  nonce_len, tag_len, key_len, or_else, encrypt_random_nonce, decrypt_random_nonce, encrypt_block,
  decrypt_block, derive_wrap_key, wrap_dek_for_recipient, unwrap_dek_for_recipient,
}

or_else-ok : (o : Option (List ℕ)) (e : VaultError) {b : List ℕ} → or_else o e ≡ ok b → o ≡ some b
or_else-ok none e h = cc
or_else-ok (some b) e h = cc

-- What succeeded, given a success of the whole.
seal_inv :
    (o : Option (List ℕ)) (e : VaultError) (f : List ℕ → List ℕ) {b : List ℕ}
    → (or_else o e >>= λ x. ok (f x)) ≡ ok b
    → (s : List ℕ) × (o ≡ some s) × (f s ≡ b)
seal_inv none e f h = cc
seal_inv (some s) e f h = (s, refl, cc)

module _ (c : Primitives) (laws : Documented c) where
  -- What `encrypt_block` seals, `decrypt_block` opens under the same key, file and block, and the
  -- sealed block is 16 bytes longer.
  pub decrypt_block-encrypt_block :
      (key : List ℕ) (file_id block_index : ℕ) (plaintext sealed : List ℕ)
      → encrypt_block c key file_id block_index plaintext ≡ ok sealed
      → (decrypt_block c key file_id block_index sealed ≡ ok plaintext)
        × (length sealed ≡ length plaintext + 16)
  unfolding encrypt_block decrypt_block
  decrypt_block-encrypt_block key i b text sealed h =
      let e = or_else-ok _ _ h in
      (rw (laws.unseal_seal key _ [] text sealed e), laws.sealed_len key _ [] text sealed e)

  -- With a 12-byte nonce, what `encrypt_random_nonce` makes `decrypt_random_nonce` opens under the
  -- same key and associated data, and the blob is 28 bytes longer.
  decrypt-encrypt_random_nonce :
      (key nonce plaintext aad blob : List ℕ)
      → length nonce ≡ nonce_len
      → encrypt_random_nonce c key nonce plaintext aad ≡ ok blob
      → (decrypt_random_nonce c key blob aad ≡ ok plaintext) × (length blob ≡ length plaintext + 28)
  unfolding encrypt_random_nonce decrypt_random_nonce
  decrypt-encrypt_random_nonce key nonce text aad blob hn h =
      let (s, es, eb) = seal_inv (c.seal key nonce aad text) _ (λ x. nonce ++ x) h in
      let size = laws.sealed_len key nonce aad text s es in
      let enough : ltb (length (nonce ++ s)) (nonce_len + tag_len) ≡ false =
        ground (arith, length-append nonce s, size) in
      rw (← eb) (
        rw (
          enough,
          take-append nonce s nonce_len (sym hn),
          drop-append nonce s nonce_len (sym hn),
          laws.unseal_seal key nonce aad text s es,
        ),
        omega (arith, length-append nonce s, size),
      )

  -- A key wrapped for a peer's X25519 public key, with a 12-byte nonce, is unwrapped by that peer's
  -- secret to the same 32 bytes; the wrapped key is 92 bytes.
  pub unwrap-wrap_dek :
      (ephemeral nonce secret dek wrapped : List ℕ)
      → length nonce ≡ nonce_len
      → length dek ≡ key_len
      → wrap_dek_for_recipient c ephemeral nonce (c.x_public secret) dek ≡ ok wrapped
      → (unwrap_dek_for_recipient c secret wrapped ≡ ok dek) × (length wrapped ≡ 92)
  unfolding wrap_dek_for_recipient unwrap_dek_for_recipient
  unwrap-wrap_dek eph nonce secret dek wrapped hn hd h =
      let wrap_key = derive_wrap_key c (c.diffie_hellman eph (c.x_public secret)) in
      let (s, es, eb) =
        seal_inv (c.seal wrap_key nonce [] dek) _ (λ x. c.x_public eph ++ (nonce ++ x)) h in
      let size = laws.sealed_len wrap_key nonce [] dek s es in
      let front = sym (laws.x_public_len eph) in
      rw (← eb) (
        rw (
          take-append (c.x_public eph) (nonce ++ s) 32 front,
          drop-append (c.x_public eph) (nonce ++ s) 32 front,
          take-append nonce s nonce_len (sym hn),
          drop-append nonce s nonce_len (sym hn),
          laws.shared secret eph,
          laws.unseal_seal wrap_key nonce [] dek s es,
          hd,
        ),
        omega (
          arith,
          length-append (c.x_public eph) (nonce ++ s),
          length-append nonce s,
          size,
          laws.x_public_len eph,
        ),
      )
