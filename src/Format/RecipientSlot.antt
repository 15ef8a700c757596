-- ===== src/Format/RecipientSlot.antt =====
-- core/format.rs: `RecipientSlot`, one entry of the envelope-encryption keyring.
pub mod RoundTrip
use re_vault.Prelude.{
  ℕ, ◌+◌, Bool, not, List, [], ◌∷◌, ◌++◌, length, take, replicate, ltb, leb, ◌==◌, if◌then◌else◌,
  to_le_bytes, bit_and,
}
use re_vault.Error.{corrupt_container, checksum_mismatch, Result, err}
use re_vault.Crypto.{Primitives}
use re_vault.Format.Cursor.{
  fixed, pad_to, Parser, ◌>>=◌, ◌>>◌, pure, guard, bytes, uint, parse, checked,
}

abbrev pub recipient_slot_size : ℕ
recipient_slot_size = 192

-- `crypto::WRAPPED_DEK_LEN`: ephemeral public key, nonce, key and tag
abbrev pub wrapped_dek_len : ℕ
wrapped_dek_len = 92

abbrev pub recipient_flag_occupied : ℕ
recipient_flag_occupied = 1

pub record RecipientSlot : Type 0 where
  pub signing_pubkey : List ℕ
  pub encryption_pubkey : List ℕ
  pub wrapped_dek : List ℕ
  pub granted_at : ℕ
  pub flags : ℕ

unfoldable pub is_occupied : RecipientSlot → Bool
is_occupied s = not (bit_and s.flags recipient_flag_occupied == 0)

-- The slot that `empty_slot` encodes, and `revoke_access` writes.
abbrev pub vacant : RecipientSlot
vacant = record {
  signing_pubkey = replicate 32 0;
  encryption_pubkey = replicate 32 0;
  wrapped_dek = [];
  granted_at = 0;
  flags = 0;
}

-- What `encode` writes before the checksum; `decode` reads it by `fields`.
unfoldable pub body : RecipientSlot → List ℕ
body s =
    fixed s.signing_pubkey 32
    ++ (fixed s.encryption_pubkey 32
        ++ (to_le_bytes 2 (length s.wrapped_dek)
            ++ (fixed s.wrapped_dek wrapped_dek_len
                ++ (to_le_bytes 8 s.granted_at ++ to_le_bytes 4 s.flags))))

unfoldable pub fields : Parser RecipientSlot
fields = do
  signing_pubkey ← bytes 32
  encryption_pubkey ← bytes 32
  wrapped_len ← uint 2
  wrapped_raw ← bytes wrapped_dek_len
  guard (leb wrapped_len wrapped_dek_len)
      (corrupt_container "recipient wrapped_dek_len exceeds field width")
  granted_at ← uint 8
  flags ← uint 4
  pure (record {
    signing_pubkey = signing_pubkey;
    encryption_pubkey = encryption_pubkey;
    wrapped_dek = take wrapped_len wrapped_raw;
    granted_at = granted_at;
    flags = flags;
  })

module _ (c : Primitives) where
  -- `&crc[..4]` over all that was written
  unfoldable pub crc : List ℕ → List ℕ
  crc b = take 4 (c.sha256 b)

  unfoldable pub encode : RecipientSlot → List ℕ
  encode s = pad_to recipient_slot_size (body s ++ fixed (crc (body s)) 4)

  unfoldable pub decode : List ℕ → Result RecipientSlot
  decode buf =
      if ltb (length buf) recipient_slot_size
      then err (corrupt_container "recipient slot too short")
      else parse (checked 4 crc (checksum_mismatch "recipient slot") fields buf)
          (take recipient_slot_size buf)

  unfoldable pub empty_slot : List ℕ
  empty_slot = encode vacant
