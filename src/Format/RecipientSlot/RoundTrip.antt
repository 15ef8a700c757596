-- ===== src/Format/RecipientSlot/RoundTrip.antt =====
-- core/format.rs: `RecipientSlot::decode` after `RecipientSlot::encode`.
use mathlib.Core.Path.{subst}
use re_vault.Prelude.{
  ℕ, ◌≤◌, ◌≡◌, refl, List, ◌++◌, length, length-append, arith, length-to_le_bytes, IsU32, IsU64,
  length-take,
}
use re_vault.Error.{ok, checksum_mismatch}
use re_vault.Crypto.{Primitives, Documented}
use re_vault.Format.Cursor.{
  Reads, Reads-bind, Reads-map, Reads-guard, Reads-bytes, Reads-uint, length-fixed, take-fixed,
  Reads-fixed, parse-slot,
}
use re_vault.Format.RecipientSlot.{
  RecipientSlot, recipient_slot_size, wrapped_dek_len, body, fields, crc, encode, decode,
}

-- Every field fits the width that it is stored at.
pub record IsStorable (s : RecipientSlot) : Type 0 where
  pub signing_len : length s.signing_pubkey ≡ 32
  pub encryption_len : length s.encryption_pubkey ≡ 32
  pub wrapped_fits : length s.wrapped_dek ≤ wrapped_dek_len
  pub granted_i64 : IsU64 s.granted_at
  pub flags_u32 : IsU32 s.flags

fields-Reads : (s : RecipientSlot) → IsStorable s → Reads fields (body s) s
unfolding fields body
fields-Reads s h =
    subst (λ w. Reads fields (body s) (record s { wrapped_dek = w }))
      (take-fixed s.wrapped_dek wrapped_dek_len)
      (Reads-bind _ _ (Reads-fixed s.signing_pubkey 32 h.signing_len) (
        Reads-bind _ _ (Reads-fixed s.encryption_pubkey 32 h.encryption_len) (
          Reads-bind _ _ (Reads-uint 2 (length s.wrapped_dek) (omega (arith, h.wrapped_fits))) (
            Reads-bind _ _
              (Reads-bytes wrapped_dek_len _
                (length-fixed s.wrapped_dek wrapped_dek_len h.wrapped_fits))
              (Reads-guard _ _ _ (ground (arith, h.wrapped_fits)) (
                Reads-bind _ _ (Reads-uint 8 s.granted_at h.granted_i64)
                  (Reads-map _ _ (Reads-uint 4 s.flags h.flags_u32))))))))

length-body : (s : RecipientSlot) → IsStorable s → length (body s) ≡ 170
unfolding body
length-body s h = simp (
  length-append,
  length-to_le_bytes,
  length-fixed s.signing_pubkey 32 (omega (arith, h.signing_len)),
  length-fixed s.encryption_pubkey 32 (omega (arith, h.encryption_len)),
  length-fixed s.wrapped_dek wrapped_dek_len h.wrapped_fits,
)

module _ (c : Primitives) (laws : Documented c) where
  length-crc : (b : List ℕ) → length (crc c b) ≡ 4
  unfolding crc
  length-crc b = omega (arith, length-take 4 (c.sha256 b), laws.digest_len b)

  -- A recipient slot whose fields fit is written to exactly 192 bytes, and `decode` gives it back
  -- from them, whatever follows.
  pub slot-decode-encode :
      (s : RecipientSlot) (later : List ℕ)
      → IsStorable s
      → (length (encode c s) ≡ recipient_slot_size) × (decode c (encode c s ++ later) ≡ ok s)
  unfolding encode decode
  slot-decode-encode s later h =
      let (whole, enough, read) =
        parse-slot 4 (crc c) (checksum_mismatch "recipient slot") fields s (body s) (encode c s)
          later recipient_slot_size (fields-Reads s h) (length-crc (body s))
          (omega (arith, length-body s h)) refl in
      (whole, rw enough read)
