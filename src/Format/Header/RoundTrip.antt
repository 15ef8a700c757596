-- ===== src/Format/Header/RoundTrip.antt =====
-- core/format.rs: `Header::decode` after `Header::encode`.
use mathlib.Core.Path.{subst}
use re_vault.Prelude.{
  ℕ, ◌≤◌, ◌≡◌, refl, ap, ◌∙◌, true, List, ◌++◌, length, length-append, take, arith,
  length-to_le_bytes, bytes_eq_refl, IsU32, IsU64,
}
use re_vault.Error.{checksum_mismatch}
use re_vault.Utf8.{is_utf8}
use re_vault.Crypto.{Primitives, Documented}
use re_vault.Format.Cursor.{
  fixed, Reads, Reads-bind, Reads-map, Reads-guard, Reads-bytes, Reads-uint, length-fixed,
  take-fixed, Reads-fixed, parse-slot,
}
use re_vault.Format.Header.{
  Header, magic, header_size, max_name_len, max_desc_len, admin_key_slot_len, body, fields,
  structure, encode, decode,
}

-- Every field fits the width that it is stored at; the texts are `String`s; the version is 2.
pub record IsStorable (h : Header) : Type 0 where
  pub version_two : h.version ≡ 2
  pub flags_u32 : IsU32 h.flags
  pub block_size_u32 : IsU32 h.block_size
  pub block_count_u64 : IsU64 h.block_count
  pub capacity_u64 : IsU64 h.capacity_bytes
  pub name_fits : length h.name ≤ max_name_len
  pub name_utf8 : is_utf8 h.name ≡ true
  pub description_fits : length h.description ≤ max_desc_len
  pub description_utf8 : is_utf8 h.description ≡ true
  pub created_i64 : IsU64 h.created_at
  pub salt_len : length h.salt ≡ 16
  pub m_cost_u32 : IsU32 h.argon2_m_cost_kib
  pub t_cost_u32 : IsU32 h.argon2_t_cost
  pub p_cost_u32 : IsU32 h.argon2_p_cost
  pub key_slot_fits : length h.admin_key_slot ≤ admin_key_slot_len
  pub signing_len : length h.admin_signing_pubkey ≡ 32
  pub encryption_len : length h.admin_encryption_pubkey ≡ 32
  pub bitmap_offset_u64 : IsU64 h.bitmap_offset
  pub bitmap_len_u64 : IsU64 h.bitmap_len
  pub file_table_offset_u64 : IsU64 h.file_table_offset
  pub file_table_len_u64 : IsU64 h.file_table_len
  pub max_files_u32 : IsU32 h.max_files
  pub entry_size_u32 : IsU32 h.entry_size
  pub recipient_offset_u64 : IsU64 h.recipient_offset
  pub recipient_len_u64 : IsU64 h.recipient_len
  pub max_recipients_u32 : IsU32 h.max_recipients
  pub recipient_slot_size_u32 : IsU32 h.recipient_slot_size
  pub chain_offset_u64 : IsU64 h.chain_offset
  pub chain_len_u64 : IsU64 h.chain_len
  pub max_chain_records_u32 : IsU32 h.max_chain_records
  pub chain_record_size_u32 : IsU32 h.chain_record_size
  pub chain_next_seq_u64 : IsU64 h.chain_next_seq
  pub last_hash_len : length h.chain_last_hash ≡ 32
  pub data_offset_u64 : IsU64 h.data_offset

-- The header as `decode` builds it, with each text cut out of its padded field.
abbrev cut : Header → Header
cut h = record h {
  name = take (length h.name) (fixed h.name max_name_len);
  description = take (length h.description) (fixed h.description max_desc_len);
  admin_key_slot = take (length h.admin_key_slot) (fixed h.admin_key_slot admin_key_slot_len);
}

cut_same : (h : Header) → cut h ≡ h
cut_same h i = record h {
  name = take-fixed h.name max_name_len i;
  description = take-fixed h.description max_desc_len i;
  admin_key_slot = take-fixed h.admin_key_slot admin_key_slot_len i;
}

fields-Reads-cut : (h : Header) → IsStorable h → Reads fields (body h) (cut h)
unfolding fields body
fields-Reads-cut h s = Reads-bind _ _ (Reads-bytes 8 magic refl) (
    Reads-guard _ _ _ (bytes_eq_refl magic) (
      Reads-bind _ _ (Reads-uint 4 h.version (omega (arith, s.version_two))) (
        Reads-guard _ _ _ (ground (arith, s.version_two)) (
          Reads-bind _ _ (Reads-uint 4 h.flags s.flags_u32) (
            Reads-bind _ _ (Reads-uint 4 h.block_size s.block_size_u32) (
              Reads-bind _ _ (Reads-uint 8 h.block_count s.block_count_u64) (
                Reads-bind _ _ (Reads-uint 8 h.capacity_bytes s.capacity_u64) (
                  Reads-bind _ _ (Reads-uint 2 (length h.name) (omega (arith, s.name_fits))) (
                    Reads-bind _ _
                      (Reads-bytes max_name_len _ (length-fixed h.name max_name_len s.name_fits))
                      (Reads-guard _ _ _ (ground (arith, s.name_fits)) (
                        Reads-guard _ _ _
                          (ap is_utf8 (take-fixed h.name max_name_len) ∙ s.name_utf8)
                          (Reads-bind _ _
                            (Reads-uint 2 (length h.description)
                              (omega (arith, s.description_fits)))
                            (Reads-bind _ _
                              (Reads-bytes max_desc_len _
                                (length-fixed h.description max_desc_len s.description_fits))
                              (Reads-guard _ _ _ (ground (arith, s.description_fits)) (
                                Reads-guard _ _ _
                                  (ap is_utf8 (take-fixed h.description max_desc_len)
                                    ∙ s.description_utf8)
                                  (Reads-bind _ _ (Reads-uint 8 h.created_at s.created_i64) (
                                    Reads-bind _ _ (Reads-fixed h.salt 16 s.salt_len) (
                                      Reads-bind _ _ (Reads-uint 4 h.argon2_m_cost_kib s.m_cost_u32)
                                        (Reads-bind _ _ (Reads-uint 4 h.argon2_t_cost s.t_cost_u32)
                                          (Reads-bind _ _
                                            (Reads-uint 4 h.argon2_p_cost s.p_cost_u32)
                                            (Reads-bind _ _
                                              (Reads-uint 2 (length h.admin_key_slot)
                                                (omega (arith, s.key_slot_fits)))
                                              (Reads-bind _ _
                                                (Reads-bytes admin_key_slot_len _ (
                                                  length-fixed h.admin_key_slot admin_key_slot_len
                                                    s.key_slot_fits))
                                                (Reads-guard _ _ _ (ground (arith, s.key_slot_fits))
                                                  (Reads-bind _ _
                                                    (Reads-fixed h.admin_signing_pubkey 32
                                                      s.signing_len)
                                                    (Reads-bind _ _
                                                      (Reads-fixed h.admin_encryption_pubkey 32
                                                        s.encryption_len)
                                                      (Reads-bind _ _
                                                        (Reads-uint 8 h.bitmap_offset
                                                          s.bitmap_offset_u64)
                                                        (Reads-bind _ _
                                                          (Reads-uint 8 h.bitmap_len
                                                            s.bitmap_len_u64)
                                                          (Reads-bind _ _
                                                            (Reads-uint 8 h.file_table_offset
                                                            s.file_table_offset_u64)
                                                            (Reads-bind _ _
                                                            (Reads-uint 8 h.file_table_len
                                                            s.file_table_len_u64)
                                                            (Reads-bind _ _
                                                            (Reads-uint 4 h.max_files
                                                            s.max_files_u32)
                                                            (Reads-bind _ _
                                                            (Reads-uint 4 h.entry_size
                                                            s.entry_size_u32)
                                                            (Reads-bind _ _
                                                            (Reads-uint 8 h.recipient_offset
                                                            s.recipient_offset_u64)
                                                            (Reads-bind _ _
                                                            (Reads-uint 8 h.recipient_len
                                                            s.recipient_len_u64)
                                                            (Reads-bind _ _
                                                            (Reads-uint 4 h.max_recipients
                                                            s.max_recipients_u32)
                                                            (Reads-bind _ _
                                                            (Reads-uint 4 h.recipient_slot_size
                                                            s.recipient_slot_size_u32)
                                                            (Reads-bind _ _
                                                            (Reads-uint 8 h.chain_offset
                                                            s.chain_offset_u64)
                                                            (Reads-bind _ _
                                                            (Reads-uint 8 h.chain_len
                                                            s.chain_len_u64)
                                                            (Reads-bind _ _
                                                            (Reads-uint 4 h.max_chain_records
                                                            s.max_chain_records_u32)
                                                            (Reads-bind _ _
                                                            (Reads-uint 4 h.chain_record_size
                                                            s.chain_record_size_u32)
                                                            (Reads-bind _ _
                                                            (Reads-uint 8 h.chain_next_seq
                                                            s.chain_next_seq_u64)
                                                            (Reads-bind _ _
                                                            (Reads-fixed h.chain_last_hash 32
                                                            s.last_hash_len)
                                                            (Reads-map _ _ (
                                                            Reads-uint 8 h.data_offset
                                                            s.data_offset_u64)))))))))))))))))))))))
                                                            ))))))))))))))))))))

length-body : (h : Header) → IsStorable h → length (body h) ≡ 726
unfolding body
length-body h s = simp (
  length-append,
  length-to_le_bytes,
  length-fixed h.name max_name_len s.name_fits,
  length-fixed h.description max_desc_len s.description_fits,
  length-fixed h.salt 16 (omega (arith, s.salt_len)),
  length-fixed h.admin_key_slot admin_key_slot_len s.key_slot_fits,
  length-fixed h.admin_signing_pubkey 32 (omega (arith, s.signing_len)),
  length-fixed h.admin_encryption_pubkey 32 (omega (arith, s.encryption_len)),
  length-fixed h.chain_last_hash 32 (omega (arith, s.last_hash_len)),
)

module _ (c : Primitives) (laws : Documented c) where
  -- A header whose fields fit is written to exactly 1024 bytes; from them, whatever follows,
  -- `decode` reads that header and answers by its structural checks alone.
  pub header-decode-encode :
      (h : Header) (later : List ℕ)
      → IsStorable h
      → (length (encode c h) ≡ header_size) × (decode c (encode c h ++ later) ≡ structure h)
  unfolding encode decode
  header-decode-encode h later s =
      let (whole, enough, read) =
        parse-slot 32 c.sha256 (checksum_mismatch "header") fields h (body h) (encode c h) later
          header_size (subst (Reads fields (body h)) (cut_same h) (fields-Reads-cut h s))
          (laws.digest_len (body h)) (omega (arith, length-body h s)) refl in
      (whole, rw (enough, read))
