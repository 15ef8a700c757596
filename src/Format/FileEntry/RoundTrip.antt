-- ===== src/Format/FileEntry/RoundTrip.antt =====
-- core/format.rs: `FileEntry::decode` after `FileEntry::encode`.
use mathlib.Core.Path.{subst}
use re_vault.Prelude.{
  ℕ, zero, suc, ◌*◌, ◌≤◌, ◌≡◌, refl, ap, ◌∙◌, true, List, [], ◌∷◌, ◌++◌, length, length-append, All,
  arith, to_le_bytes, length-to_le_bytes, IsU32, IsU64, IsU128, length-take,
}
use re_vault.Error.{ok, checksum_mismatch}
use re_vault.Utf8.{is_utf8}
use re_vault.Crypto.{Primitives, Documented}
use re_vault.Format.Cursor.{
  fixed, Reads, Reads-pure, Reads-bind, Reads-map, Reads-guard, Reads-bytes, Reads-uint,
  length-fixed, take-fixed, Reads-fixed, parse-slot,
}
use re_vault.Format.FileEntry.{
  FileEntry, entry_size, max_filename_len, direct_blocks_count, put_u64s, u64s, body, fields, crc,
  encode, decode,
}

-- Every field fits the width that it is stored at, and the name is a `String`.
pub record IsStorable (e : FileEntry) : Type 0 where
  pub id_u128 : IsU128 e.id
  pub name_fits : length e.name ≤ max_filename_len
  pub name_utf8 : is_utf8 e.name ≡ true
  pub size_u64 : IsU64 e.size
  pub blocks_used_u32 : IsU32 e.blocks_used
  pub direct_len : length e.direct_blocks ≡ direct_blocks_count
  pub direct_u64 : All IsU64 e.direct_blocks
  pub overflow_u64 : IsU64 e.overflow_block
  pub hash_len : length e.file_hash ≡ 32
  pub created_i64 : IsU64 e.created_at
  pub modified_i64 : IsU64 e.modified_at
  pub flags_u32 : IsU32 e.flags

Reads-u64s : (n : ℕ) (bs : List ℕ) → length bs ≡ n → All IsU64 bs → Reads (u64s n) (put_u64s bs) bs
unfolding u64s put_u64s
Reads-u64s zero [] h a = Reads-pure []
Reads-u64s zero (b ∷ bs) h a = absurd (omega arith)
Reads-u64s (suc n) [] h a = absurd (omega arith)
Reads-u64s (suc n) (b ∷ bs) h a =
    Reads-bind _ _ (Reads-uint 8 b a.0)
      (Reads-map _ (λ t. b ∷ t) (Reads-u64s n bs (omega arith) a.1))

fields-Reads : (e : FileEntry) → IsStorable e → Reads fields (body e) e
unfolding fields body
fields-Reads e h =
    subst (λ n. Reads fields (body e) (record e { name = n })) (take-fixed e.name max_filename_len)
      (Reads-bind _ _ (Reads-uint 16 e.id h.id_u128) (
        Reads-bind _ _ (Reads-uint 2 (length e.name) (omega (arith, h.name_fits))) (
          Reads-bind _ _
            (Reads-bytes max_filename_len (fixed e.name max_filename_len)
              (length-fixed e.name max_filename_len h.name_fits))
            (Reads-guard _ _ _ (ground (arith, h.name_fits)) (
              Reads-guard _ _ _ (ap is_utf8 (take-fixed e.name max_filename_len) ∙ h.name_utf8) (
                Reads-bind _ _ (Reads-uint 8 e.size h.size_u64) (
                  Reads-bind _ _ (Reads-uint 4 e.blocks_used h.blocks_used_u32) (
                    Reads-bind _ _
                      (Reads-u64s direct_blocks_count e.direct_blocks h.direct_len h.direct_u64)
                      (Reads-bind _ _ (Reads-uint 8 e.overflow_block h.overflow_u64) (
                        Reads-bind _ _ (Reads-fixed e.file_hash 32 h.hash_len) (
                          Reads-bind _ _ (Reads-uint 8 e.created_at h.created_i64) (
                            Reads-bind _ _ (Reads-uint 8 e.modified_at h.modified_i64)
                              (Reads-map _ _ (Reads-uint 4 e.flags h.flags_u32))))))))))))))

length-put_u64s : (bs : List ℕ) → length (put_u64s bs) ≡ 8 * length bs
unfolding put_u64s
length-put_u64s [] = refl
length-put_u64s (b ∷ bs) = omega (
  arith,
  length-append (to_le_bytes 8 b) (put_u64s bs),
  length-to_le_bytes 8 b,
  length-put_u64s bs,
)

length-body : (e : FileEntry) → IsStorable e → length (body e) ≡ 282
unfolding body
length-body e h =
    simp
      (
        length-append,
        length-to_le_bytes,
        length-put_u64s,
        length-fixed e.name max_filename_len h.name_fits,
        length-fixed e.file_hash 32 (omega (arith, h.hash_len)),
      )
      (omega (arith, h.direct_len))

module _ (c : Primitives) (laws : Documented c) where
  length-crc : (b : List ℕ) → length (crc c b) ≡ 4
  unfolding crc
  length-crc b = omega (arith, length-take 4 (c.sha256 b), laws.digest_len b)

  -- An entry whose fields fit is written to exactly one slot of 320 bytes, and `decode` gives it
  -- back from that slot, whatever follows.
  pub decode-encode :
      (e : FileEntry) (later : List ℕ)
      → IsStorable e
      → (length (encode c e) ≡ entry_size) × (decode c (encode c e ++ later) ≡ ok e)
  unfolding encode decode
  decode-encode e later h =
      let (whole, enough, read) =
        parse-slot 4 (crc c) (checksum_mismatch "file entry") fields e (body e) (encode c e) later
          entry_size (fields-Reads e h) (length-crc (body e)) (omega (arith, length-body e h))
          refl in
      (whole, rw enough read)
