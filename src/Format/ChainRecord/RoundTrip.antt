-- ===== src/Format/ChainRecord/RoundTrip.antt =====
-- core/format.rs: `ChainRecord::decode` after `ChainRecord::encode`.
use re_vault.Prelude.{
  ℕ, ◌<◌, ◌≡◌, refl, sym, List, ◌++◌, none, some, length, length-append, take-append, replicate,
  ltb, false, arith, from_le_bytes, length-to_le_bytes, IsU64, IsU128,
}
use re_vault.Error.{ok}
use re_vault.Format.Cursor.{
  pad_to, pure, parse, parse_ok, Reads, Reads-bind, Reads-last, Reads-pure, Reads-uint, Reads-lift,
  length-fixed, length-pad_to, Reads-fixed, bytes, uint, ◌>>=◌, lift,
}
use re_vault.Format.ChainRecord.{
  ChainOp, vault_created, file_added, file_updated, file_deleted, access_granted, key_rotated,
  op_code, op_from_u8, ChainRecord, chain_record_size, body, fields, encode, decode,
}

pub record IsStorable (r : ChainRecord) : Type 0 where
  pub seq_u64 : IsU64 r.seq
  pub prev_len : length r.prev_hash ≡ 32
  pub target_u128 : IsU128 r.target_id
  pub data_len : length r.data_hash ≡ 32
  pub timestamp_i64 : IsU64 r.timestamp
  pub hash_len : length r.record_hash ≡ 32
  pub signature_len : length r.signature ≡ 64

-- Every operation has a code of one byte, which `from_u8` reads back.
pub op_from_u8-op_code : (op : ChainOp) → (op_code op < 256) × (op_from_u8 (op_code op) ≡ ok op)
unfolding op_code op_from_u8
op_from_u8-op_code vault_created = (omega arith, refl)
op_from_u8-op_code file_added = (omega arith, refl)
op_from_u8-op_code file_updated = (omega arith, refl)
op_from_u8-op_code file_deleted = (omega arith, refl)
op_from_u8-op_code access_granted = (omega arith, refl)
op_from_u8-op_code key_rotated = (omega arith, refl)

fields-Reads : (r : ChainRecord) → IsStorable r → Reads fields (body r) (some r)
unfolding fields body
fields-Reads r h = Reads-bind _ _ (Reads-uint 8 r.seq h.seq_u64) (
    Reads-bind _ _ (Reads-fixed r.prev_hash 32 h.prev_len) (
      Reads-bind _ _ (Reads-uint 1 (op_code r.op) (op_from_u8-op_code r.op).0) (
        Reads-bind _ _ (Reads-uint 16 r.target_id h.target_u128) (
          Reads-bind _ _ (Reads-fixed r.data_hash 32 h.data_len) (
            Reads-bind _ _ (Reads-uint 8 r.timestamp h.timestamp_i64) (
              Reads-bind _ _ (Reads-fixed r.record_hash 32 h.hash_len) (
                Reads-bind _ _ (Reads-fixed r.signature 64 h.signature_len) (
                  Reads-last _ _ (Reads-uint 1 1 (omega arith))
                    (Reads-lift _ _ (op_from_u8-op_code r.op).1 (Reads-pure (some r)))))))))))

length-body : (r : ChainRecord) → IsStorable r → length (body r) ≡ 194
unfolding body
length-body r h = simp (
  length-append,
  length-to_le_bytes,
  length-fixed r.prev_hash 32 (omega (arith, h.prev_len)),
  length-fixed r.data_hash 32 (omega (arith, h.data_len)),
  length-fixed r.record_hash 32 (omega (arith, h.hash_len)),
  length-fixed r.signature 64 (omega (arith, h.signature_len)),
)

pub length-encode : (r : ChainRecord) → IsStorable r → length (encode r) ≡ chain_record_size
unfolding encode
length-encode r h = length-pad_to chain_record_size (body r) (omega (arith, length-body r h))

read_back : (r : ChainRecord) → IsStorable r → parse fields (encode r) ≡ ok (some r)
unfolding encode pad_to
read_back r h = parse_ok fields _ ((fields-Reads r h).run _ 0)

-- A chain record whose fields fit is written to exactly 224 bytes, and `decode` gives it back from
-- them, whatever follows.
pub record-decode-encode :
    (r : ChainRecord) (later : List ℕ)
    → IsStorable r
    → (length (encode r) ≡ chain_record_size) × (decode (encode r ++ later) ≡ ok (some r))
unfolding decode
record-decode-encode r later h =
    let enough : ltb (length (encode r ++ later)) chain_record_size ≡ false =
      ground (arith, length-append (encode r) later, length-encode r h) in
    (
      length-encode r h,
      rw (enough, take-append (encode r) later chain_record_size (sym (length-encode r h)))
          (read_back r h),
    )

-- A slot that `create` filled with zeros holds no record.
pub decode_unused : decode (replicate chain_record_size 0) ≡ ok none
unfolding decode fields bytes uint parse ◌>>=◌ pure lift from_le_bytes
decode_unused = refl
