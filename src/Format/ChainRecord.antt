-- ===== src/Format/ChainRecord.antt =====
-- core/format.rs: `ChainOp` and `ChainRecord`, a signed link of the integrity chain.
pub mod RoundTrip
pub mod Signed
pub mod Binding
use re_vault.Prelude.{
  ℕ, ◌+◌, Bool, List, ◌∷◌, ◌++◌, Option, none, some, length, take, ltb, ◌==◌, if◌then◌else◌,
  to_le_bytes, bytes_eq,
}
use re_vault.Error.{corrupt_container, crypto_failure, integrity_violation, Result, ok, err}
use re_vault.Crypto.{Primitives}
use re_vault.Format.Cursor.{fixed, pad_to, Parser, ◌>>=◌, ◌>>◌, pure, bytes, uint, parse, lift}

pub data ChainOp : Type 0 where
  vault_created file_added file_updated file_deleted access_granted key_rotated : ChainOp

-- `op as u8`
unfoldable pub op_code : ChainOp → ℕ
op_code vault_created = 1
op_code file_added = 2
op_code file_updated = 3
op_code file_deleted = 4
op_code access_granted = 5
op_code key_rotated = 6

unfoldable pub op_from_u8 : ℕ → Result ChainOp
op_from_u8 v =
    if v == 1
    then ok vault_created
    else if v == 2
    then ok file_added
    else if v == 3
    then ok file_updated
    else if v == 4
    then ok file_deleted
    else if v == 5
    then ok access_granted
    else if v == 6
    then ok key_rotated
    else err (corrupt_container "unknown chain op code")

abbrev pub chain_record_size : ℕ
chain_record_size = 224

pub record ChainRecord : Type 0 where
  pub seq : ℕ
  pub prev_hash : List ℕ
  pub op : ChainOp
  pub target_id : ℕ
  pub data_hash : List ℕ
  pub timestamp : ℕ
  pub record_hash : List ℕ
  pub signature : List ℕ

-- What `encode` writes before the padding, up to the marker of an occupied slot.
unfoldable pub body : ChainRecord → List ℕ
body r =
    to_le_bytes 8 r.seq
    ++ (fixed r.prev_hash 32
        ++ (to_le_bytes 1 (op_code r.op)
            ++ (to_le_bytes 16 r.target_id
                ++ (fixed r.data_hash 32
                    ++ (to_le_bytes 8 r.timestamp
                        ++ (fixed r.record_hash 32
                            ++ (fixed r.signature 64 ++ to_le_bytes 1 1)))))))

unfoldable pub encode : ChainRecord → List ℕ
encode r = pad_to chain_record_size (body r)

-- The reads of `decode`. A slot whose marker is 0 holds no record, and its op code is not looked at.
unfoldable pub fields : Parser (Option ChainRecord)
fields = do
  seq ← uint 8
  prev_hash ← bytes 32
  op_byte ← uint 1
  target_id ← uint 16
  data_hash ← bytes 32
  timestamp ← uint 8
  record_hash ← bytes 32
  signature ← bytes 64
  occupied ← uint 1
  if occupied == 0 then pure none else do
    op ← lift (op_from_u8 op_byte)
    pure (
        some (record {
          seq = seq;
          prev_hash = prev_hash;
          op = op;
          target_id = target_id;
          data_hash = data_hash;
          timestamp = timestamp;
          record_hash = record_hash;
          signature = signature;
        }))

unfoldable pub decode : List ℕ → Result (Option ChainRecord)
decode buf =
    if ltb (length buf) chain_record_size
    then err (corrupt_container "chain record slot too short")
    else parse fields (take chain_record_size buf)

-- The fields that the hash binds, in the order in which the hasher is given them.
abbrev pub hash_input : ℕ → List ℕ → ChainOp → ℕ → List ℕ → ℕ → List ℕ
hash_input seq prev_hash op target_id data_hash timestamp =
    to_le_bytes 8 seq
    ++ (prev_hash
        ++ (to_le_bytes 1 (op_code op)
            ++ (to_le_bytes 16 target_id ++ (data_hash ++ to_le_bytes 8 timestamp))))

module _ (c : Primitives) where
  unfoldable pub compute_hash : ℕ → List ℕ → ChainOp → ℕ → List ℕ → ℕ → List ℕ
  compute_hash seq prev_hash op target_id data_hash timestamp =
      c.sha256 (hash_input seq prev_hash op target_id data_hash timestamp)

  -- The signer is its Ed25519 seed.
  unfoldable pub new_signed : ℕ → List ℕ → ChainOp → ℕ → List ℕ → ℕ → List ℕ → ChainRecord
  new_signed seq prev_hash op target_id data_hash timestamp signer =
      let record_hash = compute_hash seq prev_hash op target_id data_hash timestamp in
      record {
        seq = seq;
        prev_hash = prev_hash;
        op = op;
        target_id = target_id;
        data_hash = data_hash;
        timestamp = timestamp;
        record_hash = record_hash;
        signature = c.ed_sign signer record_hash;
      }

  unfoldable pub verify_self : ChainRecord → Bool
  verify_self r =
      bytes_eq (compute_hash r.seq r.prev_hash r.op r.target_id r.data_hash r.timestamp)
        r.record_hash

  -- `identity::verify_signature`
  unfoldable pub verify_with : List ℕ → List ℕ → List ℕ → Result (Unit {0})
  verify_with signing_public message signature =
      elim (c.ed_verify signing_public message signature) [
        | none ↦ err crypto_failure
        | some good ↦
            if good
            then ok tt
            else err (integrity_violation "signature does not match the claimed identity")
      ]

  unfoldable pub verify_signature : ChainRecord → List ℕ → Result (Unit {0})
  verify_signature r admin_signing_pubkey =
      verify_with admin_signing_pubkey r.record_hash r.signature
