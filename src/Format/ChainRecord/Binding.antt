-- ===== src/Format/ChainRecord/Binding.antt =====
-- core/format.rs: what the hash of a chain record binds.
use re_vault.Prelude.{
  ℕ, ◌≡◌, sym, ◌∙◌, true, false, List, ◌++◌, bytes_eq, eq_of_bytes_eq, Bool-cases, inl, inr, ◌⊎◌,
  to_le_bytes, length-to_le_bytes, to_le_bytes-injective, append-split, ap,
}
use re_vault.Crypto.{Primitives}
use re_vault.Error.{ok}
use re_vault.Format.ChainRecord.{
  ChainOp, op_code, op_from_u8, ChainRecord, hash_input, compute_hash, verify_self,
}
use re_vault.Format.ChainRecord.RoundTrip.{IsStorable, op_from_u8-op_code}

-- The bytes that are hashed for a record.
abbrev pub hashed : ChainRecord → List ℕ
hashed r = hash_input r.seq r.prev_hash r.op r.target_id r.data_hash r.timestamp

-- The same record but for its signature.
pub record SameEvent (r t : ChainRecord) : Type 0 where
  pub same_seq : r.seq ≡ t.seq
  pub same_prev : r.prev_hash ≡ t.prev_hash
  pub same_op : r.op ≡ t.op
  pub same_target : r.target_id ≡ t.target_id
  pub same_data : r.data_hash ≡ t.data_hash
  pub same_time : r.timestamp ≡ t.timestamp

op_code-injective : (o p : ChainOp) → op_code o ≡ op_code p → o ≡ p
op_code-injective o p e =
    ok_inv (sym (op_from_u8-op_code o).1 ∙ ap op_from_u8 e ∙ (op_from_u8-op_code p).1)
  where
    ok_inv : {a b : ChainOp} → ok a ≡ ok b → a ≡ b
    ok_inv e = cc

uint-split :
    (w v u : ℕ) (ys vs : List ℕ)
    → to_le_bytes w v ++ ys ≡ to_le_bytes w u ++ vs
    → (to_le_bytes w v ≡ to_le_bytes w u) × (ys ≡ vs)
uint-split w v u ys vs =
    append-split _ _ ys vs (length-to_le_bytes w v ∙ sym (length-to_le_bytes w u))

hashed-SameEvent :
    (r t : ChainRecord) → IsStorable r → IsStorable t → hashed r ≡ hashed t → SameEvent r t
hashed-SameEvent r t h k e =
    let (seqs, e1) = uint-split 8 r.seq t.seq _ _ e in
    let (prevs, e2) = append-split r.prev_hash t.prev_hash _ _ (h.prev_len ∙ sym k.prev_len) e1 in
    let (ops, e3) = uint-split 1 (op_code r.op) (op_code t.op) _ _ e2 in
    let (targets, e4) = uint-split 16 r.target_id t.target_id _ _ e3 in
    let (datas, times) =
      append-split r.data_hash t.data_hash _ _ (h.data_len ∙ sym k.data_len) e4 in
    record {
      same_seq = to_le_bytes-injective 8 _ _ h.seq_u64 k.seq_u64 seqs;
      same_prev = prevs;
      same_op =
          op_code-injective r.op t.op (
            to_le_bytes-injective 1 _ _ (op_from_u8-op_code r.op).0 (op_from_u8-op_code t.op).0
              ops);
      same_target = to_le_bytes-injective 16 _ _ h.target_u128 k.target_u128 targets;
      same_data = datas;
      same_time = to_le_bytes-injective 8 _ _ h.timestamp_i64 k.timestamp_i64 times;
    }

-- Two records that fit their slots, that pass `verify_self` and that have the same hash agree in every
-- field but the signature, or the two different byte strings that are hashed for them have the same
-- digest.
pub verify_self-binds :
    (c : Primitives) (r t : ChainRecord)
    → IsStorable r
    → IsStorable t
    → verify_self c r ≡ true
    → verify_self c t ≡ true
    → r.record_hash ≡ t.record_hash
    → SameEvent r t
      ⊎ ((bytes_eq (hashed r) (hashed t) ≡ false) × (c.sha256 (hashed r) ≡ c.sha256 (hashed t)))
unfolding verify_self compute_hash
verify_self-binds c r t h k vr vt e = elim (Bool-cases (bytes_eq (hashed r) (hashed t))) [
  | inl same ↦ inl (hashed-SameEvent r t h k (eq_of_bytes_eq _ _ same))
  | inr differ ↦ inr (differ, eq_of_bytes_eq _ _ vr ∙ e ∙ sym (eq_of_bytes_eq _ _ vt))
]
