-- ===== src/Format/ChainRecord/Signed.antt =====
-- core/format.rs: `ChainRecord::new_signed` against `verify_self` and `verify_signature`.
use re_vault.Prelude.{ℕ, ◌≡◌, true, List, length, bytes_eq_refl, IsU64, IsU128}
use re_vault.Error.{ok}
use re_vault.Crypto.{Primitives, Documented}
use re_vault.Format.ChainRecord.{
  ChainOp, compute_hash, new_signed, verify_self, verify_with, verify_signature,
}
use re_vault.Format.ChainRecord.RoundTrip.{IsStorable}

module _ (c : Primitives) (laws : Documented c) where
  -- A record that `new_signed` makes from fields that fit can be stored, its hash is that of its
  -- contents, and its signature verifies under the signer's public key.
  pub new_signed_lem :
      (seq : ℕ) (prev_hash : List ℕ) (op : ChainOp) (target_id : ℕ) (data_hash : List ℕ)
      (timestamp : ℕ) (signer : List ℕ)
      → IsU64 seq
      → length prev_hash ≡ 32
      → IsU128 target_id
      → length data_hash ≡ 32
      → IsU64 timestamp
      → let r = new_signed c seq prev_hash op target_id data_hash timestamp signer in
        IsStorable r
        × (verify_self c r ≡ true)
        × (verify_signature c r (c.ed_public signer) ≡ ok tt)
  unfolding new_signed verify_self verify_signature verify_with
  new_signed_lem seq prev op target contents time signer hs hp ht hd hn = (
    record {
      seq_u64 = hs;
      prev_len = hp;
      target_u128 = ht;
      data_len = hd;
      timestamp_i64 = hn;
      hash_len = unfold compute_hash in laws.digest_len _;
      signature_len = laws.signature_len signer _;
    },
    bytes_eq_refl (compute_hash c seq prev op target contents time),
    rw (
      laws.signed_verifies signer (compute_hash c seq prev op target contents time),
      verify_signature,
      verify_with,
      new_signed,
    ),
  )
