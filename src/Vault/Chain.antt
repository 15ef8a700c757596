-- ===== src/Vault/Chain.antt =====
-- core/vault.rs: `append_signed_chain_record` against the checks of `verify_integrity`.
use re_vault.Prelude.{
  ℕ, ◌+◌, ◌%◌, ◌^◌, ◌≤◌, ◌≡◌, refl, sym, ap, ◌∙◌, true, List, [], append-nil, some, length, ◌==◌,
  IsU64, IsU128, arith, bytes_eq_refl,
}
use re_vault.Error.{ok}
use re_vault.Crypto.{Documented}
use re_vault.Identity.{Identity}
use re_vault.Format.Header
use re_vault.Format.Header.{Header, header_size}
use re_vault.Format.Header.RoundTrip
use re_vault.Format.ChainRecord
use re_vault.Format.ChainRecord.{
  ChainOp, ChainRecord, chain_record_size, new_signed, verify_self, verify_signature,
}
use re_vault.Format.ChainRecord.RoundTrip.{IsStorable, record-decode-encode}
use re_vault.Format.ChainRecord.Signed.{new_signed_lem}
use re_vault.Vault.State.{Platform, Vault, done, ◌>>=◌, ◌>>◌, gets, guard, lift, read_at, slice}
use re_vault.Vault.Storage.{chain_slot_offset, read_chain_slot_at_seq}
use re_vault.Vault.Verify.{check_record}

module _ (w : Platform) where
  -- The record that an append makes of the vault's state.
  abbrev pub next_record : Vault → Identity → ChainOp → ℕ → List ℕ → ChainRecord
  next_record v admin op id hash =
      new_signed w.crypto v.header.chain_next_seq v.header.chain_last_hash op id hash
        (w.now v.drawn) admin.signing

  abbrev pub advanced : Vault → ChainRecord → Header
  advanced v rec = record v.header {
    chain_next_seq = (v.header.chain_next_seq + 1) % 2 ^ 64;
    chain_last_hash = rec.record_hash;
  }

  -- What the appended record and the advanced header must fit.
  pub record Fits (v : Vault) (admin : Identity) (op : ChainOp) (id : ℕ) (hash : List ℕ)
      : Type 0 where
    pub seq_u64 : IsU64 v.header.chain_next_seq
    pub last_len : length v.header.chain_last_hash ≡ 32
    pub target_u128 : IsU128 id
    pub hash_len : length hash ≡ 32
    pub time_i64 : IsU64 (w.now v.drawn)
    pub slot_size : v.header.chain_record_size ≡ chain_record_size
    pub behind_header : header_size ≤ chain_slot_offset v.header v.header.chain_next_seq
    pub header_fits : Header.RoundTrip.IsStorable (advanced v (next_record v admin op id hash))

  module _ (laws : Documented w.crypto) where
    signed :
        (v : Vault) (admin : Identity) (op : ChainOp) (id : ℕ) (hash : List ℕ)
        → Fits v admin op id hash
        → let rec = next_record v admin op id hash in
          IsStorable rec
          × (verify_self w.crypto rec ≡ true)
          × (verify_signature w.crypto rec (w.crypto.ed_public admin.signing) ≡ ok tt)
    signed v admin op id hash f =
        new_signed_lem w.crypto laws _ _ op id hash _ admin.signing f.seq_u64 f.last_len
          f.target_u128 f.hash_len f.time_i64

    read_slot :
        (seq : ℕ) (rec : ChainRecord) (u : Vault)
        → IsStorable rec
        → slice u.file (chain_slot_offset u.header seq) u.header.chain_record_size
          ≡ ok (ChainRecord.encode rec)
        → read_chain_slot_at_seq w seq u ≡ (done (some rec), u)
    unfolding read_chain_slot_at_seq ◌>>=◌ gets read_at lift
    read_slot seq rec u stored found =
        let whole : ChainRecord.decode (ChainRecord.encode rec) ≡ ok (some rec) =
          ap ChainRecord.decode (sym (append-nil (ChainRecord.encode rec)))
          ∙ (record-decode-encode rec [] stored).1 in
        rw (found, whole) refl

    checked :
        (v u : Vault) (admin : Identity) (op : ChainOp) (id : ℕ) (hash : List ℕ)
        (prev : ChainRecord)
        → Fits v admin op id hash
        → prev.record_hash ≡ v.header.chain_last_hash
        → check_record w
            (w.crypto.ed_public admin.signing)
            v.header.chain_next_seq
            (some prev)
            (next_record v admin op id hash)
            u
          ≡ (done tt, u)
    unfolding check_record ◌>>◌ ◌>>=◌ guard lift new_signed
    checked v u admin op id hash prev f linked =
        let (stored, own, by_admin) = signed v admin op id hash f in
        let same : (v.header.chain_next_seq == v.header.chain_next_seq) ≡ true = ground arith in
        rw (same, own, by_admin, linked, bytes_eq_refl v.header.chain_last_hash) refl
