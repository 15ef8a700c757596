-- ===== src/Vault/Verify.antt =====
-- core/vault.rs: `verify_integrity` and `apply_remote_patch`.
use re_vault.Prelude.{ℕ, zero, suc, ◌+◌, ◌-◌, Bool, true, List, Option, none, some, ◌==◌, bytes_eq}
use re_vault.Error.{integrity_violation}
use re_vault.Allocator.{from_bytes}
use re_vault.Format.Header
use re_vault.Format.Header.{Header, header_size}
use re_vault.Format.ChainRecord.{ChainRecord, verify_self, verify_signature}
use re_vault.Vault.State.{
  Platform, M, done, ◌>>=◌, ◌>>◌, pure, guard, lift, gets, set_header, set_allocator, for_each,
  read_at, replay, Range,
}
use re_vault.Vault.Storage.{read_chain_slot_at_seq}
use re_vault.Vault.Files.{FileInfo, list_files, read_file}

-- `if let Some(p) = &prev { rec.prev_hash != p.record_hash }`
abbrev pub links_to : Option ChainRecord → ChainRecord → Bool
links_to none rec = true
links_to (some p) rec = bytes_eq rec.prev_hash p.record_hash

-- `if let Some(last) = &prev { last.record_hash != self.header.chain_last_hash }`
abbrev pub anchored : Option ChainRecord → List ℕ → Bool
anchored none last_hash = true
anchored (some last) last_hash = bytes_eq last.record_hash last_hash

module _ (w : Platform) where
  -- The checks of one record, in order.
  unfoldable pub check_record : List ℕ → ℕ → Option ChainRecord → ChainRecord → M Unit
  check_record admin_key seq prev rec = do
    guard (rec.seq == seq)
        (integrity_violation "chain record sequence number does not match its slot")
    guard (verify_self w.crypto rec)
        (integrity_violation "chain record hash does not match its own contents")
    lift (verify_signature w.crypto rec admin_key)
    guard (links_to prev rec)
        (integrity_violation "chain record does not link to the previous record's hash")

  -- `for seq in oldest_seq..=newest_seq`, with `rounds` still to go. An empty slot is passed over.
  unfoldable pub verify_chain : List ℕ → ℕ → ℕ → Option ChainRecord → M (Option ChainRecord)
  verify_chain admin_key zero seq prev = pure prev
  verify_chain admin_key (suc rounds) seq prev = do
    found ← read_chain_slot_at_seq w seq
    elim found [
      | none ↦ verify_chain admin_key rounds (seq + 1) prev
      | some rec ↦ do
        check_record admin_key seq prev rec
        verify_chain admin_key rounds (seq + 1) (some rec)
    ]

  -- `self.read_file(&name)?;`
  unfoldable pub check_file : FileInfo → M Unit
  check_file info = do contents ← read_file w info.name; pure tt

  unfoldable pub verify_integrity : M Unit
  verify_integrity = do
    h ← gets (λ v. v.header)
    let newest_seq = h.chain_next_seq - 1
    let oldest_seq = newest_seq - (h.max_chain_records - 1)
    last ← verify_chain h.admin_signing_pubkey (newest_seq - oldest_seq + 1) oldest_seq none
    guard (anchored last h.chain_last_hash)
        (integrity_violation "chain anchor in header does not match the latest chain record")
    infos ← list_files w
    for_each infos check_file

  -- The ranges are written as they are, and not logged.
  unfoldable pub write_ranges : List Range → M Unit
  write_ranges ranges v = (done tt, record v { file = replay ranges v.file })

  -- The header and the bitmap, read again from the file.
  unfoldable pub reload : M Unit
  reload = do
    header_buf ← read_at 0 header_size
    h ← lift (Header.decode w.crypto header_buf)
    set_header (λ old. h)
    bitmap_buf ← read_at h.bitmap_offset h.bitmap_len
    set_allocator (from_bytes bitmap_buf h.block_count)

  unfoldable pub apply_remote_patch : List Range → M Unit
  apply_remote_patch ranges = do write_ranges ranges; reload
