-- ===== src/Vault/Layout.antt =====
-- core/vault.rs: the header that `create` computes, against the structural checks of `Header::decode`.
use re_vault.Prelude.{ℕ, ◌+◌, ◌/◌, ◌<◌, ◌≤◌, ◌^◌, ◌≡◌, List, arith}
use re_vault.Error.{ok}
use re_vault.Identity.{PeerId}
use re_vault.Allocator.{bitmap_len_bytes}
use re_vault.Format.Header.{structure, default_block_size}
use re_vault.Format.Header.Layout.{IsLaidOut, NoOverflow, structure-IsLaidOut}
use re_vault.Vault.Lifecycle.{Request, layout, max_files_for, max_chain_records_for}

clamped : (c : ℕ) → (max_files_for c ≤ 4096) × (max_chain_records_for (max_files_for c) ≤ 16384)
unfolding max_files_for max_chain_records_for
clamped c = (omega arith, omega arith)

bitmap_bound : (n : ℕ) → bitmap_len_bytes n ≤ n + 1
unfolding bitmap_len_bytes
bitmap_bound n = ground arith

-- A header that `create` computes for at least one block and less than 2^63 bytes passes the
-- structural checks that every open makes, its regions being in order without overlap.
pub structure-layout :
    (r : Request) (salt key_slot : List ℕ) (admin : PeerId) (created_at : ℕ) (genesis : List ℕ)
    → default_block_size ≤ r.capacity_bytes
    → r.capacity_bytes < 2 ^ 63
    → let h = layout r salt key_slot admin created_at genesis in (structure h ≡ ok h) × IsLaidOut h
unfolding layout
structure-layout r salt key_slot admin created_at genesis some_block small =
    let h = layout r salt key_slot admin created_at genesis in
    let bounds = clamped r.capacity_bytes in
    let bitmap = bitmap_bound (r.capacity_bytes / default_block_size) in
    let no_overflow : NoOverflow h = record {
      bitmap_end = omega (arith, bounds, bitmap, small);
      file_table_end = omega (arith, bounds, bitmap, small);
      recipient_end = omega (arith, bounds, bitmap, small);
      chain_end = omega (arith, bounds, bitmap, small);
    } in
    let laid_out : IsLaidOut h = record {
      some_blocks = omega (arith, some_block);
      sized_blocks = omega arith;
      data_fits = omega (arith, small);
      bitmap_after = omega arith;
      file_table_after = omega arith;
      recipient_after = omega arith;
      chain_after = omega arith;
      data_after = omega arith;
    } in
    ((structure-IsLaidOut h no_overflow).1 laid_out, laid_out)
