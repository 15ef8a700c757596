-- ===== src/Tests/Vaults.antt =====
-- The vault's theorems at the small vault.
use re_vault.Prelude.{
  ℕ, ◌+◌, ◌-◌, ◌*◌, ◌<◌, ◌≤◌, ◌≡◌, ◌≢◌, refl, true, false, none, List, [], ◌∷◌, ◌++◌, length,
  length-replicate, arith, bytes_eq, ascii, to_le_bytes, from_le_bytes, ltb, leb, Bool,
}
use re_vault.Error.{ok, not_authorized}
use re_vault.Utf8.{is_utf8, follow}
use re_vault.Crypto.Keys.{encrypt_block, decrypt_block}
use re_vault.Identity.{PeerId, Identity, peer_id, peer_eq}
use re_vault.Format.Header as Header
use re_vault.Format.Header.{Header, structure}
use re_vault.Format.RecipientSlot as RecipientSlot
use re_vault.Format.RecipientSlot.{RecipientSlot}
use re_vault.Format.ChainRecord.{ChainRecord, file_added, new_signed}
use re_vault.Vault.State.{
  Vault, M, Range, Outcome, done, failed, loops, ◌>>=◌, ◌>>◌, pure, lift, guard, gets, write_at,
  read_at, slice, take_change_log,
}
use re_vault.Vault.Storage.{is_admin, append_signed_chain_record}
use re_vault.Vault.Blocks.{write_physical_block, read_physical_block}
use re_vault.Vault.Blocks.RoundTrip.{read-write_physical_block, read-write_other, HasDataRegion}
use re_vault.Vault.Verify.{apply_remote_patch}
use re_vault.Vault.Mutation.{Mutation, add, delete, run, run_all}
use re_vault.Vault.ChangeLog.Replica.{apply_remote_patch-take_change_log}
use re_vault.Vault.Authority.{run-not_authorized, run_all-open_as_recipient, is_admin-open_vault}
use re_vault.Vault.Lifecycle.{Request, layout, open_as_recipient, open_vault}
use re_vault.Vault.Chain.{next_record}
use re_vault.Vault.Layout.{structure-layout}
use re_vault.Format.Header.Layout.{IsLaidOut}
use re_vault.Tests.Toy.{zeros, toy, toy-Documented, platform, device, small_header, small_vault}

abbrev pub granted_slot : RecipientSlot
granted_slot = record {
  signing_pubkey = zeros 32;
  encryption_pubkey = zeros 32;
  wrapped_dek = zeros 92;
  granted_at = 3;
  flags = 1;
}

abbrev changes : List Mutation
changes = add (97 ∷ []) (1 ∷ 2 ∷ 3 ∷ []) ∷ delete (97 ∷ []) ∷ []

apply_remote_patch-take_change_log_example :
    ((take_change_log (run_all platform changes small_vault)).0
      ≡ done (run_all platform changes small_vault).change_log)
    × ((take_change_log (run_all platform changes small_vault)).1.change_log ≡ [])
    × ((apply_remote_patch platform
          (run_all platform changes small_vault).change_log
          small_vault).1.file
        ≡ (run_all platform changes small_vault).file)
apply_remote_patch-take_change_log_example =
    apply_remote_patch-take_change_log platform changes small_vault small_vault refl refl

abbrev reader : Vault
reader = record small_vault { admin_identity = none }

run-not_authorized_example :
    run platform (delete (97 ∷ [])) reader ≡ (failed not_authorized, reader)
unfolding is_admin
run-not_authorized_example = run-not_authorized platform (delete (97 ∷ [])) reader refl

abbrev wrote : Vault
wrote = (write_physical_block platform 1 7 (1 ∷ 2 ∷ 3 ∷ []) small_vault).1

writes : write_physical_block platform 1 7 (1 ∷ 2 ∷ 3 ∷ []) small_vault ≡ (done tt, wrote)
unfolding write_physical_block encrypt_block ◌>>=◌ ◌>>◌ lift guard gets write_at
writes = refl

read-write_physical_block_example :
    read_physical_block platform 1 7 wrote ≡ (done (1 ∷ 2 ∷ 3 ∷ []), wrote)
read-write_physical_block_example =
    read-write_physical_block platform toy-Documented 1 7 (1 ∷ 2 ∷ 3 ∷ []) small_vault wrote
      (omega arith) writes

small_region : HasDataRegion small_vault
small_region = record {
  sized = omega arith;
  held = omega (arith, length-replicate {A = ℕ} 2241 0);
  fits = omega (arith, length-replicate {A = ℕ} 2241 0);
}

read-write_other_example :
    (read_physical_block platform 2 7 wrote).0 ≡ (read_physical_block platform 2 7 small_vault).0
read-write_other_example =
    read-write_other platform 1 7 (1 ∷ 2 ∷ 3 ∷ []) 2 7 small_vault wrote small_region (omega arith)
      (omega arith) (omega arith) writes

abbrev first_record : ChainRecord
first_record = new_signed toy 0 (zeros 32) file_added 5 (zeros 32) 0 (zeros 32)

abbrev appended_vault : Vault
appended_vault = (append_signed_chain_record platform file_added 5 (zeros 32) small_vault).1

abbrev second_record : ChainRecord
second_record = next_record platform small_vault device file_added 5 (zeros 32)

-- A file with its header, an empty bitmap, an empty file table and one recipient.
abbrev pub shared : List ℕ
shared =
    Header.encode toy small_header
    ++ ((0 ∷ []) ++ (zeros 320 ++ (RecipientSlot.encode toy granted_slot ++ zeros 704)))

abbrev joined : Vault
joined = record small_vault { file = shared; admin_identity = none }

opens : open_as_recipient platform shared device 0 ≡ ok joined
unfolding re_vault.Format.Cursor.fixed re_vault.Format.Cursor.pad_to re_vault.Format.Cursor.◌>>=◌
    re_vault.Format.Cursor.◌>>◌ re_vault.Format.Cursor.pure re_vault.Format.Cursor.guard
    re_vault.Format.Cursor.lift re_vault.Format.Cursor.bytes re_vault.Format.Cursor.uint
    re_vault.Format.Cursor.position re_vault.Format.Cursor.parse re_vault.Format.Cursor.checked
    re_vault.Format.Header.body re_vault.Format.Header.fields re_vault.Format.Header.structure
    re_vault.Format.Header.total_container_size re_vault.Format.Header.encode
    re_vault.Format.Header.decode re_vault.Format.RecipientSlot.is_occupied
    re_vault.Format.RecipientSlot.body re_vault.Format.RecipientSlot.fields
    re_vault.Format.RecipientSlot.crc re_vault.Format.RecipientSlot.encode
    re_vault.Format.RecipientSlot.decode re_vault.Format.RecipientSlot.empty_slot
    re_vault.Utf8.follow re_vault.Utf8.is_utf8 re_vault.Utf8.from_utf8_lossy
    re_vault.Crypto.Keys.default_params re_vault.Crypto.Keys.derive
    re_vault.Crypto.Keys.encrypt_random_nonce re_vault.Crypto.Keys.decrypt_random_nonce
    re_vault.Crypto.Keys.block_nonce re_vault.Crypto.Keys.encrypt_block
    re_vault.Crypto.Keys.decrypt_block re_vault.Crypto.Keys.derive_wrap_key
    re_vault.Crypto.Keys.wrap_dek_for_recipient re_vault.Crypto.Keys.unwrap_dek_for_recipient
    re_vault.Vault.Lifecycle.open_as_recipient re_vault.Vault.Lifecycle.read_header
    re_vault.Vault.Lifecycle.opened re_vault.Vault.Lifecycle.recipient_in re_vault.Vault.State.slice
    re_vault.Identity.peer_id re_vault.Allocator.from_bytes re_vault.Prelude.bytes_eq
    re_vault.Prelude.to_le_bytes re_vault.Prelude.from_le_bytes re_vault.Allocator.bitmap_len_bytes
opens = refl

run_all-open_as_recipient_example : run_all platform changes joined ≡ joined
run_all-open_as_recipient_example =
    run_all-open_as_recipient platform shared device 0 changes joined opens

abbrev unlocked : Vault
unlocked = record small_vault { file = shared }

unlocks : open_vault platform shared (112 ∷ []) device 0 ≡ ok unlocked
unfolding re_vault.Format.Cursor.fixed re_vault.Format.Cursor.pad_to re_vault.Format.Cursor.◌>>=◌
    re_vault.Format.Cursor.◌>>◌ re_vault.Format.Cursor.pure re_vault.Format.Cursor.guard
    re_vault.Format.Cursor.lift re_vault.Format.Cursor.bytes re_vault.Format.Cursor.uint
    re_vault.Format.Cursor.position re_vault.Format.Cursor.parse re_vault.Format.Cursor.checked
    re_vault.Format.Header.body re_vault.Format.Header.fields re_vault.Format.Header.structure
    re_vault.Format.Header.total_container_size re_vault.Format.Header.encode
    re_vault.Format.Header.decode re_vault.Format.RecipientSlot.is_occupied
    re_vault.Format.RecipientSlot.body re_vault.Format.RecipientSlot.fields
    re_vault.Format.RecipientSlot.crc re_vault.Format.RecipientSlot.encode
    re_vault.Format.RecipientSlot.decode re_vault.Format.RecipientSlot.empty_slot
    re_vault.Utf8.follow re_vault.Utf8.is_utf8 re_vault.Utf8.from_utf8_lossy
    re_vault.Crypto.Keys.default_params re_vault.Crypto.Keys.derive
    re_vault.Crypto.Keys.encrypt_random_nonce re_vault.Crypto.Keys.decrypt_random_nonce
    re_vault.Crypto.Keys.block_nonce re_vault.Crypto.Keys.encrypt_block
    re_vault.Crypto.Keys.decrypt_block re_vault.Crypto.Keys.derive_wrap_key
    re_vault.Crypto.Keys.wrap_dek_for_recipient re_vault.Crypto.Keys.unwrap_dek_for_recipient
    re_vault.Vault.Lifecycle.open_vault re_vault.Vault.Lifecycle.read_header
    re_vault.Vault.Lifecycle.opened re_vault.Vault.Lifecycle.recipient_in re_vault.Vault.State.slice
    re_vault.Identity.peer_id re_vault.Allocator.from_bytes re_vault.Prelude.bytes_eq
    re_vault.Prelude.to_le_bytes re_vault.Prelude.from_le_bytes re_vault.Allocator.bitmap_len_bytes
unlocks = refl

is_admin-open_vault_example :
    is_admin unlocked
    ≡ bytes_eq (peer_id toy device).signing_public unlocked.header.admin_signing_pubkey
is_admin-open_vault_example =
    is_admin-open_vault platform shared (112 ∷ []) device 0 unlocked unlocks

abbrev request : Request
request = record { name = 118 ∷ []; description = []; capacity_bytes = 8192 }

abbrev planned : Header
planned = layout request (zeros 16) (zeros 60) (peer_id toy device) 3 (zeros 32)

structure-layout_example : (structure planned ≡ ok planned) × IsLaidOut planned
structure-layout_example =
    structure-layout request (zeros 16) (zeros 60) (peer_id toy device) 3 (zeros 32) (omega arith)
      (omega arith)
