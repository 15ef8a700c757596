-- ===== src/Tests/Reconnect.antt =====
-- A peer that comes back to a serving session, at a concrete vault.
use re_vault.Prelude.{ℕ, ◌+◌, ◌<◌, ◌≡◌, refl, some, List, [], ◌∷◌, ◌++◌, ascii, arith}
use re_vault.Error.{ok}
use re_vault.Identity.{peer_id}
use re_vault.Vault.State.{Vault, Range, replay, done}
use re_vault.Vault.Lifecycle.{chain_state}
use re_vault.Net.Journal.{ranges_since}
use re_vault.Net.Protocol.{patch, encode}
use re_vault.Net.Protocol.RoundTrip.{Fits}
use re_vault.Net.Handshake.{recv}
use re_vault.Net.Handshake.Channel.{InStep}
use re_vault.Net.Sync.{serve_stream, apply_incoming}
use re_vault.Cli.Network.{Serving, Event, input, serve_loop, execute}
use re_vault.Cli.Network.Reconnect.{apply_incoming-serve_loop}
use re_vault.Tests.Peers.{near, far, serving}
use re_vault.Tests.Serving.{
  one_byte, ranges_in, written_in, state_frame, state_message, state_read, state_decoded,
}
use re_vault.Tests.Toy.{zeros, toy, toy-Documented, platform, device, small_vault}

abbrev first : Serving
first = execute platform [] serving

abbrev lines : List Event
lines = input one_byte (ascii "add f a") ∷ []

abbrev second : Serving
second = serve_loop platform lines first

abbrev due : List Range
due = ranges_in (ranges_since second.journal 1)

abbrev replica : Vault
replica = record small_vault { file = serving.file }

abbrev frame : List ℕ
frame =
    written_in
      (serve_stream platform near (peer_id toy device) (some second.journal) state_frame
        second.vault).0

answered :
    (ranges_since second.journal 1 ≡ some due)
    × Fits (patch 1 due)
    × ((serve_stream platform near
          (peer_id toy device)
          (some second.journal)
          state_frame
          second.vault).0
        ≡ done (frame, ok (peer_id toy device)))
unfolding re_vault.Prelude.to_le_bytes re_vault.Prelude.from_le_bytes re_vault.Prelude.bytes_eq
    re_vault.Utf8.follow re_vault.Utf8.is_utf8 re_vault.Utf8.from_utf8_lossy
    re_vault.Text.is_whitespace re_vault.Text.trim_start re_vault.Text.trim_end re_vault.Text.trim
    re_vault.Text.utf8 re_vault.Text.words_from re_vault.Text.split_whitespace
    re_vault.Format.Cursor.fixed re_vault.Format.Cursor.pad_to re_vault.Format.Cursor.bytes
    re_vault.Format.Cursor.uint re_vault.Format.Cursor.parse re_vault.Format.Cursor.checked
    re_vault.Format.FileEntry.is_occupied re_vault.Format.FileEntry.put_u64s
    re_vault.Format.FileEntry.u64s re_vault.Format.FileEntry.body re_vault.Format.FileEntry.fields
    re_vault.Format.FileEntry.crc re_vault.Format.FileEntry.encode re_vault.Format.FileEntry.decode
    re_vault.Format.FileEntry.empty_slot re_vault.Format.RecipientSlot.is_occupied
    re_vault.Format.RecipientSlot.body re_vault.Format.RecipientSlot.fields
    re_vault.Format.RecipientSlot.crc re_vault.Format.RecipientSlot.encode
    re_vault.Format.RecipientSlot.decode re_vault.Format.RecipientSlot.empty_slot
    re_vault.Format.ChainRecord.op_code re_vault.Format.ChainRecord.body
    re_vault.Format.ChainRecord.encode re_vault.Format.ChainRecord.compute_hash
    re_vault.Format.ChainRecord.new_signed re_vault.Format.Header.body re_vault.Format.Header.encode
    re_vault.Crypto.Keys.encrypt_random_nonce re_vault.Crypto.Keys.block_nonce
    re_vault.Crypto.Keys.encrypt_block re_vault.Identity.peer_eq re_vault.Identity.peer_id
    re_vault.Identity.sign re_vault.Allocator.bitmap_len_bytes re_vault.Allocator.new
    re_vault.Allocator.from_bytes re_vault.Allocator.as_bytes re_vault.Allocator.bit_is_clear
    re_vault.Allocator.is_free re_vault.Allocator.write_bit re_vault.Allocator.set
    re_vault.Allocator.free_count re_vault.Allocator.occupied_count re_vault.Allocator.allocate
    re_vault.Allocator.set_in_range re_vault.Allocator.free re_vault.Allocator.mark_occupied
    re_vault.Vault.State.◌>>=◌ re_vault.Vault.State.◌>>◌ re_vault.Vault.State.pure
    re_vault.Vault.State.raise re_vault.Vault.State.diverge re_vault.Vault.State.lift
    re_vault.Vault.State.or_raise re_vault.Vault.State.guard re_vault.Vault.State.gets
    re_vault.Vault.State.set_header re_vault.Vault.State.set_allocator re_vault.Vault.State.set_key
    re_vault.Vault.State.draw re_vault.Vault.State.for_each re_vault.Vault.State.overwrite
    re_vault.Vault.State.slice re_vault.Vault.State.read_at re_vault.Vault.State.write_at
    re_vault.Vault.State.take_change_log re_vault.Vault.State.export_full
    re_vault.Vault.State.replay re_vault.Vault.Storage.is_admin re_vault.Vault.Storage.require_admin
    re_vault.Vault.Storage.slot_offset re_vault.Vault.Storage.recipient_slot_offset
    re_vault.Vault.Storage.chain_slot_offset re_vault.Vault.Storage.write_header
    re_vault.Vault.Storage.write_bitmap re_vault.Vault.Storage.read_slot
    re_vault.Vault.Storage.write_slot re_vault.Vault.Storage.read_recipient_slot
    re_vault.Vault.Storage.write_recipient_slot re_vault.Vault.Storage.read_chain_slot_at_seq
    re_vault.Vault.Storage.append_signed_chain_record re_vault.Vault.Blocks.plain_chunk_len
    re_vault.Vault.Blocks.index_block_capacity re_vault.Vault.Blocks.block_offset
    re_vault.Vault.Blocks.block_frame re_vault.Vault.Blocks.index_payload
    re_vault.Vault.Blocks.block_ciphertext re_vault.Vault.Blocks.data_block_count
    re_vault.Vault.Blocks.write_physical_block re_vault.Vault.Blocks.write_index_block
    re_vault.Vault.Content.data_blocks_for re_vault.Vault.Content.index_blocks_for
    re_vault.Vault.Content.next_of re_vault.Vault.Content.write_data
    re_vault.Vault.Content.write_index re_vault.Vault.Content.store_new_content
    re_vault.Vault.Files.find_slot re_vault.Vault.Files.find_slot_by_name
    re_vault.Vault.Files.find_free_slot re_vault.Vault.Files.occupied_from
    re_vault.Vault.Files.all_occupied_entries re_vault.Vault.Files.list_files
    re_vault.Vault.Files.add_file re_vault.Vault.Lifecycle.chain_state re_vault.Net.Journal.new
    re_vault.Net.Journal.trim re_vault.Net.Journal.record_patch re_vault.Net.Journal.combined
    re_vault.Net.Journal.covered re_vault.Net.Journal.ranges_since
    re_vault.Cli.Network.record_change re_vault.Cli.Network.after_mutation
    re_vault.Cli.Network.mutate re_vault.Cli.Network.import_as re_vault.Cli.Network.import_command
    re_vault.Cli.Network.delete_command re_vault.Cli.Network.list_command
    re_vault.Cli.Network.command re_vault.Cli.Network.handle_command re_vault.Cli.Network.step
    re_vault.Cli.Network.serve_loop re_vault.Cli.Network.execute
    re_vault.Vault.Peers.recipients_from re_vault.Vault.Peers.list_recipients
    re_vault.Net.Protocol.write_frame re_vault.Net.Protocol.read_exact
    re_vault.Net.Protocol.read_frame re_vault.Net.Protocol.encode_ranges
    re_vault.Net.Protocol.encode re_vault.Net.Protocol.decode_chain_state
    re_vault.Net.Protocol.decode_tagged re_vault.Net.Protocol.decode re_vault.Net.Handshake.send
    re_vault.Net.Handshake.received re_vault.Net.Handshake.recv re_vault.Net.Sync.is_granted
    re_vault.Net.Sync.journalled re_vault.Net.Sync.reply re_vault.Net.Sync.answer
    re_vault.Net.Sync.read_request re_vault.Net.Sync.serve_stream re_vault.Format.Cursor.◌>>=◌
    re_vault.Format.Cursor.◌>>◌ re_vault.Format.Cursor.pure re_vault.Format.Cursor.guard
    re_vault.Format.Cursor.lift re_vault.Format.Cursor.position re_vault.Format.Header.fields
    re_vault.Format.Header.structure re_vault.Format.Header.total_container_size
    re_vault.Format.Header.decode
answered = (refl, omega arith, refl)

channel : InStep (recv toy near state_frame).1 far
unfolding re_vault.Prelude.to_le_bytes re_vault.Prelude.from_le_bytes
    re_vault.Net.Protocol.write_frame re_vault.Net.Protocol.read_exact
    re_vault.Net.Protocol.read_frame re_vault.Net.Protocol.encode re_vault.Net.Handshake.send
    re_vault.Net.Handshake.received re_vault.Net.Handshake.recv re_vault.Net.Handshake.recv_nonce
channel = record { key = refl; counter = refl; parity = omega arith }

apply_incoming-serve_loop_example :
    replay second.vault.change_log (apply_incoming platform far (frame ++ []) replica).1.file
    ≡ second.vault.file
unfolding execute serve_loop chain_state
apply_incoming-serve_loop_example =
    apply_incoming-serve_loop platform toy-Documented serving [] lines near far (peer_id toy device)
      state_frame state_message [] (zeros 32) frame [] due replica (omega arith) refl refl
      state_read state_decoded answered.0 answered.1 channel answered.2
