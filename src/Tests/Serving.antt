-- ===== src/Tests/Serving.antt =====
-- The serving session at a concrete vault.
use re_vault.Prelude.{
  true, ℕ, ◌+◌, ◌<◌, ◌≡◌, refl, Option, some, none, List, [], ◌∷◌, ◌++◌, ascii, arith,
}
use re_vault.Format.FileEntry as FileEntry
use re_vault.Format.RecipientSlot as RecipientSlot
use re_vault.Vault.State.{Vault, Range, replay}
use re_vault.Net.Journal.{ranges_since}
use re_vault.Vault.Lifecycle.{chain_state}
use re_vault.Cli.Network.{Serving, Event, input, execute, serve_loop, step}
use re_vault.Cli.Network.Events.{ranges_since-serve_loop}
use re_vault.Error.{VaultError, Result, ok, err}
use re_vault.Identity.{peer_id}
use re_vault.Vault.State.{Outcome, done}
use re_vault.Vault.Mutation.{Mutation, add, run}
use re_vault.Vault.Lifecycle.{open_as_recipient}
use re_vault.Vault.ChainCount.Rules.{counted}
use re_vault.Vault.ChainCount.Mutation.{chain_state-run}
use re_vault.Net.Journal.{PatchJournal, new, record_patch}
use re_vault.Net.Protocol.{encode, decode, chain_state as chain_state_message}
use re_vault.Net.Handshake.{send, recv}
use re_vault.Net.Handshake.Channel.{InStep}
use re_vault.Net.Sync.{Answer, read_request, request_join, join, serve_stream}
use re_vault.Net.Sync.Join.{join-read_request}
use re_vault.Tui.Bridge.{respond}
use re_vault.Session.{with_clock}
use re_vault.Net.Journal.Live.{InUse}
use re_vault.Tui.Key.{KeyCode, enter, System}
use re_vault.Tui.Bridge.{NetworkSession}
use re_vault.Tui.Unlocked.{UnlockedState}
use re_vault.Tui.Unlocked.Selection.{press}
use re_vault.Tui.Unlocked.Serving.Press.{ranges_since-press}
use re_vault.Tui.Poll.{response_to}
use re_vault.Tui.Poll.Answers.{respond-serve_stream}
use re_vault.Tests.Peers.{near, far, in_step, change, serving, granted, listed}
use re_vault.Tests.Toy.{zeros, toy, toy-Documented, platform, device, small_vault}

-- A vault with a free file slot and a free recipient slot.
abbrev pub open_file : List ℕ
open_file = zeros 1025 ++ (FileEntry.empty_slot toy ++ (RecipientSlot.empty_slot toy ++ zeros 704))

abbrev pub hosting : Vault
hosting = record small_vault { file = open_file }

abbrev pub one_byte : List ℕ → Option (List ℕ)
one_byte path = some (1 ∷ [])

abbrev added : Serving
added = serve_loop platform (input one_byte (ascii "add f a") ∷ []) (execute platform [] hosting)

abbrev pub ranges_in : Option (List Range) → List Range
ranges_in none = []
ranges_in (some rs) = rs

abbrev sent : List Range
sent = ranges_in (ranges_since added.journal 1)

abbrev journal : PatchJournal
journal = record_patch (new 4) 1 change

abbrev session : NetworkSession
session = record { bridge = record { requests = []; events = [] }; journal = new 4 }

-- A served vault in the browser, a name typed in the form for a new file.
abbrev form_filled : UnlockedState
form_filled = record {
  vault = hosting;
  path = [];
  name = [];
  files = [];
  selected = 0;
  session = with_clock 0;
  message = none;
  add_form =
      some (record { source_path = 97 ∷ []; dest_name = 97 ∷ []; focus_dest = true; error = none });
  update_form = none;
  delete_confirm = none;
  network = some session;
  recipients = [];
  local_identity_bytes = [];
}

abbrev entered : List (System × KeyCode)
entered = (record { now = 1; read = λ path. some (1 ∷ []); dir = []; drawn = 0 }, enter) ∷ []

abbrev session_in : Option NetworkSession → NetworkSession
session_in none = session
session_in (some net) = net

abbrev left : NetworkSession
left = session_in (press platform entered form_filled).network

abbrev taken : List Range
taken = ranges_in (ranges_since left.journal 1)

-- What the two sessions leave in their journals.
kept :
    (ranges_since added.journal 1 ≡ some sent)
    × ((press platform entered form_filled).network ≡ some left)
    × (ranges_since left.journal 1 ≡ some taken)
unfolding re_vault.Prelude.to_le_bytes re_vault.Prelude.from_le_bytes re_vault.Prelude.bytes_eq
    re_vault.Utf8.follow re_vault.Utf8.is_utf8 re_vault.Utf8.from_utf8_lossy
    re_vault.Text.is_whitespace re_vault.Text.trim_start re_vault.Text.trim_end re_vault.Text.trim
    re_vault.Text.utf8 re_vault.Text.words_from re_vault.Text.split_whitespace
    re_vault.Format.Cursor.fixed re_vault.Format.Cursor.pad_to re_vault.Format.Cursor.bytes
    re_vault.Format.Cursor.uint re_vault.Format.Cursor.parse re_vault.Format.Cursor.checked
    re_vault.Format.FileEntry.is_occupied re_vault.Format.FileEntry.put_u64s
    re_vault.Format.FileEntry.u64s re_vault.Format.FileEntry.body re_vault.Format.FileEntry.fields
    re_vault.Format.FileEntry.crc re_vault.Format.FileEntry.encode re_vault.Format.FileEntry.decode
    re_vault.Format.FileEntry.empty_slot re_vault.Format.RecipientSlot.is_occupied
    re_vault.Format.RecipientSlot.body re_vault.Format.RecipientSlot.fields
    re_vault.Format.RecipientSlot.crc re_vault.Format.RecipientSlot.encode
    re_vault.Format.RecipientSlot.decode re_vault.Format.RecipientSlot.empty_slot
    re_vault.Format.ChainRecord.op_code re_vault.Format.ChainRecord.body
    re_vault.Format.ChainRecord.encode re_vault.Format.ChainRecord.compute_hash
    re_vault.Format.ChainRecord.new_signed re_vault.Format.Header.body re_vault.Format.Header.encode
    re_vault.Crypto.Keys.encrypt_random_nonce re_vault.Crypto.Keys.block_nonce
    re_vault.Crypto.Keys.encrypt_block re_vault.Identity.peer_eq re_vault.Identity.peer_id
    re_vault.Identity.sign re_vault.Allocator.bitmap_len_bytes re_vault.Allocator.new
    re_vault.Allocator.from_bytes re_vault.Allocator.as_bytes re_vault.Allocator.bit_is_clear
    re_vault.Allocator.is_free re_vault.Allocator.write_bit re_vault.Allocator.set
    re_vault.Allocator.free_count re_vault.Allocator.occupied_count re_vault.Allocator.allocate
    re_vault.Allocator.set_in_range re_vault.Allocator.free re_vault.Allocator.mark_occupied
    re_vault.Vault.State.◌>>=◌ re_vault.Vault.State.◌>>◌ re_vault.Vault.State.pure
    re_vault.Vault.State.raise re_vault.Vault.State.diverge re_vault.Vault.State.lift
    re_vault.Vault.State.or_raise re_vault.Vault.State.guard re_vault.Vault.State.gets
    re_vault.Vault.State.set_header re_vault.Vault.State.set_allocator re_vault.Vault.State.set_key
    re_vault.Vault.State.draw re_vault.Vault.State.for_each re_vault.Vault.State.overwrite
    re_vault.Vault.State.slice re_vault.Vault.State.read_at re_vault.Vault.State.write_at
    re_vault.Vault.State.take_change_log re_vault.Vault.State.export_full
    re_vault.Vault.State.replay re_vault.Vault.Storage.is_admin re_vault.Vault.Storage.require_admin
    re_vault.Vault.Storage.slot_offset re_vault.Vault.Storage.recipient_slot_offset
    re_vault.Vault.Storage.chain_slot_offset re_vault.Vault.Storage.write_header
    re_vault.Vault.Storage.write_bitmap re_vault.Vault.Storage.read_slot
    re_vault.Vault.Storage.write_slot re_vault.Vault.Storage.read_recipient_slot
    re_vault.Vault.Storage.write_recipient_slot re_vault.Vault.Storage.read_chain_slot_at_seq
    re_vault.Vault.Storage.append_signed_chain_record re_vault.Vault.Blocks.plain_chunk_len
    re_vault.Vault.Blocks.index_block_capacity re_vault.Vault.Blocks.block_offset
    re_vault.Vault.Blocks.block_frame re_vault.Vault.Blocks.index_payload
    re_vault.Vault.Blocks.block_ciphertext re_vault.Vault.Blocks.data_block_count
    re_vault.Vault.Blocks.write_physical_block re_vault.Vault.Blocks.write_index_block
    re_vault.Vault.Content.data_blocks_for re_vault.Vault.Content.index_blocks_for
    re_vault.Vault.Content.next_of re_vault.Vault.Content.write_data
    re_vault.Vault.Content.write_index re_vault.Vault.Content.store_new_content
    re_vault.Vault.Files.find_slot re_vault.Vault.Files.find_slot_by_name
    re_vault.Vault.Files.find_free_slot re_vault.Vault.Files.occupied_from
    re_vault.Vault.Files.all_occupied_entries re_vault.Vault.Files.list_files
    re_vault.Vault.Files.add_file re_vault.Vault.Lifecycle.chain_state re_vault.Net.Journal.new
    re_vault.Net.Journal.trim re_vault.Net.Journal.record_patch re_vault.Net.Journal.combined
    re_vault.Net.Journal.covered re_vault.Net.Journal.ranges_since
    re_vault.Cli.Network.record_change re_vault.Cli.Network.after_mutation
    re_vault.Cli.Network.mutate re_vault.Cli.Network.import_as re_vault.Cli.Network.import_command
    re_vault.Cli.Network.delete_command re_vault.Cli.Network.list_command
    re_vault.Cli.Network.command re_vault.Cli.Network.handle_command re_vault.Cli.Network.step
    re_vault.Cli.Network.serve_loop re_vault.Cli.Network.execute re_vault.Session.with_clock
    re_vault.Session.record_activity re_vault.Tui.Unlocked.Submit.record_patch_if_serving
    re_vault.Tui.Unlocked.Submit.refresh_files re_vault.Tui.Unlocked.Submit.settle
    re_vault.Tui.Unlocked.Submit.mutate re_vault.Tui.Unlocked.Submit.add_read
    re_vault.Tui.Unlocked.Submit.submit_add re_vault.Tui.Unlocked.Keys.add_form_key
    re_vault.Tui.Unlocked.Keys.dispatch re_vault.Tui.Unlocked.Keys.handle_key
    re_vault.Tui.Unlocked.Selection.press
kept = (refl, refl, refl)

ranges_since-serve_loop_example :
    replay (sent ++ added.vault.change_log) hosting.file ≡ added.vault.file
unfolding execute serve_loop chain_state
ranges_since-serve_loop_example =
    ranges_since-serve_loop platform hosting [] (input one_byte (ascii "add f a") ∷ []) sent
      (omega arith) refl kept.0

abbrev addition : Mutation
addition = add (97 ∷ []) (1 ∷ [])

chain_state-run_example :
    (chain_state (run platform addition hosting).1).0
    ≡ counted (run platform addition hosting).0 (chain_state hosting).0
chain_state-run_example = chain_state-run platform addition hosting

-- The admin's end of the channel is `near`, the peer's is `far`.
there : InStep far near
there = record { key = refl; counter = refl; parity = omega arith }

abbrev frame_in : Result (List ℕ) → List ℕ
frame_in (ok frame) = frame
frame_in (err e) = []

abbrev join_frame : List ℕ
join_frame = frame_in (request_join platform far).0

abbrev small_file : Vault
small_file = record small_vault { file = 5 ∷ 6 ∷ [] }

abbrev pub written_in : Outcome Answer → List ℕ
written_in (done answer) = answer.0
written_in o = []

abbrev full_frame : List ℕ
full_frame =
    written_in
      (read_request platform (recv toy near (join_frame ++ [])).1 (peer_id toy device) none
        (recv toy near (join_frame ++ [])).0 small_file).0

join_asks : (request_join platform far).0 ≡ ok join_frame
unfolding re_vault.Prelude.to_le_bytes re_vault.Net.Protocol.write_frame
    re_vault.Net.Protocol.encode re_vault.Net.Handshake.send re_vault.Net.Sync.request_join
join_asks = refl

join_answered :
    (read_request platform
      (recv toy near (join_frame ++ [])).1
      (peer_id toy device)
      none
      (recv toy near (join_frame ++ [])).0
      small_file).0
    ≡ done (full_frame, ok (peer_id toy device))
unfolding re_vault.Prelude.to_le_bytes re_vault.Prelude.from_le_bytes re_vault.Vault.State.for_each
    re_vault.Vault.State.export_full re_vault.Net.Protocol.write_frame
    re_vault.Net.Protocol.read_exact re_vault.Net.Protocol.read_frame re_vault.Net.Protocol.encode
    re_vault.Net.Protocol.decode_chain_state re_vault.Net.Protocol.decode_tagged
    re_vault.Net.Protocol.decode re_vault.Net.Handshake.send re_vault.Net.Handshake.received
    re_vault.Net.Handshake.recv re_vault.Net.Sync.journalled re_vault.Net.Sync.reply
    re_vault.Net.Sync.answer re_vault.Net.Sync.read_request re_vault.Net.Sync.request_join
join_answered = refl

join-read_request_example :
    join platform far device 0 (full_frame ++ [])
    ≡ (some (5 ∷ 6 ∷ []), open_as_recipient platform (5 ∷ 6 ∷ []) device 0)
join-read_request_example =
    join-read_request platform toy-Documented far near device (peer_id toy device) none 0 join_frame
      [] full_frame [] small_file there in_step (omega arith) join_asks join_answered

abbrev pub state_message : List ℕ
state_message = encode (chain_state_message 1 (zeros 32))

abbrev pub state_frame : List ℕ
state_frame = frame_in (send toy far state_message).0

abbrev patch_frame : List ℕ
patch_frame =
    written_in
      (serve_stream platform near (peer_id toy device) (some journal) state_frame serving).0

pub state_read : (recv toy near state_frame).0 ≡ ok (state_message, [])
unfolding re_vault.Prelude.to_le_bytes re_vault.Prelude.from_le_bytes
    re_vault.Net.Protocol.write_frame re_vault.Net.Protocol.read_exact
    re_vault.Net.Protocol.read_frame re_vault.Net.Protocol.encode re_vault.Net.Handshake.send
    re_vault.Net.Handshake.received re_vault.Net.Handshake.recv
state_read = refl

pub state_decoded : decode state_message ≡ ok (chain_state_message 1 (zeros 32))
unfolding re_vault.Prelude.to_le_bytes re_vault.Prelude.from_le_bytes re_vault.Net.Protocol.encode
    re_vault.Net.Protocol.decode_chain_state re_vault.Net.Protocol.decode_tagged
    re_vault.Net.Protocol.decode
state_decoded = refl

abbrev pub no_text : VaultError → List ℕ
no_text e = []

patch_served :
    (serve_stream platform near (peer_id toy device) (some journal) state_frame serving).0
    ≡ done (patch_frame, ok (peer_id toy device))
unfolding re_vault.Prelude.to_le_bytes re_vault.Prelude.from_le_bytes re_vault.Prelude.bytes_eq
    re_vault.Identity.peer_eq re_vault.Identity.peer_id re_vault.Format.Cursor.fixed
    re_vault.Format.Cursor.pad_to re_vault.Format.Cursor.uint re_vault.Format.Cursor.parse
    re_vault.Format.Cursor.checked re_vault.Format.RecipientSlot.is_occupied
    re_vault.Format.RecipientSlot.body re_vault.Format.RecipientSlot.fields
    re_vault.Format.RecipientSlot.crc re_vault.Format.RecipientSlot.encode
    re_vault.Format.RecipientSlot.decode re_vault.Vault.State.gets re_vault.Vault.State.for_each
    re_vault.Vault.State.read_at re_vault.Vault.Storage.recipient_slot_offset
    re_vault.Vault.Storage.read_recipient_slot re_vault.Vault.Peers.recipients_from
    re_vault.Vault.Peers.list_recipients re_vault.Net.Journal.new re_vault.Net.Journal.trim
    re_vault.Net.Journal.record_patch re_vault.Net.Journal.combined re_vault.Net.Journal.covered
    re_vault.Net.Journal.ranges_since re_vault.Net.Protocol.write_frame
    re_vault.Net.Protocol.read_exact re_vault.Net.Protocol.read_frame
    re_vault.Net.Protocol.encode_ranges re_vault.Net.Protocol.encode
    re_vault.Net.Protocol.decode_chain_state re_vault.Net.Protocol.decode_tagged
    re_vault.Net.Protocol.decode re_vault.Net.Handshake.send re_vault.Net.Handshake.received
    re_vault.Net.Handshake.recv re_vault.Net.Sync.is_granted re_vault.Net.Sync.journalled
    re_vault.Net.Sync.reply re_vault.Net.Sync.answer re_vault.Net.Sync.read_request
    re_vault.Net.Sync.serve_stream re_vault.Format.Header.body re_vault.Format.Header.encode
patch_served = refl

respond-serve_stream_example :
    (respond toy (recv toy near state_frame).1 (peer_id toy device) (
      some
        (response_to platform no_text journal
          (record { peer_id = peer_id toy device; next_seq = 1 })
          serving).0)).0
    ≡ patch_frame
respond-serve_stream_example =
    respond-serve_stream platform no_text near (peer_id toy device) journal state_frame
      state_message [] (zeros 32) patch_frame 1 granted (ok (peer_id toy device)) serving listed
      state_read state_decoded patch_served

in_use : InUse hosting (new 4)
unfolding new
in_use = record { increasing = omega arith; keeps = omega arith }

ranges_since-press_example :
    replay (taken ++ (press platform entered form_filled).vault.change_log) hosting.file
    ≡ (press platform entered form_filled).vault.file
ranges_since-press_example =
    ranges_since-press platform entered session left form_filled taken refl in_use refl
      (omega arith) kept.1 kept.2
