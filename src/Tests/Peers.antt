-- ===== src/Tests/Peers.antt =====
-- The network's parts at concrete values.
use re_vault.Prelude.{
  ℕ, ◌+◌, ◌-◌, ◌<◌, ◌≤◌, ◌≡◌, refl, true, false, none, some, List, [], ◌∷◌, ◌++◌, length, ◌==◌,
  if◌then◌else◌, from_le_bytes, to_le_bytes, ascii, bytes_eq, arith,
}
use re_vault.Error.{ok, err, access_not_granted}
use re_vault.Identity.{PeerId, peer_eq, peer_id}
use re_vault.Vault.State.{
  Vault, Range, done, overwrite, replay, ◌>>=◌, gets, pure, read_at, slice, lift, export_full,
}
use re_vault.Net.Protocol.{SyncMessage, patch, encode, decode, write_frame}
use re_vault.Net.Protocol.RoundTrip.{Fits, message-decode-encode}
use re_vault.Net.Journal.{PatchJournal, new, record_patch, trim, combined, covered, ranges_since}
use re_vault.Net.Journal.CatchUp.{Served, start, recorded, replay-ranges_since}
use re_vault.Net.Handshake.{
  SecureChannel, initiator, responder, hello_bytes, send, recv, send_nonce,
}
use re_vault.Net.Handshake.Agreement.{initiator-responder, initiator-refuses}
use re_vault.Net.Handshake.Channel.{InStep, recv-send, nonce_at-injective}
use re_vault.Vault.Peers.{list_recipients}
use re_vault.Tests.Vaults.{shared}
use re_vault.Vault.Peers.{RecipientInfo}
use re_vault.Tests.Toy.{zeros, toy, toy-Documented, platform, device, small_vault}

-- The file before the change is empty, and after it holds one byte.
abbrev versions : ℕ → List ℕ
versions k = if k == 2 then 9 ∷ [] else []

abbrev pub change : List Range
change = (0, 9 ∷ []) ∷ []

abbrev journal : PatchJournal
journal = record_patch (new 4) 1 change

journal-Served : Served versions 4 1 journal (1 + 1)
unfolding overwrite replay
journal-Served = recorded start change refl

given : ranges_since journal 1 ≡ some change
unfolding ranges_since covered combined record_patch new trim
given = refl

replay-ranges_since_example : replay change (versions 1) ≡ versions 2
replay-ranges_since_example =
    replay-ranges_since versions 1 change journal-Served (omega arith) given

abbrev message : SyncMessage
message = patch 1 change

message-Fits : Fits message
message-Fits = (omega arith, (omega arith, ((omega arith, omega arith), tt)))

message-decode-encode_example : decode (encode message) ≡ ok message
message-decode-encode_example = message-decode-encode message message-Fits

initiator-responder_example :
    (a : SecureChannel) × (b : SecureChannel) × (initiator toy []
        (peer_id toy device)
        (hello_bytes toy device [])
      ≡ ok (a, peer_id toy device))
    × (responder toy [] (hello_bytes toy device []) ≡ ok (b, peer_id toy device))
    × (a.key ≡ b.key)
    × (a.send_parity ≡ 0)
    × (b.send_parity ≡ 1)
initiator-responder_example = initiator-responder toy toy-Documented device device [] []

abbrev stranger : PeerId
stranger = record { signing_public = 1 ∷ zeros 31; encryption_public = zeros 32 }

initiator-refuses_example :
    initiator toy [] stranger (hello_bytes toy device []) ≡ err access_not_granted
unfolding peer_eq peer_id bytes_eq
initiator-refuses_example = initiator-refuses toy toy-Documented stranger device [] [] refl

abbrev third : ℕ
third = 3

abbrev odd : ℕ
odd = 1

nonce_at-injective_example : (third ≡ third) × (odd ≡ odd)
nonce_at-injective_example =
    nonce_at-injective third third odd odd (omega arith) (omega arith) (omega arith) (omega arith)
      refl

abbrev pub near : SecureChannel
near = record { key = zeros 32; send_counter = 2; recv_counter = 1; send_parity = 1 }

abbrev pub far : SecureChannel
far = record { key = zeros 32; send_counter = 1; recv_counter = 2; send_parity = 0 }

pub in_step : InStep near far
in_step = record { key = refl; counter = refl; parity = omega arith }

abbrev frame : List ℕ
frame = 17 ∷ 0 ∷ 0 ∷ 0 ∷ 6 ∷ zeros 16

recv-send_example :
    ((recv toy far (frame ++ [])).0 ≡ ok (6 ∷ [], []))
    × InStep (send toy near (6 ∷ [])).1 (recv toy far (frame ++ [])).1
unfolding send send_nonce write_frame to_le_bytes
recv-send_example = recv-send toy toy-Documented near far (6 ∷ []) frame [] in_step refl

abbrev pub serving : Vault
serving = record small_vault { file = shared }

abbrev pub granted : List RecipientInfo
granted = record { peer_id = peer_id toy device; granted_at = 3 } ∷ []

pub listed : list_recipients platform serving ≡ (done granted, serving)
unfolding re_vault.Format.Cursor.fixed re_vault.Format.Cursor.pad_to re_vault.Format.Cursor.◌>>=◌
    re_vault.Format.Cursor.◌>>◌ re_vault.Format.Cursor.pure re_vault.Format.Cursor.guard
    re_vault.Format.Cursor.lift re_vault.Format.Cursor.bytes re_vault.Format.Cursor.uint
    re_vault.Format.Cursor.position re_vault.Format.Cursor.parse re_vault.Format.Cursor.checked
    re_vault.Format.RecipientSlot.is_occupied re_vault.Format.RecipientSlot.body
    re_vault.Format.RecipientSlot.fields re_vault.Format.RecipientSlot.crc
    re_vault.Format.RecipientSlot.encode re_vault.Format.RecipientSlot.decode
    re_vault.Format.RecipientSlot.empty_slot re_vault.Prelude.bytes_eq re_vault.Prelude.to_le_bytes
    re_vault.Prelude.from_le_bytes re_vault.Vault.State.◌>>=◌ re_vault.Vault.State.gets
    re_vault.Vault.State.pure re_vault.Vault.State.read_at re_vault.Vault.State.slice
    re_vault.Vault.State.lift re_vault.Vault.Peers.list_recipients
    re_vault.Vault.Peers.recipients_from re_vault.Vault.Storage.read_recipient_slot
    re_vault.Vault.Storage.recipient_slot_offset re_vault.Format.Header.body
    re_vault.Format.Header.fields re_vault.Format.Header.structure
    re_vault.Format.Header.total_container_size re_vault.Format.Header.encode
    re_vault.Format.Header.decode re_vault.Utf8.follow re_vault.Utf8.is_utf8
    re_vault.Utf8.from_utf8_lossy peer_id
listed = refl
