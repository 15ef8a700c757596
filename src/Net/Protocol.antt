-- ===== src/Net/Protocol.antt =====
-- net/protocol.rs: frames, and the messages that peers exchange. A stream is the bytes still to come.
-- A position in a buffer is the bytes that are left; lengths are `usize` of 64 bits.
pub mod RoundTrip
use re_vault.Prelude.{
  ℕ, zero, suc, ◌+◌, ◌*◌, List, [], ◌∷◌, ◌++◌, length, take, drop, ltb, ◌==◌, if◌then◌else◌,
  to_le_bytes, from_le_bytes,
}
use re_vault.Error.{
  io, invalid_input, invalid_data, unexpected_eof, corrupt_container, Result, ok, err,
}
use re_vault.Utf8.{from_utf8_lossy}
use re_vault.Vault.State.{Range}

-- 64 MiB
abbrev pub max_frame_len : ℕ
max_frame_len = 64 * 1024 * 1024

-- What is written to the stream.
unfoldable pub write_frame : List ℕ → Result (List ℕ)
write_frame content =
    if ltb max_frame_len (length content)
    then err (io invalid_input)
    else ok (to_le_bytes 4 (length content) ++ content)

-- `read_exact`: the bytes, and the stream after them.
unfoldable pub read_exact : ℕ → List ℕ → Result (List ℕ × List ℕ)
read_exact n stream =
    if ltb (length stream) n then err (io unexpected_eof) else ok (take n stream, drop n stream)

unfoldable pub read_frame : List ℕ → Result (List ℕ × List ℕ)
read_frame stream = elim (read_exact 4 stream) [
  | err e ↦ err e
  | ok (len_buf, rest) ↦
      let len = from_le_bytes len_buf in
      if ltb max_frame_len len then err (io invalid_data) else read_exact len rest
]

-- A `String` is its UTF-8 bytes.
pub data SyncMessage : Type 0 where
  chain_state : ℕ → List ℕ → SyncMessage
  patch : ℕ → List Range → SyncMessage
  full_sync : List ℕ → SyncMessage
  up_to_date : SyncMessage
  error : List ℕ → SyncMessage

-- `for (offset, data) in ranges`
unfoldable pub encode_ranges : List Range → List ℕ
encode_ranges [] = []
encode_ranges ((offset, bytes) ∷ ranges) =
    to_le_bytes 8 offset ++ (to_le_bytes 4 (length bytes) ++ (bytes ++ encode_ranges ranges))

unfoldable pub encode : SyncMessage → List ℕ
encode (chain_state next_seq last_hash) = 1 ∷ (to_le_bytes 8 next_seq ++ last_hash)
encode (patch seq ranges) =
    2 ∷ (to_le_bytes 8 seq ++ (to_le_bytes 4 (length ranges) ++ encode_ranges ranges))
encode (full_sync bytes) = 3 ∷ (to_le_bytes 8 (length bytes) ++ bytes)
encode up_to_date = 4 ∷ []
encode (error message) = 5 ∷ (to_le_bytes 4 (length message) ++ message)

abbrev pub truncated : {A : Type 0} → Result A
truncated = err (corrupt_container "truncated sync message")

-- `for _ in 0..count`
unfoldable pub decode_ranges : ℕ → List ℕ → Result (List Range)
decode_ranges zero buf = ok []
decode_ranges (suc count) buf =
    let offset = from_le_bytes (take 8 buf) in
    let len = from_le_bytes (take 4 (drop 8 buf)) in
    let rest = drop 12 buf in
    if ltb (length buf) 12
    then truncated
    else if ltb (length rest) len
    then truncated
    else elim (decode_ranges count (drop len rest)) [
      | ok ranges ↦ ok ((offset, take len rest) ∷ ranges)
      | err e ↦ err e
    ]

unfoldable pub decode_chain_state : List ℕ → Result SyncMessage
decode_chain_state buf =
    if ltb (length buf) 40
    then truncated
    else ok (chain_state (from_le_bytes (take 8 buf)) (take 32 (drop 8 buf)))

unfoldable pub decode_patch : List ℕ → Result SyncMessage
decode_patch buf =
    if ltb (length buf) 12
    then truncated
    else elim (decode_ranges (from_le_bytes (take 4 (drop 8 buf))) (drop 12 buf)) [
      | ok ranges ↦ ok (patch (from_le_bytes (take 8 buf)) ranges)
      | err e ↦ err e
    ]

-- The length in the first `w` bytes, and that many bytes after it.
unfoldable pub decode_sized : ℕ → List ℕ → Result (List ℕ)
decode_sized w buf =
    let len = from_le_bytes (take w buf) in
    if ltb (length buf) w
    then truncated
    else if ltb (length (drop w buf)) len
    then truncated
    else ok (take len (drop w buf))

unfoldable pub decode_tagged : ℕ → List ℕ → Result SyncMessage
decode_tagged tag buf =
    if tag == 1
    then decode_chain_state buf
    else if tag == 2
    then decode_patch buf
    else if tag == 3
    then elim (decode_sized 8 buf) [ ok bytes ↦ ok (full_sync bytes) | err e ↦ err e ]
    else if tag == 4
    then ok up_to_date
    else if tag == 5
    then elim (decode_sized 4 buf) [ ok bytes ↦ ok (error (from_utf8_lossy bytes)) | err e ↦ err e ]
    else err (corrupt_container "unknown sync message tag")

unfoldable pub decode : List ℕ → Result SyncMessage
decode [] = err (corrupt_container "empty sync message")
decode (tag ∷ buf) = decode_tagged tag buf
