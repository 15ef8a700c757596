-- ===== src/Net/Protocol/RoundTrip.antt =====
-- net/protocol.rs: `decode` after `encode`, and `read_frame` after `write_frame`.
use re_vault.Prelude.{
  ℕ, ◌≤◌, ◌<◌, ◌^◌, ◌≡◌, refl, sym, ap, ◌∙◌, true, false, List, [], ◌∷◌, ◌++◌, append_assoc, length,
  take, drop, ltb, to_le_bytes, from_le_bytes, length-to_le_bytes, from_le_bytes-to_le_bytes,
  length-append, take-append, drop-append, take_all, All, IsU32, IsU64, arith,
}
use re_vault.Error.{ok}
use re_vault.Utf8.{is_utf8, from_utf8_lossy-eq}
use re_vault.Vault.State.{Range}
use re_vault.Net.Protocol.{
  max_frame_len, write_frame, read_exact, read_frame, SyncMessage, chain_state, patch, full_sync,
  up_to_date, error, encode_ranges, encode, decode_ranges, decode_chain_state, decode_patch,
  decode_sized, decode_tagged, decode,
}

-- The values that the Rust types hold, with each length in its field.
abbrev pub RangeFits : Range → Type 0
RangeFits r = IsU64 r.0 × IsU32 (length r.1)

abbrev pub Fits : SyncMessage → Type 0
Fits (chain_state next_seq last_hash) = IsU64 next_seq × (length last_hash ≡ 32)
Fits (patch seq ranges) = IsU64 seq × (IsU32 (length ranges) × All RangeFits ranges)
Fits (full_sync bytes) = IsU64 (length bytes)
Fits up_to_date = Unit
Fits (error message) = IsU32 (length message) × (is_utf8 message ≡ true)

read_exact-append : (n : ℕ) (xs ys : List ℕ) → n ≡ length xs → read_exact n (xs ++ ys) ≡ ok (xs, ys)
unfolding read_exact
read_exact-append n xs ys h =
    let enough : ltb (length (xs ++ ys)) n ≡ false = ground (arith, length-append xs ys, h) in
    rw (enough, take-append xs ys n h, drop-append xs ys n h) refl

-- What `write_frame` accepts, `read_frame` reads back whole, and leaves what follows in the stream.
pub read-write_frame :
    (content later frame : List ℕ)
    → write_frame content ≡ ok frame
    → read_frame (frame ++ later) ≡ ok (content, later)
unfolding write_frame read_frame
read-write_frame content later frame h =
    let small : length content ≤ max_frame_len = ground (arith, h) in
    let whole : to_le_bytes 4 (length content) ++ content ≡ frame = ground (arith, h) in
    let len = to_le_bytes 4 (length content) in
    let accepted : ltb max_frame_len (length content) ≡ false = ground (arith, small) in
    rw
      (
        ← whole,
        append_assoc len content later,
        read_frame,
        read_exact-append 4 len (content ++ later) (sym (length-to_le_bytes 4 (length content))),
        from_le_bytes-to_le_bytes 4 (length content) (omega (arith, small)),
        accepted,
      )
      (read_exact-append (length content) content later refl)

decode_sized-append :
    (w : ℕ) (xs : List ℕ)
    → length xs < 256 ^ w
    → decode_sized w (to_le_bytes w (length xs) ++ xs) ≡ ok xs
unfolding decode_sized
decode_sized-append w xs h =
    let here : w ≡ length (to_le_bytes w (length xs)) = sym (length-to_le_bytes w (length xs)) in
    let enough : ltb (length (to_le_bytes w (length xs) ++ xs)) w ≡ false =
      ground (arith, length-append (to_le_bytes w (length xs)) xs, here) in
    let exact : ltb (length xs) (length xs) ≡ false = ground arith in
    rw
      (
        take-append (to_le_bytes w (length xs)) xs w here,
        drop-append (to_le_bytes w (length xs)) xs w here,
        from_le_bytes-to_le_bytes w (length xs) h,
        enough,
        exact,
        take_all xs (length xs) (omega arith),
      )
      refl

-- Two fields of 8 and 4 bytes, and what follows them.
drop_fields : (a n : ℕ) (xs : List ℕ) → drop 12 (to_le_bytes 8 a ++ (to_le_bytes 4 n ++ xs)) ≡ xs
drop_fields a n xs =
    ap (drop 12) (sym (append_assoc (to_le_bytes 8 a) (to_le_bytes 4 n) xs))
    ∙ drop-append (to_le_bytes 8 a ++ to_le_bytes 4 n) xs 12 (
        omega (
          arith,
          length-append (to_le_bytes 8 a) (to_le_bytes 4 n),
          length-to_le_bytes 8 a,
          length-to_le_bytes 4 n,
        ))

take_first : (a : ℕ) (xs : List ℕ) → IsU64 a → from_le_bytes (take 8 (to_le_bytes 8 a ++ xs)) ≡ a
take_first a xs h =
    rw (take-append (to_le_bytes 8 a) xs 8 (sym (length-to_le_bytes 8 a)))
      (from_le_bytes-to_le_bytes 8 a h)

take_second :
    (a n : ℕ) (xs : List ℕ)
    → IsU32 n
    → from_le_bytes (take 4 (drop 8 (to_le_bytes 8 a ++ (to_le_bytes 4 n ++ xs)))) ≡ n
take_second a n xs h =
    rw
      (
        drop-append (to_le_bytes 8 a) (to_le_bytes 4 n ++ xs) 8 (sym (length-to_le_bytes 8 a)),
        take-append (to_le_bytes 4 n) xs 4 (sym (length-to_le_bytes 4 n)),
      )
      (from_le_bytes-to_le_bytes 4 n h)

fields_held :
    (a n : ℕ) (xs : List ℕ) → ltb (length (to_le_bytes 8 a ++ (to_le_bytes 4 n ++ xs))) 12 ≡ false
fields_held a n xs = ground (
  arith,
  length-append (to_le_bytes 8 a) (to_le_bytes 4 n ++ xs),
  length-append (to_le_bytes 4 n) xs,
  length-to_le_bytes 8 a,
  length-to_le_bytes 4 n,
)

decode_ranges-encode_ranges :
    (ranges : List Range)
    → All RangeFits ranges
    → decode_ranges (length ranges) (encode_ranges ranges) ≡ ok ranges
unfolding decode_ranges encode_ranges
decode_ranges-encode_ranges [] h = refl
decode_ranges-encode_ranges ((offset, bytes) ∷ ranges) h =
    let rest = bytes ++ encode_ranges ranges in
    let held : ltb (length rest) (length bytes) ≡ false =
      ground (arith, length-append bytes (encode_ranges ranges)) in
    rw
      (
        fields_held offset (length bytes) rest,
        take_second offset (length bytes) rest h.0.1,
        drop_fields offset (length bytes) rest,
        held,
        drop-append bytes (encode_ranges ranges) (length bytes) refl,
        decode_ranges-encode_ranges ranges h.1,
        take_first offset (to_le_bytes 4 (length bytes) ++ rest) h.0.0,
        take_second offset (length bytes) rest h.0.1,
        drop_fields offset (length bytes) rest,
        take-append bytes (encode_ranges ranges) (length bytes) refl,
      )
      refl

-- A message whose values fit their fields is decoded from its encoding.
pub message-decode-encode : (m : SyncMessage) → Fits m → decode (encode m) ≡ ok m
unfolding decode encode decode_tagged decode_chain_state decode_patch
message-decode-encode (chain_state next_seq last_hash) h =
    let first = to_le_bytes 8 next_seq in
    let held : ltb (length (first ++ last_hash)) 40 ≡ false =
      ground (arith, length-append first last_hash, length-to_le_bytes 8 next_seq, h.1) in
    rw
      (
        held,
        take_first next_seq last_hash h.0,
        drop-append first last_hash 8 (sym (length-to_le_bytes 8 next_seq)),
        take_all last_hash 32 (omega (arith, h.1)),
      )
      refl
message-decode-encode (patch seq ranges) h =
    let rest = encode_ranges ranges in
    rw
      (
        fields_held seq (length ranges) rest,
        take_second seq (length ranges) rest h.1.0,
        drop_fields seq (length ranges) rest,
        decode_ranges-encode_ranges ranges h.1.1,
        take_first seq (to_le_bytes 4 (length ranges) ++ rest) h.0,
      )
      refl
message-decode-encode (full_sync bytes) h = rw (decode_sized-append 8 bytes h) refl
message-decode-encode up_to_date h = refl
message-decode-encode (error message) h =
    rw (decode_sized-append 4 message h.0, from_utf8_lossy-eq message h.1) refl
