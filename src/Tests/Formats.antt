-- ===== src/Tests/Formats.antt =====
-- The byte formats at concrete records.
use re_vault.Prelude.{
  ◌<◌, ◌+◌, ◌*◌, ◌^◌, ℕ, ◌≡◌, ◌↔◌, refl, List, [], ◌∷◌, ◌++◌, length, arith, IsU64,
}
use re_vault.Error.{ok}
use re_vault.Utf8.{is_utf8, follow}
use re_vault.Format.Header as Header
use re_vault.Format.Header.{header_size, structure, add_u64}
use re_vault.Format.Header.RoundTrip as HeaderTrip
use re_vault.Format.Header.RoundTrip.{header-decode-encode}
use re_vault.Format.Header.Layout.{structure_iff, structure_wraps, Apart, regions}
use re_vault.Format.FileEntry as FileEntry
use re_vault.Format.FileEntry.{entry_size}
use re_vault.Format.FileEntry.RoundTrip as EntryTrip
use re_vault.Format.FileEntry.RoundTrip.{decode-encode}
use re_vault.Format.RecipientSlot as RecipientSlot
use re_vault.Format.RecipientSlot.{recipient_slot_size}
use re_vault.Format.RecipientSlot.RoundTrip.{slot-decode-encode}
use re_vault.Tests.Toy.{zeros, toy, toy-Documented, small_header}

-- Wherever its chain stands.
pub small_header-IsStorable :
    (seq : ℕ) (hash : List ℕ)
    → IsU64 seq
    → length hash ≡ 32
    → HeaderTrip.IsStorable (record small_header { chain_next_seq = seq; chain_last_hash = hash })
unfolding is_utf8 follow
small_header-IsStorable seq hash hs hh = record {
  version_two = refl;
  flags_u32 = omega arith;
  block_size_u32 = omega arith;
  block_count_u64 = omega arith;
  capacity_u64 = omega arith;
  name_fits = omega arith;
  name_utf8 = refl;
  description_fits = omega arith;
  description_utf8 = refl;
  created_i64 = omega arith;
  salt_len = refl;
  m_cost_u32 = omega arith;
  t_cost_u32 = omega arith;
  p_cost_u32 = omega arith;
  key_slot_fits = omega arith;
  signing_len = refl;
  encryption_len = refl;
  bitmap_offset_u64 = omega arith;
  bitmap_len_u64 = omega arith;
  file_table_offset_u64 = omega arith;
  file_table_len_u64 = omega arith;
  max_files_u32 = omega arith;
  entry_size_u32 = omega arith;
  recipient_offset_u64 = omega arith;
  recipient_len_u64 = omega arith;
  max_recipients_u32 = omega arith;
  recipient_slot_size_u32 = omega arith;
  chain_offset_u64 = omega arith;
  chain_len_u64 = omega arith;
  max_chain_records_u32 = omega arith;
  chain_record_size_u32 = omega arith;
  chain_next_seq_u64 = hs;
  last_hash_len = hh;
  data_offset_u64 = omega arith;
}

header-decode-encode_example :
    (length (Header.encode toy small_header) ≡ header_size)
    × (Header.decode toy (Header.encode toy small_header ++ (7 ∷ [])) ≡ structure small_header)
header-decode-encode_example =
    header-decode-encode toy toy-Documented small_header (7 ∷ [])
      (small_header-IsStorable 1 (zeros 32) (omega arith) refl)

-- A header is accepted whatever capacity it states, here none at all.
structure_iff_example :
    (structure (record small_header { capacity_bytes = 0 })
      ≡ ok (record small_header { capacity_bytes = 0 }))
    ↔ (Apart (regions small_header)
        × (0 < small_header.block_count * small_header.block_size)
        × (small_header.block_count * small_header.block_size < 2 ^ 64))
structure_iff_example = structure_iff small_header 0 (record {
  bitmap_end = omega arith;
  file_table_end = omega arith;
  recipient_end = omega arith;
  chain_end = omega arith;
})

accepted : structure small_header ≡ ok small_header
unfolding structure
accepted = refl

-- With a bitmap that runs to the end of the address space.
structure_wraps_example :
    (structure (record small_header { bitmap_len = 18446744073709550592 })
      ≡ ok (record small_header { bitmap_len = 18446744073709550592 }))
    × (small_header.data_offset < small_header.bitmap_offset + 18446744073709550592)
structure_wraps_example =
    structure_wraps small_header 18446744073709550592 accepted (omega arith) refl

abbrev entry : FileEntry.FileEntry
entry = record {
  id = 5;
  name = 97 ∷ 46 ∷ 98 ∷ [];
  size = 100;
  blocks_used = 3;
  direct_blocks = 1 ∷ 2 ∷ 3 ∷ zeros 5;
  overflow_block = 0;
  file_hash = zeros 32;
  created_at = 10;
  modified_at = 11;
  flags = 1;
}

entry-IsStorable : EntryTrip.IsStorable entry
unfolding is_utf8 follow
entry-IsStorable = record {
  id_u128 = omega arith;
  name_fits = omega arith;
  name_utf8 = refl;
  size_u64 = omega arith;
  blocks_used_u32 = omega arith;
  direct_len = refl;
  direct_u64 = (
    omega arith,
    (
      omega arith,
      (omega arith, (omega arith, (omega arith, (omega arith, (omega arith, (omega arith, tt)))))),
    ),
  );
  overflow_u64 = omega arith;
  hash_len = refl;
  created_i64 = omega arith;
  modified_i64 = omega arith;
  flags_u32 = omega arith;
}

decode-encode_example :
    (length (FileEntry.encode toy entry) ≡ entry_size)
    × (FileEntry.decode toy (FileEntry.encode toy entry ++ []) ≡ ok entry)
decode-encode_example = decode-encode toy toy-Documented entry [] entry-IsStorable

abbrev slot : RecipientSlot.RecipientSlot
slot = record {
  signing_pubkey = zeros 32;
  encryption_pubkey = zeros 32;
  wrapped_dek = zeros 92;
  granted_at = 3;
  flags = 1;
}

slot-decode-encode_example :
    (length (RecipientSlot.encode toy slot) ≡ recipient_slot_size)
    × (RecipientSlot.decode toy (RecipientSlot.encode toy slot ++ []) ≡ ok slot)
slot-decode-encode_example = slot-decode-encode toy toy-Documented slot [] (record {
  signing_len = refl;
  encryption_len = refl;
  wrapped_fits = omega arith;
  granted_i64 = omega arith;
  flags_u32 = omega arith;
})
