-- ===== src/Format/Header.antt =====
-- core/format.rs: `Header`, the fixed 1024 bytes at the start of a container. Offsets are `u64`, and
-- the sums of the structural checks wrap at 2^64, as in a release build.
pub mod RoundTrip
pub mod Layout
use re_vault.Prelude.{
  ℕ, ◌+◌, ◌-◌, ◌*◌, ◌%◌, ◌^◌, not, ◌||◌, List, [], ◌∷◌, ◌++◌, length, take, ltb, leb, ◌==◌,
  if◌then◌else◌, to_le_bytes, bytes_eq,
}
use re_vault.Error.{
  corrupt_container, checksum_mismatch, not_a_rvlt_file, unsupported_version, Result, ok, err,
}
use re_vault.Utf8.{is_utf8}
use re_vault.Crypto.{Primitives}
use re_vault.Format.Cursor.{
  fixed, pad_to, Parser, ◌>>=◌, ◌>>◌, pure, guard, bytes, uint, parse, checked,
}

-- `b"RVLT0001"`
abbrev pub magic : List ℕ
magic = b'R' ∷ b'V' ∷ b'L' ∷ b'T' ∷ b'0' ∷ b'0' ∷ b'0' ∷ b'1' ∷ []

abbrev pub format_version : ℕ
format_version = 2

abbrev pub min_supported_version : ℕ
min_supported_version = 2

abbrev pub max_supported_version : ℕ
max_supported_version = 2

abbrev pub header_size : ℕ
header_size = 1024

abbrev pub default_block_size : ℕ
default_block_size = 4096

abbrev pub max_name_len : ℕ
max_name_len = 128

abbrev pub max_desc_len : ℕ
max_desc_len = 256

abbrev pub admin_key_slot_len : ℕ
admin_key_slot_len = 64

abbrev pub max_recipients_count : ℕ
max_recipients_count = 16

pub record Header : Type 0 where
  pub version : ℕ
  pub flags : ℕ
  pub block_size : ℕ
  pub block_count : ℕ
  pub capacity_bytes : ℕ
  pub name : List ℕ
  pub description : List ℕ
  pub created_at : ℕ
  pub salt : List ℕ
  pub argon2_m_cost_kib : ℕ
  pub argon2_t_cost : ℕ
  pub argon2_p_cost : ℕ
  pub admin_key_slot : List ℕ
  pub admin_signing_pubkey : List ℕ
  pub admin_encryption_pubkey : List ℕ
  pub bitmap_offset : ℕ
  pub bitmap_len : ℕ
  pub file_table_offset : ℕ
  pub file_table_len : ℕ
  pub max_files : ℕ
  pub entry_size : ℕ
  pub recipient_offset : ℕ
  pub recipient_len : ℕ
  pub max_recipients : ℕ
  pub recipient_slot_size : ℕ
  pub chain_offset : ℕ
  pub chain_len : ℕ
  pub max_chain_records : ℕ
  pub chain_record_size : ℕ
  pub chain_next_seq : ℕ
  pub chain_last_hash : List ℕ
  pub data_offset : ℕ

-- What `encode` writes before the checksum; `decode` reads it by `fields`.
unfoldable pub body : Header → List ℕ
body h =
    magic
    ++ (to_le_bytes 4 h.version
        ++ (to_le_bytes 4 h.flags
            ++ (to_le_bytes 4 h.block_size
                ++ (to_le_bytes 8 h.block_count
                    ++ (to_le_bytes 8 h.capacity_bytes
                        ++ (to_le_bytes 2 (length h.name)
                            ++ (fixed h.name max_name_len
                                ++ (to_le_bytes 2 (length h.description)
                                    ++ (fixed h.description max_desc_len
                                        ++ (to_le_bytes 8 h.created_at
                                            ++ (fixed h.salt 16
                                                ++ (to_le_bytes 4 h.argon2_m_cost_kib
                                                    ++ (to_le_bytes 4 h.argon2_t_cost
                                                        ++ (to_le_bytes 4 h.argon2_p_cost
                                                            ++ (to_le_bytes 2
                                                            (length h.admin_key_slot)
                                                            ++ (fixed h.admin_key_slot
                                                            admin_key_slot_len
                                                            ++ (fixed h.admin_signing_pubkey 32
                                                            ++ (fixed h.admin_encryption_pubkey 32
                                                            ++ (to_le_bytes 8 h.bitmap_offset
                                                            ++ (to_le_bytes 8 h.bitmap_len
                                                            ++ (to_le_bytes 8 h.file_table_offset
                                                            ++ (to_le_bytes 8 h.file_table_len
                                                            ++ (to_le_bytes 4 h.max_files
                                                            ++ (to_le_bytes 4 h.entry_size
                                                            ++ (to_le_bytes 8 h.recipient_offset
                                                            ++ (to_le_bytes 8 h.recipient_len
                                                            ++ (to_le_bytes 4 h.max_recipients
                                                            ++ (to_le_bytes 4 h.recipient_slot_size
                                                            ++ (to_le_bytes 8 h.chain_offset
                                                            ++ (to_le_bytes 8 h.chain_len
                                                            ++ (to_le_bytes 4 h.max_chain_records
                                                            ++ (to_le_bytes 4 h.chain_record_size
                                                            ++ (to_le_bytes 8 h.chain_next_seq
                                                            ++ (fixed h.chain_last_hash 32
                                                            ++ to_le_bytes 8
                                                            h.data_offset))))))))))))))))))))))))))))))))))

unfoldable pub fields : Parser Header
fields = do
  magic_raw ← bytes 8
  guard (bytes_eq magic_raw magic) not_a_rvlt_file
  version ← uint 4
  guard (not (ltb version min_supported_version || ltb max_supported_version version))
      (unsupported_version version min_supported_version max_supported_version)
  flags ← uint 4
  block_size ← uint 4
  block_count ← uint 8
  capacity_bytes ← uint 8
  name_len ← uint 2
  name_raw ← bytes max_name_len
  guard (leb name_len max_name_len) (corrupt_container "name_len exceeds field width")
  guard (is_utf8 (take name_len name_raw)) (corrupt_container "vault name is not valid UTF-8")
  desc_len ← uint 2
  desc_raw ← bytes max_desc_len
  guard (leb desc_len max_desc_len) (corrupt_container "desc_len exceeds field width")
  guard (is_utf8 (take desc_len desc_raw))
      (corrupt_container "vault description is not valid UTF-8")
  created_at ← uint 8
  salt ← bytes 16
  argon2_m_cost_kib ← uint 4
  argon2_t_cost ← uint 4
  argon2_p_cost ← uint 4
  admin_key_slot_len_raw ← uint 2
  admin_key_slot_raw ← bytes admin_key_slot_len
  guard (leb admin_key_slot_len_raw admin_key_slot_len)
      (corrupt_container "admin_key_slot_len exceeds field width")
  admin_signing_pubkey ← bytes 32
  admin_encryption_pubkey ← bytes 32
  bitmap_offset ← uint 8
  bitmap_len ← uint 8
  file_table_offset ← uint 8
  file_table_len ← uint 8
  max_files ← uint 4
  entry_size ← uint 4
  recipient_offset ← uint 8
  recipient_len ← uint 8
  max_recipients ← uint 4
  recipient_slot_size ← uint 4
  chain_offset ← uint 8
  chain_len ← uint 8
  max_chain_records ← uint 4
  chain_record_size ← uint 4
  chain_next_seq ← uint 8
  chain_last_hash ← bytes 32
  data_offset ← uint 8
  pure (record {
    version = version;
    flags = flags;
    block_size = block_size;
    block_count = block_count;
    capacity_bytes = capacity_bytes;
    name = take name_len name_raw;
    description = take desc_len desc_raw;
    created_at = created_at;
    salt = salt;
    argon2_m_cost_kib = argon2_m_cost_kib;
    argon2_t_cost = argon2_t_cost;
    argon2_p_cost = argon2_p_cost;
    admin_key_slot = take admin_key_slot_len_raw admin_key_slot_raw;
    admin_signing_pubkey = admin_signing_pubkey;
    admin_encryption_pubkey = admin_encryption_pubkey;
    bitmap_offset = bitmap_offset;
    bitmap_len = bitmap_len;
    file_table_offset = file_table_offset;
    file_table_len = file_table_len;
    max_files = max_files;
    entry_size = entry_size;
    recipient_offset = recipient_offset;
    recipient_len = recipient_len;
    max_recipients = max_recipients;
    recipient_slot_size = recipient_slot_size;
    chain_offset = chain_offset;
    chain_len = chain_len;
    max_chain_records = max_chain_records;
    chain_record_size = chain_record_size;
    chain_next_seq = chain_next_seq;
    chain_last_hash = chain_last_hash;
    data_offset = data_offset;
  })

-- `a + b` on `u64` in a release build
abbrev pub add_u64 : ℕ → ℕ → ℕ
add_u64 a b = (a + b) % 2 ^ 64

-- The structural checks of `decode`, in order; the product is taken in `u128`.
unfoldable pub structure : Header → Result Header
structure h =
    if h.block_size == 0 || h.block_count == 0
    then err (corrupt_container "block_size/block_count is zero")
    else if ltb (2 ^ 64 - 1) (h.block_count * h.block_size)
    then err (corrupt_container "block_count * block_size overflows u64")
    else if ltb h.bitmap_offset header_size
    then err (corrupt_container "bitmap_offset overlaps header")
    else if ltb h.file_table_offset (add_u64 h.bitmap_offset h.bitmap_len)
    then err (corrupt_container "file_table_offset overlaps bitmap")
    else if ltb h.recipient_offset (add_u64 h.file_table_offset h.file_table_len)
    then err (corrupt_container "recipient_offset overlaps file table")
    else if ltb h.chain_offset (add_u64 h.recipient_offset h.recipient_len)
    then err (corrupt_container "chain_offset overlaps recipient keyring")
    else if ltb h.data_offset (add_u64 h.chain_offset h.chain_len)
    then err (corrupt_container "data_offset overlaps chain region")
    else ok h

unfoldable pub total_container_size : Header → ℕ
total_container_size h = add_u64 h.data_offset (h.block_count * h.block_size % 2 ^ 64)

module _ (c : Primitives) where
  unfoldable pub encode : Header → List ℕ
  encode h = pad_to header_size (body h ++ fixed (c.sha256 (body h)) 32)

  unfoldable pub decode : List ℕ → Result Header
  decode buf =
      if ltb (length buf) header_size
      then err (corrupt_container "file too short to contain a header")
      else elim (parse (checked 32 c.sha256 (checksum_mismatch "header") fields buf)
          (take header_size buf)) [ ok h ↦ structure h | err e ↦ err e ]
