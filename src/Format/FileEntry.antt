-- ===== src/Format/FileEntry.antt =====
-- core/format.rs: `FileEntry`, its slot on disk, and the checks of `decode`.
pub mod RoundTrip
use re_vault.Prelude.{
  ℕ, zero, suc, ◌+◌, ◌-◌, ◌^◌, ◌<◌, ◌≤◌, ◌≡◌, Bool, not, ◌&&◌, List, [], ◌∷◌, ◌++◌, length, take,
  replicate, ltb, leb, ◌==◌, if◌then◌else◌, arith, to_le_bytes, bit_and,
}
use re_vault.Error.{corrupt_container, checksum_mismatch, Result, err}
use re_vault.Utf8.{is_utf8}
use re_vault.Crypto.{Primitives}
use re_vault.Format.Cursor.{
  fixed, pad_to, Parser, ◌>>=◌, ◌>>◌, pure, guard, bytes, uint, parse, checked,
}

abbrev pub entry_size : ℕ
entry_size = 320

abbrev pub max_filename_len : ℕ
max_filename_len = 128

abbrev pub direct_blocks_count : ℕ
direct_blocks_count = 8

-- `1 << 0` and `1 << 1`
abbrev pub entry_flag_occupied : ℕ
entry_flag_occupied = 1

abbrev pub entry_flag_deleted : ℕ
entry_flag_deleted = 2

pub record FileEntry : Type 0 where
  pub id : ℕ
  pub name : List ℕ
  pub size : ℕ
  pub blocks_used : ℕ
  pub direct_blocks : List ℕ
  pub overflow_block : ℕ
  pub file_hash : List ℕ
  pub created_at : ℕ
  pub modified_at : ℕ
  pub flags : ℕ

unfoldable pub is_occupied : FileEntry → Bool
is_occupied e =
    not (bit_and e.flags entry_flag_occupied == 0) && (bit_and e.flags entry_flag_deleted == 0)

-- `for b in self.direct_blocks { w.u64(b) }`
unfoldable pub put_u64s : List ℕ → List ℕ
put_u64s [] = []
put_u64s (b ∷ bs) = to_le_bytes 8 b ++ put_u64s bs

-- `for slot in direct_blocks.iter_mut() { *slot = r.u64()? }`, for `n` slots
unfoldable pub u64s : ℕ → Parser (List ℕ)
unfolding ◌>>=◌ pure uint
u64s zero = pure []
u64s (suc n) = do b ← uint 8; bs ← u64s n; pure (b ∷ bs)

-- What `encode` writes before the checksum; `decode` reads it by `fields`.
unfoldable pub body : FileEntry → List ℕ
body e =
    to_le_bytes 16 e.id
    ++ (to_le_bytes 2 (length e.name)
        ++ (fixed e.name max_filename_len
            ++ (to_le_bytes 8 e.size
                ++ (to_le_bytes 4 e.blocks_used
                    ++ (put_u64s e.direct_blocks
                        ++ (to_le_bytes 8 e.overflow_block
                            ++ (fixed e.file_hash 32
                                ++ (to_le_bytes 8 e.created_at
                                    ++ (to_le_bytes 8 e.modified_at
                                        ++ to_le_bytes 4 e.flags)))))))))

unfoldable pub fields : Parser FileEntry
fields = do
  id ← uint 16
  name_len ← uint 2
  name_raw ← bytes max_filename_len
  guard (leb name_len max_filename_len) (corrupt_container "file name_len exceeds field width")
  guard (is_utf8 (take name_len name_raw)) (corrupt_container "file name is not valid UTF-8")
  size ← uint 8
  blocks_used ← uint 4
  direct_blocks ← u64s direct_blocks_count
  overflow_block ← uint 8
  file_hash ← bytes 32
  created_at ← uint 8
  modified_at ← uint 8
  flags ← uint 4
  pure (record {
    id = id;
    name = take name_len name_raw;
    size = size;
    blocks_used = blocks_used;
    direct_blocks = direct_blocks;
    overflow_block = overflow_block;
    file_hash = file_hash;
    created_at = created_at;
    modified_at = modified_at;
    flags = flags;
  })

module _ (c : Primitives) where
  -- `&crc[..4]` over all that was written
  unfoldable pub crc : List ℕ → List ℕ
  crc b = take 4 (c.sha256 b)

  unfoldable pub encode : FileEntry → List ℕ
  encode e = pad_to entry_size (body e ++ fixed (crc (body e)) 4)

  unfoldable pub decode : List ℕ → Result FileEntry
  decode buf =
      if ltb (length buf) entry_size
      then err (corrupt_container "file entry slot too short")
      else parse (checked 4 crc (checksum_mismatch "file entry") fields buf) (take entry_size buf)

  unfoldable pub empty_slot : List ℕ
  empty_slot = encode (record {
    id = 0;
    name = [];
    size = 0;
    blocks_used = 0;
    direct_blocks = replicate direct_blocks_count 0;
    overflow_block = 0;
    file_hash = replicate 32 0;
    created_at = 0;
    modified_at = 0;
    flags = 0;
  })
