-- ===== src/Format/Header/Layout.antt =====
-- core/format.rs: the structural checks of `Header::decode` against the order of the regions.
use re_vault.Prelude.{
  ℕ, zero, suc, List, [], ◌∷◌, All, IsU64, ◌+◌, ◌*◌, ◌^◌, ◌≤◌, ◌<◌, ◌≡◌, ◌↔◌, arith,
}
use re_vault.Error.{ok}
use re_vault.Format.Header.{Header, header_size, add_u64, structure}

-- No sum of an offset and a length reaches 2^64.
pub record NoOverflow (h : Header) : Type 0 where
  pub bitmap_end : h.bitmap_offset + h.bitmap_len < 2 ^ 64
  pub file_table_end : h.file_table_offset + h.file_table_len < 2 ^ 64
  pub recipient_end : h.recipient_offset + h.recipient_len < 2 ^ 64
  pub chain_end : h.chain_offset + h.chain_len < 2 ^ 64

-- The regions stand behind the header in order, none reaching into the next, and there are blocks.
pub record IsLaidOut (h : Header) : Type 0 where
  pub some_blocks : 0 < h.block_count
  pub sized_blocks : 0 < h.block_size
  pub data_fits : h.block_count * h.block_size < 2 ^ 64
  pub bitmap_after : header_size ≤ h.bitmap_offset
  pub file_table_after : h.bitmap_offset + h.bitmap_len ≤ h.file_table_offset
  pub recipient_after : h.file_table_offset + h.file_table_len ≤ h.recipient_offset
  pub chain_after : h.recipient_offset + h.recipient_len ≤ h.chain_offset
  pub data_after : h.chain_offset + h.chain_len ≤ h.data_offset

-- The checks, one by one.
pub structure-IsLaidOut : (h : Header) → NoOverflow h → (structure h ≡ ok h) ↔ IsLaidOut h
unfolding structure
structure-IsLaidOut h n = (λ e. ground arith, λ l. ground arith)

-- A region of the container, its offset and its length.
abbrev Region : Type 0
Region = ℕ × ℕ

-- The regions in the order of the file, the data region of all the blocks last.
abbrev pub regions : Header → List Region
regions h =
    (0, header_size)
    ∷ (h.bitmap_offset, h.bitmap_len)
    ∷ (h.file_table_offset, h.file_table_len)
    ∷ (h.recipient_offset, h.recipient_len)
    ∷ (h.chain_offset, h.chain_len)
    ∷ (h.data_offset, h.block_count * h.block_size)
    ∷ []

-- Each region ends before every region after it starts.
abbrev pub Apart : List Region → Type 0
Apart [] = Unit {0}
Apart ((offset, len) ∷ rs) = All (λ r. offset + len ≤ r.0) rs × Apart rs

IsLaidOut-Apart : (h : Header) → IsLaidOut h → Apart (regions h)
IsLaidOut-Apart h l =
    let b = l.bitmap_after in
    let f = l.file_table_after in
    let r = l.recipient_after in let c = l.chain_after in let d = l.data_after in ground arith

product_pos : (a b : ℕ) → 0 < a → 0 < b → 0 < a * b
product_pos zero b p q = absurd (omega (arith, p))
product_pos (suc a) zero p q = absurd (omega (arith, q))
product_pos (suc a) (suc b) p q = omega arith

factors_pos : (a b : ℕ) → 0 < a * b → (0 < a) × (0 < b)
factors_pos zero b p = absurd (omega (arith, p))
factors_pos (suc a) zero p = absurd (omega (arith, p))
factors_pos (suc a) (suc b) p = (omega arith, omega arith)

-- Where no sum overflows, and whatever capacity the header states, the structural checks accept it
-- exactly if all its regions, each against every later one, are in order without overlap and its data
-- region is not empty and below 2^64 bytes.
pub structure_iff :
    (h : Header) (capacity : ℕ)
    → NoOverflow h
    → (structure (record h { capacity_bytes = capacity })
        ≡ ok (record h { capacity_bytes = capacity }))
      ↔ (Apart (regions h)
          × (0 < h.block_count * h.block_size)
          × (h.block_count * h.block_size < 2 ^ 64))
structure_iff h capacity n = (
  λ e.
      let l = checks.0 e in
      (
        IsLaidOut-Apart _ l,
        product_pos h.block_count h.block_size l.some_blocks l.sized_blocks,
        l.data_fits,
      ),
  λ (apart, held, fits). checks.1 (record {
    some_blocks = (factors_pos h.block_count h.block_size held).0;
    sized_blocks = (factors_pos h.block_count h.block_size held).1;
    data_fits = fits;
    bitmap_after = omega (arith, apart);
    file_table_after = omega (arith, apart);
    recipient_after = omega (arith, apart);
    chain_after = omega (arith, apart);
    data_after = omega (arith, apart);
  }),
)
  where
    checks :
        (structure (record h { capacity_bytes = capacity })
          ≡ ok (record h { capacity_bytes = capacity }))
        ↔ IsLaidOut (record h { capacity_bytes = capacity })
    checks = structure-IsLaidOut _ (record {
      bitmap_end = n.bitmap_end;
      file_table_end = n.file_table_end;
      recipient_end = n.recipient_end;
      chain_end = n.chain_end;
    })

-- A header that passes the structural checks, its data offset below 2^64, passes them still when its
-- bitmap is made so long that it ends at exactly 2^64, past the start of the data region.
pub structure_wraps :
    (h : Header) (len : ℕ)
    → structure h ≡ ok h
    → IsU64 h.data_offset
    → h.bitmap_offset + len ≡ 2 ^ 64
    → (structure (record h { bitmap_len = len }) ≡ ok (record h { bitmap_len = len }))
      × (h.data_offset < h.bitmap_offset + len)
unfolding structure
structure_wraps h len accepted d w =
    let zero_end : add_u64 h.bitmap_offset len ≡ 0 = omega arith in
    (ground (arith, zero_end, accepted), omega arith)
