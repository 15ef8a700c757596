-- ===== src/Vault/Blocks/RoundTrip.antt =====
-- core/vault.rs: `read_physical_block` after `write_physical_block`, of the same block and of others.
use re_vault.Prelude.{
  ℕ, ◌+◌, ◌-◌, ◌*◌, ◌≤◌, ◌<◌, ◌^◌, ◌≡◌, ◌≢◌, ◌⊎◌, inl, inr, refl, sym, ap, ◌∙◌, false, List, ◌++◌,
  length, replicate, length-append, length-replicate, take-append, drop-append, arith, ltb,
  to_le_bytes, length-to_le_bytes, from_le_bytes-to_le_bytes,
}
use native.Mathlib.Nat.{add-mul, mul-le-mul_right}
use re_vault.Error.{ok}
use re_vault.Crypto.{Documented}
use re_vault.Crypto.Keys.{encrypt_block}
use re_vault.Crypto.Envelope.{decrypt_block-encrypt_block}
use re_vault.Vault.State.{
  Platform, Vault, done, ◌>>=◌, ◌>>◌, lift, guard, gets, overwrite, slice, read_at, write_at,
}
use re_vault.Vault.Region.{slice-overwrite_same, slice-overwrite_before, slice-overwrite_after}
use re_vault.Vault.Blocks.{
  block_frame, block_ciphertext, block_offset, write_physical_block, read_physical_block,
}

length-block_frame :
    (block_size : ℕ) (plaintext ciphertext : List ℕ)
    → 4 + length ciphertext ≤ block_size
    → length (block_frame block_size plaintext ciphertext) ≡ block_size
unfolding block_frame
length-block_frame size p c fits =
    let tail = replicate {A = ℕ} (size - (4 + length c)) 0 in
    omega (
      arith,
      length-append (to_le_bytes 4 (length p)) (c ++ tail),
      length-append c tail,
      length-to_le_bytes 4 (length p),
      length-replicate {A = ℕ} (size - (4 + length c)) 0,
      fits,
    )

block_ciphertext-block_frame :
    (block_size : ℕ) (plaintext ciphertext : List ℕ)
    → length ciphertext ≡ length plaintext + 16
    → 4 + length ciphertext ≤ block_size
    → length plaintext < 2 ^ 32
    → block_ciphertext block_size (block_frame block_size plaintext ciphertext) ≡ ok ciphertext
unfolding block_ciphertext block_frame
block_ciphertext-block_frame size p c tag fits small =
    let tail = replicate {A = ℕ} (size - (4 + length c)) 0 in
    let four : 4 ≡ length (to_le_bytes 4 (length p)) = sym (length-to_le_bytes 4 (length p)) in
    let enough : ltb (length (c ++ tail)) (length p + 16) ≡ false =
      ground (arith, length-append c tail, tag) in
    let inside : ltb size (4 + length p) ≡ false = ground (arith, tag, fits) in
    rw
      (
        take-append (to_le_bytes 4 (length p)) (c ++ tail) 4 four,
        drop-append (to_le_bytes 4 (length p)) (c ++ tail) 4 four,
        from_le_bytes-to_le_bytes 4 (length p) small,
        enough,
        inside,
        take-append c tail (length p + 16) (sym tag),
      )
      refl

-- The file holds every block of the data region.
pub record HasDataRegion (v : Vault) : Type 0 where
  pub sized : 0 < v.header.block_size
  pub held : v.header.data_offset + v.header.block_count * v.header.block_size ≤ length v.file
  pub fits : length v.file < 2 ^ 64

block_end :
    (v : Vault) (a b : ℕ)
    → HasDataRegion v
    → a < b
    → b ≤ v.header.block_count
    → (block_offset v.header a ≡ v.header.data_offset + a * v.header.block_size)
      × (v.header.data_offset + a * v.header.block_size + v.header.block_size
          ≤ v.header.data_offset + b * v.header.block_size)
      × (v.header.data_offset + b * v.header.block_size ≤ length v.file)
unfolding block_offset
block_end v a b region before inside =
    let size = v.header.block_size in
    let one_more = add-mul a 1 size in
    let up : (a + 1) * size ≤ b * size = mul-le-mul_right size (omega arith) in
    let top : b * size ≤ v.header.block_count * size = mul-le-mul_right size inside in
    (
      omega (arith, one_more, up, top, region.held, region.fits),
      omega (arith, one_more, up),
      omega (arith, top, region.held),
    )

apart_cases : (a b : ℕ) → a ≢ b → (a < b) ⊎ (b < a)
apart_cases a b h = ground arith

slice-overwrite_apart :
    (v : Vault) (phys other : ℕ) (frame : List ℕ)
    → HasDataRegion v
    → phys < v.header.block_count
    → other < v.header.block_count
    → phys ≢ other
    → length frame ≡ v.header.block_size
    → slice
        (overwrite v.file (block_offset v.header phys) frame)
        (block_offset v.header other)
        v.header.block_size
      ≡ slice v.file (block_offset v.header other) v.header.block_size
slice-overwrite_apart v phys other frame region p o apart size =
    elim (apart_cases phys other apart) [
      | inl before ↦
          let (at, room, top) = block_end v phys other region before (omega (arith, o)) in
          let (end, more, held) = block_end v other v.header.block_count region o (omega arith) in
          slice-overwrite_after v.file (block_offset v.header phys) frame
            (block_offset v.header other) v.header.block_size (omega (arith, size, region.sized))
            (omega (arith, at, room, end, size))
      | inr after ↦
          let (at, room, top) = block_end v other phys region after (omega (arith, p)) in
          let (end, more, held) = block_end v phys v.header.block_count region p (omega arith) in
          slice-overwrite_before v.file (block_offset v.header phys) frame
            (block_offset v.header other) v.header.block_size (omega (arith, size, region.sized))
            (omega (arith, at, room, end)) (omega (arith, end, more, held))
    ]

module _ (w : Platform) where
  write_inv :
      (phys id : ℕ) (plaintext : List ℕ) (v u : Vault)
      → write_physical_block w phys id plaintext v ≡ (done tt, u)
      → (c : List ℕ) × (encrypt_block w.crypto v.key id phys plaintext ≡ ok c)
        × (4 + length c ≤ v.header.block_size)
        × (u
            ≡ (write_at
                (block_offset v.header phys)
                (block_frame v.header.block_size plaintext c)
                v).1)
  unfolding write_physical_block ◌>>=◌ ◌>>◌ gets lift guard
  write_inv phys id plaintext v u e = ground arith

  read_here :
      (laws : Documented w.crypto) (phys id : ℕ) (plaintext c : List ℕ) (v : Vault)
      → encrypt_block w.crypto v.key id phys plaintext ≡ ok c
      → 4 + length c ≤ v.header.block_size
      → length plaintext < 2 ^ 32
      → slice v.file (block_offset v.header phys) v.header.block_size
        ≡ ok (block_frame v.header.block_size plaintext c)
      → read_physical_block w phys id v ≡ (done plaintext, v)
  unfolding read_physical_block ◌>>=◌ gets read_at lift
  read_here laws phys id plaintext c v sealed fits small found =
      let opens = decrypt_block-encrypt_block w.crypto laws v.key id phys plaintext c sealed in
      rw
        (
          found,
          block_ciphertext-block_frame v.header.block_size plaintext c opens.1 fits small,
          opens.0,
        )
        refl

  -- A block that was written under a file's id is read back under it, and the read changes nothing.
  pub read-write_physical_block :
      (laws : Documented w.crypto) (phys id : ℕ) (plaintext : List ℕ) (v u : Vault)
      → length plaintext < 2 ^ 32
      → write_physical_block w phys id plaintext v ≡ (done tt, u)
      → read_physical_block w phys id u ≡ (done plaintext, u)
  unfolding write_at
  read-write_physical_block laws phys id plaintext v u small e =
      let (c, sealed, fits, after) = write_inv phys id plaintext v u e in
      let size = length-block_frame v.header.block_size plaintext c fits in
      let nonempty : 0 < length (block_frame v.header.block_size plaintext c) = omega arith in
      rw (after) (
        read_here laws phys id plaintext c _ sealed fits small (
          ap
            (λ n.
              slice
                (overwrite v.file (block_offset v.header phys)
                  (block_frame v.header.block_size plaintext c))
                (block_offset v.header phys) n)
            (sym size)
          ∙ slice-overwrite_same v.file (block_offset v.header phys) _ nonempty))

  read_elsewhere :
      (other id : ℕ) (frame : List ℕ) (offset : ℕ) (v : Vault)
      → slice (overwrite v.file offset frame) (block_offset v.header other) v.header.block_size
        ≡ slice v.file (block_offset v.header other) v.header.block_size
      → (read_physical_block w other id (write_at offset frame v).1).0
        ≡ (read_physical_block w other id v).0
  unfolding read_physical_block ◌>>=◌ gets read_at write_at lift
  read_elsewhere other id frame offset v same = ground (arith, same)

  -- A write of one block of the data region leaves what every other block is read as.
  pub read-write_other :
      (phys id : ℕ) (plaintext : List ℕ) (other id' : ℕ) (v u : Vault)
      → HasDataRegion v
      → phys < v.header.block_count
      → other < v.header.block_count
      → phys ≢ other
      → write_physical_block w phys id plaintext v ≡ (done tt, u)
      → (read_physical_block w other id' u).0 ≡ (read_physical_block w other id' v).0
  read-write_other phys id plaintext other id' v u region p o apart e =
      let (c, sealed, fits, after) = write_inv phys id plaintext v u e in
      rw (after) (
        read_elsewhere other id' _ _ v (
          slice-overwrite_apart v phys other _ region p o apart
            (length-block_frame _ plaintext c fits)))
