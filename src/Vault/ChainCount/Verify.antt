-- ===== src/Vault/ChainCount/Verify.antt =====
-- core/vault.rs: `verify_integrity` leaves the chain's next number as it is.
use re_vault.Prelude.{ℕ, ◌+◌, zero, suc, Bool, List, [], ◌∷◌, none, some, Option}
use re_vault.Format.FileEntry.{FileEntry}
use re_vault.Format.ChainRecord.{ChainRecord}
use re_vault.Vault.State.{Platform, M}
use re_vault.Vault.Storage.{read_slot, read_chain_slot_at_seq}
use re_vault.Vault.Blocks.{walk, read_physical_block, read_index_block, collect_data_blocks}
use re_vault.Vault.Files.{FileInfo, find_slot, find_slot_by_name, read_chunks, read_file}
use re_vault.Vault.Verify.{check_record, verify_chain, check_file, verify_integrity}
use re_vault.Vault.ChainCount.Rules.{
  Steady, Steady-pure, Steady-bind, Steady-then, Steady-if, Steady-for_each, steady,
}
use re_vault.Vault.ChainCount.Reads.{Steady-list_files}

Steady-elim :
    {A B : Type 0} (o : Option A) {m : M B} {f : A → M B}
    → Steady m
    → ((a : A) → Steady (f a))
    → Steady (elim o [ none ↦ m | some a ↦ f a ])
Steady-elim none qm qf = qm
Steady-elim (some a) qm qf = qf a

module _ (w : Platform) where
  Steady-read_slot : (idx : ℕ) → Steady (read_slot w idx)
  unfolding read_slot
  Steady-read_slot idx = search steady

  Steady-find_slot : (test : FileEntry → Bool) (n idx : ℕ) → Steady (find_slot w test n idx)
  unfolding find_slot
  Steady-find_slot test zero idx = Steady-pure none
  Steady-find_slot test (suc n) idx =
      Steady-bind (Steady-read_slot idx)
        (λ e. Steady-if _ (Steady-pure _) (Steady-find_slot test n (idx + 1)))

  Steady-find_slot_by_name : (name : List ℕ) → Steady (find_slot_by_name w name)
  unfolding find_slot_by_name
  Steady-find_slot_by_name name = search (steady, Steady-find_slot)

  Steady-read_physical_block : (phys id : ℕ) → Steady (read_physical_block w phys id)
  unfolding read_physical_block
  Steady-read_physical_block phys id = search steady depth 20

  Steady-read_index_block : (phys id : ℕ) → Steady (read_index_block w phys id)
  unfolding read_index_block
  Steady-read_index_block phys id = search (steady, Steady-read_physical_block)

  Steady-walk : (keep : ℕ → List ℕ → List ℕ) (fuel id next : ℕ) → Steady (walk w keep fuel id next)
  unfolding walk
  Steady-walk keep zero id next = search steady
  Steady-walk keep (suc fuel) id next = Steady-if _ (Steady-pure _) (
      Steady-bind (Steady-read_index_block next id)
        (λ (n, is). Steady-bind (Steady-walk keep fuel id n) (λ more. Steady-pure _)))

  Steady-collect_data_blocks : (entry : FileEntry) → Steady (collect_data_blocks w entry)
  unfolding collect_data_blocks
  Steady-collect_data_blocks entry = search (steady, Steady-walk) depth 20

  Steady-read_chunks : (id : ℕ) (blocks : List ℕ) → Steady (read_chunks w id blocks)
  unfolding read_chunks
  Steady-read_chunks id [] = Steady-pure []
  Steady-read_chunks id (phys ∷ blocks) =
      Steady-bind (Steady-read_physical_block phys id)
        (λ p. Steady-bind (Steady-read_chunks id blocks) (λ more. Steady-pure _))

  Steady-read_file : (name : List ℕ) → Steady (read_file w name)
  unfolding read_file
  Steady-read_file name =
      search (steady, Steady-find_slot_by_name, Steady-collect_data_blocks, Steady-read_chunks)
        depth 40

  Steady-read_chain_slot_at_seq : (seq : ℕ) → Steady (read_chain_slot_at_seq w seq)
  unfolding read_chain_slot_at_seq
  Steady-read_chain_slot_at_seq seq = search steady

  Steady-check_record :
      (key : List ℕ) (seq : ℕ) (prev : Option ChainRecord) (rec : ChainRecord)
      → Steady (check_record w key seq prev rec)
  unfolding check_record
  Steady-check_record key seq prev rec = search steady depth 20

  Steady-verify_chain :
      (key : List ℕ) (rounds seq : ℕ) (prev : Option ChainRecord)
      → Steady (verify_chain w key rounds seq prev)
  unfolding verify_chain
  Steady-verify_chain key zero seq prev = Steady-pure prev
  Steady-verify_chain key (suc rounds) seq prev =
      Steady-bind (Steady-read_chain_slot_at_seq seq) (λ found.
        Steady-elim found (Steady-verify_chain key rounds (seq + 1) prev) (λ rec.
          Steady-then (Steady-check_record key seq prev rec)
            (Steady-verify_chain key rounds (seq + 1) (some rec))))

  Steady-check_file : (info : FileInfo) → Steady (check_file w info)
  unfolding check_file
  Steady-check_file info = search (steady, Steady-read_file)

  pub Steady-verify_integrity : Steady (verify_integrity w)
  unfolding verify_integrity
  Steady-verify_integrity =
      search (steady, Steady-for_each, Steady-verify_chain, Steady-list_files, Steady-check_file)
        depth 30
