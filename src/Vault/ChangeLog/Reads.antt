-- ===== src/Vault/ChangeLog/Reads.antt =====
-- core/vault.rs: the methods that only read, which touch neither the file nor the change log.
use re_vault.Prelude.{
  ℕ, ◌+◌, zero, suc, Bool, true, false, List, [], ◌∷◌, none, some, Option, if◌then◌else◌,
}
use re_vault.Format.FileEntry.{FileEntry}
use re_vault.Format.ChainRecord.{ChainRecord}
use re_vault.Vault.State.{Platform, M, for_each}
use re_vault.Vault.Storage.{read_slot, read_chain_slot_at_seq}
use re_vault.Vault.Blocks.{walk, read_physical_block, read_index_block, collect_data_blocks}
use re_vault.Vault.Files.{
  FileInfo, find_slot, find_slot_by_name, occupied_from, all_occupied_entries, list_files,
  read_chunks, read_file,
}
use re_vault.Vault.Verify.{check_record, verify_chain, check_file, verify_integrity}
use re_vault.Vault.ChangeLog.Rules.{
  Quiet, Quiet-pure, Quiet-bind, Quiet-then, Quiet-diverge, Quiet-or_raise, Quiet-raise, quiet,
}

Quiet-if : {A : Type 0} (b : Bool) {m k : M A} → Quiet m → Quiet k → Quiet (if b then m else k)
Quiet-if true qm qk = qm
Quiet-if false qm qk = qk

Quiet-for_each :
    {A : Type 0} (xs : List A) (body : A → M Unit)
    → ((x : A) → Quiet (body x))
    → Quiet (for_each xs body)
unfolding for_each
Quiet-for_each [] body q = Quiet-pure tt
Quiet-for_each (x ∷ xs) body q = Quiet-then (q x) (Quiet-for_each xs body q)

Quiet-elim :
    {A B : Type 0} (o : Option A) {m : M B} {f : A → M B}
    → Quiet m
    → ((a : A) → Quiet (f a))
    → Quiet (elim o [ none ↦ m | some a ↦ f a ])
Quiet-elim none qm qf = qm
Quiet-elim (some a) qm qf = qf a

ruleset reads = (quiet, Quiet-if, Quiet-or_raise, Quiet-raise, Quiet-diverge)

module _ (w : Platform) where
  Quiet-read_slot : (idx : ℕ) → Quiet (read_slot w idx)
  unfolding read_slot
  Quiet-read_slot idx = search reads

  Quiet-occupied_from : (n idx : ℕ) → Quiet (occupied_from w n idx)
  unfolding occupied_from
  Quiet-occupied_from zero idx = Quiet-pure []
  Quiet-occupied_from (suc n) idx =
      Quiet-bind (Quiet-read_slot idx)
        (λ e. Quiet-bind (Quiet-occupied_from n (idx + 1)) (λ more. Quiet-pure _))

  pub Quiet-list_files : Quiet (list_files w)
  unfolding list_files all_occupied_entries
  Quiet-list_files = search (reads, Quiet-occupied_from)

  Quiet-find_slot : (test : FileEntry → Bool) (n idx : ℕ) → Quiet (find_slot w test n idx)
  unfolding find_slot
  Quiet-find_slot test zero idx = Quiet-pure none
  Quiet-find_slot test (suc n) idx =
      Quiet-bind (Quiet-read_slot idx)
        (λ e. Quiet-if _ (Quiet-pure _) (Quiet-find_slot test n (idx + 1)))

  Quiet-find_slot_by_name : (name : List ℕ) → Quiet (find_slot_by_name w name)
  unfolding find_slot_by_name
  Quiet-find_slot_by_name name = search (reads, Quiet-find_slot)

  Quiet-read_physical_block : (phys id : ℕ) → Quiet (read_physical_block w phys id)
  unfolding read_physical_block
  Quiet-read_physical_block phys id = search reads depth 20

  Quiet-read_index_block : (phys id : ℕ) → Quiet (read_index_block w phys id)
  unfolding read_index_block
  Quiet-read_index_block phys id = search (reads, Quiet-read_physical_block)

  Quiet-walk : (keep : ℕ → List ℕ → List ℕ) (fuel id next : ℕ) → Quiet (walk w keep fuel id next)
  unfolding walk
  Quiet-walk keep zero id next = search reads
  Quiet-walk keep (suc fuel) id next = Quiet-if _ (Quiet-pure _) (
      Quiet-bind (Quiet-read_index_block next id)
        (λ (n, is). Quiet-bind (Quiet-walk keep fuel id n) (λ more. Quiet-pure _)))

  Quiet-collect_data_blocks : (entry : FileEntry) → Quiet (collect_data_blocks w entry)
  unfolding collect_data_blocks
  Quiet-collect_data_blocks entry = search (reads, Quiet-walk) depth 20

  Quiet-read_chunks : (id : ℕ) (blocks : List ℕ) → Quiet (read_chunks w id blocks)
  unfolding read_chunks
  Quiet-read_chunks id [] = Quiet-pure []
  Quiet-read_chunks id (phys ∷ blocks) =
      Quiet-bind (Quiet-read_physical_block phys id)
        (λ p. Quiet-bind (Quiet-read_chunks id blocks) (λ more. Quiet-pure _))

  pub Quiet-read_file : (name : List ℕ) → Quiet (read_file w name)
  unfolding read_file
  Quiet-read_file name =
      search (reads, Quiet-find_slot_by_name, Quiet-collect_data_blocks, Quiet-read_chunks) depth 40

  Quiet-read_chain_slot_at_seq : (seq : ℕ) → Quiet (read_chain_slot_at_seq w seq)
  unfolding read_chain_slot_at_seq
  Quiet-read_chain_slot_at_seq seq = search reads

  Quiet-check_record :
      (key : List ℕ) (seq : ℕ) (prev : Option ChainRecord) (rec : ChainRecord)
      → Quiet (check_record w key seq prev rec)
  unfolding check_record
  Quiet-check_record key seq prev rec = search reads depth 20

  Quiet-verify_chain :
      (key : List ℕ) (rounds seq : ℕ) (prev : Option ChainRecord)
      → Quiet (verify_chain w key rounds seq prev)
  unfolding verify_chain
  Quiet-verify_chain key zero seq prev = Quiet-pure prev
  Quiet-verify_chain key (suc rounds) seq prev =
      Quiet-bind (Quiet-read_chain_slot_at_seq seq) (λ found.
        Quiet-elim found (Quiet-verify_chain key rounds (seq + 1) prev) (λ rec.
          Quiet-then (Quiet-check_record key seq prev rec)
            (Quiet-verify_chain key rounds (seq + 1) (some rec))))

  Quiet-check_file : (info : FileInfo) → Quiet (check_file w info)
  unfolding check_file
  Quiet-check_file info = search (reads, Quiet-read_file)

  pub Quiet-verify_integrity : Quiet (verify_integrity w)
  unfolding verify_integrity
  Quiet-verify_integrity =
      search (reads, Quiet-for_each, Quiet-verify_chain, Quiet-list_files, Quiet-check_file) depth
        30
