-- ===== src/Tests/Toy.antt =====
-- A cryptography that satisfies what is documented of the real one, a platform, and a small vault.
use re_vault.Prelude.{
  ℕ, ◌+◌, ◌-◌, ◌≡◌, refl, sym, ap, ◌∙◌, true, some, List, [], ◌∷◌, ◌++◌, length, take, replicate,
  length-append, take-append, All-replicate, IsByte, arith,
}
use re_vault.Crypto.{Primitives, Documented}
use re_vault.Identity.{Identity}
use re_vault.Format.Header.{Header}
use re_vault.Vault.State.{Platform, Vault}

abbrev pub zeros : ℕ → List ℕ
zeros n = replicate n 0

-- A sealed text is the text and a tag of zeros; every key, digest and signature is zeros.
abbrev pub toy : Primitives
toy = record {
  sha256 = λ b. zeros 32;
  argon2id = λ m t p password salt. some (zeros 32);
  seal = λ k n a t. some (t ++ zeros 16);
  unseal = λ k n a s. some (take (length s - 16) s);
  x_public = λ s. zeros 32;
  diffie_hellman = λ s t. zeros 32;
  ed_public = λ s. zeros 32;
  ed_sign = λ s m. zeros 64;
  ed_verify = λ k m s. some true;
}

some_inv : {a b : List ℕ} → some a ≡ some b → a ≡ b
some_inv e = cc

toy_len : (t : List ℕ) → length (t ++ zeros 16) ≡ length t + 16
toy_len t = omega (arith, length-append t (zeros 16))

pub toy-Documented : Documented toy
toy-Documented = record {
  digest_len = λ b. refl;
  digest_bytes = λ b. All-replicate IsByte 32 0 (omega arith);
  sealed_len = λ k n a t s e. ap length (sym (some_inv e)) ∙ toy_len t;
  unseal_seal = λ k n a t s e.
      ap (λ x. some (take (length x - 16) x)) (sym (some_inv e))
      ∙ ap some (take-append t (zeros 16) _ (omega (arith, toy_len t)));
  shared = λ s t. refl;
  x_public_len = λ s. refl;
  ed_public_len = λ s. refl;
  signature_len = λ s m. refl;
  signed_verifies = λ s m. refl;
}

abbrev pub platform : Platform
platform = record { crypto = toy; now = λ i. i; random = λ i k. zeros k; uuid = λ i. i }

abbrev pub device : Identity
device = record { signing = zeros 32; encryption = zeros 32 }

-- Four blocks of 64 bytes, one file slot, one recipient slot and two chain records.
abbrev pub small_header : Header
small_header = record {
  version = 2;
  flags = 0;
  block_size = 64;
  block_count = 4;
  capacity_bytes = 256;
  name = 118 ∷ [];
  description = [];
  created_at = 0;
  salt = zeros 16;
  argon2_m_cost_kib = 8;
  argon2_t_cost = 1;
  argon2_p_cost = 1;
  admin_key_slot = zeros 60;
  admin_signing_pubkey = zeros 32;
  admin_encryption_pubkey = zeros 32;
  bitmap_offset = 1024;
  bitmap_len = 1;
  file_table_offset = 1025;
  file_table_len = 320;
  max_files = 1;
  entry_size = 320;
  recipient_offset = 1345;
  recipient_len = 192;
  max_recipients = 1;
  recipient_slot_size = 192;
  chain_offset = 1537;
  chain_len = 448;
  max_chain_records = 2;
  chain_record_size = 224;
  chain_next_seq = 1;
  chain_last_hash = zeros 32;
  data_offset = 1985;
}

abbrev pub small_vault : Vault
small_vault = record {
  file = zeros 2241;
  header = small_header;
  allocator = record { bits = 0 ∷ []; block_count = 4 };
  key = zeros 32;
  admin_identity = some device;
  change_log = [];
  drawn = 0;
}
