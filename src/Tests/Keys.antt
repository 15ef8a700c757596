-- ===== src/Tests/Keys.antt =====
-- The envelope, the identities and the chain records at concrete values.
use re_vault.Prelude.{
  ◌⊎◌, false, take, bytes_eq, ℕ, ◌≡◌, refl, true, some, [], ◌∷◌, ◌++◌, length, ◌↔◌, arith,
}
use re_vault.Error.{ok}
use re_vault.Crypto.Keys.{
  nonce_len, nonce_input, block_nonce, wrap_dek_for_recipient, unwrap_dek_for_recipient,
}
use re_vault.Crypto.Envelope.{unwrap-wrap_dek}
use re_vault.Crypto.Nonce.{block_nonce-binds}
use re_vault.Identity.{PeerId, peer_eq}
use re_vault.Identity.Laws.{peer_eq_iff}
use re_vault.Format.ChainRecord.{
  ChainRecord, chain_record_size, encode, decode, file_added, new_signed, verify_self, compute_hash,
}
use re_vault.Format.ChainRecord.RoundTrip.{IsStorable, record-decode-encode}
use re_vault.Format.ChainRecord.Binding.{SameEvent, hashed, verify_self-binds}
use re_vault.Tests.Toy.{zeros, toy, toy-Documented}

abbrev block : ℕ
block = 7

abbrev other : ℕ
other = 8

abbrev place : ℕ
place = 1

-- Two blocks of different files, which the toy digest gives the same nonce.
block_nonce-binds_example :
    ((block ≡ other) × (place ≡ place))
    ⊎ ((bytes_eq (nonce_input block place) (nonce_input other place) ≡ false)
        × (take nonce_len (toy.sha256 (nonce_input block place))
            ≡ take nonce_len (toy.sha256 (nonce_input other place))))
unfolding block_nonce
block_nonce-binds_example =
    block_nonce-binds toy block place other place (omega arith) (omega arith) (omega arith)
      (omega arith) refl

unwrap-wrap_dek_example :
    (unwrap_dek_for_recipient toy (zeros 32) (zeros 92) ≡ ok (zeros 32)) × (length (zeros 92) ≡ 92)
unfolding wrap_dek_for_recipient
unwrap-wrap_dek_example =
    unwrap-wrap_dek toy toy-Documented (zeros 32) (zeros 12) (zeros 32) (zeros 32) (zeros 92) refl
      refl refl

abbrev peer : PeerId
peer = record { signing_public = zeros 32; encryption_public = 1 ∷ zeros 31 }

peer_eq_iff_example : (peer_eq peer peer ≡ true) ↔ (peer ≡ peer)
peer_eq_iff_example = peer_eq_iff peer peer

abbrev genesis : ChainRecord
genesis = record {
  seq = 0;
  prev_hash = zeros 32;
  op = file_added;
  target_id = 5;
  data_hash = zeros 32;
  timestamp = 9;
  record_hash = zeros 32;
  signature = zeros 64;
}

record-decode-encode_example :
    (length (encode genesis) ≡ chain_record_size)
    × (decode (encode genesis ++ []) ≡ ok (some genesis))
record-decode-encode_example = record-decode-encode genesis [] (record {
  seq_u64 = omega arith;
  prev_len = refl;
  target_u128 = omega arith;
  data_len = refl;
  timestamp_i64 = omega arith;
  hash_len = refl;
  signature_len = refl;
})

abbrev appended : ChainRecord
appended = new_signed toy 4 (zeros 32) file_added 5 (zeros 32) 9 (zeros 32)

appended-IsStorable : IsStorable appended
unfolding new_signed compute_hash
appended-IsStorable = record {
  seq_u64 = omega arith;
  prev_len = refl;
  target_u128 = omega arith;
  data_len = refl;
  timestamp_i64 = omega arith;
  hash_len = refl;
  signature_len = refl;
}

-- The same event signed by another key.
abbrev resigned : ChainRecord
resigned = new_signed toy 4 (zeros 32) file_added 5 (zeros 32) 9 (1 ∷ zeros 31)

resigned-IsStorable : IsStorable resigned
unfolding new_signed compute_hash
resigned-IsStorable = record {
  seq_u64 = omega arith;
  prev_len = refl;
  target_u128 = omega arith;
  data_len = refl;
  timestamp_i64 = omega arith;
  hash_len = refl;
  signature_len = refl;
}

verify_self-binds_example :
    SameEvent appended resigned
    ⊎ ((bytes_eq (hashed appended) (hashed resigned) ≡ false)
        × (toy.sha256 (hashed appended) ≡ toy.sha256 (hashed resigned)))
unfolding new_signed compute_hash verify_self bytes_eq
verify_self-binds_example =
    verify_self-binds toy appended resigned appended-IsStorable resigned-IsStorable refl refl refl
