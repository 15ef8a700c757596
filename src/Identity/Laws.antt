-- ===== src/Identity/Laws.antt =====
-- core/identity.rs: the byte forms of a peer and of a device, and their comparison.
use re_vault.Prelude.{
  ◌≡◌, sym, true, none, some, length, length-append, take-append, drop-append, ◌++◌, List, ℕ, ◌==◌,
  arith, bytes_eq_refl, eq_of_bytes_eq, ◌↔◌,
}
use re_vault.Error.{ok}
use re_vault.Identity.{
  PeerId, Identity, peer_eq, peer_to_bytes, peer_from_bytes, to_bytes, from_bytes, load_or_create,
}

-- A peer identity of two 32-byte keys is read back from its 64 bytes.
pub peer_from_bytes-peer_to_bytes :
    (p : PeerId)
    → length p.signing_public ≡ 32
    → length p.encryption_public ≡ 32
    → peer_from_bytes (peer_to_bytes p) ≡ ok p
unfolding peer_from_bytes peer_to_bytes
peer_from_bytes-peer_to_bytes p hs he =
    let whole : (length (p.signing_public ++ p.encryption_public) == 64) ≡ true =
      ground (arith, length-append p.signing_public p.encryption_public) in
    rw (
      whole,
      take-append p.signing_public p.encryption_public 32 (sym hs),
      drop-append p.signing_public p.encryption_public 32 (sym hs),
    )

pub peer_eq_iff : (p q : PeerId) → (peer_eq p q ≡ true) ↔ (p ≡ q)
unfolding peer_eq
peer_eq_iff p q = (to, from)
  where
    to : peer_eq p q ≡ true → p ≡ q
    to h i = record {
      signing_public = eq_of_bytes_eq p.signing_public q.signing_public (ground arith) i;
      encryption_public = eq_of_bytes_eq p.encryption_public q.encryption_public (ground arith) i;
    }

    from : p ≡ q → peer_eq p q ≡ true
    from e = rw e (rw (bytes_eq_refl q.signing_public, bytes_eq_refl q.encryption_public))

-- What the first run writes to the identity file, every later run loads as the same identity, and
-- writes nothing, provided that each secret is 32 bytes.
load_after_create :
    (fresh other : Identity) {bytes : List ℕ}
    → length fresh.signing ≡ 32
    → length fresh.encryption ≡ 32
    → load_or_create none fresh ≡ (fresh, some bytes)
    → load_or_create (some bytes) other ≡ (fresh, none)
unfolding load_or_create to_bytes from_bytes
load_after_create fresh other {bytes} hs he h =
    let whole : (length (fresh.signing ++ fresh.encryption) == 64) ≡ true =
      ground (arith, length-append fresh.signing fresh.encryption) in
    let same : fresh.signing ++ fresh.encryption ≡ bytes = cc in
    rw (← same) (
      rw (
        whole,
        take-append fresh.signing fresh.encryption 32 (sym hs),
        drop-append fresh.signing fresh.encryption 32 (sym hs),
      ))
