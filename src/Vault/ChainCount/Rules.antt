-- ===== src/Vault/ChainCount/Rules.antt =====
-- core/vault.rs: the number that the next chain record gets, and what leaves it as it is.
use re_vault.Prelude.{
  ℕ, ◌+◌, ◌%◌, ◌^◌, ◌≡◌, refl, ap, ◌∙◌, Bool, true, false, List, [], ◌∷◌, Option, none, some,
  if◌then◌else◌,
}
use re_vault.Error.{VaultError, Result, ok, err}
use re_vault.Allocator.{BlockAllocator}
use re_vault.Format.Header.{Header}
use re_vault.Vault.State.{
  Vault, Outcome, done, failed, loops, continue_with, M, ◌>>=◌, ◌>>◌, pure, diverge, lift, or_raise,
  guard, gets, set_header, set_allocator, set_key, draw, for_each, slice, read_at, write_at,
}

abbrev pub seq_of : Vault → ℕ
seq_of v = v.header.chain_next_seq

-- An action that leaves the chain's next number as it was, on every outcome.
pub record Steady {A : Type 0} (m : M A) : Type 0 where
  pub seq : (v : Vault) → seq_of (m v).1 ≡ seq_of v

pub Steady-pure : {A : Type 0} (a : A) → Steady (pure a)
unfolding pure
Steady-pure a = record { seq = λ v. refl }

pub Steady-diverge : {A : Type 0} → Steady (diverge {A = A})
unfolding diverge
Steady-diverge = record { seq = λ v. refl }

pub Steady-gets : {A : Type 0} (f : Vault → A) → Steady (gets f)
unfolding gets
Steady-gets f = record { seq = λ v. refl }

pub Steady-set_allocator : (a : BlockAllocator) → Steady (set_allocator a)
unfolding set_allocator
Steady-set_allocator a = record { seq = λ v. refl }

pub Steady-set_key : (k : List ℕ) → Steady (set_key k)
unfolding set_key
Steady-set_key k = record { seq = λ v. refl }

pub Steady-draw : {A : Type 0} (f : ℕ → A) → Steady (draw f)
unfolding draw
Steady-draw f = record { seq = λ v. refl }

pub Steady-write_at : (offset : ℕ) (bytes : List ℕ) → Steady (write_at offset bytes)
unfolding write_at
Steady-write_at offset bytes = record { seq = λ v. refl }

pub Steady-set_header :
    (f : Header → Header)
    → ((h : Header) → (f h).chain_next_seq ≡ h.chain_next_seq)
    → Steady (set_header f)
unfolding set_header
Steady-set_header f e = record { seq = λ v. e v.header }

pub Steady-lift : {A : Type 0} (r : Result A) → Steady (lift r)
unfolding lift
Steady-lift (ok a) = record { seq = λ v. refl }
Steady-lift (err e) = record { seq = λ v. refl }

pub Steady-or_raise : {A : Type 0} (o : Option A) (e : VaultError) → Steady (or_raise o e)
unfolding or_raise
Steady-or_raise none e = record { seq = λ v. refl }
Steady-or_raise (some a) e = record { seq = λ v. refl }

pub Steady-guard : (b : Bool) (e : VaultError) → Steady (guard b e)
unfolding guard
Steady-guard true e = record { seq = λ v. refl }
Steady-guard false e = record { seq = λ v. refl }

pub Steady-read_at : (offset n : ℕ) → Steady (read_at offset n)
unfolding read_at
Steady-read_at offset n = record { seq = λ v. (Steady-lift (slice v.file offset n)).seq v }

module _ {A B : Type 0} where
  seq-continue :
      (f : A → M B)
      → ((a : A) → Steady (f a))
      → (o : Outcome A) (u : Vault) → seq_of (continue_with f o u).1 ≡ seq_of u
  seq-continue f s (done a) u = (s a).seq u
  seq-continue f s (failed e) u = refl
  seq-continue f s loops u = refl

  pub Steady-bind : {m : M A} {f : A → M B} → Steady m → ((a : A) → Steady (f a)) → Steady (m >>= f)
  unfolding ◌>>=◌
  Steady-bind {m} {f} sm sf = record { seq = λ v. seq-continue f sf (m v).0 (m v).1 ∙ sm.seq v }

pub Steady-then : {B : Type 0} {m : M Unit} {k : M B} → Steady m → Steady k → Steady (m >> k)
unfolding ◌>>◌
Steady-then sm sk = Steady-bind sm (λ _. sk)

pub Steady-if :
    {A : Type 0} (b : Bool) {m k : M A} → Steady m → Steady k → Steady (if b then m else k)
Steady-if true sm sk = sm
Steady-if false sm sk = sk

pub Steady-for_each :
    {A : Type 0} (xs : List A) (body : A → M Unit)
    → ((x : A) → Steady (body x))
    → Steady (for_each xs body)
unfolding for_each
Steady-for_each [] body s = Steady-pure tt
Steady-for_each (x ∷ xs) body s = Steady-then (s x) (Steady-for_each xs body s)

pub ruleset steady = (
  Steady-bind, Steady-then, Steady-if, Steady-pure, Steady-diverge, Steady-lift, Steady-or_raise,
  Steady-guard, Steady-gets, Steady-set_allocator, Steady-set_key, Steady-draw, Steady-read_at,
  Steady-write_at,
)

-- The number after an action that appends one record when it succeeds, and none otherwise.
abbrev pub counted : {A : Type 0} → Outcome A → ℕ → ℕ
counted (done a) n = (n + 1) % 2 ^ 64
counted (failed e) n = n
counted loops n = n

pub record Counts {A : Type 0} (m : M A) : Type 0 where
  pub seq : (v : Vault) → seq_of (m v).1 ≡ counted (m v).0 (seq_of v)

module _ {A B : Type 0} where
  counted-continue :
      (f : A → M B)
      → ((a : A) → Counts (f a))
      → (o : Outcome A) (u : Vault)
      → seq_of (continue_with f o u).1 ≡ counted (continue_with f o u).0 (seq_of u)
  counted-continue f c (done a) u = (c a).seq u
  counted-continue f c (failed e) u = refl
  counted-continue f c loops u = refl

  pub Counts-bind : {m : M A} {f : A → M B} → Steady m → ((a : A) → Counts (f a)) → Counts (m >>= f)
  unfolding ◌>>=◌
  Counts-bind {m} {f} sm cf = record {
    seq = λ v.
        counted-continue f cf (m v).0 (m v).1
        ∙ ap (counted (continue_with f (m v).0 (m v).1).0) (sm.seq v);
  }

pub Counts-then : {B : Type 0} {m : M Unit} {k : M B} → Steady m → Counts k → Counts (m >> k)
unfolding ◌>>◌
Counts-then sm ck = Counts-bind sm (λ _. ck)

pub ruleset counts = (Counts-bind, Counts-then)
