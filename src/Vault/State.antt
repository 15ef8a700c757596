-- ===== src/Vault/State.antt =====
-- The state of an open vault, and the actions over it: each method of core/vault.rs takes `&mut self`
-- and returns a `Result`, and what it changed before an error stays changed.
--
-- The file is its bytes. A write past the end fills the gap with zeros, a read past the end is
-- `UnexpectedEof`, and no other I/O error occurs. The clock, the random generator and the UUID
-- generator are the parameter `Platform`; `drawn` counts the values taken from it so far.
use re_vault.Prelude.{
  ℕ, ◌+◌, ◌-◌, ◌*◌, ◌%◌, ◌^◌, Bool, true, false, List, [], ◌∷◌, ◌++◌, Option, none, some, length,
  take, drop, replicate, ltb, if◌then◌else◌,
}
use re_vault.Error.{VaultError, io, unexpected_eof, Result, ok, err}
use re_vault.Crypto.{Primitives}
use re_vault.Identity.{Identity}
use re_vault.Allocator.{BlockAllocator}
use re_vault.Format.Header.{Header}

pub record Platform : Type 0 where
  pub crypto : Primitives
  -- the n-th value: seconds since the epoch, `k` random bytes, a UUIDv7 as `u128`
  pub now : ℕ → ℕ
  pub random : ℕ → ℕ → List ℕ
  pub uuid : ℕ → ℕ

abbrev pub Range : Type 0
Range = ℕ × List ℕ

pub record Vault : Type 0 where
  pub file : List ℕ
  pub header : Header
  pub allocator : BlockAllocator
  pub key : List ℕ
  pub admin_identity : Option Identity
  pub change_log : List Range
  pub drawn : ℕ

-- `loops` is no value of the code: a loop over the overflow chain did not end.
pub data Outcome (A : Type 0) : Type 0 where
  done : A → Outcome A
  failed : VaultError → Outcome A
  loops : Outcome A

abbrev pub M : Type 0 → Type 0
M A = Vault → Outcome A × Vault

abbrev pub continue_with : {A B : Type 0} → (A → M B) → Outcome A → M B
continue_with f (done a) v = f a v
continue_with f (failed e) v = (failed e, v)
continue_with f loops v = (loops, v)

infixl 5 ◌>>=◌ ◌>>◌
unfoldable pub ◌>>=◌ : {A B : Type 0} → M A → (A → M B) → M B
◌>>=◌ m f v = continue_with f (m v).0 (m v).1

unfoldable pub ◌>>◌ : {B : Type 0} → M (Unit {0}) → M B → M B
unfolding ◌>>=◌
m >> k = m >>= λ _. k

unfoldable pub pure : {A : Type 0} → A → M A
pure a v = (done a, v)

unfoldable pub raise : {A : Type 0} → VaultError → M A
raise e v = (failed e, v)

unfoldable pub diverge : {A : Type 0} → M A
diverge v = (loops, v)

-- A `Result` under `?`.
unfoldable pub lift : {A : Type 0} → Result A → M A
lift (ok a) v = (done a, v)
lift (err e) v = (failed e, v)

-- `.ok_or(e)?`
unfoldable pub or_raise : {A : Type 0} → Option A → VaultError → M A
or_raise none e v = (failed e, v)
or_raise (some a) e v = (done a, v)

-- `if !test { return Err(e) }`
unfoldable pub guard : Bool → VaultError → M (Unit {0})
guard true e v = (done tt, v)
guard false e v = (failed e, v)

unfoldable pub gets : {A : Type 0} → (Vault → A) → M A
gets f v = (done (f v), v)

unfoldable pub set_header : (Header → Header) → M (Unit {0})
set_header f v = (done tt, record v { header = f v.header })

unfoldable pub set_allocator : BlockAllocator → M (Unit {0})
set_allocator a v = (done tt, record v { allocator = a })

unfoldable pub set_key : List ℕ → M (Unit {0})
set_key k v = (done tt, record v { key = k })

-- The next value of the platform.
unfoldable pub draw : {A : Type 0} → (ℕ → A) → M A
draw f v = (done (f v.drawn), record v { drawn = v.drawn + 1 })

-- `for x in xs { body(x)? }`
unfoldable pub for_each : {A : Type 0} → List A → (A → M (Unit {0})) → M (Unit {0})
unfolding ◌>>◌ ◌>>=◌ pure
for_each [] body = pure tt
for_each (x ∷ xs) body = do body x; for_each xs body

-- `base + i * size` on `u64` in a release build
abbrev pub offset_u64 : ℕ → ℕ → ℕ → ℕ
offset_u64 base i size = (base + i * size) % 2 ^ 64

-- `seek` and `write_all`
unfoldable pub overwrite : List ℕ → ℕ → List ℕ → List ℕ
overwrite file offset [] = file
overwrite file offset (b ∷ bs) =
    (take offset file ++ replicate (offset - length file) 0)
    ++ ((b ∷ bs) ++ drop (offset + length (b ∷ bs)) file)

-- `seek` and `read_exact`
unfoldable pub slice : List ℕ → ℕ → ℕ → Result (List ℕ)
slice file offset n =
    let found = take n (drop offset file) in
    if ltb (length found) n then err (io unexpected_eof) else ok found

unfoldable pub read_at : ℕ → ℕ → M (List ℕ)
unfolding slice lift
read_at offset n v = lift (slice v.file offset n) v

-- `write_at`: every mutation of an open vault's file goes through it.
unfoldable pub write_at : ℕ → List ℕ → M (Unit {0})
write_at offset bytes v = (
  done tt,
  record v {
    file = overwrite v.file offset bytes;
    change_log = v.change_log ++ ((offset, bytes) ∷ []);
  },
)

unfoldable pub take_change_log : M (List Range)
take_change_log v = (done v.change_log, record v { change_log = [] })

-- The whole file, as `export_full` reads it.
unfoldable pub export_full : M (List ℕ)
export_full v = (done v.file, v)

-- The writes of a patch, in order.
unfoldable pub replay : List Range → List ℕ → List ℕ
replay [] file = file
replay ((offset, bytes) ∷ ranges) file = replay ranges (overwrite file offset bytes)
