-- ===== src/Allocator/Bits.antt =====
-- The bits of one byte: what `write_bit` changes, as a table over all bytes and bit numbers.
use re_vault.Prelude.{
  ℕ, zero, suc, ◌+◌, ◌<◌, ◌≤◌, ◌≡◌, refl, ap, ◌∙◌, inl, inr, Bool-cases, Bool, true, false, not,
  ◌&&◌, ltb, ◌==◌, if◌then◌else◌, arith,
}
use re_vault.Allocator.{bit_is_clear, write_bit}

same : Bool → Bool → Bool
same true b = b
same false b = not b

eq_of_same : (a b : Bool) → same a b ≡ true → a ≡ b
unfolding same
eq_of_same true b h = ground arith
eq_of_same false b h = ground arith

-- The test holds at `rounds` numbers from `x` up.
holds_from : (ℕ → Bool) → ℕ → ℕ → Bool
holds_from test x zero = true
holds_from test x (suc rounds) = if test x then holds_from test (x + 1) rounds else false

holds_at :
    (test : ℕ → Bool) (x rounds y : ℕ)
    → holds_from test x rounds ≡ true
    → x ≤ y
    → y < x + rounds
    → test y ≡ true
unfolding holds_from
holds_at test x zero y all low high = absurd (omega arith)
holds_at test x (suc rounds) y all low high = elim (Bool-cases (test x)) [
  | inl here ↦ elim (Bool-cases (x == y)) [
    | inl first ↦ ap test (let e : y ≡ x = ground (arith, first) in e) ∙ here
    | inr later ↦
        holds_at test (x + 1) rounds y (ground (arith, here, all)) (ground (arith, later, low))
          (omega (arith, high))
  ]
  | inr fails ↦ ground (arith, fails, all)
]

abbrev entry : Bool → ℕ → ℕ → ℕ → Bool
entry b k j x =
    ltb (write_bit x k b) 256
    && same (bit_is_clear (write_bit x k b) j) (if k == j then not b else bit_is_clear x j)

table : Bool → Bool
table b = holds_from (λ k. holds_from (λ j. holds_from (entry b k j) 0 256) 0 8) 0 8

table_holds : (b : Bool) → table b ≡ true
unfolding table holds_from same write_bit bit_is_clear
table_holds true = refl
table_holds false = refl

entry_holds : (b : Bool) (k j x : ℕ) → k < 8 → j < 8 → x < 256 → entry b k j x ≡ true
unfolding table
entry_holds b k j x hk hj hx =
    let at_bit = holds_at _ 0 8 k (table_holds b) (omega arith) (omega (arith, hk)) in
    let at_both = holds_at _ 0 8 j at_bit (omega arith) (omega (arith, hj)) in
    holds_at (entry b k j) 0 256 x at_both (omega arith) (omega (arith, hx))

-- Writing a bit of a byte gives a byte, sets that bit, and leaves the other bits alone.
pub write_bit_lem :
    (b : Bool) (k j x : ℕ)
    → k < 8
    → j < 8
    → x < 256
    → (write_bit x k b < 256)
      × (bit_is_clear (write_bit x k b) j ≡ (if k == j then not b else bit_is_clear x j))
write_bit_lem b k j x hk hj hx = ground (
  arith,
  entry_holds b k j x hk hj hx,
  eq_of_same (bit_is_clear (write_bit x k b) j) (if k == j then not b else bit_is_clear x j),
)
