-- ===== src/BitUtil/Normal.antt =====
-- A word is normalised by shifting out its leading zeros; the step from one width to the next.
use storm_net.Prelude.{
  ℕ, ◌+◌, ◌*◌, ◌%◌, ◌^◌, ◌≤◌, ◌<◌, ◌≡◌, arith, ap, leb, Bool-cases, inl, inr, if◌then◌else◌,
}
use native.Mathlib.Nat.{mul-le-mul_right, mod-eq_of_lt, one-le-pow}
use storm_net.Bits.{pow_add}

-- Shifted left by `c`, the word `x` has the top bit `top` set and no bit lost above it.
abbrev pub Normal : ℕ → ℕ → ℕ → Type 0
Normal top x c = (top ≤ x * 2 ^ c) × (x * 2 ^ c < 2 * top)

-- `f` counts the leading zeros of the words from `low` on.
abbrev pub Counts : ℕ → ℕ → (ℕ → ℕ) → Type 0
Counts top low f = (x : ℕ) → low ≤ x → x < 2 * top → Normal top x (f x)

abbrev pub halve : ℕ → ℕ → ℕ → (ℕ → ℕ) → ℕ → ℕ
halve top s limit f x = if leb x limit then s + f (x * 2 ^ s % (2 * top)) else f x

Normal-shift : (top x s c : ℕ) → Normal top (x * 2 ^ s) c → Normal top x (s + c)
Normal-shift top x s c h = omega (arith, ap (λ (t : ℕ). x * t) (pow_add s c))

-- A level that shifts by `s` when the `s` top bits are clear, above one that counts from `low` on.
pub halve-Counts :
    (top low low' s limit : ℕ) (f : ℕ → ℕ)
    → Counts top low f
    → (limit + 1) * 2 ^ s ≡ 2 * top
    → low ≤ limit + 1
    → low ≤ low' * 2 ^ s
    → Counts top low' (halve top s limit f)
halve-Counts top low low' s limit f below size at_least reach x lo hi =
    elim (Bool-cases (leb x limit)) [
      | inl small ↦
          let bound : (x + 1) * 2 ^ s ≤ (limit + 1) * 2 ^ s =
            mul-le-mul_right (2 ^ s) (ground arith) in
          let room : x * 2 ^ s < 2 * top = omega (arith, one-le-pow s 2) in
          let from : low ≤ x * 2 ^ s = omega (arith, mul-le-mul_right (2 ^ s) lo) in
          rw (small, mod-eq_of_lt room)
            (Normal-shift top x s (f (x * 2 ^ s)) (below (x * 2 ^ s) from room))
      | inr big ↦ rw big (below x (ground arith) hi)
    ]
