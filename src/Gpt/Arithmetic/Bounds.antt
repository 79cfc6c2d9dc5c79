-- ===== src/Gpt/Arithmetic/Bounds.antt =====
-- The products that the parser allocates by never wrap.
use native.Mathlib.Nat.{div-lt_iff_lt-mul, mul-le-mul, zero-mul, mul-zero}
use mboot_core.Prelude.{
  ℕ, suc, zero, ◌-◌, ◌*◌, ◌/◌, ◌^◌, ◌≤◌, ◌<◌, ◌≡◌, ◌↔◌, refl, ap, arith, ltb→lt, le→ltb, lt→ltb,
  true, false, ltb, ◌==◌, some, List, Bool-cases, inl, inr,
}
use mboot_core.Domain.{ErrorCode}
use mboot_core.Gpt.Arithmetic.{mul_overflows, safe_mul, validate_entry_fields}

-- The test says whether the product does not fit 64 bits.
mul_overflows_iff : (a b : ℕ) → (mul_overflows a b ≡ true) ↔ (2 ^ 64 ≤ a * b)
unfolding mul_overflows
mul_overflows_iff zero b = (λ h. ground arith, λ h. absurd (omega (arith, zero-mul b)))
mul_overflows_iff (suc a) zero = (λ h. ground arith, λ h. absurd (omega (arith, mul-zero (suc a))))
mul_overflows_iff (suc a) (suc b) =
    let test = div-lt_iff_lt-mul {k = suc b} {x = 2 ^ 64 - 1} {y = suc a} (omega arith) in
    let a_positive : (suc a == 0) ≡ false = ground arith in
    let b_positive : (suc b == 0) ≡ false = ground arith in
    rw (a_positive, b_positive)
      (
        λ h. let l = test.0 (ltb→lt ((2 ^ 64 - 1) / suc b) (suc a) h) in omega (arith, l),
        λ h. lt→ltb ((2 ^ 64 - 1) / suc b) (suc a) (test.1 (omega (arith, h))),
      )

-- `safeMul` gives a result exactly if the product fits 64 bits, and then it is the product.
pub safe_mul_iff : (a b c : ℕ) → (safe_mul a b ≡ some c) ↔ ((a * b ≡ c) × (a * b < 2 ^ 64))
unfolding safe_mul
safe_mul_iff a b c = elim (Bool-cases (mul_overflows a b)) [
  | inl e ↦
      let big = (mul_overflows_iff a b).0 e in
      rw e (λ h. absurd (cc), λ h. absurd (omega (arith, h.1)))
  | inr e ↦
      let fits : a * b < 2 ^ 64 = elim (Bool-cases (ltb (a * b) (2 ^ 64))) [
        | inl l ↦ ltb→lt (a * b) (2 ^ 64) l
        | inr l ↦ let t = (mul_overflows_iff a b).1 (ground arith) in absurd (cc)
      ] in
      rw e (λ h. (cc, fits), λ h. ap some h.0)
]

-- Numbers that pass the validation are at most 4096 and between 128 and 512, so that `safeMul`
-- succeeds on them with at most 2^21 bytes: the overflow branch behind the validation is dead.
pub validate_entry_fields-safe_mul :
    (n s : ℕ) (warnings : List ErrorCode)
    → (validate_entry_fields n s warnings).1 ≡ true
    → (safe_mul n s ≡ some (n * s)) × (128 ≤ n * s) × (n * s ≤ 2 ^ 21)
unfolding validate_entry_fields
validate_entry_fields-safe_mul n s warnings h =
    let bounds : (1 ≤ n) × (n ≤ 4096) × (128 ≤ s) × (s ≤ 512) = ground arith in
    let least = mul-le-mul {n₁ = 1} {m₁ = 128} {n₂ = n} {m₂ = s} bounds.0 bounds.2 in
    let most = mul-le-mul {n₁ = n} {m₁ = s} {n₂ = 4096} {m₂ = 512} bounds.1 bounds.3 in
    ((safe_mul_iff n s (n * s)).1 (refl, omega arith), omega arith, omega arith)

pub validate_entry_fields-accepts :
    (n s : ℕ) (warnings : List ErrorCode)
    → 0 < n
    → n ≤ 4096
    → 128 ≤ s
    → s ≤ 512
    → validate_entry_fields n s warnings ≡ (warnings, true)
unfolding validate_entry_fields
validate_entry_fields-accepts n s warnings p a b c =
    let t0 : (n == 0) ≡ false = ground arith in
    rw (t0, le→ltb 4096 n a, le→ltb s 128 b, le→ltb 512 s c) refl
