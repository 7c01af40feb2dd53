-- ===== src/Bridge/Compare.antt =====
-- src/byok-http-bridge.ts: `fixedLengthEqual` and the operations on bits.
use clawsembly_kernel.Prelude.{
  ℕ, zero, suc, ◌+◌, ◌*◌, ◌-◌, ◌/◌, ◌%◌, ◌^◌, ◌<◌, ◌≤◌, ◌≡◌, refl, ◌↔◌, Bool, true, false, String,
  [], ◌∷◌, arith, length, All, All-append, nat_eq, ltb, if◌then◌else◌, units, codes,
}
use Prim.Native.Char.{code}
use native.Mathlib.Nat.{pow-suc}
use clawsembly_kernel.JsText.{Text}
use clawsembly_kernel.Bridge.{bit_xor, bit_or, difference, fixed_length_equal}

bit_xor_self : (w a : ℕ) → bit_xor w a a ≡ 0
unfolding bit_xor
bit_xor_self zero a = refl
bit_xor_self (suc w) a = omega (arith, bit_xor_self w (a / 2))

bit_xor_zero : (w a b : ℕ) → a < 2 ^ w → b < 2 ^ w → bit_xor w a b ≡ 0 → a ≡ b
unfolding bit_xor
bit_xor_zero zero a b la lb e = omega arith
bit_xor_zero (suc w) a b la lb e =
    let halves : a / 2 ≡ b / 2 =
      bit_xor_zero w (a / 2) (b / 2) (omega (arith, pow-suc 2 w)) (omega (arith, pow-suc 2 w))
        (omega arith) in
    omega arith

bit_xor-lt : (w a b : ℕ) → bit_xor w a b < 2 ^ w
unfolding bit_xor
bit_xor-lt zero a b = omega arith
bit_xor-lt (suc w) a b = omega (arith, bit_xor-lt w (a / 2) (b / 2), pow-suc 2 w)

bit_or_bit :
    (x y : ℕ) → x < 2 → y < 2 → (x + y - x * y < 2) × (x ≤ x + y - x * y) × (y ≤ x + y - x * y)
bit_or_bit zero y lx ly = (omega arith, omega arith, omega arith)
bit_or_bit (suc zero) y lx ly = (omega arith, omega arith, omega arith)
bit_or_bit (suc (suc x)) y lx ly = absurd (omega arith)

bit_or-lt : (w a b : ℕ) → bit_or w a b < 2 ^ w
unfolding bit_or
bit_or-lt zero a b = omega arith
bit_or-lt (suc w) a b =
    let bit = bit_or_bit (a % 2) (b % 2) (omega arith) (omega arith) in
    omega (arith, bit_or-lt w (a / 2) (b / 2), pow-suc 2 w, bit.0)

bit_or_zero : (w a b : ℕ) → a < 2 ^ w → b < 2 ^ w → bit_or w a b ≡ 0 → (a ≡ 0) × (b ≡ 0)
unfolding bit_or
bit_or_zero zero a b la lb e = (omega arith, omega arith)
bit_or_zero (suc w) a b la lb e =
    let bit = bit_or_bit (a % 2) (b % 2) (omega arith) (omega arith) in
    let rest =
      bit_or_zero w (a / 2) (b / 2) (omega (arith, pow-suc 2 w)) (omega (arith, pow-suc 2 w))
        (omega arith) in
    (omega (arith, bit.1, rest.0), omega (arith, bit.2, rest.1))

bit_or_zeros : (w : ℕ) → bit_or w 0 0 ≡ 0
unfolding bit_or
bit_or_zeros zero = refl
bit_or_zeros (suc w) = omega (arith, bit_or_zeros w)

-- The code units fit 16 bits.
abbrev pub AreUnits : Text → Type 0
AreUnits = All (λ c. c < 65536)

difference_self : (t : Text) → difference t t 0 ≡ 0
unfolding difference
difference_self [] = refl
difference_self (c ∷ t) = rw (bit_xor_self 16 c, bit_or_zeros 16) (difference_self t)

difference_zero :
    (left right : Text) (acc : ℕ)
    → AreUnits left
    → AreUnits right
    → length left ≡ length right
    → acc < 65536
    → difference left right acc ≡ 0
    → (acc ≡ 0) × (left ≡ right)
unfolding difference
difference_zero [] [] acc hl hr n small e = (e, refl)
difference_zero [] (b ∷ right) acc hl hr n small e = absurd (omega arith)
difference_zero (a ∷ left) [] acc hl hr n small e = absurd (omega arith)
difference_zero (a ∷ left) (b ∷ right) acc (la, hl) (lb, hr) n small e =
    let rest =
      difference_zero left right (bit_or 16 acc (bit_xor 16 a b)) hl hr (omega arith)
        (bit_or-lt 16 acc (bit_xor 16 a b)) e in
    let both = bit_or_zero 16 acc (bit_xor 16 a b) small (bit_xor-lt 16 a b) rest.0 in
    let same = bit_xor_zero 16 a b la lb both.1 in let tails = rest.1 in (both.0, cc)

-- The comparison that looks at every code unit answers as equality does, on texts of 16-bit code
-- units.
pub fixed_length_equal_iff :
    (left right : Text)
    → AreUnits left
    → AreUnits right
    → (fixed_length_equal left right ≡ true) ↔ (left ≡ right)
unfolding fixed_length_equal
fixed_length_equal_iff left right hl hr = (
  (λ e.
      (difference_zero left right 0 hl hr
        ((nat_eq.beq_iff (length left) (length right)).0 (ground arith)) (omega arith)
        ((nat_eq.beq_iff (difference left right 0) 0).0 (ground arith))).1),
  λ e. rw e (ground (arith, nat_eq.beq_iff (length right) (length right), difference_self right)),
)

units-AreUnits : (c : ℕ) → AreUnits (units c)
units-AreUnits c = by_test (ltb c 65536) refl
  where
    by_test :
        (test : Bool)
        → ltb c 65536 ≡ test
        → AreUnits (
            if test
            then c ∷ []
            else (55296 + (c - 65536) / 1024 % 1024) ∷ (56320 + (c - 65536) % 1024) ∷ [])
    by_test true e = (ground (arith, e), tt)
    by_test false e = (omega arith, (omega arith, tt))

-- A string of JavaScript consists of 16-bit code units.
pub codes-AreUnits : (s : String) → AreUnits (codes s)
codes-AreUnits String.[] = tt
codes-AreUnits (String.◌∷◌ c s) =
    All-append (λ u. u < 65536) (units (code c)) (codes s) (units-AreUnits (code c))
      (codes-AreUnits s)
