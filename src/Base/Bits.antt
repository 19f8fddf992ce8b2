-- ===== src/Base/Bits.antt =====
-- Bit operations on bytes: facts checked on every value of a byte.
use Prim.Native.Nat.{ℕ, zero, suc, ◌<◌, bit_xor}
use mathlib.Core.Path.{◌≡◌, refl}
use mathlib.Core.Bool.{Bool, true, false}
use native.Mathlib.Omega.{arith}
use da4qi.Base.Tests.{◌==◌, ==_iff, if◌then◌else◌}

-- Whether a test holds of the numbers below a bound.
unfoldable pub true_below : ℕ → (ℕ → Bool) → Bool
true_below zero test = true
true_below (suc bound) test = if test bound then true_below bound test else false

pub true_below_lem : (test : ℕ → Bool) {n x : ℕ} → true_below n test ≡ true → x < n → test x ≡ true
unfolding true_below
true_below_lem test {n = zero} checked h = absurd (omega arith)
true_below_lem test {n = suc bound} {x = x} checked h =
    ground (arith, true_below_lem test {n = bound} {x = x})

xor_table : true_below 256 (λ x. true_below 256 (λ m. bit_xor (bit_xor x m) m == x)) ≡ true
unfolding true_below
xor_table = refl

pub bit_xor_twice : (x m : ℕ) → x < 256 → m < 256 → bit_xor (bit_xor x m) m ≡ x
bit_xor_twice x m hx hm = (==_iff _ x).0 (true_below_lem _ (true_below_lem _ xor_table hx) hm)

-- An equation between two functions of a number below `n`, from its table.
pub eq_below :
    (n : ℕ) (f g : ℕ → ℕ) → true_below n (λ x. f x == g x) ≡ true → (x : ℕ) → x < n → f x ≡ g x
eq_below n f g table x h = (==_iff _ _).0 (true_below_lem _ table h)
