-- ===== src/Utilities/Base64/Tables.antt =====
-- The tables of base64 and the bits of a group, value by value.
use Prim.Native.Nat.{bit_and}
use da4qi.Base.{
  ℕ, ◌/◌, ◌<◌, Bool, true, false, not, Option, none, some, ◌==◌, ==_iff, get_or, ◌≡◌, refl, ap,
  arith,
}
use da4qi.Base.Bits.{true_below, true_below_lem, eq_below}
use da4qi.Utilities.Base64.{get_inverse, tab, equals_sign}

high_six : true_below 256 (λ x. bit_and x 0xfc / 4 == x / 4) ≡ true
unfolding true_below
high_six = refl

high_four : true_below 256 (λ x. bit_and x 0xf0 / 16 == x / 16) ≡ true
unfolding true_below
high_four = refl

high_two : true_below 256 (λ x. bit_and x 0xc0 / 64 == x / 64) ≡ true
unfolding true_below
high_two = refl

upper_two : true_below 64 (λ x. bit_and x 0x30 / 16 == x / 16) ≡ true
unfolding true_below
upper_two = refl

upper_four : true_below 64 (λ x. bit_and x 0x3c / 4 == x / 4) ≡ true
unfolding true_below
upper_four = refl

pub bits_high :
    (x : ℕ)
    → x < 256
    → (bit_and x 0xfc / 4 ≡ x / 4) × (bit_and x 0xf0 / 16 ≡ x / 16) × (bit_and x 0xc0 / 64 ≡ x / 64)
bits_high x h = (
  eq_below 256 (λ x. bit_and x 0xfc / 4) (λ x. x / 4) high_six x h,
  eq_below 256 (λ x. bit_and x 0xf0 / 16) (λ x. x / 16) high_four x h,
  eq_below 256 (λ x. bit_and x 0xc0 / 64) (λ x. x / 64) high_two x h,
)

pub bits_upper : (x : ℕ) → x < 64 → (bit_and x 0x30 / 16 ≡ x / 16) × (bit_and x 0x3c / 4 ≡ x / 4)
bits_upper x h = (
  eq_below 64 (λ x. bit_and x 0x30 / 16) (λ x. x / 16) upper_two x h,
  eq_below 64 (λ x. bit_and x 0x3c / 4) (λ x. x / 4) upper_four x h,
)

-- Each of the 64 characters is not the padding and has its value in the inverse table.
alphabet : true_below 64 (λ v. not (tab v == equals_sign)) ≡ true
unfolding true_below tab
alphabet = refl

abbrev holds : Option ℕ → ℕ → Bool
holds none v = false
holds (some w) v = w == v

holds-some : (o : Option ℕ) (v : ℕ) → holds o v ≡ true → o ≡ some v
holds-some none v h = ground arith
holds-some (some w) v h = ap some ((==_iff w v).0 h)

inverse : true_below 64 (λ v. holds (get_or get_inverse (tab v) none) v) ≡ true
unfolding true_below tab get_inverse
inverse = refl

pub tab-equals_sign : (v : ℕ) → v < 64 → (tab v == equals_sign) ≡ false
tab-equals_sign v h = ground (arith, true_below_lem _ alphabet h)

pub inverse-tab : (v : ℕ) → v < 64 → get_or get_inverse (tab v) none ≡ some v
inverse-tab v h = holds-some _ v (true_below_lem _ inverse h)
