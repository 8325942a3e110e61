-- ===== src/Common/Word.antt =====
-- Fixed-width unsigned values, shifts, and facts about the bit operations of C.
use Prim.Native.Nat.{
  ℕ, zero, suc, ◌+◌, ◌-◌, ◌*◌, ◌/◌, ◌%◌, ◌^◌, ◌≤◌, ◌<◌, min, max, bit_and, bit_or, digits,
  bit_and-bitwise, bit_or-bitwise,
}
use mathlib.Core.Path.{◌≡◌, refl, ap, ◌∙◌}
use mathlib.Core.Option.{Option, none, some}
use native.Mathlib.Nat.{pow-suc}
use native.Mathlib.Omega.{arith}

abbrev pub u8 : ℕ → ℕ
u8 n = n % 2 ^ 8

abbrev pub u16 : ℕ → ℕ
u16 n = n % 2 ^ 16

abbrev pub u32 : ℕ → ℕ
u32 n = n % 2 ^ 32

infixl 75 ◌<<<◌ ◌>>>◌
abbrev pub ◌<<<◌ : ℕ → ℕ → ℕ
x <<< k = x * 2 ^ k

abbrev pub ◌>>>◌ : ℕ → ℕ → ℕ
x >>> k = x / 2 ^ k

-- `a - b` on uint32_t.
abbrev pub sub32 : ℕ → ℕ → ℕ
sub32 a b = (a + 2 ^ 32 - b) % 2 ^ 32

-- A chain of steps each of which may be undefined behaviour.
infixl 5 ◌>>=◌
abbrev pub ◌>>=◌ {ℓ κ} : {A : Type ℓ} {B : Type κ} → Option A → (A → Option B) → Option B
none >>= f = none
some a >>= f = f a

-- Digit by digit, with enough digits to go: one beyond those of the first operand adds nothing.
module _ (z : ℕ → ℕ) (f : ℕ → ℕ → ℕ) where
  one_digit_more : (n x y : ℕ) → x ≤ n → digits z f (suc n) x y ≡ digits z f n x y
  one_digit_more zero zero y h = refl
  one_digit_more (suc n) zero y h = refl
  one_digit_more zero (suc x) y h = elim h [ ]
  one_digit_more (suc n) (suc x) y h =
      ap (λ (m : ℕ). m * 2 + f (suc x % 2) (y % 2))
        (one_digit_more n (suc x / 2) (y / 2) (omega arith))

  more_digits : (k n x y : ℕ) → x ≤ n → digits z f (k + n) x y ≡ digits z f n x y
  more_digits zero n x y h = let e : 0 + n ≡ n = omega arith in rw e refl
  more_digits (suc k) n x y h =
      let e : suc k + n ≡ suc (k + n) = omega arith in
      rw e (one_digit_more (k + n) x y (omega arith) ∙ more_digits k n x y h)

-- The lowest digits, and twice the conjunction of the others.
pub bit_and_halves : (x y : ℕ) → bit_and x y ≡ min (x % 2) (y % 2) + 2 * bit_and (x / 2) (y / 2)
bit_and_halves zero y =
    let whole = bit_and-bitwise 0 y in
    let upper = bit_and-bitwise 0 (y / 2) in omega (arith, whole, upper)
bit_and_halves (suc x) y =
    let half = suc x / 2 in
    let spare : x - half + half ≡ x = omega arith in
    let upper =
      rw spare at (more_digits (λ b. zero) min (x - half) half half (y / 2) (omega arith)) in
    let whole = bit_and-bitwise (suc x) y in
    let halved = bit_and-bitwise half (y / 2) in omega (arith, upper, whole, halved)

-- A value below a power of two is kept by the mask of the ones below it.
pub bit_and_ones : (k x : ℕ) → x < 2 ^ k → bit_and x (2 ^ k - 1) ≡ x
bit_and_ones zero zero h = refl
bit_and_ones zero (suc x) h = absurd (omega arith)
bit_and_ones (suc k) x h =
    let power = pow-suc 2 k in
    let some_power = positive k in
    let mask : (2 ^ suc k - 1) / 2 ≡ 2 ^ k - 1 = omega (arith, power) in
    let upper = bit_and_ones k (x / 2) (omega (arith, power)) in
    let same = ap (λ (m : ℕ). bit_and (x / 2) m) mask in
    let split = bit_and_halves x (2 ^ suc k - 1) in
    omega (arith, power, some_power, upper, same, split)
  where
    positive : (j : ℕ) → 1 ≤ 2 ^ j
    positive zero = omega arith
    positive (suc j) = omega (arith, pow-suc 2 j, positive j)

-- `n & ~3U`: the multiple of four at or below `n`.
pub bit_and_not_three : (n : ℕ) → n < 2 ^ 32 → bit_and n 0xffff_fffc ≡ n - n % 4
bit_and_not_three n h =
    let low = bit_and_halves n 0xffff_fffc in
    let next = bit_and_halves (n / 2) 0x7fff_fffe in
    let rest = bit_and_ones 30 (n / 2 / 2) (omega arith) in omega (arith, low, next, rest)

no_digits : (n x : ℕ) → digits (λ b. zero) min n x 0 ≡ 0
no_digits zero x = refl
no_digits (suc n) zero = refl
no_digits (suc n) (suc x) = let upper = no_digits n (suc x / 2) in omega (arith, upper)

-- `x & 3`.
pub bit_and_three : (x : ℕ) → bit_and x 3 ≡ x % 4
bit_and_three x =
    let low = bit_and_halves x 3 in
    let next = bit_and_halves (x / 2) 1 in
    let rest = bit_and-bitwise (x / 2 / 2) 0 ∙ no_digits (x / 2 / 2) (x / 2 / 2) in
    omega (arith, low, next, rest)

-- The lowest digits, and twice the disjunction of the others.
pub bit_or_halves : (x y : ℕ) → bit_or x y ≡ max (x % 2) (y % 2) + 2 * bit_or (x / 2) (y / 2)
bit_or_halves zero y =
    let whole = bit_or-bitwise 0 y in
    let upper = bit_or-bitwise 0 (y / 2) in omega (arith, whole, upper)
bit_or_halves (suc x) y =
    let half = suc x / 2 in
    let spare : x - half + half ≡ x = omega arith in
    let upper = rw spare at (more_digits (λ b. b) max (x - half) half half (y / 2) (omega arith)) in
    let whole = bit_or-bitwise (suc x) y in
    let halved = bit_or-bitwise half (y / 2) in omega (arith, upper, whole, halved)

-- `k` more zeros at the low end.
abbrev shift : ℕ → ℕ → ℕ
shift zero a = a
shift (suc k) a = 2 * shift k a

own_digits : (n x : ℕ) → x ≤ n → digits (λ b. b) max n x 0 ≡ x
own_digits zero zero h = refl
own_digits zero (suc x) h = elim h [ ]
own_digits (suc n) zero h = refl
own_digits (suc n) (suc x) h =
    let upper = own_digits n (suc x / 2) (omega arith) in omega (arith, upper)

bit_or-shift : (k a b : ℕ) → b < 2 ^ k → bit_or (shift k a) b ≡ shift k a + b
bit_or-shift zero a zero h =
    let whole = bit_or-bitwise a 0 in
    let own = own_digits a a (omega arith) in omega (arith, whole, own)
bit_or-shift zero a (suc b) h = absurd (omega arith)
bit_or-shift (suc k) a b h =
    let power = pow-suc 2 k in
    let half : 2 * shift k a / 2 ≡ shift k a = omega arith in
    let split = bit_or_halves (2 * shift k a) b in
    let upper = rw (← half) at (bit_or-shift k a (b / 2) (omega (arith, power))) in
    omega (arith, split, upper, half)

-- `(a << 8) | b` is the number with the bytes `a` and `b`.
pub bit_or_bytes : (a b : ℕ) → b < 2 ^ 8 → bit_or (a <<< 8) b ≡ 256 * a + b
bit_or_bytes a b h =
    let e : shift 8 a ≡ a <<< 8 = omega arith in omega (arith, rw e at (bit_or-shift 8 a b h))
