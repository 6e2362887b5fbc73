-- ===== src/Crc32/Bits.antt =====
-- The binary digits of numbers, lowest first, and what `^` and `&` do to them.
use syncwire.Common.{
  ℕ, zero, suc, ◌+◌, ◌*◌, ◌/◌, ◌%◌, ◌^◌, ◌≤◌, ◌<◌, ◌≡◌, refl, ap, sym, ◌∙◌, Bool, true, false, List,
  [], ◌∷◌, ◌++◌, ◌==◌, length, arith,
}
use Prim.Native.Nat.{min, bit_and, bit_xor, digits, differ, bit_and-bitwise, bit_xor-bitwise}
use native.Mathlib.Nat.{pow-suc}

-- Exclusive or of bits, and of a list of bits with those of another that are in reach of it.
abbrev pub xor : Bool → Bool → Bool
xor true true = false
xor true false = true
xor false b = b

abbrev pub xor_bits : List Bool → List Bool → List Bool
xor_bits xs [] = xs
xor_bits [] (y ∷ ys) = []
xor_bits (x ∷ xs) (y ∷ ys) = xor x y ∷ xor_bits xs ys

unfoldable pub bits : ℕ → ℕ → List Bool
bits zero n = []
bits (suc k) n = (n % 2 == 1) ∷ bits k (n / 2)

pub length-bits : (k n : ℕ) → length (bits k n) ≡ k
unfolding bits
length-bits zero n = refl
length-bits (suc k) n = ap suc (length-bits k (n / 2))

abbrev xor_digits : ℕ → ℕ → ℕ → ℕ
xor_digits n a b = digits (λ b. b) differ n a b

xor_digits_fuel : (n m a b : ℕ) → a ≤ n → a ≤ m → xor_digits n a b ≡ xor_digits m a b
xor_digits_fuel zero zero a b p q = refl
xor_digits_fuel zero (suc m) zero b p q = refl
xor_digits_fuel zero (suc m) (suc a) b p q = absurd (omega arith)
xor_digits_fuel (suc n) zero zero b p q = refl
xor_digits_fuel (suc n) zero (suc a) b p q = absurd (omega arith)
xor_digits_fuel (suc n) (suc m) zero b p q = refl
xor_digits_fuel (suc n) (suc m) (suc a) b p q =
    ap (λ (k : ℕ). k * 2 + differ (suc a % 2) (b % 2))
      (xor_digits_fuel n m (suc a / 2) (b / 2) (omega arith) (omega arith))

zero-bit_xor : (b : ℕ) → bit_xor 0 b ≡ b
zero-bit_xor b = bit_xor-bitwise 0 b

bit_xor_step : (a b : ℕ) → bit_xor a b ≡ bit_xor (a / 2) (b / 2) * 2 + differ (a % 2) (b % 2)
bit_xor_step zero b = omega (arith, zero-bit_xor b, zero-bit_xor (b / 2))
bit_xor_step (suc a) b =
    bit_xor-bitwise (suc a) b
    ∙ ap (λ (k : ℕ). k * 2 + differ (suc a % 2) (b % 2))
        (xor_digits_fuel a (suc a / 2) (suc a / 2) (b / 2) (omega arith) (omega arith)
          ∙ sym (bit_xor-bitwise (suc a / 2) (b / 2)))

abbrev and_digits : ℕ → ℕ → ℕ → ℕ
and_digits n a b = digits (λ b. zero) min n a b

and_digits-zero : (n a : ℕ) → and_digits n a 0 ≡ 0
and_digits-zero zero a = refl
and_digits-zero (suc n) zero = refl
and_digits-zero (suc n) (suc a) = omega (arith, and_digits-zero n (suc a / 2))

pub bit_and-one : (a : ℕ) → bit_and a 1 ≡ a % 2
bit_and-one zero = bit_and-bitwise 0 1
bit_and-one (suc a) = omega (arith, bit_and-bitwise (suc a) 1, and_digits-zero a (suc a / 2))

differ_bits :
    (x y : ℕ) → x < 2 → y < 2 → (differ x y < 2) × ((differ x y == 1) ≡ xor (x == 1) (y == 1))
differ_bits zero zero p q = (omega arith, refl)
differ_bits zero (suc zero) p q = (omega arith, refl)
differ_bits (suc zero) zero p q = (omega arith, refl)
differ_bits (suc zero) (suc zero) p q = (omega arith, refl)
differ_bits zero (suc (suc y)) p q = absurd (omega arith)
differ_bits (suc zero) (suc (suc y)) p q = absurd (omega arith)
differ_bits (suc (suc x)) y p q = absurd (omega arith)

pub bits-xor : (k a b : ℕ) → bits k (bit_xor a b) ≡ xor_bits (bits k a) (bits k b)
unfolding bits
bits-xor zero a b = refl
bits-xor (suc k) a b =
    let (small, same) = differ_bits (a % 2) (b % 2) (omega arith) (omega arith) in
    let low : bit_xor a b % 2 ≡ differ (a % 2) (b % 2) = omega (arith, bit_xor_step a b, small) in
    let high : bit_xor a b / 2 ≡ bit_xor (a / 2) (b / 2) = omega (arith, bit_xor_step a b, small) in
    λ i.
      ((ap (λ (n : ℕ). n == 1) low ∙ same) i) ∷ ((ap (bits k) high ∙ bits-xor k (a / 2) (b / 2)) i)

pub bit_xor-lt : (k a b : ℕ) → a < 2 ^ k → b < 2 ^ k → bit_xor a b < 2 ^ k
bit_xor-lt zero a b p q =
    let a0 : a ≡ 0 = omega arith in let b0 : b ≡ 0 = omega arith in rw (a0, b0) (omega arith)
bit_xor-lt (suc k) a b p q =
    let (small, same) = differ_bits (a % 2) (b % 2) (omega arith) (omega arith) in
    omega (
      arith,
      pow-suc 2 k,
      bit_xor_step a b,
      small,
      bit_xor-lt k (a / 2) (b / 2) (omega (arith, pow-suc 2 k)) (omega (arith, pow-suc 2 k)),
    )

abbrev pub plus : ℕ → ℕ → ℕ
plus zero d = d
plus (suc k) d = suc (plus k d)

-- A number below 2 ^ k has no digits from the k-th on.
pub bits_wide : (k d n : ℕ) → n < 2 ^ k → bits (plus k d) n ≡ bits k n ++ bits d 0
unfolding bits
bits_wide zero d n small = ap (bits d) {x = n} {y = 0} (omega arith)
bits_wide (suc k) d n small =
    ap (◌∷◌ (n % 2 == 1)) (bits_wide k d (n / 2) (omega (arith, pow-suc 2 k)))

-- Halving shifts the digits.
pub bits_shift : (k n : ℕ) → n < 2 ^ suc k → bits (suc k) (n / 2) ≡ bits k (n / 2) ++ (false ∷ [])
unfolding bits
bits_shift zero n small = ap (bits 1) {x = n / 2} {y = 0} (omega arith)
bits_shift (suc k) n small =
    ap (◌∷◌ (n / 2 % 2 == 1)) (bits_shift k (n / 2) (omega (arith, pow-suc 2 (suc k))))

pub bits-zero : (k : ℕ) → (xs : List Bool) → xor_bits xs (bits k 0) ≡ xs
unfolding bits
bits-zero zero xs = refl
bits-zero (suc k) [] = refl
bits-zero (suc k) (true ∷ xs) = ap (◌∷◌ true) (bits-zero k xs)
bits-zero (suc k) (false ∷ xs) = ap (◌∷◌ false) (bits-zero k xs)
