-- ===== src/Wire/Laws.antt =====
-- The value that the readers of Wire give, as a sum, and what they read behind a prefix.
use syncwire.Common.{
  ℕ, zero, suc, ◌+◌, ◌*◌, ◌/◌, ◌%◌, ◌^◌, ◌<◌, ◌≤◌, ◌≡◌, refl, ap, ◌∙◌, List, [], ◌∷◌, ◌++◌, arith,
  All, All-get_or, length, take, get_or-append_right, length-append,
}
use syncwire.Common.Bits.{bit_or_sum}
use syncwire.Wire.{
  IsByte, IsU16, IsU32, IsU64, get_u8, be_loop, get_u16, get_u32, get_u64, append_u16, append_u32,
  append_u64,
}
use Prim.Native.Nat.{bit_or}
use mathlib.Core.Path.{ap₂, sym}
use mathlib.Core.List.{append_assoc}
use native.Mathlib.Nat.{pow-suc, one-le-pow}

pub get_u8-lt : (bytes : List ℕ) (i : ℕ) → All IsByte bytes → get_u8 bytes i < 256
unfolding get_u8
get_u8-lt bytes i h = All-get_or IsByte bytes i 0 h (omega arith)

-- One shift by a byte, in a word that the result fits.
shift_in : (m v b : ℕ) → v * 256 < m → b < 256 → bit_or (v * 2 ^ 8 % m) b ≡ v * 256 + b
shift_in m v b fits hb = ground (arith, bit_or_sum 8 v b, small)
  where
    small : v * 2 ^ 8 % m ≡ v * 2 ^ 8
    small = grind arith

mul_mono_left : (a b c : ℕ) → a ≤ b → a * c ≤ b * c
mul_mono_left a b c h = grind arith

mul_mono_right : (a : ℕ) {b c : ℕ} → b ≤ c → a * b ≤ a * c
mul_mono_right a h = grind arith

-- The digits of base 256 that a loop of `n` rounds adds to `v`.
unfoldable pub be_sum : ℕ → List ℕ → ℕ → ℕ → ℕ
be_sum zero bytes p v = v
be_sum (suc n) bytes p v = be_sum n bytes (p + 1) (v * 256 + get_u8 bytes p)

be_loop-be_sum :
    (m n : ℕ) (bytes : List ℕ) (p v : ℕ)
    → All IsByte bytes
    → (v + 1) * 256 ^ n < m + 1
    → be_loop m n bytes p v ≡ be_sum n bytes p v
unfolding be_loop be_sum
be_loop-be_sum m zero bytes p v h fits = refl
be_loop-be_sum m (suc n) bytes p v h fits =
    rw (shift_in m v (get_u8 bytes p) room byte)
      (be_loop-be_sum m n bytes (p + 1) (v * 256 + get_u8 bytes p) h fits')
  where
    byte : get_u8 bytes p < 256
    byte = get_u8-lt bytes p h

    grow : (v + 1) * 256 ^ suc n ≡ (v + 1) * 256 * 256 ^ n
    grow = omega (arith, ap (λ (t : ℕ). (v + 1) * t) (pow-suc 256 n))

    least : (v + 1) * 256 * 1 ≤ (v + 1) * 256 * 256 ^ n
    least = mul_mono_right ((v + 1) * 256) (one-le-pow n 256 (omega arith))

    room : v * 256 < m
    room = omega (arith, grow, least)

    fits' : (v * 256 + get_u8 bytes p + 1) * 256 ^ n < m + 1
    fits' = omega (
      arith,
      grow,
      mul_mono_left (v * 256 + get_u8 bytes p + 1) ((v + 1) * 256) (256 ^ n) (omega (arith, byte)),
    )

-- Reading behind a prefix.
pub be_loop-append_right :
    (m n : ℕ) (xs ys : List ℕ) (p k v : ℕ)
    → p ≡ length xs + k
    → be_loop m n (xs ++ ys) p v ≡ be_loop m n ys k v
unfolding be_loop
be_loop-append_right m zero xs ys p k v h = refl
be_loop-append_right m (suc n) xs ys p k v h =
    rw (get_or-append_right xs ys p k 0 h)
      (be_loop-append_right m n xs ys (p + 1) (k + 1) _ (omega arith))

pub get_u16-append_right :
    (xs ys : List ℕ) (p k : ℕ) → p ≡ length xs + k → get_u16 (xs ++ ys) p ≡ get_u16 ys k
unfolding get_u16
get_u16-append_right xs ys p k h =
    rw
      (get_or-append_right xs ys p k 0 h, get_or-append_right xs ys (p + 1) (k + 1) 0 (omega arith))

pub get_u32-append_right :
    (xs ys : List ℕ) (p k : ℕ) → p ≡ length xs + k → get_u32 (xs ++ ys) p ≡ get_u32 ys k
unfolding get_u32
get_u32-append_right xs ys p k h = be_loop-append_right (2 ^ 32) 4 xs ys p k 0 h

pub get_u64-append_right :
    (xs ys : List ℕ) (p k : ℕ) → p ≡ length xs + k → get_u64 (xs ++ ys) p ≡ get_u64 ys k
unfolding get_u64
get_u64-append_right xs ys p k h = be_loop-append_right (2 ^ 64) 8 xs ys p k 0 h

-- The three readers, as sums.
pub get_u16_sum :
    (bytes : List ℕ) (p : ℕ)
    → All IsByte bytes
    → get_u16 bytes p ≡ get_u8 bytes p * 256 + get_u8 bytes (p + 1)
unfolding get_u16
get_u16_sum bytes p h = ground (
  arith,
  bit_or_sum 8 (get_u8 bytes p) (get_u8 bytes (p + 1)),
  get_u8-lt bytes p h,
  get_u8-lt bytes (p + 1) h,
)

pub get_u32_sum : (bytes : List ℕ) (p : ℕ) → All IsByte bytes → get_u32 bytes p ≡ be_sum 4 bytes p 0
unfolding get_u32
get_u32_sum bytes p h = be_loop-be_sum (2 ^ 32) 4 bytes p 0 h (omega arith)

pub get_u64_sum : (bytes : List ℕ) (p : ℕ) → All IsByte bytes → get_u64 bytes p ≡ be_sum 8 bytes p 0
unfolding get_u64
get_u64_sum bytes p h = be_loop-be_sum (2 ^ 64) 8 bytes p 0 h (omega arith)

be_sum-lt :
    (n : ℕ) (bytes : List ℕ) (p v : ℕ) → All IsByte bytes → be_sum n bytes p v < (v + 1) * 256 ^ n
unfolding be_sum
be_sum-lt zero bytes p v h = omega arith
be_sum-lt (suc n) bytes p v h = omega (
  arith,
  be_sum-lt n bytes (p + 1) (v * 256 + get_u8 bytes p) h,
  get_u8-lt bytes p h,
  ap (λ (t : ℕ). (v + 1) * t) (pow-suc 256 n),
  mul_mono_left (v * 256 + get_u8 bytes p + 1) ((v + 1) * 256) (256 ^ n)
      (omega (arith, get_u8-lt bytes p h)),
)

pub get_u16-lt : (bytes : List ℕ) (p : ℕ) → get_u16 bytes p < 2 ^ 16
unfolding get_u16
get_u16-lt bytes p = omega arith

pub get_u32-lt : (bytes : List ℕ) (p : ℕ) → All IsByte bytes → get_u32 bytes p < 2 ^ 32
get_u32-lt bytes p h = omega (arith, get_u32_sum bytes p h, be_sum-lt 4 bytes p 0 h)

pub get_u64-lt : (bytes : List ℕ) (p : ℕ) → All IsByte bytes → get_u64 bytes p < 2 ^ 64
get_u64-lt bytes p h = omega (arith, get_u64_sum bytes p h, be_sum-lt 8 bytes p 0 h)

-- What the writers append is read back.
pub get_u16-append_u16 : (rest : List ℕ) (v : ℕ) → IsU16 v → get_u16 (append_u16 [] v ++ rest) 0 ≡ v
unfolding get_u16 append_u16
get_u16-append_u16 rest v h = ground (arith, bit_or_sum 8 (v / 2 ^ 8 % 256) (v % 256))

-- One round, with the value after it under a name of its own.
be_loop_step :
    (m n : ℕ) (bytes : List ℕ) (p v w b : ℕ)
    → get_u8 bytes p ≡ b
    → b < 256
    → w ≡ v * 256 + b
    → w < m
    → be_loop m (suc n) bytes p v ≡ be_loop m n bytes (p + 1) w
unfolding be_loop
be_loop_step m n bytes p v w b e hb sum fits = rw (e, shift_in m v b (omega arith) hb, sum)

pub get_u32-append_u32 : (rest : List ℕ) (v : ℕ) → IsU32 v → get_u32 (append_u32 [] v ++ rest) 0 ≡ v
unfolding get_u32 append_u32 be_loop
get_u32-append_u32 rest v h = ground (
  arith,
  shift_in (2 ^ 32) 0 (v / 2 ^ 24 % 256),
  shift_in (2 ^ 32) (v / 2 ^ 24) (v / 2 ^ 16 % 256),
  shift_in (2 ^ 32) (v / 2 ^ 16) (v / 2 ^ 8 % 256),
  shift_in (2 ^ 32) (v / 2 ^ 8) (v / 2 ^ 0 % 256),
)

pub get_u64-append_u64 : (rest : List ℕ) (v : ℕ) → IsU64 v → get_u64 (append_u64 [] v ++ rest) 0 ≡ v
unfolding get_u64 append_u64 get_u8
get_u64-append_u64 rest v h =
    round 7 0 0 (v / 2 ^ 56) (v / 2 ^ 56 % 256) refl (omega arith) (omega arith) (omega arith)
    ∙ round 6 1 (v / 2 ^ 56) (v / 2 ^ 48) (v / 2 ^ 48 % 256) refl (omega arith) (omega arith)
        (omega arith)
    ∙ round 5 2 (v / 2 ^ 48) (v / 2 ^ 40) (v / 2 ^ 40 % 256) refl (omega arith) (omega arith)
        (omega arith)
    ∙ round 4 3 (v / 2 ^ 40) (v / 2 ^ 32) (v / 2 ^ 32 % 256) refl (omega arith) (omega arith)
        (omega arith)
    ∙ round 3 4 (v / 2 ^ 32) (v / 2 ^ 24) (v / 2 ^ 24 % 256) refl (omega arith) (omega arith)
        (omega arith)
    ∙ round 2 5 (v / 2 ^ 24) (v / 2 ^ 16) (v / 2 ^ 16 % 256) refl (omega arith) (omega arith)
        (omega arith)
    ∙ round 1 6 (v / 2 ^ 16) (v / 2 ^ 8) (v / 2 ^ 8 % 256) refl (omega arith) (omega arith)
        (omega arith)
    ∙ round 0 7 (v / 2 ^ 8) v (v / 2 ^ 0 % 256) refl (omega arith) (omega arith) h
    ∙ unfold be_loop in refl
  where
    round :
        (n p v' w b : ℕ)
        → get_u8 (append_u64 [] v ++ rest) p ≡ b
        → b < 256
        → w ≡ v' * 256 + b
        → w < 2 ^ 64
        → be_loop (2 ^ 64) (suc n) (append_u64 [] v ++ rest) p v'
          ≡ be_loop (2 ^ 64) n (append_u64 [] v ++ rest) (p + 1) w
    round n p v' w b = be_loop_step (2 ^ 64) n (append_u64 [] v ++ rest) p v' w b

-- The writers write bytes.
pub append_u16-IsByte : (v : ℕ) → All IsByte (append_u16 [] v)
unfolding append_u16
append_u16-IsByte v = omega arith

pub append_u32-IsByte : (v : ℕ) → All IsByte (append_u32 [] v)
unfolding append_u32
append_u32-IsByte v = omega arith

pub append_u64-IsByte : (v : ℕ) → All IsByte (append_u64 [] v)
unfolding append_u64
append_u64-IsByte v = omega arith

-- What is read is written back as it stood.
pub append_u16-get_u16 :
    (bytes : List ℕ) (p : ℕ)
    → All IsByte bytes
    → append_u16 [] (get_u16 bytes p) ≡ get_u8 bytes p ∷ get_u8 bytes (p + 1) ∷ []
unfolding append_u16
append_u16-get_u16 bytes p h =
    ground (arith, get_u16_sum bytes p h, get_u8-lt bytes p h, get_u8-lt bytes (p + 1) h)

pub append_u32-get_u32 :
    (bytes : List ℕ) (p : ℕ)
    → All IsByte bytes
    → append_u32 [] (get_u32 bytes p)
      ≡ get_u8 bytes p ∷ get_u8 bytes (p + 1) ∷ get_u8 bytes (p + 2) ∷ get_u8 bytes (p + 3) ∷ []
unfolding append_u32 be_sum
append_u32-get_u32 bytes p h = ground (
  arith,
  get_u32_sum bytes p h,
  get_u8-lt bytes p h,
  get_u8-lt bytes (p + 1) h,
  get_u8-lt bytes (p + 1 + 1) h,
  get_u8-lt bytes (p + 1 + 1 + 1) h,
)

pub append_u64-get_u64 :
    (bytes : List ℕ) (p : ℕ)
    → All IsByte bytes
    → append_u64 [] (get_u64 bytes p)
      ≡ get_u8 bytes p
        ∷ get_u8 bytes (p + 1)
        ∷ get_u8 bytes (p + 2)
        ∷ get_u8 bytes (p + 3)
        ∷ get_u8 bytes (p + 4)
        ∷ get_u8 bytes (p + 5)
        ∷ get_u8 bytes (p + 6)
        ∷ get_u8 bytes (p + 7)
        ∷ []
unfolding append_u64 be_sum
append_u64-get_u64 bytes p h = ground (
  arith,
  get_u64_sum bytes p h,
  get_u8-lt bytes p h,
  get_u8-lt bytes (p + 1) h,
  get_u8-lt bytes (p + 1 + 1) h,
  get_u8-lt bytes (p + 1 + 1 + 1) h,
  get_u8-lt bytes (p + 1 + 1 + 1 + 1) h,
  get_u8-lt bytes (p + 1 + 1 + 1 + 1 + 1) h,
  get_u8-lt bytes (p + 1 + 1 + 1 + 1 + 1 + 1) h,
  get_u8-lt bytes (p + 1 + 1 + 1 + 1 + 1 + 1 + 1) h,
)

-- The `n` bytes from `p` on, read one by one.
abbrev pub read_run : ℕ → ℕ → List ℕ → List ℕ
read_run zero p bytes = []
read_run (suc n) p bytes = get_u8 bytes p ∷ read_run n (p + 1) bytes

pub take-read_run :
    (n : ℕ) (xs bytes : List ℕ) (p : ℕ)
    → p ≡ length xs
    → n ≤ length bytes
    → take n bytes ≡ read_run n p (xs ++ bytes)
take-read_run zero xs bytes p e h = refl
take-read_run (suc n) xs [] p e h = absurd (omega arith)
take-read_run (suc n) xs (b ∷ bytes) p e h =
    ap₂ ◌∷◌ (unfold get_u8 in sym (get_or-append_right xs (b ∷ bytes) p 0 0 (omega arith))) (
      take-read_run n (xs ++ (b ∷ [])) bytes (p + 1) (omega (arith, length-append xs (b ∷ [])))
        (omega arith)
      ∙ ap (read_run n (p + 1)) (append_assoc xs (b ∷ []) bytes))
