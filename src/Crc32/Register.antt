-- ===== src/Crc32/Register.antt =====
-- The division of src/common/crc32.cpp bit by bit: a register of 32 coefficients, which is what the long
-- division of Crc32/Division keeps of the bits behind.
use syncwire.Common.{
  ℕ, zero, suc, ◌≤◌, ◌≡◌, refl, ap, sym, ◌∙◌, Bool, true, false, not, List, [], ◌∷◌, ◌++◌, length,
  replicate, map, arith,
}
use syncwire.Crc32.Bits.{xor, xor_bits, bits, bits-zero}
use syncwire.Crc32.Division.{generator, remainder}

-- The division with a register of 32 bits.
unfoldable pub step : List Bool → Bool → List Bool
unfolding generator
step [] m = []
step (r ∷ rs) m = elim (xor m r) [
  | true ↦ xor_bits (rs ++ (false ∷ [])) generator
  | false ↦ rs ++ (false ∷ [])
]

unfoldable pub run : List Bool → List Bool → List Bool
unfolding step
run r [] = r
run r (m ∷ ms) = run (step r m) ms

pub run-append : (r xs ys : List Bool) → run r (xs ++ ys) ≡ run (run r xs) ys
unfolding run
run-append r [] ys = refl
run-append r (x ∷ xs) ys = run-append (step r x) xs ys

xor_assoc : (a b c : Bool) → xor (xor a b) c ≡ xor a (xor b c)
xor_assoc true true true = refl
xor_assoc true true false = refl
xor_assoc true false true = refl
xor_assoc true false false = refl
xor_assoc false b c = refl

xor_comm : (a b : Bool) → xor a b ≡ xor b a
xor_comm true true = refl
xor_comm true false = refl
xor_comm false true = refl
xor_comm false false = refl

pub length-xor_bits : (xs ys : List Bool) → length (xor_bits xs ys) ≡ length xs
length-xor_bits xs [] = refl
length-xor_bits [] (y ∷ ys) = refl
length-xor_bits (x ∷ xs) (y ∷ ys) = ap suc (length-xor_bits xs ys)

xor_bits_assoc :
    (xs us vs : List Bool)
    → length us ≡ length vs
    → xor_bits (xor_bits xs us) vs ≡ xor_bits xs (xor_bits us vs)
xor_bits_assoc xs [] [] e = refl
xor_bits_assoc xs [] (b ∷ vs) e = absurd (omega arith)
xor_bits_assoc xs (a ∷ us) [] e = absurd (omega arith)
xor_bits_assoc [] (a ∷ us) (b ∷ vs) e = refl
xor_bits_assoc (x ∷ xs) (a ∷ us) (b ∷ vs) e =
    λ i. xor_assoc x a b i ∷ xor_bits_assoc xs us vs (omega arith) i

xor_bits_swap : (xs us vs : List Bool) → xor_bits (xor_bits xs us) vs ≡ xor_bits (xor_bits xs vs) us
xor_bits_swap xs [] vs = refl
xor_bits_swap xs (a ∷ us) [] = refl
xor_bits_swap [] (a ∷ us) (b ∷ vs) = refl
xor_bits_swap (x ∷ xs) (a ∷ us) (b ∷ vs) = λ i.
    (xor_assoc x a b ∙ ap (xor x) (xor_comm a b) ∙ sym (xor_assoc x b a)) i
    ∷ xor_bits_swap xs us vs i

pub xor_bits-append_zeros :
    (d : ℕ) (xs ys : List Bool) → xor_bits xs (ys ++ bits d 0) ≡ xor_bits xs ys
xor_bits-append_zeros d xs [] = bits-zero d xs
xor_bits-append_zeros d [] (y ∷ ys) = refl
xor_bits-append_zeros d (x ∷ xs) (y ∷ ys) = ap (◌∷◌ (xor x y)) (xor_bits-append_zeros d xs ys)

append_false-xor_bits :
    (xs ys : List Bool)
    → length ys ≤ length xs
    → xor_bits (xs ++ (false ∷ [])) ys ≡ xor_bits xs ys ++ (false ∷ [])
append_false-xor_bits xs [] h = refl
append_false-xor_bits [] (y ∷ ys) h = absurd (omega arith)
append_false-xor_bits (x ∷ xs) (y ∷ ys) h =
    ap (◌∷◌ (xor x y)) (append_false-xor_bits xs ys (omega arith))

zeros-xor_bits : (n : ℕ) (r : List Bool) → length r ≡ n → xor_bits (replicate n false) r ≡ r
zeros-xor_bits zero [] e = refl
zeros-xor_bits zero (r ∷ rs) e = absurd (omega arith)
zeros-xor_bits (suc n) [] e = absurd (omega arith)
zeros-xor_bits (suc n) (r ∷ rs) e = ap (◌∷◌ r) (zeros-xor_bits n rs (omega arith))

pub xor_bits-ones :
    (n : ℕ) (xs : List Bool) → length xs ≡ n → xor_bits xs (replicate n true) ≡ map not xs
xor_bits-ones zero [] e = refl
xor_bits-ones zero (x ∷ xs) e = absurd (omega arith)
xor_bits-ones (suc n) [] e = absurd (omega arith)
xor_bits-ones (suc n) (true ∷ xs) e = ap (◌∷◌ false) (xor_bits-ones n xs (omega arith))
xor_bits-ones (suc n) (false ∷ xs) e = ap (◌∷◌ true) (xor_bits-ones n xs (omega arith))

length-append_one : (xs : List Bool) → length (xs ++ (false ∷ [])) ≡ suc (length xs)
length-append_one [] = refl
length-append_one (x ∷ xs) = ap suc (length-append_one xs)

-- The division of a message is the run of the register over its bits.
pub remainder-run :
    (ms r : List Bool)
    → length r ≡ 32
    → remainder (length ms) (xor_bits (ms ++ replicate 32 false) r) ≡ run r ms
unfolding bits remainder run step
remainder-run [] r size = zeros-xor_bits 32 r size
remainder-run (m ∷ ms) [] size = absurd (omega arith)
remainder-run (m ∷ ms) (r ∷ rs) size = by_bit (xor m r) (remainder-run ms)
  where
    padded : List Bool
    padded = ms ++ replicate 32 false

    shifted : List Bool
    shifted = rs ++ (false ∷ [])

    long : length shifted ≡ 32
    long = length-append_one rs ∙ size

    by_bit :
        (b : Bool)
        → ((r' : List Bool)
            → length r' ≡ 32
            → remainder (length ms) (xor_bits padded r') ≡ run r' ms)
        → remainder (suc (length ms)) (b ∷ xor_bits padded rs)
          ≡ run
              (elim b as (λ x. List Bool) [ true ↦ xor_bits shifted generator | false ↦ shifted ])
              ms
    by_bit true ih =
        ap (remainder (length ms)) (
          ap (λ (l : List Bool). xor_bits l generator) (sym (xor_bits-append_zeros 1 padded rs))
          ∙ xor_bits_assoc padded shifted generator long)
        ∙ ih (xor_bits shifted generator) (length-xor_bits shifted generator ∙ long)
    by_bit false ih =
        ap (remainder (length ms)) (sym (xor_bits-append_zeros 1 padded rs)) ∙ ih shifted long

-- Bits that come later may as well be taken into the register at once.
step-xor_bits :
    (r m : Bool) (rs ms : List Bool)
    → length ms ≤ length rs
    → xor_bits (step (r ∷ rs) m) ms ≡ step (xor r m ∷ xor_bits rs ms) false
unfolding step
step-xor_bits r m rs ms h = by_bit (xor m r) ∙ ap taken (xor_comm m r)
  where
    taken : Bool → List Bool
    taken b = elim b as (λ x. List Bool) [
      | true ↦ xor_bits (xor_bits rs ms ++ (false ∷ [])) generator
      | false ↦ xor_bits rs ms ++ (false ∷ [])
    ]

    by_bit :
        (b : Bool)
        → xor_bits
            (elim b as (λ x. List Bool) [
              | true ↦ xor_bits (rs ++ (false ∷ [])) generator
              | false ↦ rs ++ (false ∷ [])
            ])
            ms
          ≡ taken b
    by_bit true =
        xor_bits_swap (rs ++ (false ∷ [])) generator ms
        ∙ ap (λ (l : List Bool). xor_bits l generator) (append_false-xor_bits rs ms h)
    by_bit false = append_false-xor_bits rs ms h

length-step : (r : Bool) (rs : List Bool) (m : Bool) → length (step (r ∷ rs) m) ≡ suc (length rs)
unfolding step
length-step r rs m = by_bit (xor m r)
  where
    by_bit :
        (b : Bool)
        → length (elim b as (λ x. List Bool) [
          | true ↦ xor_bits (rs ++ (false ∷ [])) generator
          | false ↦ rs ++ (false ∷ [])
        ])
          ≡ suc (length rs)
    by_bit true = length-xor_bits (rs ++ (false ∷ [])) generator ∙ length-append_one rs
    by_bit false = length-append_one rs

pub run-xor_bits :
    (ms r : List Bool)
    → length ms ≤ length r
    → run r ms ≡ run (xor_bits r ms) (replicate (length ms) false)
unfolding run
run-xor_bits [] r h = refl
run-xor_bits (m ∷ ms) [] h = absurd (omega arith)
run-xor_bits (m ∷ ms) (r ∷ rs) h =
    run-xor_bits ms (step (r ∷ rs) m) (omega (arith, length-step r rs m))
    ∙ ap (λ (l : List Bool). run l (replicate (length ms) false))
        (step-xor_bits r m rs ms (omega arith))
