-- ===== src/Crc32/Division.antt =====
-- CRC-32 as the remainder of a division of polynomials over two elements, the independent reading of
-- src/common/crc32.cpp: a polynomial is the list of its coefficients, the highest first.
use syncwire.Common.{
  ℕ, zero, suc, Bool, true, false, not, ◌||◌, List, [], ◌∷◌, ◌++◌, ◌==◌, length, replicate, map,
}
use syncwire.Crc32.Bits.{xor_bits, bits}

-- The terms of the generator of IEEE 802.3 below x ^ 32.
abbrev exponents : List ℕ
exponents = 26 ∷ 23 ∷ 22 ∷ 16 ∷ 12 ∷ 11 ∷ 10 ∷ 8 ∷ 7 ∷ 5 ∷ 4 ∷ 2 ∷ 1 ∷ 0 ∷ []

abbrev has_term : ℕ → List ℕ → Bool
has_term d [] = false
has_term d (e ∷ es) = d == e || has_term d es

abbrev descending : ℕ → List Bool
descending zero = []
descending (suc d) = has_term d exponents ∷ descending d

unfoldable pub generator : List Bool
generator = descending 32

-- Long division: us many leading coefficients us there are steps are taken away.
unfoldable pub remainder : ℕ → List Bool → List Bool
unfolding generator
remainder zero coefficients = coefficients
remainder (suc steps) [] = []
remainder (suc steps) (true ∷ rest) = remainder steps (xor_bits rest generator)
remainder (suc steps) (false ∷ rest) = remainder steps rest

-- The bits of the bytes in the order of transmission, lowest first.
unfoldable pub message_bits : List ℕ → List Bool
unfolding bits
message_bits [] = []
message_bits (byte ∷ bytes) = bits 8 byte ++ message_bits bytes

-- The complement of the remainder of the message times x ^ 32, with its first 32 coefficients
-- complemented.
unfoldable pub crc_bits : List ℕ → List Bool
unfolding remainder message_bits
crc_bits bytes = map not (
    remainder (length (message_bits bytes))
      (xor_bits (message_bits bytes ++ replicate 32 false) (replicate 32 true)))
