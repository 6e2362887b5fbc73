-- ===== src/Crc32/Remainder.antt =====
-- src/common/crc32.cpp computes the remainder of Crc32/Division.
use syncwire.Common.{
  ℕ, zero, suc, ◌-◌, ◌/◌, ◌%◌, ◌^◌, ◌<◌, ◌≡◌, refl, ap, sym, subst, ◌∙◌, Bool, true, false, not,
  List, [], ◌∷◌, ◌==◌, length, replicate, map, arith, All, Bool-cases, inl, inr,
}
use Prim.Native.Nat.{bit_and, bit_xor}
use syncwire.Wire.{IsByte}
use syncwire.Crc32.{initial_state, bit_loop, update, value, crc32}
use syncwire.Crc32.Bits.{
  xor_bits, bits, length-bits, bit_and-one, bits-xor, bit_xor-lt, bits_wide, bits_shift,
}
use syncwire.Crc32.Division.{generator, message_bits, crc_bits}
use syncwire.Crc32.Register.{
  step, run, run-append, xor_bits-append_zeros, xor_bits-ones, remainder-run, run-xor_bits,
}

-- One round of the inner loop.
abbrev next_state : ℕ → ℕ
next_state state = bit_xor (state / 2) (bit_and 0xEDB88320 ((2 ^ 32 - bit_and state 1) % 2 ^ 32))

generator_digits : bits 32 0xEDB88320 ≡ generator
unfolding bits generator
generator_digits = refl

abbrev stepped : ℕ → ℕ → Bool → List Bool
stepped k s true = xor_bits (bits (suc k) (s / 2)) generator
stepped k s false = bits (suc k) (s / 2)

-- A step of the register on the digits of a state.
step-bits : (k s : ℕ) → s < 2 ^ suc k → step (bits (suc k) s) false ≡ stepped k s (s % 2 == 1)
unfolding bits step
step-bits k s small =
    ap
      (λ (shifted : List Bool). elim (s % 2 == 1) as (λ x. List Bool) [
        | true ↦ xor_bits shifted generator
        | false ↦ shifted
      ])
      (sym (bits_shift k s small))

with_low_bit :
    (s b : ℕ)
    → s % 2 ≡ b
    → next_state s ≡ bit_xor (s / 2) (bit_and 0xEDB88320 ((2 ^ 32 - b) % 2 ^ 32))
with_low_bit s b e =
    ap (λ (x : ℕ). bit_xor (s / 2) (bit_and 0xEDB88320 ((2 ^ 32 - x) % 2 ^ 32))) (bit_and-one s ∙ e)

xor_zero : (k n : ℕ) → bits k (bit_xor n 0) ≡ bits k n
xor_zero k n = bits-xor k n 0 ∙ xor_bits-append_zeros k (bits k n) []

next_state-lt : (s : ℕ) → s < 2 ^ 32 → next_state s < 2 ^ 32
next_state-lt s small = elim (Bool-cases (s % 2 == 1)) [
  | inl odd ↦
      subst (λ (n : ℕ). n < 2 ^ 32) (sym (with_low_bit s 1 (ground (arith, odd))))
        (bit_xor-lt 32 (s / 2) 0xEDB88320 (omega arith) (omega arith))
  | inr even ↦
      subst (λ (n : ℕ). n < 2 ^ 32) (sym (with_low_bit s 0 (ground (arith, even))))
        (bit_xor-lt 32 (s / 2) 0 (omega arith) (omega arith))
]

next_state-step : (s : ℕ) → s < 2 ^ 32 → bits 32 (next_state s) ≡ step (bits 32 s) false
next_state-step s small = elim (Bool-cases (s % 2 == 1)) [
  | inl odd ↦
      ap (bits 32) (with_low_bit s 1 (ground (arith, odd)))
      ∙ bits-xor 32 (s / 2) 0xEDB88320
      ∙ ap (xor_bits (bits 32 (s / 2))) generator_digits
      ∙ sym (step-bits 31 s small ∙ ap (stepped 31 s) odd)
  | inr even ↦
      ap (bits 32) (with_low_bit s 0 (ground (arith, even)))
      ∙ xor_zero 32 (s / 2)
      ∙ sym (step-bits 31 s small ∙ ap (stepped 31 s) even)
]

bit_loop-run :
    (n s : ℕ)
    → s < 2 ^ 32
    → (bit_loop n s < 2 ^ 32) × (bits 32 (bit_loop n s) ≡ run (bits 32 s) (replicate n false))
unfolding bit_loop run
bit_loop-run zero s small = (small, refl)
bit_loop-run (suc n) s small =
    let (fits, same) = bit_loop-run n (next_state s) (next_state-lt s small) in
    (fits, same ∙ ap (λ (r : List Bool). run r (replicate n false)) (next_state-step s small))

-- The digits of a byte, in a state of 32 bits.
byte-bits : (s b : ℕ) → IsByte b → bits 32 (bit_xor s b) ≡ xor_bits (bits 32 s) (bits 8 b)
byte-bits s b small =
    bits-xor 32 s b
    ∙ ap (xor_bits (bits 32 s)) (bits_wide 8 24 b small)
    ∙ xor_bits-append_zeros 24 (bits 32 s) (bits 8 b)

zeros_for : (b : ℕ) → replicate (length (bits 8 b)) false ≡ replicate 8 false
zeros_for b = ap (λ (n : ℕ). replicate n false) (length-bits 8 b)

byte-run :
    (s b : ℕ)
    → IsByte b
    → run (bits 32 s) (bits 8 b) ≡ run (bits 32 (bit_xor s b)) (replicate 8 false)
byte-run s b small =
    run-xor_bits (bits 8 b) (bits 32 s) (omega (arith, length-bits 8 b, length-bits 32 s))
    ∙ ap (run (xor_bits (bits 32 s) (bits 8 b))) (zeros_for b)
    ∙ ap (λ (r : List Bool). run r (replicate 8 false)) (sym (byte-bits s b small))

update-run :
    (bytes : List ℕ) (s : ℕ)
    → s < 2 ^ 32
    → All IsByte bytes
    → (update s bytes < 2 ^ 32) × (bits 32 (update s bytes) ≡ run (bits 32 s) (message_bits bytes))
unfolding update message_bits run
update-run [] s small are_bytes = (small, refl)
update-run (b ∷ bytes) s small (is_byte, are_bytes) =
    let mixed : bit_xor s b < 2 ^ 32 = bit_xor-lt 32 s b small (omega (arith, is_byte)) in
    let (fits, same) = bit_loop-run 8 (bit_xor s b) mixed in
    let (fits', same') = update-run bytes (bit_loop 8 (bit_xor s b)) fits are_bytes in
    (
      fits',
      same'
          ∙ ap (λ (r : List Bool). run r (message_bits bytes)) (same ∙ sym (byte-run s b is_byte))
          ∙ sym (run-append (bits 32 s) (bits 8 b) (message_bits bytes)),
    )

all_ones : bits 32 0xFFFFFFFF ≡ replicate 32 true
unfolding bits
all_ones = refl

-- crc32 of any bytes is the 32-bit number whose binary digits, lowest first, are the complement of the
-- remainder of the division of two-element polynomials: of the message's bits, lowest first in each
-- byte, with 32 zeros behind and the first 32 complemented, by the generator of IEEE 802.3.
pub crc32-crc_bits :
    (bytes : List ℕ)
    → All IsByte bytes
    → (crc32 bytes < 2 ^ 32) × (bits 32 (crc32 bytes) ≡ crc_bits bytes)
unfolding crc32 value crc_bits
crc32-crc_bits bytes are_bytes =
    let start : bits 32 initial_state ≡ replicate 32 true = all_ones in
    let (fits, same) = update-run bytes initial_state (omega arith) are_bytes in
    let digits = bits 32 (update initial_state bytes) in
    (
      bit_xor-lt 32 (update initial_state bytes) 0xFFFFFFFF fits (omega arith),
      bits-xor 32 (update initial_state bytes) 0xFFFFFFFF
          ∙ ap (xor_bits digits) all_ones
          ∙ xor_bits-ones 32 digits (length-bits 32 (update initial_state bytes))
          ∙ ap (map not) (
              same
              ∙ ap (λ (r : List Bool). run r (message_bits bytes)) start
              ∙ sym (remainder-run (message_bits bytes) (replicate 32 true) refl)),
    )
