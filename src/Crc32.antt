-- ===== src/Crc32.antt =====
-- src/common/crc32.cpp: the checksum of a file, updated block by block.
pub mod Bits
pub mod Division
pub mod Register
pub mod Remainder
use syncwire.Common.{ℕ, zero, suc, ◌-◌, ◌/◌, ◌%◌, ◌^◌, ◌≡◌, refl, ap, sym, ◌∙◌, List, [], ◌∷◌, ◌++◌}
use Prim.Native.Nat.{bit_and, bit_xor}

abbrev pub initial_state : ℕ
initial_state = 0xFFFFFFFF

-- The inner loop: `rounds` bits are left.
unfoldable bit_loop : ℕ → ℕ → ℕ
bit_loop zero state = state
bit_loop (suc rounds) state =
    let mask = (2 ^ 32 - bit_and state 1) % 2 ^ 32 in
    bit_loop rounds (bit_xor (state / 2) (bit_and 0xEDB88320 mask))

unfoldable pub update : ℕ → List ℕ → ℕ
unfolding bit_loop
update state [] = state
update state (byte ∷ bytes) = update (bit_loop 8 (bit_xor state byte)) bytes

unfoldable pub value : ℕ → ℕ
value state = bit_xor state 0xFFFFFFFF

unfoldable pub crc32 : List ℕ → ℕ
unfolding update value
crc32 bytes = value (update initial_state bytes)

pub update-append :
    (state : ℕ) (xs ys : List ℕ) → update state (xs ++ ys) ≡ update (update state xs) ys
unfolding update
update-append state [] ys = refl
update-append state (x ∷ xs) ys = update-append (bit_loop 8 (bit_xor state x)) xs ys

-- The updates of a Crc32 with the blocks of a file, one after the other.
unfoldable pub update_all : ℕ → List (List ℕ) → ℕ
update_all state [] = state
update_all state (block ∷ blocks) = update_all (update state block) blocks

abbrev pub file_of : List (List ℕ) → List ℕ
file_of [] = []
file_of (block ∷ blocks) = block ++ file_of blocks

update_all-update :
    (state : ℕ) (blocks : List (List ℕ)) → update_all state blocks ≡ update state (file_of blocks)
unfolding update_all update
update_all-update state [] = refl
update_all-update state (block ∷ blocks) =
    update_all-update (update state block) blocks ∙ sym (update-append state block (file_of blocks))

-- However a file is cut into blocks, the checksum after updating with each block in turn is crc32 of
-- the whole file.
pub update_all-crc32 :
    (blocks : List (List ℕ)) → value (update_all initial_state blocks) ≡ crc32 (file_of blocks)
unfolding crc32
update_all-crc32 blocks = ap value (update_all-update initial_state blocks)
