-- ===== src/Wire.antt =====
-- Big-endian integers in byte vectors: the helpers get_u8 .. get_u64 of src/common/codec.cpp (written
-- again in transfer_codec.cpp and sync_codec.cpp) and append_u16 .. append_u64 of transfer_codec.cpp.
-- A byte is a number below 256; `% 256` stands for `& 0xFF` and the cast to std::byte.
pub mod Laws
use syncwire.Common.{ℕ, zero, suc, ◌+◌, ◌*◌, ◌/◌, ◌%◌, ◌^◌, ◌<◌, List, [], ◌∷◌, ◌++◌, get_or}
use Prim.Native.Nat.{bit_or}

abbrev pub IsByte : ℕ → Type 0
IsByte b = b < 256

abbrev pub IsU16 : ℕ → Type 0
IsU16 v = v < 2 ^ 16

abbrev pub IsU32 : ℕ → Type 0
IsU32 v = v < 2 ^ 32

abbrev pub IsU64 : ℕ → Type 0
IsU64 v = v < 2 ^ 64

-- The callers check the size first, so the index is always in range.
unfoldable pub get_u8 : List ℕ → ℕ → ℕ
get_u8 bytes offset = get_or bytes offset 0

-- `value = (value << 8U) | get_u8(bytes, offset + index)` in a word of the given modulus, for the
-- rounds that are left.
unfoldable pub be_loop : ℕ → ℕ → List ℕ → ℕ → ℕ → ℕ
unfolding get_u8
be_loop m zero bytes position value = value
be_loop m (suc rounds) bytes position value =
    be_loop m rounds bytes (position + 1) (bit_or (value * 2 ^ 8 % m) (get_u8 bytes position))

unfoldable pub get_u16 : List ℕ → ℕ → ℕ
unfolding get_u8
get_u16 bytes offset =
    bit_or (get_u8 bytes offset * 2 ^ 8 % 2 ^ 16) (get_u8 bytes (offset + 1)) % 2 ^ 16

unfoldable pub get_u32 : List ℕ → ℕ → ℕ
unfolding be_loop
get_u32 bytes offset = be_loop (2 ^ 32) 4 bytes offset 0

unfoldable pub get_u64 : List ℕ → ℕ → ℕ
unfolding be_loop
get_u64 bytes offset = be_loop (2 ^ 64) 8 bytes offset 0

unfoldable pub append_u16 : List ℕ → ℕ → List ℕ
append_u16 output value = output ++ ((value / 2 ^ 8 % 256) ∷ (value % 256) ∷ [])

unfoldable pub append_u32 : List ℕ → ℕ → List ℕ
append_u32 output value =
    output
    ++ ((value / 2 ^ 24 % 256)
        ∷ (value / 2 ^ 16 % 256)
        ∷ (value / 2 ^ 8 % 256)
        ∷ (value / 2 ^ 0 % 256)
        ∷ [])

unfoldable pub append_u64 : List ℕ → ℕ → List ℕ
append_u64 output value =
    output
    ++ ((value / 2 ^ 56 % 256)
        ∷ (value / 2 ^ 48 % 256)
        ∷ (value / 2 ^ 40 % 256)
        ∷ (value / 2 ^ 32 % 256)
        ∷ (value / 2 ^ 24 % 256)
        ∷ (value / 2 ^ 16 % 256)
        ∷ (value / 2 ^ 8 % 256)
        ∷ (value / 2 ^ 0 % 256)
        ∷ [])
