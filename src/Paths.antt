-- ===== src/Paths.antt =====
-- The remote path rules of src/common/transfer_codec.cpp: is_safe_remote_path and
-- is_safe_remote_filename. A std::string is the list of its bytes.
pub mod Components
pub mod Rules
use syncwire.Common.{
  ℕ, zero, suc, ◌+◌, ◌-◌, ◌*◌, ◌≤◌, ◌<◌, ◌≡◌, Bool, true, false, List, [], ◌∷◌, ◌++◌, not, ◌&&◌,
  ◌||◌, ltb, leb, ◌==◌, if◌then◌else◌, length, get_or, take, drop, bytes_eq, Option, none, some,
}

-- kMaxRemoteFilenameLength, kMaxRemotePathLength and kPartialDirectory (".syncwire-partials").
abbrev pub max_remote_filename_length : ℕ
max_remote_filename_length = 255

abbrev pub max_remote_path_length : ℕ
max_remote_path_length = 1024

abbrev pub slash : ℕ
slash = b'/'

abbrev pub partial_directory : List ℕ
partial_directory =
    b'.' ∷ b's' ∷ b'y' ∷ b'n' ∷ b'c' ∷ b'w' ∷ b'i' ∷ b'r' ∷ b'e' ∷ b'-' ∷ b'p' ∷ b'a' ∷ b'r' ∷ b't'
    ∷ b'i' ∷ b'a' ∷ b'l' ∷ b's' ∷ []

-- std::string_view::find of a character, in what lies from the start position on.
unfoldable pub find : ℕ → List ℕ → Option ℕ
find c [] = none
find c (x ∷ xs) =
    if x == c then some 0 else elim (find c xs) [ none ↦ none | some i ↦ some (suc i) ]

-- `character == '\\' || character == '\0'`, for any of them.
unfoldable pub has_forbidden : List ℕ → Bool
has_forbidden [] = false
has_forbidden (x ∷ xs) = x == 92 || x == 0 || has_forbidden xs

unfoldable pub is_bad_component : List ℕ → Bool
is_bad_component component =
    length component == 0
    || bytes_eq component (b'.' ∷ [])
    || bytes_eq component (b'.' ∷ b'.' ∷ [])
    || bytes_eq component partial_directory
    || ltb max_remote_filename_length (length component)

-- The while loop over the components of `path`, from position `start` on. Each round takes a byte at
-- least, so the length of the path is rounds enough.
unfoldable pub components_loop : ℕ → List ℕ → ℕ → Bool
unfolding find is_bad_component
components_loop zero path start = true
components_loop (suc fuel) path start =
    let rest = drop start path in
    elim (find slash rest) [
      | none ↦ not (ltb start (length path)) || not (is_bad_component rest)
      | some i ↦
          let later = components_loop fuel path (start + i + 1) in
          if is_bad_component (take i rest) then false else later
    ]

unfoldable pub is_safe_remote_path : List ℕ → Bool
is_safe_remote_path path =
    if length path == 0
      || ltb max_remote_path_length (length path)
      || get_or path 0 0 == slash
      || get_or path (length path - 1) 0 == slash
    then false
    else if has_forbidden path
    then false
    else components_loop (length path) path 0

unfoldable pub is_safe_remote_filename : List ℕ → Bool
is_safe_remote_filename filename =
    leb (length filename) max_remote_filename_length
    && is_safe_remote_path filename
    && elim (find slash filename) [ none ↦ true | some i ↦ false ]
