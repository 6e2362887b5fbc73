-- ===== src/Paths/Rules.antt =====
-- is_safe_remote_path of src/common/transfer_codec.cpp, against its rules written out.
use syncwire.Common.{
  ℕ, ◌≤◌, ◌≡◌, ◌≢◌, ◌↔◌, refl, List, [], ◌∷◌, All, length, bytes_eq, bytes_eq→eq, bytes_eq_self,
  arith, true, false, ◌==◌, Bool-cases, inl, inr,
}
use syncwire.Paths.{has_forbidden, is_bad_component, is_safe_remote_path, partial_directory}
use syncwire.Paths.Components.{split, all_good, is_safe_spec, is_safe_remote_path_lem}

-- The rules for a component and for a path, byte by byte.
abbrev pub IsGoodComponent : List ℕ → Type 0
IsGoodComponent c =
    (c ≢ []) × (c ≢ b'.' ∷ []) × (c ≢ b'.' ∷ b'.' ∷ []) × (c ≢ partial_directory) × (length c ≤ 255)

abbrev pub IsSafePath : List ℕ → Type 0
IsSafePath path =
    (length path ≤ 1024)
    × All (λ (b : ℕ). (b ≢ b'\\') × (b ≢ 0)) path
    × All IsGoodComponent (split path)

bytes_eq-false : (xs ys : List ℕ) → (bytes_eq xs ys ≡ false) ↔ (xs ≢ ys)
bytes_eq-false xs ys = (
  λ other same. cc (rw same at other, bytes_eq_self ys),
  λ other. elim (Bool-cases (bytes_eq xs ys)) [
    | inl same ↦ absurd (other (bytes_eq→eq xs ys same))
    | inr o ↦ o
  ],
)

length-zero : (xs : List ℕ) → (length xs == 0 ≡ false) ↔ (xs ≢ [])
length-zero [] = (λ e. cc e, λ n. absurd (n refl))
length-zero (x ∷ xs) = (λ e h. cc h, λ n. ground arith)

is_bad_component_iff : (c : List ℕ) → (is_bad_component c ≡ false) ↔ IsGoodComponent c
unfolding is_bad_component
is_bad_component_iff c =
    let empty = length-zero c in
    let dot = bytes_eq-false c (b'.' ∷ []) in
    let dots = bytes_eq-false c (b'.' ∷ b'.' ∷ []) in
    let own = bytes_eq-false c partial_directory in
    (
      λ good. (
        empty.0 (ground (arith, good)),
        dot.0 (ground (arith, good)),
        dots.0 (ground (arith, good)),
        own.0 (ground (arith, good)),
        ground (arith, good),
      ),
      λ (some_, no_dot, no_dots, foreign, short).
          ground (arith, empty.1 some_, dot.1 no_dot, dots.1 no_dots, own.1 foreign, short),
    )

has_forbidden_iff :
    (xs : List ℕ) → (has_forbidden xs ≡ false) ↔ All (λ (b : ℕ). (b ≢ b'\\') × (b ≢ 0)) xs
unfolding has_forbidden
has_forbidden_iff [] = (λ e. tt, λ h. refl)
has_forbidden_iff (x ∷ xs) = (
  λ e. (
    (λ h. ground (arith, e, h), λ h. ground (arith, e, h)),
    (has_forbidden_iff xs).0 (ground (arith, e)),
  ),
  λ ((no_backslash, no_zero), rest).
      ground (arith, no_backslash, no_zero, (has_forbidden_iff xs).1 rest),
)

all_good_iff : (cs : List (List ℕ)) → (all_good cs ≡ true) ↔ All IsGoodComponent cs
unfolding all_good
all_good_iff [] = (λ e. tt, λ h. refl)
all_good_iff (c ∷ cs) = (
  λ e. ((is_bad_component_iff c).0 (ground (arith, e)), (all_good_iff cs).0 (ground (arith, e))),
  λ (good, rest). ground (arith, (is_bad_component_iff c).1 good, (all_good_iff cs).1 rest),
)

-- The code accepts a path exactly when it has at most 1024 bytes, no backslash and no zero byte, and
-- each component between slashes is no empty one, no `.` or `..`, not the directory of the
-- partial files, and at most 255 bytes long.
pub is_safe_remote_path_iff : (path : List ℕ) → (is_safe_remote_path path ≡ true) ↔ IsSafePath path
unfolding is_safe_spec
is_safe_remote_path_iff path =
    let same = is_safe_remote_path_lem path in
    (
      λ e. (
        ground (arith, e, same),
        (has_forbidden_iff path).0 (ground (arith, e, same)),
        (all_good_iff (split path)).0 (ground (arith, e, same)),
      ),
      λ (short, clean, good). ground (
        arith,
        same,
        short,
        (has_forbidden_iff path).1 clean,
        (all_good_iff (split path)).1 good,
      ),
    )
