-- ===== src/Paths/Components.antt =====
-- What is_safe_remote_path accepts, by the components of the path between its slashes.
use syncwire.Common.{
  ℕ, zero, suc, ◌+◌, ◌-◌, ◌≤◌, ◌<◌, ◌≡◌, ◌≢◌, refl, ap, sym, ◌∙◌, List, [], ◌∷◌, ◌++◌, length, drop,
  take, arith, Bool, true, false, none, some, ◌==◌, if◌then◌else◌, leb, not, ◌&&◌, get_or,
  Option-cases, Bool-cases, ==_iff, inl, inr, get_or-drop, length-drop, drop-drop,
}
use native.Mathlib.Numerals.{add-one}
use syncwire.Paths.{
  slash, find, has_forbidden, is_bad_component, components_loop, is_safe_remote_path,
  max_remote_path_length,
}

abbrev add_first : ℕ → List (List ℕ) → List (List ℕ)
add_first x [] = (x ∷ []) ∷ []
add_first x (c ∷ cs) = (x ∷ c) ∷ cs

-- The components of a path: what stands between the slashes.
unfoldable pub split : List ℕ → List (List ℕ)
split [] = [] ∷ []
split (x ∷ xs) = if x == slash then [] ∷ split xs else add_first x (split xs)

unfoldable pub all_good : List (List ℕ) → Bool
all_good [] = true
all_good (c ∷ cs) = not (is_bad_component c) && all_good cs

-- The rule that the loop is to check.
unfoldable pub is_safe_spec : List ℕ → Bool
is_safe_spec path =
    leb (length path) max_remote_path_length && not (has_forbidden path) && all_good (split path)

find-lt : (xs : List ℕ) (i : ℕ) → find slash xs ≡ some i → i < length xs
unfolding find
find-lt [] i e = cc
find-lt (x ∷ xs) i e = elim (Option-cases (find slash xs)) [
  | inl n ↦ ground arith
  | inr (j, s) ↦ ground (arith, find-lt xs j s)
]

find-get_or : (xs : List ℕ) (i : ℕ) → find slash xs ≡ some i → get_or xs i 0 ≡ slash
unfolding find
find-get_or [] i e = cc
find-get_or (x ∷ xs) i e = elim (Option-cases (find slash xs)) [
  | inl n ↦ ground arith
  | inr (j, s) ↦ ground (arith, find-get_or xs j s)
]

split-of_none : (xs : List ℕ) → find slash xs ≡ none → split xs ≡ xs ∷ []
unfolding find split
split-of_none [] e = refl
split-of_none (x ∷ xs) e = elim (Option-cases (find slash xs)) [
  | inl n ↦ ground (arith, split-of_none xs n)
  | inr (j, s) ↦ ground arith
]

split-of_some :
    (xs : List ℕ) (i : ℕ) → find slash xs ≡ some i → split xs ≡ take i xs ∷ split (drop (suc i) xs)
unfolding find split
split-of_some [] i e = cc
split-of_some (x ∷ xs) i e = elim (Option-cases (find slash xs)) [
  | inl n ↦ ground arith
  | inr (j, s) ↦ ground (arith, split-of_some xs j s)
]

-- The last byte is there and is no slash.
abbrev IsBare : List ℕ → Type 0
IsBare xs = (0 < length xs) × (get_or xs (length xs - 1) 0 ≢ slash)

IsBare-drop : (xs : List ℕ) (i : ℕ) → find slash xs ≡ some i → IsBare xs → IsBare (drop (i + 1) xs)
IsBare-drop xs i e (some_byte, bare) =
    let more : i + 1 ≢ length xs = λ at_end. bare (
      ap (λ (k : ℕ). get_or xs k 0) {x = length xs - 1} {y = i} (omega arith)
      ∙ find-get_or xs i e) in
    (
      omega (arith, find-lt xs i e, length-drop (i + 1) xs),
      λ last. bare (
          ap (λ (k : ℕ). get_or xs k 0) {x = length xs - 1}
            {y = i + 1 + (length (drop (i + 1) xs) - 1)}
            (omega (arith, find-lt xs i e, length-drop (i + 1) xs))
          ∙ sym (get_or-drop xs (i + 1) (length (drop (i + 1) xs) - 1) 0)
          ∙ last),
    )

-- With rounds enough, and no slash at the end, the loop is the check of every component.
components_loop-good :
    (fuel : ℕ) (path : List ℕ) (start : ℕ)
    → length (drop start path) ≤ fuel
    → IsBare (drop start path)
    → components_loop fuel path start ≡ all_good (split (drop start path))
unfolding components_loop all_good
components_loop-good zero path start enough bare = absurd (omega (arith, bare.0))
components_loop-good (suc fuel) path start enough bare =
    elim (Option-cases (find slash (drop start path))) [
      | inl n ↦
          rw (n, components_loop, split-of_none (drop start path) n)
            (ground (arith, length-drop start path, bare.0))
      | inr (i, s) ↦
          let behind : drop (start + i + 1) path ≡ drop (i + 1) (drop start path) =
            ap (λ (k : ℕ). drop k path) {y = start + (i + 1)} (omega arith)
            ∙ sym (drop-drop start (i + 1) path) in
          let ih =
            components_loop-good fuel path (start + i + 1)
              (omega (
                arith,
                length-drop start path,
                length-drop (start + i + 1) path,
                find-lt (drop start path) i s,
              ))
              (rw behind (IsBare-drop (drop start path) i s bare)) in
          rw (s, components_loop, split-of_some (drop start path) i s)
            (ground (
              arith,
              ih,
              ap (λ (l : List ℕ). all_good (split l)) behind,
              ap (λ (k : ℕ). all_good (split (drop k (drop start path)))) (add-one i),
            ))
    ]

-- A slash at the end leaves an empty component behind it.
ends_empty :
    (xs : List ℕ)
    → 0 < length xs
    → get_or xs (length xs - 1) 0 ≡ slash
    → (c : List ℕ) × (cs : List (List ℕ)) × (split xs ≡ c ∷ (cs ++ ([] ∷ [])))
unfolding split
ends_empty [] h e = absurd (omega arith)
ends_empty (x ∷ []) h e = ([], [], ground arith)
ends_empty (x ∷ y ∷ xs) h e =
    let at_end : get_or (y ∷ xs) (length xs) 0 ≡ slash =
      ap (λ (k : ℕ). get_or (x ∷ y ∷ xs) k 0) {x = suc (length xs)} {y = suc (suc (length xs)) - 1}
        (omega arith)
      ∙ e in
    let last : get_or (y ∷ xs) (suc (length xs) - 1) 0 ≡ slash =
      ap (λ (k : ℕ). get_or (y ∷ xs) k 0) {x = suc (length xs) - 1} {y = length xs} (omega arith)
      ∙ at_end in
    let (c, cs, eq) = ends_empty (y ∷ xs) (omega arith) last in
    elim (Bool-cases (x == slash)) [
      | inl t ↦ ([], c ∷ cs, rw (t, eq, split))
      | inr f ↦ (x ∷ c, cs, rw (f, eq, split))
    ]

all_good-append_empty : (cs : List (List ℕ)) → all_good (cs ++ ([] ∷ [])) ≡ false
unfolding all_good is_bad_component
all_good-append_empty [] = refl
all_good-append_empty (c ∷ cs) = ground (arith, all_good-append_empty cs)

first_slash : (x : ℕ) (xs : List ℕ) → x ≡ slash → all_good (split (x ∷ xs)) ≡ false
unfolding all_good split is_bad_component
first_slash x xs h = ground arith

-- The loop and the checks before it are the rule.
pub is_safe_remote_path_lem : (path : List ℕ) → is_safe_remote_path path ≡ is_safe_spec path
unfolding is_safe_remote_path is_safe_spec
is_safe_remote_path_lem [] = unfold has_forbidden all_good split is_bad_component in refl
is_safe_remote_path_lem (x ∷ xs) =
    elim (Bool-cases (get_or (x ∷ xs) (length (x ∷ xs) - 1) 0 == slash)) [
      | inl t ↦
          let (c, cs, eq) = ends_empty (x ∷ xs) (omega arith) ((==_iff _ _).0 t) in
          let bad : all_good (split (x ∷ xs)) ≡ false =
            rw eq (unfold all_good in ground (arith, all_good-append_empty cs)) in
          ground (arith, bad)
      | inr f ↦
          let loop =
            components_loop-good (suc (length xs)) (x ∷ xs) 0 (omega arith)
              (omega arith, λ last. ground arith) in
          ground (arith, loop, first_slash x xs)
    ]

-- A safe path is not empty, and has at most 1024 bytes.
pub is_safe-length :
    (path : List ℕ)
    → is_safe_remote_path path ≡ true
    → (0 < length path) × (length path ≤ max_remote_path_length)
unfolding is_safe_remote_path
is_safe-length [] h = cc
is_safe-length (x ∷ xs) h = ground arith
