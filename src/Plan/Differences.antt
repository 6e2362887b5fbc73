-- ===== src/Plan/Differences.antt =====
-- What one manifest holds and another does not, file by file, for manifests in strictly rising order:
-- the independent reading of build_sync_plan in src/common/sync_codec.cpp.
use syncwire.Common.{
  ℕ, suc, ◌≡◌, refl, ap, Bool, true, false, ◌&&◌, List, [], ◌∷◌, ◌==◌, if◌then◌else◌, length, All,
  arith, bytes_lt, bytes_eq, bytes_eq→eq, bytes_lt_irrefl, bytes_lt_trans, Bool-cases, inl, inr,
}
use syncwire.SyncCodec.{FileRecord}

-- Whether a manifest lists a path, and whether it lists a file with its size and checksum.
unfoldable pub lists : List ℕ → List FileRecord → Bool
lists p [] = false
lists p (d ∷ ds) = if bytes_eq p d.path then true else lists p ds

unfoldable pub holds : FileRecord → List FileRecord → Bool
holds s [] = false
holds s (d ∷ ds) =
    if bytes_eq s.path d.path then s.size == d.size && s.checksum == d.checksum else holds s ds

-- The paths of the source that the destination does not hold, the number of those that it holds, and
-- the number of files that only the destination lists.
unfoldable pub missing : List FileRecord → List FileRecord → List (List ℕ)
missing [] ds = []
missing (s ∷ ss) ds = if holds s ds then missing ss ds else s.path ∷ missing ss ds

unfoldable pub kept : List FileRecord → List FileRecord → ℕ
kept [] ds = 0
kept (s ∷ ss) ds = if holds s ds then suc (kept ss ds) else kept ss ds

unfoldable pub only_in : List FileRecord → List FileRecord → ℕ
only_in [] ss = 0
only_in (d ∷ ds) ss = if lists d.path ss then only_in ds ss else suc (only_in ds ss)

-- Every path of the manifest is behind `p`.
abbrev pub Behind : List ℕ → List FileRecord → Type 0
Behind p = All (λ (r : FileRecord). bytes_lt p r.path ≡ true)

abbrev pub IsSorted : List FileRecord → Type 0
IsSorted [] = Unit {0}
IsSorted (r ∷ rs) = Behind r.path rs × IsSorted rs

pub Behind-trans :
    (p q : List ℕ) (rs : List FileRecord) → bytes_lt p q ≡ true → Behind q rs → Behind p rs
Behind-trans p q [] h b = tt
Behind-trans p q (r ∷ rs) h b = (bytes_lt_trans p q r.path h b.0, Behind-trans p q rs h b.1)

pub lt→ne : (p q : List ℕ) → bytes_lt p q ≡ true → bytes_eq p q ≡ false
lt→ne p q h = elim (Bool-cases (bytes_eq p q)) [
  | inl e ↦ cc (rw (bytes_eq→eq p q e) at h, bytes_lt_irrefl q)
  | inr e ↦ e
]

pub gt→ne : (p q : List ℕ) → bytes_lt q p ≡ true → bytes_eq p q ≡ false
gt→ne p q h = elim (Bool-cases (bytes_eq p q)) [
  | inl e ↦ cc (rw (bytes_eq→eq p q e) at h, bytes_lt_irrefl q)
  | inr e ↦ e
]

-- A path in front of a manifest is not in it.
pub holds_front : (s : FileRecord) (ds : List FileRecord) → Behind s.path ds → holds s ds ≡ false
unfolding holds
holds_front s [] b = refl
holds_front s (d ∷ ds) b = ground (arith, lt→ne s.path d.path b.0, holds_front s ds b.1)

pub lists_front : (p : List ℕ) (ss : List FileRecord) → Behind p ss → lists p ss ≡ false
unfolding lists
lists_front p [] b = refl
lists_front p (s ∷ ss) b = ground (arith, lt→ne p s.path b.0, lists_front p ss b.1)

-- A file in front of a manifest does not change what is missing from it, nor what is kept.
pub missing_skip :
    (ss : List FileRecord) (d : FileRecord) (ds : List FileRecord)
    → Behind d.path ss
    → missing ss (d ∷ ds) ≡ missing ss ds
unfolding missing holds
missing_skip [] d ds b = refl
missing_skip (s ∷ ss) d ds b = ground (arith, gt→ne s.path d.path b.0, missing_skip ss d ds b.1)

pub kept_skip :
    (ss : List FileRecord) (d : FileRecord) (ds : List FileRecord)
    → Behind d.path ss
    → kept ss (d ∷ ds) ≡ kept ss ds
unfolding kept holds
kept_skip [] d ds b = refl
kept_skip (s ∷ ss) d ds b = ground (arith, gt→ne s.path d.path b.0, kept_skip ss d ds b.1)

pub only_in_skip :
    (ds : List FileRecord) (s : FileRecord) (ss : List FileRecord)
    → Behind s.path ds
    → only_in ds (s ∷ ss) ≡ only_in ds ss
unfolding only_in lists
only_in_skip [] s ss b = refl
only_in_skip (d ∷ ds) s ss b = ground (arith, gt→ne d.path s.path b.0, only_in_skip ds s ss b.1)

pub only_in-nil : (ds : List FileRecord) → only_in ds [] ≡ length ds
unfolding only_in lists
only_in-nil [] = refl
only_in-nil (d ∷ ds) = ap suc (only_in-nil ds)
