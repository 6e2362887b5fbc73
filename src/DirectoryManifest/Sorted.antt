-- ===== src/DirectoryManifest/Sorted.antt =====
-- src/common/directory_manifest.cpp: the sort by path.
use syncwire.Common.{
  ℕ, ◌≡◌, ◌≢◌, true, List, [], ◌∷◌, All, bytes_lt, bytes_lt_total, Bool-cases, inl, inr,
}
use mathlib.Core.List.{Perm}
use mathlib.Core.List.Perm
use syncwire.SyncCodec.{FileRecord}
use syncwire.Plan.Differences.{Behind-trans, IsSorted}
use syncwire.DirectoryManifest.{insert_record, sort_by_path}

-- No other file of the list has this path.
abbrev pub IsNew : List ℕ → List FileRecord → Type 0
IsNew p = All (λ (r : FileRecord). p ≢ r.path)

abbrev pub IsDistinct : List FileRecord → Type 0
IsDistinct [] = Unit {0}
IsDistinct (r ∷ rs) = IsNew r.path rs × IsDistinct rs

All-insert_record {κ} :
    (P : FileRecord → Type κ) (file : FileRecord) (files : List FileRecord)
    → P file
    → All P files
    → All P (insert_record file files)
unfolding insert_record
All-insert_record P file [] p h = (p, tt)
All-insert_record P file (other ∷ files) p h = elim (Bool-cases (bytes_lt file.path other.path)) [
  | inl before ↦ rw before (p, h)
  | inr behind ↦ rw behind (h.0, All-insert_record P file files p h.1)
]

pub All-sort_by_path {κ} :
    (P : FileRecord → Type κ) (files : List FileRecord) → All P files → All P (sort_by_path files)
unfolding sort_by_path
All-sort_by_path P [] h = tt
All-sort_by_path P (file ∷ files) h =
    All-insert_record P file (sort_by_path files) h.0 (All-sort_by_path P files h.1)

insert_record-perm :
    (file : FileRecord) (files : List FileRecord) → Perm (insert_record file files) (file ∷ files)
unfolding insert_record
insert_record-perm file [] = Perm.rfl
insert_record-perm file (other ∷ files) = elim (Bool-cases (bytes_lt file.path other.path)) [
  | inl before ↦ rw before Perm.rfl
  | inr behind ↦
      rw behind
        (Perm.trans (Perm.cons other (insert_record-perm file files)) (Perm.swap file other files))
]

pub sort_by_path-perm : (files : List FileRecord) → Perm (sort_by_path files) files
unfolding sort_by_path
sort_by_path-perm [] = Perm.rfl
sort_by_path-perm (file ∷ files) =
    Perm.trans (insert_record-perm file (sort_by_path files))
      (Perm.cons file (sort_by_path-perm files))

insert_record-IsSorted :
    (file : FileRecord) (files : List FileRecord)
    → IsNew file.path files
    → IsSorted files
    → IsSorted (insert_record file files)
unfolding insert_record
insert_record-IsSorted file [] new s = (tt, tt)
insert_record-IsSorted file (other ∷ files) new s =
    elim (Bool-cases (bytes_lt file.path other.path)) [
      | inl before ↦ rw before ((before, Behind-trans file.path other.path files before s.0), s)
      | inr behind ↦ elim (Bool-cases (bytes_lt other.path file.path)) [
        | inl after ↦ rw behind (
          All-insert_record (λ (r : FileRecord). bytes_lt other.path r.path ≡ true) file files after
              s.0,
          insert_record-IsSorted file files new.1 s.1,
        )
        | inr same ↦ absurd (new.0 (bytes_lt_total file.path other.path behind same))
      ]
    ]

-- With no path twice, the order is strict.
pub sort_by_path-IsSorted :
    (files : List FileRecord) → IsDistinct files → IsSorted (sort_by_path files)
unfolding sort_by_path
sort_by_path-IsSorted [] d = tt
sort_by_path-IsSorted (file ∷ files) d =
    insert_record-IsSorted file (sort_by_path files)
      (All-sort_by_path (λ (r : FileRecord). file.path ≢ r.path) files d.0)
      (sort_by_path-IsSorted files d.1)
