-- ===== src/Tests/Disk.antt =====
-- A file system in memory, with a connection whose frames are given, for the tests of the transfers.
use syncwire.Common.{
  ℕ, zero, suc, ◌+◌, ◌<◌, ◌≡◌, ◌≢◌, ◌⊎◌, refl, ap, sym, ◌∙◌, Bool, true, false, List, [], ◌∷◌, ◌++◌,
  Option, none, some, ◌&&◌, ◌==◌, if◌then◌else◌, length, take, drop, take_all, length-take, Outcome,
  ok, err, arith, Bool-cases, inl, inr, bytes_eq, bytes_eq→eq, bytes_eq_self, &&-both, ==_self,
  ==_iff, replicate,
}
use mathlib.Core.Option.{some-injective}
use syncwire.Protocol.{Frame}
use syncwire.SocketIo.{Sent, sent_some, sent_zero, Received, got_some, got_zero}
use syncwire.FrameIo.{FrameIoStatus, FrameIoResult}
use syncwire.PingPong.{frame_io_default}
use syncwire.Link.{Link}
use syncwire.FileTransfer.Files.{
  FilePath, FileStatus, directory, Stat, FileSystem, FileView, Same, OnlyFile, WriteWell, ReadWell,
  Opened, FileLaws,
}
use syncwire.FileTransfer.Store.Holds.{LeavesFiles}

unfoldable pub path_eq : FilePath → FilePath → Bool
path_eq [] [] = true
path_eq [] (q ∷ qs) = false
path_eq (p ∷ ps) [] = false
path_eq (p ∷ ps) (q ∷ qs) = bytes_eq p q && path_eq ps qs

path_eq→eq : (p q : FilePath) → path_eq p q ≡ true → p ≡ q
unfolding path_eq
path_eq→eq [] [] e = refl
path_eq→eq [] (q ∷ qs) e = cc e
path_eq→eq (p ∷ ps) [] e = cc e
path_eq→eq (p ∷ ps) (q ∷ qs) e =
    let (a, b) = &&-both (bytes_eq p q) (path_eq ps qs) e in
    cc (bytes_eq→eq p q a, path_eq→eq ps qs b)

path_eq_self : (p : FilePath) → path_eq p p ≡ true
unfolding path_eq
path_eq_self [] = refl
path_eq_self (p ∷ ps) = cc (bytes_eq_self p, path_eq_self ps)

path_eq-other : (p q : FilePath) → p ≢ q → path_eq p q ≡ false
path_eq-other p q other = elim (Bool-cases (path_eq p q)) [
  | inl same ↦ absurd (other (path_eq→eq p q same))
  | inr e ↦ e
]

abbrev pub Names : Type 0
Names = List (FilePath × ℕ)

unfoldable pub lookup : FilePath → Names → Option ℕ
unfolding path_eq
lookup p [] = none
lookup p ((q, i) ∷ names) = if path_eq p q then some i else lookup p names

unfoldable pub remove : FilePath → Names → Names
unfolding path_eq
remove q [] = []
remove q ((r, i) ∷ names) = let rest = remove q names in if path_eq r q then rest else (r, i) ∷ rest

unfoldable pub links : ℕ → Names → ℕ
links i [] = 0
links i ((q, j) ∷ names) = let rest = links i names in if j == i then suc rest else rest

lookup-other :
    (p q : FilePath) (i : ℕ) (names : Names) → p ≢ q → lookup p ((q, i) ∷ names) ≡ lookup p names
unfolding lookup
lookup-other p q i names other = rw (path_eq-other p q other) refl

lookup-remove :
    (p q : FilePath) (names : Names) → p ≢ q → lookup p (remove q names) ≡ lookup p names
unfolding lookup remove
lookup-remove p q [] other = refl
lookup-remove p q ((r, i) ∷ names) other = elim (Bool-cases (path_eq r q)) [
  | inl same ↦ rw same (
      lookup-remove p q names other
      ∙ sym (lookup-other p r i names (λ e. other (e ∙ path_eq→eq r q same))))
  | inr kept ↦ rw kept (elim (Bool-cases (path_eq p r)) [
    | inl here ↦ rw here refl
    | inr there ↦ rw there (lookup-remove p q names other)
  ])
]

lookup-links : (p : FilePath) (i : ℕ) (names : Names) → lookup p names ≡ some i → 0 < links i names
unfolding lookup links
lookup-links p i [] e = cc e
lookup-links p i ((q, j) ∷ names) e = elim (Bool-cases (path_eq p q)) [
  | inl here ↦ ground arith
  | inr there ↦ ground (arith, lookup-links p i names (rw there at e))
]

lookup_unique :
    (p q : FilePath) (i : ℕ) (names : Names)
    → links i names ≡ 1
    → lookup p names ≡ some i
    → lookup q names ≡ some i
    → p ≡ q
unfolding lookup links
lookup_unique p q i [] one a b = cc a
lookup_unique p q i ((r, j) ∷ names) one a b = elim (Bool-cases (path_eq p r)) [
  | inl here ↦ elim (Bool-cases (path_eq q r)) [
    | inl here' ↦ path_eq→eq p r here ∙ sym (path_eq→eq q r here')
    | inr there' ↦ absurd (ground (arith, lookup-links q i names (rw there' at b)))
  ]
  | inr there ↦ elim (Bool-cases (path_eq q r)) [
    | inl here' ↦ absurd (ground (arith, lookup-links p i names (rw there at a)))
    | inr there' ↦ elim (Bool-cases (j == i)) [
      | inl same ↦ absurd (ground (arith, lookup-links p i names (rw there at a)))
      | inr other ↦ lookup_unique p q i names (ground arith) (rw there at a) (rw there' at b)
    ]
  ]
]

-- The names and the bytes of the files, the position in each, the next number of a file, and the
-- frames to come and gone.
pub record Disk : Type 0 where
  pub names : Names
  pub contents : ℕ → List ℕ
  pub positions : ℕ → ℕ
  pub fresh : ℕ
  pub inbox : List Frame
  pub outbox : List Frame

-- A descriptor: the number of a file, or the path of a directory.
pub record Descriptor : Type 0 where
  pub file : ℕ
  pub path : FilePath

abbrev pub at_number {ℓ} : {A : Type ℓ} → ℕ → A → (ℕ → A) → ℕ → A
at_number i a f j = if j == i then a else f j

at_number_same {ℓ} : {A : Type ℓ} (i : ℕ) (a : A) (f : ℕ → A) → at_number i a f i ≡ a
at_number_same i a f = rw (==_self i) refl

at_number_other {ℓ} : {A : Type ℓ} (i j : ℕ) (a : A) (f : ℕ → A) → j ≢ i → at_number i a f j ≡ f j
at_number_other i j a f other = elim (Bool-cases (j == i)) [
  | inl same ↦ absurd (other ((==_iff j i).0 same))
  | inr e ↦ rw e refl
]

abbrev pub moved : Descriptor → ℕ → Disk → Disk
moved fd n w = record w { positions = at_number fd.file n w.positions }

abbrev pub stored : Descriptor → List ℕ → Disk → Disk
stored fd b w = record w { contents = at_number fd.file b w.contents }

abbrev pub open_name : FilePath → Option ℕ → Disk → Outcome ℕ Descriptor × Disk
open_name path (some i) w =
    (ok (record { file = i; path = path }), record w { positions = at_number i 0 w.positions })
open_name path none w = (
  ok (record { file = w.fresh; path = path }),
  record w {
    names = (path, w.fresh) ∷ w.names;
    fresh = suc w.fresh;
    positions = at_number w.fresh 0 w.positions;
  },
)

abbrev pub read_some : Descriptor → List ℕ → Disk → Received × Disk
read_some fd [] w = (got_zero, w)
read_some fd (x ∷ xs) w = (got_some (x ∷ xs), moved fd (w.positions fd.file + length (x ∷ xs)) w)

abbrev pub write_some : Descriptor → List ℕ → Disk → Sent × Disk
write_some fd [] w = (sent_zero, w)
write_some fd (x ∷ xs) w =
    let p = w.positions fd.file in
    let old = w.contents fd.file in
    (
      sent_some (length (x ∷ xs)),
      moved fd (p + length (x ∷ xs))
          (stored fd (take p old ++ ((x ∷ xs) ++ drop (p + length (x ∷ xs)) old)) w),
    )

abbrev pub rename_file : FilePath → FilePath → Option ℕ → Disk → Option ℕ × Disk
rename_file p q none w = (some 2, w)
rename_file p q (some i) w = (none, record w { names = (q, i) ∷ remove q (remove p w.names) })

abbrev pub disk : FileSystem Disk
disk = record {
  Fd = Descriptor;
  symlink_status = λ p w. directory;
  create_directories = λ p w. (none, w);
  create_directory = λ p w. (none, w);
  mkdir = λ p w. (some 17, w);
  digest = λ b w. some (replicate 32 171);
  open_directory = λ p w. (ok (record { file = 0; path = p }), w);
  list_directory =
      λ p w. (record { name = b'x' ∷ []; status = FileStatus.regular; size = some 3 } ∷ [], false);
  openat = λ d name w. open_name (d.path ++ (name ∷ [])) (lookup (d.path ++ (name ∷ [])) w.names) w;
  fstat = λ fd w. some (record {
    is_regular = true;
    st_nlink = links fd.file w.names;
    st_uid = 0;
    st_size = length (w.contents fd.file);
  });
  geteuid = λ w. 0;
  flock = λ fd w. (true, w);
  read = λ fd n w. read_some fd (take n (drop (w.positions fd.file) (w.contents fd.file))) w;
  write = λ fd b w. write_some fd b w;
  ftruncate = λ fd w. (none, stored fd [] w);
  lseek_start = λ fd w. (none, moved fd 0 w);
  fsync = λ fd w. (none, w);
  unlinkat = λ d name w. record w { names = remove (d.path ++ (name ∷ [])) w.names };
  rename = λ p q w. rename_file p q (lookup p w.names) w;
}

abbrev pub view : FileView disk
view = record {
  Inode = ℕ;
  inode = λ fd. fd.file;
  directory_path = λ fd. fd.path;
  file_at = λ p w. lookup p w.names;
  bytes = λ g w. w.contents g;
  position = λ fd w. w.positions fd.file;
  signals = λ w. 0;
}

no_change :
    (w w' : Disk)
    → w'.names ≡ w.names
    → w'.contents ≡ w.contents
    → w'.positions ≡ w.positions
    → Same view w w'
no_change w w' a b c = record {
  same_files = λ p. ap (lookup p) a;
  same_bytes = λ g. ap (λ (f : ℕ → List ℕ). f g) b;
  same_position = λ fd. ap (λ (f : ℕ → ℕ). f fd.file) c;
  quieter = omega arith;
}

this_file :
    (fd : Descriptor) (b : List ℕ) (n : ℕ) (w : Disk)
    → OnlyFile view fd w (moved fd n (stored fd b w))
this_file fd b n w = record {
  same_files = λ p. refl;
  same_others = λ g other. at_number_other fd.file g b w.contents other;
  quieter = omega arith;
}

take-length-take : {A : Type 0} (n : ℕ) (xs : List A) → take (length (take n xs)) xs ≡ take n xs
take-length-take zero xs = refl
take-length-take (suc n) [] = refl
take-length-take (suc n) (x ∷ xs) = ap (◌∷◌ x) (take-length-take n xs)

read_some-ReadWell :
    (fd : Descriptor) (n : ℕ) (w : Disk) (got : List ℕ)
    → take n (drop (w.positions fd.file) (w.contents fd.file)) ≡ got
    → ReadWell view fd n (read_some fd got w).0 w (read_some fd got w).1
read_some-ReadWell fd n w [] e = no_change w w refl refl refl
read_some-ReadWell fd n w (x ∷ xs) e =
    let there = drop (w.positions fd.file) (w.contents fd.file) in
    (
      omega arith,
      omega (arith, ap length e, length-take n there),
      ap (λ (l : List ℕ). take (length l) there) (sym e) ∙ take-length-take n there ∙ e,
      at_number_same fd.file (w.positions fd.file + length (x ∷ xs)) w.positions,
      refl,
      record { same_files = λ p. refl; same_others = λ g other. refl; quieter = omega arith },
    )

write_some-WriteWell :
    (fd : Descriptor) (w : Disk) (b : List ℕ)
    → WriteWell view fd b (write_some fd b w).0 w (write_some fd b w).1
write_some-WriteWell fd w [] = no_change w w refl refl refl
write_some-WriteWell fd w (x ∷ xs) =
    let p = w.positions fd.file in
    let old = w.contents fd.file in
    let new = take p old ++ ((x ∷ xs) ++ drop (p + length (x ∷ xs)) old) in
    (
      omega arith,
      omega arith,
      at_number_same fd.file new w.contents
          ∙ ap (λ (l : List ℕ). take p old ++ (l ++ drop (p + length (x ∷ xs)) old))
              (sym (take_all (length (x ∷ xs)) (x ∷ xs) (omega arith))),
      at_number_same fd.file (p + length (x ∷ xs)) w.positions,
      this_file fd new (p + length (x ∷ xs)) w,
    )

open_name-Opened :
    (d : Descriptor) (name : List ℕ) (w : Disk) (o : Option ℕ)
    → lookup (d.path ++ (name ∷ [])) w.names ≡ o
    → (fd : Descriptor) × (open_name (d.path ++ (name ∷ [])) o w
        ≡ (ok fd, (open_name (d.path ++ (name ∷ [])) o w).1))
      × Opened view d name fd w (open_name (d.path ++ (name ∷ [])) o w).1
open_name-Opened d name w (some i) e = (
  record { file = i; path = d.path ++ (name ∷ []) },
  refl,
  record {
    named = e;
    others = λ p other. refl;
    held = λ p g h. refl;
    at_start = at_number_same i 0 w.positions;
    quieter = omega arith;
  },
)
open_name-Opened d name w none e = (
  record { file = w.fresh; path = d.path ++ (name ∷ []) },
  refl,
  record {
    named = unfold lookup in rw (path_eq_self (d.path ++ (name ∷ []))) refl;
    others = λ p other. lookup-other p (d.path ++ (name ∷ [])) w.fresh w.names other;
    held = λ p g h. refl;
    at_start = at_number_same w.fresh 0 w.positions;
    quieter = omega arith;
  },
)

rename_file-moves :
    (p q : FilePath) (w : Disk) (o : Option ℕ)
    → lookup p w.names ≡ o
    → ((e : ℕ) × ((rename_file p q o w).0 ≡ some e) × Same view w (rename_file p q o w).1)
      ⊎ (((rename_file p q o w).0 ≡ none)
          × (lookup q (rename_file p q o w).1.names ≡ lookup p w.names)
          × ((g : ℕ) → (rename_file p q o w).1.contents g ≡ w.contents g))
rename_file-moves p q w none e = inl (2, refl, no_change w w refl refl refl)
rename_file-moves p q w (some i) e =
    inr (refl, unfold lookup in (rw (path_eq_self q) (sym e)), λ g. refl)

abbrev path_or : Outcome ℕ Descriptor → FilePath
path_or (ok d) = d.path
path_or (err e) = []

fstat_of :
    (fd : Descriptor) (w : Disk) (s : Stat)
    → record {
      is_regular = true;
      st_nlink = links fd.file w.names;
      st_uid = 0;
      st_size = length (w.contents fd.file);
    }
      ≡ s
    → (s.st_size ≡ length (w.contents fd.file))
      × (s.st_nlink ≡ 1
          → (p q : FilePath) → lookup p w.names ≡ some fd.file
          → lookup q w.names ≡ some fd.file
          → p ≡ q)
fstat_of fd w s e = (
  sym (ap (λ (x : Stat). x.st_size) e),
  λ one p q a b. lookup_unique p q fd.file w.names (ap (λ (x : Stat). x.st_nlink) e ∙ one) a b,
)

pub disk_laws : FileLaws view
disk_laws = record {
  create_directories_law = λ p w. no_change w w refl refl refl;
  create_directory_law = λ p w. no_change w w refl refl refl;
  mkdir_law = λ p w. no_change w w refl refl refl;
  open_directory_law = λ p w. (no_change w w refl refl refl, λ d e. sym (ap path_or e));
  openat_law = λ d name w. inr (open_name-Opened d name w _ refl);
  fstat_law = λ fd w s e. fstat_of fd w s (some-injective _ _ e);
  flock_law = λ fd w. no_change w w refl refl refl;
  read_law = λ fd n w. read_some-ReadWell fd n w _ refl;
  write_law = λ fd b w. write_some-WriteWell fd w b;
  ftruncate_law = λ fd w. (
    record {
      same_files = λ p. refl;
      same_others = λ g other. at_number_other fd.file g [] w.contents other;
      quieter = omega arith;
    },
    refl,
    λ e. at_number_same fd.file [] w.contents,
  );
  lseek_law = λ fd w. (
    record { same_files = λ p. refl; same_others = λ g other. refl; quieter = omega arith },
    refl,
    λ e. at_number_same fd.file 0 w.positions,
  );
  fsync_law = λ fd w. no_change w w refl refl refl;
  unlinkat_law =
      λ d name w. (λ p other. lookup-remove p (d.path ++ (name ∷ [])) w.names other, λ g. refl);
  rename_law = λ p q w. rename_file-moves p q w _ refl;
}

abbrev pub peer_closed : FrameIoResult
peer_closed = record frame_io_default { status = FrameIoStatus.peer_closed }

abbrev pub pop_frame : List Frame → Disk → Outcome FrameIoResult Frame × Disk
pop_frame [] w = (err peer_closed, w)
pop_frame (frame ∷ frames) w = (ok frame, record w { inbox = frames })

-- A connection on the same state: it takes every frame, and gives those of the inbox.
abbrev pub disk_link : Link
disk_link = record {
  World = Disk;
  send = λ frame w. (frame_io_default, record w { outbox = w.outbox ++ (frame ∷ []) });
  receive = λ w. pop_frame w.inbox w;
}

pub disk_link_leaves : LeavesFiles disk_link view
disk_link_leaves = record {
  send_law = λ frame w. no_change w (record w { outbox = w.outbox ++ (frame ∷ []) }) refl refl refl;
  receive_law = λ w. by_inbox w w.inbox;
}
  where
    by_inbox : (w : Disk) (frames : List Frame) → Same view w (pop_frame frames w).1
    by_inbox w [] = no_change w w refl refl refl
    by_inbox w (frame ∷ frames) = no_change w (record w { inbox = frames }) refl refl refl
