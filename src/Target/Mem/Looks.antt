-- ===== src/Target/Mem/Looks.antt =====
-- What `Stat`, `Lstat`, `ReadFile` and `GetOwner` see of the files.
use scampi.Base.{
  ℕ, ◌≡◌, ◌↔◌, refl, subst, sym, ap, ◌∙◌, inl, inr, true, false, not, some, List, [], ◌∷◌, Bytes,
  bytes_eq, bytes_beq_iff, beq_refl, arith, Bool-cases, Option-cases, lookup-insert, if◌then◌else◌,
  lookup, insert, Result, ok, err,
}
use Prim.Native.Nat.{bit_or}
use scampi.Target.Kinds.{TargetError, Owner, not_exist}
use scampi.Target.Mem.{MemTarget, new_mem_target, has}
use scampi.Target.Mem.Files.{
  any_below, dir_prefix, is_implicit_dir, is_root, goes_below, stat, lstat, MemFileInfo, mode_dir,
  file_info, dir_info,
}
use scampi.Target.Mem.Modes.{is_there, get_owner, chmod}
use scampi.Target.Mem.View.{Change}
use scampi.Target.Mem.Stored.{run, run-AreStored}

module _ {κ} {V : Type κ} where
  any_below-false :
      (prefix : Bytes) (m : List (Bytes × V))
      → any_below prefix m ≡ false
      → (p : Bytes) → goes_below prefix p ≡ true
      → has p m ≡ false
  any_below-false prefix [] h p b = refl
  any_below-false prefix ((q, v) ∷ m) h p b =
      ground (arith, bytes_beq_iff q p, any_below-false prefix m (ground arith) p b)

  any_below-has :
      (prefix : Bytes) (m : List (Bytes × V))
      → ((p : Bytes) → goes_below prefix p ≡ true → has p m ≡ false)
      → any_below prefix m ≡ false
  any_below-has prefix [] h = refl
  any_below-has prefix ((q, v) ∷ m) h = ground (
    arith,
    beq_refl ⦃e = bytes_eq⦄ q,
    h q,
    any_below-has prefix m (λ p b. ground (arith, h p b, bytes_beq_iff q p)),
  )

-- No file and no link is below the path.
abbrev pub IsBare : MemTarget → Bytes → Type 0
IsBare m path =
    (p : Bytes)
    → goes_below (dir_prefix path) p ≡ true
    → (has p m.files ≡ false) × (has p m.symlinks ≡ false)

is_implicit_dir_iff :
    (m : MemTarget) (path : Bytes) → (is_implicit_dir m path ≡ false) ↔ IsBare m path
unfolding is_implicit_dir
is_implicit_dir_iff m path = (
  λ h p b. (
    any_below-false (dir_prefix path) m.files (ground arith) p b,
    any_below-false (dir_prefix path) m.symlinks (ground arith) p b,
  ),
  λ h.
      let f = any_below-has (dir_prefix path) m.files (λ p b. (h p b).0) in
      let s = any_below-has (dir_prefix path) m.symlinks (λ p b. (h p b).1) in ground arith,
)

abbrev pub IsAbsent : MemTarget → Bytes → Type 0
IsAbsent m path =
    (is_root path ≡ false) × (has path m.files ≡ false) × (has path m.dirs ≡ false) × IsBare m path

abbrev pub IsUnseen : MemTarget → Bytes → Type 0
IsUnseen m path =
    (is_root path ≡ false)
    × (has path m.symlinks ≡ false)
    × (has path m.files ≡ false)
    × IsBare m path

stat_err :
    (m : MemTarget) (path : Bytes) (e : TargetError)
    → stat m path ≡ err e
    → (e ≡ not_exist path) × IsAbsent m path
unfolding stat
stat_err m path e h = elim (Bool-cases (is_implicit_dir m path)) [
  | inl i ↦ ground (arith, Option-cases (lookup path m.files), Option-cases (lookup path m.dirs))
  | inr i ↦
      let bare = (is_implicit_dir_iff m path).0 i in
      let (name, root, file, dir) : (e ≡ not_exist path)
          × (is_root path ≡ false)
          × (has path m.files ≡ false)
          × (has path m.dirs ≡ false) =
        ground (arith, Option-cases (lookup path m.files), Option-cases (lookup path m.dirs)) in
      (name, (root, file, dir, bare))
]

stat_absent : (m : MemTarget) (path : Bytes) → IsAbsent m path → stat m path ≡ err (not_exist path)
unfolding stat
stat_absent m path (root, file, dir, bare) =
    let i = (is_implicit_dir_iff m path).1 bare in
    ground (arith, Option-cases (lookup path m.files), Option-cases (lookup path m.dirs))

lstat_err :
    (m : MemTarget) (path : Bytes) (e : TargetError)
    → lstat m path ≡ err e
    → (e ≡ not_exist path) × IsUnseen m path
unfolding lstat
lstat_err m path e h = elim (Bool-cases (is_implicit_dir m path)) [
  | inl i ↦
      ground (arith, Option-cases (lookup path m.files), Option-cases (lookup path m.symlinks))
  | inr i ↦
      let bare = (is_implicit_dir_iff m path).0 i in
      let (name, root, link, file) : (e ≡ not_exist path)
          × (is_root path ≡ false)
          × (has path m.symlinks ≡ false)
          × (has path m.files ≡ false) =
        ground (arith, Option-cases (lookup path m.files), Option-cases (lookup path m.symlinks)) in
      (name, (root, link, file, bare))
]

lstat_unseen :
    (m : MemTarget) (path : Bytes) → IsUnseen m path → lstat m path ≡ err (not_exist path)
unfolding lstat
lstat_unseen m path (root, link, file, bare) =
    let i = (is_implicit_dir_iff m path).1 bare in
    ground (arith, Option-cases (lookup path m.files), Option-cases (lookup path m.symlinks))

-- `Stat` fails exactly at a path other than the root that is no file and no directory and has no
-- file and no link below it; `Lstat` fails exactly at such a path that is no link and no file and
-- has none below it, so it does not see a directory that is empty. The error names the path.
pub stat-lstat_err :
    (m : MemTarget) (path : Bytes) (e : TargetError)
    → ((stat m path ≡ err e) ↔ ((e ≡ not_exist path) × IsAbsent m path))
      × ((lstat m path ≡ err e) ↔ ((e ≡ not_exist path) × IsUnseen m path))
stat-lstat_err m path e = (
  (stat_err m path e, λ h. stat_absent m path h.1 ∙ ap (λ x. err x) (sym h.0)),
  (lstat_err m path e, λ h. lstat_unseen m path h.1 ∙ ap (λ x. err x) (sym h.0)),
)

-- After any operations on files from an empty target, `GetOwner` returns an owner that is stored, or
-- fails with `ErrNotExist` at a path that is neither a file nor a directory, so it never returns
-- the zero value that a missing entry would give.
pub get_owner-run :
    (cs : List Change) (path : Bytes)
    → let m = run cs new_mem_target in
      ((o : Owner) → get_owner m path ≡ ok o → lookup path m.owners ≡ some o)
      × ((e : TargetError)
          → get_owner m path ≡ err e
          → (e ≡ not_exist path) × (is_there m path ≡ false))
unfolding get_owner
get_owner-run cs path =
    let h = run-AreStored cs in
    let m = run cs new_mem_target in
    (
      λ o g.
          ground
            (arith, h.file_owners path, h.dir_owners path, Option-cases (lookup path m.owners)),
      λ e g. ground arith,
    )

abbrev chmodded : ℕ → Bytes → ℕ → MemTarget → MemTarget
chmodded now path mode m = record m {
  modes = insert path mode m.modes;
  mod_times = insert path now m.mod_times;
  dirs = if has path m.dirs then insert path mode m.dirs else m.dirs;
}

-- `Stat` answered for a path whose mode was set.
abbrev pub Sees : MemTarget → Bytes → ℕ → Result TargetError MemFileInfo → Type 0
Sees m path mode r =
    (info : MemFileInfo) × (r ≡ ok info)
    × (info.mode ≡ (if has path m.files then mode else bit_or mode_dir mode))
    × (info.is_dir ≡ not (has path m.files))

-- A mode that `Chmod` sets is the one that `Stat` reports, with the directory bit where there is no
-- file at the path.
pub stat-chmod :
    (now : ℕ) (path : Bytes) (mode : ℕ) (m n : MemTarget)
    → is_root path ≡ false
    → chmod now path mode m ≡ ok n
    → Sees m path mode (stat n path)
unfolding chmod stat
stat-chmod now path mode m n r h = elim (Bool-cases (is_there m path)) [
  | inr e ↦ absurd (ground arith)
  | inl e ↦
      let made : chmodded now path mode m ≡ n = ground arith in
      subst (λ t. Sees m path mode (stat t path)) made
        (elim (Option-cases (lookup path m.files)) [
          | inr (content, f) ↦ (
            file_info (chmodded now path mode m) path content,
            rw (r, f) refl,
            rw (f, lookup-insert path path mode m.modes, beq_refl path) refl,
            rw (f) refl,
          )
          | inl f ↦
              let d : has path m.dirs ≡ true = ground arith in
              (
                dir_info path mode,
                rw (r, f, d, lookup-insert path path mode m.dirs, beq_refl path) refl,
                rw (f) refl,
                rw (f) refl,
              )
        ])
]
