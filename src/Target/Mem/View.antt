-- ===== src/Target/Mem/View.antt =====
-- What the file system of the in-memory target promises, apart from how its maps are kept: partial
-- functions of the path, and an operation on them for each change.
use scampi.Base.{
  ℕ, ◌≡◌, Bool, ◌&&◌, ◌||◌, Option, none, some, Bytes, bytes_eq, bytes_beq, if◌then◌else◌, lookup,
  Result, ok,
}
use scampi.Target.Kinds.{TargetError, Owner}
use scampi.Target.Mem.{MemTarget, is_found}
use scampi.Target.Mem.Files.{test_owner, write_file, mkdir, symlink, remove}
use scampi.Target.Mem.Modes.{is_within, chmod, chmod_recursive, chown, chown_recursive}

pub record View : Type 0 where
  pub file : Bytes → Option Bytes
  pub dir : Bytes → Option ℕ
  pub mode_of : Bytes → Option ℕ
  pub owner_of : Bytes → Option Owner
  pub time_of : Bytes → Option ℕ
  pub link : Bytes → Option Bytes

-- The operations that change the file system.
pub data Change : Type 0 where
  writes : ℕ → Bytes → Bytes → Change
  makes : Bytes → ℕ → Change
  links : Bytes → Bytes → Change
  removes : Bytes → Change
  sets_mode : ℕ → Bytes → ℕ → Change
  sets_owner : Bytes → Owner → Change
  sets_modes : ℕ → Bytes → ℕ → Change
  sets_owners : Bytes → Owner → Change

unfoldable pub perform : Change → MemTarget → Result TargetError MemTarget
perform (writes now path content) m = ok (write_file now path content m)
perform (makes path mode) m = ok (mkdir path mode m)
perform (links target link) m = ok (symlink target link m)
perform (removes path) m = remove path m
perform (sets_mode now path mode) m = chmod now path mode m
perform (sets_owner path owner) m = chown path owner m
perform (sets_modes now path mode) m = ok (chmod_recursive now path mode m)
perform (sets_owners path owner) m = ok (chown_recursive path owner m)

-- The function with one value replaced.
abbrev pub set_at {κ} : {V : Type κ} → Bytes → Option V → (Bytes → Option V) → Bytes → Option V
set_at k v f j = if bytes_beq k j then v else f j

abbrev pub keep {κ} : {V : Type κ} → V → Option V → Option V
keep v none = some v
keep v (some w) = some w

abbrev pub exists : View → Bytes → Bool
exists v p = is_found (v.file p) || is_found (v.dir p)

unfoldable pub intend : Change → View → Option View
intend (writes now path content) v = some (record v {
  file = set_at path (some content) v.file;
  mode_of = set_at path (keep 0o644 (v.mode_of path)) v.mode_of;
  owner_of = set_at path (keep test_owner (v.owner_of path)) v.owner_of;
  time_of = set_at path (some now) v.time_of;
})
intend (makes path mode) v = some (record v {
  dir = set_at path (some mode) v.dir;
  mode_of = set_at path (some mode) v.mode_of;
  owner_of = set_at path (keep test_owner (v.owner_of path)) v.owner_of;
})
intend (links target at) v = some (record v { link = set_at at (some target) v.link })
intend (removes path) v =
    if is_found (v.link path)
    then some (record v { link = set_at path none v.link })
    else if is_found (v.dir path)
    then some (record v { dir = set_at path none v.dir })
    else if is_found (v.file path)
    then some (record v {
      file = set_at path none v.file;
      mode_of = set_at path none v.mode_of;
      owner_of = set_at path none v.owner_of;
      time_of = set_at path none v.time_of;
    })
    else none
intend (sets_mode now path mode) v =
    if exists v path
    then some (record v {
      dir = λ p. if bytes_beq path p && is_found (v.dir p) then some mode else v.dir p;
      mode_of = set_at path (some mode) v.mode_of;
      time_of = set_at path (some now) v.time_of;
    })
    else none
intend (sets_owner path owner) v =
    if exists v path
    then some (record v { owner_of = set_at path (some owner) v.owner_of })
    else none
intend (sets_modes now path mode) v = some (record v {
  dir = λ p. if is_within path p && is_found (v.dir p) then some mode else v.dir p;
  mode_of = λ p. if is_within path p && exists v p then some mode else v.mode_of p;
  time_of = λ p. if is_within path p && is_found (v.file p) then some now else v.time_of p;
})
intend (sets_owners path owner) v = some (record v {
  owner_of = λ p. if is_within path p && exists v p then some owner else v.owner_of p;
})

-- The target keeps the view.
pub record Keeps (m : MemTarget) (v : View) : Type 0 where
  pub keeps_file : (p : Bytes) → lookup p m.files ≡ v.file p
  pub keeps_dir : (p : Bytes) → lookup p m.dirs ≡ v.dir p
  pub keeps_mode : (p : Bytes) → lookup p m.modes ≡ v.mode_of p
  pub keeps_owner : (p : Bytes) → lookup p m.owners ≡ v.owner_of p
  pub keeps_time : (p : Bytes) → lookup p m.mod_times ≡ v.time_of p
  pub keeps_link : (p : Bytes) → lookup p m.symlinks ≡ v.link p
