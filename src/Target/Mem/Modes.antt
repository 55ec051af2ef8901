-- ===== src/Target/Mem/Modes.antt =====
-- mem.go: modes and owners.
use scampi.Base.{
  ℕ, Bool, true, not, ◌||◌, List, [], ◌∷◌, Bytes, bytes_eq, bytes_beq, if◌then◌else◌, insert,
  Result, ok, err,
}
use scampi.Target.Kinds.{TargetError, not_exist, Owner}
use scampi.Target.Mem.Files.{goes_below, dir_prefix, no_owner}
use scampi.Target.Mem.{MemTarget, has, get}

-- `isFile || isDir`
abbrev pub is_there : MemTarget → Bytes → Bool
is_there m path = has path m.files || has path m.dirs

unfoldable pub chmod : ℕ → Bytes → ℕ → MemTarget → Result TargetError MemTarget
chmod now path mode m =
    if not (is_there m path)
    then err (not_exist path)
    else ok (record m {
      modes = insert path mode m.modes;
      mod_times = insert path now m.mod_times;
      dirs = if has path m.dirs then insert path mode m.dirs else m.dirs;
    })

-- `p == path`, or `p` is below `path`.
abbrev pub is_within : Bytes → Bytes → Bool
is_within path p = bytes_beq p path || goes_below (dir_prefix path) p

-- The two loops of `ChmodRecursive`.
unfoldable pub chmod_files : ℕ → Bytes → ℕ → List (Bytes × Bytes) → MemTarget → MemTarget
chmod_files now path mode [] m = m
chmod_files now path mode ((p, content) ∷ files) m = chmod_files now path mode files (
    if is_within path p
    then record m { modes = insert p mode m.modes; mod_times = insert p now m.mod_times }
    else m)

unfoldable pub chmod_dirs : Bytes → ℕ → List (Bytes × ℕ) → MemTarget → MemTarget
chmod_dirs path mode [] m = m
chmod_dirs path mode ((p, old) ∷ dirs) m = chmod_dirs path mode dirs (
    if is_within path p
    then record m { modes = insert p mode m.modes; dirs = insert p mode m.dirs }
    else m)

unfoldable pub chmod_recursive : ℕ → Bytes → ℕ → MemTarget → MemTarget
unfolding chmod_files chmod_dirs
chmod_recursive now path mode m =
    let m2 = chmod_files now path mode m.files m in chmod_dirs path mode m2.dirs m2

unfoldable pub chown : Bytes → Owner → MemTarget → Result TargetError MemTarget
chown path owner m =
    if not (is_there m path)
    then err (not_exist path)
    else ok (record m { owners = insert path owner m.owners })

-- The two loops of `ChownRecursive` differ in the map that they go over.
unfoldable pub chown_all {κ} :
    {V : Type κ} → Bytes → Owner → List (Bytes × V) → MemTarget → MemTarget
chown_all path owner [] m = m
chown_all path owner ((p, v) ∷ rest) m =
    chown_all path owner rest
      (if is_within path p then record m { owners = insert p owner m.owners } else m)

unfoldable pub chown_recursive : Bytes → Owner → MemTarget → MemTarget
unfolding chown_all
chown_recursive path owner m = chown_all path owner m.dirs (chown_all path owner m.files m)

unfoldable pub has_user : MemTarget → Bytes → Bool
has_user m name = true

unfoldable pub has_group : MemTarget → Bytes → Bool
has_group m name = true

unfoldable pub get_owner : MemTarget → Bytes → Result TargetError Owner
get_owner m path =
    if not (is_there m path) then err (not_exist path) else ok (get no_owner path m.owners)
