-- ===== src/Target/Mem/Files.antt =====
-- mem.go: files, directories and symbolic links.
use Prim.Native.Nat.{bit_or, ◌^◌}
use scampi.Base.{
  ℕ, Bool, true, false, not, ◌&&◌, ◌||◌, Option, none, some, List, [], ◌∷◌, ◌++◌, Bytes, bytes_eq,
  bytes_beq, has_prefix, ltb, elem, contains, if◌then◌else◌, length, drop, lookup, insert, delete,
  Result, ok, err, or_err,
}
use scampi.Target.Kinds.{TargetError, not_exist, Owner}
use scampi.Target.Mem.{MemTarget, has, get, insert_new}

unfoldable pub read_file : MemTarget → Bytes → Result TargetError Bytes
read_file m path = or_err (not_exist path) (lookup path m.files)

abbrev pub no_owner : Owner
no_owner = record { user = []; group = [] }

-- `testuser` and `testgroup`
abbrev pub test_owner : Owner
test_owner = record {
  user = b't' ∷ b'e' ∷ b's' ∷ b't' ∷ b'u' ∷ b's' ∷ b'e' ∷ b'r' ∷ [];
  group = b't' ∷ b'e' ∷ b's' ∷ b't' ∷ b'g' ∷ b'r' ∷ b'o' ∷ b'u' ∷ b'p' ∷ [];
}

unfoldable pub write_file : ℕ → Bytes → Bytes → MemTarget → MemTarget
write_file now path content m = record m {
  files = insert path content m.files;
  modes = insert_new path 0o644 m.modes;
  mod_times = insert path now m.mod_times;
  owners = insert_new path test_owner m.owners;
}

-- `path` starts with `prefix` and goes on.
abbrev pub goes_below : Bytes → Bytes → Bool
goes_below prefix path = ltb (length prefix) (length path) && has_prefix path prefix

abbrev pub dir_prefix : Bytes → Bytes
dir_prefix path = path ++ b'/' ∷ []

abbrev pub any_below {κ} : {V : Type κ} → Bytes → List (Bytes × V) → Bool
any_below prefix [] = false
any_below prefix ((p, v) ∷ m) = goes_below prefix p || any_below prefix m

unfoldable pub is_implicit_dir : MemTarget → Bytes → Bool
is_implicit_dir m path =
    any_below (dir_prefix path) m.files || any_below (dir_prefix path) m.symlinks

unfoldable pub direct_child : Bytes → Bytes → Option Bytes
direct_child path prefix =
    let rest = drop (length prefix) path in
    if not (goes_below prefix path) then none else if contains rest b'/' then none else some rest

pub record MemDirEntry : Type 0 where
  pub name : Bytes
  pub dir : Bool

abbrev add_entry :
    Bool → Option Bytes → List Bytes → List MemDirEntry → List Bytes × List MemDirEntry
add_entry dir none seen out = (seen, out)
add_entry dir (some name) seen out =
    if elem seen name
    then (seen, out)
    else (name ∷ seen, out ++ record { name = name; dir = dir } ∷ [])

-- One of the two loops of `ReadDir`.
unfoldable pub add_entries {κ} :
    {V : Type κ}
    → Bool
    → Bytes
    → List (Bytes × V)
    → List Bytes
    → List MemDirEntry
    → List Bytes × List MemDirEntry
unfolding direct_child
add_entries dir prefix [] seen out = (seen, out)
add_entries dir prefix ((p, v) ∷ m) seen out =
    let (seen2, out2) = add_entry dir (direct_child p prefix) seen out in
    add_entries dir prefix m seen2 out2

unfoldable pub read_dir : MemTarget → Bytes → Result TargetError (List MemDirEntry)
unfolding add_entries
read_dir m path =
    let prefix = dir_prefix path in
    let (seen, out) = add_entries false prefix m.files [] [] in
    if not (has path m.dirs) && not (has path m.files)
    then err (not_exist path)
    else ok (add_entries true prefix m.dirs seen out).1

pub record MemFileInfo : Type 0 where
  pub name : Bytes
  pub size : ℕ
  pub mode : ℕ
  pub mod_time : ℕ
  pub is_dir : Bool
  pub sys : Option Bytes

-- `fs.ModeDir` and `fs.ModeSymlink`
abbrev pub mode_dir : ℕ
mode_dir = 2 ^ 31

abbrev pub mode_symlink : ℕ
mode_symlink = 2 ^ 27

abbrev pub dir_info : Bytes → ℕ → MemFileInfo
dir_info name mode = record {
  name = name;
  size = 0;
  mode = bit_or mode_dir mode;
  mod_time = 0;
  is_dir = true;
  sys = none;
}

abbrev pub file_info : MemTarget → Bytes → Bytes → MemFileInfo
file_info m path content = record {
  name = path;
  size = length content;
  mode = get 0 path m.modes;
  mod_time = get 0 path m.mod_times;
  is_dir = false;
  sys = none;
}

abbrev pub link_info : Bytes → Bytes → MemFileInfo
link_info path target = record {
  name = path;
  size = 0;
  mode = bit_or mode_symlink 0o777;
  mod_time = 0;
  is_dir = false;
  sys = some target;
}

abbrev pub implicit_info : MemTarget → Bytes → Result TargetError MemFileInfo
implicit_info m path =
    if is_implicit_dir m path then ok (dir_info path 0o755) else err (not_exist path)

abbrev pub dir_or : MemTarget → Bytes → Option ℕ → Result TargetError MemFileInfo
dir_or m path none = implicit_info m path
dir_or m path (some mode) = ok (dir_info path mode)

abbrev pub file_or :
    MemTarget
    → Bytes
    → Result TargetError MemFileInfo
    → Option Bytes
    → Result TargetError MemFileInfo
file_or m path next none = next
file_or m path next (some content) = ok (file_info m path content)

abbrev pub is_root : Bytes → Bool
is_root path = bytes_beq path (b'/' ∷ [])

unfoldable pub stat : MemTarget → Bytes → Result TargetError MemFileInfo
stat m path =
    if is_root path
    then ok (dir_info path 0o755)
    else file_or m path (dir_or m path (lookup path m.dirs)) (lookup path m.files)

abbrev link_or :
    Bytes → Result TargetError MemFileInfo → Option Bytes → Result TargetError MemFileInfo
link_or path next none = next
link_or path next (some target) = ok (link_info path target)

unfoldable pub lstat : MemTarget → Bytes → Result TargetError MemFileInfo
lstat m path =
    if is_root path
    then ok (dir_info path 0o755)
    else link_or path (file_or m path (implicit_info m path) (lookup path m.files))
        (lookup path m.symlinks)

unfoldable pub mkdir : Bytes → ℕ → MemTarget → MemTarget
mkdir path mode m = record m {
  dirs = insert path mode m.dirs;
  modes = insert path mode m.modes;
  owners = insert_new path test_owner m.owners;
}

unfoldable pub read_link : MemTarget → Bytes → Result TargetError Bytes
read_link m path = or_err (not_exist path) (lookup path m.symlinks)

unfoldable pub symlink : Bytes → Bytes → MemTarget → MemTarget
symlink target link m = record m { symlinks = insert link target m.symlinks }

unfoldable pub remove : Bytes → MemTarget → Result TargetError MemTarget
remove path m =
    if has path m.symlinks
    then ok (record m { symlinks = delete path m.symlinks })
    else if has path m.dirs
    then ok (record m { dirs = delete path m.dirs })
    else if has path m.files
    then ok (record m {
      files = delete path m.files;
      modes = delete path m.modes;
      owners = delete path m.owners;
      mod_times = delete path m.mod_times;
    })
    else err (not_exist path)
