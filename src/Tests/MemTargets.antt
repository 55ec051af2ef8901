-- ===== src/Tests/MemTargets.antt =====
-- internal/target/mem.go: some operations on an empty target.
use scampi.Base.{◌≡◌, ◌↔◌, refl, true, List, [], ◌∷◌, none, Bytes, bytes_eq, ok, err}
use scampi.Target.Kinds.{not_exist, ContainerInfo}
use scampi.Target.Mem.{MemTarget, new_mem_target}
use scampi.Target.Mem.Files.{stat, lstat, is_implicit_dir, mkdir, write_file, read_file, dir_info}
use scampi.Target.Mem.Modes.{chmod_recursive, chmod_files, chmod_dirs}
use scampi.Target.Mem.View.{writes, makes, sets_modes, perform, intend, Change}
use scampi.Target.Mem.Refines.{Agrees, perform-Keeps}
use scampi.Target.Mem.Stored.{run, nothing, AreStored, new_mem_target-Keeps, run-AreStored}
use scampi.Target.Mem.Looks.{IsAbsent, IsUnseen, stat-lstat_err}

-- `/d` and `/d/f`
abbrev dir : Bytes
dir = b'/' ∷ b'd' ∷ []

abbrev file : Bytes
file = b'/' ∷ b'd' ∷ b'/' ∷ b'f' ∷ []

abbrev changes : List Change
changes = makes dir 0o755 ∷ writes 5 file (b'x' ∷ []) ∷ sets_modes 6 dir 0o700 ∷ []

perform-Keeps_example :
    Agrees (perform (writes 5 file []) new_mem_target) (intend (writes 5 file []) nothing)
perform-Keeps_example = perform-Keeps (writes 5 file []) new_mem_target nothing new_mem_target-Keeps

run-AreStored_example : AreStored (run changes new_mem_target)
run-AreStored_example = run-AreStored changes

abbrev made : MemTarget
made = mkdir dir 0o755 new_mem_target

stat-lstat_err_example :
    ((stat made dir ≡ err (not_exist dir)) ↔ ((not_exist dir ≡ not_exist dir) × IsAbsent made dir))
    × ((lstat made dir ≡ err (not_exist dir))
        ↔ ((not_exist dir ≡ not_exist dir) × IsUnseen made dir))
stat-lstat_err_example = stat-lstat_err made dir (not_exist dir)

-- A directory that is empty.
empty_dir : (stat made dir ≡ ok (dir_info dir 0o755)) × (lstat made dir ≡ err (not_exist dir))
unfolding stat lstat is_implicit_dir mkdir
empty_dir = (refl, refl)

read_back : read_file (run changes new_mem_target) file ≡ ok (b'x' ∷ [])
unfolding read_file perform mkdir write_file chmod_recursive chmod_files chmod_dirs
read_back = refl

abbrev web : ContainerInfo
web = record {
  name = b'w' ∷ [];
  image = b'i' ∷ [];
  running = true;
  restart = [];
  ports = [];
  env = [];
  mounts = [];
  args = [];
  labels = [];
  healthcheck = none;
  health_status = [];
}
