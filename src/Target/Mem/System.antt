-- ===== src/Target/Mem/System.antt =====
-- mem.go: packages, services, containers and commands.
use scampi.Base.{
  ℕ, ◌+◌, Bool, true, false, not, Option, none, some, List, [], ◌∷◌, ◌++◌, Bytes, bytes_eq,
  if◌then◌else◌, lookup, insert, delete, Result, ok, err,
}
use scampi.Target.Kinds.{
  TargetError, not_exist, locate_failed, no_cache_info, index_panic, ContainerInfo, CommandResult,
}
use scampi.Target.Mem.{MemTarget, get}

unfoldable pub is_installed : MemTarget → Bytes → Bool
is_installed m pkg = get false pkg m.pkgs

abbrev pub add_pkgs : List Bytes → List (Bytes × Bool) → List (Bytes × Bool)
add_pkgs [] pkgs = pkgs
add_pkgs (pkg ∷ rest) pkgs = add_pkgs rest (insert pkg true pkgs)

-- The error names `pkgs[0]`, which panics on an empty list.
abbrev stale_error : List Bytes → TargetError
stale_error [] = index_panic
stale_error (pkg ∷ rest) = locate_failed pkg

unfoldable pub install_pkgs : List Bytes → MemTarget → Result TargetError MemTarget
install_pkgs pkgs m =
    if m.cache_stale then err (stale_error pkgs) else ok (record m { pkgs = add_pkgs pkgs m.pkgs })

abbrev pub drop_pkgs : List Bytes → List (Bytes × Bool) → List (Bytes × Bool)
drop_pkgs [] pkgs = pkgs
drop_pkgs (pkg ∷ rest) pkgs = drop_pkgs rest (delete pkg pkgs)

unfoldable pub remove_pkgs : List Bytes → MemTarget → MemTarget
remove_pkgs pkgs m = record m { pkgs = drop_pkgs pkgs m.pkgs }

unfoldable pub update_cache : MemTarget → MemTarget
update_cache m = record m { cache_stale = false }

unfoldable pub cache_age : MemTarget → Result TargetError ℕ
cache_age m = err no_cache_info

unfoldable pub is_upgradable : MemTarget → Bytes → Bool
is_upgradable m pkg = get false pkg m.upgradable

unfoldable pub is_active : MemTarget → Bytes → Bool
is_active m name = get false name m.services

unfoldable pub is_enabled : MemTarget → Bytes → Bool
is_enabled m name = get false name m.enabled_services

unfoldable pub start_service : Bytes → MemTarget → MemTarget
start_service name m = record m { services = insert name true m.services }

unfoldable pub stop_service : Bytes → MemTarget → MemTarget
stop_service name m = record m { services = insert name false m.services }

unfoldable pub enable_service : Bytes → MemTarget → MemTarget
enable_service name m = record m { enabled_services = insert name true m.enabled_services }

unfoldable pub disable_service : Bytes → MemTarget → MemTarget
disable_service name m = record m { enabled_services = insert name false m.enabled_services }

unfoldable pub restart_service : Bytes → MemTarget → MemTarget
restart_service name m = record m { restarts = insert name (get 0 name m.restarts + 1) m.restarts }

unfoldable pub reload_service : Bytes → MemTarget → MemTarget
reload_service name m = record m { reloads = insert name (get 0 name m.reloads + 1) m.reloads }

unfoldable pub supports_reload : MemTarget → Bool
supports_reload m = not m.reload_unsupported

-- `none` for a container that is not there.
unfoldable pub inspect_container : MemTarget → Bytes → Option ContainerInfo
inspect_container m name = lookup name m.containers

unfoldable pub create_container : ContainerInfo → MemTarget → MemTarget
create_container opts m = record m {
  containers =
      insert opts.name
        (record {
          name = opts.name;
          image = opts.image;
          running = false;
          restart = opts.restart;
          ports = opts.ports;
          env = opts.env;
          mounts = opts.mounts;
          args = opts.args;
          labels = opts.labels;
          healthcheck = opts.healthcheck;
          health_status = [];
        })
        m.containers;
}

abbrev pub healthy : Bytes
healthy = b'h' ∷ b'e' ∷ b'a' ∷ b'l' ∷ b't' ∷ b'h' ∷ b'y' ∷ []

-- `StartContainer` on the entry that it read.
abbrev pub started : ContainerInfo → ContainerInfo
started info = record info {
  running = true;
  health_status = elim info.healthcheck [ none ↦ info.health_status | some _ ↦ healthy ];
}

abbrev start_found : Bytes → MemTarget → Option ContainerInfo → Result TargetError MemTarget
start_found name m none = err (not_exist name)
start_found name m (some info) =
    ok (record m { containers = insert name (started info) m.containers })

unfoldable pub start_container : Bytes → MemTarget → Result TargetError MemTarget
start_container name m = start_found name m (lookup name m.containers)

abbrev stop_found : Bytes → MemTarget → Option ContainerInfo → MemTarget
stop_found name m none = m
stop_found name m (some info) = record m {
  containers = insert name (record info { running = false }) m.containers;
}

unfoldable pub stop_container : Bytes → MemTarget → MemTarget
stop_container name m = stop_found name m (lookup name m.containers)

unfoldable pub remove_container : Bytes → MemTarget → MemTarget
remove_container name m = record m { containers = delete name m.containers }

-- `command not found`
abbrev pub command_missing : CommandResult
command_missing = record {
  stdout = [];
  stderr =
      b'c' ∷ b'o' ∷ b'm' ∷ b'm' ∷ b'a' ∷ b'n' ∷ b'd' ∷ b' ' ∷ b'n' ∷ b'o' ∷ b't' ∷ b' ' ∷ b'f'
      ∷ b'o' ∷ b'u' ∷ b'n' ∷ b'd' ∷ [];
  exit_code = 127;
}

abbrev answer :
    Bytes → Option (Bytes → Result TargetError CommandResult) → Result TargetError CommandResult
answer cmd none = ok command_missing
answer cmd (some fn) = fn cmd

unfoldable pub run_command : Bytes → MemTarget → Result TargetError CommandResult × MemTarget
run_command cmd m = (answer cmd m.command_func, record m { commands = m.commands ++ cmd ∷ [] })

unfoldable pub run_privileged : Bytes → MemTarget → Result TargetError CommandResult × MemTarget
unfolding run_command
run_privileged cmd m = run_command cmd m

unfoldable pub command_strings : MemTarget → List Bytes
command_strings m = m.commands
