-- ===== src/Target/Mem.antt =====
-- internal/target/mem.go: the state of the in-memory target. A map is an association list, in whose
-- order it is iterated. Each operation holds the lock throughout. `now` stands for `time.Now()`. An
-- operation that may fail returns the new state or an error.
pub mod Files
pub mod Modes
pub mod System
pub mod Accounts
pub mod View
pub mod Sweep
pub mod Refines
pub mod Stored
pub mod Looks
pub mod Effects
use Prim.Native.Nat.{bit_or, ◌^◌}
use scampi.Base.{
  ℕ, ◌+◌, Bool, true, false, not, ◌&&◌, ◌||◌, Option, none, some, List, [], ◌∷◌, ◌++◌, Bytes,
  bytes_eq, bytes_beq, has_prefix, ltb, elem, contains, if◌then◌else◌, length, drop, lookup, insert,
  delete, Result, ok, err,
}
use scampi.Target.Kinds.{
  TargetError, not_exist, Owner, ContainerInfo, CommandResult, UserInfo, GroupInfo, RepoConfig,
}

pub record MemTarget : Type 0 where
  pub files : List (Bytes × Bytes)
  pub dirs : List (Bytes × ℕ)
  pub modes : List (Bytes × ℕ)
  pub owners : List (Bytes × Owner)
  pub mod_times : List (Bytes × ℕ)
  pub symlinks : List (Bytes × Bytes)
  pub pkgs : List (Bytes × Bool)
  pub upgradable : List (Bytes × Bool)
  pub cache_stale : Bool
  pub services : List (Bytes × Bool)
  pub enabled_services : List (Bytes × Bool)
  pub restarts : List (Bytes × ℕ)
  pub reloads : List (Bytes × ℕ)
  pub reload_unsupported : Bool
  pub users : List (Bytes × UserInfo)
  pub groups : List (Bytes × GroupInfo)
  pub repos : List (Bytes × RepoConfig)
  pub repo_keys : List (Bytes × Bool)
  pub codename : Bytes
  pub containers : List (Bytes × ContainerInfo)
  pub commands : List Bytes
  pub command_func : Option (Bytes → Result TargetError CommandResult)

abbrev pub new_mem_target : MemTarget
new_mem_target = record {
  files = [];
  dirs = [];
  modes = [];
  owners = [];
  mod_times = [];
  symlinks = [];
  pkgs = [];
  upgradable = [];
  cache_stale = false;
  services = [];
  enabled_services = [];
  restarts = [];
  reloads = [];
  reload_unsupported = false;
  users = [];
  groups = [];
  repos = [];
  repo_keys = [];
  codename = [];
  containers = [];
  commands = [];
  command_func = none;
}

-- `_, ok := m[k]`
abbrev pub is_found {κ} : {V : Type κ} → Option V → Bool
is_found none = false
is_found (some v) = true

abbrev pub has {κ} : {V : Type κ} → Bytes → List (Bytes × V) → Bool
has k m = is_found (lookup k m)

-- The zero value for a key that is missing.
abbrev pub or_zero_value {κ} : {V : Type κ} → V → Option V → V
or_zero_value z none = z
or_zero_value z (some v) = v

abbrev pub get {κ} : {V : Type κ} → V → Bytes → List (Bytes × V) → V
get z k m = or_zero_value z (lookup k m)

-- Sets a key that is missing.
abbrev pub insert_new {κ} : {V : Type κ} → Bytes → V → List (Bytes × V) → List (Bytes × V)
insert_new k v m = if has k m then m else insert k v m
