-- ===== src/Target/Mem/Refines.antt =====
-- The maps of the in-memory target keep the view of its file system.
use scampi.Base.{
  ℕ, ◌≡◌, refl, inl, inr, ◌&&◌, Option, none, some, List, Bytes, bytes_eq, bytes_beq, bytes_beq_iff,
  arith, Bool-cases, Option-cases, lookup-insert, lookup-delete, if◌then◌else◌, lookup, insert,
  delete, Result, ok, err,
}
use scampi.Target.Kinds.{TargetError, Owner, not_exist}
use scampi.Target.Mem.{MemTarget, is_found, has, insert_new}
use scampi.Target.Mem.Files.{write_file, mkdir, symlink, remove}
use scampi.Target.Mem.Modes.{is_there, is_within, chmod, chmod_recursive, chown, chown_recursive}
use scampi.Target.Mem.Sweep.{
  sweep, lookup-sweep, chown_all-sweep, chmod_files-sweep, chmod_dirs-sweep,
}
use scampi.Target.Mem.View.{
  View, Change, writes, makes, links, removes, sets_mode, sets_owner, sets_modes, sets_owners,
  perform, set_at, keep, exists, intend, Keeps,
}

-- A change that the view refuses is an error of the target, and one that it takes is carried out.
abbrev pub Agrees : Result TargetError MemTarget → Option View → Type 0
Agrees (ok m) (some v) = Keeps m v
Agrees (ok m) none = ⊥
Agrees (err e) (some v) = ⊥
Agrees (err e) none = (p : Bytes) × (e ≡ not_exist p)

module _ {κ} {V : Type κ} where
  lookup-set_at :
      (k : Bytes) (v : V) (m : List (Bytes × V)) (f : Bytes → Option V)
      → ((p : Bytes) → lookup p m ≡ f p)
      → (p : Bytes) → lookup p (insert k v m) ≡ set_at k (some v) f p
  lookup-set_at k v m f h p = ground (arith, lookup-insert k p v m, h p)

  lookup-set_at_gone :
      (k : Bytes) (m : List (Bytes × V)) (f : Bytes → Option V)
      → ((p : Bytes) → lookup p m ≡ f p)
      → (p : Bytes) → lookup p (delete k m) ≡ set_at k none f p
  lookup-set_at_gone k m f h p = ground (arith, lookup-delete k p m, h p)

  lookup-insert_new :
      (k : Bytes) (v : V) (m : List (Bytes × V)) (f : Bytes → Option V)
      → ((p : Bytes) → lookup p m ≡ f p)
      → (p : Bytes) → lookup p (insert_new k v m) ≡ set_at k (keep v (f k)) f p
  lookup-insert_new k v m f h p =
      ground (arith, lookup-insert k p v m, h p, h k, Option-cases (f k), bytes_beq_iff k p)

write_file-Keeps :
    (now : ℕ) (path content : Bytes) (m : MemTarget) (v : View)
    → Keeps m v
    → Agrees (perform (writes now path content) m) (intend (writes now path content) v)
unfolding perform intend write_file
write_file-Keeps now path content m v h = record {
  keeps_file = lookup-set_at path content m.files v.file h.keeps_file;
  keeps_dir = h.keeps_dir;
  keeps_mode = lookup-insert_new path _ m.modes v.mode_of h.keeps_mode;
  keeps_owner = lookup-insert_new path _ m.owners v.owner_of h.keeps_owner;
  keeps_time = lookup-set_at path _ m.mod_times v.time_of h.keeps_time;
  keeps_link = h.keeps_link;
}

mkdir-Keeps :
    (path : Bytes) (mode : ℕ) (m : MemTarget) (v : View)
    → Keeps m v
    → Agrees (perform (makes path mode) m) (intend (makes path mode) v)
unfolding perform intend mkdir
mkdir-Keeps path mode m v h = record {
  keeps_file = h.keeps_file;
  keeps_dir = lookup-set_at path _ m.dirs v.dir h.keeps_dir;
  keeps_mode = lookup-set_at path _ m.modes v.mode_of h.keeps_mode;
  keeps_owner = lookup-insert_new path _ m.owners v.owner_of h.keeps_owner;
  keeps_time = h.keeps_time;
  keeps_link = h.keeps_link;
}

symlink-Keeps :
    (target at : Bytes) (m : MemTarget) (v : View)
    → Keeps m v
    → Agrees (perform (links target at) m) (intend (links target at) v)
unfolding perform intend symlink
symlink-Keeps target at m v h = record {
  keeps_file = h.keeps_file;
  keeps_dir = h.keeps_dir;
  keeps_mode = h.keeps_mode;
  keeps_owner = h.keeps_owner;
  keeps_time = h.keeps_time;
  keeps_link = lookup-set_at at _ m.symlinks v.link h.keeps_link;
}

remove-Keeps :
    (path : Bytes) (m : MemTarget) (v : View)
    → Keeps m v
    → Agrees (perform (removes path) m) (intend (removes path) v)
unfolding perform intend remove
remove-Keeps path m v h = elim (Option-cases (v.link path)) [
  | inr (t, e) ↦
      rw (h.keeps_link path, e)
        record {
          keeps_file = h.keeps_file;
          keeps_dir = h.keeps_dir;
          keeps_mode = h.keeps_mode;
          keeps_owner = h.keeps_owner;
          keeps_time = h.keeps_time;
          keeps_link = lookup-set_at_gone path m.symlinks v.link h.keeps_link;
        }
  | inl e ↦ elim (Option-cases (v.dir path)) [
    | inr (mode, d) ↦
        rw (h.keeps_link path, h.keeps_dir path, e, d)
          record {
            keeps_file = h.keeps_file;
            keeps_dir = lookup-set_at_gone path m.dirs v.dir h.keeps_dir;
            keeps_mode = h.keeps_mode;
            keeps_owner = h.keeps_owner;
            keeps_time = h.keeps_time;
            keeps_link = h.keeps_link;
          }
    | inl d ↦ elim (Option-cases (v.file path)) [
      | inr (content, f) ↦
          rw (h.keeps_link path, h.keeps_dir path, h.keeps_file path, e, d, f)
            record {
              keeps_file = lookup-set_at_gone path m.files v.file h.keeps_file;
              keeps_dir = h.keeps_dir;
              keeps_mode = lookup-set_at_gone path m.modes v.mode_of h.keeps_mode;
              keeps_owner = lookup-set_at_gone path m.owners v.owner_of h.keeps_owner;
              keeps_time = lookup-set_at_gone path m.mod_times v.time_of h.keeps_time;
              keeps_link = h.keeps_link;
            }
      | inl f ↦ rw (h.keeps_link path, h.keeps_dir path, h.keeps_file path, e, d, f) (path, refl)
    ]
  ]
]

-- The conditional of `Chmod` on directories.
lookup-set_at_if :
    {V : Type 0} (k : Bytes) (v : V) (m : List (Bytes × V)) (f : Bytes → Option V)
    → ((p : Bytes) → lookup p m ≡ f p)
    → (p : Bytes)
    → lookup p (if has k m then insert k v m else m)
      ≡ (if bytes_beq k p && is_found (f p) then some v else f p)
lookup-set_at_if k v m f h p =
    ground (arith, lookup-insert k p v m, h p, h k, Option-cases (f k), bytes_beq_iff k p)

is_there-exists :
    (m : MemTarget) (v : View) (path : Bytes) → Keeps m v → is_there m path ≡ exists v path
is_there-exists m v path h = rw (h.keeps_file path, h.keeps_dir path) refl

chmod-Keeps :
    (now : ℕ) (path : Bytes) (mode : ℕ) (m : MemTarget) (v : View)
    → Keeps m v
    → Agrees (perform (sets_mode now path mode) m) (intend (sets_mode now path mode) v)
unfolding perform intend chmod
chmod-Keeps now path mode m v h = elim (Bool-cases (exists v path)) [
  | inl e ↦
      rw (is_there-exists m v path h, e)
        record {
          keeps_file = h.keeps_file;
          keeps_dir = lookup-set_at_if path mode m.dirs v.dir h.keeps_dir;
          keeps_mode = lookup-set_at path _ m.modes v.mode_of h.keeps_mode;
          keeps_owner = h.keeps_owner;
          keeps_time = lookup-set_at path _ m.mod_times v.time_of h.keeps_time;
          keeps_link = h.keeps_link;
        }
  | inr e ↦ rw (is_there-exists m v path h, e) (path, refl)
]

chown-Keeps :
    (path : Bytes) (owner : Owner) (m : MemTarget) (v : View)
    → Keeps m v
    → Agrees (perform (sets_owner path owner) m) (intend (sets_owner path owner) v)
unfolding perform intend chown
chown-Keeps path owner m v h = elim (Bool-cases (exists v path)) [
  | inl e ↦
      rw (is_there-exists m v path h, e)
        record {
          keeps_file = h.keeps_file;
          keeps_dir = h.keeps_dir;
          keeps_mode = h.keeps_mode;
          keeps_owner = lookup-set_at path _ m.owners v.owner_of h.keeps_owner;
          keeps_time = h.keeps_time;
          keeps_link = h.keeps_link;
        }
  | inr e ↦ rw (is_there-exists m v path h, e) (path, refl)
]

-- A sweep over the files and one over the directories, on the same map.
lookup-sweeps :
    {W : Type 0} (path : Bytes) (w : W) (m : MemTarget) (v : View) (h : Keeps m v)
    (t : List (Bytes × W)) (f : Bytes → Option W)
    → ((p : Bytes) → lookup p t ≡ f p)
    → (p : Bytes)
    → lookup p (sweep path w m.dirs (sweep path w m.files t))
      ≡ (if is_within path p && exists v p then some w else f p)
lookup-sweeps path w m v h t f same p = ground (
  arith,
  lookup-sweep path w m.dirs (sweep path w m.files t) p,
  lookup-sweep path w m.files t p,
  same p,
  h.keeps_file p,
  h.keeps_dir p,
)

lookup-sweep_one :
    {W V : Type 0} (path : Bytes) (w : W) (keys : List (Bytes × V)) (g : Bytes → Option V)
    (t : List (Bytes × W)) (f : Bytes → Option W)
    → ((p : Bytes) → lookup p keys ≡ g p)
    → ((p : Bytes) → lookup p t ≡ f p)
    → (p : Bytes)
    → lookup p (sweep path w keys t) ≡ (if is_within path p && is_found (g p) then some w else f p)
lookup-sweep_one path w keys g t f hg hf p =
    ground (arith, lookup-sweep path w keys t p, hg p, hf p)

chown_recursive-Keeps :
    (path : Bytes) (owner : Owner) (m : MemTarget) (v : View)
    → Keeps m v
    → Agrees (perform (sets_owners path owner) m) (intend (sets_owners path owner) v)
unfolding perform intend chown_recursive
chown_recursive-Keeps path owner m v h =
    rw (chown_all-sweep path owner m.files m, chown_all-sweep path owner m.dirs)
      record {
        keeps_file = h.keeps_file;
        keeps_dir = h.keeps_dir;
        keeps_mode = h.keeps_mode;
        keeps_owner = lookup-sweeps path owner m v h m.owners v.owner_of h.keeps_owner;
        keeps_time = h.keeps_time;
        keeps_link = h.keeps_link;
      }

chmod_recursive-Keeps :
    (now : ℕ) (path : Bytes) (mode : ℕ) (m : MemTarget) (v : View)
    → Keeps m v
    → Agrees (perform (sets_modes now path mode) m) (intend (sets_modes now path mode) v)
unfolding perform intend chmod_recursive
chmod_recursive-Keeps now path mode m v h =
    rw (chmod_files-sweep now path mode m.files m, chmod_dirs-sweep path mode m.dirs)
      record {
        keeps_file = h.keeps_file;
        keeps_dir = lookup-sweep_one path mode m.dirs v.dir m.dirs v.dir h.keeps_dir h.keeps_dir;
        keeps_mode = lookup-sweeps path mode m v h m.modes v.mode_of h.keeps_mode;
        keeps_owner = h.keeps_owner;
        keeps_time =
            lookup-sweep_one path now m.files v.file m.mod_times v.time_of h.keeps_file
              h.keeps_time;
        keeps_link = h.keeps_link;
      }

-- On a target that keeps a view, an operation on files fails exactly where the view says so, with
-- `ErrNotExist`; otherwise the target keeps the changed view: contents, directories, modes, owners,
-- times and links at every path, for the recursive operations too.
pub perform-Keeps :
    (c : Change) (m : MemTarget) (v : View) → Keeps m v → Agrees (perform c m) (intend c v)
perform-Keeps (writes now path content) m v h = write_file-Keeps now path content m v h
perform-Keeps (makes path mode) m v h = mkdir-Keeps path mode m v h
perform-Keeps (links target at) m v h = symlink-Keeps target at m v h
perform-Keeps (removes path) m v h = remove-Keeps path m v h
perform-Keeps (sets_mode now path mode) m v h = chmod-Keeps now path mode m v h
perform-Keeps (sets_owner path owner) m v h = chown-Keeps path owner m v h
perform-Keeps (sets_modes now path mode) m v h = chmod_recursive-Keeps now path mode m v h
perform-Keeps (sets_owners path owner) m v h = chown_recursive-Keeps path owner m v h
