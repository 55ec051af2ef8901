-- ===== src/Target/Mem/Stored.antt =====
-- What holds of the in-memory target's files after any operations on them, and what that means for
-- the operations that look at them.
use scampi.Base.{
  ◌≡◌, refl, inl, inr, true, Option, none, some, List, [], ◌∷◌, Bytes, bytes_eq, bytes_beq_iff,
  arith, Bool-cases, Option-cases, lookup, Result, ok, err,
}
use scampi.Target.Kinds.{TargetError}
use scampi.Target.Mem.{MemTarget, new_mem_target, is_found, has}
use scampi.Target.Mem.View.{
  View, Change, writes, makes, links, removes, sets_mode, sets_owner, sets_modes, sets_owners,
  perform, exists, intend, Keeps,
}
use scampi.Target.Mem.Refines.{Agrees, perform-Keeps}

-- An operation that fails leaves the target as it is.
abbrev pub after : MemTarget → Result TargetError MemTarget → MemTarget
after m (ok n) = n
after m (err e) = m

abbrev pub run : List Change → MemTarget → MemTarget
run [] m = m
run (c ∷ cs) m = run cs (after m (perform c m))

abbrev pub or_same : View → Option View → View
or_same v none = v
or_same v (some w) = w

abbrev pub meant : List Change → View → View
meant [] v = v
meant (c ∷ cs) v = meant cs (or_same v (intend c v))

abbrev pub nothing : View
nothing = record {
  file = λ p. none;
  dir = λ p. none;
  mode_of = λ p. none;
  owner_of = λ p. none;
  time_of = λ p. none;
  link = λ p. none;
}

after-Keeps :
    (m : MemTarget) (v : View) (r : Result TargetError MemTarget) (o : Option View)
    → Keeps m v
    → Agrees r o
    → Keeps (after m r) (or_same v o)
after-Keeps m v (ok n) (some w) h a = a
after-Keeps m v (err e) none h a = h
after-Keeps m v (ok n) none h a = absurd a
after-Keeps m v (err e) (some w) h a = absurd a

pub run-Keeps :
    (cs : List Change) (m : MemTarget) (v : View) → Keeps m v → Keeps (run cs m) (meant cs v)
run-Keeps [] m v h = h
run-Keeps (c ∷ cs) m v h = run-Keeps cs _ _ (after-Keeps m v _ _ h (perform-Keeps c m v h))

pub new_mem_target-Keeps : Keeps new_mem_target nothing
new_mem_target-Keeps = record {
  keeps_file = λ p. refl;
  keeps_dir = λ p. refl;
  keeps_mode = λ p. refl;
  keeps_owner = λ p. refl;
  keeps_time = λ p. refl;
  keeps_link = λ p. refl;
}

-- A file has a mode, an owner and a time; a directory's mode is the one in the map of modes, and it
-- has an owner.
pub record IsStored (v : View) : Type 0 where
  pub file_mode : (p : Bytes) → is_found (v.file p) ≡ true → is_found (v.mode_of p) ≡ true
  pub file_owner : (p : Bytes) → is_found (v.file p) ≡ true → is_found (v.owner_of p) ≡ true
  pub file_time : (p : Bytes) → is_found (v.file p) ≡ true → is_found (v.time_of p) ≡ true
  pub dir_mode : (p : Bytes) → is_found (v.dir p) ≡ true → v.mode_of p ≡ v.dir p
  pub dir_owner : (p : Bytes) → is_found (v.dir p) ≡ true → is_found (v.owner_of p) ≡ true

or_same-IsStored : (c : Change) (v : View) → IsStored v → IsStored (or_same v (intend c v))
unfolding intend
or_same-IsStored (writes now path content) v h = record {
  file_mode =
      λ p e. ground (arith, h.file_mode p, Option-cases (v.mode_of path), bytes_beq_iff path p);
  file_owner =
      λ p e. ground (arith, h.file_owner p, Option-cases (v.owner_of path), bytes_beq_iff path p);
  file_time = λ p e. ground (arith, h.file_time p);
  dir_mode = λ p e. ground (
    arith,
    h.dir_mode p,
    Option-cases (v.mode_of path),
    Option-cases (v.dir path),
    bytes_beq_iff path p,
  );
  dir_owner =
      λ p e. ground (arith, h.dir_owner p, Option-cases (v.owner_of path), bytes_beq_iff path p);
}
or_same-IsStored (makes path mode) v h = record {
  file_mode = λ p e. ground (arith, h.file_mode p);
  file_owner =
      λ p e. ground (arith, h.file_owner p, Option-cases (v.owner_of path), bytes_beq_iff path p);
  file_time = λ p e. ground (arith, h.file_time p);
  dir_mode = λ p e. ground (arith, h.dir_mode p);
  dir_owner =
      λ p e. ground (arith, h.dir_owner p, Option-cases (v.owner_of path), bytes_beq_iff path p);
}
or_same-IsStored (links target at) v h = record {
  file_mode = h.file_mode;
  file_owner = h.file_owner;
  file_time = h.file_time;
  dir_mode = h.dir_mode;
  dir_owner = h.dir_owner;
}
or_same-IsStored (removes path) v h = elim (Bool-cases (is_found (v.link path))) [
  | inl e ↦ rw (e) record {
    file_mode = h.file_mode;
    file_owner = h.file_owner;
    file_time = h.file_time;
    dir_mode = h.dir_mode;
    dir_owner = h.dir_owner;
  }
  | inr e ↦ elim (Bool-cases (is_found (v.dir path))) [
    | inl d ↦
        rw (e, d)
          record {
            file_mode = h.file_mode;
            file_owner = h.file_owner;
            file_time = h.file_time;
            dir_mode = λ p g. ground (arith, h.dir_mode p);
            dir_owner = λ p g. ground (arith, h.dir_owner p);
          }
    | inr d ↦ elim (Bool-cases (is_found (v.file path))) [
      | inl f ↦
          rw (e, d, f)
            record {
              file_mode = λ p g. ground (arith, h.file_mode p);
              file_owner = λ p g. ground (arith, h.file_owner p);
              file_time = λ p g. ground (arith, h.file_time p);
              dir_mode = λ p g. ground (arith, h.dir_mode p, bytes_beq_iff path p);
              dir_owner = λ p g. ground (arith, h.dir_owner p, bytes_beq_iff path p);
            }
      | inr f ↦ rw (e, d, f) h
    ]
  ]
]
or_same-IsStored (sets_mode now path mode) v h = elim (Bool-cases (exists v path)) [
  | inl e ↦ rw (e) record {
    file_mode = λ p g. ground (arith, h.file_mode p);
    file_owner = h.file_owner;
    file_time = λ p g. ground (arith, h.file_time p);
    dir_mode = λ p g. ground (arith, h.dir_mode p, Option-cases (v.dir p), bytes_beq_iff path p);
    dir_owner = λ p g. ground (arith, h.dir_owner p, Option-cases (v.dir p));
  }
  | inr e ↦ rw (e) h
]
or_same-IsStored (sets_owner path owner) v h = elim (Bool-cases (exists v path)) [
  | inl e ↦ rw (e) record {
    file_mode = h.file_mode;
    file_owner = λ p g. ground (arith, h.file_owner p);
    file_time = h.file_time;
    dir_mode = h.dir_mode;
    dir_owner = λ p g. ground (arith, h.dir_owner p);
  }
  | inr e ↦ rw (e) h
]
or_same-IsStored (sets_modes now path mode) v h = record {
  file_mode = λ p g. ground (arith, h.file_mode p);
  file_owner = h.file_owner;
  file_time = λ p g. ground (arith, h.file_time p);
  dir_mode = λ p g. ground (arith, h.dir_mode p, Option-cases (v.dir p));
  dir_owner = λ p g. ground (arith, h.dir_owner p, Option-cases (v.dir p));
}
or_same-IsStored (sets_owners path owner) v h = record {
  file_mode = h.file_mode;
  file_owner = λ p g. ground (arith, h.file_owner p);
  file_time = h.file_time;
  dir_mode = h.dir_mode;
  dir_owner = λ p g. ground (arith, h.dir_owner p);
}

meant-IsStored : (cs : List Change) (v : View) → IsStored v → IsStored (meant cs v)
meant-IsStored [] v h = h
meant-IsStored (c ∷ cs) v h = meant-IsStored cs _ (or_same-IsStored c v h)

nothing-IsStored : IsStored nothing
nothing-IsStored = record {
  file_mode = λ p e. cc;
  file_owner = λ p e. cc;
  file_time = λ p e. cc;
  dir_mode = λ p e. cc;
  dir_owner = λ p e. cc;
}

-- The invariant of the target, read from its maps.
pub record AreStored (m : MemTarget) : Type 0 where
  pub file_modes : (p : Bytes) → has p m.files ≡ true → has p m.modes ≡ true
  pub file_owners : (p : Bytes) → has p m.files ≡ true → has p m.owners ≡ true
  pub file_times : (p : Bytes) → has p m.files ≡ true → has p m.mod_times ≡ true
  pub dir_modes : (p : Bytes) → has p m.dirs ≡ true → lookup p m.modes ≡ lookup p m.dirs
  pub dir_owners : (p : Bytes) → has p m.dirs ≡ true → has p m.owners ≡ true

-- After any operations on files, failed ones included, from an empty target, each file has a mode,
-- an owner and a time, each directory has an owner, and the two maps that hold a directory's mode
-- agree.
pub run-AreStored : (cs : List Change) → AreStored (run cs new_mem_target)
run-AreStored cs =
    let k = run-Keeps cs new_mem_target nothing new_mem_target-Keeps in
    let h = meant-IsStored cs nothing nothing-IsStored in
    record {
      file_modes = λ p e. ground (arith, k.keeps_file p, k.keeps_mode p, h.file_mode p);
      file_owners = λ p e. ground (arith, k.keeps_file p, k.keeps_owner p, h.file_owner p);
      file_times = λ p e. ground (arith, k.keeps_file p, k.keeps_time p, h.file_time p);
      dir_modes = λ p e. ground (arith, k.keeps_dir p, k.keeps_mode p, h.dir_mode p);
      dir_owners = λ p e. ground (arith, k.keeps_dir p, k.keeps_owner p, h.dir_owner p);
    }
