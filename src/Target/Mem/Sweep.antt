-- ===== src/Target/Mem/Sweep.antt =====
-- The loops of the recursive operations, as one sweep over each map that they set.
use scampi.Base.{
  ℕ, ◌≡◌, refl, ◌∙◌, inl, inr, ◌&&◌, Option, some, List, [], ◌∷◌, Bytes, bytes_eq, bytes_beq_iff,
  arith, Bool-cases, lookup-insert, if◌then◌else◌, lookup, insert,
}
use scampi.Target.Kinds.{Owner}
use scampi.Target.Mem.{MemTarget, has}
use scampi.Target.Mem.Modes.{is_within, chmod_files, chmod_dirs, chown_all}

-- What the loop of a recursive operation does to one map.
abbrev pub swept {κ χ} :
    {V : Type κ} {W : Type χ} → Bytes → W → List (Bytes × V) → Bytes → Option W → Option W
swept path w keys p old = if is_within path p && has p keys then some w else old

swept-cons {κ χ} :
    {V : Type κ} {W : Type χ} (path : Bytes) (w : W) (q : Bytes) (x : V) (keys : List (Bytes × V))
    (m : List (Bytes × W)) (p : Bytes)
    → swept path w keys p (lookup p (if is_within path q then insert q w m else m))
      ≡ swept path w ((q, x) ∷ keys) p (lookup p m)
swept-cons path w q x keys m p = ground (arith, lookup-insert q p w m, bytes_beq_iff q p)

abbrev pub sweep {κ χ} :
    {V : Type κ} {W : Type χ} → Bytes → W → List (Bytes × V) → List (Bytes × W) → List (Bytes × W)
sweep path w [] m = m
sweep path w ((q, x) ∷ keys) m = sweep path w keys (if is_within path q then insert q w m else m)

pub lookup-sweep {κ χ} :
    {V : Type κ} {W : Type χ} (path : Bytes) (w : W) (keys : List (Bytes × V))
    (m : List (Bytes × W)) (p : Bytes)
    → lookup p (sweep path w keys m) ≡ swept path w keys p (lookup p m)
lookup-sweep path w [] m p = ground arith
lookup-sweep path w ((q, x) ∷ keys) m p =
    lookup-sweep path w keys (if is_within path q then insert q w m else m) p
    ∙ swept-cons path w q x keys m p

pub chown_all-sweep {κ} :
    {V : Type κ} (path : Bytes) (owner : Owner) (keys : List (Bytes × V)) (m : MemTarget)
    → chown_all path owner keys m ≡ record m { owners = sweep path owner keys m.owners }
unfolding chown_all
chown_all-sweep path owner [] m = refl
chown_all-sweep path owner ((q, x) ∷ keys) m = elim (Bool-cases (is_within path q)) [
  | inl e ↦ rw (e) (chown_all-sweep path owner keys (record m { owners = insert q owner m.owners }))
  | inr e ↦ rw (e) (chown_all-sweep path owner keys m)
]

pub chmod_files-sweep :
    (now : ℕ) (path : Bytes) (mode : ℕ) (keys : List (Bytes × Bytes)) (m : MemTarget)
    → chmod_files now path mode keys m ≡ record m {
      modes = sweep path mode keys m.modes;
      mod_times = sweep path now keys m.mod_times;
    }
unfolding chmod_files
chmod_files-sweep now path mode [] m = refl
chmod_files-sweep now path mode ((q, x) ∷ keys) m = elim (Bool-cases (is_within path q)) [
  | inl e ↦ rw (e) (
      chmod_files-sweep now path mode keys
        (record m { modes = insert q mode m.modes; mod_times = insert q now m.mod_times }))
  | inr e ↦ rw (e) (chmod_files-sweep now path mode keys m)
]

pub chmod_dirs-sweep :
    (path : Bytes) (mode : ℕ) (keys : List (Bytes × ℕ)) (m : MemTarget)
    → chmod_dirs path mode keys m
      ≡ record m { modes = sweep path mode keys m.modes; dirs = sweep path mode keys m.dirs }
unfolding chmod_dirs
chmod_dirs-sweep path mode [] m = refl
chmod_dirs-sweep path mode ((q, x) ∷ keys) m = elim (Bool-cases (is_within path q)) [
  | inl e ↦ rw (e) (
      chmod_dirs-sweep path mode keys
        (record m { modes = insert q mode m.modes; dirs = insert q mode m.dirs }))
  | inr e ↦ rw (e) (chmod_dirs-sweep path mode keys m)
]
