-- ===== src/Target/Identity/Uses.antt =====
-- A cache that is used as its doc comment says, and what its answers are worth.
use scampi.Base.{
  ℕ, ◌≡◌, refl, inl, inr, Bool, true, false, Option, none, some, arith, Bytes, bytes_eq, nat_eq,
  lookup, Option-cases,
}
use scampi.Target.Identity.{
  Entry, Ids, Cache, new_cache, invalidate, set_user, set_group, mark_user_absent,
  mark_group_absent, invalidate_user, invalidate_group, uid, gid, user_name, group_name, id_of,
}
use scampi.Target.Identity.Honest.{
  World, entry_of, IsHonest, AgreeBut, no_ids-IsHonest, set_id-IsHonest, mark_absent-IsHonest,
  invalidate-IsHonest,
}

-- A cache is honest about the users `u` and the groups `g` of a machine.
pub record Honest (u g : World) (c : Cache) : Type 0 where
  pub users : IsHonest u c.users
  pub groups : IsHonest g c.groups

-- What the callers of the cache do: they look something up and tell the truth about it, or they change
-- one user or one group of the machine and invalidate its name.
pub data Use : World → World → Cache → World → World → Cache → Type 0 where
  found_user :
      {u g : World} {c : Cache} (name : Bytes) (id : ℕ)
      → u name ≡ some id
      → Use u g c u g (set_user name id c)
  found_group :
      {u g : World} {c : Cache} (name : Bytes) (id : ℕ)
      → g name ≡ some id
      → Use u g c u g (set_group name id c)
  no_user :
      {u g : World} {c : Cache} (name : Bytes)
      → u name ≡ none
      → Use u g c u g (mark_user_absent name c)
  no_group :
      {u g : World} {c : Cache} (name : Bytes)
      → g name ≡ none
      → Use u g c u g (mark_group_absent name c)
  changed_user :
      {u g v : World} {c d : Cache} (name : Bytes)
      → AgreeBut name u v
      → invalidate_user name (some c) ≡ some d
      → Use u g c v g d
  changed_group :
      {u g h : World} {c d : Cache} (name : Bytes)
      → AgreeBut name g h
      → invalidate_group name (some c) ≡ some d
      → Use u g c u h d

pub data Uses (u g : World) : World → World → Cache → Type 0 where
  fresh : Uses u g u g new_cache
  then_use :
      {v h v' h' : World} {c d : Cache} → Uses u g v h c → Use v h c v' h' d → Uses u g v' h' d

-- A use keeps an honest cache honest about the machine as it is afterwards.
pub Use-Honest : {u g v h : World} {c d : Cache} → Honest u g c → Use u g c v h d → Honest v h d
unfolding set_user set_group mark_user_absent mark_group_absent invalidate_user invalidate_group
Use-Honest {u} {g} {v} {h} {c} {d} t (found_user name id e) = record {
  users = set_id-IsHonest u name id c.users e t.users;
  groups = t.groups;
}
Use-Honest {u} {g} {v} {h} {c} {d} t (found_group name id e) = record {
  users = t.users;
  groups = set_id-IsHonest g name id c.groups e t.groups;
}
Use-Honest {u} {g} {v} {h} {c} {d} t (no_user name e) = record {
  users = mark_absent-IsHonest u name c.users e t.users;
  groups = t.groups;
}
Use-Honest {u} {g} {v} {h} {c} {d} t (no_group name e) = record {
  users = t.users;
  groups = mark_absent-IsHonest g name c.groups e t.groups;
}
Use-Honest {u} {g} {v} {h} {c} {d} t (changed_user name agree e) =
    let same : record c { users = invalidate name c.users } ≡ d = ground arith in
    rw (← same)
      (record { users = invalidate-IsHonest u v name c.users agree t.users; groups = t.groups })
Use-Honest {u} {g} {v} {h} {c} {d} t (changed_group name agree e) =
    let same : record c { groups = invalidate name c.groups } ≡ d = ground arith in
    rw (← same)
      (record { users = t.users; groups = invalidate-IsHonest g h name c.groups agree t.groups })

-- What a lookup's answer says of a world.
abbrev pub Answers : Option ℕ → ℕ × (Bool × Bool) → Type 0
Answers found (id, (exists, ok)) =
    ok ≡ true → ((exists ≡ true → found ≡ some id) × (exists ≡ false → found ≡ none))

pub Uses-Honest : {u g v h : World} {d : Cache} → Uses u g v h d → Honest v h d
Uses-Honest {u} {g} fresh = record { users = no_ids-IsHonest u; groups = no_ids-IsHonest g }
Uses-Honest (then_use before use_it) = Use-Honest (Uses-Honest before) use_it

id_of-Answers :
    (w : World) (t : Ids) (name : Bytes)
    → IsHonest w t
    → Answers (w name) (id_of (lookup name t.names))
id_of-Answers w t name h = elim (Option-cases (lookup name t.names)) [
  | inl e ↦ rw (e) (λ ok. cc)
  | inr (x, e) ↦
      let truth = h.true_names name x e in
      rw (e)
        (λ ok. (λ known. by_found (w name) truth known, λ gone. by_missing (w name) truth gone))
]
  where
    by_found : {x : Entry} (o : Option ℕ) → x ≡ entry_of o → x.exists ≡ true → o ≡ some x.id
    by_found none e known = absurd (ground (arith, e, known))
    by_found (some id) e known = ground (arith, e, known)

    by_missing : {x : Entry} (o : Option ℕ) → x ≡ entry_of o → x.exists ≡ false → o ≡ none
    by_missing none e gone = refl
    by_missing (some id) e gone = absurd (ground (arith, e, gone))

-- If every use of a cache from its start tells the truth, or follows a change of one name by the
-- invalidation of that name: whatever `UID`, `GID`, `UserName` and `GroupName` answer is true of
-- the machine as it is now, absences included.
pub Uses-Answers :
    {u g v h : World} {d : Cache}
    → Uses u g v h d
    → ((name : Bytes) → Answers (v name) (uid name d) × Answers (h name) (gid name d))
      × ((id : ℕ) (name : Bytes)
          → (user_name id d ≡ some name → v name ≡ some id)
            × (group_name id d ≡ some name → h name ≡ some id))
unfolding uid gid user_name group_name
Uses-Answers {u} {g} {v} {h} {d} used =
    let t = Uses-Honest used in
    (
      λ name. (id_of-Answers v d.users name t.users, id_of-Answers h d.groups name t.groups),
      λ id name. (t.users.true_ids id name, t.groups.true_ids id name),
    )
