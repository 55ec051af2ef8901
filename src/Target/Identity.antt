-- ===== src/Target/Identity.antt =====
-- internal/target/identity/cache.go. An id that a lookup has found is not negative.
pub mod Honest
pub mod Uses
use scampi.Base.{
  ℕ, Bool, true, false, Option, none, some, List, [], Bytes, bytes_eq, nat_eq, lookup, insert,
  delete, if◌then◌else◌,
}

-- `userEntry` and `groupEntry`.
pub record Entry : Type 0 where
  pub id : ℕ
  pub exists : Bool

-- The two maps of the users, and likewise of the groups.
pub record Ids : Type 0 where
  pub names : List (Bytes × Entry)
  pub by_id : List (ℕ × Bytes)

pub record Cache : Type 0 where
  pub users : Ids
  pub groups : Ids

abbrev pub no_ids : Ids
no_ids = record { names = []; by_id = [] }

abbrev pub new_cache : Cache
new_cache = record { users = no_ids; groups = no_ids }

-- `UID` and `GID`: the id, whether it exists, and whether the cache has an answer.
abbrev pub id_of : Option Entry → ℕ × (Bool × Bool)
id_of none = (0, (false, false))
id_of (some e) = (e.id, (e.exists, true))

unfoldable pub uid : Bytes → Cache → ℕ × (Bool × Bool)
uid name c = id_of (lookup name c.users.names)

unfoldable pub gid : Bytes → Cache → ℕ × (Bool × Bool)
gid name c = id_of (lookup name c.groups.names)

unfoldable pub user_name : ℕ → Cache → Option Bytes
user_name id c = lookup id c.users.by_id

unfoldable pub group_name : ℕ → Cache → Option Bytes
group_name id c = lookup id c.groups.by_id

abbrev pub set_id : Bytes → ℕ → Ids → Ids
set_id name id t = record {
  names = insert name (record { id = id; exists = true }) t.names;
  by_id = insert id name t.by_id;
}

abbrev pub mark_absent : Bytes → Ids → Ids
mark_absent name t = record t { names = insert name (record { id = 0; exists = false }) t.names }

abbrev pub drop_id : Option Entry → List (ℕ × Bytes) → List (ℕ × Bytes)
drop_id none m = m
drop_id (some e) m = if e.exists then delete e.id m else m

abbrev pub invalidate : Bytes → Ids → Ids
invalidate name t = record {
  names = delete name t.names;
  by_id = drop_id (lookup name t.names) t.by_id;
}

unfoldable pub set_user : Bytes → ℕ → Cache → Cache
set_user name id c = record c { users = set_id name id c.users }

unfoldable pub set_group : Bytes → ℕ → Cache → Cache
set_group name id c = record c { groups = set_id name id c.groups }

unfoldable pub mark_user_absent : Bytes → Cache → Cache
mark_user_absent name c = record c { users = mark_absent name c.users }

unfoldable pub mark_group_absent : Bytes → Cache → Cache
mark_group_absent name c = record c { groups = mark_absent name c.groups }

-- The receiver may be nil.
unfoldable pub invalidate_user : Bytes → Option Cache → Option Cache
invalidate_user name none = none
invalidate_user name (some c) = some (record c { users = invalidate name c.users })

unfoldable pub invalidate_group : Bytes → Option Cache → Option Cache
invalidate_group name none = none
invalidate_group name (some c) = some (record c { groups = invalidate name c.groups })
