-- ===== src/Tests/Identities.antt =====
-- internal/target/identity: a cache that has seen one user found, and then changed.
use scampi.Base.{
  ℕ, ◌≡◌, refl, none, some, [], ◌∷◌, arith, Bytes, if◌then◌else◌, bytes_beq, bytes_beq_iff,
}
use scampi.Target.Identity.{
  Cache, new_cache, set_user, invalidate_user, uid, gid, user_name, group_name,
}
use scampi.Target.Identity.Honest.{World, AgreeBut}
use scampi.Target.Identity.Uses.{
  Uses, fresh, then_use, found_user, changed_user, Answers, Uses-Answers,
}

abbrev ann : Bytes
ann = b'a' ∷ []

abbrev before : World
before name = if bytes_beq name ann then some 7 else none

abbrev after : World
after name = if bytes_beq name ann then some 8 else none

before-AgreeBut : AgreeBut ann before after
before-AgreeBut n e = ground (arith, bytes_beq_iff n ann, e)

abbrev cached : Cache
cached = set_user ann 7 new_cache

abbrev renewed : Cache
renewed = record new_cache { users = record { names = []; by_id = [] } }

found : Uses before after before after cached
found = then_use fresh (found_user ann 7 refl)

dropped : invalidate_user ann (some cached) ≡ some renewed
unfolding invalidate_user set_user
dropped = refl

changed : Uses before after after after renewed
changed = then_use found (changed_user ann before-AgreeBut dropped)

Uses-Answers_example :
    ((name : Bytes)
      → Answers (after name) (uid name renewed) × Answers (after name) (gid name renewed))
    × ((id : ℕ) (name : Bytes)
        → (user_name id renewed ≡ some name → after name ≡ some id)
          × (group_name id renewed ≡ some name → after name ≡ some id))
Uses-Answers_example = Uses-Answers changed
