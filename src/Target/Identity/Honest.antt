-- ===== src/Target/Identity/Honest.antt =====
-- The cache's answers against the machine's: what the doc comment calls an honest cache.
use scampi.Base.{
  ℕ, ◌≡◌, ◌≢◌, sym, ap, subst, ◌∙◌, inl, inr, true, false, Option, none, some, List, arith, ==_iff,
  Bytes, bytes_eq, bytes_beq, bytes_beq_iff, nat_eq, lookup, lookup-insert, lookup-delete,
  Bool-cases,
}
use scampi.Target.Identity.{Entry, Ids, no_ids, set_id, mark_absent, drop_id, invalidate}

-- The ids of the machine's users, or of its groups.
abbrev pub World : Type 0
World = Bytes → Option ℕ

abbrev pub entry_of : Option ℕ → Entry
entry_of none = record { id = 0; exists = false }
entry_of (some id) = record { id = id; exists = true }

-- Both maps tell the truth, and a name that is found by its id has an entry.
pub record IsHonest (w : World) (t : Ids) : Type 0 where
  pub true_names : (name : Bytes) (e : Entry) → lookup name t.names ≡ some e → e ≡ entry_of (w name)
  pub true_ids : (id : ℕ) (name : Bytes) → lookup id t.by_id ≡ some name → w name ≡ some id
  pub paired :
      (id : ℕ) (name : Bytes)
      → lookup id t.by_id ≡ some name
      → lookup name t.names ≡ some (record { id = id; exists = true })

pub no_ids-IsHonest : (w : World) → IsHonest w no_ids
no_ids-IsHonest w = record {
  true_names = λ name e h. cc;
  true_ids = λ id name h. cc;
  paired = λ id name h. cc;
}

pub set_id-IsHonest :
    (w : World) (name : Bytes) (id : ℕ) (t : Ids)
    → w name ≡ some id
    → IsHonest w t
    → IsHonest w (set_id name id t)
set_id-IsHonest w name id t found h = record {
  true_names = λ n e at. ground (
    arith,
    lookup-insert name n (record { id = id; exists = true }) t.names,
    bytes_beq_iff name n,
    found,
    h.true_names n e,
    at,
  );
  true_ids = λ i n at.
      ground (arith, lookup-insert id i name t.by_id, ==_iff id i, found, h.true_ids i n, at);
  paired = λ i n at. ground (
    arith,
    lookup-insert id i name t.by_id,
    ==_iff id i,
    lookup-insert name n (record { id = id; exists = true }) t.names,
    bytes_beq_iff name n,
    found,
    h.true_ids i n,
    h.paired i n,
    at,
  );
}

pub mark_absent-IsHonest :
    (w : World) (name : Bytes) (t : Ids)
    → w name ≡ none
    → IsHonest w t
    → IsHonest w (mark_absent name t)
mark_absent-IsHonest w name t missing h = record {
  true_names = λ n e at. ground (
    arith,
    lookup-insert name n (record { id = 0; exists = false }) t.names,
    bytes_beq_iff name n,
    missing,
    h.true_names n e,
    at,
  );
  true_ids = h.true_ids;
  paired = λ i n at. ground (
    arith,
    lookup-insert name n (record { id = 0; exists = false }) t.names,
    bytes_beq_iff name n,
    missing,
    h.true_ids i n,
    h.paired i n,
    at,
  );
}

-- The world has changed at one name at most.
abbrev pub AgreeBut : Bytes → World → World → Type 0
AgreeBut name w w' = (n : Bytes) → n ≢ name → w n ≡ w' n

lookup-drop_id :
    (o : Option Entry) (m : List (ℕ × Bytes)) (i : ℕ) (n : Bytes)
    → lookup i (drop_id o m) ≡ some n
    → (lookup i m ≡ some n) × (o ≢ some (record { id = i; exists = true }))
lookup-drop_id none m i n at = (at, λ e. cc)
lookup-drop_id (some e) m i n at =
    let gone = lookup-delete e.id i m in
    (ground (arith, gone, at), λ same. ground (arith, gone, at, ==_iff e.id i, same))

pub invalidate-IsHonest :
    (w w' : World) (name : Bytes) (t : Ids)
    → AgreeBut name w w'
    → IsHonest w t
    → IsHonest w' (invalidate name t)
invalidate-IsHonest w w' name t agree h = record {
  true_names = λ n e at.
      let gone = lookup-delete name n t.names in
      elim (Bool-cases (bytes_beq name n)) [
        | inl same ↦ absurd (ground (arith, gone, at, same))
        | inr other ↦
            h.true_names n e (ground (arith, gone, at, other))
            ∙ ap entry_of (agree n (apart n other))
      ];
  true_ids = λ i n at. sym (agree n (other_name i n at)) ∙ h.true_ids i n (kept i n at).0;
  paired = λ i n at.
      lookup-delete name n t.names
      ∙ ground (arith, other_name i n at, bytes_beq_iff name n, h.paired i n (kept i n at).0);
}
  where
    apart : (n : Bytes) → bytes_beq name n ≡ false → n ≢ name
    apart n other same = ground (arith, other, same, bytes_beq_iff name n)

    kept :
        (i : ℕ) (n : Bytes)
        → lookup i (invalidate name t).by_id ≡ some n
        → (lookup i t.by_id ≡ some n)
          × (lookup name t.names ≢ some (record { id = i; exists = true }))
    kept i n at = lookup-drop_id (lookup name t.names) t.by_id i n at

    other_name : (i : ℕ) (n : Bytes) → lookup i (invalidate name t).by_id ≡ some n → n ≢ name
    other_name i n at same = (kept i n at).1 (
        subst (λ k. lookup k t.names ≡ some (record { id = i; exists = true })) same
          (h.paired i n (kept i n at).0))
