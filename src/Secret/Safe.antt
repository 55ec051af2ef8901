-- ===== src/Secret/Safe.antt =====
-- No secret is left in what `Redact` returns.
use scampi.Base.{
  ◌≤◌, ◌≡◌, refl, ap, subst, sym, ◌∙◌, inl, inr, true, false, Option, none, some, List, [], ◌∷◌,
  Bytes, bytes_eq, bytes_beq_iff, elem, ltb, if◌then◌else◌, length, arith, Bool-cases, List-cases,
}
use scampi.Secret.Redactor.{
  Redactor, new_redactor, default_mask, add, replace_all, redact_each, redact,
}
use scampi.Secret.Replace.{occurs, IsMaskable, occurs-replace_from, occurs-replace_from_self}

-- What was gone stays gone.
redact_each_gone :
    (order : List Bytes) (mask t s : Bytes)
    → IsMaskable mask t
    → occurs t s ≡ false
    → occurs t (redact_each order mask s) ≡ false
unfolding redact_each
redact_each_gone [] mask t s m out = out
redact_each_gone (sec ∷ order) mask t s m out =
    redact_each_gone order mask t (replace_all s sec mask) m
      (ground (arith, occurs-replace_from sec mask t s 0 m))

redact_each-elem :
    (order : List Bytes) (mask t s : Bytes)
    → IsMaskable mask t
    → elem order t ≡ true
    → occurs t (redact_each order mask s) ≡ false
unfolding redact_each
redact_each-elem [] mask t s m h = cc
redact_each-elem (sec ∷ order) mask t s m h = elim (Bool-cases (elem order t)) [
  | inl later ↦ redact_each-elem order mask t (replace_all s sec mask) m later
  | inr now ↦
      let same : sec ≡ t = ground (arith, bytes_beq_iff sec t) in
      redact_each_gone order mask t (replace_all s sec mask) m
        (rw same (occurs-replace_from_self t mask s 0 m))
]

-- The values are added one by one.
abbrev pub add_all : List Bytes → Option Redactor → Option Redactor
add_all [] r = r
add_all (v ∷ vs) r = add_all vs (add v r)

abbrev pub secrets_of : Option Redactor → List Bytes
secrets_of none = []
secrets_of (some r) = r.secrets

-- An order in which the secrets may be iterated over.
abbrev pub Covers : List Bytes → Option Redactor → Type 0
Covers order r = (t : Bytes) → elem (secrets_of r) t ≡ true → elem order t ≡ true

-- Adding keeps the mask and the secrets, and takes a value that is long enough.
record Extends (r : Redactor) (t : Bytes) (o : Option Redactor) : Type 0 where
  pub next : Redactor
  pub is_next : o ≡ some next
  pub same_mask : next.mask ≡ r.mask
  pub keeps : elem r.secrets t ≡ true → elem next.secrets t ≡ true

add-Extends : (v t : Bytes) (r : Redactor) → Extends r t (add v (some r))
unfolding add
add-Extends v t r = elim (Bool-cases (ltb (length v) 4)) [
  | inl short ↦ rw (short) record { next = r; is_next = refl; same_mask = refl; keeps = λ h. h }
  | inr long ↦ rw (long) record {
    next = record r { secrets = if elem r.secrets v then r.secrets else v ∷ r.secrets };
    is_next = refl;
    same_mask = refl;
    keeps = λ h. ground arith;
  }
]

add-elem : (v : Bytes) (r : Redactor) → 4 ≤ length v → elem (secrets_of (add v (some r))) v ≡ true
unfolding add
add-elem v r h = ground (arith, bytes_beq_iff v v)

add_all-Extends : (vs : List Bytes) (t : Bytes) (r : Redactor) → Extends r t (add_all vs (some r))
add_all-Extends [] t r = record { next = r; is_next = refl; same_mask = refl; keeps = λ h. h }
add_all-Extends (v ∷ vs) t r =
    let e = add-Extends v t r in
    let f = add_all-Extends vs t e.next in
    record {
      next = f.next;
      is_next = ap (add_all vs) e.is_next ∙ f.is_next;
      same_mask = f.same_mask ∙ e.same_mask;
      keeps = λ h. f.keeps (e.keeps h);
    }

add_all-elem :
    (vs : List Bytes) (v : Bytes) (r : Redactor)
    → elem vs v ≡ true
    → 4 ≤ length v
    → (n : Redactor) × (add_all vs (some r) ≡ some n)
      × (n.mask ≡ r.mask)
      × (elem n.secrets v ≡ true)
add_all-elem [] v r h long = cc
add_all-elem (w ∷ vs) v r h long =
    let e = add-Extends w v r in
    elim (Bool-cases (elem vs v)) [
      | inl later ↦
          let (n, made, mask, there) = add_all-elem vs v e.next later long in
          (n, ap (add_all vs) e.is_next ∙ made, mask ∙ e.same_mask, there)
      | inr now ↦
          let same : w ≡ v = ground (arith, bytes_beq_iff w v) in
          let f = add_all-Extends vs v e.next in
          let here : elem e.next.secrets v ≡ true =
            ground (arith, add-elem w r (ground arith), e.is_next, same) in
          (f.next, ap (add_all vs) e.is_next ∙ f.is_next, f.same_mask ∙ e.same_mask, f.keeps here)
    ]

redact_given :
    (order : List Bytes) (n : Redactor) (v s : Bytes)
    → IsMaskable n.mask v
    → elem order v ≡ true
    → occurs v (redact order (some n) s) ≡ false
unfolding redact
redact_given order n v [] m h = ground (arith, List-cases v, m.secret_ne)
redact_given order n v (c ∷ s) m h = redact_each-elem order n.mask v (c ∷ s) m h

-- A value of at least four bytes that was added to a new redactor, among any others and in whatever
-- order `Redact` replaces them, does not stand in a text that is returned, where the value cannot
-- arise from the mask: it does not stand in the mask and does not have the byte `*`, with which the
-- mask starts and ends.
pub redact-occurs :
    (vs order : List Bytes) (v s : Bytes)
    → elem vs v ≡ true
    → 4 ≤ length v
    → IsMaskable default_mask v
    → Covers order (add_all vs (some new_redactor))
    → occurs v (redact order (add_all vs (some new_redactor)) s) ≡ false
redact-occurs vs order v s h long m covers =
    let (n, made, mask, there) = add_all-elem vs v new_redactor h long in
    let listed = covers v (ap (λ r. elem (secrets_of r) v) made ∙ there) in
    rw made (redact_given order n v s (subst (λ k. IsMaskable k v) (sym mask) m) listed)
