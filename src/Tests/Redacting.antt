-- ===== src/Tests/Redacting.antt =====
-- internal/secret/redactor.go: two secrets, one of which starts with the other.
use scampi.Base.{◌≡◌, refl, false, List, [], ◌∷◌, ◌++◌, Option, some, none, arith, Bytes, bytes_eq}
use scampi.Secret.Redactor.{
  Redactor, default_mask, new_redactor, add, redact, redact_each, replace_from, size, set_mask,
}
use scampi.Secret.Replace.{occurs, IsMaskable}
use scampi.Secret.Safe.{add_all, Covers, redact-occurs}

abbrev short : Bytes
short = b'a' ∷ b'b' ∷ b'c' ∷ b'd' ∷ []

abbrev long : Bytes
long = b'a' ∷ b'b' ∷ b'c' ∷ b'd' ∷ b'e' ∷ b'f' ∷ []

abbrev added : List Bytes
added = short ∷ long ∷ []

short-IsMaskable : IsMaskable default_mask short
short-IsMaskable = record {
  mask_ne = λ e. cc;
  secret_ne = λ e. cc;
  not_inside = refl;
  no_first = refl;
  no_last = refl;
}

added-Covers : Covers added (add_all added (some new_redactor))
unfolding add
added-Covers t h = ground arith

redact-occurs_example : occurs short (redact added (add_all added (some new_redactor)) long) ≡ false
redact-occurs_example =
    redact-occurs added added short long refl (omega arith) short-IsMaskable added-Covers

abbrev both : Option Redactor
both = add_all added (some new_redactor)

-- What is left of the longer secret depends on the order.
short_first : redact (short ∷ long ∷ []) both long ≡ default_mask ++ b'e' ∷ b'f' ∷ []
unfolding redact redact_each replace_from add
short_first = refl

long_first : redact (long ∷ short ∷ []) both long ≡ default_mask
unfolding redact redact_each replace_from add
long_first = refl

sizes :
    (size both ≡ 2)
    × (size (add short both) ≡ 2)
    × (size (add (b'x' ∷ []) both) ≡ 2)
    × (size none ≡ 0)
unfolding size add
sizes = (refl, refl, refl, refl)

masked : redact (short ∷ []) (set_mask (b'-' ∷ []) both) (b'1' ∷ short) ≡ b'1' ∷ b'-' ∷ []
unfolding redact redact_each replace_from set_mask add
masked = refl
