-- ===== src/Secret/Redactor.antt =====
-- internal/secret/redactor.go. A pointer to a redactor is an option. The set of secrets is a list; the
-- order in which a call of `Redact` iterates over it is an argument. The lock is held throughout
-- each operation.
use scampi.Base.{
  ℕ, zero, suc, ◌-◌, Option, none, some, List, [], ◌∷◌, ◌++◌, Bytes, bytes_eq, has_prefix, elem,
  ltb, if◌then◌else◌, length,
}

-- `***SECRET***`
abbrev pub default_mask : Bytes
default_mask =
    b'*' ∷ b'*' ∷ b'*' ∷ b'S' ∷ b'E' ∷ b'C' ∷ b'R' ∷ b'E' ∷ b'T' ∷ b'*' ∷ b'*' ∷ b'*' ∷ []

abbrev pub min_redact_len : ℕ
min_redact_len = 4

pub record Redactor : Type 0 where
  pub mask : Bytes
  pub secrets : List Bytes

abbrev pub new_redactor : Redactor
new_redactor = record { mask = default_mask; secrets = [] }

abbrev add_secret : Bytes → List Bytes → List Bytes
add_secret value secrets = if elem secrets value then secrets else value ∷ secrets

unfoldable pub add : Bytes → Option Redactor → Option Redactor
add value none = none
add value (some r) =
    if ltb (length value) min_redact_len
    then some r
    else some (record r { secrets = add_secret value r.secrets })

-- `strings.ReplaceAll(s, old, new)` for an `old` that is not empty; `skip` bytes of the occurrence that
-- was replaced last are still to be passed over.
unfoldable pub replace_from : Bytes → Bytes → ℕ → Bytes → Bytes
replace_from old new skip [] = []
replace_from old new zero (c ∷ s) =
    let replaced = replace_from old new (length old - 1) s in
    let kept = replace_from old new zero s in
    if has_prefix (c ∷ s) old then new ++ replaced else c ∷ kept
replace_from old new (suc skip) (c ∷ s) = replace_from old new skip s

abbrev pub replace_all : Bytes → Bytes → Bytes → Bytes
replace_all s old new = replace_from old new 0 s

unfoldable pub redact_each : List Bytes → Bytes → Bytes → Bytes
unfolding replace_from
redact_each [] mask s = s
redact_each (sec ∷ order) mask s = redact_each order mask (replace_all s sec mask)

unfoldable pub redact : List Bytes → Option Redactor → Bytes → Bytes
unfolding redact_each
redact order none s = s
redact order (some r) [] = []
redact order (some r) (c ∷ s) = redact_each order r.mask (c ∷ s)

unfoldable pub size : Option Redactor → ℕ
size none = 0
size (some r) = length r.secrets

unfoldable pub set_mask : Bytes → Option Redactor → Option Redactor
set_mask mask none = none
set_mask mask (some r) = some (record r { mask = mask })
