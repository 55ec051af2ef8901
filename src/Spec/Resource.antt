-- ===== src/Spec/Resource.antt =====
-- internal/spec/resource.go.
use scampi.Base.{ℕ, ◌≡◌, ◌↔◌, Bool, true, ◌&&◌, arith, ◌==◌, Eq, Bytes, bytes_beq, bytes_beq_iff}

pub data ResourceKind : Type 0 where
  path user group ref label : ResourceKind

-- The constants' values (`iota`).
abbrev pub kind_code : ResourceKind → ℕ
kind_code path = 0
kind_code user = 1
kind_code group = 2
kind_code ref = 3
kind_code label = 4

abbrev pub kind_beq : ResourceKind → ResourceKind → Bool
kind_beq a b = kind_code a == kind_code b

pub kind_beq_iff : (a b : ResourceKind) → (kind_beq a b ≡ true) ↔ (a ≡ b)
kind_beq_iff a b = ground arith

pub record Resource : Type 0 where
  pub kind : ResourceKind
  pub name : Bytes

-- Go's `==` of two such structs.
abbrev pub resource_beq : Resource → Resource → Bool
resource_beq a b = kind_beq a.kind b.kind && bytes_beq a.name b.name

pub resource_beq_iff : (a b : Resource) → (resource_beq a b ≡ true) ↔ (a ≡ b)
resource_beq_iff a b = ground (arith, kind_beq_iff a.kind b.kind, bytes_beq_iff a.name b.name)

instance abbrev pub resource_eq : Eq Resource
resource_eq = record { beq = resource_beq; beq_iff = resource_beq_iff }

abbrev pub path_resource : Bytes → Resource
path_resource name = record { kind = path; name = name }

abbrev pub user_resource : Bytes → Resource
user_resource name = record { kind = user; name = name }

abbrev pub group_resource : Bytes → Resource
group_resource name = record { kind = group; name = name }

abbrev pub label_resource : Bytes → Resource
label_resource name = record { kind = label; name = name }
