-- ===== src/Target/Kinds.antt =====
-- internal/target/target.go: the values that targets take and return, their texts, and errors.
-- Durations and numeric ids are natural numbers.
use scampi.Base.{
  ℕ, Bool, true, false, not, Option, List, [], ◌∷◌, ◌++◌, Bytes, bytes_beq, if◌then◌else◌,
}

-- The sentinels that the operations wrap, each with what it is about. `index_panic` is a panic.
pub data TargetError : Type 0 where
  not_exist unknown_user unknown_group locate_failed : Bytes → TargetError
  no_cache_info index_panic : TargetError

pub record Owner : Type 0 where
  pub user : Bytes
  pub group : Bytes

pub record Mount : Type 0 where
  pub source : Bytes
  pub target : Bytes
  pub read_only : Bool

pub record Healthcheck : Type 0 where
  pub cmd : Bytes
  pub interval : ℕ
  pub timeout : ℕ
  pub retries : ℕ
  pub start_period : ℕ

-- `PortProto` has two values.
pub data PortProto : Type 0 where
  proto_tcp proto_udp : PortProto

pub record Port : Type 0 where
  pub host_ip : Bytes
  pub host_port : Bytes
  pub container_port : Bytes
  pub proto : PortProto

abbrev read_only_suffix : Bytes
read_only_suffix = b':' ∷ b'r' ∷ b'o' ∷ []

unfoldable pub mount_string : Mount → Bytes
mount_string m =
    let s = m.source ++ b':' ∷ m.target in if m.read_only then s ++ read_only_suffix else s

abbrev pub udp : Bytes
udp = b'u' ∷ b'd' ∷ b'p' ∷ []

abbrev pub tcp : Bytes
tcp = b't' ∷ b'c' ∷ b'p' ∷ []

unfoldable pub parse_port_proto : Bytes → PortProto
parse_port_proto s = if bytes_beq s udp then proto_udp else proto_tcp

abbrev pub is_tcp : PortProto → Bool
is_tcp proto_tcp = true
is_tcp proto_udp = false

unfoldable pub proto_string : PortProto → Bytes
proto_string proto_udp = udp
proto_string proto_tcp = tcp

abbrev host_prefix : Bytes → Bytes
host_prefix [] = []
host_prefix ip = ip ++ b':' ∷ []

unfoldable pub port_string : Port → Bytes
unfolding proto_string
port_string p =
    let s = host_prefix p.host_ip ++ p.host_port ++ b':' ∷ p.container_port in
    if not (is_tcp p.proto) then s ++ b'/' ∷ proto_string p.proto else s

pub record ContainerInfo : Type 0 where
  pub name : Bytes
  pub image : Bytes
  pub running : Bool
  pub restart : Bytes
  pub ports : List Port
  pub env : List (Bytes × Bytes)
  pub mounts : List Mount
  pub args : List Bytes
  pub labels : List (Bytes × Bytes)
  pub healthcheck : Option Healthcheck
  pub health_status : Bytes

pub record CommandResult : Type 0 where
  pub stdout : Bytes
  pub stderr : Bytes
  pub exit_code : ℕ

pub record UserInfo : Type 0 where
  pub name : Bytes
  pub uid : ℕ
  pub gid : ℕ
  pub home : Bytes
  pub shell : Bytes
  pub groups : List Bytes
  pub system : Bool
  pub password : Bytes

pub record GroupInfo : Type 0 where
  pub name : Bytes
  pub gid : ℕ
  pub system : Bool
  pub members : List Bytes

pub record RepoConfig : Type 0 where
  pub name : Bytes
  pub url : Bytes
  pub key_data : Bytes
  pub key_path : Bytes
  pub config_path : Bytes
  pub suite : Bytes
  pub components : List Bytes
