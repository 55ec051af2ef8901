-- ===== src/Target/Mem/Accounts.antt =====
-- mem.go: users, groups, repositories, and the codename.
use scampi.Base.{
  Bool, true, false, not, [], ◌∷◌, ◌++◌, Bytes, bytes_eq, if◌then◌else◌, lookup, insert, delete,
  Result, ok, err, or_err,
}
use scampi.Target.Kinds.{TargetError, unknown_user, unknown_group, UserInfo, GroupInfo, RepoConfig}
use scampi.Target.Mem.{MemTarget, has, get}

unfoldable pub user_exists : MemTarget → Bytes → Bool
user_exists m name = has name m.users

unfoldable pub get_user : MemTarget → Bytes → Result TargetError UserInfo
get_user m name = or_err (unknown_user name) (lookup name m.users)

unfoldable pub create_user : UserInfo → MemTarget → MemTarget
create_user info m = record m { users = insert info.name info m.users }

unfoldable pub modify_user : UserInfo → MemTarget → Result TargetError MemTarget
modify_user info m =
    if not (has info.name m.users)
    then err (unknown_user info.name)
    else ok (record m { users = insert info.name info m.users })

unfoldable pub delete_user : Bytes → MemTarget → MemTarget
delete_user name m = record m { users = delete name m.users }

unfoldable pub group_exists : MemTarget → Bytes → Bool
group_exists m name = has name m.groups

unfoldable pub get_group : MemTarget → Bytes → Result TargetError GroupInfo
get_group m name = or_err (unknown_group name) (lookup name m.groups)

unfoldable pub create_group : GroupInfo → MemTarget → MemTarget
create_group info m = record m { groups = insert info.name info m.groups }

unfoldable pub delete_group : Bytes → MemTarget → MemTarget
delete_group name m = record m { groups = delete name m.groups }

unfoldable pub has_repo : MemTarget → Bytes → Bool
has_repo m name = has name m.repos

unfoldable pub has_repo_key : MemTarget → Bytes → Bool
has_repo_key m name = get false name m.repo_keys

unfoldable pub install_repo_key : RepoConfig → MemTarget → MemTarget
install_repo_key cfg m = record m { repo_keys = insert cfg.name true m.repo_keys }

unfoldable pub write_repo_config : RepoConfig → MemTarget → MemTarget
write_repo_config cfg m = record m { repos = insert cfg.name cfg m.repos }

unfoldable pub remove_repo : Bytes → MemTarget → MemTarget
remove_repo name m = record m { repos = delete name m.repos; repo_keys = delete name m.repo_keys }

-- `/usr/share/keyrings/` and `.gpg`
unfoldable pub repo_key_path : Bytes → Bytes
repo_key_path name =
    (b'/' ∷ b'u' ∷ b's' ∷ b'r' ∷ b'/' ∷ b's' ∷ b'h' ∷ b'a' ∷ b'r' ∷ b'e' ∷ b'/' ∷ b'k' ∷ b'e' ∷ b'y'
      ∷ b'r' ∷ b'i' ∷ b'n' ∷ b'g' ∷ b's' ∷ b'/' ∷ [])
    ++ name
    ++ b'.' ∷ b'g' ∷ b'p' ∷ b'g' ∷ []

-- `/etc/apt/sources.list.d/scampi-` and `.sources`
unfoldable pub repo_config_path : Bytes → Bytes
repo_config_path name =
    (b'/' ∷ b'e' ∷ b't' ∷ b'c' ∷ b'/' ∷ b'a' ∷ b'p' ∷ b't' ∷ b'/' ∷ b's' ∷ b'o' ∷ b'u' ∷ b'r' ∷ b'c'
      ∷ b'e' ∷ b's' ∷ b'.' ∷ b'l' ∷ b'i' ∷ b's' ∷ b't' ∷ b'.' ∷ b'd' ∷ b'/' ∷ b's' ∷ b'c' ∷ b'a'
      ∷ b'm' ∷ b'p' ∷ b'i' ∷ b'-' ∷ [])
    ++ name
    ++ b'.' ∷ b's' ∷ b'o' ∷ b'u' ∷ b'r' ∷ b'c' ∷ b'e' ∷ b's' ∷ []

unfoldable pub version_codename : MemTarget → Bytes
version_codename m = m.codename
