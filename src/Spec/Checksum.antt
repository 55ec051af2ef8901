-- ===== src/Spec/Checksum.antt =====
-- internal/spec/checksum.go.
pub mod RoundTrip
use scampi.Base.{
  ℕ, suc, ◌-◌, Bool, Option, none, some, List, [], ◌∷◌, ◌++◌, Bytes, bytes_beq, ◌==◌, if◌then◌else◌,
  length, take, drop, Result, ok, err,
}

-- A `ChecksumAlgo`: `iota + 1` numbers the constants from 1, and 0 is an unset checksum.
abbrev pub algo_sha256 : ℕ
algo_sha256 = 1

abbrev pub algo_sha384 : ℕ
algo_sha384 = 2

abbrev pub algo_sha512 : ℕ
algo_sha512 = 3

abbrev pub algo_sha1 : ℕ
algo_sha1 = 4

abbrev pub algo_md5 : ℕ
algo_md5 = 5

abbrev pub sha256 : Bytes
sha256 = b's' ∷ b'h' ∷ b'a' ∷ b'2' ∷ b'5' ∷ b'6' ∷ []

abbrev pub sha384 : Bytes
sha384 = b's' ∷ b'h' ∷ b'a' ∷ b'3' ∷ b'8' ∷ b'4' ∷ []

abbrev pub sha512 : Bytes
sha512 = b's' ∷ b'h' ∷ b'a' ∷ b'5' ∷ b'1' ∷ b'2' ∷ []

abbrev pub sha1 : Bytes
sha1 = b's' ∷ b'h' ∷ b'a' ∷ b'1' ∷ []

abbrev pub md5 : Bytes
md5 = b'm' ∷ b'd' ∷ b'5' ∷ []

abbrev pub unknown_algo : Bytes
unknown_algo = b'u' ∷ b'n' ∷ b'k' ∷ b'n' ∷ b'o' ∷ b'w' ∷ b'n' ∷ []

unfoldable pub algo_string : ℕ → Bytes
algo_string a =
    if a == algo_sha256
    then sha256
    else if a == algo_sha384
    then sha384
    else if a == algo_sha512
    then sha512
    else if a == algo_sha1
    then sha1
    else if a == algo_md5
    then md5
    else unknown_algo

pub record Checksum : Type 0 where
  pub algo : ℕ
  pub hex : Bytes

unfoldable pub checksum_string : Checksum → Bytes
checksum_string c = algo_string c.algo ++ b':' ∷ c.hex

unfoldable pub is_zero : Checksum → Bool
is_zero c = c.algo == 0

unfoldable pub parse_algo : Bytes → Option ℕ
parse_algo s =
    if bytes_beq s sha256
    then some algo_sha256
    else if bytes_beq s sha384
    then some algo_sha384
    else if bytes_beq s sha512
    then some algo_sha512
    else if bytes_beq s sha1
    then some algo_sha1
    else if bytes_beq s md5
    then some algo_md5
    else none

abbrev shifted : Option ℕ → Option ℕ
shifted none = none
shifted (some i) = some (suc i)

-- -1 is `none`.
unfoldable pub index_byte : Bytes → ℕ → Option ℕ
index_byte [] c = none
index_byte (b ∷ s) c = let rest = index_byte s c in if b == c then some 0 else shifted rest

pub data ChecksumParseError : Type 0 where
  not_algo_hex : ChecksumParseError
  unsupported : Bytes → ChecksumParseError

abbrev with_algo : Bytes → Bytes → Option ℕ → Result ChecksumParseError Checksum
with_algo algo hex none = err (unsupported algo)
with_algo algo hex (some a) = ok (record { algo = a; hex = hex })

abbrev split_at : Bytes → Option ℕ → Result ChecksumParseError Checksum
split_at s none = err not_algo_hex
split_at s (some i) =
    if i == length s - 1
    then err not_algo_hex
    else with_algo (take i s) (drop (suc i) s) (parse_algo (take i s))

unfoldable pub parse_checksum : Bytes → Result ChecksumParseError Checksum
parse_checksum s = split_at s (index_byte s b':')
