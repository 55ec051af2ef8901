-- ===== src/Tests/Values.antt =====
-- internal/spec/checksum.go and internal/perm: texts that are read and written.
use scampi.Base.{◌≡◌, ◌<◌, ◌↔◌, refl, [], ◌∷◌, some, none, arith, Bytes, ok, err}
use scampi.Spec.Checksum.{
  Checksum, not_algo_hex, unsupported, algo_md5, checksum_string, parse_checksum, parse_algo,
  index_byte,
}
use scampi.Spec.Checksum.RoundTrip.{IsChecksum, parse_checksum-checksum_string}
use scampi.Perm.{
  octal_re, parse_uint, try_octal, split_commas, posix_re, letter_bits, shift_of, posix_clause,
  posix_clauses, try_ls, try_posix, parse_perm,
}
use scampi.Perm.Formats.{octal_text, ls_text, posix_text, posix_reversed, parse_perm-ls_text}
use scampi.Perm.Exact.{Spells, parse_perm-Spells}

abbrev digest : Checksum
digest = record { algo = algo_md5; hex = b'a' ∷ b'b' ∷ [] }

abbrev digest_text : Bytes
digest_text = b'm' ∷ b'd' ∷ b'5' ∷ b':' ∷ b'a' ∷ b'b' ∷ []

parse_checksum-checksum_string_example :
    (parse_checksum digest_text ≡ ok digest)
    ↔ ((checksum_string digest ≡ digest_text) × IsChecksum digest)
parse_checksum-checksum_string_example = parse_checksum-checksum_string digest_text digest

no_digest : parse_checksum (b'm' ∷ b'd' ∷ b'5' ∷ b':' ∷ []) ≡ err not_algo_hex
unfolding parse_checksum index_byte parse_algo
no_digest = refl

no_algo : parse_checksum (b'm' ∷ b'd' ∷ b':' ∷ b'a' ∷ []) ≡ err (unsupported (b'm' ∷ b'd' ∷ []))
unfolding parse_checksum index_byte parse_algo
no_algo = refl

parse_perm-ls_text_example :
    (parse_perm (octal_text 0o644) ≡ ok 0o644)
    × (parse_perm (ls_text 0o644) ≡ ok 0o644)
    × (parse_perm (posix_text 0o644) ≡ ok 0o644)
    × (parse_perm (posix_reversed 0o644) ≡ ok 0o644)
parse_perm-ls_text_example = parse_perm-ls_text 0o644 (omega arith)

-- `0644`
abbrev octal : Bytes
octal = b'0' ∷ b'6' ∷ b'4' ∷ b'4' ∷ []

octal_read : parse_perm octal ≡ ok 0o644
unfolding parse_perm try_octal octal_re parse_uint
octal_read = refl

-- `o=,u=rr,g=x`
abbrev posix : Bytes
posix = b'o' ∷ b'=' ∷ b',' ∷ b'u' ∷ b'=' ∷ b'r' ∷ b'r' ∷ b',' ∷ b'g' ∷ b'=' ∷ b'x' ∷ []

posix_read : try_posix posix ≡ some 0o410
unfolding try_posix posix_re split_commas posix_clauses posix_clause letter_bits shift_of
posix_read = refl

posix_parsed : parse_perm posix ≡ ok 0o410
unfolding parse_perm try_octal octal_re parse_uint try_ls try_posix posix_re split_commas
    posix_clauses posix_clause letter_bits shift_of
posix_parsed = refl

parse_perm-Spells_example : (0o410 < 512) × Spells posix 0o410
parse_perm-Spells_example = parse_perm-Spells posix 0o410 posix_parsed

-- `u=r,g=r` and `u=r,u=r,o=r`
two_clauses : try_posix (b'u' ∷ b'=' ∷ b'r' ∷ b',' ∷ b'g' ∷ b'=' ∷ b'r' ∷ []) ≡ none
unfolding try_posix posix_re split_commas posix_clauses posix_clause letter_bits shift_of
two_clauses = refl

twice :
    try_posix (b'u' ∷ b'=' ∷ b'r' ∷ b',' ∷ b'u' ∷ b'=' ∷ b'r' ∷ b',' ∷ b'o' ∷ b'=' ∷ b'r' ∷ [])
    ≡ none
unfolding try_posix posix_re split_commas posix_clauses posix_clause letter_bits shift_of
twice = refl
