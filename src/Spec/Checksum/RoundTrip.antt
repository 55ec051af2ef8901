-- ===== src/Spec/Checksum/RoundTrip.antt =====
-- What `ParseChecksum` accepts is what `String` writes.
use scampi.Base.{
  ℕ, suc, ◌-◌, ◌≤◌, ◌<◌, ◌≡◌, ◌≢◌, ◌↔◌, refl, subst, sym, inl, inr, none, some, [], ◌∷◌, ◌++◌, ◌∙◌,
  ap, arith, Bytes, bytes_beq_iff, ◌==◌, Bool-cases, Option-cases, List-cases, length, take, drop,
  length-drop, length-append, zero, ok,
}
use scampi.Spec.Checksum.{
  Checksum, algo_string, checksum_string, parse_algo, index_byte, parse_checksum, sha256, sha384,
  sha512, sha1, md5,
}

-- The five algorithms, and a digest that is not empty.
pub record IsChecksum (c : Checksum) : Type 0 where
  pub known_lo : 1 ≤ c.algo
  pub known_hi : c.algo ≤ 5
  pub hex_ne : c.hex ≢ []

parse_algo-some :
    (s : Bytes) (a : ℕ) → parse_algo s ≡ some a → (1 ≤ a) × (a ≤ 5) × (algo_string a ≡ s)
unfolding parse_algo algo_string
parse_algo-some s a h = ground (
  arith,
  bytes_beq_iff s sha256,
  bytes_beq_iff s sha384,
  bytes_beq_iff s sha512,
  bytes_beq_iff s sha1,
  bytes_beq_iff s md5,
)

-- A name of an algorithm has no colon.
index_byte-append :
    (s t : Bytes) → index_byte s b':' ≡ none → index_byte (s ++ b':' ∷ t) b':' ≡ some (length s)
unfolding index_byte
index_byte-append [] t h = refl
index_byte-append (c ∷ s) t h =
    ground (arith, Option-cases (index_byte s b':'), index_byte-append s t)

index_byte-some :
    (s : Bytes) (c i : ℕ)
    → index_byte s c ≡ some i
    → (i < length s) × (s ≡ take i s ++ c ∷ drop (suc i) s)
unfolding index_byte
index_byte-some [] c i h = cc
index_byte-some (b ∷ s) c i h = elim (Bool-cases (b == c)) [
  | inl e ↦ ground arith
  | inr e ↦ elim (Option-cases (index_byte s c)) [
    | inl none_left ↦ ground arith
    | inr (j, at) ↦ let rest = index_byte-some s c j at in ground arith
  ]
]

-- The name of a known algorithm is read back, and has no colon.
parse_algo-algo_string :
    (a : ℕ)
    → 1 ≤ a
    → a ≤ 5
    → (parse_algo (algo_string a) ≡ some a) × (index_byte (algo_string a) b':' ≡ none)
unfolding parse_algo algo_string index_byte
parse_algo-algo_string zero lo hi = absurd (omega arith)
parse_algo-algo_string (suc zero) lo hi = (refl, refl)
parse_algo-algo_string (suc (suc zero)) lo hi = (refl, refl)
parse_algo-algo_string (suc (suc (suc zero))) lo hi = (refl, refl)
parse_algo-algo_string (suc (suc (suc (suc zero)))) lo hi = (refl, refl)
parse_algo-algo_string (suc (suc (suc (suc (suc zero))))) lo hi = (refl, refl)
parse_algo-algo_string (suc (suc (suc (suc (suc (suc a)))))) lo hi = absurd (omega arith)

take-append : (s t : Bytes) → take (length s) (s ++ t) ≡ s
take-append [] t = refl
take-append (c ∷ s) t = ap (λ r. c ∷ r) (take-append s t)

drop-append : (s t : Bytes) (c : ℕ) → drop (suc (length s)) (s ++ c ∷ t) ≡ t
drop-append [] t c = refl
drop-append (b ∷ s) t c = drop-append s t c

drop_last : (s : Bytes) (i : ℕ) → i < length s → drop (suc i) s ≡ [] → suc i ≡ length s
drop_last s i lt e = ground (arith, length-drop (suc i) s)

read_back :
    (s : Bytes) (c : Checksum) → parse_checksum s ≡ ok c → (checksum_string c ≡ s) × IsChecksum c
unfolding parse_checksum checksum_string
read_back s c h = elim (Option-cases (index_byte s b':')) [
  | inl nowhere ↦ ground arith
  | inr (i, at) ↦
      let (lt, cut) = index_byte-some s b':' i at in
      elim (Option-cases (parse_algo (take i s))) [
        | inl unnamed ↦ ground arith
        | inr (a, named) ↦
            let (lo, hi, same) = parse_algo-some (take i s) a named in
            elim (Bool-cases (i == length s - 1)) [
              | inl last ↦ ground arith
              | inr more ↦
                  let made : record { algo = a; hex = drop (suc i) s } ≡ c = ground arith in
                  subst (λ d. (checksum_string d ≡ s) × IsChecksum d) made
                    (
                      ap (λ t. t ++ b':' ∷ drop (suc i) s) same ∙ sym cut,
                      record {
                        known_lo = lo;
                        known_hi = hi;
                        hex_ne = λ e. ground (arith, drop_last s i lt e);
                      },
                    )
            ]
      ]
]

written_back : (c : Checksum) → IsChecksum c → parse_checksum (checksum_string c) ≡ ok c
unfolding parse_checksum checksum_string
written_back c valid =
    let (named, plain) = parse_algo-algo_string c.algo valid.known_lo valid.known_hi in
    let a = algo_string c.algo in
    let at = index_byte-append a c.hex plain in
    let long = length-append a (b':' ∷ c.hex) in
    let front = take-append a (b':' ∷ c.hex) in
    let back = drop-append a c.hex b':' in
    elim (List-cases c.hex) [
      | inl e ↦ absurd (valid.hex_ne e)
      | inr (x, xs, e) ↦ rw (at) ground (arith, long, front, back, named, e)
    ]

-- `ParseChecksum` returns a checksum exactly on the text that `String` writes for it, where its
-- algorithm is one of the five and its digest is not empty.
pub parse_checksum-checksum_string :
    (s : Bytes) (c : Checksum)
    → (parse_checksum s ≡ ok c) ↔ ((checksum_string c ≡ s) × IsChecksum c)
parse_checksum-checksum_string s c =
    (read_back s c, λ h. subst (λ t. parse_checksum t ≡ ok c) h.0 (written_back c h.1))
