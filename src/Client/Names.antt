-- ===== src/Client/Names.antt =====
-- `encodeEnvName` of pkg/client/cache.go: the file name component of an environment's last known good
-- snapshot. A name is a Go string, so its bytes are below 256.
use feature_flag_service.Common.{
  ◌≡◌, ◌≢◌, refl, sym, ◌⊎◌, inl, inr, ℕ, ◌+◌, ◌-◌, ◌/◌, ◌%◌, ◌≤◌, ◌<◌, ltb, leb, ◌==◌, Bool, true,
  ◌&&◌, ◌||◌, Bytes, codes, [], ◌∷◌, map, if◌then◌else◌, All, Bool-cases, arith,
}

abbrev pub env_escape : ℕ
env_escape = b'~'

abbrev pub is_verbatim : ℕ → Bool
is_verbatim c =
    (leb b'a' c && leb c b'z') || (leb b'0' c && leb c b'9') || (c == b'-') || (c == b'_')

-- `hex[n]`
abbrev pub hex_digit : ℕ → ℕ
hex_digit n = if ltb n 10 then b'0' + n else b'A' + (n - 10)

unfoldable pub encode_bytes : Bytes → Bytes
encode_bytes [] = []
encode_bytes (c ∷ cs) =
    if is_verbatim c
    then c ∷ encode_bytes cs
    else env_escape ∷ (hex_digit (c / 16) ∷ (hex_digit (c % 16) ∷ encode_bytes cs))

unfoldable pub encode_env_name : Bytes → Bytes
unfolding encode_bytes
encode_env_name [] = codes "~empty"
encode_env_name (c ∷ cs) = encode_bytes (c ∷ cs)

-- A file system that does not tell upper from lower case compares names by this.
abbrev pub fold_case : ℕ → ℕ
fold_case c = if leb b'A' c && leb c b'Z' then c + 32 else c

abbrev pub fold_name : Bytes → Bytes
fold_name = map fold_case

abbrev pub AreBytes : Bytes → Type 0
AreBytes = All (λ c. c < 256)

-- The bytes that can stand in an encoded name: no separator, no dot, no control character.
abbrev pub IsNameByte : ℕ → Type 0
IsNameByte c =
    ((b'a' ≤ c) × (c ≤ b'z'))
    ⊎ ((b'0' ≤ c) × (c ≤ b'9'))
    ⊎ ((b'A' ≤ c) × (c ≤ b'F'))
    ⊎ (c ≡ b'-')
    ⊎ (c ≡ b'_')
    ⊎ (c ≡ env_escape)

fold_case-verbatim : (c : ℕ) → is_verbatim c ≡ true → fold_case c ≡ c
fold_case-verbatim c h = ground arith

hex_digit-injective :
    (m n : ℕ) → m < 16 → n < 16 → fold_case (hex_digit m) ≡ fold_case (hex_digit n) → m ≡ n
hex_digit-injective m n hm hn e = ground arith

byte-halves : (c d : ℕ) → c / 16 ≡ d / 16 → c % 16 ≡ d % 16 → c ≡ d
byte-halves c d hi lo = omega arith

high_half : (c : ℕ) → c < 256 → c / 16 < 16
high_half c h = omega arith

-- One encoded byte: equal to no escape where it is verbatim.
fold_case-not_escape : (c : ℕ) → is_verbatim c ≡ true → fold_case c ≢ env_escape
fold_case-not_escape c h e = ground arith

encode_bytes-injective :
    (xs ys : Bytes)
    → AreBytes xs
    → AreBytes ys
    → fold_name (encode_bytes xs) ≡ fold_name (encode_bytes ys)
    → xs ≡ ys
unfolding encode_bytes
encode_bytes-injective [] [] hx hy e = refl
encode_bytes-injective [] (d ∷ ys) hx hy e = elim (Bool-cases (is_verbatim d)) [
  | inl plain ↦ absurd (ground arith)
  | inr escaped ↦ absurd (ground arith)
]
encode_bytes-injective (c ∷ xs) [] hx hy e = elim (Bool-cases (is_verbatim c)) [
  | inl plain ↦ absurd (ground arith)
  | inr escaped ↦ absurd (ground arith)
]
encode_bytes-injective (c ∷ xs) (d ∷ ys) hx hy e =
    let induction = encode_bytes-injective xs ys hx.1 hy.1 in
    elim (Bool-cases (is_verbatim c)) [
      | inl plain ↦ elim (Bool-cases (is_verbatim d)) [
        | inl both ↦
            ground (arith, fold_case-verbatim c plain, fold_case-verbatim d both, induction)
        | inr other ↦ absurd (ground (arith, fold_case-not_escape c plain))
      ]
      | inr escaped ↦ elim (Bool-cases (is_verbatim d)) [
        | inl plain ↦ absurd (ground (arith, fold_case-not_escape d plain))
        | inr both ↦ ground (
          arith,
          hex_digit-injective (c / 16) (d / 16) (high_half c hx.0) (high_half d hy.0),
          hex_digit-injective (c % 16) (d % 16) (omega arith) (omega arith),
          byte-halves c d,
          induction,
        )
      ]
    ]

-- No encoding of a name that is not empty starts like "~em", also where case is not told apart.
encode_bytes-not_empty :
    (c : ℕ) (cs : Bytes) → fold_name (encode_bytes (c ∷ cs)) ≢ fold_name (codes "~empty")
unfolding encode_bytes
encode_bytes-not_empty c cs e = elim (Bool-cases (is_verbatim c)) [
  | inl plain ↦ ground (arith, fold_case-not_escape c plain)
  | inr escaped ↦ ground arith
]

-- Two names have the same file only if they are the same, also on a file system that does not tell
-- upper from lower case.
pub encode_env_name-injective :
    (xs ys : Bytes)
    → AreBytes xs
    → AreBytes ys
    → fold_name (encode_env_name xs) ≡ fold_name (encode_env_name ys)
    → xs ≡ ys
unfolding encode_env_name
encode_env_name-injective [] [] hx hy e = refl
encode_env_name-injective [] (d ∷ ys) hx hy e = absurd (encode_bytes-not_empty d ys (sym e))
encode_env_name-injective (c ∷ xs) [] hx hy e = absurd (encode_bytes-not_empty c xs e)
encode_env_name-injective (c ∷ xs) (d ∷ ys) hx hy e =
    encode_bytes-injective (c ∷ xs) (d ∷ ys) hx hy e

is_verbatim-IsNameByte : (c : ℕ) → is_verbatim c ≡ true → IsNameByte c
is_verbatim-IsNameByte c h = ground arith

hex_digit-IsNameByte : (n : ℕ) → n < 16 → IsNameByte (hex_digit n)
hex_digit-IsNameByte n h = ground arith

encode_bytes-IsNameByte : (xs : Bytes) → AreBytes xs → All IsNameByte (encode_bytes xs)
unfolding encode_bytes
encode_bytes-IsNameByte [] h = tt
encode_bytes-IsNameByte (c ∷ cs) h = elim (Bool-cases (is_verbatim c)) [
  | inl plain ↦ rw plain (is_verbatim-IsNameByte c plain, encode_bytes-IsNameByte cs h.1)
  | inr escaped ↦ rw escaped (
    inr (inr (inr (inr (inr refl)))),
    (
      hex_digit-IsNameByte (c / 16) (high_half c h.0),
      (hex_digit-IsNameByte (c % 16) (omega arith), encode_bytes-IsNameByte cs h.1),
    ),
  )
]

-- Whatever the environment's name is, its file name has letters, digits, dashes, underscores and tildes
-- only, so that it names no other directory.
pub encode_env_name-IsNameByte : (xs : Bytes) → AreBytes xs → All IsNameByte (encode_env_name xs)
unfolding encode_env_name
encode_env_name-IsNameByte [] h = ground arith
encode_env_name-IsNameByte (c ∷ cs) h = encode_bytes-IsNameByte (c ∷ cs) h
