-- ===== src/Http/Errors/Safe.antt =====
-- What of an error reaches a caller.
use feature_flag_service.Common.{
  ◌≡◌, refl, inl, inr, ℕ, zero, suc, ◌≤◌, ◌<◌, ltb, Bool, true, false, Bytes, codes, is_empty, [],
  ◌∷◌, Option, length, Bool-cases, arith,
}
use feature_flag_service.Common.Text.{TextLib}
use feature_flag_service.Obs.Trace.{Trace}
use feature_flag_service.Http.Errors.{
  Code, status_of, max_message_len, internal_message, has_prefix, contains, has_control, take_bytes,
  leaks, shortened, sanitize_trimmed, sanitize, write_error,
}

has_prefix-take :
    (n : ℕ) (sub s : Bytes) → has_prefix sub (take_bytes n s) ≡ true → has_prefix sub s ≡ true
unfolding take_bytes
has_prefix-take n [] s h = refl
has_prefix-take zero (a ∷ sub) s h = absurd (cc)
has_prefix-take (suc n) (a ∷ sub) [] h = h
has_prefix-take (suc n) (a ∷ sub) (b ∷ s) h = ground (arith, has_prefix-take n sub s)

contains-take :
    (n : ℕ) (sub s : Bytes) → contains sub (take_bytes n s) ≡ true → contains sub s ≡ true
unfolding take_bytes contains
contains-take zero sub [] h = h
contains-take zero sub (c ∷ s) h = rw (has_prefix-take zero sub (c ∷ s) h) refl
contains-take (suc n) sub [] h = h
contains-take (suc n) sub (c ∷ s) h =
    ground (arith, has_prefix-take (suc n) sub (c ∷ s), contains-take n sub s)

has_control-take : (n : ℕ) (s : Bytes) → has_control (take_bytes n s) ≡ true → has_control s ≡ true
unfolding take_bytes has_control
has_control-take zero s h = absurd (cc)
has_control-take (suc n) [] h = h
has_control-take (suc n) (c ∷ s) h = ground (arith, has_control-take n s)

length-take : (n : ℕ) (s : Bytes) → length (take_bytes n s) ≤ n
unfolding take_bytes
length-take zero s = omega arith
length-take (suc n) [] = omega arith
length-take (suc n) (c ∷ s) = omega (arith, length-take n s)

-- A message of 1 to 200 bytes, without a line break or a tab, and without the texts by which the code
-- knows a home directory and a pointer: /Users/, /home/ and 0x.
pub record IsPublic (msg : Bytes) : Type 0 where
  pub there : is_empty msg ≡ false
  pub bounded : length msg ≤ max_message_len
  pub one_line : has_control msg ≡ false
  pub no_users : contains (codes "/Users/") msg ≡ false
  pub no_home : contains (codes "/home/") msg ≡ false
  pub no_hex : contains (codes "0x") msg ≡ false

not-true : (b c : Bool) → (b ≡ true → c ≡ true) → c ≡ false → b ≡ false
not-true b c up off = ground arith

take_there :
    (n : ℕ) (msg : Bytes) → is_empty msg ≡ false → is_empty (take_bytes (suc n) msg) ≡ false
unfolding take_bytes is_empty
take_there n [] h = h
take_there n (c ∷ msg) h = refl

take-IsPublic :
    (t : TextLib) (msg : Bytes)
    → is_empty msg ≡ false
    → leaks t msg ≡ false
    → IsPublic (take_bytes max_message_len msg)
unfolding leaks
take-IsPublic t msg there clean =
    let n = max_message_len in
    record {
      there = take_there 199 msg there;
      bounded = length-take n msg;
      one_line = not-true _ _ (has_control-take n msg) (ground arith);
      no_users = not-true _ _ (contains-take n (codes "/Users/") msg) (ground arith);
      no_home = not-true _ _ (contains-take n (codes "/home/") msg) (ground arith);
      no_hex = not-true _ _ (contains-take n (codes "0x") msg) (ground arith);
    }

whole-IsPublic :
    (t : TextLib) (msg : Bytes)
    → is_empty msg ≡ false
    → leaks t msg ≡ false
    → length msg ≤ max_message_len
    → IsPublic msg
unfolding leaks
whole-IsPublic t msg full clean short = record {
  there = full;
  bounded = short;
  one_line = ground arith;
  no_users = ground arith;
  no_home = ground arith;
  no_hex = ground arith;
}

internal_message-IsPublic : IsPublic internal_message
unfolding contains has_control is_empty
internal_message-IsPublic = record {
  there = refl;
  bounded = omega arith;
  one_line = refl;
  no_users = refl;
  no_home = refl;
  no_hex = refl;
}

code_range : (code : Code) → (400 ≤ status_of code) × (status_of code < 600)
unfolding status_of
code_range code = ground arith

sanitize_trimmed-IsPublic : (t : TextLib) (msg : Bytes) → IsPublic (sanitize_trimmed t msg)
unfolding sanitize_trimmed shortened
sanitize_trimmed-IsPublic t msg = elim (Bool-cases (is_empty msg)) [
  | inl empty ↦ rw empty internal_message-IsPublic
  | inr full ↦ elim (Bool-cases (leaks t msg)) [
    | inl leak ↦ rw (full, leak) internal_message-IsPublic
    | inr clean ↦ elim (Bool-cases (ltb max_message_len (length msg))) [
      | inl long ↦ rw (full, clean, long) (take-IsPublic t msg full clean)
      | inr short ↦ rw (full, clean, short) (whole-IsPublic t msg full clean (ground arith))
    ]
  ]
]

-- Whatever a handler says of an error, and whatever the functions on texts do, the message of the
-- envelope, before it is encoded, has 1 to 200 bytes, no line break or tab, and none of the texts
-- /Users/, /home/ and 0x; and the status is one of 400 to 599.
pub write_error-IsPublic :
    (t : TextLib) (now : Bytes) (ctx : Option Trace) (code : Code) (msg : Bytes)
    → IsPublic (write_error t now ctx code msg).envelope.message
      × (400 ≤ (write_error t now ctx code msg).status)
      × ((write_error t now ctx code msg).status < 600)
unfolding write_error sanitize
write_error-IsPublic t now ctx code msg =
    (sanitize_trimmed-IsPublic t (t.trim_space msg), (code_range code).0, (code_range code).1)
