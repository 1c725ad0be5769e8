-- ===== src/Core/Bucket/Keys.antt =====
-- The bucketing key determines the namespace and the subject, whatever bytes they hold.
use feature_flag_service.Common.{
  ℕ, ◌≡◌, sym, ap, ◌∙◌, Bytes, length, ◌∷◌, ◌++◌, Option, none, some, decimal, format_int,
  value_from, value_from-decimal, decimal-IsDigit, digits-Avoids, cut, cut-append, append_cancel,
  arith,
}
use feature_flag_service.Core.Model.{Flag}
use feature_flag_service.Core.Context.{EvalContext}
use feature_flag_service.Core.Bucket.{compose_key, keyed, namespace_key, namespace_of, subject_of}

abbrev body : Bytes → Bytes → Bytes
body namespace subject = namespace ++ (b':' ∷ subject)

-- The length prefix ends at the first colon.
cut-compose_key : (n s : Bytes) → cut b':' (compose_key n s) ≡ some (decimal (length n), body n s)
unfolding compose_key format_int
cut-compose_key n s =
    cut-append b':' (decimal (length n)) (body n s)
      (digits-Avoids b':' (decimal (length n)) (omega arith) (decimal-IsDigit (length n)))

decimal-injective : (m n : ℕ) → decimal m ≡ decimal n → m ≡ n
decimal-injective m n e = sym (value_from-decimal m) ∙ ap (value_from 0) e ∙ value_from-decimal n

pub compose_key-injective :
    (n n' s s' : Bytes) → compose_key n s ≡ compose_key n' s' → (n ≡ n') × (s ≡ s')
compose_key-injective n n' s s' e =
    let parts : some (decimal (length n), body n s) ≡ some (decimal (length n'), body n' s') =
      sym (cut-compose_key n s) ∙ ap (cut b':') e ∙ cut-compose_key n' s' in
    let same_length : length n ≡ length n' = decimal-injective (length n) (length n') (cc parts) in
    let split = append_cancel n n' (b':' ∷ s) (b':' ∷ s') same_length (cc parts) in
    (split.0, cc (split.1))

keyed-injective :
    (n n' : Bytes) (s s' : Option Bytes) (key : Bytes)
    → keyed n s ≡ some key
    → keyed n' s' ≡ some key
    → (n ≡ n') × (s ≡ s')
keyed-injective n n' (some s) (some s') key h h' =
    let same = compose_key-injective n n' s s' (cc) in (same.0, ap some same.1)
keyed-injective n n' none s' key h h' = absurd (cc)
keyed-injective n n' (some s) none key h h' = absurd (cc)

-- Two evaluations have one bucketing key only if they agree on the namespace and on the subject.
pub namespace_key-injective :
    (flag flag' : Flag) (ctx ctx' : EvalContext) (key : Bytes)
    → namespace_key (some flag) ctx ≡ some key
    → namespace_key (some flag') ctx' ≡ some key
    → (namespace_of flag ≡ namespace_of flag') × (subject_of flag ctx ≡ subject_of flag' ctx')
unfolding namespace_key
namespace_key-injective flag flag' ctx ctx' key h h' =
    keyed-injective (namespace_of flag) (namespace_of flag') (subject_of flag ctx)
      (subject_of flag' ctx') key h h'
