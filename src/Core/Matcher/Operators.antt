-- ===== src/Core/Matcher/Operators.antt =====
-- The operators against independent descriptions of what they ask.
use feature_flag_service.Common.{
  ◌≡◌, ◌≢◌, refl, ap, ◌↔◌, ◌⊎◌, inl, inr, Bool, true, false, Bytes, contains, has_prefix, All, Any,
  List, [], ◌∷◌, ◌++◌, arith, Bool-cases,
}
use feature_flag_service.Core.Value.{Value, string, value_type}
use feature_flag_service.Core.Value.Laws.{equal_iff, type_eq_iff}
use feature_flag_service.Core.Model.{
  op_greater_than, op_greater_or_equal, op_less_than, op_less_or_equal,
}
use feature_flag_service.Core.Trace.{Tri, tri_false, tri_true, tri_bad_type}
use feature_flag_service.Core.Matcher.{
  decided, match_equals, match_in_loop, match_in, match_contains, match_ordered,
}

-- The attribute `v` is not comparable with any member.
abbrev pub NoneComparable : Value → List Value → Type 0
NoneComparable v vals = All (λ w. value_type w ≢ value_type v) vals

match_in_loop-true :
    (v : Value) (vals : List Value) (seen : Bool)
    → (match_in_loop v vals seen ≡ tri_true) ↔ Any (λ w. v ≡ w) vals
unfolding match_in_loop
match_in_loop-true v [] seen = ground arith
match_in_loop-true v (w ∷ vals) seen = ground (
  arith,
  equal_iff v w,
  type_eq_iff (value_type w) (value_type v),
  match_in_loop-true v vals true,
  match_in_loop-true v vals seen,
)

match_in_loop-bad :
    (v : Value) (vals : List Value) (seen : Bool)
    → (match_in_loop v vals seen ≡ tri_bad_type) ↔ ((seen ≡ false) × NoneComparable v vals)
unfolding match_in_loop
match_in_loop-bad v [] seen = ground arith
match_in_loop-bad v (w ∷ vals) seen = ground (
  arith,
  type_eq_iff (value_type w) (value_type v),
  match_in_loop-bad v vals true,
  match_in_loop-bad v vals seen,
)

match_in_loop-cases :
    (v : Value) (vals : List Value) (seen : Bool)
    → (match_in_loop v vals seen ≡ tri_true)
      ⊎ ((match_in_loop v vals seen ≡ tri_false) ⊎ (match_in_loop v vals seen ≡ tri_bad_type))
unfolding match_in_loop
match_in_loop-cases v [] seen = ground arith
match_in_loop-cases v (w ∷ vals) seen =
    ground (arith, match_in_loop-cases v vals true, match_in_loop-cases v vals seen)

-- `in` is true exactly if the attribute is a member of the set, and a type mismatch exactly if the
-- set is not empty and none of its members has the attribute's type; else it is a decided false.
pub match_in_iff :
    (v : Value) (vals : List Value)
    → ((match_in v vals ≡ tri_true) ↔ Any (λ w. v ≡ w) vals)
      × ((match_in v vals ≡ tri_bad_type) ↔ ((vals ≢ []) × NoneComparable v vals))
      × ((match_in v vals ≡ tri_true)
          ⊎ ((match_in v vals ≡ tri_false) ⊎ (match_in v vals ≡ tri_bad_type)))
match_in_iff v [] = unfold match_in in ground arith
match_in_iff v (w ∷ vals) =
    unfold match_in in
    ground (
      arith,
      match_in_loop-true v (w ∷ vals) false,
      match_in_loop-bad v (w ∷ vals) false,
      match_in_loop-cases v (w ∷ vals) false,
    )

-- `eq` with one operand is `in` with that one member.
pub match_equals-eq-match_in : (v w : Value) → match_equals v (w ∷ []) ≡ match_in v (w ∷ [])
unfolding match_equals match_in
match_equals-eq-match_in v w = ground (
  arith,
  equal_iff v w,
  type_eq_iff (value_type v) (value_type w),
  type_eq_iff (value_type w) (value_type v),
)

has_prefix_iff : (p s : Bytes) → (has_prefix p s ≡ true) ↔ ((q : Bytes) × (s ≡ p ++ q))
unfolding has_prefix
has_prefix_iff [] s = ((λ h. (s, refl)), (λ h. refl))
has_prefix_iff (a ∷ p) [] = ground arith
has_prefix_iff (a ∷ p) (b ∷ s) =
    let ih = has_prefix_iff p s in
    (
      (λ h. let (q, e) = ih.0 (ground arith) in (q, ground arith)),
      (λ (q, e). ground (arith, ih.1 (q, cc))),
    )

contains_complete : (sub s p q : Bytes) → s ≡ p ++ (sub ++ q) → contains sub s ≡ true
unfolding contains
contains_complete sub [] [] q e = (has_prefix_iff sub []).1 (q, e)
contains_complete sub [] (a ∷ p) q e = absurd (cc)
contains_complete sub (b ∷ s) [] q e = ground (arith, (has_prefix_iff sub (b ∷ s)).1 (q, e))
contains_complete sub (b ∷ s) (a ∷ p) q e = ground (arith, contains_complete sub s p q (cc))

abbrev pub Occurs : Bytes → Bytes → Type 0
Occurs sub s = (p : Bytes) × (q : Bytes) × (s ≡ p ++ (sub ++ q))

contains_sound : (sub s : Bytes) → contains sub s ≡ true → Occurs sub s
unfolding contains
contains_sound sub [] h = let (q, e) = (has_prefix_iff sub []).0 h in ([], q, e)
contains_sound sub (b ∷ s) h = elim (Bool-cases (has_prefix sub (b ∷ s))) [
  | inl here ↦ let (q, e) = (has_prefix_iff sub (b ∷ s)).0 here in ([], q, e)
  | inr later ↦
      let (p, q, e) = contains_sound sub s (rw later at h) in (b ∷ p, q, ap (λ t. b ∷ t) e)
]

-- `contains` of two strings is true if the operand occurs in the attribute, and else a decided false.
pub match_contains_iff :
    (s sub : Bytes)
    → ((match_contains (string s) (string sub ∷ []) ≡ tri_true) ↔ Occurs sub s)
      × (decided (match_contains (string s) (string sub ∷ [])) ≡ true)
unfolding match_contains decided
match_contains_iff s sub = (
  (
    (λ h. contains_sound sub s (ground arith)),
    (λ (p, q, e). ground (arith, contains_complete sub s p q e)),
  ),
  ground arith,
)

-- A decided outcome turned round; an undecided one as it is.
abbrev pub collapse_not : Tri → Tri
collapse_not tri_true = tri_false
collapse_not tri_false = tri_true
collapse_not t = t

-- The four orders on a pair of ints are complementary two by two, and a pair of which one is no int is
-- not decided by any.
pub match_ordered-complement :
    (v : Value) (vals : List Value)
    → (match_ordered op_less_or_equal v vals ≡ collapse_not (match_ordered op_greater_than v vals))
      × (match_ordered op_greater_or_equal v vals
          ≡ collapse_not (match_ordered op_less_than v vals))
unfolding match_ordered
match_ordered-complement v vals = ground arith
