-- ===== src/Core/Trace.antt =====
-- What evaluation does beside its result: it may panic, and it calls the condition observer. A
-- computation yields its outcome and the calls of the observer that it made, in order.
use feature_flag_service.Common.{Bytes, List, [], ◌++◌}

-- Tri of internal/core/matcher.go
pub data Tri : Type 0 where
  tri_false tri_true tri_absent tri_bad_type tri_bad_value tri_bad_op : Tri

pub record Observation : Type 0 where
  pub flag_key : Bytes
  pub rule_id : Bytes
  pub attribute : Bytes
  pub outcome : Tri

pub data Run {ℓ} (A : Type ℓ) : Type ℓ where
  returns : A → Run A
  panics : Run A

abbrev pub Traced : Type 0 → Type 0
Traced A = Run A × List Observation

abbrev pub pure : {A : Type 0} → A → Traced A
pure a = (returns a, [])

-- A call whose result the rest uses.
abbrev pub after : {A B : Type 0} → Run A → (A → Run B) → Run B
after (returns a) f = f a
after panics f = panics

-- A call of an interface that is not the observer.
abbrev pub lift : {A : Type 0} → Run A → Traced A
lift r = (r, [])

abbrev pub continue : {A B : Type 0} → Run A → List Observation → (A → Traced B) → Traced B
continue (returns a) log f = let (r, more) = f a in (r, log ++ more)
continue panics log f = (panics, log)

infixl 5 ◌>>=◌
abbrev pub ◌>>=◌ : {A B : Type 0} → Traced A → (A → Traced B) → Traced B
m >>= f = continue m.0 m.1 f
