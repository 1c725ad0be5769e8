-- ===== src/Obs/Registry/Examples.antt =====
-- Tests of the registry of series, on whole numbers and with a cap of one.
use feature_flag_service.Common.{
  ◌≡◌, refl, ℕ, ◌≤◌, Bytes, codes, str_eq, is_empty, List, [], ◌∷◌, length, lookup, insert, keys,
}
use feature_flag_service.Common.Text.{ascii}
use feature_flag_service.Obs.Labels.{Label, validate_label, sanitize_labels, series_key}
use feature_flag_service.Obs.Registry.{
  Var, float_var, Registry, new_registry, set_max_series, get, get_all,
}
use feature_flag_service.Obs.Registry.Capped.{get_all-length}

abbrev plain_quote : Bytes → Bytes
plain_quote s = s

abbrev small : Registry ℕ
small = set_max_series 1 (new_registry [])

abbrev of_env : Bytes → Bytes × List Label × Var ℕ
of_env env = (codes "m", record { name = codes "env"; value = env } ∷ [], float_var 0)

abbrev churn : List (Bytes × List Label × Var ℕ)
churn = of_env (codes "a") ∷ (of_env (codes "b") ∷ (of_env (codes "c") ∷ (of_env (codes "a") ∷ [])))

-- The series past the cap is one more.
churn_keys :
    keys (get_all ascii plain_quote churn small).series
    ≡ codes "m{env=a}" ∷ (codes "m{__overflow__}" ∷ [])
unfolding get_all get series_key sanitize_labels validate_label lookup insert str_eq is_empty
churn_keys = refl

get_all-length_example : length (get_all ascii plain_quote churn small).series ≤ 2
unfolding str_eq
get_all-length_example =
    get_all-length ascii plain_quote (codes "m" ∷ []) churn small refl
      (refl, (refl, (refl, (refl, tt))))
