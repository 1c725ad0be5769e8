-- ===== src/Http/Requests/Names.antt =====
-- Which names of a request become labels.
use feature_flag_service.Common.{
  ◌≡◌, refl, inl, inr, ℕ, ◌≤◌, true, Bytes, codes, str_eq, List, [], ◌∷◌, length, All, lookup,
  AllValues, AllValues-lookup, Bool-cases, Option-cases, arith,
}
use feature_flag_service.Common.Text.{TextLib, IsTextLib}
use feature_flag_service.Core.Model.{Reason, reason_string}
use feature_flag_service.Obs.Labels.{is_listed, sanitize_labels}
use feature_flag_service.Obs.Labels.Guard.{IsBounded, sanitize_labels-same}
use feature_flag_service.Obs.Recorder.{evaluation_labels}
use feature_flag_service.Http.Errors.{has_prefix}
use feature_flag_service.Http.Requests.{routes, route_label, valid_token, valid_env}

valid_token-length : (s : Bytes) (n : ℕ) → valid_token s n ≡ true → length s ≤ n
unfolding valid_token
valid_token-length s n h = ground (arith, h)

reason_string-length : (r : Reason) → length (reason_string r) ≤ 96
unfolding reason_string
reason_string-length r = ground arith

evaluation_labels-IsBounded :
    (flag env : Bytes) (r : Reason)
    → valid_env env ≡ true
    → length flag ≤ 96
    → All IsBounded (evaluation_labels flag env (reason_string r))
unfolding valid_env str_eq
evaluation_labels-IsBounded flag env r valid short = (
  (refl, short),
  ((refl, omega (arith, valid_token-length env 32 valid)), ((refl, reason_string-length r), tt)),
)

-- The labels with which an evaluation is counted all reach the registry, for an environment that the
-- handlers accept and a flag key of at most 96 bytes.
pub evaluation_labels-kept :
    (t : TextLib) (lib : IsTextLib t) (flag env : Bytes) (r : Reason)
    → valid_env env ≡ true
    → length flag ≤ 96
    → sanitize_labels t (evaluation_labels flag env (reason_string r))
      ≡ (evaluation_labels flag env (reason_string r), [])
evaluation_labels-kept t lib flag env r valid short =
    sanitize_labels-same t lib (evaluation_labels flag env (reason_string r))
      (evaluation_labels-IsBounded flag env r valid short)

-- The closed set of labels of a route.
abbrev pub route_labels : List Bytes
route_labels =
    codes "eval"
    ∷ (codes "eval_batch"
        ∷ (codes "config_apply"
            ∷ (codes "health"
                ∷ (codes "live"
                    ∷ (codes "ready"
                        ∷ (codes "debug_vars"
                            ∷ (codes "config_snapshot" ∷ (codes "other" ∷ []))))))))

routes-IsListed : AllValues (λ r. is_listed r route_labels ≡ true) routes
unfolding str_eq
routes-IsListed = ground arith

-- Whatever the path of a request, its label is one of nine.
pub route_label-IsListed : (path : Bytes) → is_listed (route_label path) route_labels ≡ true
unfolding route_label str_eq
route_label-IsListed path = elim (Option-cases (lookup path routes)) [
  | inr (r, there) ↦
      rw there (
        AllValues-lookup (λ r. is_listed r route_labels ≡ true) path r routes there routes-IsListed)
  | inl absent ↦ elim (Bool-cases (has_prefix (codes "/v1/config/snapshot/") path)) [
    | inl inside ↦ rw (absent, inside) refl
    | inr outside ↦ rw (absent, outside) refl
  ]
]
