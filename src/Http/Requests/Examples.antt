-- ===== src/Http/Requests/Examples.antt =====
-- Tests of the names of a request.
use feature_flag_service.Common.{
  ◌≡◌, refl, ℕ, zero, suc, true, Bytes, codes, is_empty, str_eq, [], ◌∷◌, lookup, arith,
}
use feature_flag_service.Common.Text.{ascii, ascii-IsTextLib}
use feature_flag_service.Core.Model.{flag_not_found, reason_string}
use feature_flag_service.Obs.Labels.{validate_label, sanitize_labels}
use feature_flag_service.Obs.Recorder.{evaluation_labels, label}
use feature_flag_service.Http.Errors.{contains}
use feature_flag_service.Http.Requests.{are_token_bytes, valid_env, valid_flag_key}
use feature_flag_service.Http.Requests.Names.{evaluation_labels-kept}

abbrev repeated : ℕ → Bytes
repeated zero = []
repeated (suc n) = b'a' ∷ repeated n

prod_valid : valid_env (codes "prod") ≡ true
unfolding valid_env are_token_bytes contains is_empty
prod_valid = refl

checkout_labels_reach :
    sanitize_labels ascii
      (evaluation_labels (codes "new-checkout") (codes "prod") (reason_string flag_not_found))
    ≡ (evaluation_labels (codes "new-checkout") (codes "prod") (reason_string flag_not_found), [])
checkout_labels_reach =
    evaluation_labels-kept ascii ascii-IsTextLib (codes "new-checkout") (codes "prod")
      flag_not_found prod_valid (omega arith)

-- A flag key that the handlers take and the metrics drop.
long_key_dropped :
    (valid_flag_key (repeated 97) ≡ true)
    × (sanitize_labels ascii (label (codes "flag") (repeated 97) ∷ []) ≡ ([], codes "flag" ∷ []))
unfolding valid_flag_key are_token_bytes contains is_empty sanitize_labels validate_label lookup
    str_eq
long_key_dropped = (refl, refl)
