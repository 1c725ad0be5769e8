-- ===== src/Obs/Labels/Examples.antt =====
-- Tests of the guard on labels.
use feature_flag_service.Common.{
  ◌≡◌, refl, ◌+◌, Bytes, codes, str_eq, is_empty, List, [], ◌∷◌, ◌++◌, some, length, lookup, All,
}
use feature_flag_service.Common.Text.{ascii, ascii-IsTextLib}
use feature_flag_service.Core.Semver.{lex_compare}
use feature_flag_service.Obs.Labels.{
  Label, denied_label, validate_label, sanitize_labels, series_key,
}
use feature_flag_service.Obs.Labels.Guard.{
  IsBounded, sanitize_labels-IsBounded, sanitize_labels-kept,
}

abbrev quoted : Bytes → Bytes
quoted s = b'"' ∷ (s ++ codes "\"")

abbrev asked : List Label
asked =
    record { name = codes " Route"; value = codes "eval" }
    ∷ (record { name = codes "user_id"; value = codes "42" }
        ∷ (record { name = codes "code"; value = codes "200" } ∷ []))

email_denied :
    validate_label ascii (record { name = codes "Email"; value = [] })
    ≡ some (denied_label (codes "email") (codes "unbounded and personally identifying"))
unfolding validate_label lookup str_eq is_empty
email_denied = refl

asked_sanitized : sanitize_labels ascii asked ≡ (
  record { name = codes "route"; value = codes "eval" }
      ∷ (record { name = codes "code"; value = codes "200" } ∷ []),
  codes "user_id" ∷ [],
)
unfolding sanitize_labels validate_label lookup str_eq is_empty
asked_sanitized = refl

asked_key :
    series_key quoted (codes "m") (sanitize_labels ascii asked).0
    ≡ codes "m{code=\"200\",route=\"eval\"}"
unfolding series_key sanitize_labels validate_label lookup str_eq is_empty lex_compare
asked_key = refl

sanitize_labels-IsBounded_example :
    All IsBounded (sanitize_labels ascii asked).0
    × (length (sanitize_labels ascii asked).0 + length (sanitize_labels ascii asked).1 ≡ 3)
sanitize_labels-IsBounded_example = sanitize_labels-IsBounded ascii ascii-IsTextLib asked

asked_kept :
    sanitize_labels ascii (sanitize_labels ascii asked).0 ≡ ((sanitize_labels ascii asked).0, [])
asked_kept = sanitize_labels-kept ascii ascii-IsTextLib asked
