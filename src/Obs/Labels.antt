-- ===== src/Obs/Labels.antt =====
-- internal/obs/metrics.go: the guard on the labels of a metric and the keys of series. `quote` is
-- strconv.Quote.
pub mod Guard
mod Examples
use feature_flag_service.Common.{
  ℕ, ltb, Bool, true, false, not, ◌&&◌, ◌||◌, Bytes, codes, str_eq, is_empty, List, [], ◌∷◌, ◌++◌,
  Option, none, some, if◌then◌else◌, length, Map, lookup,
}
use feature_flag_service.Common.Text.{TextLib}
use feature_flag_service.Config.Snapshot.{is_before, sort_strings}

-- `Label`
pub record Label : Type 0 where
  pub name : Bytes
  pub value : Bytes

abbrev pub is_listed : Bytes → List Bytes → Bool
is_listed s [] = false
is_listed s (a ∷ rest) = str_eq a s || is_listed s rest

-- `allowedLabelNames`
abbrev pub allowed_label_names : List Bytes
allowed_label_names =
    codes "flag"
    ∷ (codes "env"
        ∷ (codes "reason"
            ∷ (codes "result"
                ∷ (codes "stage"
                    ∷ (codes "state"
                        ∷ (codes "route"
                            ∷ (codes "method" ∷ (codes "code" ∷ (codes "site" ∷ [])))))))))

-- `deniedLabelNames`
abbrev pub denied_label_names : Map Bytes
denied_label_names =
    (
      codes "user_id",
      codes "unbounded: 1e9 users x 500 flags is 5e11 series, an outage of the metrics backend",
    )
    ∷ ((codes "tenant_id", codes "unbounded until a ceiling is proven; log it instead")
        ∷ ((codes "session_id", codes "unbounded")
            ∷ ((codes "request_id", codes "unbounded")
                ∷ ((codes "trace_id", codes "unbounded; this is what tracing is for")
                    ∷ ((codes "span_id", codes "unbounded")
                        ∷ ((
                          codes "rule_id",
                          codes
                              "grows with config edits and is already carried on Result and in logs",
                        )
                            ∷ ((codes "bucket", codes "10000 distinct values per flag")
                                ∷ ((codes "path", codes "attacker-controlled; use the route label")
                                    ∷ ((codes "url", codes "attacker-controlled")
                                        ∷ ((codes "query", codes "attacker-controlled")
                                            ∷ ((
                                              codes "ip",
                                              codes "unbounded and personally identifying",
                                            )
                                                ∷ ((
                                                  codes "email",
                                                  codes "unbounded and personally identifying",
                                                )
                                                    ∷ ((
                                                      codes "value",
                                                      codes
                                                          "flag values are unbounded for string flags",
                                                    )
                                                        ∷ [])))))))))))))

abbrev pub max_label_value_len : ℕ
max_label_value_len = 96

-- Why `ValidateLabel` refuses a label, with what its text is made of.
pub data LabelError : Type 0 where
  empty_label_name : LabelError
  denied_label : Bytes → Bytes → LabelError
  unlisted_label : Bytes → List Bytes → LabelError
  long_value : Bytes → ℕ → ℕ → LabelError

-- `sortedAllowed`
abbrev pub sorted_allowed : List Bytes
sorted_allowed = sort_strings allowed_label_names

module _ (t : TextLib) where
  -- `strings.ToLower(strings.TrimSpace(l.Name))`
  abbrev pub label_name : Label → Bytes
  label_name l = t.to_lower (t.trim_space l.name)

  abbrev pub validate_listed : Bytes → Label → Option LabelError
  validate_listed name l =
      if not (is_listed name allowed_label_names)
      then some (unlisted_label name sorted_allowed)
      else if ltb max_label_value_len (length l.value)
      then some (long_value name (length l.value) max_label_value_len)
      else none

  abbrev pub unless_denied : Bytes → Option Bytes → Option LabelError → Option LabelError
  unless_denied name (some why) rest = some (denied_label name why)
  unless_denied name none rest = rest

  -- `ValidateLabel`: none is a nil error.
  unfoldable pub validate_label : Label → Option LabelError
  unfolding lookup is_empty
  validate_label l =
      if is_empty (label_name l)
      then some empty_label_name
      else unless_denied (label_name l) (lookup (label_name l) denied_label_names)
          (validate_listed (label_name l) l)

  -- One round of the loop of `SanitizeLabels`, on what the rounds after it give.
  abbrev pub sanitize_label :
      Label → Option LabelError → List Label × List Bytes → List Label × List Bytes
  sanitize_label l (some err) (kept, dropped) = (kept, l.name ∷ dropped)
  sanitize_label l none (kept, dropped) =
      (record { name = label_name l; value = l.value } ∷ kept, dropped)

  -- `SanitizeLabels`: the labels that are kept, and the names of those that are dropped.
  unfoldable pub sanitize_labels : List Label → List Label × List Bytes
  unfolding validate_label
  sanitize_labels [] = ([], [])
  sanitize_labels (l ∷ ls) = sanitize_label l (validate_label l) (sanitize_labels ls)

-- `sort.Slice` on the names of labels.
unfoldable pub insert_label : Label → List Label → List Label
insert_label l [] = l ∷ []
insert_label l (k ∷ ks) = if is_before l.name k.name then l ∷ (k ∷ ks) else k ∷ insert_label l ks

unfoldable pub sort_labels : List Label → List Label
unfolding insert_label
sort_labels [] = []
sort_labels (l ∷ ls) = insert_label l (sort_labels ls)

module _ (quote : Bytes → Bytes) where
  abbrev pub label_text : Label → Bytes
  label_text l = l.name ++ (b'=' ∷ quote l.value)

  abbrev pub rest_text : List Label → Bytes
  rest_text [] = codes "}"
  rest_text (l ∷ ls) = b',' ∷ (label_text l ++ rest_text ls)

  abbrev pub braced : List Label → Bytes
  braced [] = codes "{}"
  braced (l ∷ ls) = b'{' ∷ (label_text l ++ rest_text ls)

  -- `seriesKey`
  unfoldable pub series_key : Bytes → List Label → Bytes
  unfolding sort_labels
  series_key name [] = name
  series_key name (l ∷ ls) = name ++ braced (sort_labels (l ∷ ls))
