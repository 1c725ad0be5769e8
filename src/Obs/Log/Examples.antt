-- ===== src/Obs/Log/Examples.antt =====
-- Tests of the redaction, on texts.
use feature_flag_service.Common.{
  ◌≡◌, refl, Bytes, codes, str_eq, is_empty, List, [], ◌∷◌, none, false, All,
}
use feature_flag_service.Common.Text.{ascii, ascii-IsTextLib}
use feature_flag_service.Obs.Log.{
  info_level, error_level, Attr, Binding, bound_attrs, bound_group, is_pii_key, handle, new_handler,
}
use feature_flag_service.Obs.Log.Redact.{IsSafeAt, BindingIsSafe, bind_all, handle-IsSafe}

abbrev as_text : Bytes → Bytes
as_text s = s

abbrev bound : List (Binding Bytes)
bound =
    bound_attrs (
      record { key = codes "Email"; value = codes "a@b.c" }
      ∷ (record { key = codes "region"; value = codes "eu" } ∷ []))
    ∷ (bound_group (codes "http") ∷ [])

abbrev line : List (Attr Bytes)
line =
    record { key = codes "USER_ID"; value = codes "42" }
    ∷ (record { key = codes "flag"; value = codes "new-checkout" } ∷ [])

line_at_info :
    handle ascii as_text (new_handler ascii as_text false [] []) none info_level line
    ≡ record { key = codes "flag"; value = codes "new-checkout" } ∷ []
unfolding handle new_handler is_pii_key str_eq is_empty
line_at_info = refl

line_at_error :
    handle ascii as_text (new_handler ascii as_text false [] []) none error_level line
    ≡ record { key = codes "USER_ID"; value = codes "[redacted]" }
      ∷ (record { key = codes "flag"; value = codes "new-checkout" } ∷ [])
unfolding handle new_handler is_pii_key str_eq is_empty
line_at_error = refl

-- A value that may be a group of one attribute.
data Shown : Type 0 where
  shown : Bytes → Shown
  grouped : Attr Bytes → Shown

abbrev request : Attr Shown
request = record {
  key = codes "req";
  value = grouped (record { key = codes "email"; value = codes "a@b.c" });
}

-- A key that names a person goes out with its value inside a group.
inside_group :
    handle ascii shown (new_handler ascii shown false [] []) none info_level (request ∷ [])
    ≡ request ∷ []
unfolding handle new_handler is_pii_key str_eq is_empty
inside_group = refl

handle-IsSafe_example :
    All
      (BindingIsSafe ascii as_text)
      (bind_all ascii as_text bound (new_handler ascii as_text false (codes "flagd") [])).inner
    × All (IsSafeAt ascii as_text info_level) (
        handle ascii as_text
          (bind_all ascii as_text bound (new_handler ascii as_text false (codes "flagd") []))
          none
          info_level
          line)
handle-IsSafe_example =
    handle-IsSafe ascii as_text ascii-IsTextLib (codes "flagd") [] bound none info_level line
