-- ===== src/Obs/Log/Redact.antt =====
-- The keys that the log never carries at the top level.
use feature_flag_service.Common.{
  ◌≡◌, refl, ◌⊎◌, inl, inr, true, false, Bytes, codes, str_eq, is_empty, List, [], ◌∷◌, Option,
  if◌then◌else◌, All, All-append, Bool-cases, arith,
}
use feature_flag_service.Common.Text.{TextLib, IsTextLib}
use feature_flag_service.Obs.Trace.{Trace, valid, trace_from_context}
use feature_flag_service.Obs.Log.{
  Level, is_below_error, redacted_value, Attr, Binding, bound_attrs, bound_group, RedactHandler,
  is_pii_key, attr, filter, filter_all, trace_attrs, handle, kept_attrs, with_attrs, with_group,
  with_stamp, new_handler,
}

module _ {V : Type 0} (t : TextLib) (text : Bytes → V) where
  -- An attribute that names no person, or, in an error, one whose value is gone.
  abbrev pub IsSafeAt : Level → Attr V → Type 0
  IsSafeAt level a =
      (is_pii_key t text a.key ≡ false)
      ⊎ ((is_below_error level ≡ false) × (a.value ≡ text redacted_value))

  abbrev pub BindingIsSafe : Binding V → Type 0
  BindingIsSafe (bound_attrs attrs) = All (λ a. is_pii_key t text a.key ≡ false) attrs
  BindingIsSafe (bound_group name) = Unit

  -- `WithAttrs` and `WithGroup`, one after the other.
  abbrev pub bind_all : List (Binding V) → RedactHandler V → RedactHandler V
  bind_all [] h = h
  bind_all (bound_attrs attrs ∷ rest) h = bind_all rest (with_attrs t text attrs h)
  bind_all (bound_group name ∷ rest) h = bind_all rest (with_group t text name h)

  filter_all-IsSafe :
      (h : RedactHandler V) (level : Level) (attrs : List (Attr V))
      → h.redact ≡ true
      → All (IsSafeAt level) (filter_all t text h level attrs)
  unfolding filter_all filter
  filter_all-IsSafe h level [] on = tt
  filter_all-IsSafe h level (a ∷ rest) on =
      let safe = filter_all-IsSafe h level rest on in
      elim (Bool-cases (is_pii_key t text a.key)) [
        | inr plain ↦ rw (on, plain) (inl plain, safe)
        | inl pii ↦ elim (Bool-cases (is_below_error level)) [
          | inl below ↦ rw (on, pii, below) safe
          | inr above ↦ rw (on, pii, above) (inr (above, refl), safe)
        ]
      ]

  kept_attrs-IsSafe :
      (h : RedactHandler V) (attrs : List (Attr V))
      → h.redact ≡ true
      → BindingIsSafe (bound_attrs (kept_attrs t text h attrs))
  unfolding kept_attrs
  kept_attrs-IsSafe h [] on = tt
  kept_attrs-IsSafe h (a ∷ rest) on = elim (Bool-cases (is_pii_key t text a.key)) [
    | inl pii ↦ rw (on, pii) (kept_attrs-IsSafe h rest on)
    | inr plain ↦ rw (on, plain) (plain, kept_attrs-IsSafe h rest on)
  ]

  IsGuarded : RedactHandler V → Type 0
  IsGuarded h = (h.redact ≡ true) × All BindingIsSafe h.inner

  with_attrs-IsGuarded :
      (attrs : List (Attr V)) (h : RedactHandler V)
      → IsGuarded h
      → IsGuarded (with_attrs t text attrs h)
  unfolding with_attrs IsGuarded
  with_attrs-IsGuarded attrs h (on, safe) = (on, (kept_attrs-IsSafe h attrs on, safe))

  bind_all-IsGuarded :
      (steps : List (Binding V)) (h : RedactHandler V) → IsGuarded h → IsGuarded (bind_all steps h)
  unfolding with_group IsGuarded
  bind_all-IsGuarded [] h guarded = guarded
  bind_all-IsGuarded (bound_attrs attrs ∷ rest) h guarded =
      bind_all-IsGuarded rest (with_attrs t text attrs h) (with_attrs-IsGuarded attrs h guarded)
  bind_all-IsGuarded (bound_group name ∷ rest) h (on, safe) =
      bind_all-IsGuarded rest (with_group t text name h) (on, (tt, safe))

  with_stamp-IsGuarded :
      (k v : Bytes) (h : RedactHandler V) → IsGuarded h → IsGuarded (with_stamp t text k v h)
  unfolding with_stamp
  with_stamp-IsGuarded k v h guarded = elim (Bool-cases (is_empty v)) [
    | inl empty ↦ rw empty guarded
    | inr there ↦ rw there (with_attrs-IsGuarded (attr t text k (text v) ∷ []) h guarded)
  ]

  new_handler-IsGuarded :
      (service instance_id : Bytes) → IsGuarded (new_handler t text false service instance_id)
  unfolding new_handler IsGuarded
  new_handler-IsGuarded service instance_id =
      with_stamp-IsGuarded (codes "instance_id") instance_id _ (
        with_stamp-IsGuarded (codes "service") service (record { inner = []; redact = true })
          (refl, tt))

  module _ (lib : IsTextLib t) where
    span_attrs-IsSafe :
        (level : Level) (span : Bytes)
        → All
            (IsSafeAt level)
            (if is_empty span then [] else attr t text (codes "span_id") (text span) ∷ [])
    unfolding is_pii_key str_eq
    span_attrs-IsSafe level span = elim (Bool-cases (is_empty span)) [
      | inl empty ↦ rw empty tt
      | inr there ↦ rw there (inl (rw (lib.lowers (codes "span_id") (ground arith)) refl), tt)
    ]

    trace_attrs-IsSafe : (level : Level) (tr : Trace) → All (IsSafeAt level) (trace_attrs t text tr)
    unfolding trace_attrs is_pii_key str_eq
    trace_attrs-IsSafe level tr = elim (Bool-cases (valid tr)) [
      | inr none_there ↦ rw none_there tt
      | inl there ↦ rw there (
        inl (rw (lib.lowers (codes "trace_id") (ground arith)) refl),
        span_attrs-IsSafe level tr.span_id,
      )
    ]

    -- In a logger that does not allow them, no key that names a person stands at the top level: whatever
    -- attributes and groups are bound to it, none of the attributes bound has such a key, and neither
    -- has any attribute of a line below error; in an error, the value under such a key is the text that
    -- stands for a removed one. The keys inside an attribute that is itself a group are not looked at.
    pub handle-IsSafe :
        (service instance_id : Bytes) (steps : List (Binding V)) (ctx : Option Trace)
        (level : Level) (attrs : List (Attr V))
        → let h = bind_all steps (new_handler t text false service instance_id) in
          All BindingIsSafe h.inner × All (IsSafeAt level) (handle t text h ctx level attrs)
    unfolding handle IsGuarded
    handle-IsSafe service instance_id steps ctx level attrs =
        let h = bind_all steps (new_handler t text false service instance_id) in
        let guarded = bind_all-IsGuarded steps _ (new_handler-IsGuarded service instance_id) in
        (
          guarded.1,
          All-append (IsSafeAt level) (trace_attrs t text (trace_from_context ctx)) _
              (trace_attrs-IsSafe level (trace_from_context ctx))
              (filter_all-IsSafe h level attrs guarded.0),
        )
