-- ===== src/Core/Context.antt =====
-- internal/core/evalctx.go: the evaluation context. The attribute map is an association list; a nil
-- map is the empty one.
use feature_flag_service.Common.{
  Bytes, codes, str_eq, is_empty, Map, lookup, Option, none, some, if◌then◌else◌,
}
use feature_flag_service.Core.Value.{Value, string}

pub record EvalContext : Type 0 where
  pub user_id : Bytes
  pub tenant_id : Bytes
  pub attributes : Map Value

-- The `switch` over the names of the shorthand fields.
unfoldable pub shorthand : EvalContext → Bytes → Option Value
shorthand c name =
    if str_eq name (codes "user_id")
    then (if is_empty c.user_id then none else some (string c.user_id))
    else if str_eq name (codes "tenant_id")
    then (if is_empty c.tenant_id then none else some (string c.tenant_id))
    else none

-- `EvalContext.Attribute`; `none` is its `ok == false`.
unfoldable pub attribute : EvalContext → Bytes → Option Value
attribute c name = elim (lookup name c.attributes) [ some v ↦ some v | none ↦ shorthand c name ]
