-- ===== src/Options.antt =====
-- tether.go: the definition of a shape from a host's options, and Where.
pub mod Defaults
use tether.Prelude.{
  Bool, true, false, List, [], ◌∷◌, Option, none, some, Text, txt, ◌=t◌, Result, ok, err,
  if◌then◌else◌, Unicode,
}
use tether.Shape.Error.{Error, nil_bind}
use tether.Shape.Filter.{Filter}
use tether.Shape.Filter.Parse.{parse_where}
use tether.Shape.Instance.{Definition}
use tether.Value.{Value}

pub record ShapeOptions : Type 0 where
  pub schema : Text
  pub table : Text
  pub primary_key : List Text

-- A ShapeOption is a function on the options, or nil.
abbrev pub ShapeOption : Type 0
ShapeOption = Option (ShapeOptions → ShapeOptions)

-- PrimaryKey
unfoldable pub primary_key : List Text → ShapeOption
primary_key cols = some (λ o. record o { primary_key = cols })

-- Table
unfoldable pub table : Text → Text → ShapeOption
table schema name = some (λ o. record o {
  schema = if schema =t [] then o.schema else schema;
  table = if name =t [] then o.table else name;
})

-- The loop over the options.
unfoldable pub apply_options : List ShapeOption → ShapeOptions → ShapeOptions
apply_options [] o = o
apply_options (none ∷ opts) o = apply_options opts o
apply_options (some f ∷ opts) o = apply_options opts (f o)

-- shapeDef: a nil bind becomes a function that fails.
unfoldable pub shape_def :
    {C : Type 0} → Text → Option (C → Filter) → List ShapeOption → Definition C
unfolding apply_options
shape_def name bind opts =
    let o =
      apply_options opts
        (record { schema = txt "public"; table = name; primary_key = txt "id" ∷ [] }) in
    record {
      name = name;
      schema = o.schema;
      table = o.table;
      primary_key = o.primary_key;
      bind = some (λ claims. elim bind [ none ↦ err nil_bind | some f ↦ ok (f claims) ]);
    }

-- Where panics on a clause that ParseWhere refuses.
unfoldable pub where_filter : Unicode → Text → List Value → Result Error Filter
where_filter u clause args = parse_where u clause args
