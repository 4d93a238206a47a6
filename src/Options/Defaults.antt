-- ===== src/Options/Defaults.antt =====
-- The definition that a host's options give is whole.
use tether.Prelude.{
  false, List, [], ◌∷◌, Option, none, Text, txt, ◌=t◌, if◌then◌else◌, ◌≡◌, refl, ◌⊎◌, inl, inr, All,
  arith,
}
use tether.Options.{ShapeOptions, ShapeOption, primary_key, table, apply_options, shape_def}
use tether.Shape.Filter.{Filter}
use tether.Shape.Instance.{with_defaults}

-- The options of the package, and nil.
abbrev pub Known : ShapeOption → Type 0
Known opt =
    (opt ≡ none)
    ⊎ ((cols : List Text) × (opt ≡ primary_key cols))
    ⊎ ((schema : Text) × (name : Text) × (opt ≡ table schema name))

abbrev Whole : ShapeOptions → Type 0
Whole o = ((o.schema =t []) ≡ false) × ((o.table =t []) ≡ false)

options-Whole :
    (opts : List ShapeOption) (o : ShapeOptions)
    → All Known opts
    → Whole o
    → Whole (apply_options opts o)
unfolding apply_options primary_key table
options-Whole [] o known w = w
options-Whole (opt ∷ opts) o (inl e, known) w = rw e (options-Whole opts o known w)
options-Whole (opt ∷ opts) o (inr (inl (cols, e)), known) w =
    rw e (options-Whole opts (record o { primary_key = cols }) known w)
options-Whole (opt ∷ opts) o (inr (inr (schema, name, e)), known) w =
    let o' : ShapeOptions = record o {
      schema = if schema =t [] then o.schema else schema;
      table = if name =t [] then o.table else name;
    } in
    rw e (options-Whole opts o' known (ground arith, ground arith))

-- A shape with a name, defined with any of the package's options in any order, names a schema and a
-- table: of the defaults that NewInstance and Register fill in, only that of an empty primary key
-- ever matters.
pub with_defaults-shape_def :
    {C : Type 0} (name : Text) (bind : Option (C → Filter)) (opts : List ShapeOption)
    → All Known opts
    → (name =t []) ≡ false
    → let def = shape_def name bind opts in
      with_defaults def
      ≡ record def { primary_key = elim def.primary_key [ [] ↦ txt "id" ∷ [] | k ∷ ks ↦ k ∷ ks ] }
unfolding shape_def with_defaults
with_defaults-shape_def name bind opts known named =
    let (schema, tab) =
      options-Whole opts
        (record { schema = txt "public"; table = name; primary_key = txt "id" ∷ [] }) known
        (unfold ◌=t◌ in refl, named) in
    rw (schema, tab)
