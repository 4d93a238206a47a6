-- ===== src/Shape/Registry.antt =====
-- The Registry of internal/shape/apply.go: the shapes that a host has defined, by name.
pub mod Laws
mod Tests
use tether.Prelude.{
  Bool, List, [], ◌∷◌, Option, none, some, Text, ◌=t◌, Result, ok, err, if◌then◌else◌, Dict, lookup,
  insert, is_some, map,
}
use tether.Shape.Error.{Error, name_required, bind_required, duplicate_shape}
use tether.Shape.Instance.{Definition, with_defaults}

pub record Registry (C : Type 0) : Type 0 where
  pub defs : Dict (Definition C)

-- NewRegistry
unfoldable pub new_registry : {C : Type 0} → Registry C
new_registry = record { defs = [] }

module _ {C : Type 0} where
  -- The rest of Register, behind the two checks of its argument.
  register_named : Definition C → Registry C → Result Error (Registry C)
  register_named def r =
      if is_some (lookup def.name r.defs)
      then err (duplicate_shape def.name)
      else ok (record r { defs = insert def.name (with_defaults def) r.defs })

  -- Register
  unfoldable pub register : Definition C → Registry C → Result Error (Registry C)
  unfolding register_named
  register def r =
      if def.name =t []
      then err name_required
      else if is_some def.bind
      then register_named def r
      else err bind_required

  -- Get
  unfoldable pub get : Text → Registry C → Option (Definition C)
  get name r = lookup name r.defs

  -- All, in the order of the map's iteration
  unfoldable pub all : Registry C → List (Definition C)
  all r = map (λ e. e.1) r.defs
