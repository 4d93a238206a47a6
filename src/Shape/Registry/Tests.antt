-- ===== src/Shape/Registry/Tests.antt =====
-- The registry on one shape.
use tether.Prelude.{
  true, false, [], ◌∷◌, some, txt, ◌=t◌, is_some, lookup, insert, ◌≡◌, refl, ◌↔◌, ok,
}
use tether.Shape.Instance.{Definition, with_defaults}
use tether.Shape.Registry.{Registry, new_registry, register, get}
use tether.Shape.Registry.Laws.{register_iff}

abbrev todos : Definition Unit
todos = record {
  name = txt "todos";
  schema = [];
  table = [];
  primary_key = [];
  bind = some (λ claims. ok (record { preds = [] }));
}

abbrev one : Registry Unit
one = record { defs = (txt "todos", with_defaults todos) ∷ [] }

registers : register todos new_registry ≡ ok one
unfolding register new_registry ◌=t◌ lookup insert
registers = refl

register_iff_example :
    ((r' : Registry Unit) × (register todos one ≡ ok r'))
    ↔ ((todos.name =t []) ≡ false)
      × (is_some todos.bind ≡ true)
      × (is_some (get todos.name one) ≡ false)
register_iff_example = register_iff todos one
