-- ===== src/Shape/Registry/Laws.antt =====
-- What Register accepts, and what Get answers afterwards.
use tether.Prelude.{
  Bool, true, false, [], some, Text, ◌=t◌, ok, err, if◌then◌else◌, lookup, insert, lookup-insert,
  is_some, ◌≡◌, refl, ◌↔◌,
}
use tether.Shape.Error.{name_required, bind_required, duplicate_shape}
use tether.Shape.Instance.{Definition, with_defaults}
use tether.Shape.Registry.{Registry, register, register_named, get}

module _ {C : Type 0} where
  -- The registry that Register leaves when it succeeds.
  abbrev with_shape : Definition C → Registry C → Registry C
  with_shape def r = record r { defs = insert def.name (with_defaults def) r.defs }

  register_ok :
      (def : Definition C) (r : Registry C)
      → (def.name =t []) ≡ false
      → is_some def.bind ≡ true
      → is_some (lookup def.name r.defs) ≡ false
      → register def r ≡ ok (with_shape def r)
  unfolding register
  register_ok def r a b c = rw (a, b, c)

  register_inv :
      (def : Definition C) (r r' : Registry C)
      → register def r ≡ ok r'
      → ((def.name =t []) ≡ false)
        × (is_some def.bind ≡ true)
        × (is_some (lookup def.name r.defs) ≡ false)
        × (r' ≡ with_shape def r)
  unfolding register register_named
  register_inv def r r' e =
      at (def.name =t []) (is_some def.bind) (is_some (lookup def.name r.defs)) e
    where
      at :
          (a b c : Bool)
          → (if a
              then err name_required
              else if b
              then (if c then err (duplicate_shape def.name) else ok (with_shape def r))
              else err bind_required)
            ≡ ok r'
          → (a ≡ false) × (b ≡ true) × (c ≡ false) × (r' ≡ with_shape def r)
      at true b c e = cc
      at false false c e = cc
      at false true true e = cc
      at false true false e = (refl, refl, refl, cc)

  -- Register succeeds exactly on a definition with a name and a bind function whose name is new.
  pub register_iff :
      (def : Definition C) (r : Registry C)
      → ((r' : Registry C) × (register def r ≡ ok r'))
        ↔ ((def.name =t []) ≡ false)
          × (is_some def.bind ≡ true)
          × (is_some (get def.name r) ≡ false)
  unfolding register get
  register_iff def r = (
    (λ s. let (a, b, c, d) = register_inv def r s.0 s.1 in (a, b, c)),
    λ h. (with_shape def r, register_ok def r h.0 h.1 h.2),
  )

  -- After Register, Get returns the definition with its defaults under its name, and what it
  -- returned before under every other name.
  pub register-get :
      (def : Definition C) (r r' : Registry C) (name : Text)
      → register def r ≡ ok r'
      → get name r' ≡ (if def.name =t name then some (with_defaults def) else get name r)
  unfolding register get
  register-get def r r' name e =
      let (a, b, c, d) = register_inv def r r' e in
      rw d (lookup-insert def.name name (with_defaults def) r.defs)
