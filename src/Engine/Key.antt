-- ===== src/Engine/Key.antt =====
-- streamKey and indexNull of engine.go: a stream is kept under the shape's name, a zero byte, and
-- the key of the claims.
mod Tests
use tether.Prelude.{
  ℕ, zero, suc, Bool, true, false, List, [], ◌∷◌, ◌++◌, Option, none, some, Text, ◌==◌,
  if◌then◌else◌, take, length, sym, ◌∙◌, ◌≡◌, refl, All, ◌≢◌, ap, arith, map,
}

unfoldable pub stream_key : Text → Text → Text
stream_key shape_name claims_key = shape_name ++ 0 ∷ claims_key

-- indexNull, with `none` for -1
unfoldable pub index_null : Text → Option ℕ
index_null [] = none
index_null (x ∷ s) =
    let rest = index_null s in
    if x == 0 then some 0 else elim rest [ none ↦ none | some i ↦ some (suc i) ]

-- The shape's name that dispatchChange reads from a stream's key.
unfoldable pub shape_of : Text → Text
unfolding index_null
shape_of key = elim (index_null key) [ none ↦ key | some i ↦ take i key ]

unfoldable pub no_null : Text → Bool
no_null [] = true
no_null (x ∷ s) = let rest = no_null s in if x == 0 then false else rest

index_null-stream_key :
    (name claims : Text)
    → no_null name ≡ true
    → index_null (stream_key name claims) ≡ some (length name)
unfolding index_null stream_key no_null
index_null-stream_key [] claims h = refl
index_null-stream_key (x ∷ name) claims h = ground (arith, index_null-stream_key name claims)

take-append {ℓ} : {A : Type ℓ} (xs ys : List A) → take (length xs) (xs ++ ys) ≡ xs
take-append [] ys = refl
take-append (x ∷ xs) ys = ap (◌∷◌ x) (take-append xs ys)

shape_of_at : (key : Text) (i : ℕ) → index_null key ≡ some i → shape_of key ≡ take i key
unfolding shape_of
shape_of_at key i e = ground arith

-- dispatchChange reads from the key of a stream the shape's name, if the name has no zero byte:
-- whatever the claims' key, zero bytes included.
pub shape_of-stream_key :
    (name claims : Text) → no_null name ≡ true → shape_of (stream_key name claims) ≡ name
unfolding stream_key
shape_of-stream_key name claims h =
    shape_of_at (stream_key name claims) (length name) (index_null-stream_key name claims h)
    ∙ take-append name (0 ∷ claims)

append_inj {ℓ} : {A : Type ℓ} (xs : List A) (ys zs : List A) → xs ++ ys ≡ xs ++ zs → ys ≡ zs
append_inj [] ys zs e = e
append_inj (x ∷ xs) ys zs e = append_inj xs ys zs cc

-- Two subscriptions share a stream only if they are to one shape under one claims' key, where the
-- shapes' names have no zero byte.
pub stream_key_inj :
    (name name' claims claims' : Text)
    → no_null name ≡ true
    → no_null name' ≡ true
    → stream_key name claims ≡ stream_key name' claims'
    → (name ≡ name') × (claims ≡ claims')
unfolding stream_key
stream_key_inj name name' claims claims' h h' e =
    let n : name ≡ name' =
      sym (shape_of-stream_key name claims h)
      ∙ ap shape_of e
      ∙ shape_of-stream_key name' claims' h' in
    let e' : name ++ 0 ∷ claims ≡ name ++ 0 ∷ claims' = rw (sym n) at e in
    let e'' : 0 ∷ claims ≡ 0 ∷ claims' = append_inj name (0 ∷ claims) (0 ∷ claims') e' in (n, cc)
