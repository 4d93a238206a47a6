-- ===== src/Shape/Apply/Cases.antt =====
-- The plan for each operation, by the cached row and by what the filter says.
use tether.Prelude.{
  Bool, true, false, Option, none, some, Text, ok, ◌≡◌, ◌⊎◌, if◌then◌else◌, arith, Option-cases,
  Result-cases, inl, inr,
}
use tether.Shape.Apply.{to_delete, was_in, lookup_row}
use tether.Shape.Apply.Plan.{quiet, write, remove, plan_insert, plan_delete, plan_update, move_plan}
use tether.Shape.Apply.Table.{cell}
use tether.Shape.Filter.{match_row}
use tether.Shape.Filter.Matching.{IsBuilt, match_row_total}
use tether.Shape.Instance.{Instance, cached}
use tether.Shape.Key.{pk_key, patch_row, first_non_nil}
use tether.Shape.Log.{EventOp}
use tether.Value.{Runtime, Row}

module _ {C : Type 0} (go : Runtime) (inst : Instance C) (built : IsBuilt inst.filter) where
  -- The plans for an insert, a delete and an update, by what the filter says.
  pub insert_plan :
      (n : Row) (key : Text) (b : Bool)
      → pk_key go inst.def.primary_key (some n) ≡ ok key
      → match_row go inst.filter (some n) ≡ ok b
      → plan_insert go (some n) inst ≡ (if b then write EventOp.insert key (some n) else quiet)
  unfolding plan_insert
  insert_plan n key b k m = ground arith

  pub delete_plan :
      (o : Row) (key : Text)
      → pk_key go inst.def.primary_key (some o) ≡ ok key
      → ((row : Option Row) × (plan_delete go (some o) inst ≡ remove key row))
        ⊎ (cached key inst.cache ≡ none)
          × ((j : Text) (v : Option Row) → cell (plan_delete go (some o) inst) j v ≡ v)
  unfolding plan_delete lookup_row to_delete
  delete_plan o key k = elim (Option-cases (cached key inst.cache)) [
    | inr (c, hit) ↦ inl (some c, unfold first_non_nil in ground arith)
    | inl miss ↦ elim (Result-cases (match_row go inst.filter (some o))) [
      | inr (e, m) ↦ inr (miss, λ j v. unfold cell in ground arith)
      | inl (true, m) ↦ inl (some o, unfold first_non_nil in ground arith)
      | inl (false, m) ↦ inr (miss, λ j v. unfold cell in ground arith)
    ]
  ]

  was_in_miss :
      (old : Option Row) (key : Text)
      → cached key inst.cache ≡ none
      → (b : Bool) × (row : Option Row) × (was_in go inst.filter (cached key inst.cache) old
          ≡ ok (b, row))
        × (b ≡ false → cached key inst.cache ≡ none)
  unfolding was_in
  was_in_miss none key miss = (false, none, rw miss, λ _. miss)
  was_in_miss (some o) key miss =
      let (b, e) = match_row_total go inst.filter (some o) built in
      (b, (if b then some o else none), ground (arith, miss, e), λ _. miss)

  pub was_in_cases :
      (old : Option Row) (key : Text)
      → (b : Bool) × (row : Option Row) × (was_in go inst.filter (cached key inst.cache) old
          ≡ ok (b, row))
        × (b ≡ false → cached key inst.cache ≡ none)
  unfolding was_in
  was_in_cases old key = elim (Option-cases (cached key inst.cache)) [
    | inr (c, hit) ↦ (true, some c, rw hit, λ e. cc)
    | inl miss ↦ was_in_miss old key miss
  ]

  pub update_plan :
      (old : Option Row) (n r : Row) (key : Text) (b before : Bool) (row : Option Row)
      → first_non_nil old (some n) ≡ some r
      → pk_key go inst.def.primary_key (some r) ≡ ok key
      → match_row go inst.filter (some (patch_row (cached key inst.cache) old (some n))) ≡ ok b
      → was_in go inst.filter (cached key inst.cache) old ≡ ok (before, row)
      → plan_update go old (some n) inst
        ≡ move_plan key before row b (some (patch_row (cached key inst.cache) old (some n)))
  unfolding plan_update lookup_row
  update_plan old n r key b before row first k m w = ground arith
