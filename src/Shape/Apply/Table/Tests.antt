-- ===== src/Shape/Apply/Table/Tests.antt =====
-- A stream of the todos of one organisation, from its snapshot on.
use tether.Prelude.{
  ℕ, false, List, [], ◌∷◌, Option, none, some, txt, pos, ◌≡◌, refl, inl, inr, ◌=t◌, =t_iff,
  Bool-cases, lookup, insert,
}
use tether.Shape.Apply.{load_snapshot, load_rows, load_row}
use tether.Shape.Apply.Table.{Table, Represents, put_row, put_keyed}
use tether.Shape.Apply.Table.Handoff.{advance_all, apply_all, Feeds, advance}
use tether.Shape.Apply.Table.Load.{with_rows, Listed, Selected, no_rows, load_snapshot-apply_all}
use tether.Shape.Filter.{op_eq, match_row, match_pred}
use tether.Shape.Filter.Equal.{values_equal}
use tether.Shape.Instance.{Instance, table_match}
use tether.Shape.Key.{pk_key}
use tether.Shape.Log.{new_log, append}
use tether.Value.{Runtime, Row, int, column, sprint, decimal, join, copy_row}
use tether.Wal.Change.{Change, Op}

abbrev go : Runtime
go = record { sprint_float = λ x. []; sprint_other = λ x. []; round = λ z. 0 }

abbrev todo : ℕ → ℕ → Row
todo id org = (txt "id", int (pos id)) ∷ (txt "org", int (pos org)) ∷ []

abbrev made : Instance Unit
made = record {
  def = record {
    name = txt "todos";
    schema = txt "public";
    table = txt "todos";
    primary_key = txt "id" ∷ [];
    bind = none;
  };
  filter = record { preds = record { column = txt "org"; op = op_eq; value = int (pos 4) } ∷ [] };
  log = new_log;
  fingerprint = [];
  snapshot_lsn = 0;
  has_snapshot = false;
  cache = [];
}

abbrev rows : List (Option Row)
rows = some (todo 1 4) ∷ []

-- The table has a row of another organisation as well.
abbrev table : Table
table = put_row (txt "2") (some (todo 2 5)) (with_rows go (txt "id" ∷ []) rows no_rows)

listed : Listed go (txt "id" ∷ []) rows no_rows
unfolding pk_key sprint decimal join column lookup ◌=t◌
listed = (record { n = todo 1 4; key = txt "1"; new = refl; keyed = refl; fresh = refl }, tt)

selected : Selected go made.filter (with_rows go (txt "id" ∷ []) rows no_rows) table
unfolding with_rows put_keyed pk_key sprint decimal join column lookup ◌=t◌ match_row match_pred
    values_equal
selected key = elim (Bool-cases (txt "2" =t key)) [
  | inr other ↦ inl (rw other)
  | inl same ↦
      let e : txt "2" ≡ key = (=t_iff (txt "2") key).0 same in
      rw (← e) (inr (refl, (todo 2 5, refl, refl)))
]

loads : (load_snapshot go 5 rows made).1 ≡ none
unfolding load_snapshot load_rows load_row new_log match_row match_pred values_equal pk_key append
    ◌=t◌ copy_row lookup insert sprint decimal join column
loads = refl

-- The row that the snapshot holds comes again, at an LSN that the snapshot covers.
abbrev repeated : Change
repeated = record {
  schema = txt "public";
  table = txt "todos";
  op = Op.insert;
  relation_fingerprint = [];
  commit_lsn = 5;
  old = none;
  new = some (todo 1 4);
}

feeds : Feeds go made.def 5 [] (repeated ∷ []) table
unfolding table_match ◌=t◌ advance
feeds = (refl, refl, (λ e. cc), tt)

running : made.log.halted ≡ none
unfolding new_log
running = refl

load_snapshot-apply_all_example :
    Represents go
      (apply_all go (repeated ∷ []) (load_snapshot go 5 rows made).0)
      (advance_all go (txt "id" ∷ []) 5 (repeated ∷ []) table)
load_snapshot-apply_all_example =
    load_snapshot-apply_all go 5 rows made table [] (repeated ∷ []) running refl refl
      ((λ e. cc), tt) listed selected loads feeds
