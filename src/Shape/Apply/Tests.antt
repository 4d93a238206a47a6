-- ===== src/Shape/Apply/Tests.antt =====
-- A shape of the todos of one organisation.
use tether.Prelude.{
  ℕ, true, List, [], ◌∷◌, Option, none, some, Text, txt, pos, ◌≡◌, refl, inl, ◌=t◌, lookup, insert,
}
use tether.Shape.Apply.{apply, load_snapshot, is_covered}
use tether.Shape.Apply.Isolation.{IsIsolated, apply-IsIsolated, load_snapshot-IsIsolated}
use tether.Shape.Apply.Rekey.{rekey-not-IsMirrored}
use tether.Shape.Apply.Replica.{IsMirrored, replay}
use tether.Shape.Apply.Replica.Keys.{KeepsKey, apply-IsMirrored, load_snapshot-IsMirrored}
use tether.Shape.Apply.Table.{Table, Represents}
use tether.Shape.Apply.Table.Handoff.{advance, advance_all, apply_all, apply_all-Represents, Feeds}
use tether.Shape.Filter.{Filter, op_eq, match_row, match_pred}
use tether.Shape.Filter.Equal.{values_equal}
use tether.Shape.Key.{pk_key, patch_row, put_all, put_missing}
use tether.Shape.Instance.{Definition, Instance, cached, table_match}
use tether.Shape.Log.{new_log}
use tether.Value.{Runtime, Row, int, string, column, sprint, decimal, join}
use tether.Wal.Change.{Change, Op}

abbrev go : Runtime
go = record { sprint_float = λ x. []; sprint_other = λ x. []; round = λ z. 0 }

abbrev todos : Definition Unit
todos = record {
  name = txt "todos";
  schema = txt "public";
  table = txt "todos";
  primary_key = txt "id" ∷ [];
  bind = none;
}

abbrev org_filter : Filter
org_filter = record { preds = record { column = txt "org"; op = op_eq; value = int (pos 4) } ∷ [] }

abbrev todo : Text → Row
todo title = (txt "id", int (pos 1)) ∷ (txt "org", int (pos 4)) ∷ (txt "title", string title) ∷ []

abbrev moved : Row
moved = (txt "id", int (pos 11)) ∷ (txt "org", int (pos 4)) ∷ (txt "title", string (txt "a")) ∷ []

-- A fresh shape, behind a snapshot at LSN 5 of an empty table.
abbrev fresh : Instance Unit
fresh = record {
  def = todos;
  filter = org_filter;
  log = new_log;
  fingerprint = [];
  snapshot_lsn = 5;
  has_snapshot = true;
  cache = [];
}

abbrev change : Op → ℕ → Option Row → Option Row → Change
change op lsn old new = record {
  schema = txt "public";
  table = txt "todos";
  op = op;
  relation_fingerprint = [];
  commit_lsn = lsn;
  old = old;
  new = new;
}

abbrev inserted : Change
inserted = change Op.insert 7 none (some (todo (txt "a")))

abbrev renamed : Change
renamed = change Op.update 8 none (some (todo (txt "b")))

abbrev rekeyed : Change
rekeyed = change Op.update 8 (some (todo (txt "a"))) (some moved)

fresh-IsIsolated : IsIsolated go fresh
unfolding new_log lookup cached
fresh-IsIsolated = record { cached_match = λ key row e. cc; logged_match = tt }

fresh-IsMirrored : IsMirrored go fresh
unfolding new_log lookup cached replay
fresh-IsMirrored = record { keyed = λ key row e. cc; mirrored = λ key. refl }

apply-IsIsolated_example : IsIsolated go (apply go renamed (apply go inserted fresh).0).0
apply-IsIsolated_example =
    apply-IsIsolated go renamed (apply go inserted fresh).0
      (apply-IsIsolated go inserted fresh fresh-IsIsolated)

load_snapshot-IsIsolated_example :
    IsIsolated go (load_snapshot go 9 (some (todo (txt "a")) ∷ none ∷ []) fresh).0
load_snapshot-IsIsolated_example =
    load_snapshot-IsIsolated go 9 (some (todo (txt "a")) ∷ none ∷ []) fresh fresh-IsIsolated

inserted-KeepsKey : KeepsKey (txt "id" ∷ []) inserted
inserted-KeepsKey = λ e. cc

renamed-KeepsKey : KeepsKey (txt "id" ∷ []) renamed
renamed-KeepsKey = λ e. (todo (txt "b"), refl, λ o e'. cc)

apply-IsMirrored_example : IsMirrored go (apply go inserted fresh).0
apply-IsMirrored_example = apply-IsMirrored go inserted fresh inserted-KeepsKey fresh-IsMirrored

load_snapshot-IsMirrored_example :
    IsMirrored go (load_snapshot go 9 (some (todo (txt "a")) ∷ some moved ∷ []) fresh).0
load_snapshot-IsMirrored_example =
    load_snapshot-IsMirrored go 9 (some (todo (txt "a")) ∷ some moved ∷ []) fresh fresh-IsMirrored

rekey-not-IsMirrored_example : ¬ IsMirrored go (apply go rekeyed fresh).0
unfolding new_log table_match is_covered pk_key column lookup sprint decimal patch_row cached
    match_row match_pred values_equal ◌=t◌ insert join put_all put_missing
rekey-not-IsMirrored_example =
    rekey-not-IsMirrored go fresh ((λ e. cc), tt) rekeyed (todo (txt "a")) moved (txt "1")
      (txt "11") refl refl refl refl refl refl refl refl refl refl (λ e. cc)

-- The stream repeats a change that the snapshot holds.
abbrev stream : List Change
stream =
    change Op.delete 4 (some (todo (txt "a"))) none
    ∷ inserted
    ∷ change Op.delete 9 (some (todo (txt "a"))) none
    ∷ []

abbrev empty_table : Table
empty_table key = none

new_log_runs : new_log.halted ≡ none
unfolding new_log
new_log_runs = refl

stream-Feeds : Feeds go todos 5 [] stream empty_table
unfolding table_match pk_key column lookup sprint decimal join ◌=t◌ advance
stream-Feeds = (
  refl,
  refl,
  (λ e. absurd cc),
  (
    refl,
    refl,
    (λ e. record { n = todo (txt "a"); key = txt "1"; new = refl; keyed = refl; fresh = refl }),
    (refl, refl, (λ e. record { o = todo (txt "a"); key = txt "1"; old = refl; keyed = refl }), tt),
  ),
)

fresh-Represents : Represents go fresh empty_table
unfolding cached lookup
fresh-Represents key = tt

apply_all-Represents_example :
    Represents go (apply_all go stream fresh) (advance_all go (txt "id" ∷ []) 5 stream empty_table)
apply_all-Represents_example =
    apply_all-Represents go [] stream fresh empty_table
      (record { runs = new_log_runs; behind = refl; schema = inl refl }) ((λ e. cc), tt)
      stream-Feeds fresh-Represents
