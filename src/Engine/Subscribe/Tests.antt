-- ===== src/Engine/Subscribe/Tests.antt =====
-- Two clients that subscribe to one shape.
use tether.Prelude.{ℕ, true, false, [], ◌∷◌, none, some, txt, pos, ok}
use tether.Engine.Dispatch.{Engine, dispatch_change}
use tether.Engine.Session.{Session}
use tether.Engine.Subscribe.{Services, handle_subscribe}
use tether.Engine.Subscribe.Bound.{AreBound}
use tether.Engine.Subscribe.Keeps.{handle_subscribe-AreBound, dispatch_change-AreBound}
use tether.Shape.Filter.{op_eq}
use tether.Shape.Instance.{Definition}
use tether.Shape.Registry.{Registry}
use tether.Value.{Row, int}
use tether.Wal.Change.{Change, Op}

abbrev todo : Row
todo = (txt "id", int (pos 1)) ∷ (txt "org", int (pos 4)) ∷ []

-- Claims are the number of an organisation.
abbrev services : Services ℕ
services = record {
  marshals = λ m. true;
  go = record { sprint_float = λ x. []; sprint_other = λ x. []; round = λ z. 0 };
  print_lsn = λ l. l ∷ [];
  claims_key = λ n. n ∷ [];
  take = λ schema table f. ok (record { lsn = 7; rows = some todo ∷ [] });
}

abbrev todos : Definition ℕ
todos = record {
  name = txt "todos";
  schema = txt "public";
  table = txt "todos";
  primary_key = txt "id" ∷ [];
  bind = some (λ n.
      ok (record { preds = record { column = txt "org"; op = op_eq; value = int (pos n) } ∷ [] }));
}

abbrev registry : Registry ℕ
registry = record { defs = (txt "todos", todos) ∷ [] }

abbrev session : Session ℕ
session = record {
  conn = record {
    id = txt "c1";
    capacity = 2;
    send = [];
    closed = false;
    pumping = true;
    socket = [];
  };
  claims = 4;
  resume = [];
  shapes = [];
  last_active = 0;
}

abbrev engine : Engine ℕ
engine = record {
  streams = (handle_subscribe services registry (txt "todos" ∷ []) [] session).0;
  sessions = (txt "c1", session) ∷ [];
}

abbrev inserted : Change
inserted = record {
  schema = txt "public";
  table = txt "todos";
  op = Op.insert;
  relation_fingerprint = [];
  commit_lsn = 9;
  old = none;
  new = some todo;
}

dispatch_change-AreBound_example :
    AreBound services (dispatch_change services.marshals services.go inserted engine).streams
dispatch_change-AreBound_example =
    dispatch_change-AreBound services inserted engine
      (handle_subscribe-AreBound services registry (txt "todos" ∷ []) [] session tt)
