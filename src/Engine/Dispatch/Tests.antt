-- ===== src/Engine/Dispatch/Tests.antt =====
-- A change and two principals that are subscribed to one shape.
use tether.Prelude.{
  ℕ, Bool, true, false, List, [], ◌∷◌, Option, none, some, Text, txt, pos, ◌≡◌, refl, ◌=t◌, lookup,
}
use tether.Engine.Dispatch.{
  Engine, dispatch_change, deliver, change_message, send_events, enqueue_change,
}
use tether.Engine.Dispatch.FanOut.{Sent, due, deliver-Sent}
use tether.Engine.Key.{stream_key, shape_of}
use tether.Engine.Session.{Session, has_shape}
use tether.Shape.Filter.{op_eq, match_row, match_pred}
use tether.Shape.Filter.Equal.{values_equal}
use tether.Shape.Key.{pk_key}
use tether.Shape.Apply.{apply, is_covered, dispatch, apply_insert}
use tether.Shape.Instance.{Instance, table_match, check_fingerprint}
use tether.Shape.Log.{Event, EventOp, new_log, append}
use tether.Transport
use tether.Transport.{Message, Conn, enqueue}
use tether.Value.{Runtime, Row, int, copy_row}
use tether.Wal.Change.{Change, Op}

abbrev go : Runtime
go = record { sprint_float = λ x. []; sprint_other = λ x. []; round = λ z. 0 }

abbrev takes_all : Message → Bool
takes_all m = true

abbrev conn : Text → Conn
conn id = record { id = id; capacity = 2; send = []; closed = false; pumping = true; socket = [] }

-- A session of the organisation n, subscribed to the todos.
abbrev session : ℕ → Text → Session ℕ
session n id = record {
  conn = conn id;
  claims = n;
  resume = [];
  shapes = (txt "todos", tt) ∷ [];
  last_active = 0;
}

abbrev todo : Row
todo = (txt "id", int (pos 1)) ∷ (txt "org", int (pos 4)) ∷ []

abbrev event : Event
event = record { offset = pos 1; op = EventOp.insert; table = txt "todos"; row = some todo }

deliver-Sent_example :
    Sent
      (conn (txt "c1"))
      (due takes_all (session 4 (txt "c1")) ((txt "todos", event ∷ event ∷ event ∷ []) ∷ []))
      (deliver takes_all
        ((txt "todos", event ∷ event ∷ event ∷ []) ∷ [])
        (session 4 (txt "c1"))).conn
deliver-Sent_example =
    deliver-Sent takes_all ((txt "todos", event ∷ event ∷ event ∷ []) ∷ []) (session 4 (txt "c1"))
      refl

-- The stream of an organisation.
abbrev stream : ℕ → Instance ℕ
stream n = record {
  def = record {
    name = txt "todos";
    schema = txt "public";
    table = txt "todos";
    primary_key = txt "id" ∷ [];
    bind = none;
  };
  filter = record { preds = record { column = txt "org"; op = op_eq; value = int (pos n) } ∷ [] };
  log = new_log;
  fingerprint = [];
  snapshot_lsn = 5;
  has_snapshot = true;
  cache = [];
}

abbrev engine : Engine ℕ
engine = record {
  streams =
      (stream_key (txt "todos") (txt "4"), stream 4)
      ∷ (stream_key (txt "todos") (txt "5"), stream 5)
      ∷ [];
  sessions = (txt "c1", session 4 (txt "c1")) ∷ (txt "c2", session 5 (txt "c2")) ∷ [];
}

abbrev inserted : Change
inserted = record {
  schema = txt "public";
  table = txt "todos";
  op = Op.insert;
  relation_fingerprint = [];
  commit_lsn = 7;
  old = none;
  new = some todo;
}

abbrev sent_to : Text → Engine ℕ → Option (List Message)
sent_to id e = elim (lookup id e.sessions) [ none ↦ none | some s ↦ some (s.conn.send) ]

-- The session of organisation 5 is sent the todo of organisation 4.
sent_to_other :
    sent_to (txt "c2") (dispatch_change takes_all go inserted engine)
    ≡ some (Transport.change (txt "todos") (pos 1) EventOp.insert (some todo) ∷ [])
unfolding dispatch_change lookup apply new_log table_match ◌=t◌ is_covered check_fingerprint
    dispatch apply_insert match_row match_pred values_equal pk_key append has_shape shape_of
    stream_key send_events enqueue_change enqueue change_message copy_row
sent_to_other = refl
