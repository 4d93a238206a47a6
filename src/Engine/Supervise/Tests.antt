-- ===== src/Engine/Supervise/Tests.antt =====
-- A slot that lags too far behind, and a client that is idle.
use tether.Prelude.{
  ℕ, Bool, true, false, List, [], ◌∷◌, none, some, Text, txt, pos, ltb, insert, lookup, ◌≡◌, refl,
  ◌=t◌,
}
use tether.Engine.Cursor.{fan_out_new_changes, fan_rows, above}
use tether.Engine.Dispatch.{Engine}
use tether.Engine.Session.{Session}
use tether.Engine.Supervise.{
  World, Options, TickAnswer, restarts, tick, after_lag, sweep_idle_clients,
  handle_slot_lag_exceeded,
}
use tether.Engine.Supervise.Idle.{Splits, Dismisses, Spared, sweep_idle_clients-Splits}
use tether.Transport.{Message, Conn, Hub}
use tether.Value.{Runtime}
use tether.Wal.Slot.{
  slot_lag_bytes, drop_slot, drop_from, lag_of, lsn_diff, Waiting, clock_of, poll_of, wait_inactive,
  terminate_slot_backend, release, free_slot,
}
use tether.Wal.Store.{Codecs}

abbrev go : Runtime
go = record { sprint_float = λ x. []; sprint_other = λ x. []; round = λ z. 0 }

abbrev takes_all : Message → Bool
takes_all m = true

abbrev codecs : Codecs
codecs = record {
  marshal = λ r. some (txt "{}");
  unmarshal = λ t. some [];
  print_lsn = λ l. l ∷ [];
  parse_lsn = λ t. some 3;
}

abbrev conn : Text → Conn
conn id = record { id = id; capacity = 2; send = []; closed = false; pumping = true; socket = [] }

abbrev session : Text → ℕ → Session Unit
session id last = record {
  conn = conn id;
  claims = tt;
  resume = [];
  shapes = (txt "todos", tt) ∷ [];
  last_active = last;
}

abbrev engine : Engine Unit
engine = record {
  streams = [];
  sessions = (txt "c1", session (txt "c1") 10) ∷ (txt "c2", session (txt "c2") 95) ∷ [];
}

abbrev hub : Hub
hub = record {
  clients = (txt "c1", conn (txt "c1")) ∷ (txt "c2", conn (txt "c2")) ∷ [];
  next_id = 2;
}

sweep_idle_clients-Splits_example :
    let (e', gone, h') = sweep_idle_clients (pos 50) 100 engine hub in
    (idle : List (Session Unit)) × Splits 50 engine.sessions e'.sessions idle
    × Dismisses h' idle gone
    × ((id : Text) → Spared hub idle h' id)
    × (e'.streams ≡ engine.streams)
sweep_idle_clients-Splits_example = sweep_idle_clients-Splits 49 100 engine hub

abbrev world : World Unit
world = record {
  feed = record { cursor = 0; engine = engine };
  hub = hub;
  store = record {
    change_log = [];
    checkpoint = (txt "tether-engine", txt "0/3") ∷ [];
    next_id = 1;
  };
  catalog = record {
    slots = (txt "tether_slot", record { active = true; restart_lsn = some 100 }) ∷ [];
    publications = [];
    current_lsn = 164;
  };
}

abbrev options : Options
options = record { slot_name = txt "tether_slot"; max_slot_lag = pos 50; max_client_idle = pos 50 }

-- The walsender is there still, and goes behind the first poll.
abbrev waiting : Waiting
waiting = record {
  terminates = true;
  begins_at = 100;
  delay = λ i. 0;
  queries = λ i. true;
  holds = λ i. ltb i 1;
  cancels = λ i. false;
  held_after = false;
}

abbrev answer : TickAnswer
answer = record {
  fan = record { has_pool = true; queries = true; failing = none; ends = true };
  queries = true;
  now = 100;
  lingers = true;
  drop = record { waits = waiting; drop_fault = none; deletes = true; selects = true };
}

ends : (tick codecs takes_all go options answer world).1 ≡ restarts
unfolding tick after_lag handle_slot_lag_exceeded fan_out_new_changes fan_rows above
    sweep_idle_clients slot_lag_bytes lag_of lsn_diff drop_slot drop_from free_slot release
    terminate_slot_backend wait_inactive poll_of clock_of lookup insert ◌=t◌
ends = refl
