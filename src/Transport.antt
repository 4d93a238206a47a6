-- ===== src/Transport.antt =====
-- internal/proto/messages.go and transport/conn.go: the messages that the server sends, one
-- connection with its outbound buffer, and the hub.
pub mod Fifo
mod Tests
use tether.Prelude.{
  ℕ, zero, suc, pos, negsuc, Bool, true, false, not, List, [], ◌∷◌, ◌++◌, Option, none, some, Text,
  txt, ℤ, ◌==◌, if◌then◌else◌, Dict, insert, erase, length, ltb, map,
}
use tether.Shape.Log.{EventOp}
use tether.Value.{Row, decimal}

-- The server's messages of internal/proto/messages.go.
pub data Message : Type 0 where
  -- shape, LSN as text, offset, rows
  snapshot : Text → Text → ℤ → List (Option Row) → Message
  -- shape, offset, operation, row
  change : Text → ℤ → EventOp → Option Row → Message
  -- code, shape (empty where the message has none)
  error : Text → Text → Message
  bye : Text → Message
  -- correlation id, duplicate
  mutation_ok : Text → Bool → Message
  -- correlation id, reason
  mutation_reject : Text → Text → Message

-- Conn: the buffered channel `send` of a capacity, the `closed` flag (which `once` sets a single
-- time), whether WritePump runs, and what the socket has been given.
pub record Conn : Type 0 where
  pub id : Text
  pub capacity : ℕ
  pub send : List Message
  pub closed : Bool
  pub pumping : Bool
  pub socket : List Message

-- The buffer's size where bufSize <= 0.
unfoldable pub capacity_of : ℤ → ℕ
capacity_of (pos zero) = 64
capacity_of (pos (suc n)) = suc n
capacity_of (negsuc n) = 64

-- NewConn
unfoldable pub new_conn : Text → ℤ → Conn
unfolding capacity_of
new_conn id buf_size = record {
  id = id;
  capacity = capacity_of buf_size;
  send = [];
  closed = false;
  pumping = true;
  socket = [];
}

-- Enqueue: never blocks; false if the connection is closed or its buffer is full.
unfoldable pub enqueue : Message → Conn → Conn × Bool
enqueue m c =
    if c.closed
    then (c, false)
    else if ltb (length c.send) c.capacity
    then (record c { send = c.send ++ m ∷ [] }, true)
    else (c, false)

-- How a round of WritePump ends: the context is done, or the socket takes the message or refuses it
-- (as it does once it is closed).
pub data Write : Type 0 where
  ended written refused : Write

pump_write : Write → Message → List Message → Conn → Conn
pump_write written m rest c = record c { send = rest; socket = c.socket ++ m ∷ [] }
pump_write _ m rest c = record c { send = rest; pumping = false }

pump_next : Write → Conn → Conn
unfolding pump_write
pump_next w c = elim c.send [
  | [] ↦ if c.closed then record c { pumping = false } else c
  | m ∷ rest ↦ pump_write w m rest c
]

-- One round of WritePump: the head of the channel goes to the socket, until the pump has returned.
unfoldable pub pump : Write → Conn → Conn
unfolding pump_next
pump w c =
    if not c.pumping then c else elim w [ ended ↦ record c { pumping = false } | v ↦ pump_next v c ]

-- shutdown, which `once` runs a single time: a bye frame if asked for, straight to the socket.
unfoldable pub shutdown : Text → Bool → Conn → Conn
shutdown reason with_bye c =
    if c.closed
    then c
    else if with_bye
    then record c { closed = true; socket = c.socket ++ bye reason ∷ [] }
    else record c { closed = true }

-- SendBye and Close
unfoldable pub send_bye : Text → Conn → Conn
unfolding shutdown
send_bye reason c = shutdown reason true c

unfoldable pub close : Text → Conn → Conn
unfolding shutdown
close reason c = shutdown reason false c

pub record Hub : Type 0 where
  pub clients : Dict Conn
  pub next_id : ℕ

-- Hub.Add: the id is c1, c2, ...
unfoldable pub add : ℤ → Hub → Hub × Conn
unfolding new_conn decimal
add buf_size h =
    let c = new_conn (b'c' ∷ decimal (suc h.next_id)) buf_size in
    (record { clients = insert c.id c h.clients; next_id = suc h.next_id }, c)

-- Hub.Remove
unfoldable pub remove : Text → Hub → Hub
remove id h = record h { clients = erase id h.clients }

-- Hub.Snapshot, in the order of the map's iteration
unfoldable pub conns : Hub → List Conn
conns h = map (λ e. e.1) h.clients
