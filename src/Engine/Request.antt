-- ===== src/Engine/Request.antt =====
-- handleMutation of engine.go, and the messages that the loop of serveWS reads.
pub mod Truth
mod Tests
use tether.Prelude.{
  ℕ, Bool, true, false, not, ◌&&◌, List, [], ◌∷◌, ◌++◌, Option, none, some, Text, txt, ℤ, pos, ◌=z◌,
  Result, ok, err, if◌then◌else◌, Dict,
}
use tether.Engine.Dispatch.{send_err}
use tether.Engine.Session.{Session, touch, set_resume}
use tether.Engine.Subscribe.{Services, handle_subscribe}
use tether.Mutate
use tether.Mutate.{
  HostError, is_reject, reject_reason, Mutation, args_copy, new_mutation, Applied, Database,
  Weather, Call,
}
use tether.Shape.Instance.{Instance}
use tether.Shape.Registry.{Registry}
use tether.Transport
use tether.Transport.{Message, Conn, enqueue}
use tether.Value.{Row}

-- proto.Mutation
pub record MutationMessage : Type 0 where
  pub id : Text
  pub op : Text
  pub key : Text
  pub args : Option Row

-- What ReadMessage, UnmarshalType and Decode make of a frame; `none` is a failed Decode.
pub data Request : Type 0 where
  unreadable : Request
  hello : Option (ℤ × Option (Dict ℤ)) → Request
  subscribe : Option (List Text) → Request
  mutation : Option MutationMessage → Request
  unknown : Text → Request

-- OnMutation's function, on the rows of the transaction.
abbrev pub HostHandler : Type 0 → Type 0 → Type 0
HostHandler C D = Mutation C → D → D × Option HostError

-- How a request finds the database: whether there is a pool, whether the tables are there, and how
-- the database answers the transaction of a mutation.
pub record RequestAnswer : Type 0 where
  pub has_pool : Bool
  pub has_schema : Bool
  pub weather : Weather

-- The text of an error of newMutation.
unfoldable pub mutation_error : Mutate.Error → Text
mutation_error Mutate.op_required = txt "tether: mutation op is required"
mutation_error Mutate.key_required = txt "tether: mutation idempotency key is required"
mutation_error _ = []

-- The call of mutate.Apply.
unfoldable pub call_of : {C D : Type 0} → HostHandler C D → Weather → Mutation C → Call C D
unfolding args_copy
call_of host w m = record {
  has_pool = true;
  key = m.key;
  op = m.op;
  claims = m.claims;
  args = args_copy m;
  handler =
      some
        (λ op key claims args. host (record { op = op; key = key; claims = claims; args = args }));
  is_reject_fn = some is_reject;
  reason_fn = some reject_reason;
  weather = w;
}

-- The answer to a mutation by the result of Apply.
unfoldable pub answer_of : Text → Result Mutate.Error Applied → Message
answer_of id (err e) = Transport.error (txt "shape_halted") []
answer_of id (ok r) =
    if r.rejected
    then Transport.mutation_reject id r.reason
    else Transport.mutation_ok id r.duplicate

-- A message that does not marshal, or finds no room, is dropped.
unfoldable pub reply : (Message → Bool) → Message → Conn → Conn
reply marshals m c = if marshals m then (enqueue m c).0 else c

module _ {C D : Type 0} where
  -- handleMutation, as the message that it sends and what it does to the database.
  unfoldable pub mutation_answer :
      Option (HostHandler C D)
      → RequestAnswer
      → C
      → MutationMessage
      → Database D
      → Message × Database D
  unfolding answer_of
  mutation_answer none a claims msg db = (Transport.error (txt "no_mutation_handler") [], db)
  mutation_answer (some host) a claims msg db =
      if not a.has_pool
      then (Transport.error (txt "shape_halted") [], db)
      else if not a.has_schema
      then (Transport.error (txt "shape_halted") [], db)
      else elim (new_mutation msg.op msg.key claims msg.args) [
        | err e ↦ (Transport.mutation_reject msg.id (mutation_error e), db)
        | ok m ↦
            let (db', r) = Mutate.apply (call_of host a.weather m) db in (answer_of msg.id r, db')
      ]

  unfoldable pub handle_mutation :
      (Message → Bool)
      → Option (HostHandler C D)
      → RequestAnswer
      → Session C
      → MutationMessage
      → Database D
      → Session C × Database D
  unfolding mutation_answer reply
  handle_mutation marshals on_mutation a s msg db =
      let (m, db') = mutation_answer on_mutation a s.claims msg db in
      (record s { conn = reply marshals m s.conn }, db')

-- The streams, a session, and the database.
pub record Served (C D : Type 0) : Type 0 where
  pub streams : Dict (Instance C)
  pub session : Session C
  pub database : Database D

module _ {C D : Type 0} (sv : Services C) (reg : Registry C)
    (on_mutation : Option (HostHandler C D)) where
  bad_protocol : Session C → Session C
  bad_protocol s = record s { conn = send_err sv.marshals (txt "bad_protocol") [] s.conn }

  -- The case for a hello.
  unfoldable pub handle_hello : ℤ × Option (Dict ℤ) → Session C → Session C
  unfolding bad_protocol
  handle_hello (protocol, resume) s =
      if not (protocol =z pos 0) && not (protocol =z pos 1)
      then bad_protocol s
      else elim resume [ none ↦ s | some r ↦ set_resume r s ]

  -- The case for a subscribe: an error of the pool or of a shape is reported.
  unfoldable pub handle_subscribe_message : RequestAnswer → List Text → Served C D → Served C D
  handle_subscribe_message a names st =
      let (streams, s, e) = handle_subscribe sv reg names st.streams st.session in
      let halted = λ (x : Session C). record x {
        conn = send_err sv.marshals (txt "shape_halted") [] x.conn;
      } in
      if a.has_pool
      then record st { streams = streams; session = elim e [ none ↦ s | some x ↦ halted s ] }
      else record st { session = halted st.session }

  -- The switch of serveWS.
  unfoldable pub handle_request : RequestAnswer → Request → Served C D → Served C D
  unfolding handle_hello handle_subscribe_message bad_protocol
  handle_request a unreadable st = record st { session = bad_protocol st.session }
  handle_request a (hello none) st = record st { session = bad_protocol st.session }
  handle_request a (hello (some h)) st = record st { session = handle_hello h st.session }
  handle_request a (subscribe none) st = record st { session = bad_protocol st.session }
  handle_request a (subscribe (some names)) st = handle_subscribe_message a names st
  handle_request a (mutation none) st = record st { session = bad_protocol st.session }
  handle_request a (mutation (some msg)) st =
      let (s, db) = handle_mutation sv.marshals on_mutation a st.session msg st.database in
      record st { session = s; database = db }
  handle_request a (unknown typ) st = record st { session = bad_protocol st.session }

  -- One round of the loop of serveWS, for a frame that is read at the time `now`.
  unfoldable pub serve : ℕ → RequestAnswer → Request → Served C D → Served C D
  unfolding handle_request
  serve now a r st = handle_request a r (record st { session = touch now st.session })
