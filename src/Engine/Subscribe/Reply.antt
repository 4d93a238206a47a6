-- ===== src/Engine/Subscribe/Reply.antt =====
-- What a subscription that succeeds queues for its client.
use tether.Prelude.{
  true, false, List, [], ◌∷◌, ◌++◌, Option, none, some, ℤ, pos, ◌<z◌, ◌=z◌, ok, err, Dict, lookup,
  insert, ◌≡◌, ◌⊎◌, arith,
}
use tether.Engine.Dispatch.FanOut.{messages}
use tether.Engine.Error.{Error}
use tether.Engine.Key.{stream_key}
use tether.Engine.Session.{Session, resume_at}
use tether.Engine.Subscribe.{
  Taken, Services, Subscribed, send_snapshot, cached_snapshot, taken_snapshot, begin_stream,
  subscribe_new,
}
use tether.Shape.Instance.{Definition, Instance}
use tether.Shape.Log.{after}
use tether.Transport.{Message, Conn}
use tether.Engine.Subscribe.Queue.{Notice, Queued}

module _ {C : Type 0} (sv : Services C) where
  -- The subscription begins a stream, and queues the snapshot of the rows that were taken for it,
  -- behind what comes before.
  abbrev pub Begins : Definition C → C → List Message → Instance C → List Message → Type 0
  Begins def claims pre inst ms =
      (snap : Taken) × (begin_stream sv def claims ≡ ok (inst, snap))
      × (ms ≡ pre ++ taken_snapshot sv def.name snap inst ∷ [])

  -- The reply, by the stream that was live before, if any, and by the resume offset: with an offset
  -- from which the log can go on, the events above it; with one from which it can not, a notice (if
  -- there was room) and a new stream; with offset 0, the rows of the stream; with a negative one, or
  -- where no stream was live, a new stream.
  abbrev pub Reply : Option (Instance C) → Definition C → C → ℤ → Instance C → List Message → Type 0
  Reply none def claims at inst ms = Begins def claims [] inst ms
  Reply (some live) def claims at inst ms =
      ((pos 0 <z at) ≡ true)
        × ((after at live.log).1 ≡ true)
        × (inst ≡ live)
        × (ms ≡ messages sv.marshals def.name (after at live.log).0)
      ⊎ ((pos 0 <z at) ≡ true)
        × ((after at live.log).1 ≡ false)
        × ((pre : List Message) × Notice pre × Begins def claims pre inst ms)
      ⊎ ((at =z pos 0) ≡ true) × (inst ≡ live) × (ms ≡ cached_snapshot sv def.name live ∷ [])
      ⊎ ((pos 0 <z at) ≡ false) × ((at =z pos 0) ≡ false) × Begins def claims [] inst ms

  -- What follows of a session's subscription to a shape that ends without an error.
  abbrev pub Served : Definition C → Dict (Instance C) → Session C → Subscribed C → Type 0
  Served def streams s (streams', (c', e)) =
      (inst : Instance C) × (lookup (stream_key def.name (sv.claims_key s.claims)) streams'
        ≡ some inst)
      × ((ms : List Message) × Reply (lookup (stream_key def.name (sv.claims_key s.claims)) streams)
            def s.claims (resume_at def.name s) inst ms
          × Queued s.conn ms c')

  pub new_ok :
      (def : Definition C) (claims : C) (streams : Dict (Instance C)) (c : Conn) (inst : Instance C)
      (snap : Taken)
      → begin_stream sv def claims ≡ ok (inst, snap)
      → subscribe_new sv def claims streams c ≡ (
        insert (stream_key def.name (sv.claims_key claims)) inst streams,
        send_snapshot sv (taken_snapshot sv def.name snap inst) c,
      )
  unfolding subscribe_new
  new_ok def claims streams c inst snap e = ground (arith, e)

  pub new_err :
      (def : Definition C) (claims : C) (streams : Dict (Instance C)) (c : Conn) (x : Error)
      → begin_stream sv def claims ≡ err x
      → subscribe_new sv def claims streams c ≡ (streams, (c, some x))
  unfolding subscribe_new
  new_err def claims streams c x e = ground (arith, e)

  -- A stream that begins for a session, with what is queued before its snapshot.
  abbrev Begun : Definition C → Session C → List Message → Subscribed C → Type 0
  Begun def s pre (streams', (c', e)) =
      (inst : Instance C) × (lookup (stream_key def.name (sv.claims_key s.claims)) streams'
        ≡ some inst)
      × ((ms : List Message) × Begins def s.claims pre inst ms × Queued s.conn ms c')

  -- The reply with a stream that was live.
  abbrev Live : Definition C → Session C → Instance C → Subscribed C → Type 0
  Live def s live (streams', (c', e)) =
      (inst : Instance C) × (lookup (stream_key def.name (sv.claims_key s.claims)) streams'
        ≡ some inst)
      × ((ms : List Message) × Reply (some live) def s.claims (resume_at def.name s) inst ms
          × Queued s.conn ms c')
