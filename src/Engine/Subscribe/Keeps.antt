-- ===== src/Engine/Subscribe/Keeps.antt =====
-- Subscriptions and changes keep every stream bound to its claims.
use tether.Prelude.{List, [], ◌∷◌, Text, Dict, ◌≡◌, inl, inr, Option-cases, Result-cases, arith}
use tether.Engine.Dispatch.{Engine, apply_stream, apply_streams, dispatch_change}
use tether.Engine.Session.{Session}
use tether.Engine.Subscribe.{Services, subscribe_shape, subscribe_name, handle_subscribe}
use tether.Engine.Subscribe.Bound.{AreBound, IsBound-kept, new-AreBound, shape_streams, apply-Fixed}
use tether.Shape.Apply.{apply}
use tether.Shape.Apply.Isolation.{apply-IsIsolated}
use tether.Shape.Instance.{Definition, Instance}
use tether.Shape.Registry.{Registry, get}
use tether.Wal.Change.{Change}

module _ {C : Type 0} (sv : Services C) where
  shape-AreBound :
      (def : Definition C) (streams : Dict (Instance C)) (s : Session C)
      → AreBound sv streams
      → AreBound sv (subscribe_shape sv def streams s).0
  shape-AreBound def streams s bs = elim (shape_streams sv def streams s) [
    | inl same ↦ rw same bs
    | inr (c, e) ↦ rw e (new-AreBound sv def s.claims streams c bs)
  ]

  name-AreBound :
      (reg : Registry C) (name : Text) (streams : Dict (Instance C)) (s : Session C)
      → AreBound sv streams
      → AreBound sv (subscribe_name sv reg name streams s).0
  name-AreBound reg name streams s bs = elim (Option-cases (get name reg)) [
    | inl unknown ↦
        let same : (subscribe_name sv reg name streams s).0 ≡ streams =
          unfold subscribe_name in ground (arith, unknown) in
        rw same bs
    | inr (def, known) ↦
        let same : (subscribe_name sv reg name streams s).0 ≡ (subscribe_shape sv def streams s).0 =
          unfold subscribe_name in ground (arith, known) in
        rw same (shape-AreBound def streams s bs)
  ]

  pub handle_subscribe-AreBound :
      (reg : Registry C) (names : List Text) (streams : Dict (Instance C)) (s : Session C)
      → AreBound sv streams
      → AreBound sv (handle_subscribe sv reg names streams s).0
  unfolding handle_subscribe
  handle_subscribe-AreBound reg [] streams s bs = bs
  handle_subscribe-AreBound reg (name ∷ names) streams s bs =
      let r = subscribe_name sv reg name streams s in
      let bs' = name-AreBound reg name streams s bs in
      elim (Option-cases r.2) [
        | inr (x, e) ↦
            let stops : (handle_subscribe sv reg (name ∷ names) streams s).0 ≡ r.0 =
              ground (arith, e) in
            rw stops bs'
        | inl e ↦
            let goes : (handle_subscribe sv reg (name ∷ names) streams s).0
                ≡ (handle_subscribe sv reg names r.0 r.1).0 =
              ground (arith, e) in
            rw goes (handle_subscribe-AreBound reg names r.0 r.1 bs')
      ]

  stream_state :
      (ch : Change) (key : Text) (inst : Instance C) (ss : Dict (Session C))
      → (apply_stream sv.marshals sv.go ch key inst ss).0 ≡ (apply sv.go ch inst).0
  unfolding apply_stream
  stream_state ch key inst ss = elim (Result-cases (apply sv.go ch inst).1) [
    | inr (x, e) ↦ ground (arith, e)
    | inl ([], e) ↦ ground (arith, e)
    | inl (ev ∷ evs, e) ↦ ground (arith, e)
  ]

  streams-AreBound :
      (ch : Change) (streams : Dict (Instance C)) (ss : Dict (Session C))
      → AreBound sv streams
      → AreBound sv (apply_streams sv.marshals sv.go ch streams ss).0
  unfolding apply_streams
  streams-AreBound ch [] ss bs = bs
  streams-AreBound ch ((key, inst) ∷ streams) ss (b, bs) =
      let r = apply_stream sv.marshals sv.go ch key inst ss in
      (
        rw (stream_state ch key inst ss) (
            IsBound-kept sv key inst (apply sv.go ch inst).0 (apply-Fixed sv.go ch inst)
              (apply-IsIsolated sv.go ch inst b.isolated) b),
        streams-AreBound ch streams r.1 bs,
      )

  -- A change, whatever it says and whichever streams fail on it, keeps every live stream bound to
  -- its claims, with only rows that its filter admits.
  pub dispatch_change-AreBound :
      (ch : Change) (e : Engine C)
      → AreBound sv e.streams
      → AreBound sv (dispatch_change sv.marshals sv.go ch e).streams
  unfolding dispatch_change
  dispatch_change-AreBound ch e bs = streams-AreBound ch e.streams e.sessions bs
