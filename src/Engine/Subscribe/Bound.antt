-- ===== src/Engine/Subscribe/Bound.antt =====
-- Every live stream is bound to the claims that its key names.
use tether.Prelude.{
  false, List, [], ◌∷◌, Option, none, some, Text, pos, ◌<z◌, ◌=z◌, ◌=t◌, Result, ok, Dict, lookup,
  insert, ◌≡◌, refl, ◌∙◌, inl, inr, ◌⊎◌, txt, Bool-cases, Option-cases, arith, All, Result-cases,
}
use tether.Engine.Dispatch.{send_err}
use tether.Engine.Key.{stream_key}
use tether.Engine.Session.{Session, resume_at}
use tether.Engine.Subscribe.{
  Taken, Services, begin_stream, loaded, subscribe_new, subscribe_resume, subscribe_live,
  subscribe_shape,
}
use tether.Engine.Subscribe.Reply.{new_ok, new_err}
use tether.Shape.Apply.{apply, load_snapshot}
use tether.Shape.Apply.Induction.{apply_induction, load_snapshot_induction}
use tether.Shape.Apply.Isolation.{IsIsolated, load_snapshot-IsIsolated}
use tether.Shape.Apply.Plan.{plan, plan_insert, def-perform}
use tether.Shape.Apply.Table.{filter-perform}
use tether.Shape.Error.{Error as ShapeError}
use tether.Shape.Filter.{Filter}
use tether.Shape.Instance.{Definition, Instance, new_instance, with_defaults, cached}
use tether.Shape.Log.{new_log, after}
use tether.Transport.{Conn}
use tether.Value.{Runtime, Row}
use tether.Wal.Change.{Change, Lsn}

module _ {C : Type 0} (go : Runtime) where
  -- Neither LoadSnapshot nor Apply changes what a shape is.
  abbrev pub Fixed : Definition C → Filter → Instance C → Type 0
  Fixed d f inst = (inst.def ≡ d) × (inst.filter ≡ f)

  load_snapshot-Fixed :
      (lsn : Lsn) (rows : List (Option Row)) (inst : Instance C)
      → Fixed inst.def inst.filter (load_snapshot go lsn rows inst).0
  load_snapshot-Fixed lsn rows inst =
      load_snapshot_induction go (Fixed inst.def inst.filter)
        (λ row i _ (d, f).
          (def-perform (plan_insert go row i) i ∙ d, filter-perform (plan_insert go row i) i ∙ f))
        lsn rows inst (refl, refl) (refl, refl)

  pub apply-Fixed :
      (ch : Change) (inst : Instance C) → Fixed inst.def inst.filter (apply go ch inst).0
  apply-Fixed ch inst =
      apply_induction go (Fixed inst.def inst.filter) ch (λ fp i h. h) (λ e i h. h)
        (λ i _ (d, f). (def-perform (plan go ch i) i ∙ d, filter-perform (plan go ch i) i ∙ f)) inst
        (refl, refl)

  -- The instance that NewInstance makes for a filter.
  abbrev made : Definition C → Filter → Instance C
  made def f = record {
    def = with_defaults def;
    filter = f;
    log = new_log;
    fingerprint = [];
    snapshot_lsn = 0;
    has_snapshot = false;
    cache = [];
  }

  new_instance-made :
      (def : Definition C) (claims : C) (inst : Instance C)
      → new_instance def claims ≡ ok inst
      → (bind : C → Result ShapeError Filter) × (f : Filter) × (def.bind ≡ some bind)
        × (bind claims ≡ ok f)
        × (made def f ≡ inst)
  unfolding new_instance
  new_instance-made def claims inst e = elim (Option-cases def.bind) [
    | inl missing ↦ absurd (ground arith)
    | inr (bind, there) ↦ elim (Result-cases (bind claims)) [
      | inr (x, bad) ↦ absurd (ground arith)
      | inl (f, good) ↦ (bind, f, there, good, ground arith)
    ]
  ]

  made-IsIsolated : (def : Definition C) (f : Filter) → IsIsolated go (made def f)
  unfolding new_log cached lookup
  made-IsIsolated def f = record { cached_match = λ key row e. cc; logged_match = tt }

module _ {C : Type 0} (sv : Services C) where
  -- The stream under a key is that of a shape and of claims whose key the stream's key names: its
  -- filter is what the host's function gives for these claims, and it holds and shows no other rows
  -- than the filter admits.
  pub record IsBound (key : Text) (inst : Instance C) : Type 0 where
    pub claims : C
    pub keyed : key ≡ stream_key inst.def.name (sv.claims_key claims)
    pub bind : C → Result ShapeError Filter
    pub given : inst.def.bind ≡ some bind
    pub filter : bind claims ≡ ok inst.filter
    pub isolated : IsIsolated sv.go inst

  abbrev pub AreBound : Dict (Instance C) → Type 0
  AreBound streams = All (λ e. IsBound e.0 e.1) streams

  pub IsBound-kept :
      (key : Text) (inst inst' : Instance C)
      → Fixed sv.go inst.def inst.filter inst'
      → IsIsolated sv.go inst'
      → IsBound key inst
      → IsBound key inst'
  IsBound-kept key inst inst' (d, f) i b = record {
    claims = b.claims;
    keyed = rw d b.keyed;
    bind = b.bind;
    given = rw d b.given;
    filter = rw f b.filter;
    isolated = i;
  }

  loaded_ok :
      (snap' : Taken) (r : Instance C × Option ShapeError) (inst : Instance C) (snap : Taken)
      → loaded sv snap' r ≡ ok (inst, snap)
      → r.0 ≡ inst
  unfolding loaded
  loaded_ok snap' (inst', none) inst snap e = cc
  loaded_ok snap' (inst', some x) inst snap e = cc

  begin_stream-IsBound :
      (def : Definition C) (claims : C) (inst : Instance C) (snap : Taken)
      → begin_stream sv def claims ≡ ok (inst, snap)
      → IsBound (stream_key def.name (sv.claims_key claims)) inst
  unfolding begin_stream
  begin_stream-IsBound def claims inst snap e = elim (Result-cases (new_instance def claims)) [
    | inr (x, bad) ↦ absurd (ground arith)
    | inl (inst0, good) ↦
        let (bind, f, given, bound, same) = new_instance-made sv.go def claims inst0 good in
        elim (Result-cases (sv.take def.schema def.table inst0.filter)) [
          | inr (x, bad) ↦ absurd (ground arith)
          | inl (snap', took) ↦
              let r = load_snapshot sv.go snap'.lsn snap'.rows inst0 in
              let e' : loaded sv snap' r ≡ ok (inst, snap) = rw (good, took) at e in
              let b : IsBound (stream_key def.name (sv.claims_key claims)) inst0 =
                rw (← same) (record {
                  claims = claims;
                  keyed = unfold with_defaults in refl;
                  bind = bind;
                  given = unfold with_defaults in given;
                  filter = bound;
                  isolated = made-IsIsolated sv.go def f;
                }) in
              rw (← loaded_ok snap' r inst snap e') (
                IsBound-kept _ inst0 r.0 (load_snapshot-Fixed sv.go snap'.lsn snap'.rows inst0)
                  (load_snapshot-IsIsolated sv.go snap'.lsn snap'.rows inst0 b.isolated) b)
        ]
  ]

  AreBound-insert :
      (key : Text) (inst : Instance C) (streams : Dict (Instance C))
      → IsBound key inst
      → AreBound streams
      → AreBound (insert key inst streams)
  unfolding insert
  AreBound-insert key inst [] b bs = (b, tt)
  AreBound-insert key inst ((j, old) ∷ streams) b (b', bs) = elim (Bool-cases (j =t key)) [
    | inl same ↦ rw same (b, bs)
    | inr other ↦ rw other (b', AreBound-insert key inst streams b bs)
  ]

  pub new-AreBound :
      (def : Definition C) (claims : C) (streams : Dict (Instance C)) (c : Conn)
      → AreBound streams
      → AreBound (subscribe_new sv def claims streams c).0
  new-AreBound def claims streams c bs = elim (Result-cases (begin_stream sv def claims)) [
    | inr (x, e) ↦ rw (new_err sv def claims streams c x e) bs
    | inl ((inst, snap), e) ↦
        rw (new_ok sv def claims streams c inst snap e)
          (AreBound-insert _ inst streams (begin_stream-IsBound def claims inst snap e) bs)
  ]

  -- A subscription leaves the streams as they are, or is one to a new stream.
  pub shape_streams :
      (def : Definition C) (streams : Dict (Instance C)) (s : Session C)
      → ((subscribe_shape sv def streams s).0 ≡ streams)
        ⊎ ((c : Conn) × ((subscribe_shape sv def streams s).0
              ≡ (subscribe_new sv def s.claims streams c).0))
  unfolding subscribe_shape subscribe_live subscribe_resume
  shape_streams def streams s =
      elim (Option-cases (lookup (stream_key def.name (sv.claims_key s.claims)) streams)) [
        | inl fresh ↦ inr (s.conn, ground arith)
        | inr (inst, live) ↦
            let at = resume_at def.name s in
            elim (Bool-cases (pos 0 <z at)) [
              | inl some_offset ↦ elim (Bool-cases (after at inst.log).1) [
                | inl there ↦ inl (ground arith)
                | inr gone ↦
                    inr (send_err sv.marshals (txt "must_resnapshot") def.name s.conn, ground arith)
              ]
              | inr none_given ↦ elim (Bool-cases (at =z pos 0)) [
                | inl zero_offset ↦ inl (ground arith)
                | inr negative ↦ inr (s.conn, ground arith)
              ]
            ]
      ]
