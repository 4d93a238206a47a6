-- ===== src/Engine/Supervise/Idle.antt =====
-- Who is dismissed for being idle.
use tether.Prelude.{
  ℕ, suc, ◌+◌, ◌-◌, true, false, List, [], ◌∷◌, none, Text, txt, ◌=t◌, ap, ◌∙◌, pos, Dict, lookup,
  lookup-erase, lookup-erase_self, ◌≡◌, refl, inl, inr, ◌⊎◌, Bool-cases, All, length, arith,
}
use mathlib.Core.List.{Memᴰ}
use tether.Engine.Dispatch.{Engine}
use tether.Engine.Session.{Session, is_idle}
use tether.Engine.Supervise.{split_idle, dismiss, sweep_idle_clients}
use tether.Transport.{Conn, Hub, send_bye, shutdown, remove}

remove-none :
    (id other : Text) (h : Hub)
    → lookup id h.clients ≡ none
    → lookup id (remove other h).clients ≡ none
unfolding remove
remove-none id other h e = ground (arith, lookup-erase other id h.clients)

bye_id :
    (reason : Text) (c : Conn)
    → ((send_bye reason c).id ≡ c.id) × ((send_bye reason c).closed ≡ true)
unfolding send_bye shutdown
bye_id reason c = elim (Bool-cases c.closed) [
  | inl shut ↦ (ground arith, ground arith)
  | inr open' ↦ (ground arith, ground arith)
]

goes_nowhere : {A B : Type 0} (a : A) → Memᴰ a [] → B
goes_nowhere a m = elim m [ ]

module _ {C : Type 0} where
  dismiss-none :
      (id : Text) (ss : List (Session C)) (h : Hub)
      → lookup id h.clients ≡ none
      → lookup id (dismiss ss h).1.clients ≡ none
  unfolding dismiss
  dismiss-none id [] h e = e
  dismiss-none id (s ∷ ss) h e =
      dismiss-none id ss (remove s.conn.id h) (remove-none id s.conn.id h e)

  -- The sessions that are dismissed, in the order of those that were idle: each has the id of its
  -- connection still, the connection is closed, and the hub has it not any more.
  abbrev pub Dismisses : Hub → List (Session C) → List (Session C) → Type 0
  Dismisses h [] [] = Unit
  Dismisses h [] (g ∷ gs) = ⊥
  Dismisses h (s ∷ ss) [] = ⊥
  Dismisses h (s ∷ ss) (g ∷ gs) =
      ((g.conn.id ≡ s.conn.id) × (g.conn.closed ≡ true) × (lookup s.conn.id h.clients ≡ none))
      × Dismisses h ss gs

  dismiss-Dismisses :
      (ss : List (Session C)) (h : Hub) → Dismisses (dismiss ss h).1 ss (dismiss ss h).0
  unfolding dismiss
  dismiss-Dismisses [] h = tt
  dismiss-Dismisses (s ∷ ss) h =
      let (same, shut) = bye_id (txt "idle_client") s.conn in
      let there : lookup s.conn.id (remove s.conn.id h).clients ≡ none =
        unfold remove in lookup-erase_self s.conn.id h.clients in
      (
        (same, shut, dismiss-none s.conn.id ss (remove s.conn.id h) there),
        dismiss-Dismisses ss (remove s.conn.id h),
      )

  -- A client of the hub stays as it is, or it is one of the idle sessions.
  abbrev pub Spared : Hub → List (Session C) → Hub → Text → Type 0
  Spared h idle h' id =
      (lookup id h'.clients ≡ lookup id h.clients)
      ⊎ ((s : Session C) × Memᴰ s idle × ((s.conn.id =t id) ≡ true))

  dismiss-Spared : (ss : List (Session C)) (h : Hub) (id : Text) → Spared h ss (dismiss ss h).1 id
  unfolding dismiss
  dismiss-Spared [] h id = inl refl
  dismiss-Spared (s ∷ ss) h id = elim (Bool-cases (s.conn.id =t id)) [
    | inl this ↦ inr (s, Memᴰ.head refl, this)
    | inr other ↦
        let kept : lookup id (remove s.conn.id h).clients ≡ lookup id h.clients =
          unfold remove in lookup-erase s.conn.id id h.clients ∙ rw other refl in
        elim (dismiss-Spared ss (remove s.conn.id h) id) [
          | inl same ↦ inl (same ∙ kept)
          | inr (t, m, e) ↦ inr (t, Memᴰ.tail m, e)
        ]
  ]

  -- The sessions that stay are not idle, those that go are idle ones of the engine, and there are no
  -- others.
  pub record Splits (cutoff : ℕ) (ss : Dict (Session C)) (stay : Dict (Session C))
      (idle : List (Session C)) : Type 0 where
    pub active : All (λ e. is_idle cutoff e.1 ≡ false) stay
    pub idle_long : All (λ s. is_idle cutoff s ≡ true) idle
    pub kept : (e : Text × Session C) → Memᴰ e ss → is_idle cutoff e.1 ≡ false → Memᴰ e stay
    pub none_new : (e : Text × Session C) → Memᴰ e stay → Memᴰ e ss
    pub all_idle : (e : Text × Session C) → Memᴰ e ss → is_idle cutoff e.1 ≡ true → Memᴰ e.1 idle
    pub from_engine : (s : Session C) → Memᴰ s idle → (id : Text) × Memᴰ (id, s) ss
    pub counted : length stay + length idle ≡ length ss

  keeps :
      (cutoff : ℕ) (id : Text) (s : Session C) (ss stay : Dict (Session C)) (e : Text × Session C)
      → ((is_idle cutoff s ≡ true) ⊎ Memᴰ (id, s) stay)
      → (Memᴰ e ss → Memᴰ e stay)
      → Memᴰ e ((id, s) ∷ ss)
      → is_idle cutoff e.1 ≡ false
      → Memᴰ e stay
  keeps cutoff id s ss stay e one rest (Memᴰ.tail m) h = rest m
  keeps cutoff id s ss stay e (inr there) rest (Memᴰ.head same) h = rw same there
  keeps cutoff id s ss stay e (inl idle) rest (Memᴰ.head same) h =
      let h' : is_idle cutoff s ≡ false = rw same at h in absurd (ground arith)

  comes :
      (one e : Text × Session C) (ss stay : Dict (Session C))
      → (Memᴰ e stay → Memᴰ e ss)
      → Memᴰ e (one ∷ stay)
      → Memᴰ e (one ∷ ss)
  comes one e ss stay rest (Memᴰ.head same) = Memᴰ.head same
  comes one e ss stay rest (Memᴰ.tail m) = Memᴰ.tail (rest m)

  goes :
      (cutoff : ℕ) (id : Text) (s : Session C) (ss : Dict (Session C)) (idle : List (Session C))
      (e : Text × Session C)
      → ((is_idle cutoff s ≡ false) ⊎ Memᴰ s idle)
      → (Memᴰ e ss → Memᴰ e.1 idle)
      → Memᴰ e ((id, s) ∷ ss)
      → is_idle cutoff e.1 ≡ true
      → Memᴰ e.1 idle
  goes cutoff id s ss idle e one rest (Memᴰ.tail m) h = rest m
  goes cutoff id s ss idle e (inr there) rest (Memᴰ.head same) h = rw same there
  goes cutoff id s ss idle e (inl active) rest (Memᴰ.head same) h =
      let h' : is_idle cutoff s ≡ true = rw same at h in absurd (ground arith)

  came :
      (id : Text) (s t : Session C) (ss : Dict (Session C)) (idle : List (Session C))
      → (Memᴰ t idle → (i : Text) × Memᴰ (i, t) ss)
      → Memᴰ t (s ∷ idle)
      → (i : Text) × Memᴰ (i, t) ((id, s) ∷ ss)
  came id s t ss idle rest (Memᴰ.head same) = (id, Memᴰ.head (ap (λ x. (id, x)) same))
  came id s t ss idle rest (Memᴰ.tail m) = let (i, m') = rest m in (i, Memᴰ.tail m')

  split_idle-Splits :
      (cutoff : ℕ) (ss : Dict (Session C))
      → Splits cutoff ss (split_idle cutoff ss).0 (split_idle cutoff ss).1
  unfolding split_idle
  split_idle-Splits cutoff [] = record {
    active = tt;
    idle_long = tt;
    kept = λ e m h. m;
    none_new = λ e m. m;
    all_idle = λ e m h. goes_nowhere e m;
    from_engine = λ s m. goes_nowhere s m;
    counted = refl;
  }
  split_idle-Splits cutoff ((id, s) ∷ ss) =
      let r = split_idle-Splits cutoff ss in
      elim (Bool-cases (is_idle cutoff s)) [
        | inl idle ↦ rw idle (record {
          active = r.active;
          idle_long = (idle, r.idle_long);
          kept = λ e m h.
              keeps cutoff id s ss (split_idle cutoff ss).0 e (inl idle) (λ m'. r.kept e m' h) m h;
          none_new = λ e m. Memᴰ.tail (r.none_new e m);
          all_idle = λ e m h.
              goes cutoff id s ss (s ∷ (split_idle cutoff ss).1) e (inr (Memᴰ.head refl))
                (λ m'. Memᴰ.tail (r.all_idle e m' h)) m h;
          from_engine = λ t m. came id s t ss (split_idle cutoff ss).1 (r.from_engine t) m;
          counted = omega (arith, r.counted);
        })
        | inr active ↦ rw active (record {
          active = (active, r.active);
          idle_long = r.idle_long;
          kept = λ e m h.
              keeps cutoff id s ss ((id, s) ∷ (split_idle cutoff ss).0) e (inr (Memᴰ.head refl))
                (λ m'. Memᴰ.tail (r.kept e m' h)) m h;
          none_new = λ e m. comes (id, s) e ss (split_idle cutoff ss).0 (r.none_new e) m;
          all_idle = λ e m h.
              goes cutoff id s ss (split_idle cutoff ss).1 e (inl active) (λ m'. r.all_idle e m' h)
                m h;
          from_engine = λ t m. let (i, m') = r.from_engine t m in (i, Memᴰ.tail m');
          counted = omega (arith, r.counted);
        })
      ]

  -- A sweep with a limit dismisses exactly the engine's sessions that were idle for longer: those that
  -- stay are the others, unchanged, and each dismissed one has its own connection closed and gone from
  -- the hub. A client of the hub that is none of these stays, and streams do not change.
  pub sweep_idle_clients-Splits :
      (limit now : ℕ) (e : Engine C) (h : Hub)
      → let (e', gone, h') = sweep_idle_clients (pos (suc limit)) now e h in
        (idle : List (Session C)) × Splits (now - suc limit) e.sessions e'.sessions idle
        × Dismisses h' idle gone
        × ((id : Text) → Spared h idle h' id)
        × (e'.streams ≡ e.streams)
  unfolding sweep_idle_clients
  sweep_idle_clients-Splits limit now e h =
      let out = (split_idle (now - suc limit) e.sessions).1 in
      (
        out,
        split_idle-Splits (now - suc limit) e.sessions,
        dismiss-Dismisses out h,
        dismiss-Spared out h,
        refl,
      )
