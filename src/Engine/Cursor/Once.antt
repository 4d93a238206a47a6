-- ===== src/Engine/Cursor/Once.antt =====
-- However the fan-outs go, each row of the change log is dispatched once and in order.
use tether.Prelude.{
  ℕ, ◌≤◌, ◌<◌, ltb, Bool, true, ◌&&◌, List, [], ◌∷◌, ◌++◌, Option, none, some, txt, ◌=t◌, ◌≡◌, refl,
  sym, ap, ◌∙◌, inl, inr, Bool-cases, Option-cases, All, arith,
}
use mathlib.Core.List.{append_assoc}
use tether.Engine.Cursor.{Feed, above, change_of_row, fan_row, fan_rows, stuck, one_less}
use tether.Engine.Dispatch.{Engine, dispatch_change}
use tether.Transport.{Message}
use tether.Value.{Runtime}
use tether.Wal.Store.{Codecs, LogRow}

-- The rows' ids rise, from above n on.
abbrev pub Rising : ℕ → List LogRow → Type 0
Rising n [] = Unit
Rising n (r ∷ rs) = (n < r.id) × Rising r.id rs

-- A row that the engine's query takes.
abbrev Mine : LogRow → Type 0
Mine r = (r.consumer_id =t txt "tether-engine") ≡ true

Rising-lower : (n m : ℕ) (rs : List LogRow) → n ≤ m → Rising m rs → Rising n rs
Rising-lower n m [] h u = tt
Rising-lower n m (r ∷ rs) h (a, u) = (omega (arith, a, h), u)

above-Rising : (n m : ℕ) (rs : List LogRow) → Rising m rs → Rising m (above n rs)
unfolding above
above-Rising n m [] u = tt
above-Rising n m (r ∷ rs) (a, u) =
    elim (Bool-cases (r.consumer_id =t txt "tether-engine" && ltb n r.id)) [
      | inl takes ↦ rw takes (a, above-Rising n r.id rs u)
      | inr skips ↦ rw skips (above-Rising n m rs (Rising-lower m r.id rs (omega (arith, a)) u))
    ]

above-Mine : (n : ℕ) (rs : List LogRow) → All Mine (above n rs)
unfolding above
above-Mine n [] = tt
above-Mine n (r ∷ rs) = elim (Bool-cases (r.consumer_id =t txt "tether-engine" && ltb n r.id)) [
  | inl takes ↦ rw takes (ground arith, above-Mine n rs)
  | inr skips ↦ rw skips (above-Mine n rs)
]

-- The query with a later cursor takes some of what it took.
above-above : (n m : ℕ) (rs : List LogRow) → n ≤ m → above m (above n rs) ≡ above m rs
unfolding above
above-above n m [] h = refl
above-above n m (r ∷ rs) h = ground (arith, above-above n m rs h)

above-All : (n : ℕ) (rs : List LogRow) → Rising n rs → All Mine rs → above n rs ≡ rs
unfolding above
above-All n [] u a = refl
above-All n (r ∷ rs) (h, u) (mine, a) =
    let rest : above n rs ≡ rs = above-All n rs (Rising-lower n r.id rs (omega (arith, h)) u) a in
    ground (arith, rest, mine)

-- Behind its first row, the query takes the others.
pub above_next :
    (n k : ℕ) (r : LogRow) (rs log : List LogRow)
    → Rising k log
    → above n log ≡ r ∷ rs
    → n ≤ r.id
    → above r.id log ≡ rs
above_next n k r rs log u e h =
    let u' : Rising k (r ∷ rs) = rw e at (above-Rising n k log u) in
    let mine : All Mine (r ∷ rs) = rw e at (above-Mine n log) in
    sym (above-above n r.id log h)
    ∙ ap (above r.id) e
    ∙ unfold above in ground (arith, above-All r.id rs u'.1 mine.1)

above_head : (n : ℕ) (r : LogRow) (rs log : List LogRow) → above n log ≡ r ∷ rs → n < r.id
unfolding above
above_head n r rs [] e = cc
above_head n r rs (q ∷ log) e =
    elim (Bool-cases (q.consumer_id =t txt "tether-engine" && ltb n q.id)) [
      | inl takes ↦
          let e' : q ∷ above n log ≡ r ∷ rs = rw takes at e in
          let same : q ≡ r = cc in rw (← same) (ground arith)
      | inr skips ↦ above_head n r rs log (rw skips at e)
    ]

above-append : (n : ℕ) (xs ys : List LogRow) → above n (xs ++ ys) ≡ above n xs ++ above n ys
unfolding above
above-append n [] ys = refl
above-append n (r ∷ xs) ys = ground (arith, above-append n xs ys)

module _ (cod : Codecs) (marshals : Message → Bool) (go : Runtime) {C : Type 0} where
  -- The rows' changes dispatched one after the other, those whose LSN does not parse left out.
  unfoldable pub dispatch_rows : List LogRow → Engine C → Engine C
  dispatch_rows [] e = e
  dispatch_rows (r ∷ rs) e = dispatch_rows rs (elim (cod.parse_lsn r.lsn) [
    | none ↦ e
    | some lsn ↦ dispatch_change marshals go (change_of_row cod lsn r) e
  ])

  -- What a fan-out did: some of the rows behind the cursor are dispatched, and the others are what
  -- is behind the cursor now; so it stays when more rows come with higher ids.
  pub record Fans (log : List LogRow) (fd fd' : Feed C) : Type 0 where
    pub done : List LogRow
    pub splits :
        (more : List LogRow)
        → Rising 0 (log ++ more)
        → above fd.cursor (log ++ more) ≡ done ++ above fd'.cursor (log ++ more)
    pub dispatched : fd'.engine ≡ dispatch_rows done fd.engine

  pub Fans-refl : (log : List LogRow) (fd : Feed C) → Fans log fd fd
  unfolding dispatch_rows
  Fans-refl log fd = record { done = []; splits = λ more u. refl; dispatched = refl }

  row_goes :
      (r : LogRow) (fd : Feed C)
      → (fan_row cod marshals go r fd).0
        ≡ record { cursor = r.id; engine = dispatch_rows (r ∷ []) fd.engine }
  unfolding fan_row dispatch_rows
  row_goes r fd = elim (Option-cases (cod.parse_lsn r.lsn)) [
    | inl bad ↦ ground (arith, bad)
    | inr (lsn, good) ↦ ground (arith, good)
  ]

  rows-append :
      (xs ys : List LogRow) (e : Engine C)
      → dispatch_rows (xs ++ ys) e ≡ dispatch_rows ys (dispatch_rows xs e)
  unfolding dispatch_rows
  rows-append [] ys e = refl
  rows-append (r ∷ xs) ys e = rows-append xs ys _

  pub Fans-trans :
      (log : List LogRow) (fd fd' fd'' : Feed C)
      → Fans log fd fd'
      → Fans log fd' fd''
      → Fans log fd fd''
  Fans-trans log fd fd' fd'' f g = record {
    done = f.done ++ g.done;
    splits = λ more u.
        f.splits more u
        ∙ ap (λ x. f.done ++ x) (g.splits more u)
        ∙ sym (append_assoc f.done g.done (above fd''.cursor (log ++ more)));
    dispatched =
        g.dispatched
        ∙ ap (dispatch_rows g.done) f.dispatched
        ∙ sym (rows-append f.done g.done fd.engine);
  }

  row-Fans :
      (r : LogRow) (rs log : List LogRow) (fd : Feed C)
      → above fd.cursor log ≡ r ∷ rs
      → Fans log fd (fan_row cod marshals go r fd).0
  row-Fans r rs log fd e =
      let later : (more : List LogRow)
          → above fd.cursor (log ++ more) ≡ r ∷ (rs ++ above fd.cursor more) =
        λ more. above-append fd.cursor log more ∙ ap (λ x. x ++ above fd.cursor more) e in
      let next : (more : List LogRow)
          → Rising 0 (log ++ more)
          → above r.id (log ++ more) ≡ rs ++ above fd.cursor more =
        λ more u.
          above_next fd.cursor 0 r (rs ++ above fd.cursor more) (log ++ more) u (later more)
            (omega (arith, above_head fd.cursor r rs log e)) in
      rw (row_goes r fd) (record {
        done = r ∷ [];
        splits = λ more u. later more ∙ ap (◌∷◌ r) (sym (next more u));
        dispatched = refl;
      })

  pub fan_rows-Fans :
      (failing : Option ℕ) (ends : Bool) (rs log : List LogRow) (fd : Feed C)
      → Rising 0 log
      → above fd.cursor log ≡ rs
      → let (fd', e) = fan_rows cod marshals go failing ends rs fd in
        Fans log fd fd' × (e ≡ none → above fd'.cursor log ≡ [])
  unfolding fan_rows
  fan_rows-Fans failing ends [] log fd u e = (Fans-refl log fd, λ _. e)
  fan_rows-Fans failing ends (r ∷ rs) log fd u e = elim (Bool-cases (stuck failing)) [
    | inl fails ↦ rw fails (Fans-refl log fd, λ none_left. absurd (ground arith))
    | inr reads ↦
        let one = fan_row cod marshals go r fd in
        let f = row-Fans r rs log fd e in
        let next : above one.0.cursor log ≡ rs =
          ap (λ x. above x.cursor log) (row_goes r fd)
          ∙ above_next fd.cursor 0 r rs log u e (omega (arith, above_head fd.cursor r rs log e)) in
        elim (Option-cases one.1) [
          | inr (x, bad) ↦ rw (reads, bad) (f, λ none_left. absurd (ground arith))
          | inl good ↦
              let (g, empties) = fan_rows-Fans (one_less failing) ends rs log one.0 u next in
              rw (reads, good) (Fans-trans log fd one.0 _ f g, empties)
        ]
  ]
