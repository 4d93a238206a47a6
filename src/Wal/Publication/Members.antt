-- ===== src/Wal/Publication/Members.antt =====
-- EnsurePublication leaves the publication with the tables it is given.
use tether.Prelude.{
  Bool, true, false, not, ◌&&◌, List, [], ◌∷◌, ◌++◌, Option, none, some, Text, ◌=t◌, =t_refl,
  lookup, insert, map, lookup-insert, lookup-insert_self, ◌≡◌, refl, ◌∙◌, inl, inr, ◌⊎◌, Bool-cases,
  Option-cases, All, arith,
}
use mathlib.Core.List.{append_assoc}
use tether.Wal.Catalog.{Catalog, Qualified}
use tether.Wal.Publication.{
  TableRef, table_of, PubError, nil_pool, empty_name, check_failed, no_tables, same_table, member,
  TableAnswer, members, ensure_member, ensure_members, PubAnswer, create_publication,
  ensure_publication,
}

same_table_refl : (q : Qualified) → same_table q q ≡ true
unfolding same_table
same_table_refl (s, n) = rw (=t_refl s, =t_refl n)

member-append :
    (q : Qualified) (ps qs : List Qualified) → member q ps ≡ true → member q (ps ++ qs) ≡ true
unfolding member
member-append q [] qs h = cc
member-append q (p ∷ ps) qs h = ground (arith, member-append q ps qs)

member_last : (q : Qualified) (ps : List Qualified) → member q (ps ++ q ∷ []) ≡ true
unfolding member
member_last q [] = ground (arith, same_table_refl q)
member_last q (p ∷ ps) = ground (arith, member_last q ps)

-- The tables of a publication as the catalog shows them, kept and grown.
abbrev pub Grows : Text → Catalog → Catalog → Type 0
Grows name cat cat' =
    ((q : Qualified) → member q (members name cat) ≡ true → member q (members name cat') ≡ true)
    × ((other : Text)
        → (name =t other) ≡ false
        → lookup other cat'.publications ≡ lookup other cat.publications)
    × (cat'.slots ≡ cat.slots)

members-insert :
    (name : Text) (ts : List Qualified) (cat : Catalog)
    → members name (record cat { publications = insert name ts cat.publications }) ≡ ts
unfolding members
members-insert name ts cat = ground (arith, lookup-insert_self name ts cat.publications)

Grows-refl : (name : Text) (cat : Catalog) → Grows name cat cat
Grows-refl name cat = (λ q h. h, λ other h. refl, refl)

Grows-trans : (name : Text) (a b c : Catalog) → Grows name a b → Grows name b c → Grows name a c
Grows-trans name a b c (k, o, s) (k', o', s') =
    (λ q h. k' q (k q h), λ other h. o' other h ∙ o other h, s' ∙ s)

-- ALTER PUBLICATION ... ADD TABLE
added : Text → TableRef → Catalog → Catalog
added name t cat = record cat {
  publications = insert name (members name cat ++ table_of t ∷ []) cat.publications;
}

added-Grows : (name : Text) (t : TableRef) (cat : Catalog) → Grows name cat (added name t cat)
unfolding added
added-Grows name t cat = (
  λ q h.
      rw (members-insert name (members name cat ++ table_of t ∷ []) cat)
        (member-append q (members name cat) (table_of t ∷ []) h),
  λ other h. lookup-insert name other (members name cat ++ table_of t ∷ []) cat.publications ∙ rw h,
  refl,
)

one_member :
    (name : Text) (t : TableRef) (a : TableAnswer) (cat : Catalog)
    → let (cat', e) = ensure_member name t a cat in
      Grows name cat cat' × (e ≡ none → member (table_of t) (members name cat') ≡ true)
unfolding ensure_member
one_member name t a cat = elim (Bool-cases a.asks) [
  | inr fails ↦ rw fails (Grows-refl name cat, λ e. absurd (ground arith))
  | inl asks ↦ elim (Bool-cases (member (table_of t) (members name cat))) [
    | inl there ↦ rw (asks, there) (Grows-refl name cat, λ e. there)
    | inr missing ↦ elim (Bool-cases a.alters) [
      | inr fails ↦ rw (asks, missing, fails) (Grows-refl name cat, λ e. absurd (ground arith))
      | inl alters ↦
          rw (asks, missing, alters)
            (
              unfold added in added-Grows name t cat,
              λ e.
                  rw (members-insert name (members name cat ++ table_of t ∷ []) cat)
                    (member_last (table_of t) (members name cat)),
            )
    ]
  ]
]

-- A result that only grows the publication's tables, and if it is no error, has all that are listed.
pub Ensures : Text → List TableRef → Catalog → Catalog × Option PubError → Type 0
Ensures name ts cat (cat', e) =
    Grows name cat cat' × (e ≡ none → All (λ t. member (table_of t) (members name cat') ≡ true) ts)

-- One more table in front.
Ensures-cons :
    (name : Text) (t : TableRef) (ts : List TableRef) (a b : Catalog)
    (r : Catalog × Option PubError)
    → Grows name a b
    → member (table_of t) (members name b) ≡ true
    → Ensures name ts b r
    → Ensures name (t ∷ ts) a r
unfolding Ensures
Ensures-cons name t ts a b r grows there (grows', theres) =
    (Grows-trans name a b r.0 grows grows', λ e. (grows'.0 (table_of t) there, theres e))

all_members :
    (name : Text) (ts : List TableRef) (answers : TableRef → TableAnswer) (cat : Catalog)
    → Ensures name ts cat (ensure_members name ts answers cat)
all_members name [] answers cat = unfold ensure_members Ensures in (Grows-refl name cat, λ e. tt)
all_members name (t ∷ ts) answers cat =
    let one = ensure_member name t (answers t) cat in
    let (grows, there) = one_member name t (answers t) cat in
    elim (Option-cases one.1) [
      | inr (x, bad) ↦
          let stops : ensure_members name (t ∷ ts) answers cat ≡ (one.0, some x) =
            unfold ensure_members in ground (arith, bad) in
          rw stops (unfold Ensures in (grows, λ e. cc))
      | inl good ↦
          let goes : ensure_members name (t ∷ ts) answers cat
              ≡ ensure_members name ts answers one.0 =
            unfold ensure_members in ground (arith, good) in
          rw goes (
            Ensures-cons name t ts cat one.0 (ensure_members name ts answers one.0) grows
              (there good) (all_members name ts answers one.0))
    ]

member_inner : (q : Qualified) (front back : List Qualified) → member q (front ++ q ∷ back) ≡ true
unfolding member
member_inner q [] back = ground (arith, same_table_refl q)
member_inner q (p ∷ front) back = ground (arith, member_inner q front back)

created_members :
    (front : List Qualified) (ts : List TableRef)
    → All (λ t. member (table_of t) (front ++ map table_of ts) ≡ true) ts
created_members front [] = tt
created_members front (t ∷ ts) = (
  member_inner (table_of t) front (map table_of ts),
  rw (append_assoc front (table_of t ∷ []) (map table_of ts)) at
      (created_members (front ++ table_of t ∷ []) ts),
)

created-Ensures :
    (creates : Bool) (name : Text) (ts : List TableRef) (cat : Catalog)
    → lookup name cat.publications ≡ none
    → Ensures name ts cat (create_publication creates name ts cat)
unfolding create_publication Ensures
created-Ensures false name ts cat missing = (Grows-refl name cat, λ e. cc)
created-Ensures true name ts cat missing = (
  (
    λ q h.
        let empty : members name cat ≡ [] = unfold members in ground (arith, missing) in
        absurd (unfold member in ground (arith, empty)),
    λ other h. lookup-insert name other (map table_of ts) cat.publications ∙ rw h,
    refl,
  ),
  λ e. rw (members-insert name (map table_of ts) cat) (created_members [] ts),
)

fails-Ensures :
    (name : Text) (ts : List TableRef) (cat : Catalog) (x : PubError)
    → Ensures name ts cat (cat, some x)
unfolding Ensures
fails-Ensures name ts cat x = (Grows-refl name cat, λ e. cc)

-- EnsurePublication on a list that is not empty fails before it changes anything, or is one of its
-- two parts.
publication_cases :
    (a : PubAnswer) (name : Text) (t : TableRef) (ts : List TableRef) (cat : Catalog)
    → let r = ensure_publication a name (t ∷ ts) cat in
      ((x : PubError) × (r ≡ (cat, some x)))
      ⊎ ((r ≡ ensure_members name (t ∷ ts) a.tables cat)
          ⊎ ((lookup name cat.publications ≡ none)
              × (r ≡ create_publication a.creates name (t ∷ ts) cat)))
unfolding ensure_publication
publication_cases a name t ts cat = elim (Bool-cases (a.has_pool && not (name =t []) && a.asks)) [
  | inr broken ↦ inl (elim (Bool-cases a.has_pool) [
    | inr shut ↦ (nil_pool, ground arith)
    | inl pool ↦ elim (Bool-cases (name =t [])) [
      | inl blank ↦ (empty_name, ground arith)
      | inr named ↦ (check_failed, ground arith)
    ]
  ])
  | inl ready ↦ elim (Option-cases (lookup name cat.publications)) [
    | inr (qs, there) ↦ inr (inl (ground arith))
    | inl missing ↦ inr (inr (missing, ground arith))
  ]
]

empty_fails :
    (a : PubAnswer) (name : Text) (cat : Catalog)
    → (x : PubError) × (ensure_publication a name [] cat ≡ (cat, some x))
unfolding ensure_publication
empty_fails a name cat = elim (Bool-cases a.has_pool) [
  | inr shut ↦ (nil_pool, ground arith)
  | inl pool ↦ elim (Bool-cases (name =t [])) [
    | inl blank ↦ (empty_name, ground arith)
    | inr named ↦ (no_tables, ground arith)
  ]
]

-- EnsurePublication only adds tables to the publication of its name, and changes no other
-- publication and no slot, wherever the database fails; if it returns no error, every table that it
-- is given, under the schema public where it names none, is in the publication.
pub ensure_publication-Ensures :
    (a : PubAnswer) (name : Text) (tables : List TableRef) (cat : Catalog)
    → Ensures name tables cat (ensure_publication a name tables cat)
ensure_publication-Ensures a name [] cat =
    let (x, e) = empty_fails a name cat in rw e (fails-Ensures name [] cat x)
ensure_publication-Ensures a name (t ∷ ts) cat = elim (publication_cases a name t ts cat) [
  | inl (x, e) ↦ rw e (fails-Ensures name (t ∷ ts) cat x)
  | inr (inl e) ↦ rw e (all_members name (t ∷ ts) a.tables cat)
  | inr (inr (missing, e)) ↦ rw e (created-Ensures a.creates name (t ∷ ts) cat missing)
]
