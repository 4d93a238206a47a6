-- ===== src/Wal/Publication.antt =====
-- TableRef, Config and EnsurePublication of internal/wal/publication.go.
pub mod Members
mod Tests
use tether.Prelude.{
  Bool, true, false, not, ◌||◌, ◌&&◌, List, [], ◌∷◌, ◌++◌, Option, none, some, Text, txt, ◌=t◌,
  if◌then◌else◌, Dict, lookup, insert, map, is_some,
}
use tether.Shape.Filter.Sql.{quote_ident}
use tether.Value.{join}
use tether.Wal.Catalog.{Catalog, Qualified}

pub record TableRef : Type 0 where
  pub schema : Text
  pub name : Text

-- The schema that an empty one stands for.
unfoldable pub schema_of : TableRef → Text
schema_of t = if t.schema =t [] then txt "public" else t.schema

-- Qualified
unfoldable pub qualified : TableRef → Text
unfolding schema_of
qualified t = quote_ident (schema_of t) ++ (txt "." ++ quote_ident t.name)

-- The table that the quoted name stands for.
unfoldable pub table_of : TableRef → Qualified
unfolding schema_of
table_of t = (schema_of t, t.name)

pub record Config : Type 0 where
  pub consumer_id : Text
  pub slot_name : Text
  pub publication : Text
  pub tables : List TableRef

-- The loop of Config.validate.
unfoldable pub all_named : List TableRef → Bool
all_named [] = true
all_named (t ∷ ts) = not (t.name =t []) && all_named ts

pub data PubError : Type 0 where
  not_configured nil_pool empty_name no_tables check_failed create_failed member_failed add_failed :
      PubError

-- Config.validate
unfoldable pub validate : Config → Option PubError
unfolding all_named
validate c =
    if c.consumer_id =t [] || c.slot_name =t [] || c.publication =t []
    then some not_configured
    else elim c.tables [
      | [] ↦ some not_configured
      | t ∷ ts ↦ if all_named (t ∷ ts) then none else some not_configured
    ]

unfoldable pub same_table : Qualified → Qualified → Bool
same_table (s, n) (s', n') = s =t s' && n =t n'

-- EXISTS in pg_publication_tables
unfoldable pub member : Qualified → List Qualified → Bool
unfolding same_table
member q [] = false
member q (p ∷ ps) = same_table p q || member q ps

-- The statement that creates a publication, and the one that adds a table.
unfoldable pub create_sql : Text → List TableRef → Text
unfolding qualified
create_sql name tables =
    txt "CREATE PUBLICATION "
    ++ (quote_ident name ++ (txt " FOR TABLE " ++ join (txt ", ") (map qualified tables)))

unfoldable pub add_sql : Text → TableRef → Text
unfolding qualified
add_sql name t =
    txt "ALTER PUBLICATION " ++ (quote_ident name ++ (txt " ADD TABLE " ++ qualified t))

-- How the database answers for one table: whether the question succeeds, and the ALTER, if it comes
-- to that.
pub record TableAnswer : Type 0 where
  pub asks : Bool
  pub alters : Bool

unfoldable pub members : Text → Catalog → List Qualified
members name cat = elim (lookup name cat.publications) [ none ↦ [] | some ts ↦ ts ]

-- One round of the loop over the tables.
unfoldable pub ensure_member : Text → TableRef → TableAnswer → Catalog → Catalog × Option PubError
unfolding members member table_of
ensure_member name t a cat =
    if not a.asks
    then (cat, some member_failed)
    else if member (table_of t) (members name cat)
    then (cat, none)
    else if a.alters
    then (
      record cat {
        publications = insert name (members name cat ++ table_of t ∷ []) cat.publications;
      },
      none,
    )
    else (cat, some add_failed)

unfoldable pub ensure_members :
    Text → List TableRef → (TableRef → TableAnswer) → Catalog → Catalog × Option PubError
ensure_members name [] answers cat = (cat, none)
ensure_members name (t ∷ ts) answers cat =
    let (cat', e) = ensure_member name t (answers t) cat in
    elim e [ none ↦ ensure_members name ts answers cat' | some x ↦ (cat', some x) ]

-- How the database answers the other calls.
pub record PubAnswer : Type 0 where
  pub has_pool : Bool
  pub asks : Bool
  pub creates : Bool
  pub tables : TableRef → TableAnswer

unfoldable pub create_publication :
    Bool → Text → List TableRef → Catalog → Catalog × Option PubError
unfolding table_of
create_publication creates name tables cat =
    if creates
    then (record cat { publications = insert name (map table_of tables) cat.publications }, none)
    else (cat, some create_failed)

-- EnsurePublication
unfoldable pub ensure_publication :
    PubAnswer → Text → List TableRef → Catalog → Catalog × Option PubError
ensure_publication a name tables cat =
    if not a.has_pool
    then (cat, some nil_pool)
    else if name =t []
    then (cat, some empty_name)
    else elim tables [
      | [] ↦ (cat, some no_tables)
      | t ∷ ts ↦
          if not a.asks
          then (cat, some check_failed)
          else if is_some (lookup name cat.publications)
          then ensure_members name (t ∷ ts) a.tables cat
          else create_publication a.creates name (t ∷ ts) cat
    ]
