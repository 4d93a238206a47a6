-- ===== src/Wal/Publication/Tests.antt =====
-- A publication that lacks one of two tables.
use tether.Prelude.{true, List, [], ◌∷◌, txt, ◌=t◌, lookup, insert, ◌≡◌, refl}
use tether.Wal.Catalog.{Catalog}
use tether.Wal.Publication.{
  TableRef, PubAnswer, ensure_publication, ensure_members, ensure_member, member, members,
  schema_of, table_of,
}
use tether.Wal.Publication.Members.{Ensures, ensure_publication-Ensures}

abbrev catalog : Catalog
catalog = record {
  slots = [];
  publications = (txt "tether_pub", (txt "public", txt "todos") ∷ []) ∷ [];
  current_lsn = 7;
}

abbrev tables : List TableRef
tables =
    record { schema = []; name = txt "todos" }
    ∷ record { schema = txt "app"; name = txt "notes" }
    ∷ []

abbrev answers : PubAnswer
answers = record {
  has_pool = true;
  asks = true;
  creates = true;
  tables = λ t. record { asks = true; alters = true };
}

ensure_publication-Ensures_example :
    Ensures
      (txt "tether_pub")
      tables
      catalog
      (ensure_publication answers (txt "tether_pub") tables catalog)
ensure_publication-Ensures_example =
    ensure_publication-Ensures answers (txt "tether_pub") tables catalog

adds_notes :
    members (txt "tether_pub") (ensure_publication answers (txt "tether_pub") tables catalog).0
    ≡ (txt "public", txt "todos") ∷ (txt "app", txt "notes") ∷ []
unfolding ensure_publication ensure_members ensure_member member members schema_of table_of lookup
    ◌=t◌ insert
adds_notes = refl
