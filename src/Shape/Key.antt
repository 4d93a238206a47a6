-- ===== src/Shape/Key.antt =====
-- pkKey of internal/shape/log.go, and patchRow and firstNonNil of internal/shape/apply.go.
pub mod Laws
use tether.Prelude.{
  List, [], ◌∷◌, Option, none, some, Text, txt, Result, ok, err, ◌>>=◌, if◌then◌else◌, lookup,
  insert, is_some,
}
use tether.Shape.Error.{Error, no_primary_key, missing_column}
use tether.Value.{Value, Runtime, Row, column, sprint, join}

-- The value of one key column, printed.
key_part : Runtime → Text → Option Value → Result Error Text
key_part go col none = err (missing_column col)
key_part go col (some v) = ok (sprint go v)

-- The loop over the columns of the key.
unfoldable pub key_parts : Runtime → List Text → Option Row → Result Error (List Text)
unfolding key_part
key_parts go [] row = ok []
key_parts go (col ∷ cols) row =
    let rest = key_parts go cols row in
    do part ← key_part go col (column col row); parts ← rest; ok (part ∷ parts)

unfoldable pub pk_key : Runtime → List Text → Option Row → Result Error Text
unfolding key_parts join
pk_key go [] row = err no_primary_key
pk_key go (col ∷ cols) row = do parts ← key_parts go (col ∷ cols) row; ok (join (txt "|") parts)

-- `for k, v := range row { out[k] = v }`
unfoldable pub put_all : Row → Row → Row
put_all [] out = out
put_all ((k, v) ∷ r) out = insert k v (put_all r out)

-- `for k, v := range row { if _, ok := out[k]; !ok { out[k] = v } }`
unfoldable pub put_missing : Row → Row → Row
put_missing [] out = out
put_missing ((k, v) ∷ r) out =
    put_missing r (if is_some (lookup k out) then out else insert k v out)

-- The entries that `range` visits: none in a nil map.
abbrev pub entries : Option Row → Row
entries none = []
entries (some r) = r

unfoldable pub patch_row : Option Row → Option Row → Option Row → Row
patch_row cached old neu =
    put_all (entries neu) (put_missing (entries old) (put_all (entries cached) []))

unfoldable pub first_non_nil : Option Row → Option Row → Option Row
first_non_nil none b = b
first_non_nil (some a) b = some a
