-- ===== src/Engine/Key/Tests.antt =====
-- Keys of streams.
use tether.Prelude.{txt, true, ◌≡◌, refl, ◌∷◌}
use tether.Engine.Key.{stream_key, shape_of, no_null, shape_of-stream_key, stream_key_inj}

todos_no_null : no_null (txt "todos") ≡ true
unfolding no_null
todos_no_null = refl

shape_of-stream_key_example : shape_of (stream_key (txt "todos") (0 ∷ txt "42")) ≡ txt "todos"
shape_of-stream_key_example = shape_of-stream_key (txt "todos") (0 ∷ txt "42") todos_no_null

stream_key_inj_example : (txt "todos" ≡ txt "todos") × (txt "42" ≡ txt "42")
stream_key_inj_example =
    stream_key_inj (txt "todos") (txt "todos") (txt "42") (txt "42") todos_no_null todos_no_null
      refl
