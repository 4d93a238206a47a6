-- ===== src/Transport/Tests.antt =====
-- A connection with a small buffer.
use tether.Prelude.{◌≤◌, List, [], ◌∷◌, ◌++◌, txt, true, false, ◌≡◌, refl, length, arith}
use tether.Transport.{Message, mutation_ok, Conn, enqueue, pump, written}
use tether.Transport.Fifo.{Action, offer, drain, acts, accepted, acts_order}

abbrev first : Message
first = mutation_ok (txt "m1") false

abbrev second : Message
second = mutation_ok (txt "m2") false

abbrev third : Message
third = mutation_ok (txt "m3") true

abbrev conn : Conn
conn = record {
  id = txt "c1";
  capacity = 1;
  send = [];
  closed = false;
  pumping = true;
  socket = [];
}

abbrev traffic : List Action
traffic = offer first ∷ offer second ∷ drain written ∷ offer third ∷ []

-- The second message finds the buffer full.
accepted_two : accepted traffic conn ≡ first ∷ third ∷ []
unfolding accepted enqueue pump
accepted_two = refl

acts_order_example :
    ((acts traffic conn).closed ≡ false)
    × (length (acts traffic conn).send ≤ (acts traffic conn).capacity)
    × ((lost : List Message) × (((acts traffic conn).socket ++ (lost ++ (acts traffic conn).send)
            ≡ [] ++ accepted traffic conn)
          × ((acts traffic conn).pumping ≡ true → lost ≡ [])))
acts_order_example = acts_order traffic conn refl (omega arith)
