-- ===== src/Shape/Filter/Parse/Cut.antt =====
-- splitAND finds the ends of the printed predicates.
use tether.Prelude.{
  suc, [], ◌∷◌, ◌++◌, map, none, some, Text, txt, ◌≡◌, refl, ap, ◌∙◌, length, length-append, arith,
  Unicode, upper_byte, trim_right, has_prefix, index, is_space, keep_byte,
}
use mathlib.Core.List.{append_assoc, map-append}
use tether.Shape.Filter.Parse.Shown.{op_text, show_pred, Fits, IsPlain}
use tether.Shape.Filter.Parse.Words.{space_not_upper, index_past, index_nowhere}
use tether.Shape.Filter.{Predicate, PredOp, op_eq, op_ne, op_is_null, op_is_not_null, bad_op}
use tether.Value.{Value}

pub length_upper : (s : Text) → length (map upper_byte s) ≡ length s
length_upper [] = refl
length_upper (c ∷ s) = ap suc (length_upper s)

op_before :
    (op : PredOp) (v : Value) (rest : Text)
    → Fits op v
    → index (txt " AND ") (map upper_byte (op_text op) ++ (txt " AND " ++ rest))
      ≡ some (length (op_text op))
unfolding index has_prefix op_text upper_byte
op_before op_eq v rest fits = refl
op_before op_ne v rest fits = refl
op_before op_is_null v rest fits = refl
op_before op_is_not_null v rest fits = refl
op_before bad_op v rest fits = absurd fits

op_alone : (op : PredOp) → index (txt " AND ") (map upper_byte (op_text op)) ≡ none
unfolding index has_prefix op_text upper_byte
op_alone op_eq = refl
op_alone op_ne = refl
op_alone op_is_null = refl
op_alone op_is_not_null = refl
op_alone bad_op = refl

pub op_end : (op : PredOp) → trim_right (op_text op) ≡ op_text op
unfolding trim_right keep_byte is_space op_text
op_end op_eq = refl
op_end op_ne = refl
op_end op_is_null = refl
op_end op_is_not_null = refl
op_end bad_op = refl

pub op_head : (op : PredOp) (v : Value) → Fits op v → (s : Text) × (op_text op ≡ 32 ∷ s)
unfolding op_text
op_head op_eq v fits = (txt "= ?", refl)
op_head op_ne v fits = (txt "!= ?", refl)
op_head op_is_null v fits = (txt "IS NULL", refl)
op_head op_is_not_null v fits = (txt "IS NOT NULL", refl)
op_head bad_op v fits = absurd fits

module _ (u : Unicode) where
  upper_pred :
      (p : Predicate)
      → map upper_byte (show_pred p) ≡ map upper_byte p.column ++ map upper_byte (op_text p.op)
  unfolding show_pred
  upper_pred p = map-append upper_byte p.column (op_text p.op)

  pub index_first :
      (p : Predicate) (rest : Text)
      → IsPlain u p
      → index (txt " AND ") (map upper_byte (show_pred p) ++ (txt " AND " ++ rest))
        ≡ some (length (show_pred p))
  unfolding show_pred
  index_first p rest plain =
      let up = map upper_byte p.column in
      rw (upper_pred p, append_assoc up (map upper_byte (op_text p.op)) (txt " AND " ++ rest))
        (index_past 32 (length (op_text p.op)) (txt "AND ") up
            (map upper_byte (op_text p.op) ++ (txt " AND " ++ rest))
            (space_not_upper p.column plain.word) (op_before p.op p.value rest plain.fits)
          ∙ ap some (omega (arith, length_upper p.column, length-append p.column (op_text p.op))))

  pub index_last :
      (p : Predicate) → IsPlain u p → index (txt " AND ") (map upper_byte (show_pred p)) ≡ none
  index_last p plain = rw (upper_pred p) (
      index_nowhere 32 (txt "AND ") (map upper_byte p.column) (map upper_byte (op_text p.op))
        (space_not_upper p.column plain.word) (op_alone p.op))
