-- ===== src/Mutate.antt =====
-- mutation.go and internal/mutate/apply.go: a client's write, applied at most once for each
-- idempotency key in one transaction with the key's record.
pub mod Once
pub mod Answers
mod Tests
use tether.Prelude.{
  Bool, true, false, not, ◌&&◌, List, [], ◌∷◌, Option, none, some, Text, txt, ◌=t◌, ◌||◌, ◌++◌,
  Result, ok, err, if◌then◌else◌, Dict, lookup,
}
use tether.Value.{Value, Row, clone_row, column}

-- What the host's handler may return: Reject, an error that wraps another by %w, or any other.
pub data HostError : Type 0 where
  reject : Text → HostError
  wrap : Text → HostError → HostError
  plain : Text → HostError

-- IsReject, by errors.As along the chain of wrapped errors
unfoldable pub is_reject : HostError → Bool
is_reject (reject reason) = true
is_reject (wrap msg e) = is_reject e
is_reject (plain msg) = false

unfoldable pub reject_reason : HostError → Text
reject_reason (reject reason) = reason
reject_reason (wrap msg e) = reject_reason e
reject_reason (plain msg) = []

-- RejectError.Error
unfoldable pub reject_message : Text → Text
reject_message reason =
    if reason =t [] then txt "tether: rejected" else txt "tether: rejected: " ++ reason

-- Mutation; the arguments are a map that may be nil.
pub record Mutation (C : Type 0) : Type 0 where
  pub op : Text
  pub key : Text
  pub claims : C
  pub args : Option Row

-- Mutation.Arg: nil where the argument, or the map, is missing.
unfoldable pub arg : {C : Type 0} → Text → Mutation C → Option Value
unfolding column
arg name m = column name m.args

-- Mutation.Args
unfoldable pub args_copy : {C : Type 0} → Mutation C → Option Row
unfolding clone_row
args_copy m = clone_row m.args

pub data Error : Type 0 where
  op_required key_required : Error
  nil_pool nil_handler : Error
  begin_failed insert_key_failed commit_failed : Error
  handler_failed : HostError → Error

unfoldable pub new_mutation :
    {C : Type 0} → Text → Text → C → Option Row → Result Error (Mutation C)
new_mutation op key claims args =
    if op =t []
    then err op_required
    else if key =t []
    then err key_required
    else ok (record { op = op; key = key; claims = claims; args = args })

-- The committed state: the table tether.mutation_keys, and what the host's handlers write.
pub record Database (D : Type 0) : Type 0 where
  pub mutation_keys : List Text
  pub rows : D

-- A commit that reports an error may have rolled back or, if only the answer was lost, not.
pub data Commit : Type 0 where
  committed rolled_back answer_lost : Commit

-- How the database answers one call: whether BEGIN succeeds, whether the insert of the key fails
-- for a reason other than the unique index, and what COMMIT does.
pub record Weather : Type 0 where
  pub begins : Bool
  pub inserts : Bool
  pub commit : Commit

-- Result
pub record Applied : Type 0 where
  pub duplicate : Bool
  pub rejected : Bool
  pub reason : Text

unfoldable pub contains : Text → List Text → Bool
contains k [] = false
contains k (j ∷ ks) = j =t k || contains k ks

-- A handler works on the rows of the open transaction.
abbrev pub Handler : Type 0 → Type 0 → Type 0
Handler C D = Text → Text → C → Option Row → D → D × Option HostError

-- COMMIT of the transaction's state, over the state at BEGIN.
unfoldable pub finish :
    {D : Type 0} → Commit → Database D → Database D → Database D × Result Error Applied
finish committed before tx = (tx, ok (record { duplicate = false; rejected = false; reason = [] }))
finish rolled_back before tx = (before, err commit_failed)
finish answer_lost before tx = (tx, err commit_failed)

-- The answer to an error of the handler; the caller may pass no IsReject or no RejectReason.
unfoldable pub refuse :
    Option (HostError → Bool) → Option (HostError → Text) → HostError → Result Error Applied
refuse none reason e = err (handler_failed e)
refuse (some test) reason e =
    if test e
    then ok (record {
      duplicate = false;
      rejected = true;
      reason = elim reason [ none ↦ [] | some f ↦ f e ];
    })
    else err (handler_failed e)

-- One call of Apply: its arguments, and how the database answers.
pub record Call (C D : Type 0) : Type 0 where
  pub has_pool : Bool
  pub key : Text
  pub op : Text
  pub claims : C
  pub args : Option Row
  pub handler : Option (Handler C D)
  pub is_reject_fn : Option (HostError → Bool)
  pub reason_fn : Option (HostError → Text)
  pub weather : Weather

-- The handler's part of the transaction: its error rolls back, else the transaction commits.
unfoldable pub run_handler :
    {C D : Type 0} → Handler C D → Call C D → Database D → Database D × Result Error Applied
unfolding finish refuse
run_handler handler c db =
    let (rows', e) = handler c.op c.key c.claims c.args db.rows in
    elim e [
      | some x ↦ (db, refuse c.is_reject_fn c.reason_fn x)
      | none ↦
          finish c.weather.commit db
            (record { mutation_keys = c.key ∷ db.mutation_keys; rows = rows' })
    ]

-- Apply
unfoldable pub apply : {C D : Type 0} → Call C D → Database D → Database D × Result Error Applied
unfolding run_handler contains
apply c db = if not c.has_pool then (db, err nil_pool) else elim c.handler [
  | none ↦ (db, err nil_handler)
  | some handler ↦
      if c.key =t []
      then (db, err key_required)
      else if not c.weather.begins
      then (db, err begin_failed)
      else if not c.weather.inserts
      then (db, err insert_key_failed)
      else if contains c.key db.mutation_keys
      then (db, ok (record { duplicate = true; rejected = false; reason = [] }))
      else run_handler handler c db
]

-- Calls of Apply one after the other: the unique index makes two transactions with one key wait
-- for each other, and others do not meet.
unfoldable pub apply_calls : {C D : Type 0} → List (Call C D) → Database D → Database D
apply_calls [] db = db
apply_calls (c ∷ cs) db = apply_calls cs (apply c db).0
