-- ===== src/Engine/Session.antt =====
-- The session of engine.go: a connection, the claims of its handshake, and what the client asked
-- for. Each method holds the session's mutex throughout.
use tether.Prelude.{ℕ, Bool, [], none, some, Text, ℤ, pos, Dict, lookup, insert, is_some, ltb}
use tether.Transport.{Conn}

pub record Session (C : Type 0) : Type 0 where
  pub conn : Conn
  pub claims : C
  pub resume : Dict ℤ
  pub shapes : Dict {0} Unit
  pub last_active : ℕ

module _ {C : Type 0} where
  -- touch, at the time `now`
  unfoldable pub touch : ℕ → Session C → Session C
  touch now s = record s { last_active = now }

  unfoldable pub is_idle : ℕ → Session C → Bool
  is_idle cutoff s = ltb s.last_active cutoff

  unfoldable pub set_resume : Dict ℤ → Session C → Session C
  set_resume r s = record s { resume = r }

  -- resumeAt: 0 where the client named no offset.
  unfoldable pub resume_at : Text → Session C → ℤ
  resume_at name s = elim (lookup name s.resume) [ none ↦ pos 0 | some offset ↦ offset ]

  unfoldable pub add_shape : Text → Session C → Session C
  add_shape name s = record s { shapes = insert name tt s.shapes }

  unfoldable pub has_shape : Text → Session C → Bool
  has_shape name s = is_some (lookup name s.shapes)

  unfoldable pub clear_membership : Session C → Session C
  clear_membership s = record s { shapes = []; resume = [] }
