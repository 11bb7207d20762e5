-- ===== src/Visiond/Cache.antt =====
-- The short-lived cache of the current visitor
-- (apps/door-visiond/src/door_visiond/identity_cache.py). Times are in milliseconds.
use doorboard.Prelude.{ℕ, String, Option, none, some, leb, if◌then◌else◌}

pub record CurrentVisitor : Type 0 where
  pub person_id : String
  pub display_name : String
  pub profile_id : String
  pub expires_at_monotonic_ms : ℕ
  pub expires_at_utc : ℕ

abbrev pub IdentityCache : Type 0
IdentityCache = Option CurrentVisitor

unfoldable pub current : ℕ → IdentityCache → Option CurrentVisitor
current now none = none
current now (some v) = if leb v.expires_at_monotonic_ms now then none else some v

-- The cache that is left, and the visitor that has expired.
unfoldable pub expire_if_due : ℕ → IdentityCache → IdentityCache × Option CurrentVisitor
expire_if_due now none = (none, none)
expire_if_due now (some v) =
    if leb v.expires_at_monotonic_ms now then (none, some v) else (some v, none)

abbrev pub clear : IdentityCache → IdentityCache × Option CurrentVisitor
clear c = (none, c)
