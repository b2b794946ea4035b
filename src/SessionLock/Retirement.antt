-- ===== src/SessionLock/Retirement.antt =====
-- crates/session-lock/src/runtime.rs: how authentication leaves one output for another. An
-- `Instant` is a number of milliseconds.
use genkan.Prelude.{
  ℕ, suc, ◌+◌, Bool, true, false, ◌&&◌, Option, none, some, List, [], ◌∷◌, Text, leb, if◌then◌else◌,
  position, or_else, get_elem?,
}
use genkan.OutputSelection.{select}

abbrev pub authentication_retirement_timeout : ℕ
authentication_retirement_timeout = 1000

pub data AuthenticationRetirement : Type 0 where
  awaiting_commit awaiting_presentation : ℕ → AuthenticationRetirement

unfoldable pub begin : ℕ → AuthenticationRetirement
begin now = awaiting_commit (now + authentication_retirement_timeout)

unfoldable pub retirement_committed : AuthenticationRetirement → AuthenticationRetirement
retirement_committed (awaiting_commit deadline) = awaiting_presentation deadline
retirement_committed (awaiting_presentation deadline) = awaiting_presentation deadline

unfoldable pub retirement_discarded : AuthenticationRetirement → AuthenticationRetirement
retirement_discarded (awaiting_commit deadline) = awaiting_commit deadline
retirement_discarded (awaiting_presentation deadline) = awaiting_commit deadline

unfoldable pub accepts_presentation : AuthenticationRetirement → Bool
accepts_presentation (awaiting_commit deadline) = false
accepts_presentation (awaiting_presentation deadline) = true

unfoldable pub expired : AuthenticationRetirement → ℕ → Bool
expired (awaiting_commit deadline) now = leb deadline now
expired (awaiting_presentation deadline) now = leb deadline now

-- A surface as the selection sees it.
pub record Candidate : Type 0 where
  pub name : Option Text
  pub configured : Bool
  pub authentication : Bool

-- `enumerate().map(|(index, (name, _, _))| (index, *name))`
pub enumerate_names : ℕ → List Candidate → List (ℕ × Option Text)
enumerate_names i [] = []
enumerate_names i (c ∷ cs) = (i, c.name) ∷ enumerate_names (suc i) cs

-- The same behind `filter(|(_, (_, configured, _))| *configured)`.
pub enumerate_configured : ℕ → List Candidate → List (ℕ × Option Text)
enumerate_configured i [] = []
enumerate_configured i (c ∷ cs) =
    let rest = enumerate_configured (suc i) cs in if c.configured then (i, c.name) ∷ rest else rest

abbrev pub is_configured_at : List Candidate → Option ℕ → Bool
is_configured_at cs none = false
is_configured_at cs (some i) = elim (get_elem? cs i) [ none ↦ false | some c ↦ c.configured ]

pub fallback_index : List Candidate → Option Text → Option ℕ
unfolding enumerate_configured
fallback_index outputs requested =
    or_else (position (λ c. c.configured && c.authentication) outputs)
      (select (enumerate_configured 0 outputs) requested)

unfoldable pub select_authentication_index : List Candidate → Option Text → Option ℕ
unfolding enumerate_names fallback_index
select_authentication_index outputs requested =
    let desired = select (enumerate_names 0 outputs) requested in
    if is_configured_at outputs desired then desired else fallback_index outputs requested
