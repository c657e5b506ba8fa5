-- ===== src/Engine/Events.antt =====
-- The events that `run_engine` of src/bme_core.cpp makes of an engine's steps.
use bme.Base.{
  ℕ, suc, ◌+◌, ◌≤◌, ◌<◌, Bool, true, ◌||◌, Option, List, [], ◌∷◌, ltb, leb, ◌≡◌, refl, map, length,
  All, arith,
}
use bme.Trace.{
  Outcome, error, finished, faulted, stopped, aborted_cap, idle, completed, event_faulted,
  ExecutionEvent,
}
use bme.Platform.{PlatformStep}
use bme.Linux.Traced.{Traced, failed, breakpoint, fault, reached, left_code, capped, more}
use bme.Engine.{step_event, executed_count, next_rip}

-- A completed event starts where the execution stands, and the rest follow from where it goes on. A
-- faulted event is the last, and is recorded where it faulted.
abbrev pub IsExecution : ℕ → List ExecutionEvent → Type 0
IsExecution rip [] = Unit {0}
IsExecution rip (event ∷ events) =
    let rest = IsExecution event.registers.rip events in
    elim event.kind [
      | completed ↦ (event.rip ≡ rip) × rest
      | event_faulted ↦ (event.rip ≡ event.registers.rip) × (events ≡ [])
    ]

abbrev pub IsCompletedIn : (code_base code_end : ℕ) → ExecutionEvent → Type 0
IsCompletedIn code_base code_end event = elim event.kind [
  | completed ↦ (code_base ≤ event.rip) × (event.rip < code_end)
  | event_faulted ↦ Unit {0}
]

-- What an outcome says: of the steps up to the cap, of the completed events among all, and of where
-- the execution went on.
abbrev pub Says : Outcome → (code_base code_end cap executed total next stop : ℕ) → Type 0
Says aborted_cap code_base code_end cap executed total next stop =
    (executed ≡ cap) × (executed ≡ total)
Says finished code_base code_end cap executed total next stop =
    (executed ≡ total) × ((ltb next code_base || leb code_end next) ≡ true)
Says faulted code_base code_end cap executed total next stop =
    (suc executed ≡ total) × (next ≡ stop)
Says stopped code_base code_end cap executed total next stop = (executed ≡ total) × (next ≡ stop)
Says _ code_base code_end cap executed total next stop = Unit {0}

pub Says-counts :
    (code_base code_end cap next stop : ℕ) {executed executed' total total' : ℕ} (outcome : Outcome)
    → executed ≡ executed'
    → total ≡ total'
    → Says outcome code_base code_end cap executed total next stop
    → Says outcome code_base code_end cap executed' total' next stop
Says-counts _ _ _ _ _ aborted_cap e e' says = (omega (arith, says.0), omega (arith, says.1))
Says-counts _ _ _ _ _ finished e e' says = (omega (arith, says.0), says.1)
Says-counts _ _ _ _ _ faulted e e' says = (omega (arith, says.0), says.1)
Says-counts _ _ _ _ _ stopped e e' says = (omega (arith, says.0), says.1)
Says-counts _ _ _ _ _ error e e' says = tt
Says-counts _ _ _ _ _ idle e e' says = tt

module _ {code_base code_end cap : ℕ} {target : Option ℕ} {is_breakpoint : ℕ → Bool} where
  pub Traced-IsExecution :
      {taken rip : ℕ} {steps : List PlatformStep} {outcome : Outcome} {stop : ℕ} {at : Bool}
      → Traced code_base code_end cap target is_breakpoint taken rip steps outcome stop at
      → IsExecution rip (map step_event steps)
  unfolding step_event
  Traced-IsExecution (failed _ _ _) = tt
  Traced-IsExecution (breakpoint _ _ _) = tt
  Traced-IsExecution (fault _ _ _) = (refl, refl)
  Traced-IsExecution (reached _ _ _ _) = (refl, tt)
  Traced-IsExecution (left_code _ _ _ _ _ _) = (refl, tt)
  Traced-IsExecution (capped _ _ _ _ _ _ _) = (refl, tt)
  Traced-IsExecution (more _ _ _ _ _ _ _ _ _ _ rest) = (refl, Traced-IsExecution rest)

  pub Traced-IsCompletedIn :
      {taken rip : ℕ} {steps : List PlatformStep} {outcome : Outcome} {stop : ℕ} {at : Bool}
      → code_base ≤ rip
      → rip < code_end
      → Traced code_base code_end cap target is_breakpoint taken rip steps outcome stop at
      → All (IsCompletedIn code_base code_end) (map step_event steps)
  unfolding step_event
  Traced-IsCompletedIn low high (failed _ _ _) = tt
  Traced-IsCompletedIn low high (breakpoint _ _ _) = tt
  Traced-IsCompletedIn low high (fault _ _ _) = (tt, tt)
  Traced-IsCompletedIn low high (reached _ _ _ _) = ((low, high), tt)
  Traced-IsCompletedIn low high (left_code _ _ _ _ _ _) = ((low, high), tt)
  Traced-IsCompletedIn low high (capped _ _ _ _ _ _ _) = ((low, high), tt)
  Traced-IsCompletedIn low high (more _ _ _ snapshot _ _ _ _ inside _ rest) =
      ((low, high), Traced-IsCompletedIn (ground (arith, inside)) (ground (arith, inside)) rest)

  pub Traced-length :
      {taken rip : ℕ} {steps : List PlatformStep} {outcome : Outcome} {stop : ℕ} {at : Bool}
      → taken < cap
      → Traced code_base code_end cap target is_breakpoint taken rip steps outcome stop at
      → taken + length steps ≤ cap
  Traced-length room (failed _ _ _) = omega arith
  Traced-length room (breakpoint _ _ _) = omega arith
  Traced-length room (fault _ _ _) = omega arith
  Traced-length room (reached _ _ _ _) = omega arith
  Traced-length room (left_code _ _ _ _ _ _) = omega arith
  Traced-length room (capped _ _ _ _ _ _ _) = omega arith
  Traced-length room (more _ _ _ _ _ _ _ _ _ room' rest) = omega (arith, Traced-length room' rest)

  pub Traced-Says :
      {taken rip : ℕ} {steps : List PlatformStep} {outcome : Outcome} {stop : ℕ} {at : Bool}
      → taken < cap
      → Traced code_base code_end cap target is_breakpoint taken rip steps outcome stop at
      → Says outcome code_base code_end cap
          (taken + executed_count (map step_event steps))
          (taken + length steps)
          (next_rip rip (map step_event steps))
          stop
  unfolding step_event executed_count next_rip
  Traced-Says room (failed _ _ _) = tt
  Traced-Says room (breakpoint _ _ _) = (refl, refl)
  Traced-Says room (fault _ _ _) = (omega arith, refl)
  Traced-Says room (reached _ _ _ _) = (refl, refl)
  Traced-Says room (left_code _ _ _ _ _ outside) = (refl, outside)
  Traced-Says room (capped _ _ _ _ _ _ full) = (omega arith, refl)
  Traced-Says {outcome = outcome} room (more _ _ _ _ steps _ _ _ _ room' rest) =
      Says-counts _ _ _ _ _ outcome (omega arith) (omega arith) (Traced-Says room' rest)
