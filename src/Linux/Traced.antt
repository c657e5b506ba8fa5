-- ===== src/Linux/Traced.antt =====
-- What the single-step loop of src/os.linux.cpp promises of the steps it records and how they end.
use bme.Base.{ℕ, suc, ◌≤◌, ◌<◌, Bool, true, false, ◌||◌, Option, List, [], ◌∷◌, ltb, leb, ◌≡◌}
use bme.Seed.Compose.{Registers}
use bme.Trace.{Outcome, error, finished, faulted, stopped, aborted_cap}
use bme.Platform.{PlatformStep}
use bme.Linux.Steps.{at_target, completed_step, faulted_step}

-- A run that has recorded `taken` steps and stands at `rip`: the steps it still records, its
-- outcome, where it stopped and whether that is the target.
pub data Traced (code_base code_end cap : ℕ) (target : Option ℕ) (is_breakpoint : ℕ → Bool)
    : (taken rip : ℕ) → List PlatformStep → Outcome → ℕ → Bool → Type 0 where
  failed :
      (taken rip stop : ℕ)
      → Traced code_base code_end cap target is_breakpoint taken rip [] error stop false
  breakpoint :
      (taken rip : ℕ)
      → is_breakpoint rip ≡ true
      → Traced code_base code_end cap target is_breakpoint taken rip [] stopped rip false
  fault :
      (taken rip : ℕ) (snapshot : Registers)
      → Traced code_base code_end cap target is_breakpoint taken rip
          (faulted_step snapshot ∷ [])
          faulted
          snapshot.rip
          false
  reached :
      (taken rip : ℕ) (snapshot : Registers)
      → at_target target snapshot.rip ≡ true
      → Traced code_base code_end cap target is_breakpoint taken rip
          (completed_step rip snapshot ∷ [])
          stopped
          snapshot.rip
          true
  left_code :
      (taken rip stop : ℕ) (snapshot : Registers)
      → at_target target snapshot.rip ≡ false
      → (ltb snapshot.rip code_base || leb code_end snapshot.rip) ≡ true
      → Traced code_base code_end cap target is_breakpoint taken rip
          (completed_step rip snapshot ∷ [])
          finished
          stop
          false
  capped :
      (taken rip stop : ℕ) (snapshot : Registers)
      → at_target target snapshot.rip ≡ false
      → (ltb snapshot.rip code_base || leb code_end snapshot.rip) ≡ false
      → cap ≤ suc taken
      → Traced code_base code_end cap target is_breakpoint taken rip
          (completed_step rip snapshot ∷ [])
          aborted_cap
          stop
          false
  more :
      (taken rip stop : ℕ) (snapshot : Registers) (steps : List PlatformStep) (outcome : Outcome)
      (reached_target : Bool)
      → at_target target snapshot.rip ≡ false
      → (ltb snapshot.rip code_base || leb code_end snapshot.rip) ≡ false
      → suc taken < cap
      → Traced code_base code_end cap target is_breakpoint
          (suc taken)
          snapshot.rip
          steps
          outcome
          stop
          reached_target
      → Traced code_base code_end cap target is_breakpoint taken rip
          (completed_step rip snapshot ∷ steps)
          outcome
          stop
          reached_target
