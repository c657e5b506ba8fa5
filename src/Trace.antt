-- ===== src/Trace.antt =====
-- The data of a recorded run: the types of src/bme_core.hpp from `Outcome` to `Trace`.
use bme.Base.{ℕ, Bool, Option, List}
use bme.Text.{Text}
use bme.Seed.Compose.{Registers}

pub data Outcome : Type 0 where
  idle : Outcome
  error : Outcome
  finished : Outcome
  faulted : Outcome
  aborted_cap : Outcome
  stopped : Outcome

pub data FaultAccess : Type 0 where
  no_access : FaultAccess
  read : FaultAccess
  write : FaultAccess
  execute : FaultAccess
  unknown : FaultAccess

pub data DisasmSyntax : Type 0 where
  intel : DisasmSyntax
  att : DisasmSyntax

pub data DisasmBackend : Type 0 where
  zydis : DisasmBackend
  bddisasm : DisasmBackend
  capstone : DisasmBackend
  xed : DisasmBackend

pub data ExecutionEventKind : Type 0 where
  completed : ExecutionEventKind
  event_faulted : ExecutionEventKind

pub record ExecutionEvent : Type 0 where
  pub rip : ℕ
  pub registers : Registers
  pub kind : ExecutionEventKind

-- Without the shared fingerprint of the CPU.
pub record Trace : Type 0 where
  pub code : List ℕ
  pub requested_seed : Registers
  pub requested_backend : DisasmBackend
  pub requested_syntax : DisasmSyntax
  pub effective_max_steps : ℕ
  pub seed_data_pointers : Bool
  pub seed : Registers
  pub execution_events : List ExecutionEvent
  pub outcome : Outcome
  pub message : Text
  pub instrumentation_detected : Bool
  pub stop_reason : Text
  pub stop_address : ℕ
  pub fault_memory_address : Option ℕ
  pub fault_access : FaultAccess
