-- ===== src/Linux/Worker.antt =====
-- The worker of src/os.linux.cpp, `child_main`: the memory it lays out and what it reports.
use Prim.Native.Nat.{bit_and}
use bme.Base.{ℕ, ◌+◌, ◌-◌, ◌*◌, Bool, ◌&&◌, Option, some, List, if◌then◌else◌, length}
use bme.Base.Words.{u64, not64}
use bme.Platform.{scratch_stack_bytes, scratch_stack_headroom, scratch_data_bytes}
use bme.Linux.{ChildReady, ChildError, no_error, trace, allocation, commit, protect, signal_setup}

-- The kernel's answers to the worker: `vm_alloc` for the code, the stack and the signal stack,
-- `vm_alloc_at` for the data, each for a size; whether `mprotect` allows a range; and whether
-- tracing and the handler are set up.
pub record WorkerKernel : Type 0 where
  pub traceme : Bool
  pub buffer : ℕ → Option ℕ
  pub stack : ℕ → Option ℕ
  pub data_area : ℕ → ℕ → Option ℕ
  pub signal_stack : ℕ → Option ℕ
  pub commits : ℕ → ℕ → Bool
  pub protects : ℕ → ℕ → Bool
  pub handles : Bool

-- `(size + page_size - 1) & ~(page_size - 1)`
unfoldable pub round_up : (page_size size : ℕ) → ℕ
round_up page_size size = bit_and (u64 (size + page_size - 1)) (not64 (page_size - 1))

abbrev pub failed_ready : ChildError → ChildReady
failed_ready e = record { code_base = 0; initial_rsp = 0; data_base = 0; error = e }

-- Where the code starts: it ends where its region does.
unfoldable pub place_code : (buffer code_region size : ℕ) → ℕ
place_code buffer code_region size = u64 (buffer + code_region - size)

-- The stack pointer, below the headroom and on a multiple of 16.
unfoldable pub place_rsp : (stack page_size : ℕ) → ℕ
place_rsp stack page_size =
    bit_and (u64 (stack + page_size + scratch_stack_bytes - scratch_stack_headroom)) (not64 15)

module _ (kernel : WorkerKernel) (page_size signal_stack_size data_reserve_base : ℕ) where
  unfoldable pub commit_all : (buffer code_region stack data_at signal_stack : ℕ) → Bool
  commit_all buffer code_region stack data_at signal_stack =
      kernel.commits buffer code_region
      && kernel.commits (stack + page_size) scratch_stack_bytes
      && kernel.commits (data_at + page_size) scratch_data_bytes
      && kernel.commits (signal_stack + page_size) signal_stack_size

  -- With the four areas reserved; flushing the instruction cache always succeeds on Linux.
  unfoldable pub child_areas :
      (code : List ℕ)
      → (code_region : ℕ) → (buffer stack data_at signal_stack : Option ℕ) → ChildReady
  child_areas code code_region (some buffer) (some stack) (some data_at) (some signal_stack) =
      if commit_all buffer code_region stack data_at signal_stack
      then (if kernel.protects buffer code_region
          then (if kernel.handles
              then record {
                code_base = place_code buffer code_region (length code);
                initial_rsp = place_rsp stack page_size;
                data_base = u64 (data_at + page_size);
                error = no_error;
              }
              else failed_ready signal_setup)
          else failed_ready protect)
      else failed_ready commit
  child_areas code code_region _ _ _ _ = failed_ready allocation

  unfoldable pub child_main : (code : List ℕ) → ChildReady
  child_main code =
      let code_region = round_up page_size (length code) in
      if kernel.traceme
      then child_areas code code_region (kernel.buffer (code_region + page_size))
          (kernel.stack (scratch_stack_bytes + page_size * 2))
          (kernel.data_area data_reserve_base (scratch_data_bytes + page_size * 2))
          (kernel.signal_stack (signal_stack_size + page_size * 2))
      else failed_ready trace
