-- ===== src/Windows/Run.antt =====
-- `run_platform_steps` of src/os.windows.cpp: the areas, the suspended thread with its context, the
-- run, and what is given back on every path.
use bme.Base.{
  ℕ, suc, ◌+◌, ◌*◌, Bool, true, false, Option, none, some, List, [], ◌∷◌, ◌++◌, ◌==◌, if◌then◌else◌,
  map, length, replicate, set,
}
use bme.Base.Words.{u64}
use bme.Calls.{pure, ◌>>=◌, ◌>>◌}
use bme.Text.{Text, codes}
use bme.Seed.Compose.{Registers}
use bme.Trace.{Outcome, finished, faulted, stopped, no_access}
use bme.Platform.{
  no_registers, PlatformStep, PlatformRunRequest, PlatformRunResult, PageSizes,
  prepare_platform_run, scratch_reserve_base, scratch_stack_bytes, scratch_data_bytes,
}
use bme.Linux.{UserFpRegs, ChildReady, no_error}
use bme.Linux.State.{
  mxcsr_unsupported, record_st, write_st, tag_st, child_rflags, child_regs, effective_pointer,
}
use bme.Linux.Steps.{completed_step, failed_result, step_cap}
use bme.Linux.Run.{stops_at_start}
use bme.Linux.Worker.{round_up, place_code, place_rsp}
use bme.Windows.{Context, VehEngine, RawStep, context_fpu, trap, exception_name}
use bme.Windows.Thread.{
  virtual_reserve, virtual_reserve_at, virtual_commit, virtual_protect, virtual_free,
  flush_instruction_cache, create_thread, get_thread_id, get_thread_context, set_thread_context,
  resume_thread, wait_for_thread, terminate_thread, close_handle, add_handler, remove_handler,
  WinSystem, World, W, win_ask, win_tell, set_engine, with_engine, run_thread,
}

abbrev pub no_context : Context
no_context = record {
  regs = record {
    rax = 0;
    rbx = 0;
    rcx = 0;
    rdx = 0;
    rsi = 0;
    rdi = 0;
    rbp = 0;
    rsp = 0;
    r8 = 0;
    r9 = 0;
    r10 = 0;
    r11 = 0;
    r12 = 0;
    r13 = 0;
    r14 = 0;
    r15 = 0;
    rip = 0;
    eflags = 0;
  };
  flt_save = record {
    cwd = 0;
    swd = 0;
    ftw = 0;
    mxcsr = 0;
    mxcr_mask = 0;
    st_space = replicate 8 (replicate 16 0);
    xmm_space = replicate 16 (0, 0);
  };
  mx_csr = 0;
}

-- Where the areas put the code, the stack and the data.
abbrev pub Placed : Type 0
Placed = ChildReady

unfoldable pub placed : (code : List ℕ) → (page_size buffer stack data_at : ℕ) → Placed
placed code page_size buffer stack data_at = record {
  code_base = place_code buffer (round_up page_size (length code)) (length code);
  initial_rsp = place_rsp stack page_size;
  data_base = u64 (data_at + page_size);
  error = no_error;
}

abbrev target_in : Option ℕ → ℕ → ℕ
target_in none base = 0
target_in (some offset) base = u64 (base + offset)

abbrev has_stop : Option ℕ → Bool
has_stop none = false
has_stop (some offset) = true

unfoldable pub new_engine : PlatformRunRequest → Placed → VehEngine
new_engine request ready = record {
  base = ready.code_base;
  code_length = length request.code;
  max_steps = step_cap request;
  target_at = target_in request.stop_offset ready.code_base;
  has_target = has_stop request.stop_offset;
  thread_id = 0;
  previous_rip = ready.code_base;
  saved_context = no_context;
  active = false;
  raw_steps = [];
  outcome = finished;
  fault_code = 0;
  fault_address = 0;
  fault_memory_address = none;
  fault_access = no_access;
  fault_registers = no_registers;
  stopped_at_target = false;
}

-- `result.seed` before the thread is made: the registers that the run replaces.
unfoldable pub placed_seed : PlatformRunRequest → Placed → Registers
placed_seed request ready = record request.seed {
  gpr =
      set (set (set request.seed.gpr 7 ready.initial_rsp) 5 (effective_pointer request ready 5)) 4
        (effective_pointer request ready 4);
  rip = ready.code_base;
  rflags = child_rflags request.seed.rflags;
}

-- The thread's context with the controls of the seed, and an empty x87 stack.
unfoldable pub seed_context_controls : Registers → Context → Context
seed_context_controls seed context = record context {
  flt_save = record context.flt_save {
    cwd = seed.fpu_control_word;
    swd = 0;
    ftw = 0;
    mxcsr = seed.mxcsr;
  };
  mx_csr = seed.mxcsr;
}

-- `result.seed` as the run records it.
unfoldable pub recorded_context : PlatformRunRequest → Placed → Context → Registers
recorded_context request ready context =
    let seed = request.seed in
    let result_seed =
      context_fpu (seed_context_controls seed context) (placed_seed request ready) in
    record result_seed {
      xmm = seed.xmm;
      st = record_st 0 seed.fpu_tag_word_abridged seed.st result_seed.st;
      fpu_tag_word_abridged = tag_st 0 seed.fpu_tag_word_abridged seed.st 0;
    }

-- The floating-point state that the thread is given.
unfoldable pub seeded_flt_save : Registers → UserFpRegs → UserFpRegs
seeded_flt_save seed controls = record controls {
  xmm_space = seed.xmm;
  st_space = write_st 0 seed.fpu_tag_word_abridged seed.st controls.st_space;
  ftw = tag_st 0 seed.fpu_tag_word_abridged seed.st controls.ftw;
}

-- The context that the thread is given, trapped at its first instruction.
unfoldable pub seeded_context : PlatformRunRequest → Placed → Context → Context
seeded_context request ready context =
    let controls = seed_context_controls request.seed context in
    trap (record controls {
      regs = child_regs request ready;
      flt_save = seeded_flt_save request.seed controls.flt_save;
    })

abbrev pub raw_step_of : RawStep → PlatformStep
raw_step_of raw = completed_step raw.rip raw.registers

abbrev pub fault_step_of : VehEngine → PlatformStep
fault_step_of engine = record {
  rip = engine.fault_address;
  registers = engine.fault_registers;
  is_fault = true;
}

abbrev pub is_faulted : Outcome → Bool
is_faulted faulted = true
is_faulted _ = false

unfoldable pub engine_steps : VehEngine → List PlatformStep
engine_steps engine =
    map raw_step_of engine.raw_steps
    ++ (if is_faulted engine.outcome then fault_step_of engine ∷ [] else [])

-- The result of a run that the engine has recorded.
unfoldable pub engine_result : PlatformRunResult → VehEngine → PlatformRunResult
engine_result result engine = record result {
  steps = engine_steps engine;
  outcome = engine.outcome;
  stop_address = engine.fault_address;
  fault_memory_address = engine.fault_memory_address;
  fault_access = engine.fault_access;
  stopped_at_target = engine.stopped_at_target;
  fault_name =
      if is_faulted engine.outcome then exception_name engine.fault_code else result.fault_name;
}

-- `vm_free` of an area, where there is one.
unfoldable pub free_area : Option ℕ → W (Unit {0})
free_area none = pure tt
free_area (some address) = win_tell (virtual_free address)

unfoldable pub release_regions : (buffer stack data_at : Option ℕ) → W (Unit {0})
release_regions buffer stack data_at = free_area buffer >> free_area stack >> free_area data_at

unfoldable pub fail_areas :
    (buffer stack data_at : Option ℕ) → PlatformRunResult → Text → W PlatformRunResult
fail_areas buffer stack data_at result text =
    release_regions buffer stack data_at >> pure (failed_result result text)

abbrev pub after_run : World → Option (Option VehEngine) → Option (Unit {0} × World)
after_run world none = none
after_run world (some engine) = some (tt, record world { g_engine = engine })

module _ (system : WinSystem) where
  -- A call that is made where those before it succeeded.
  unfoldable pub commit_areas : (page_size code_region buffer stack data_at : ℕ) → W Bool
  commit_areas page_size code_region buffer stack data_at =
      win_ask system.allows (virtual_commit buffer code_region) >>= λ first.
      if first
      then (win_ask system.allows (virtual_commit (stack + page_size) scratch_stack_bytes)
          >>= λ second.
              if second
              then win_ask system.allows (virtual_commit (data_at + page_size) scratch_data_bytes)
              else pure false)
      else pure false

  unfoldable pub end_thread : (thread : ℕ) → W (Unit {0})
  end_thread thread = win_ask system.allows (terminate_thread thread) >>= λ terminated.
      (if terminated then win_tell (wait_for_thread thread) else pure tt)
      >> win_tell (close_handle thread)

  -- With the three areas, and the result so far.
  module _ (request : PlatformRunRequest) (ready : Placed) (buffer stack data_at : ℕ) where
    unfoldable pub release_all : W (Unit {0})
    release_all = release_regions (some buffer) (some stack) (some data_at)

    unfoldable pub fail_thread : (thread : ℕ) → PlatformRunResult → Text → W PlatformRunResult
    fail_thread thread result text =
        end_thread thread >> release_all >> set_engine none >> pure (failed_result result text)

    -- The thread has ended.
    unfoldable pub collect : PlatformRunResult → W PlatformRunResult
    collect result =
        with_engine (λ engine. release_all >> set_engine none >> pure (engine_result result engine))

    abbrev set_active : Bool → W (Unit {0})
    set_active active =
        with_engine (λ engine. set_engine (some (record engine { active = active })))

    -- The thread runs to its end; the wait is answered then.
    unfoldable pub execute_thread : Context → W (Unit {0})
    execute_thread context world = elim world.g_engine [
      | none ↦ none
      | some engine ↦ after_run world (
          run_thread system.raises engine.thread_id (suc engine.max_steps) (context ∷ [])
            (some engine))
    ]

    -- The thread has run.
    unfoldable pub executed_thread : (thread handler : ℕ) → PlatformRunResult → W PlatformRunResult
    executed_thread thread handler result =
        win_ask system.allows (wait_for_thread thread) >>= λ waited.
        set_active false
        >> win_tell (remove_handler handler)
        >> (if waited
            then win_tell (close_handle thread) >> collect result
            else fail_thread thread result (codes "WaitForSingleObject failed."))

    unfoldable pub resumed_thread :
        (thread handler : ℕ) → Context → PlatformRunResult → W PlatformRunResult
    resumed_thread thread handler context result =
        execute_thread context >> executed_thread thread handler result

    unfoldable pub handled_thread :
        (thread : ℕ) → Context → PlatformRunResult → Option ℕ → W PlatformRunResult
    handled_thread thread context result none =
        fail_thread thread result (codes "Failed to install exception handler.")
    handled_thread thread context result (some handler) =
        set_active true >> win_ask system.allows (resume_thread thread) >>= λ done.
        if done
        then resumed_thread thread handler context result
        else set_active false
          >> win_tell (remove_handler handler)
          >> fail_thread thread result (codes "ResumeThread failed.")

    -- With the thread's context set: the stop at the first instruction, or the run.
    unfoldable pub prepared_thread :
        (thread : ℕ) → Context → PlatformRunResult → W PlatformRunResult
    prepared_thread thread context result =
        if stops_at_start request.stop_offset
        then end_thread thread
          >> release_all
          >> set_engine none
          >> pure (record result {
            outcome = stopped;
            stop_address = ready.code_base;
            stopped_at_target = true;
          })
        else win_ask system.handler_reply add_handler >>= λ handler.
            handled_thread thread context result handler

    unfoldable pub context_thread :
        (thread : ℕ) → PlatformRunResult → Option Context → W PlatformRunResult
    context_thread thread result none = fail_thread thread result (codes "GetThreadContext failed.")
    context_thread thread result (some context) =
        with_engine (λ engine. set_engine (some (record engine { saved_context = context })))
        >> (if mxcsr_unsupported request.seed context.flt_save
            then fail_thread thread result
                (codes "MXCSR seed contains bits unsupported by this CPU.")
            else (let result' = record result { seed = recorded_context request ready context } in
                let seeded = seeded_context request ready context in
                win_ask system.allows (set_thread_context thread seeded) >>= λ done.
                if done
                then prepared_thread thread seeded result'
                else fail_thread thread result' (codes "SetThreadContext failed.")))

    unfoldable pub identified_thread : (thread : ℕ) → PlatformRunResult → ℕ → W PlatformRunResult
    identified_thread thread result id =
        with_engine (λ engine. set_engine (some (record engine { thread_id = id })))
        >> (if id == 0
            then fail_thread thread result (codes "GetThreadId failed.")
            else (win_ask system.context_reply (get_thread_context thread) >>= λ context.
                context_thread thread result context))

    unfoldable pub created_thread : PlatformRunResult → Option ℕ → W PlatformRunResult
    created_thread result none =
        set_engine none
        >> fail_areas (some buffer) (some stack) (some data_at) result
            (codes "CreateThread failed.")
    created_thread result (some thread) =
        win_ask system.thread_id_reply (get_thread_id thread) >>= λ id.
        identified_thread thread result id

    -- The code is in place.
    unfoldable pub start_engine : PlatformRunResult → W PlatformRunResult
    start_engine result =
        set_engine (some (new_engine request ready))
        >> win_ask system.thread_reply create_thread
        >>= λ thread. created_thread (record result { seed = placed_seed request ready }) thread

  module _ (request : PlatformRunRequest) (page_size code_region : ℕ) where
    -- The areas were committed, or not.
    unfoldable pub committed_areas :
        (buffer stack data_at : ℕ) → PlatformRunResult → Bool → W PlatformRunResult
    committed_areas buffer stack data_at result committed =
        let fail = fail_areas (some buffer) (some stack) (some data_at) result in
        let ready = placed request.code page_size buffer stack data_at in
        if committed
        then (win_ask system.allows (virtual_protect buffer code_region) >>= λ is_protected.
            if is_protected
            then (win_ask system.allows
                  (flush_instruction_cache ready.code_base (length request.code))
                >>= λ flushed.
                    if flushed
                    then start_engine request ready buffer stack data_at result
                    else fail (codes "FlushInstructionCache failed."))
            else fail (codes "VirtualProtect failed."))
        else fail (codes "VirtualAlloc commit failed.")

    unfoldable pub place_areas :
        (buffer stack data_at : ℕ) → PlatformRunResult → W PlatformRunResult
    place_areas buffer stack data_at result =
        commit_areas page_size code_region buffer stack data_at >>= λ committed.
        committed_areas buffer stack data_at result committed

    unfoldable pub reserved_areas :
        PlatformRunResult → (buffer stack data_at : Option ℕ) → W PlatformRunResult
    reserved_areas result (some buffer) (some stack) (some data_at) =
        place_areas buffer stack data_at result
    reserved_areas result buffer stack data_at =
        fail_areas buffer stack data_at result (codes "VirtualAlloc failed.")

  unfoldable pub run_windows_steps :
      (detected : Bool) → PageSizes → PlatformRunRequest → W PlatformRunResult
  run_windows_steps detected sizes request =
      let (prepared, result) = prepare_platform_run detected request in
      let page_size = sizes.page_size in
      let code_region = round_up page_size (length request.code) in
      if prepared
      then (win_ask system.address_reply (virtual_reserve (code_region + page_size)) >>= λ buffer.
          win_ask system.address_reply (virtual_reserve (scratch_stack_bytes + page_size * 2))
          >>= λ stack.
              win_ask system.address_reply (
                virtual_reserve_at (scratch_reserve_base sizes)
                  (scratch_data_bytes + page_size * 2))
              >>= λ data_at.
                  reserved_areas request page_size code_region result buffer stack data_at)
      else pure result
