-- ===== src/Linux/Layout.antt =====
-- Where the worker of src/os.linux.cpp puts the code, the stack pointer and the data.
use bme.Base.{
  ℕ, ◌+◌, ◌-◌, ◌*◌, ◌%◌, ◌^◌, ◌≤◌, ◌<◌, true, false, Option, none, some, List, ◌≡◌, ◌⊎◌, inl, inr,
  refl, length, if-cases, Bool-cases, arith,
}
use native.Mathlib.Nat.{div-add-mod', mod-lt, one-le-pow}
use bme.Base.Words.{u64}
use bme.Base.Align.{bit_and-not64}
use bme.Platform.{scratch_stack_bytes, scratch_stack_headroom, scratch_data_bytes}
use bme.Linux.{ChildReady, ChildError, no_error, trace, allocation, commit, protect, signal_setup}
use bme.Linux.Worker.{
  WorkerKernel, round_up, failed_ready, place_code, place_rsp, commit_all, child_areas, child_main,
}

-- The code ends where its region does, in its last page if it is not longer than a page; the
-- stack pointer is a multiple of 16 with the headroom above it and the rest of the stack below; and the
-- data starts behind its guard page.
pub record IsLaidOut (page_size : ℕ) (code : List ℕ) (buffer stack data_at : ℕ) (ready : ChildReady)
    : Type 0 where
  pub code_in : buffer ≤ ready.code_base
  pub code_near : ready.code_base < buffer + page_size
  pub code_ends : ready.code_base + length code ≡ buffer + round_up page_size (length code)
  pub rsp_aligned : ready.initial_rsp % 16 ≡ 0
  pub rsp_room :
      ready.initial_rsp + scratch_stack_headroom ≤ stack + page_size + scratch_stack_bytes
  pub rsp_low :
      stack + page_size + scratch_stack_bytes < ready.initial_rsp + scratch_stack_headroom + 16
  pub data_start : ready.data_base ≡ data_at + page_size

-- A size rounded up to pages of a power of two.
pub round_up_lem :
    (k size : ℕ)
    → k ≤ 64
    → 0 < size
    → size + 2 ^ k ≤ 2 ^ 64
    → (size ≤ round_up (2 ^ k) size) × (round_up (2 ^ k) size < size + 2 ^ k)
unfolding round_up
round_up_lem k size small some_size fits =
    let page = one-le-pow k 2 (omega arith) in
    let n = size + 2 ^ k - 1 in
    let low : u64 n ≡ n = omega arith in
    let masked = bit_and-not64 k n small (omega arith) in
    let parts = div-add-mod' n (2 ^ k) in
    let rest = mod-lt n page in
    rw (low, masked) (omega (arith, parts, rest), omega (arith, parts, rest))

place_rsp_lem :
    (stack page_size : ℕ)
    → stack + page_size + scratch_stack_bytes < 2 ^ 64
    → (place_rsp stack page_size % 16 ≡ 0)
      × (place_rsp stack page_size + scratch_stack_headroom
          ≤ stack + page_size + scratch_stack_bytes)
      × (stack + page_size + scratch_stack_bytes
          < place_rsp stack page_size + scratch_stack_headroom + 16)
unfolding place_rsp
place_rsp_lem stack page_size fits =
    let n = stack + page_size + 0x10000 - 0x100 in
    let low : u64 n ≡ n = omega arith in
    let masked = bit_and-not64 4 n (omega arith) (omega arith) in
    rw (low, masked) (omega arith, omega arith, omega arith)

module _ (kernel : WorkerKernel) (page_size signal_stack_size data_reserve_base size : ℕ) where
  -- The kernel's answers to the four reservations.
  abbrev pub Buffer : Option ℕ → Type 0
  Buffer area = kernel.buffer (round_up page_size size + page_size) ≡ area

  abbrev pub Stack : Option ℕ → Type 0
  Stack area = kernel.stack (scratch_stack_bytes + page_size * 2) ≡ area

  abbrev pub DataArea : Option ℕ → Type 0
  DataArea area = kernel.data_area data_reserve_base (scratch_data_bytes + page_size * 2) ≡ area

  abbrev pub SignalStack : Option ℕ → Type 0
  SignalStack area = kernel.signal_stack (signal_stack_size + page_size * 2) ≡ area

  -- The inside of an area that is given cannot be committed.
  abbrev pub Uncommitted : Type 0
  Uncommitted =
      ((at : ℕ) × Buffer (some at) × (kernel.commits at (round_up page_size size) ≡ false))
      ⊎ ((at : ℕ) × Stack (some at) × (kernel.commits (at + page_size) scratch_stack_bytes ≡ false))
      ⊎ ((at : ℕ) × DataArea (some at)
          × (kernel.commits (at + page_size) scratch_data_bytes ≡ false))
      ⊎ ((at : ℕ) × SignalStack (some at)
          × (kernel.commits (at + page_size) signal_stack_size ≡ false))

  -- What an error of the worker says: that something failed.
  abbrev pub Fails : ChildError → Type 0
  Fails trace = kernel.traceme ≡ false
  Fails allocation = Buffer none ⊎ Stack none ⊎ DataArea none ⊎ SignalStack none
  Fails commit = Uncommitted
  Fails protect =
      (at : ℕ) × Buffer (some at) × (kernel.protects at (round_up page_size size) ≡ false)
  Fails signal_setup = kernel.handles ≡ false
  Fails _ = ⊥

-- The worker's report: an error and what failed; or the four areas that it was given, whose
-- insides it may use, and where it put things in them.
pub data Reports (kernel : WorkerKernel) (page_size signal_stack_size data_reserve_base : ℕ)
    (code : List ℕ) : ChildReady → Type 0 where
  refused :
      (e : ChildError)
      → Fails kernel page_size signal_stack_size data_reserve_base (length code) e
      → Reports kernel page_size signal_stack_size data_reserve_base code (failed_ready e)
  placed :
      (buffer stack data_at signal_stack : ℕ) (ready : ChildReady)
      → ready.error ≡ no_error
      → kernel.traceme ≡ true
      → kernel.buffer (round_up page_size (length code) + page_size) ≡ some buffer
      → kernel.stack (scratch_stack_bytes + page_size * 2) ≡ some stack
      → kernel.data_area data_reserve_base (scratch_data_bytes + page_size * 2) ≡ some data_at
      → kernel.signal_stack (signal_stack_size + page_size * 2) ≡ some signal_stack
      → kernel.commits buffer (round_up page_size (length code)) ≡ true
      → kernel.commits (stack + page_size) scratch_stack_bytes ≡ true
      → kernel.commits (data_at + page_size) scratch_data_bytes ≡ true
      → kernel.commits (signal_stack + page_size) signal_stack_size ≡ true
      → kernel.protects buffer (round_up page_size (length code)) ≡ true
      → kernel.handles ≡ true
      → IsLaidOut page_size code buffer stack data_at ready
      → Reports kernel page_size signal_stack_size data_reserve_base code ready

-- An area that is given ends in the address space.
abbrev pub Fits : Option ℕ → ℕ → Type 0
Fits none size = Unit {0}
Fits (some base) size = base + size < 2 ^ 64

module _ (kernel : WorkerKernel) (k signal_stack_size data_reserve_base : ℕ) (code : List ℕ)
    (small : k ≤ 63) (some_code : 0 < length code) (code_fits : length code + 2 ^ k ≤ 2 ^ 64) where
  laid_out :
      (buffer stack data_at : ℕ)
      → buffer + (round_up (2 ^ k) (length code) + 2 ^ k) < 2 ^ 64
      → stack + (scratch_stack_bytes + 2 ^ k * 2) < 2 ^ 64
      → data_at + (scratch_data_bytes + 2 ^ k * 2) < 2 ^ 64
      → IsLaidOut (2 ^ k) code buffer stack data_at (record {
        code_base = place_code buffer (round_up (2 ^ k) (length code)) (length code);
        initial_rsp = place_rsp stack (2 ^ k);
        data_base = u64 (data_at + 2 ^ k);
        error = no_error;
      })
  unfolding place_code
  laid_out buffer stack data_at buffer_fits stack_fits data_fits =
      let rounded = round_up_lem k (length code) (omega arith) some_code code_fits in
      let region = round_up (2 ^ k) (length code) in
      let base : u64 (buffer + region - length code) ≡ buffer + region - length code =
        omega (arith, rounded.0) in
      let rsp = place_rsp_lem stack (2 ^ k) (omega arith) in
      record {
        code_in = omega (arith, base, rounded.0);
        code_near = omega (arith, base, rounded.1);
        code_ends = omega (arith, base, rounded.0);
        rsp_aligned = rsp.0;
        rsp_room = rsp.1;
        rsp_low = rsp.2;
        data_start = omega arith;
      }

  abbrev Reported : ChildReady → Type 0
  Reported = Reports kernel (2 ^ k) signal_stack_size data_reserve_base code

  abbrev region : ℕ
  region = round_up (2 ^ k) (length code)

  commit_all-Uncommitted :
      (buffer stack data_at signal_stack : ℕ)
      → kernel.buffer (region + 2 ^ k) ≡ some buffer
      → kernel.stack (scratch_stack_bytes + 2 ^ k * 2) ≡ some stack
      → kernel.data_area data_reserve_base (scratch_data_bytes + 2 ^ k * 2) ≡ some data_at
      → kernel.signal_stack (signal_stack_size + 2 ^ k * 2) ≡ some signal_stack
      → commit_all kernel
          (2 ^ k)
          signal_stack_size
          data_reserve_base
          buffer
          region
          stack
          data_at
          signal_stack
        ≡ false
      → Uncommitted kernel (2 ^ k) signal_stack_size data_reserve_base (length code)
  unfolding commit_all
  commit_all-Uncommitted buffer stack data_at signal_stack eb es ed eg fails =
      elim (Bool-cases (kernel.commits buffer region)) [
        | inr b ↦ inl (buffer, eb, b)
        | inl b ↦ elim (Bool-cases (kernel.commits (stack + 2 ^ k) scratch_stack_bytes)) [
          | inr s ↦ inr (inl (stack, es, s))
          | inl s ↦ elim (Bool-cases (kernel.commits (data_at + 2 ^ k) scratch_data_bytes)) [
            | inr d ↦ inr (inr (inl (data_at, ed, d)))
            | inl d ↦ inr (inr (inr (signal_stack, eg, ground arith)))
          ]
        ]
      ]

  areas-Reports :
      (buffer stack data_at signal_stack : Option ℕ)
      → kernel.traceme ≡ true
      → kernel.buffer (region + 2 ^ k) ≡ buffer
      → kernel.stack (scratch_stack_bytes + 2 ^ k * 2) ≡ stack
      → kernel.data_area data_reserve_base (scratch_data_bytes + 2 ^ k * 2) ≡ data_at
      → kernel.signal_stack (signal_stack_size + 2 ^ k * 2) ≡ signal_stack
      → Fits buffer (region + 2 ^ k)
      → Fits stack (scratch_stack_bytes + 2 ^ k * 2)
      → Fits data_at (scratch_data_bytes + 2 ^ k * 2)
      → Reported (
          child_areas kernel
            (2 ^ k)
            signal_stack_size
            data_reserve_base
            code
            region
            buffer
            stack
            data_at
            signal_stack)
  unfolding child_areas commit_all
  areas-Reports none _ _ _ _ eb _ _ _ _ _ _ = refused allocation (inl eb)
  areas-Reports (some _) none _ _ _ _ es _ _ _ _ _ = refused allocation (inr (inl es))
  areas-Reports (some _) (some _) none _ _ _ _ ed _ _ _ _ = refused allocation (inr (inr (inl ed)))
  areas-Reports (some _) (some _) (some _) none _ _ _ _ eg _ _ _ =
      refused allocation (inr (inr (inr eg)))
  areas-Reports (some buffer) (some stack) (some data_at) (some signal_stack) et eb es ed eg fb fs
        fd =
      if-cases Reported
        (commit_all kernel (2 ^ k) signal_stack_size data_reserve_base buffer region stack data_at
          signal_stack)
        _ _
        (λ commits.
          if-cases Reported (kernel.protects buffer region) _ _
            (λ protects.
              if-cases Reported kernel.handles _ _
                (λ handles.
                  placed buffer stack data_at signal_stack _ refl et eb es ed eg (ground arith)
                    (ground arith) (ground arith) (ground arith) protects handles
                    (laid_out buffer stack data_at fb fs fd))
                (λ fails. refused signal_setup fails))
            (λ fails. refused protect (buffer, eb, fails)))
        (λ fails.
          refused commit
            (commit_all-Uncommitted buffer stack data_at signal_stack eb es ed eg fails))

  -- For pages of 2 ^ k bytes, code that is not empty and fits the address space with a page more, and
  -- areas that end in the address space where they are given: the worker reports an error and what it
  -- names failed; or the worker is traced, was given all four areas, could commit the inside of each,
  -- protect the code and set up its handler, and the code ends with its region and starts in its
  -- first page, the stack pointer is a multiple of 16 with the headroom above it and less than 16 bytes
  -- lost, and the data starts behind a page.
  pub child_main-Reports :
      Fits
        (kernel.buffer (round_up (2 ^ k) (length code) + 2 ^ k))
        (round_up (2 ^ k) (length code) + 2 ^ k)
      → Fits (kernel.stack (scratch_stack_bytes + 2 ^ k * 2)) (scratch_stack_bytes + 2 ^ k * 2)
      → Fits
          (kernel.data_area data_reserve_base (scratch_data_bytes + 2 ^ k * 2))
          (scratch_data_bytes + 2 ^ k * 2)
      → Reports kernel
          (2 ^ k)
          signal_stack_size
          data_reserve_base
          code
          (child_main kernel (2 ^ k) signal_stack_size data_reserve_base code)
  unfolding child_main
  child_main-Reports fb fs fd =
      if-cases Reported kernel.traceme _ _
        (λ traced.
          areas-Reports _ _ _ (kernel.signal_stack (signal_stack_size + 2 ^ k * 2)) traced refl refl
            refl refl fb fs fd)
        (λ fails. refused trace fails)
