-- ===== src/History/Marks.antt =====
-- `event_at` of `build_history` in src/bme_core.cpp is true exactly at the events of the code.
use bme.Base.{
  ℕ, zero, suc, ◌-◌, ◌≡◌, ◌<◌, refl, sym, ap, ◌∙◌, ◌⊎◌, inl, inr, Bool, true, false, List, [], ◌∷◌,
  ◌==◌, length, replicate, set, get_or, get_or-set, length-set, length-replicate, Any, arith,
  Bool-cases,
}
use bme.Trace.{Trace, ExecutionEvent, DisasmSyntax, DisasmBackend}
use bme.Disasm.{Decoders}
use bme.History.{base, code_end, in_range, mark_events, event_at}

get_or-replicate : (n k : ℕ) → get_or (replicate n false) k false ≡ false
get_or-replicate zero k = refl
get_or-replicate (suc n) zero = refl
get_or-replicate (suc n) (suc k) = get_or-replicate n k

get_or-set-same : (xs : List Bool) (i : ℕ) → i < length xs → get_or (set xs i true) i false ≡ true
get_or-set-same [] i h = absurd (omega arith)
get_or-set-same (x ∷ xs) zero h = refl
get_or-set-same (x ∷ xs) (suc i) h = get_or-set-same xs i (omega arith)

set-true :
    (xs : List Bool) (i k : ℕ)
    → get_or (set xs i true) k false ≡ true
    → (i ≡ k) ⊎ (get_or xs k false ≡ true)
set-true xs i k h = elim (Bool-cases (i == k)) [
  | inl same ↦ inl (ground arith)
  | inr other ↦ inr (sym (get_or-set xs i k true false (ground arith)) ∙ h)
]

set-keeps :
    (xs : List Bool) (i k : ℕ)
    → get_or xs k false ≡ true
    → k < length xs
    → get_or (set xs i true) k false ≡ true
set-keeps xs i k h small = elim (Bool-cases (i == k)) [
  | inl same ↦
      let e : i ≡ k = ground arith in
      ap (λ j. get_or (set xs j true) k false) e ∙ get_or-set-same xs k small
  | inr other ↦ get_or-set xs i k true false (ground arith) ∙ h
]

module _ (low high : ℕ) where
  -- The event starts at the offset `k`.
  abbrev pub StartsAt : ℕ → ExecutionEvent → Type 0
  StartsAt k event = (in_range low high event.rip ≡ true) × (event.rip - low ≡ k)

  pub mark_events-Any :
      (events : List ExecutionEvent) (marks : List Bool) (k : ℕ)
      → get_or (mark_events low high events marks) k false ≡ true
      → (get_or marks k false ≡ true) ⊎ Any (StartsAt k) events
  unfolding mark_events
  mark_events-Any [] marks k h = inl h
  mark_events-Any (event ∷ events) marks k h = elim (Bool-cases (in_range low high event.rip)) [
    | inl inside ↦
        elim (mark_events-Any events (set marks (event.rip - low) true) k
          (rw (mark_events, inside) at h)) [
            | inl marked ↦ elim (set-true marks (event.rip - low) k marked) [
              | inl here ↦ inr (inl (inside, here))
              | inr before ↦ inl before
            ]
            | inr later ↦ inr (inr later)
          ]
    | inr outside ↦ elim (mark_events-Any events marks k (rw (mark_events, outside) at h)) [
      | inl marked ↦ inl marked
      | inr later ↦ inr (inr later)
    ]
  ]

  mark_events-keeps :
      (events : List ExecutionEvent) (marks : List Bool) (k : ℕ)
      → get_or marks k false ≡ true
      → k < length marks
      → get_or (mark_events low high events marks) k false ≡ true
  unfolding mark_events
  mark_events-keeps [] marks k h small = h
  mark_events-keeps (event ∷ events) marks k h small =
      elim (Bool-cases (in_range low high event.rip)) [
        | inl inside ↦
            rw (mark_events, inside)
              (mark_events-keeps events (set marks (event.rip - low) true) k
                (set-keeps marks (event.rip - low) k h small)
                (rw (length-set marks (event.rip - low) true) small))
        | inr outside ↦ rw (mark_events, outside) (mark_events-keeps events marks k h small)
      ]

  pub mark_events-marks :
      (events : List ExecutionEvent) (marks : List Bool) (k : ℕ)
      → Any (StartsAt k) events
      → k < length marks
      → get_or (mark_events low high events marks) k false ≡ true
  unfolding mark_events
  mark_events-marks [] marks k h small = absurd h
  mark_events-marks (event ∷ events) marks k (inl (inside, here)) small =
      rw (mark_events, inside, here)
        (mark_events-keeps events (set marks k true) k (get_or-set-same marks k small)
          (rw (length-set marks k true) small))
  mark_events-marks (event ∷ events) marks k (inr later) small =
      elim (Bool-cases (in_range low high event.rip)) [
        | inl inside ↦
            rw (mark_events, inside)
              (mark_events-marks events (set marks (event.rip - low) true) k later
                (rw (length-set marks (event.rip - low) true) small))
        | inr outside ↦ rw (mark_events, outside) (mark_events-marks events marks k later small)
      ]

module _ (ds : Decoders) (trace : Trace) (backend : DisasmBackend) (syntax : DisasmSyntax) where
  pub event_at-Any :
      (a : ℕ)
      → event_at ds trace backend syntax a ≡ true
      → Any
          (StartsAt
            (base ds trace backend syntax)
            (code_end ds trace backend syntax)
            (a - base ds trace backend syntax))
          trace.execution_events
  unfolding event_at
  event_at-Any a h =
      elim (mark_events-Any (base ds trace backend syntax) (code_end ds trace backend syntax)
        trace.execution_events (replicate (length trace.code) false)
        (a - base ds trace backend syntax) h) [
          | inl marked ↦
              absurd (cc (get_or-replicate (length trace.code) (a - base ds trace backend syntax)))
          | inr found ↦ found
        ]

  pub event_at-marks :
      (a : ℕ)
      → a - base ds trace backend syntax < length trace.code
      → Any
          (StartsAt
            (base ds trace backend syntax)
            (code_end ds trace backend syntax)
            (a - base ds trace backend syntax))
          trace.execution_events
      → event_at ds trace backend syntax a ≡ true
  unfolding event_at
  event_at-marks a small h =
      mark_events-marks (base ds trace backend syntax) (code_end ds trace backend syntax)
        trace.execution_events (replicate (length trace.code) false)
        (a - base ds trace backend syntax) h (rw (length-replicate (length trace.code) false) small)
