-- ===== src/History/Events.antt =====
-- The rows of the events: what `add_events` adds, a part of `build_history` of src/bme_core.cpp.
use mathlib.Core.List.{append_assoc}
use bme.Base.{
  ℕ, suc, ◌+◌, ◌-◌, ◌≡◌, ◌^◌, ◌≤◌, ◌<◌, refl, ap, ◌∙◌, ◌⊎◌, inl, inr, true, false, Option, none,
  some, List, [], ◌∷◌, ◌++◌, ltb, max, if◌then◌else◌, length, get_elem?, All, All-append, All-map,
  Any, Any-append-left, Any-append-right, arith, Bool-cases,
}
use bme.Base.Words.{u64}
use bme.Trace.{
  ExecutionEventKind, completed, event_faulted, Trace, ExecutionEvent, DisasmSyntax, DisasmBackend,
}
use bme.Disasm.{Decoders}
use bme.History.{
  HistoryRow, HistoryRowKind, reached, faulted, Rows, event_row_kind, base, code_end, in_range,
  disasm_at, event_row, fill_before, add_events,
}
use bme.History.Gaps.{
  Covers, IsInside, IsStatic, IsInEvent, IsFilled, disasm_at-IsInside, disasm_at-fresh,
  fill_gap_done, fill_gap_lem,
}

-- The row of an event is reached if the event completed, and faulted if it faulted.
abbrev pub IsOutcome : ExecutionEventKind → HistoryRowKind → Type 0
IsOutcome completed kind = kind ≡ reached
IsOutcome event_faulted kind = kind ≡ faulted

event_row_kind-IsOutcome : (kind : ExecutionEventKind) → IsOutcome kind (event_row_kind kind)
unfolding event_row_kind
event_row_kind-IsOutcome completed = refl
event_row_kind-IsOutcome event_faulted = refl

-- The event indices of the rows that have one, in the rows' order.
abbrev pub row_indices : List HistoryRow → List ℕ
row_indices [] = []
row_indices (row ∷ rows) = elim row.execution_event_index [
  | none ↦ row_indices rows
  | some i ↦ i ∷ row_indices rows
]

module _ (low high : ℕ) where
  -- The indices, counted from `index`, of the events whose address is in range.
  abbrev pub event_indices : ℕ → List ExecutionEvent → List ℕ
  event_indices index [] = []
  event_indices index (event ∷ events) =
      if in_range low high event.rip
      then index ∷ event_indices (index + 1) events
      else event_indices (index + 1) events

some_injective : {a b : List HistoryRow} → ◌≡◌ {A = Rows} (some a) (some b) → a ≡ b
some_injective e = cc

row_indices-append :
    (rows others : List HistoryRow)
    → row_indices (rows ++ others) ≡ row_indices rows ++ row_indices others
row_indices-append [] others = refl
row_indices-append (row ∷ rows) others = ground (arith, row_indices-append rows others)

module _ (ds : Decoders) (trace : Trace) (backend : DisasmBackend) (syntax : DisasmSyntax) where
  abbrev pub IsIndexed : Option ℕ → HistoryRow → Type 0
  IsIndexed none row = IsStatic ds trace backend syntax row
  IsIndexed (some i) row =
      (event : ExecutionEvent) × (get_elem? trace.execution_events i ≡ some event)
      × (row.rip ≡ event.rip)
      × IsOutcome event.kind row.kind

  -- A row of no event, or the row of the event that its index names.
  abbrev pub IsRow : HistoryRow → Type 0
  IsRow row = IsIndexed row.execution_event_index row

  -- The row has the address and the length of the instruction at an address.
  abbrev pub IsDecodeAt : ℕ → HistoryRow → Type 0
  IsDecodeAt a row = (row.rip ≡ a) × (row.length ≡ (disasm_at ds trace backend syntax a).length)

  -- An event in range has a row.
  abbrev pub IsListed : List HistoryRow → ExecutionEvent → Type 0
  IsListed rows event =
      in_range (base ds trace backend syntax) (code_end ds trace backend syntax) event.rip ≡ true
      → Any (IsDecodeAt event.rip) rows

  static-row_indices :
      (rows : List HistoryRow) → All (IsStatic ds trace backend syntax) rows → row_indices rows ≡ []
  static-row_indices [] h = refl
  static-row_indices (row ∷ rows) h = rw (h.0.no_index) (static-row_indices rows h.1)

  static-IsIndexed :
      (o : Option ℕ) (row : HistoryRow)
      → o ≡ none
      → IsStatic ds trace backend syntax row
      → IsIndexed o row
  static-IsIndexed none row e h = h
  static-IsIndexed (some i) row e h = cc

  static-IsRow :
      (rows : List HistoryRow) → All (IsStatic ds trace backend syntax) rows → All IsRow rows
  static-IsRow [] h = tt
  static-IsRow (row ∷ rows) h =
      (static-IsIndexed row.execution_event_index row h.0.no_index h.0, static-IsRow rows h.1)

  -- What the loop adds to `result` from the event with the index `index` on.
  pub record IsExtended (index : ℕ) (events : List ExecutionEvent) (linear : ℕ)
      (result : List HistoryRow) (out : Rows) : Type 0 where
    pub new : List HistoryRow
    pub added : out ≡ some (result ++ new)
    pub all_inside : All (IsInside ds trace backend syntax) new
    pub all_rows : All IsRow new
    pub in_order :
        row_indices new
        ≡ event_indices
            (base ds trace backend syntax)
            (code_end ds trace backend syntax)
            index
            events
    pub covered :
        (a : ℕ)
        → linear ≤ a
        → a < code_end ds trace backend syntax
        → Any (Covers a) new ⊎ IsInEvent ds trace backend syntax a
    pub events_listed : All (IsListed new) events

  module _ (code_fits : base ds trace backend syntax + length trace.code < 2 ^ 64) where
    code_end_eq :
        code_end ds trace backend syntax ≡ base ds trace backend syntax + length trace.code
    code_end_eq = omega arith

    fill_before_lem :
        (linear rip : ℕ) (result : List HistoryRow)
        → base ds trace backend syntax ≤ linear
        → rip ≤ base ds trace backend syntax + length trace.code
        → IsFilled ds trace backend syntax linear rip result
            (fill_before ds trace backend syntax linear rip result)
    unfolding fill_before
    fill_before_lem linear rip result low high = elim (Bool-cases (ltb linear rip)) [
      | inl ahead ↦ rw (ahead) (
          fill_gap_lem ds trace backend syntax code_fits (rip - linear) linear rip result low high
            (ground arith))
      | inr behind ↦
          rw (behind)
            (fill_gap_done ds trace backend syntax code_fits linear rip result (ground arith))
    ]

    event_row-IsInside :
        (index : ℕ) (event : ExecutionEvent)
        → in_range (base ds trace backend syntax) (code_end ds trace backend syntax) event.rip
          ≡ true
        → IsInside ds trace backend syntax (event_row ds trace backend syntax index event)
    unfolding event_row
    event_row-IsInside index event inside =
        let e = code_end_eq in
        disasm_at-IsInside ds trace backend syntax code_fits event.rip (ground arith) (ground arith)

    event_row-within :
        (index : ℕ) (event : ExecutionEvent)
        → in_range (base ds trace backend syntax) (code_end ds trace backend syntax) event.rip
          ≡ true
        → event.rip + (event_row ds trace backend syntax index event).length
          ≤ code_end ds trace backend syntax
    unfolding event_row
    event_row-within index event inside =
        let (rip_e, offset_e, kind_e, index_e) =
          disasm_at-fresh ds trace backend syntax code_fits event.rip in
        let (at, some_bytes, in_code) = event_row-IsInside index event inside in
        let e = code_end_eq in omega arith

    -- One event in range, between the gap before it and the rest of the loop.
    IsExtended-event :
        (index : ℕ) (event : ExecutionEvent) (events : List ExecutionEvent) (linear : ℕ)
        (result filled : List HistoryRow) (out : Rows)
        → get_elem? trace.execution_events index ≡ some event
        → in_range (base ds trace backend syntax) (code_end ds trace backend syntax) event.rip
          ≡ true
        → (before : IsFilled ds trace backend syntax linear event.rip result (some filled))
        → IsExtended
            (index + 1)
            events
            (max linear (u64 (event.rip + (event_row ds trace backend syntax index event).length)))
            (filled ++ event_row ds trace backend syntax index event ∷ [])
            out
        → IsExtended index (event ∷ events) linear result out
    unfolding event_row
    IsExtended-event index event events linear result filled out found inside before rest =
        let row = event_row ds trace backend syntax index event in
        let (rip_e, offset_e, kind_e, index_e) =
          disasm_at-fresh ds trace backend syntax code_fits event.rip in
        let (at, some_bytes, in_code) = event_row-IsInside index event inside in
        let end_e = code_end_eq in
        let filled_e : filled ≡ result ++ before.new = some_injective before.added in
        record {
          new = before.new ++ row ∷ rest.new;
          added =
              rest.added
              ∙ ap (λ rows. some (rows ++ row ∷ [] ++ rest.new)) filled_e
              ∙ ap some (
                  append_assoc (result ++ before.new) (row ∷ []) rest.new
                  ∙ append_assoc result before.new (row ∷ rest.new));
          all_inside =
              All-append (IsInside ds trace backend syntax) before.new (row ∷ rest.new)
                before.all_inside (event_row-IsInside index event inside, rest.all_inside);
          all_rows =
              All-append IsRow before.new (row ∷ rest.new)
                (static-IsRow before.new before.all_static)
                ((event, found, rip_e, event_row_kind-IsOutcome event.kind), rest.all_rows);
          in_order =
              row_indices-append before.new (row ∷ rest.new)
              ∙ rw (static-row_indices before.new before.all_static, inside, rest.in_order) refl;
          covered = λ a low high. elim (Bool-cases (ltb a event.rip)) [
            | inl earlier ↦ elim (before.covered a low (ground arith)) [
              | inl by_row ↦ inl (Any-append-left (Covers a) before.new (row ∷ rest.new) by_row)
              | inr by_event ↦ inr by_event
            ]
            | inr not_earlier ↦ elim (Bool-cases (ltb a (event.rip + row.length))) [
              | inl here ↦ inl (
                  Any-append-right (Covers a) before.new (row ∷ rest.new)
                    (inl (ground arith, ground arith)))
              | inr later ↦ elim (rest.covered a (ground arith) high) [
                | inl by_row ↦
                    inl (Any-append-right (Covers a) before.new (row ∷ rest.new) (inr by_row))
                | inr by_event ↦ inr by_event
              ]
            ]
          ];
          events_listed = (
            λ in_code.
                Any-append-right (IsDecodeAt event.rip) before.new (row ∷ rest.new)
                  (inl (rip_e, refl)),
            All-map (IsListed rest.new) (IsListed (before.new ++ row ∷ rest.new))
                (λ other listed in_code.
                  Any-append-right (IsDecodeAt other.rip) before.new (row ∷ rest.new)
                    (inr (listed in_code)))
                events rest.events_listed,
          );
        }

    -- An event out of range adds nothing.
    IsExtended-outside :
        (index : ℕ) (event : ExecutionEvent) (events : List ExecutionEvent) (linear : ℕ)
        (result : List HistoryRow) (out : Rows)
        → in_range (base ds trace backend syntax) (code_end ds trace backend syntax) event.rip
          ≡ false
        → IsExtended (index + 1) events linear result out
        → IsExtended index (event ∷ events) linear result out
    IsExtended-outside index event events linear result out outside rest = record {
      new = rest.new;
      added = rest.added;
      all_inside = rest.all_inside;
      all_rows = rest.all_rows;
      in_order = rw (outside) rest.in_order;
      covered = rest.covered;
      events_listed = (λ inside. cc, rest.events_listed);
    }

    pub add_events_lem :
        (index : ℕ) (events : List ExecutionEvent) (linear : ℕ) (result : List HistoryRow)
        → base ds trace backend syntax ≤ linear
        → linear ≤ code_end ds trace backend syntax
        → ((j : ℕ) → get_elem? trace.execution_events (index + j) ≡ get_elem? events j)
        → IsExtended index events linear result
            (add_events ds trace backend syntax index events linear result)
    unfolding add_events
    add_events_lem index [] linear result low high same =
        let end_e = code_end_eq in
        let gap =
          fill_gap_lem ds trace backend syntax code_fits (code_end ds trace backend syntax - linear)
            linear (code_end ds trace backend syntax) result low (omega arith) (omega arith) in
        record {
          new = gap.new;
          added = gap.added;
          all_inside = gap.all_inside;
          all_rows = static-IsRow gap.new gap.all_static;
          in_order = static-row_indices gap.new gap.all_static;
          covered = gap.covered;
          events_listed = tt;
        }
    add_events_lem index (event ∷ events) linear result low high same =
        let later : (j : ℕ)
            → get_elem? trace.execution_events (index + 1 + j) ≡ get_elem? events j =
          λ j. ap (get_elem? trace.execution_events) (omega arith) ∙ same (suc j) in
        let end_e = code_end_eq in
        elim (Bool-cases
          (in_range (base ds trace backend syntax) (code_end ds trace backend syntax) event.rip)) [
            | inr outside ↦
                rw (add_events, outside)
                  (IsExtended-outside index event events linear result
                    (add_events ds trace backend syntax (index + 1) events linear result) outside
                    (add_events_lem (index + 1) events linear result low high later))
            | inl inside ↦
                let before = fill_before_lem linear event.rip result low (ground arith) in
                let filled = result ++ before.new in
                let row = event_row ds trace backend syntax index event in
                let next = max linear (u64 (event.rip + row.length)) in
                let within = event_row-within index event inside in
                rw (add_events, inside, before.added)
                  (IsExtended-event index event events linear result filled
                    (add_events ds trace backend syntax (index + 1) events next
                      (filled ++ row ∷ []))
                    (ap (get_elem? trace.execution_events) (omega arith) ∙ same 0) inside
                    (record {
                      new = before.new;
                      added = refl;
                      all_inside = before.all_inside;
                      all_static = before.all_static;
                      covered = before.covered;
                    })
                    (add_events_lem (index + 1) events next (filled ++ row ∷ []) (omega arith)
                      (omega arith) later))
          ]
