-- ===== src/History/Coverage.antt =====
-- What `build_history` of src/bme_core.cpp shows of the code and of the events.
use bme.Base.{
  ℕ, ◌+◌, ◌-◌, ◌≡◌, ◌^◌, ◌≤◌, ◌<◌, Bool-cases, refl, sym, ap, inl, inr, true, false, ◌||◌, Option,
  none, some, List, [], ◌∷◌, if◌then◌else◌, length, get_elem?, All, Any, arith,
}
use bme.Text.{is_empty}
use bme.Trace.{Trace, ExecutionEvent, DisasmSyntax, DisasmBackend}
use bme.Disasm.{Decoders}
use bme.History.{HistoryRow, base, code_end, in_range, disasm_at, add_events, build_history}
use bme.History.Gaps.{Covers, IsInside, IsStatic, IsInEvent}
use bme.History.Events.{
  IsOutcome, IsExtended, IsIndexed, IsRow, IsDecodeAt, IsListed, row_indices, event_indices,
  add_events_lem,
}
use bme.History.Marks.{StartsAt, event_at-Any, event_at-marks}

Any-map {ℓ} :
    {A : Type ℓ} (P Q : A → Type 0) → ((a : A) → P a → Q a) → (xs : List A) → Any P xs → Any Q xs
Any-map P Q f [] h = absurd h
Any-map P Q f (x ∷ xs) (inl h) = inl (f x h)
Any-map P Q f (x ∷ xs) (inr h) = inr (Any-map P Q f xs h)

-- What holds of each element holds of all.
All-elements :
    {A : Type 0} {P : A → Type 0} (xs : List A) → ((a : A) → Any (◌≡◌ a) xs → P a) → All P xs
All-elements [] f = tt
All-elements (x ∷ xs) f = (f x (inl refl), All-elements xs (λ a h. f a (inr h)))

-- An element that satisfies `Q`, where all satisfy `P`.
find_both {ℓ} :
    {A : Type ℓ} (P Q : A → Type 0) {R : Type 0}
    → ((a : A) → P a → Q a → R)
    → (xs : List A) → All P xs
    → Any Q xs
    → R
find_both P Q f [] all any = absurd any
find_both P Q f (x ∷ xs) all (inl h) = f x all.0 h
find_both P Q f (x ∷ xs) all (inr h) = find_both P Q f xs all.1 h

module _ (ds : Decoders) (trace : Trace) (backend : DisasmBackend) (syntax : DisasmSyntax) where
  -- A row with an index shows the event of that index: its address, and how it ended. At no byte
  -- of a row without one does an event start.
  abbrev pub ShowsIndexed : Option ℕ → HistoryRow → Type 0
  ShowsIndexed none row = All (λ event. ¬ Covers event.rip row) trace.execution_events
  ShowsIndexed (some i) row =
      (event : ExecutionEvent) × (get_elem? trace.execution_events i ≡ some event)
      × (row.rip ≡ event.rip)
      × IsOutcome event.kind row.kind

  abbrev pub ShowsEvents : HistoryRow → Type 0
  ShowsEvents row = ShowsIndexed row.execution_event_index row

  built :
      (is_empty trace.code || trace.instrumentation_detected) ≡ false
      → build_history ds trace backend syntax
        ≡ add_events ds trace backend syntax 0 trace.execution_events
            (base ds trace backend syntax)
            []
  unfolding build_history
  built runs =
      ap
        (λ stops.
          if stops
          then some []
          else add_events ds trace backend syntax 0 trace.execution_events
              (base ds trace backend syntax) [])
        runs

  module _ (code_fits : base ds trace backend syntax + length trace.code < 2 ^ 64) where
    pub extended :
        (is_empty trace.code || trace.instrumentation_detected) ≡ false
        → IsExtended ds trace backend syntax 0 trace.execution_events
            (base ds trace backend syntax)
            []
            (build_history ds trace backend syntax)
    extended runs = rw (built runs) (
        add_events_lem ds trace backend syntax code_fits 0 trace.execution_events
          (base ds trace backend syntax) [] (omega arith) (omega arith)
          (λ j. ap (get_elem? trace.execution_events) (omega arith)))

    static-shows_none :
        (row : HistoryRow)
        → IsInside ds trace backend syntax row
        → IsStatic ds trace backend syntax row
        → (event : ExecutionEvent) → Any (◌≡◌ event) trace.execution_events
        → ¬ Covers event.rip row
    static-shows_none row inside static event listed covers =
        let (at_offset, some_bytes, in_code) = inside in
        let inside_code : event.rip - base ds trace backend syntax < length trace.code =
          omega (arith, covers.0, covers.1) in
        let end_e : code_end ds trace backend syntax
            ≡ base ds trace backend syntax + length trace.code =
          omega arith in
        let in_code_range : in_range (base ds trace backend syntax)
              (code_end ds trace backend syntax) event.rip
            ≡ true =
          ground (arith, covers.0, covers.1) in
        let marked = event_at-marks ds trace backend syntax event.rip inside_code (
          Any-map (◌≡◌ event)
            (StartsAt (base ds trace backend syntax) (code_end ds trace backend syntax)
              (event.rip - base ds trace backend syntax))
            (λ other same. rw (sym same) (in_code_range, refl)) trace.execution_events listed) in
        cc (static.no_event event.rip covers)

    indexed-ShowsIndexed :
        (o : Option ℕ) (row : HistoryRow)
        → IsInside ds trace backend syntax row
        → IsIndexed ds trace backend syntax o row
        → ShowsIndexed o row
    indexed-ShowsIndexed none row inside static =
        All-elements trace.execution_events (static-shows_none row inside static)
    indexed-ShowsIndexed (some i) row inside shown = shown

    rows-ShowEvents :
        (rows : List HistoryRow)
        → All (IsInside ds trace backend syntax) rows
        → All (IsRow ds trace backend syntax) rows
        → All ShowsEvents rows
    rows-ShowEvents [] inside is_row = tt
    rows-ShowEvents (row ∷ rows) inside is_row = (
      indexed-ShowsIndexed row.execution_event_index row inside.0 is_row.0,
      rows-ShowEvents rows inside.1 is_row.1,
    )

    covered_byte :
        (a : ℕ) (rows : List HistoryRow)
        → All (IsListed ds trace backend syntax rows) trace.execution_events
        → IsInEvent ds trace backend syntax a
        → Any (Covers a) rows
    covered_byte a rows listed event =
        let above = event.above_base in
        let start_le = event.start_le in
        let below = event.below_end in
        find_both (IsListed ds trace backend syntax rows)
          (StartsAt (base ds trace backend syntax) (code_end ds trace backend syntax)
            (event.start - base ds trace backend syntax))
          (λ other listed at_start.
            let same : other.rip ≡ event.start = ground (arith, at_start.0, at_start.1) in
            let length_e = ap (λ x. (disasm_at ds trace backend syntax x).length) same in
            Any-map (IsDecodeAt ds trace backend syntax other.rip) (Covers a)
              (λ row decode. (omega (arith, decode.0), omega (arith, decode.0, decode.1, length_e)))
              rows (listed at_start.0))
          trace.execution_events listed
          (event_at-Any ds trace backend syntax event.start event.starts)

    -- Where the code is not empty, tracing it was not refused for instrumentation, and the code ends
    -- below `2 ^ 64`: the loops finish, whatever the decoders answer; each row is at least one byte
    -- inside the code, at the offset that its address says; and each byte of the code is in a row.
    pub build_history-Covers :
        (is_empty trace.code || trace.instrumentation_detected) ≡ false
        → (a : ℕ) → base ds trace backend syntax ≤ a
        → a < base ds trace backend syntax + length trace.code
        → (rows : List HistoryRow) × (build_history ds trace backend syntax ≡ some rows)
          × All (IsInside ds trace backend syntax) rows
          × Any (Covers a) rows
    build_history-Covers runs a low high =
        let built = extended runs in
        let end_e : code_end ds trace backend syntax
            ≡ base ds trace backend syntax + length trace.code =
          omega arith in
        (
          built.new,
          built.added,
          built.all_inside,
          elim (built.covered a low (omega arith)) [
            | inl by_row ↦ by_row
            | inr by_event ↦ covered_byte a built.new built.events_listed by_event
          ],
        )

    -- Where the code is not empty, tracing it was not refused for instrumentation, and the code ends
    -- below `2 ^ 64`: the history is built, whatever the decoders answer; the rows that name an event
    -- name exactly the events whose address is in the code, each once and in the order of execution,
    -- and show its address and how it ended; and no event starts at any byte of a row that names none.
    pub build_history-ShowsEvents :
        (is_empty trace.code || trace.instrumentation_detected) ≡ false
        → (rows : List HistoryRow) × (build_history ds trace backend syntax ≡ some rows)
          × (row_indices rows
              ≡ event_indices
                  (base ds trace backend syntax)
                  (code_end ds trace backend syntax)
                  0
                  trace.execution_events)
          × All ShowsEvents rows
    build_history-ShowsEvents runs =
        let built = extended runs in
        (
          built.new,
          built.added,
          built.in_order,
          rows-ShowEvents built.new built.all_inside built.all_rows,
        )

    -- The history is built in any case: there are no rows where nothing was traced.
    pub build_history-IsRow :
        (rows : List HistoryRow) × (build_history ds trace backend syntax ≡ some rows)
        × All (IsInside ds trace backend syntax) rows
        × All (IsRow ds trace backend syntax) rows
    unfolding build_history
    build_history-IsRow =
        elim (Bool-cases (is_empty trace.code || trace.instrumentation_detected)) [
          | inl stops ↦ (
            [],
            ap
                (λ stops.
                  if stops
                  then some []
                  else add_events ds trace backend syntax 0 trace.execution_events
                      (base ds trace backend syntax) [])
                stops,
            tt,
            tt,
          )
          | inr runs ↦
              let history = extended runs in
              (history.new, history.added, history.all_inside, history.all_rows)
        ]
