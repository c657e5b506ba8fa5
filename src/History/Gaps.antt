-- ===== src/History/Gaps.antt =====
-- The static rows of a gap: what `fill_gap` of src/bme_core.cpp adds.
use mathlib.Core.List.{append-nil, append_assoc}
use bme.Base.{
  ℕ, zero, suc, ◌+◌, ◌-◌, ◌≡◌, ◌^◌, ◌%◌, ◌≤◌, ◌<◌, refl, sym, ap, ◌∙◌, ◌⊎◌, inl, inr, true, false,
  none, some, List, [], ◌∷◌, ◌++◌, ltb, ltb-false, ◌==◌, min, length, All, Any, arith, Bool-cases,
}
use bme.Trace.{Trace, DisasmSyntax, DisasmBackend}
use bme.Disasm.{Decoders, valid}
use bme.History.{
  HistoryRow, not_reached, data_bytes, base, event_at, disasm_at, first_event, gap_row, fill_gap,
  Rows,
}

-- The row lists the byte at an address.
abbrev pub Covers : ℕ → HistoryRow → Type 0
Covers a row = (row.rip ≤ a) × (a < row.rip + row.length)

module _ (ds : Decoders) (trace : Trace) (backend : DisasmBackend) (syntax : DisasmSyntax) where
  -- The row is at least one byte of the code, and its address and offset agree.
  abbrev pub IsInside : HistoryRow → Type 0
  IsInside row =
      (row.rip ≡ base ds trace backend syntax + row.offset)
      × (1 ≤ row.length)
      × (row.offset + row.length ≤ length trace.code)

  -- A row of no event: no event starts at any of its bytes.
  pub record IsStatic (row : HistoryRow) : Type 0 where
    pub no_index : row.execution_event_index ≡ none
    pub static_kind : (row.kind ≡ not_reached) ⊎ (row.kind ≡ data_bytes)
    pub no_event : (a : ℕ) → Covers a row → event_at ds trace backend syntax a ≡ false

  -- An event starts at or before the address, and its instruction goes beyond it.
  pub record IsInEvent (a : ℕ) : Type 0 where
    pub start : ℕ
    pub starts : event_at ds trace backend syntax start ≡ true
    pub above_base : base ds trace backend syntax ≤ start
    pub start_le : start ≤ a
    pub below_end : a < start + (disasm_at ds trace backend syntax start).length

  pub record IsGapRow (from to : ℕ) (row : HistoryRow) (next : ℕ) : Type 0 where
    pub starts_at : row.rip ≡ from
    pub ends_at : next ≡ from + row.length
    pub ahead : from < next
    pub within : next ≤ to
    pub inside : IsInside row
    pub within_decode : next ≤ from + (disasm_at ds trace backend syntax from).length
    pub unindexed : row.execution_event_index ≡ none
    pub kind_static : (row.kind ≡ not_reached) ⊎ (row.kind ≡ data_bytes)
    pub no_later_event :
        (a : ℕ) → from + 1 ≤ a → a < next → event_at ds trace backend syntax a ≡ false

  -- The rows that a loop adds to `result` between two addresses.
  pub record IsFilled (from to : ℕ) (result : List HistoryRow) (out : Rows) : Type 0 where
    pub new : List HistoryRow
    pub added : out ≡ some (result ++ new)
    pub all_inside : All IsInside new
    pub all_static : All IsStatic new
    pub covered : (a : ℕ) → from ≤ a → a < to → Any (Covers a) new ⊎ IsInEvent a

  module _ (code_fits : base ds trace backend syntax + length trace.code < 2 ^ 64) where
    pub disasm_at-IsInside :
        (from : ℕ)
        → base ds trace backend syntax ≤ from
        → from < base ds trace backend syntax + length trace.code
        → IsInside (disasm_at ds trace backend syntax from)
    unfolding disasm_at valid
    disasm_at-IsInside from low high = ground arith

    pub disasm_at-fresh :
        (from : ℕ)
        → let row = disasm_at ds trace backend syntax from in
          (row.rip ≡ from)
          × (row.offset ≡ from - base ds trace backend syntax)
          × (row.kind ≡ not_reached)
          × (row.execution_event_index ≡ none)
    unfolding disasm_at
    disasm_at-fresh from = (refl, refl, refl, refl)

    -- A search stops at the boundary or at an event, and passes no event.
    first_event_lem :
        (count address boundary : ℕ)
        → address + count ≡ boundary
        → let found = first_event ds trace backend syntax count address boundary in
          (address ≤ found)
          × (found ≤ boundary)
          × ((a : ℕ) → address ≤ a → a < found → event_at ds trace backend syntax a ≡ false)
    unfolding first_event
    first_event_lem zero address boundary e =
        (omega arith, omega arith, λ a low high. absurd (omega arith))
    first_event_lem (suc count) address boundary e =
        let (low, high, none_between) =
          first_event_lem count (address + 1) boundary (omega arith) in
        elim (Bool-cases (event_at ds trace backend syntax address)) [
          | inl here ↦ rw (here) (omega arith, omega arith, λ a low high. absurd (omega arith))
          | inr not_here ↦ rw (not_here) (
            omega arith,
            high,
            λ a a_low a_high. elim (Bool-cases (a == address)) [
              | inl same ↦ ap (event_at ds trace backend syntax) (ground arith) ∙ not_here
              | inr other ↦ none_between a (ground arith) a_high
            ],
          )
        ]

    gap_row_lem :
        (from to : ℕ)
        → base ds trace backend syntax ≤ from
        → from < to
        → to ≤ base ds trace backend syntax + length trace.code
        → IsGapRow from to
            (gap_row ds trace backend syntax from to).0
            (gap_row ds trace backend syntax from to).1
    unfolding gap_row
    gap_row_lem from to low ahead high =
        let row = disasm_at ds trace backend syntax from in
        let (at_from, some_bytes, in_code) = disasm_at-IsInside from low (omega arith) in
        let (rip_e, offset_e, kind_e, index_e) = disasm_at-fresh from in
        let next : ℕ = (from + row.length) % 2 ^ 64 in
        let no_wrap : next ≡ from + row.length = omega arith in
        let limit : ℕ = min next to in
        let (b_low, b_high, b_none) =
          first_event_lem (limit - (from + 1)) (from + 1) limit (omega arith) in
        let boundary = first_event ds trace backend syntax (limit - (from + 1)) (from + 1) limit in
        elim (Bool-cases (boundary == next)) [
          | inl whole ↦ rw (whole) (record {
            starts_at = rip_e;
            ends_at = no_wrap;
            ahead = omega arith;
            within = ground arith;
            inside = (at_from, some_bytes, in_code);
            within_decode = omega arith;
            unindexed = index_e;
            kind_static = inl kind_e;
            no_later_event = λ a a_low a_high. b_none a a_low (ground arith);
          })
          | inr cut ↦ rw (cut) (record {
            starts_at = rip_e;
            ends_at = omega arith;
            ahead = omega arith;
            within = omega arith;
            inside = (at_from, omega arith, omega arith);
            within_decode = omega arith;
            unindexed = index_e;
            kind_static = inr refl;
            no_later_event = b_none;
          })
        ]

    gap_row-IsStatic :
        (from to : ℕ) (row : HistoryRow) (next : ℕ)
        → IsGapRow from to row next
        → event_at ds trace backend syntax from ≡ false
        → IsStatic row
    gap_row-IsStatic from to row next r free = record {
      no_index = r.unindexed;
      static_kind = r.kind_static;
      no_event = λ a covers. elim (Bool-cases (a == from)) [
        | inl same ↦ ap (event_at ds trace backend syntax) (ground arith) ∙ free
        | inr other ↦
            let starts = r.starts_at in
            let ends = r.ends_at in r.no_later_event a (ground arith) (omega (arith, covers.1))
      ];
    }

    pub fill_gap_done :
        (from to : ℕ) (result : List HistoryRow) → to ≤ from → IsFilled from to result (some result)
    fill_gap_done from to result done = record {
      new = [];
      added = ap some (sym (append-nil result));
      all_inside = tt;
      all_static = tt;
      covered = λ a low high. absurd (omega arith);
    }

    fill_gap_row :
        (from to : ℕ) (result : List HistoryRow) (row : HistoryRow) (next : ℕ) (out : Rows)
        → IsGapRow from to row next
        → event_at ds trace backend syntax from ≡ false
        → IsFilled next to (result ++ row ∷ []) out
        → IsFilled from to result out
    fill_gap_row from to result row next out r free rest = record {
      new = row ∷ rest.new;
      added = rest.added ∙ ap some (append_assoc result (row ∷ []) rest.new);
      all_inside = (r.inside, rest.all_inside);
      all_static = (gap_row-IsStatic from to row next r free, rest.all_static);
      covered = λ a low high. elim (Bool-cases (ltb a next)) [
        | inl here ↦ let starts = r.starts_at in let ends = r.ends_at in inl (inl (ground arith))
        | inr later ↦ elim (rest.covered a (ground arith) high) [
          | inl row_covers ↦ inl (inr row_covers)
          | inr event_covers ↦ inr event_covers
        ]
      ];
    }

    fill_gap_event :
        (from to : ℕ) (result : List HistoryRow) (row : HistoryRow) (next : ℕ) (out : Rows)
        → base ds trace backend syntax ≤ from
        → IsGapRow from to row next
        → event_at ds trace backend syntax from ≡ true
        → IsFilled next to result out
        → IsFilled from to result out
    fill_gap_event from to result row next out above r starts rest = record {
      new = rest.new;
      added = rest.added;
      all_inside = rest.all_inside;
      all_static = rest.all_static;
      covered = λ a low high. elim (Bool-cases (ltb a next)) [
        | inl here ↦
            let decode = r.within_decode in
            inr (record {
              start = from;
              starts = starts;
              above_base = above;
              start_le = low;
              below_end = ground arith;
            })
        | inr later ↦ rest.covered a (ground arith) high
      ];
    }

    pub fill_gap_lem :
        (fuel from to : ℕ) (result : List HistoryRow)
        → base ds trace backend syntax ≤ from
        → to ≤ base ds trace backend syntax + length trace.code
        → to ≤ from + fuel
        → IsFilled from to result (fill_gap ds trace backend syntax fuel from to result)
    unfolding fill_gap
    fill_gap_lem zero from to result low high enough =
        rw (ltb-false from to (omega arith)) (fill_gap_done from to result (omega arith))
    fill_gap_lem (suc fuel) from to result low high enough = elim (Bool-cases (ltb from to)) [
      | inr done ↦ rw (fill_gap, done) (fill_gap_done from to result (ground arith))
      | inl more ↦
          let r = gap_row_lem from to low (ground arith) high in
          let (row, next) = gap_row ds trace backend syntax from to in
          let ahead = r.ahead in
          elim (Bool-cases (event_at ds trace backend syntax from)) [
            | inl event ↦
                rw (fill_gap, more, event)
                  (fill_gap_event from to result row next
                    (fill_gap ds trace backend syntax fuel next to result) low r event
                    (fill_gap_lem fuel next to result (omega arith) high (omega arith)))
            | inr free ↦
                rw (fill_gap, more, free)
                  (fill_gap_row from to result row next
                    (fill_gap ds trace backend syntax fuel next to (result ++ row ∷ [])) r free
                    (fill_gap_lem fuel next to (result ++ row ∷ []) (omega arith) high
                      (omega arith)))
          ]
    ]
