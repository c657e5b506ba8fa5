-- ===== src/Windows/Processes/Walk.antt =====
-- The walk through the list of processes in src/os.windows.cpp, `find_process`.
use bme.Base.{
  if-cases, ℕ, zero, suc, ◌+◌, ◌≤◌, ◌<◌, Bool, true, false, Option, none, some, ◌==◌, ◌≡◌, ◌≢◌,
  arith,
}
use bme.Windows.Processes.{
  process_record_min_bytes, ProcessBuffer, record_fits, goes_on_at, find_process,
}

-- The records of the list from an offset on: each is whole, and the next is behind it.
pub data ListedFrom (buffer : ProcessBuffer) : (start offset : ℕ) → Type 0 where
  here : (start : ℕ) → record_fits buffer start ≡ true → ListedFrom buffer start start
  behind :
      (start offset : ℕ)
      → record_fits buffer start ≡ true
      → goes_on_at buffer start ≡ true
      → ListedFrom buffer (start + buffer.next_entry_offset start) offset
      → ListedFrom buffer start offset

-- What the walk answers: a record of the list with the process, or that no record has it.
pub data Found (buffer : ProcessBuffer) (target start : ℕ) : Option (Option ℕ) → Type 0 where
  at_record :
      (offset : ℕ)
      → ListedFrom buffer start offset
      → buffer.unique_process_id offset ≡ target
      → offset + process_record_min_bytes ≤ buffer.buffer_size
      → Found buffer target start (some (some offset))
  nowhere :
      ((offset : ℕ) → ListedFrom buffer start offset → buffer.unique_process_id offset ≢ target)
      → Found buffer target start (some none)

clash : (b : Bool) → b ≡ false → b ≡ true → ⊥
clash b off on = ground arith

module _ (buffer : ProcessBuffer) (target : ℕ) where
  none_listed :
      (start offset : ℕ) → record_fits buffer start ≡ false → ListedFrom buffer start offset → ⊥
  none_listed start _ off (here _ fits) = clash (record_fits buffer start) off fits
  none_listed start _ off (behind _ _ fits _ _) = clash (record_fits buffer start) off fits

  last_listed :
      (start offset : ℕ)
      → buffer.unique_process_id start ≢ target
      → goes_on_at buffer start ≡ false
      → ListedFrom buffer start offset
      → buffer.unique_process_id offset ≢ target
  last_listed start _ other off (here _ _) = other
  last_listed start _ other off (behind _ _ _ goes _) =
      absurd (clash (goes_on_at buffer start) off goes)

  later_listed :
      (start offset : ℕ)
      → buffer.unique_process_id start ≢ target
      → ((o : ℕ)
          → ListedFrom buffer (start + buffer.next_entry_offset start) o
          → buffer.unique_process_id o ≢ target)
      → ListedFrom buffer start offset
      → buffer.unique_process_id offset ≢ target
  later_listed start _ other rest (here _ _) = other
  later_listed start offset other rest (behind _ _ _ _ listed) = rest offset listed

  -- What is found behind a record is found from it on.
  Found-behind :
      (start : ℕ) (answer : Option (Option ℕ))
      → record_fits buffer start ≡ true
      → goes_on_at buffer start ≡ true
      → buffer.unique_process_id start ≢ target
      → Found buffer target (start + buffer.next_entry_offset start) answer
      → Found buffer target start answer
  Found-behind start _ fits goes other (at_record offset listed same room) =
      at_record offset (behind start offset fits goes listed) same room
  Found-behind start _ fits goes other (nowhere unlisted) =
      nowhere (λ offset listed. later_listed start offset other unlisted listed)

  fits_room :
      (start : ℕ)
      → record_fits buffer start ≡ true
      → start + process_record_min_bytes ≤ buffer.buffer_size
  unfolding record_fits
  fits_room start fits = ground (arith, fits)

  -- The next record is further on, and not behind the end of the buffer.
  goes_ahead :
      (start : ℕ)
      → record_fits buffer start ≡ true
      → goes_on_at buffer start ≡ true
      → (0 < buffer.next_entry_offset start)
        × (start + buffer.next_entry_offset start ≤ buffer.buffer_size)
  unfolding goes_on_at record_fits
  goes_ahead start fits goes = (ground (arith, goes), ground (arith, goes, fits))

  find_process-from :
      (fuel start : ℕ)
      → 0 < fuel
      → buffer.buffer_size < fuel + start
      → Found buffer target start (find_process buffer target fuel start)
  unfolding find_process
  find_process-from zero start positive enough = absurd (omega arith)
  find_process-from (suc fuel) start positive enough =
      if-cases (Found buffer target start) (record_fits buffer start) _ _
        (λ fits.
          if-cases (Found buffer target start) (buffer.unique_process_id start == target) _ _
            (λ same.
              at_record start (here start fits) (ground (arith, same)) (fits_room start fits))
            (λ other.
              let differs : buffer.unique_process_id start ≢ target = ground (arith, other) in
              if-cases (Found buffer target start) (goes_on_at buffer start) _ _
                (λ goes.
                  let (ahead, inside) = goes_ahead start fits goes in
                  Found-behind start _ fits goes differs (
                    find_process-from fuel (start + buffer.next_entry_offset start)
                      (omega (arith, enough, ahead, inside)) (omega (arith, enough, ahead))))
                (λ last. nowhere (λ offset listed. last_listed start offset differs last listed))))
        (λ unfit. nowhere (λ offset listed. absurd (none_listed start offset unfit listed)))

  -- Started at the first record, with one more unit of fuel than the buffer has bytes, the walk
  -- ends. It answers a record of the list that has the process and lies in the buffer, or no record
  -- of the list has it, whatever the offsets in the buffer are.
  pub find_process-Found :
      Found buffer target 0 (find_process buffer target (suc buffer.buffer_size) 0)
  find_process-Found = find_process-from (suc buffer.buffer_size) 0 (omega arith) (omega arith)
