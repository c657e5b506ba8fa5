-- ===== src/Windows/Processes.antt =====
-- How src/os.windows.cpp looks for an instrumenting parent process: the growing query for the list of
-- processes, the walk through it, and the name of the parent's executable.
pub mod Walk
pub mod Query
use bme.Base.{
  if-cases, ℕ, zero, suc, ◌+◌, ◌-◌, ◌*◌, ◌/◌, ◌%◌, ◌≤◌, ◌<◌, Bool, true, false, ◌&&◌, ◌||◌, not,
  Bool-cases, Option, none, some, List, [], ◌∷◌, ltb, leb, ◌==◌, if◌then◌else◌, ◌≡◌, ◌≢◌, ◌⊎◌, inl,
  inr, refl, arith,
}
use bme.Text.{Text, codes, ascii_case_insensitive_equal}

abbrev pub process_query_initial_bytes : ℕ
process_query_initial_bytes = 0x1_0000

abbrev pub process_query_max_bytes : ℕ
process_query_max_bytes = 0x400_0000

-- `UniqueProcessId` is at byte 80, and two handles of 8 bytes end a record.
abbrev pub process_record_min_bytes : ℕ
process_record_min_bytes = 96

-- What `NtQuerySystemInformation` answers to a buffer of a size: it wrote a length, the buffer is too
-- small and it says for which length, or it failed.
pub data QueryReply : Type 0 where
  listed_processes : ℕ → QueryReply
  too_small : ℕ → QueryReply
  query_failed : QueryReply

-- The size of the next buffer.
unfoldable pub next_query_size : (size reported : ℕ) → ℕ
next_query_size size reported =
    if ltb size reported
    then reported
    else if leb size (process_query_max_bytes / 2)
    then size * 2
    else process_query_max_bytes

-- The loop of the query, with how much was written; `none` outside is out of fuel.
unfoldable pub query_processes : (ℕ → QueryReply) → (fuel size : ℕ) → Option (Option ℕ)
query_processes reply zero size = none
query_processes reply (suc fuel) size = elim (reply size) [
  | listed_processes written ↦ some (if ltb size written then none else some written)
  | too_small reported ↦
      let next = next_query_size size reported in
      let rest = query_processes reply fuel next in
      if leb next size || ltb process_query_max_bytes next then some none else rest
  | query_failed ↦ some none
]

-- The fields of the records in a buffer of `buffer_size` bytes at `buffer_begin`, by offset, and the
-- wide characters at an address.
pub record ProcessBuffer : Type 0 where
  pub buffer_begin : ℕ
  pub buffer_size : ℕ
  pub next_entry_offset : ℕ → ℕ
  pub unique_process_id : ℕ → ℕ
  pub parent_process_id : ℕ → ℕ
  pub image_length : ℕ → ℕ
  pub image_buffer : ℕ → ℕ
  pub wide_text : (address count : ℕ) → Text

module _ (buffer : ProcessBuffer) where
  -- A whole record fits at the offset.
  unfoldable pub record_fits : ℕ → Bool
  record_fits offset =
      leb offset buffer.buffer_size && leb process_record_min_bytes (buffer.buffer_size - offset)

  -- There is a record behind the one at the offset.
  unfoldable pub goes_on_at : ℕ → Bool
  goes_on_at offset =
      let next = buffer.next_entry_offset offset in
      not (next == 0 || ltb next process_record_min_bytes || ltb (buffer.buffer_size - offset) next)

  -- The lambda `find_process` from an offset on; `none` outside is out of fuel.
  unfoldable pub find_process : (target fuel offset : ℕ) → Option (Option ℕ)
  find_process target zero offset = none
  find_process target (suc fuel) offset =
      let rest = find_process target fuel (offset + buffer.next_entry_offset offset) in
      if record_fits offset
      then (if buffer.unique_process_id offset == target
          then some (some offset)
          else if goes_on_at offset
          then rest
          else some none)
      else some none

  -- The path of the image of the record at an offset, where it is in the buffer.
  unfoldable pub image_path : ℕ → Option Text
  image_path offset =
      let length_bytes = buffer.image_length offset in
      let image_begin = buffer.image_buffer offset in
      let buffer_end = buffer.buffer_begin + buffer.buffer_size in
      if image_begin == 0 || not (length_bytes % 2 == 0)
      then none
      else if ltb image_begin buffer.buffer_begin || ltb buffer_end image_begin
      then none
      else if ltb (buffer_end - image_begin) length_bytes
      then none
      else some (buffer.wide_text image_begin (length_bytes / 2))

abbrev pub is_delim : ℕ → Bool
is_delim c = c == b'\\' || c == b'/'

-- The part of a path behind its last delimiter; `found` is that of the text up to here.
abbrev after_delim : (found : Text) → Text → Text
after_delim found [] = found
after_delim found (c ∷ rest) = after_delim (if is_delim c then rest else found) rest

unfoldable pub executable_name : Text → Text
executable_name path = after_delim path path

unfoldable pub is_one_of : Text → List Text → Bool
is_one_of name [] = false
is_one_of name (expected ∷ names) =
    let rest = is_one_of name names in
    if ascii_case_insensitive_equal name expected then true else rest

abbrev name_is_one_of : Option Text → List Text → Bool
name_is_one_of none names = false
name_is_one_of (some path) names = is_one_of (executable_name path) names

abbrev found_at : Option (Option ℕ) → Option ℕ
found_at none = none
found_at (some answer) = answer

-- The parent of the process at an offset.
abbrev parent_image : ProcessBuffer → Option ℕ → Option Text
parent_image buffer none = none
parent_image buffer (some offset) = image_path buffer offset

abbrev parent_of : ProcessBuffer → Option ℕ → Option ℕ
parent_of buffer none = none
parent_of buffer (some offset) =
    found_at (find_process buffer (buffer.parent_process_id offset) (suc buffer.buffer_size) 0)

-- `parent_process_is`, with the buffer that the query filled.
unfoldable pub parent_process_is : ProcessBuffer → (process_id : ℕ) → List Text → Bool
parent_process_is buffer process_id names =
    let current = found_at (find_process buffer process_id (suc buffer.buffer_size) 0) in
    name_is_one_of (parent_image buffer (parent_of buffer current)) names

-- `instrumentation_detected`, with what the system says of environment variables, of the parent
-- process and of loaded modules.
unfoldable pub tool_detected :
    (is_set : Text → Bool) → (parent_is : List Text → Bool) → (is_loaded : Text → Bool) → Bool
tool_detected is_set parent_is is_loaded =
    is_set (codes "SDE_COMMAND_LINE")
    || parent_is (codes "sde.exe" ∷ [])
    || is_loaded (codes "sde.dll")
    || is_set (codes "PIN_COMMAND_LINE")
    || parent_is (codes "pin.exe" ∷ codes "pinbin.exe" ∷ [])
    || is_loaded (codes "pinvm.dll")
