-- ===== src/Lib.antt =====
-- bme runs a piece of x86-64 machine code one instruction at a time and shows the register state
-- after each. The code and the initial registers come as text, from the command line or the terminal
-- interface; the engine records a trace; decoders give the trace's instructions their boundaries
-- and text; and a fingerprint of the CPU goes with the trace.
--
-- The modules and the source that they model (paths from the repository's root):
--   Text        src/util.hpp: text as a list of character codes, trimming, comparison without case.
--   Code        src/bme_core.cpp, `parse_code_text` and `format_code_text`. The lambdas and the
--               loops of the parser are functions of their own. A position stands beside the text
--               behind it. A message is a constructor with the position or text that it shows.
--   Hex         src/trace_json.cpp, `hex_digit` to `format_st`; and `std::from_chars` on integers,
--               as a reader of a whole text below a limit.
--   Seed        src/bme_core.cpp, `parse_seed` to `compose_st_seed`; Seed/Gpr is
--               `compose_gpr_seed`, Seed/Compose is `compose_seed`, Seed/Names has the name tables
--               and the index readers, and Seed/Cli is `parse_cli_seed_argument`. A lambda or a
--               loop body that changes captured state takes and returns it.
--   Trace       src/bme_core.hpp: the types of a recorded run.
--   Disasm      src/bme_core.cpp, `disasm_one`.
--   History     src/bme_core.cpp, `build_history`: `event_at`, `disasm_at`, `fill_gap` and the loop
--               over the events are functions of the same names (`add_events` for the loop).
--               History/Panel is `history_rows_at` to `restore_history_selection`, over the fields
--               of the interface's state that they use; History/Panel/State has the state shown, and
--               History/Panel/Lines is `build_history_lines` and `rebuild_history`.
--   Cpu         src/cpu.cpp and src/cpu.hpp: `query_cpu_fingerprint`, one function for each
--               block of it, its tables and its decoders; Cpu/Summary is `format_cpu_summary`.
--   Platform    src/os.hpp and src/os.cpp: a run's request, result and checks, and the scratch area.
--   Linux       src/os.linux.cpp, the parent's part. A system call is answered by a function of all the
--               calls so far (Kernel), the log; a step of the engine takes and extends the log.
--               Linux/State has the snapshots and the registers that are set, Linux/Steps the loop of
--               `run_platform_steps`, one function for each stretch between two system calls, and
--               Linux/Run what comes before it. Linux/Traced is the specification of the loop, a step
--               relation, to which Linux/Refined, Ends and Whole hold the runs.
--               Linux/Worker is `child_main`, what the worker lays out and reports, and Linux/Bytes the
--               loops `read_all` and `write_all` over the answers of `read` and `write`.
--   Calls       What both engines' calls share: they take and extend the state of a world.
--   Windows     src/os.windows.cpp: the engine's state and the handler `bme_veh`. Windows/Thread has the
--               system, whose answers depend on all the calls so far, and the thread, which raises
--               exceptions; Windows/Run is `run_platform_steps`, one function for each stretch between
--               two calls. Windows/Handled, Traced, Released, Ends, Placed and Whole hold the runs to
--               the specification Linux/Traced. Windows/Processes is `parent_process_is`.
--   Engine      src/bme_core.cpp, `run_engine` and, in Engine/Address, `format_address_value`.
--   CommandLine src/bme_core.cpp, `CLI::parse` over the values that argparse leaves (Arguments).
--   Controls    src/bme_core.cpp, `x87_tag_name` to `decode_mxcsr`.
--   Quick       src/bme_core.cpp, `run_quick`: the deltas; Quick/Report has the text of a trace and
--               Quick/Run the errors, the exit codes and `read_binary_input`.
--   Clipboard   src/os.linux.cpp, `copy_to_clipboard`.
--   Json        src/trace_json.cpp, `backend_name` to `make_decoder_document`: the documents as records.
--   Base        Shared names, lists and words. Examples has runs on small inputs.
--
-- Numbers are natural; the 64-bit arithmetic of addresses has its wrap-around written out. The
-- loops of `parse_code_text` run on one more unit of fuel than the text has characters, since each
-- round reads at least one; `fill_gap` has a unit for each byte of its gap, since each round
-- goes at least one byte ahead. The step loop has a unit of fuel for each step of the cap, since a
-- round that does not end the run records a step; `wait_for_child` has `patience` units, and the theorems
-- ask for a kernel that interrupts fewer waits in a row. A Windows thread has a unit of fuel for each step
-- of the cap and one more, since an exception that does not end the run records a step. The walk
-- through the process list has one for each byte of its buffer and one more, since each record is
-- further on, and the query one for each byte of the largest buffer, since each buffer is larger.
--
-- Parameters stand for what the repository does not define: the four decoding libraries (Decoders),
-- floating-point parsing and conversion (Floats), CPUID and XGETBV (CpuQuerySource), the system
-- calls (Kernel, WorkerKernel, WinSystem), the list of processes (ProcessBuffer), files (OpenFile), the
-- JSON writer that the quick output calls (JsonWriter), the environment and the page sizes, Zydis where the engine asks it for
-- breakpoints (Zydis), and fmt's numbers and padding (Fmt, QuickFmt, LineFmt).
--
-- Not modelled: the signal handler of src/os.linux.cpp; the wrappers of the systems' memory and clipboard
-- calls and the environment of src/os.windows.cpp, whose work the system does; exceptions of a thread
-- other than the sandboxed one during a run; argument parsing by argparse; the host and producer documents of
-- src/trace_json.cpp and all serialization, which glaze does; the terminal interface, which is drawn by
-- ftxui; and the assembly of src/st80.S.
pub mod Base
pub mod Text
pub mod Hex
pub mod Code
pub mod Seed
pub mod Trace
pub mod Disasm
pub mod History
pub mod Cpu
pub mod Platform
pub mod Linux
pub mod Engine
pub mod Calls
pub mod Windows
pub mod CommandLine
pub mod Controls
pub mod Quick
pub mod Clipboard
pub mod Json
pub mod Examples
