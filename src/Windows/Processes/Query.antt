-- ===== src/Windows/Processes/Query.antt =====
-- The growing query for the list of processes in src/os.windows.cpp.
use bme.Base.{
  if-cases, ℕ, zero, suc, ◌+◌, ◌≤◌, ◌<◌, ◌||◌, Option, none, some, ltb, leb, if◌then◌else◌, arith,
}
use bme.Windows.Processes.{
  process_query_initial_bytes, process_query_max_bytes, listed_processes, too_small, query_failed,
  QueryReply, next_query_size, query_processes,
}

-- A query that ends: it failed, or it wrote no more than the largest buffer has.
pub data IsQueried : Option (Option ℕ) → Type 0 where
  unanswered : IsQueried (some none)
  answered : (written : ℕ) → written ≤ process_query_max_bytes → IsQueried (some (some written))

query_processes-from :
    (reply : ℕ → QueryReply) (fuel size : ℕ)
    → size ≤ process_query_max_bytes
    → process_query_max_bytes < fuel + size
    → IsQueried (query_processes reply fuel size)
unfolding query_processes
query_processes-from reply zero size within enough = absurd (omega arith)
query_processes-from reply (suc fuel) size within enough =
    elim (reply size)
      as (λ answer. IsQueried (elim answer [
        | listed_processes written ↦ some (if ltb size written then none else some written)
        | too_small reported ↦
            let next = next_query_size size reported in
            let rest = query_processes reply fuel next in
            if leb next size || ltb process_query_max_bytes next then some none else rest
        | query_failed ↦ some none
      ])) [
        | listed_processes written ↦
            if-cases (λ result. IsQueried (some result)) (ltb size written) _ _ (λ _. unanswered)
              (λ fits. answered written (ground arith))
        | too_small reported ↦
            if-cases IsQueried
              (leb (next_query_size size reported) size
                || ltb process_query_max_bytes (next_query_size size reported))
              _ _ (λ _. unanswered)
              (λ grows.
                query_processes-from reply fuel (next_query_size size reported) (ground arith)
                  (ground arith))
        | query_failed ↦ unanswered
      ]

-- Whatever the system answers, the query for the processes ends within one round more than the
-- largest buffer has bytes, and what it says was written fits that buffer.
pub query_processes-IsQueried :
    (reply : ℕ → QueryReply)
    → IsQueried (query_processes reply (suc process_query_max_bytes) process_query_initial_bytes)
query_processes-IsQueried reply =
    query_processes-from reply (suc process_query_max_bytes) process_query_initial_bytes
      (omega arith) (omega arith)
