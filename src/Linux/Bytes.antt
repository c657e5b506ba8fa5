-- ===== src/Linux/Bytes.antt =====
-- `read_all` and `write_all` of src/os.linux.cpp: the loops over what a pipe takes and gives.
use mathlib.Core.List.{append-nil, append_assoc}
use mathlib.Core.Path.{subst}
use bme.Base.{
  ℕ, zero, suc, ◌-◌, ◌≤◌, List, [], ◌∷◌, ◌++◌, take, drop, length, length-append, All, ◌≡◌, refl,
  sym, ap, ◌∙◌, arith,
}

-- What `read` answers: bytes, one at least and no more than asked for; an interruption; or its end.
pub data ReadReply : Type 0 where
  got : List ℕ → ReadReply
  read_interrupted : ReadReply
  read_ended : ReadReply

-- What `write` answers: how many bytes it took; an interruption; or a failure.
pub data WriteReply : Type 0 where
  took : ℕ → WriteReply
  write_interrupted : WriteReply
  write_failed : WriteReply

-- A loop is done, has failed, or waits for the next answer.
pub data Transfer : Type 0 where
  done : List ℕ → Transfer
  failed : Transfer
  waiting : Transfer

-- The bytes read so far, and how many are to come.
unfoldable pub read_all : List ReadReply → (bytes : List ℕ) → (size : ℕ) → Transfer
read_all replies bytes zero = done bytes
read_all [] bytes (suc size) = waiting
read_all (got chunk ∷ replies) bytes (suc size) =
    read_all replies (bytes ++ chunk) (suc size - length chunk)
read_all (read_interrupted ∷ replies) bytes (suc size) = read_all replies bytes (suc size)
read_all (read_ended ∷ replies) bytes (suc size) = failed

-- What the pipe has taken, and what is to be written.
unfoldable pub write_all : List WriteReply → (sent bytes : List ℕ) → Transfer
write_all replies sent [] = done sent
write_all [] sent (b ∷ bytes) = waiting
write_all (took zero ∷ replies) sent (b ∷ bytes) = failed
write_all (took (suc n) ∷ replies) sent (b ∷ bytes) =
    write_all replies (sent ++ take (suc n) (b ∷ bytes)) (drop (suc n) (b ∷ bytes))
write_all (write_interrupted ∷ replies) sent (b ∷ bytes) = write_all replies sent (b ∷ bytes)
write_all (write_failed ∷ replies) sent (b ∷ bytes) = failed

-- The bytes that the answers give.
abbrev pub received : List ReadReply → List ℕ
received [] = []
received (got chunk ∷ replies) = chunk ++ received replies
received (_ ∷ replies) = received replies

-- An answer that gives bytes, or an interruption.
abbrev pub Delivers : ReadReply → Type 0
Delivers (got chunk) = 1 ≤ length chunk
Delivers read_interrupted = Unit {0}
Delivers read_ended = ⊥

nothing : (xs : List ℕ) → length xs ≡ 0 → xs ≡ []
nothing [] h = refl
nothing (x ∷ xs) h = absurd (omega arith)

read_all-received :
    (replies : List ReadReply) (bytes : List ℕ) (size : ℕ)
    → All Delivers replies
    → length (received replies) ≡ size
    → read_all replies bytes size ≡ done (bytes ++ received replies)
unfolding read_all
read_all-received replies bytes zero delivers all =
    rw (nothing (received replies) all, append-nil) refl
read_all-received [] bytes (suc size) delivers all = absurd (omega arith)
read_all-received (got chunk ∷ replies) bytes (suc size) delivers all =
    let joined = length-append chunk (received replies) in
    read_all-received replies (bytes ++ chunk) (suc size - length chunk) delivers.1
      (omega (arith, joined))
    ∙ ap done (append_assoc bytes chunk (received replies))
read_all-received (read_interrupted ∷ replies) bytes (suc size) delivers all =
    read_all-received replies bytes (suc size) delivers.1 all
read_all-received (read_ended ∷ replies) bytes (suc size) delivers all = absurd delivers.0

abbrev IsSent : List ℕ → Transfer → Type 0
IsSent bytes (done out) = out ≡ bytes
IsSent bytes failed = Unit {0}
IsSent bytes waiting = Unit {0}

take-drop : (n : ℕ) (xs : List ℕ) → take n xs ++ drop n xs ≡ xs
take-drop zero xs = refl
take-drop (suc n) [] = refl
take-drop (suc n) (x ∷ xs) = ap (◌∷◌ x) (take-drop n xs)

write_all-IsSent :
    (replies : List WriteReply) (sent bytes : List ℕ)
    → IsSent (sent ++ bytes) (write_all replies sent bytes)
unfolding write_all
write_all-IsSent replies sent [] = sym (append-nil sent)
write_all-IsSent [] sent (b ∷ bytes) = tt
write_all-IsSent (took zero ∷ replies) sent (b ∷ bytes) = tt
write_all-IsSent (took (suc n) ∷ replies) sent (b ∷ bytes) =
    let rest =
      write_all-IsSent replies (sent ++ take (suc n) (b ∷ bytes)) (drop (suc n) (b ∷ bytes)) in
    let same : (sent ++ take (suc n) (b ∷ bytes)) ++ drop (suc n) (b ∷ bytes) ≡ sent ++ b ∷ bytes =
      append_assoc sent (take (suc n) (b ∷ bytes)) (drop (suc n) (b ∷ bytes))
      ∙ ap (λ xs. sent ++ xs) (take-drop (suc n) (b ∷ bytes)) in
    subst
      (λ xs.
        IsSent xs (write_all replies (sent ++ take (suc n) (b ∷ bytes)) (drop (suc n) (b ∷ bytes))))
      same rest
write_all-IsSent (write_interrupted ∷ replies) sent (b ∷ bytes) =
    write_all-IsSent replies sent (b ∷ bytes)
write_all-IsSent (write_failed ∷ replies) sent (b ∷ bytes) = tt

-- Where the worker's loop is done with writing some bytes, and the parent's `read` answers give what
-- the pipe took, each one byte at least, with any interruptions between: the parent's loop for
-- as many bytes is done, with the worker's bytes, however both sides cut them.
pub read_all-write_all :
    (writes : List WriteReply) (reads : List ReadReply) (bytes sent : List ℕ)
    → write_all writes [] bytes ≡ done sent
    → All Delivers reads
    → received reads ≡ sent
    → read_all reads [] (length bytes) ≡ done bytes
read_all-write_all writes reads bytes sent written delivers same =
    let whole : sent ≡ bytes = subst (IsSent bytes) written (write_all-IsSent writes [] bytes) in
    read_all-received reads [] (length bytes) delivers (ap length (same ∙ whole))
    ∙ ap done (same ∙ whole)
