-- ===== src/Wal/Laws.antt =====
-- One log does what the other does, and what a failed write leaves in the file.
use flux_sdk_go.Common.{
  ℕ, ◌≡◌, refl, ◌⊎◌, inl, inr, true, false, Option, none, some, List, [], ◌∷◌, Result, ok, err,
  panic, Bytes, length, take, ◌∙◌, Bool-cases, Option-cases, map, All, or_else, arith, ap, ◌==◌,
}
use flux_sdk_go.Wal.{
  Error, seek_failed, truncate_failed, read_failed, Wal, File, Faults, append_bytes,
  write_truncated, file_write, file_read, simple_file_wal, mock_wal,
}

-- A call of the log.
pub data Call : Type 0 where
  write : ℕ → Bytes → Call
  read : ℕ → Call
  prune : ℕ → Call

-- What a call answers: what was read, or none for a call that reads nothing.
unfoldable pub answer : Result Error (Unit {0}) → Result Error (Option Bytes)
answer (ok nothing) = ok none
answer (err x) = err x
answer panic = panic

unfoldable pub read_answer : Result Error Bytes → Result Error (Option Bytes)
read_answer (ok b) = ok (some b)
read_answer (err x) = err x
read_answer panic = panic

module _ {S Env : Type 0} (wal : Wal S Env) where
  unfoldable pub do_call : Env → Call → S → S × Result Error (Option Bytes)
  do_call env (write h b) s = ((wal.write env h b s).0, answer (wal.write env h b s).1)
  do_call env (read h) s = ((wal.read env h s).0, read_answer (wal.read env h s).1)
  do_call env (prune h) s = ((wal.prune env h s).0, answer (wal.prune env h s).1)

  -- The answers of a sequence of calls, each with what the system does on it.
  unfoldable pub run_calls : List (Env × Call) → S → List (Result Error (Option Bytes))
  run_calls [] s = []
  run_calls ((env, c) ∷ calls) s = (do_call env c s).1 ∷ run_calls calls (do_call env c s).0

-- The same calls of the log in memory, on which nothing fails.
abbrev pub in_memory : List (Faults × Call) → List (Unit {0} × Call)
in_memory calls = map (λ c. (tt, c.1)) calls

-- No call of the operating system fails within a write.
abbrev pub IsSound : Faults × Call → Type 0
IsSound (faults, write h b) =
    (faults.seek_fails ≡ false)
    × (faults.truncate_fails ≡ false)
    × (faults.written ≡ some (length b))
    × (faults.sync_fails ≡ false)
IsSound (faults, _) = Unit {0}

-- A read that the operating system fails.
abbrev pub IsFailed : Faults × Call → Result Error (Option Bytes) → Type 0
IsFailed (faults, read h) a =
    ((faults.seek_fails ≡ true) × (a ≡ err seek_failed))
    ⊎ ((faults.seek_fails ≡ false) × (faults.read_fails ≡ true) × (a ≡ err read_failed))
IsFailed (faults, _) a = ⊥

-- Call by call, one log answers what the other does, or it is a read that fails.
abbrev pub Agree :
    List (Faults × Call)
    → List (Result Error (Option Bytes))
    → List (Result Error (Option Bytes))
    → Type 0
Agree [] [] [] = Unit {0}
Agree (c ∷ calls) (a ∷ xs) (m ∷ ms) = ((a ≡ m) ⊎ IsFailed c a) × Agree calls xs ms
Agree _ _ _ = ⊥

take-length : (b : Bytes) → take (length b) b ≡ b
take-length [] = refl
take-length (x ∷ b) = ap (λ r. x ∷ r) (take-length b)

file_write_sound :
    (faults : Faults) (h : ℕ) (b : Bytes) (f : File)
    → IsSound (faults, write h b)
    → ((file_write faults h b f).1 ≡ ok tt) × ((file_write faults h b f).0.content ≡ b)
unfolding file_write write_truncated append_bytes
file_write_sound faults h b f (seek, truncated, whole, synced) =
    let same : (length b == length b) ≡ true = ground arith in
    rw (seek, truncated, whole, same, synced) (refl, take-length b)

file_read-cases :
    (faults : Faults) (h : ℕ) (f : File)
    → ((read_answer (file_read faults h f).1 ≡ ok (some f.content))
        ⊎ IsFailed (faults, read h) (read_answer (file_read faults h f).1))
      × ((file_read faults h f).0.content ≡ f.content)
unfolding file_read read_answer
file_read-cases faults h f = elim (Bool-cases faults.seek_fails) [
  | inl s ↦ rw s (inr (inl (refl, refl)), refl)
  | inr s ↦ elim (Bool-cases faults.read_fails) [
    | inl r ↦ rw (s, r) (inr (inr (refl, refl, refl)), refl)
    | inr r ↦ rw (s, r) (inl refl, refl)
  ]
]

-- SimpleFileWAL does what MockWAL does: from a file that holds what the memory holds, and over any sequence of writes,
-- reads and prunes at any heights in which the operating system fails no write, each call of the log in the
-- file answers what the same call of the log in memory answers, the reads what was written last, except for a read
-- whose seek or read the system fails; such a read answers that error and spoils no later call.
pub run_calls-Agree :
    (calls : List (Faults × Call)) (f : File) (mem : Bytes)
    → f.content ≡ mem
    → All IsSound calls
    → Agree calls (run_calls simple_file_wal calls f) (run_calls mock_wal (in_memory calls) mem)
unfolding run_calls do_call simple_file_wal mock_wal answer read_answer
run_calls-Agree [] f mem e h = tt
run_calls-Agree ((faults, write k b) ∷ calls) f mem e h =
    let (passed, kept) = file_write_sound faults k b f h.0 in
    (inl (ap answer passed), run_calls-Agree calls (file_write faults k b f).0 b kept h.1)
run_calls-Agree ((faults, read k) ∷ calls) f mem e h =
    let (answered, kept) = file_read-cases faults k f in
    (
      elim answered [ inl same ↦ inl (same ∙ ap (λ b. ok (some b)) e) | inr failed ↦ inr failed ],
      run_calls-Agree calls (file_read faults k f).0 mem (kept ∙ e) h.1,
    )
run_calls-Agree ((faults, prune k) ∷ calls) f mem e h =
    (inl refl, run_calls-Agree calls f mem e h.1)

-- What a write that fails leaves in the file. Where the seek or the truncation fails, that is the error, and the file
-- holds what it held. Where neither does, what the file held is lost, though the write fails: the file holds as many
-- of the bytes to be written as the system took, whichever of the write, its length or the sync it was that failed.
pub file_write-err :
    (faults : Faults) (h : ℕ) (b : Bytes) (f : File) (x : Error)
    → (file_write faults h b f).1 ≡ err x
    → ((faults.seek_fails ≡ true)
        × (x ≡ seek_failed)
        × ((file_write faults h b f).0.content ≡ f.content))
      ⊎ ((faults.seek_fails ≡ false)
          × (faults.truncate_fails ≡ true)
          × (x ≡ truncate_failed)
          × ((file_write faults h b f).0.content ≡ f.content))
      ⊎ ((faults.seek_fails ≡ false)
          × (faults.truncate_fails ≡ false)
          × ((file_write faults h b f).0.content ≡ take (or_else faults.written faults.torn) b))
unfolding file_write write_truncated append_bytes
file_write-err faults h b f x e = elim (Bool-cases faults.seek_fails) [
  | inl s ↦ let e' = rw s at e in rw s (inl (refl, ground arith, refl))
  | inr s ↦ elim (Bool-cases faults.truncate_fails) [
    | inl t ↦ let e' = rw (s, t) at e in rw (s, t) (inr (inl (refl, refl, ground arith, refl)))
    | inr t ↦ elim (Option-cases faults.written) [
      | inl w ↦ rw (s, t, w) (inr (inr (refl, refl, refl)))
      | inr (n, w) ↦ elim (Bool-cases (n == length b)) [
        | inl whole ↦ rw (s, t, w, whole) (inr (inr (refl, refl, refl)))
        | inr part ↦ rw (s, t, w, part) (inr (inr (refl, refl, refl)))
      ]
    ]
  ]
]
