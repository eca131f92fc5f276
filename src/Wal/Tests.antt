-- ===== src/Wal/Tests.antt =====
-- A write that is cut short.
use flux_sdk_go.Common.{
  Bool, true, none, List, [], ◌∷◌, ok, ℕ, ◌≡◌, refl, ◌⊎◌, false, some, err, codes, take,
}
use flux_sdk_go.Wal.{
  read_failed, seek_failed, truncate_failed, simple_file_wal, mock_wal, file_read, File, Faults,
  short_write, file_write, write_truncated, append_bytes,
}
use flux_sdk_go.Wal.Laws.{
  Call, write, read, do_call, run_calls, in_memory, Agree, answer, read_answer, run_calls-Agree,
  file_write-err,
}

abbrev short : Faults
short = record {
  seek_fails = false;
  truncate_fails = false;
  written = some 1;
  torn = 0;
  sync_fails = false;
  read_fails = false;
}

abbrev old : File
old = record { content = codes "block 1"; offset = 0 }

fails_short : (file_write short 2 (codes "block 2") old).1 ≡ err short_write
unfolding file_write write_truncated append_bytes
fails_short = refl

file_write-err_example :
    ((false ≡ true)
      × (short_write ≡ seek_failed)
      × ((file_write short 2 (codes "block 2") old).0.content ≡ codes "block 1"))
    ⊎ ((false ≡ false)
        × (false ≡ true)
        × (short_write ≡ truncate_failed)
        × ((file_write short 2 (codes "block 2") old).0.content ≡ codes "block 1"))
    ⊎ ((false ≡ false)
        × (false ≡ false)
        × ((file_write short 2 (codes "block 2") old).0.content ≡ take 1 (codes "block 2")))
file_write-err_example = file_write-err short 2 (codes "block 2") old short_write fails_short

-- A write, a read that fails, and a read.
abbrev faults : Bool → ℕ → Faults
faults read_fails n = record {
  seek_fails = false;
  truncate_fails = false;
  written = some n;
  torn = 0;
  sync_fails = false;
  read_fails = read_fails;
}

abbrev calls : List (Faults × Call)
calls =
    (faults false 7, write 2 (codes "block 2"))
    ∷ (faults true 0, read 2)
    ∷ (faults false 0, read 2)
    ∷ []

answers_last :
    run_calls simple_file_wal calls old
    ≡ ok none ∷ err read_failed ∷ ok (some (codes "block 2")) ∷ []
unfolding run_calls do_call simple_file_wal file_write write_truncated append_bytes file_read answer
    read_answer
answers_last = refl

run_calls-Agree_example :
    Agree calls
      (run_calls simple_file_wal calls old)
      (run_calls mock_wal (in_memory calls) (codes "block 1"))
run_calls-Agree_example =
    run_calls-Agree calls old (codes "block 1") refl ((refl, refl, refl, refl), (tt, (tt, tt)))

loses_old : (file_write short 2 (codes "block 2") old).0.content ≡ codes "b"
unfolding file_write write_truncated append_bytes
loses_old = refl
