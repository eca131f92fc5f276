-- ===== src/Wal.antt =====
-- chain/eventstream/types/wal.go: the write-ahead log of the event stream, in a file and in memory. A file
-- is its bytes and the offset of its descriptor; what the operating system does on each call is given.
pub mod Laws
mod Tests
use flux_sdk_go.Common.{
  ℕ, Bool, true, false, not, Option, none, some, List, [], ◌∷◌, ◌++◌, Result, Check, ok, err, panic,
  ◌>>=◌, ◌>>◌, reject_if, Bytes, length, take, drop, ◌==◌, if◌then◌else◌,
}

pub data Error : Type 0 where
  seek_failed truncate_failed write_failed short_write sync_failed read_failed : Error

-- `WAL`: a log over a state `S`, an operation answering the new state and its result; `Env` says what
-- the system does on the call.
pub record Wal (S Env : Type 0) : Type 0 where
  pub write : Env → ℕ → Bytes → S → S × Check Error
  pub read : Env → ℕ → S → S × Result Error Bytes
  pub prune : Env → ℕ → S → S × Check Error

pub record File : Type 0 where
  pub content : Bytes
  pub offset : ℕ

-- Which calls of the operating system fail. `written` is how many bytes a write takes, none for an error that
-- takes `torn` bytes.
pub record Faults : Type 0 where
  pub seek_fails : Bool
  pub truncate_fails : Bool
  pub written : Option ℕ
  pub torn : ℕ
  pub sync_fails : Bool
  pub read_fails : Bool

-- `f.Write(b)` of a file that is open for appending, when `n` bytes are taken.
pub append_bytes : ℕ → Bytes → File → File
append_bytes n b f = record {
  content = f.content ++ take n b;
  offset = length (f.content ++ take n b);
}

module _ (faults : Faults) where
  -- The end of a write: the file is truncated, and `f` is what it holds.
  pub write_truncated : Bytes → File → Option ℕ → File × Check Error
  write_truncated b f none = (append_bytes faults.torn b f, err write_failed)
  write_truncated b f (some n) =
      if not (n == length b)
      then (append_bytes n b f, err short_write)
      else (append_bytes n b f, reject_if faults.sync_fails sync_failed)

  -- `SimpleFileWAL.Write`
  pub file_write : ℕ → Bytes → File → File × Check Error
  file_write height b f =
      if faults.seek_fails
      then (f, err seek_failed)
      else if faults.truncate_fails
      then (record { content = f.content; offset = 0 }, err truncate_failed)
      else write_truncated b (record { content = []; offset = 0 }) faults.written

  -- `SimpleFileWAL.Read`
  pub file_read : ℕ → File → File × Result Error Bytes
  file_read height f =
      if faults.seek_fails
      then (f, err seek_failed)
      else if faults.read_fails
      then (record { content = f.content; offset = 0 }, err read_failed)
      else (record { content = f.content; offset = length f.content }, ok f.content)

-- `SimpleFileWAL`, which has nothing to prune.
pub simple_file_wal : Wal File Faults
simple_file_wal = record {
  write = file_write;
  read = file_read;
  prune = λ faults height f. (f, ok tt);
}

-- `MockWAL`. It keeps the slice that it is given, of which the caller is taken not to change the bytes afterwards.
pub mock_wal : Wal Bytes (Unit {0})
mock_wal = record {
  write = λ env height b mem. (b, ok tt);
  read = λ env height mem. (mem, ok mem);
  prune = λ env height mem. (mem, ok tt);
}
