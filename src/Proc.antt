-- ===== src/Proc.antt =====
-- The readers of /proc/$pid: `parse_proc_pid_stat` of proc_pid.c, and in meminfo.c `is_alive`,
-- `read_proc_file_integer`, `get_oom_score`, `get_oom_score_adj`, `get_comm`, `get_cmdline` and
-- `get_uid`. A result that C gives through a pointer comes beside the return value.
pub mod Passes
pub mod Exits
pub mod Nets
pub mod Reads
pub mod Steady
use earlyoom.Prelude.{
  ℕ, zero, suc, ◌-◌, Bool, true, false, not, ◌&&◌, ◌||◌, Option, none, some, List, [], ◌∷◌, ◌==◌,
  if◌then◌else◌, length, take, drop, ◌++◌,
}
use earlyoom.Prelude.Int.{ℤ, pos, negsuc, ltb_ℤ, ◌==ℤ◌, to_int32, int_of_long}
use earlyoom.Prelude.Text.{Bytes, cstr}
use earlyoom.Prelude.Scan.{scan_int}
use earlyoom.Utf8.{fix_truncated_utf8}
use earlyoom.ProcPid.{PidStat, parse_proc_pid_stat_buf}
use earlyoom.Machine.{
  ProcFile, stat_file, comm_file, cmdline_file, oom_score_file, oom_score_adj_file, fopen, fclose,
  fread, fscanf_int, stat_dir, kill, Os, Machine, Action, Reply, pure, branch, ◌>>=◌, ◌>>◌, gets,
  call, warn, failed, enodata, minus,
}

-- The buffer of `parse_proc_pid_stat`, and PATH_LEN.
abbrev pub stat_buf_len : ℕ
stat_buf_len = 512

abbrev pub path_len : ℕ
path_len = 256

-- `out[i] = ' '` for each null byte.
pub blank_nulls : Bytes → Bytes
blank_nulls [] = []
blank_nulls (c ∷ s) = (if c == 0 then b' ' else c) ∷ blank_nulls s

-- A buffer whose front is overwritten, where a read fails on the way.
pub overwritten : Bytes → Bytes → Bytes
overwritten old data_read = cstr (data_read ++ drop (length data_read) old)

-- What `get_comm` makes of the bytes read, of which there is at least one.
unfoldable pub comm_text : Bytes → Bytes
comm_text data_read = fix_truncated_utf8 (cstr (take (length data_read - 1) data_read))

-- What `get_cmdline` makes of the bytes read. Where there is none, `out[n - 1]` lies before the
-- buffer: it is the last byte of `name`, which is null already, and the buffer is as it was.
unfoldable pub cmdline_text : Bytes → Bytes → Bytes
unfolding blank_nulls
cmdline_text old [] = fix_truncated_utf8 old
cmdline_text old (c ∷ s) =
    let data_read = blank_nulls (c ∷ s) in
    fix_truncated_utf8 (cstr (take (length data_read - 1) data_read))

-- A zombie with no other thread counts as dead.
unfoldable pub stat_is_alive : Option PidStat → Bool
stat_is_alive none = false
stat_is_alive (some s) = not (s.state == b'Z' && s.num_threads ==ℤ pos 1)

-- `return -errno`
abbrev pub return_errno : {A : Type 0} → A → Action (ℤ × A)
return_errno out = do e ← gets (λ m. m.errno); pure (minus e, out)

-- `fscanf(f, "%d", out)`
unfoldable pub scanned : Option (ℤ × Bytes) → ℤ → ℤ × ℤ
scanned none out = (minus enodata, out)
scanned (some (v, rest)) out = (pos 0, int_of_long v)

module _ (os : Os) where
  unfoldable pub parse_proc_pid_stat : ℤ → Action (Option PidStat)
  parse_proc_pid_stat pid = do
    f ← call os (fopen (stat_file pid))
    branch (failed f) (pure none) do
      r ← call os (fread (stat_file pid) (stat_buf_len - 1))
      call os (fclose (stat_file pid))
      let buf = take (stat_buf_len - 1) r.text
      branch (failed r || length buf == 0) (warn os >> pure none)
          (pure (parse_proc_pid_stat_buf (cstr buf)))

  unfoldable pub is_alive : ℤ → Action Bool
  is_alive pid =
      branch (ltb_ℤ pid (pos 0)) (do res ← call os (kill pid 0); pure (res.ret ==ℤ pos 0))
        (do stat ← parse_proc_pid_stat pid; pure (stat_is_alive stat))

  -- The return value, and `*out` from its value before.
  unfoldable pub read_proc_file_integer : ProcFile → ℤ → Action (ℤ × ℤ)
  read_proc_file_integer file out = do
    f ← call os (fopen file)
    branch (failed f) (return_errno out) do
      r ← call os (fscanf_int file)
      call os (fclose file)
      pure (scanned (scan_int r.text) out)

  unfoldable pub get_oom_score : ℤ → Action ℤ
  get_oom_score pid = do
    (res, out) ← read_proc_file_integer (oom_score_file pid) (pos 0)
    pure (if ltb_ℤ res (pos 0) then res else out)

  unfoldable pub get_oom_score_adj : ℤ → ℤ → Action (ℤ × ℤ)
  get_oom_score_adj pid out = read_proc_file_integer (oom_score_adj_file pid) out

  -- The return value, and the text in `out` from that before.
  unfoldable pub get_comm : ℤ → Bytes → Action (ℤ × Bytes)
  get_comm pid out = do
    f ← call os (fopen (comm_file pid))
    branch (failed f) (return_errno out) do
      r ← call os (fread (comm_file pid) (path_len - 1))
      let data_read = take (path_len - 1) r.text
      branch (failed r)
          (do
            warn os
            call os (fclose (comm_file pid))
            pure (minus r.err, overwritten out data_read))
          (do
            call os (fclose (comm_file pid))
            branch (length data_read == 0) (pure (minus enodata, out))
                (pure (pos 0, comm_text data_read)))

  unfoldable pub get_cmdline : ℤ → Bytes → Action (ℤ × Bytes)
  get_cmdline pid out = do
    f ← call os (fopen (cmdline_file pid))
    branch (failed f) (return_errno out) do
      r ← call os (fread (cmdline_file pid) (path_len - 1))
      let data_read = take (path_len - 1) r.text
      branch (failed r)
          (do
            warn os
            call os (fclose (cmdline_file pid))
            pure (minus r.err, overwritten out data_read))
          (do call os (fclose (cmdline_file pid)); pure (pos 0, cmdline_text out data_read))

  -- The owner is an unsigned number, and the result is an `int`.
  unfoldable pub get_uid : ℤ → Action ℤ
  get_uid pid = do
    res ← call os (stat_dir pid)
    branch (failed res) (do e ← gets (λ m. m.errno); pure (minus e)) (pure (to_int32 res.number))
