-- ===== src/Select/Info.antt =====
-- What is known of a process, `procinfo_t` of meminfo.h, the constants of kill.c, and `isnumeric`.
use earlyoom.Prelude.{Bool, true, not, ◌&&◌, [], ◌∷◌}
use earlyoom.Prelude.Int.{ℤ, pos, negsuc}
use earlyoom.Prelude.Text.{Bytes, is_nil, is_digit}
use earlyoom.ProcPid.{PidStat}

pub record ProcInfo : Type 0 where
  pub pid : ℤ
  pub uid : ℤ
  pub oom_score : ℤ
  pub oom_score_adj : ℤ
  pub vm_rss : ℤ
  pub stat : PidStat
  pub name : Bytes
  pub cmdline : Bytes

-- -9999
abbrev pub field_not_set : ℤ
field_not_set = negsuc 9998

abbrev pub zero_stat : PidStat
zero_stat = record { state = 0; ppid = pos 0; num_threads = pos 0; rss = pos 0 }

abbrev pub empty_procinfo : ProcInfo
empty_procinfo = record {
  pid = field_not_set;
  uid = field_not_set;
  oom_score = field_not_set;
  oom_score_adj = field_not_set;
  vm_rss = field_not_set;
  stat = zero_stat;
  name = [];
  cmdline = [];
}

abbrev pub zero_procinfo : ProcInfo
zero_procinfo = record {
  pid = pos 0;
  uid = pos 0;
  oom_score = pos 0;
  oom_score_adj = pos 0;
  vm_rss = pos 0;
  stat = zero_stat;
  name = [];
  cmdline = [];
}

abbrev pub oom_score_prefer : ℤ
oom_score_prefer = pos 300

abbrev pub oom_score_avoid : ℤ
oom_score_avoid = negsuc 299

abbrev pub vmrss_prefer : ℤ
vmrss_prefer = pos 3145728

abbrev pub vmrss_avoid : ℤ
vmrss_avoid = negsuc 3145727

all_digits : Bytes → Bool
all_digits [] = true
all_digits (c ∷ s) = is_digit c && all_digits s

unfoldable pub isnumeric : Bytes → Bool
unfolding all_digits
isnumeric s = not (is_nil s) && all_digits s
