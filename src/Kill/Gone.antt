-- ===== src/Kill/Gone.antt =====
-- `is_alive` of meminfo.c where it says no: what the kernel has answered about the process.
use mathlib.Core.Path.{subst}
use earlyoom.Prelude.{
  ◌≡◌, sym, ◌∙◌, ap, true, false, ◌||◌, ◌==◌, Option, none, some, List, ◌∷◌, ◌⊎◌, inl, inr, take,
  length, arith,
}
use earlyoom.Prelude.Int.{ℤ, pos, ltb_ℤ, ◌<ℤ◌}
use earlyoom.Prelude.Text.{Bytes, cstr}
use earlyoom.ProcPid.{PidStat, parse_proc_pid_stat_buf}
use earlyoom.Machine.{
  ◌>>◌, pure, branch, warn, Call, stat_file, fopen, fread, Event, Reply, Os, Machine, done, call,
  failed,
}
use earlyoom.Machine.Runs.{Runs-bind, branch-cases, pure_value}
use earlyoom.Machine.Steady.{done_value}
use earlyoom.Proc.{parse_proc_pid_stat, is_alive, stat_is_alive}

module _ (os : Os) (pid : ℤ) (t : List Event) where
  abbrev pub opened : Reply
  opened = os t (fopen (stat_file pid))

  -- The file's first 511 bytes.
  abbrev pub reading : Reply
  reading = os ((fopen (stat_file pid), opened) ∷ t) (fread (stat_file pid) 511)

  abbrev pub stat_text : Bytes
  stat_text = take 511 reading.text

  -- The process has no /proc/$pid/stat, or one that cannot be read or has no fields, or it is a zombie
  -- with no other thread.
  pub data IsGone : Type 0 where
    no_file : failed opened ≡ true → IsGone
    no_text : (failed reading ≡ true) ⊎ (length stat_text ≡ 0) → IsGone
    no_fields : parse_proc_pid_stat_buf (cstr stat_text) ≡ none → IsGone
    zombie :
        (s : PidStat)
        → parse_proc_pid_stat_buf (cstr stat_text) ≡ some s
        → s.state ≡ b'Z'
        → s.num_threads ≡ pos 1
        → IsGone

  -- What the reader of the file makes of it.
  abbrev IsStatOf : Option PidStat → Type 0
  IsStatOf stat = (IsGone × (stat ≡ none)) ⊎ (parse_proc_pid_stat_buf (cstr stat_text) ≡ stat)

call_value :
    (os : Os) (c : Call) (m m' : Machine) (r : Reply)
    → call os c m ≡ (done r, m')
    → (os m.trace c ≡ r) × ((c, r) ∷ m.trace ≡ m'.trace)
unfolding call
call_value os c m m' r h =
    let e = done_value (ap (λ s. s.0) h) in
    (e, subst (λ q. (c, q) ∷ m.trace ≡ m'.trace) e (ap (λ s. s.1.trace) h))

module _ (os : Os) (pid : ℤ) where
  text_read :
      (m : Machine) (r : Reply) (m1 m' : Machine) (stat : Option PidStat)
      → reading os pid m.trace ≡ r
      → branch
          (failed r || length (take 511 r.text) == 0)
          (warn os >> pure none)
          (pure (parse_proc_pid_stat_buf (cstr (take 511 r.text))))
          m1
        ≡ (done stat, m')
      → IsStatOf os pid m.trace stat
  text_read m r m1 m' stat same h =
      elim (branch-cases (failed r || length (take 511 r.text) == 0) _ _ m1 _ h) [
        | inl (bad, h1) ↦
            let r1 = Runs-bind _ _ m1 m' stat h1 in
            let none_left = (pure_value none stat r1.middle m' r1.second).0 in
            let why : (failed r ≡ true) ⊎ (length (take 511 r.text) ≡ 0) = ground arith in
            inl (
              no_text
                  (subst (λ q. (failed q ≡ true) ⊎ (length (take 511 q.text) ≡ 0)) (sym same) why),
              sym none_left,
            )
        | inr (ok, h1) ↦ inr (
            ap (λ q. parse_proc_pid_stat_buf (cstr (take 511 q.text))) same
            ∙ (pure_value _ stat m1 m' h1).0)
      ]

  parse-IsStatOf :
      (m m' : Machine) (stat : Option PidStat)
      → parse_proc_pid_stat os pid m ≡ (done stat, m')
      → IsStatOf os pid m.trace stat
  unfolding parse_proc_pid_stat
  parse-IsStatOf m m' stat h =
      let r1 = Runs-bind _ _ m m' stat h in
      let (opens, at1) = call_value os _ m r1.middle r1.value r1.first in
      elim (branch-cases (failed r1.value) _ _ r1.middle _ r1.second) [
        | inl (bad, h2) ↦
            inl (
              no_file (ap (λ r. failed r) opens ∙ bad),
              sym (pure_value none stat r1.middle m' h2).0,
            )
        | inr (ok, h2) ↦
            let r2 = Runs-bind _ _ r1.middle m' stat h2 in
            let (reads, at2) = call_value os _ r1.middle r2.middle r2.value r2.first in
            let same : reading os pid m.trace ≡ r2.value = cc in
            let r3 = Runs-bind _ _ r2.middle m' stat r2.second in
            text_read m r2.value r3.middle m' stat same r3.second
      ]

  dead-IsGone :
      (t : List Event) (stat : Option PidStat)
      → IsStatOf os pid t stat
      → stat_is_alive stat ≡ false
      → IsGone os pid t
  unfolding stat_is_alive
  dead-IsGone t stat (inl (gone, e)) h = gone
  dead-IsGone t none (inr e) h = no_fields e
  dead-IsGone t (some s) (inr e) h = zombie s e (ground arith) (ground arith)

  pub is_alive-IsGone :
      (m m' : Machine) → pos 0 <ℤ pid → is_alive os pid m ≡ (done false, m') → IsGone os pid m.trace
  unfolding is_alive
  is_alive-IsGone m m' single h = elim (branch-cases (ltb_ℤ pid (pos 0)) _ _ m _ h) [
    | inl (group, h1) ↦ absurd (ground arith)
    | inr (alone, h1) ↦
        let r1 = Runs-bind _ _ m m' false h1 in
        let e = (pure_value (stat_is_alive r1.value) false r1.middle m' r1.second).0 in
        dead-IsGone m.trace r1.value (parse-IsStatOf m r1.middle r1.value r1.first) e
  ]
