-- ===== src/Sigchld/Tests.antt =====
-- The handler at a kernel where two children end.
use earlyoom.Prelude.{
  ◌≤◌, ◌≡◌, refl, Bool, Bool-cases, true, false, List, [], inl, inr, ltb, some, drop, arith,
  if◌then◌else◌,
}
use earlyoom.Prelude.Int.{pos, negsuc, leb_ℤ}
use earlyoom.Machine.{wait_any, Event, Reply, Os, done, exited, failed}
use earlyoom.Sigchld.{handle_sigchld}
use earlyoom.Sigchld.Ends.{reaped, HasChildren, handle_sigchld_ends}
use earlyoom.Sigchld.Race.{IsChildless, get_entry_fatal_at_sigchld, get_entry_fatal_at_sigchld_dies}
use earlyoom.MemInfo.{strtoll, get_entry_fatal}
use earlyoom.Prelude.Text.{codes, strstr}
use earlyoom.Prelude.Scan.{scan_int}
use earlyoom.Samples.{roomy_text, start}

abbrev answer : Bool → Reply
answer left = record {
  ret = if left then pos 5 else negsuc 0;
  err = 10;
  text = [];
  names = [];
  number = 0;
  micros = 0;
}

abbrev family_os : Os
family_os events wait_any = answer (ltb (reaped events) 2)
family_os events call = answer false

family-HasChildren : HasChildren family_os 2
family-HasChildren = record { most = gone }
  where
    gone : (t : List Event) → 2 ≤ reaped t → leb_ℤ (answer (ltb (reaped t) 2)).ret (pos 0) ≡ true
    gone t h = elim (Bool-cases (ltb (reaped t) 2)) [
      | inl e ↦ absurd (ground arith)
      | inr e ↦ rw e refl
    ]

handle_sigchld_ends_example : (handle_sigchld family_os 3 start).0 ≡ done true
handle_sigchld_ends_example = handle_sigchld_ends family_os 2 family-HasChildren start

family-IsChildless : IsChildless family_os
family-IsChildless = record { fails = fails; echild_err = λ t h. refl }
  where
    fails :
        (t : List Event)
        → leb_ℤ (answer (ltb (reaped t) 2)).ret (pos 0) ≡ true
        → failed (answer (ltb (reaped t) 2)) ≡ true
    fails t h = elim (Bool-cases (ltb (reaped t) 2)) [
      | inl e ↦ let no_end = rw e at h in cc
      | inr e ↦ rw e refl
    ]

found_total : strstr roomy_text (codes "MemTotal:") ≡ some roomy_text
unfolding strstr
found_total = refl

reads_total : strtoll (drop 9 roomy_text) ≡ (pos 900, false)
unfolding strtoll scan_int
reads_total = refl

get_entry_fatal_at_sigchld_dies_example :
    ((get_entry_fatal family_os (codes "MemTotal:") roomy_text start).0 ≡ done (pos 900))
    × ((get_entry_fatal_at_sigchld family_os 3 (codes "MemTotal:") roomy_text start).0 ≡ exited 104)
get_entry_fatal_at_sigchld_dies_example =
    get_entry_fatal_at_sigchld_dies family_os 2 family-HasChildren family-IsChildless
      (codes "MemTotal:") roomy_text roomy_text (pos 900) start found_total reads_total
      (omega arith)
