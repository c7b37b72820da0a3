-- ===== src/Contrib/MmapTest.antt =====
-- contrib/mmap_test/mmap_test.c: it maps a file and reads a byte of each KiB.
--
-- The loop has fuel, and the result says whether it came to its end; MmapTest.Inside says which fuel
-- is enough.
pub mod Inside
mod Tests
use earlyoom.Prelude.{ℕ, zero, suc, Bool, true, false, not}
use earlyoom.Prelude.Int.{ℤ, pos, negsuc, ◌+ℤ◌, ltb_ℤ, ◌==ℤ◌}
use earlyoom.Prelude.Text.{codes}
use earlyoom.Machine.{
  tool, open_rdwr, fstat, mmap_private, load, munmap, getpid, sleep, close, Os, Action, pure, exit,
  branch, ◌>>=◌, ◌>>◌, skip, call, warn, info, failed,
}
use earlyoom.Contrib.{killed_by}

module _ (os : Os) where
  unfoldable pub load_byte : ℤ → Action Unit
  load_byte address = do r ← call os (tool (load address)); branch (failed r) (killed_by r.err) skip

  -- `for (i = 0; i < st_size; i += 1024)`, from `i` on.
  unfoldable pub read_mapping : ℕ → ℤ → ℤ → ℤ → Action Bool
  read_mapping zero addr st_size i = pure false
  read_mapping (suc fuel) addr st_size i =
      branch (not (ltb_ℤ i st_size)) (pure true)
        do load_byte (addr +ℤ i); read_mapping fuel addr st_size (i +ℤ pos 1024)

  -- The process ends at the end of `main`; where the fuel runs out, the value is false.
  unfoldable pub mmap_test : ℕ → Action Bool
  mmap_test fuel = do
    fd ← call os (tool (open_rdwr (codes "test.bin")))
    branch (fd.ret ==ℤ negsuc 0) (warn os >> exit 1) do
      st ← call os (tool (fstat fd.ret))
      branch (st.ret ==ℤ negsuc 0) (warn os >> exit 2) do
        let st_size = pos st.number
        addr ← call os (tool (mmap_private st_size fd.ret))
        branch (addr.ret ==ℤ negsuc 0) (warn os >> exit 3) do
          call os getpid
          info os
          ended ← read_mapping fuel addr.ret st_size (pos 0)
          branch (not ended) (pure false) do
            info os
            call os (sleep 3600)
            call os (tool (munmap addr.ret st_size))
            call os (close fd.ret)
            exit 0
