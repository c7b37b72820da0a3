-- ===== src/Contrib/MmapTest/Tests.antt =====
-- mmap_test on a file of 3000 bytes.
use earlyoom.Prelude.{◌≡◌, refl}
use earlyoom.Prelude.Int.{pos}
use earlyoom.Machine.{Os, tool, fstat, exited, call, say, ◌>>=◌}
use earlyoom.Contrib.MmapTest.{load_byte, read_mapping, mmap_test}
use earlyoom.Samples.{reply, start}

abbrev file_os : Os
file_os events (tool (fstat fd)) = record (reply (pos 0)) { number = 3000 }
file_os events call = reply (pos 5)

three_reads : (mmap_test file_os 4 start).0 ≡ exited 0
unfolding mmap_test read_mapping load_byte call say ◌>>=◌
three_reads = refl
