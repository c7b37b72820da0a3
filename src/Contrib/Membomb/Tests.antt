-- ===== src/Contrib/Membomb/Tests.antt =====
-- eat_all_memory at kernels with pages of 64 KiB and of 4 KiB.
use earlyoom.Prelude.{some, arith, ◌≡◌, refl}
use earlyoom.Prelude.Int.{pos, negsuc}
use earlyoom.Machine.{tool, unlink, divide_by_zero, Os, done, exited, call, say, ◌>>=◌}
use earlyoom.Contrib.{divided, remainder, undefined}
use earlyoom.Contrib.Membomb.{
  Bomb, eat_malloc, eat_round, fill_block, grab, store_byte, touch_pages,
}
use earlyoom.Machine.Calls.{Calls}
use earlyoom.Contrib.Membomb.Inside.{IsInside, fill_block-IsInside}
use earlyoom.Samples.{reply, start}

abbrev big_os : Os
big_os events (tool (unlink path)) = reply (pos 0)
big_os events call = reply (pos 65536)

-- As with pages of 64 KiB and blocks on files, but with two pages in a block.
abbrev two_pages : Bomb
two_pages = record {
  page_size = pos 65536;
  num_pages = 2;
  bs = pos 655360000;
  cnt = 0;
  last_sum = pos 0;
  tv1 = record { tv_sec = pos 0; tv_usec = pos 0 };
}

-- A block is more than 100 MiB, so the remainder is one by 0: where that raises SIGFPE, the process
-- ends behind the first block, and where it gives the dividend, the block is counted.
abbrev trapping_os : Os
trapping_os events (tool divide_by_zero) = reply (negsuc 0)
trapping_os events call = big_os events call

first_block_ends : (eat_round trapping_os eat_malloc two_pages start).0 ≡ exited 136
unfolding eat_round grab fill_block touch_pages store_byte divided remainder undefined call say
    ◌>>=◌
first_block_ends = refl

first_block_counts :
    (eat_round big_os eat_malloc two_pages start).0 ≡ done (record two_pages { cnt = 1 })
unfolding eat_round grab fill_block touch_pages store_byte divided remainder undefined call say
    ◌>>=◌
first_block_counts = refl

-- A block of ten pages of 4 KiB.
abbrev ten_pages : Bomb
ten_pages = record two_pages { page_size = pos 4096; num_pages = 10; bs = pos 40960 }

fill_block-IsInside_example :
    Calls (IsInside (pos 65536) (pos 40960)) (fill_block big_os ten_pages (some (pos 65536)))
fill_block-IsInside_example =
    fill_block-IsInside big_os ten_pages 4096 (pos 65536)
      (record { page = refl; nonempty = omega arith; block = refl })
