-- ===== src/Utf8.antt =====
-- `fix_truncated_utf8` of msg.c, which `get_comm` and `get_cmdline` call on a name that the kernel
-- has cut to a number of bytes. A C string is the list of its bytes before the null byte, so a null
-- byte that is written at an index drops that byte and all behind it.
pub mod Laws
mod Tests
use Prim.Native.Nat.{bit_and}
use earlyoom.Prelude.{ℕ, zero, suc, ◌-◌, not, [], ◌∷◌, ltb, ◌==◌, if◌then◌else◌, length}
use earlyoom.Prelude.Text.{Bytes}

-- The tests on the last three bytes, and the string that they leave.
fix_tail : ℕ → ℕ → ℕ → Bytes
fix_tail b0 b1 b2 =
    if bit_and b2 0x80 == 0
    then b0 ∷ b1 ∷ b2 ∷ []
    else if not (bit_and b2 0x40 == 0)
    then b0 ∷ b1 ∷ []
    else if bit_and b1 0xe0 == 0xe0
    then b0 ∷ []
    else if bit_and b0 0xf0 == 0xf0
    then []
    else b0 ∷ b1 ∷ b2 ∷ []

-- `b = str + n`, with three bytes from there on.
fix_at : ℕ → Bytes → Bytes
fix_at zero (b0 ∷ b1 ∷ b2 ∷ []) = fix_tail b0 b1 b2
fix_at (suc n) (c ∷ s) = c ∷ fix_at n s
fix_at n s = s

unfoldable pub fix_truncated_utf8 : Bytes → Bytes
unfolding fix_at fix_tail
fix_truncated_utf8 s = if ltb (length s) 3 then s else fix_at (length s - 3) s
