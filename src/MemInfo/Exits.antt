-- ===== src/MemInfo/Exits.antt =====
-- `parse_meminfo` of meminfo.c: the statuses with which it may end the process.
use earlyoom.Prelude.{ℕ, refl, inl, inr}
use earlyoom.Double.{Double}
use earlyoom.Machine.{Os}
use earlyoom.Machine.Exits.{Exits, IsStatus, Returns-Exits}
use earlyoom.MemInfo.{parse_meminfo}
use earlyoom.MemInfo.Valid.{IsMeminfoError, parse_meminfo-IsValid}

IsMeminfoError-IsStatus : (code : ℕ) → IsMeminfoError code → IsStatus code
IsMeminfoError-IsStatus code (inl e) = rw e refl
IsMeminfoError-IsStatus code (inr (inl e)) = rw e refl
IsMeminfoError-IsStatus code (inr (inr e)) = rw e refl

pub parse_meminfo-Exits :
    {W : Type 0} ⦃d : Double W⦄ (os : Os) → Exits IsStatus (parse_meminfo {W = W} os)
parse_meminfo-Exits os = Returns-Exits (parse_meminfo-IsValid os) IsMeminfoError-IsStatus
