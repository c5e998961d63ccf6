-- ===== src/Status.antt =====
-- `ServerStatus` of src/core/ServerStatus.cpp on Linux: the arithmetic on what /proc and statfs say.
-- Words are natural numbers below 2 ^ 32 or 2 ^ 64 with the wrap written out; a signed result is a ℤ.
pub mod Percent
mod Tests
use snframe.Base.{
  ℕ, zero, suc, ◌+◌, ◌-◌, ◌*◌, ◌/◌, ◌%◌, ◌^◌, Bool, ltb, leb, ◌==◌, ◌||◌, if◌then◌else◌, Outcome,
  ret, ◌>>=◌, fault,
}

pub data ℤ : Type 0 where
  pos : ℕ → ℤ
  negsuc : ℕ → ℤ

abbrev pub sub_ℕ : ℕ → ℕ → ℤ
sub_ℕ a b = if leb b a then pos (a - b) else negsuc (b - a - 1)

abbrev pub ltℤ : ℤ → ℤ → Bool
ltℤ (pos a) (pos b) = ltb a b
ltℤ (pos a) (negsuc b) = ltb a 0
ltℤ (negsuc a) (pos b) = leb 0 b
ltℤ (negsuc a) (negsuc b) = ltb b a

-- The 32 bits of a number, as an int.
abbrev pub as_int : ℕ → ℤ
as_int v = let w = v % 2 ^ 32 in if ltb w (2 ^ 31) then pos w else negsuc (2 ^ 32 - w - 1)

-- An int as an unsigned long.
abbrev pub as_long : ℤ → ℕ
as_long (pos n) = n
as_long (negsuc n) = 2 ^ 64 - 1 - n

-- CPU_OCCUPY, as far as it is filled.
pub record CpuOccupy : Type 0 where
  pub user : ℕ
  pub nice : ℕ
  pub system : ℕ
  pub idle : ℕ

-- The sum is one of unsigned ints.
abbrev pub occupied : CpuOccupy → ℕ
occupied c = (c.user + c.nice + c.system + c.idle) % 2 ^ 32

unfoldable pub get_cpu_used : CpuOccupy → CpuOccupy → ℤ
get_cpu_used old new =
    let total = (occupied new + 2 ^ 64 - occupied old) % 2 ^ 64 in
    let idle = (new.idle + 2 ^ 32 - old.idle) % 2 ^ 32 in
    if total == 0
    then pos 0
    else as_int ((100 + 2 ^ 64 - as_long (as_int (idle * 100)) / total) % 2 ^ 64)

pub record ServerStatus : Type 0 where
  pub cpu_used : ℤ
  pub disk_total : ℕ
  pub disk_free : ℕ
  pub mem_total : ℕ
  pub mem_free : ℕ

-- `(total - free) * 100 / total` of long longs, rounded towards 0; the product is below 2 ^ 63.
unfoldable pub used_percent : ℕ → ℕ → Outcome ℤ
used_percent total free =
    if total == 0
    then fault
    else if leb free total
    then ret (pos ((total - free) * 100 / total))
    else if (free - total) * 100 / total == 0
    then ret (pos 0)
    else ret (negsuc ((free - total) * 100 / total - 1))

-- The macro MAX.
abbrev pub max3 : ℤ → ℤ → ℤ → ℤ
max3 a b c = if ltℤ b a then (if ltℤ c a then a else c) else if ltℤ c b then b else c

-- `get_percent` behind `get_sys_info`; its value is then cast to a char.
unfoldable pub get_percent : ServerStatus → Outcome ℤ
get_percent s = used_percent s.disk_total s.disk_free >>= λ disk.
    used_percent s.mem_total s.mem_free >>= λ mem. ret (max3 s.cpu_used disk mem)

unfoldable pub get_disk_used : ServerStatus → ℤ
get_disk_used s = sub_ℕ s.disk_total s.disk_free

unfoldable pub get_mem_used : ServerStatus → ℤ
get_mem_used s = sub_ℕ s.mem_total s.mem_free
