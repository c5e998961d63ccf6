-- ===== src/Status/Percent.antt =====
-- The percentages of src/core/ServerStatus.cpp lie between 0 and 100.
use snframe.Base.{
  ℕ, ◌+◌, ◌-◌, ◌*◌, ◌/◌, ◌%◌, ◌^◌, ◌≤◌, ◌<◌, ◌≡◌, refl, ap, lt→ltb, Bool-cases, inl, inr, false,
  ◌⊎◌, ltb, ◌==◌, if◌then◌else◌, ret, arith,
}
use native.Mathlib.Nat.{div-le_of_le-mul}
use snframe.Status.{
  pos, as_int, as_long, CpuOccupy, occupied, get_cpu_used, ServerStatus, used_percent, max3,
  get_percent,
}

quotient_le : (a b : ℕ) → a ≤ b → 0 < b → a * 100 / b ≤ 100
quotient_le a b h p = div-le_of_le-mul b (omega arith)

as_int-small : (v : ℕ) → v < 2 ^ 31 → as_int v ≡ pos v
as_int-small v h = let same : v % 2 ^ 32 ≡ v = omega arith in rw (same, lt→ltb v (2 ^ 31) h) refl

share :
    (total i : ℕ)
    → i < 21474837
    → 0 < total
    → i ≤ total
    → (if total == 0
        then pos 0
        else as_int ((100 + 2 ^ 64 - as_long (as_int (i * 100)) / total) % 2 ^ 64))
      ≡ pos (100 - i * 100 / total)
share total i few some_time le =
    let none : (total == 0) ≡ false = ground arith in
    let q : i * 100 / total ≤ 100 = quotient_le i total le some_time in
    let wraps : (100 + 2 ^ 64 - i * 100 / total) % 2 ^ 64 ≡ 100 - i * 100 / total = omega arith in
    rw (none, as_int-small (i * 100) (omega arith), wraps)
      (as_int-small (100 - i * 100 / total) (omega arith))

-- Two samples whose counters do not wrap round, that have more idle time and more time in all, and
-- less than 21474837 idle ticks between them: the use of the processor is the share of the time that
-- was not idle, in percent, rounded up, and at most 100.
pub get_cpu_used-share :
    (old new : CpuOccupy) (idle busy : ℕ)
    → new.user + new.nice + new.system + new.idle < 2 ^ 32
    → new.user + new.nice + new.system + new.idle
      ≡ old.user + old.nice + old.system + old.idle + (idle + busy)
    → new.idle ≡ old.idle + idle
    → idle < 21474837
    → 0 < idle + busy
    → (get_cpu_used old new ≡ pos (100 - idle * 100 / (idle + busy)))
      × (idle * 100 / (idle + busy) ≤ 100)
unfolding get_cpu_used
get_cpu_used-share old new idle busy fits grows more few some_time =
    let all : (occupied new + 2 ^ 64 - occupied old) % 2 ^ 64 ≡ idle + busy = omega arith in
    let idles : (new.idle + 2 ^ 32 - old.idle) % 2 ^ 32 ≡ idle = omega arith in
    (
      rw (all, idles) (share (idle + busy) idle few some_time (omega arith)),
      quotient_le idle (idle + busy) (omega arith) some_time,
    )

used_percent-pos :
    (total free : ℕ)
    → free ≤ total
    → 0 < total
    → (used_percent total free ≡ ret (pos ((total - free) * 100 / total)))
      × ((total - free) * 100 / total ≤ 100)
unfolding used_percent
used_percent-pos total free h p = (ground arith, quotient_le (total - free) total (omega arith) p)

largest :
    (a b c n : ℕ)
    → a ≤ n
    → b ≤ n
    → c ≤ n
    → (p : ℕ) × (max3 (pos a) (pos b) (pos c) ≡ pos p)
      × (p ≤ n)
      × (a ≤ p)
      × (b ≤ p)
      × (c ≤ p)
      × ((p ≡ a) ⊎ ((p ≡ b) ⊎ (p ≡ c)))
largest a b c n x y z = elim (Bool-cases (ltb b a)) [
  | inl e ↦ elim (Bool-cases (ltb c a)) [
    | inl f ↦ (a, rw (e, f) refl, x, omega arith, ground arith, ground arith, inl refl)
    | inr f ↦ (c, rw (e, f) refl, z, ground arith, ground arith, omega arith, inr (inr refl))
  ]
  | inr e ↦ elim (Bool-cases (ltb c b)) [
    | inl f ↦ (b, rw (e, f) refl, y, ground arith, omega arith, ground arith, inr (inl refl))
    | inr f ↦ (c, rw (e, f) refl, z, ground arith, ground arith, omega arith, inr (inr refl))
  ]
]

abbrev pub used : ℕ → ℕ → ℕ
used total free = (total - free) * 100 / total

-- Totals above 0 with as much free at most, and a use of the processor of 100 at most: the answer is
-- one of the three percentages, the largest, and 100 at most.
pub get_percent-largest :
    (s : ServerStatus) (cpu : ℕ)
    → s.cpu_used ≡ pos cpu
    → cpu ≤ 100
    → s.disk_free ≤ s.disk_total
    → s.mem_free ≤ s.mem_total
    → 0 < s.disk_total
    → 0 < s.mem_total
    → (p : ℕ) × (get_percent s ≡ ret (pos p))
      × (p ≤ 100)
      × (cpu ≤ p)
      × (used s.disk_total s.disk_free ≤ p)
      × (used s.mem_total s.mem_free ≤ p)
      × ((p ≡ cpu) ⊎ ((p ≡ used s.disk_total s.disk_free) ⊎ (p ≡ used s.mem_total s.mem_free)))
unfolding get_percent
get_percent-largest s cpu c small d m dt mt =
    let (disk, disk_small) = used_percent-pos s.disk_total s.disk_free d dt in
    let (mem, mem_small) = used_percent-pos s.mem_total s.mem_free m mt in
    let (p, e, p_small, p_cpu, p_disk, p_mem, one) =
      largest cpu (used s.disk_total s.disk_free) (used s.mem_total s.mem_free) 100 small disk_small
        mem_small in
    (p, rw (disk, mem, c) (ap ret e), p_small, p_cpu, p_disk, p_mem, one)
