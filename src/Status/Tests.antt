-- ===== src/Status/Tests.antt =====
-- Runs of src/core/ServerStatus.cpp.
use snframe.Base.{ℕ, ◌≡◌, ◌≤◌, ◌⊎◌, refl, ret, arith}
use snframe.Status.{ServerStatus, pos, get_percent}
use snframe.Status.Percent.{used, get_percent-largest}

abbrev status : ServerStatus
status = record {
  cpu_used = pos 40;
  disk_total = 200;
  disk_free = 50;
  mem_total = 100;
  mem_free = 90;
}

get_percent-largest_example :
    (p : ℕ) × (get_percent status ≡ ret (pos p))
    × (p ≤ 100)
    × (40 ≤ p)
    × (used 200 50 ≤ p)
    × (used 100 90 ≤ p)
    × ((p ≡ 40) ⊎ ((p ≡ used 200 50) ⊎ (p ≡ used 100 90)))
get_percent-largest_example =
    get_percent-largest status 40 refl (omega arith) (omega arith) (omega arith) (omega arith)
      (omega arith)
