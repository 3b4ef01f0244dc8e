-- ===== src/Dict/Sizes.antt =====
-- dict.c, `dict_do_lookup`: the loop that finds the size to grow to.
use cagekeeper.Prelude.{ℕ, zero, suc, ◌+◌, ◌-◌, ◌*◌, ◌≤◌, ◌<◌, arith, ltb, if◌then◌else◌}
use cagekeeper.Dict.Defs.{new_size}
use Prim.Native.Nat.{max}

-- With enough fuel the loop for the new size ends by its test. The size holds `num` entries below
-- two thirds, is no smaller than the old one, and beyond the old size is at most `num * 3 + 15`.
pub new_size_lem :
    (fuel num newsize : ℕ)
    → num * 2 < fuel + newsize
    → (num * 3 < new_size fuel num newsize * 2)
      × (newsize ≤ new_size fuel num newsize)
      × (new_size fuel num newsize ≤ max newsize (num * 3 + 15))
unfolding new_size
new_size_lem zero num newsize h = omega arith
new_size_lem (suc fuel) num newsize h = ground (
  arith,
  new_size_lem fuel num (if ltb newsize 15 then 15 else (newsize + 1) * 2 - 1) (ground arith),
)
