-- ===== src/Tick.antt =====
-- libmetasim/include/metasim/tick.hpp: discrete time.
-- A tick holds an `int64_t`. Its arithmetic is the one of the integers: an overflow of a signed
-- 64-bit integer is undefined in the source, and no value of the model stands for it.
mod Examples
use partsim.Prelude.{ℕ, ◌≡◌, ◌%◌, ◌-◌, ◌^◌, suc, ltb, if◌then◌else◌, arith}
use partsim.Prelude.Int.{ℤ, pos, negsuc, ◌+ℤ◌, ◌-ℤ◌, ◌≤ℤ◌, ◌<ℤ◌, int_laws}

abbrev pub Tick : Type 0
Tick = ℤ

-- `MAXTICK` is `INT64_MAX`.
abbrev pub max_tick : Tick
max_tick = pos (2 ^ 63 - 1)

-- `++t`: the new value, which is also the result.
unfoldable pub pre_increment : Tick → Tick × Tick
pre_increment v = let v' = v +ℤ pos 1 in (v', v')

-- `t++`: the new value, and the old one as the result.
unfoldable pub post_increment : Tick → Tick × Tick
post_increment v = let v' = v +ℤ pos 1 in (v', v' -ℤ pos 1)

-- `--t`, whose body is `v++`.
unfoldable pub pre_decrement : Tick → Tick × Tick
pre_decrement v = let v' = v +ℤ pos 1 in (v', v')

-- `t--`
unfoldable pub post_decrement : Tick → Tick × Tick
post_decrement v = let v' = v -ℤ pos 1 in (v', v' +ℤ pos 1)

-- `(int) t`: the low 32 bits as a two's complement number.
abbrev pub low_32_bits : Tick → ℕ
low_32_bits (pos n) = n % 2 ^ 32
low_32_bits (negsuc n) = 2 ^ 32 - suc (n % 2 ^ 32)

unfoldable pub to_int32 : Tick → ℤ
to_int32 t =
    let bits = low_32_bits t in if ltb bits (2 ^ 31) then pos bits else negsuc (2 ^ 32 - suc bits)

-- A tick that an `int` can hold keeps its value.
pub to_int32_small : (t : Tick) → negsuc (2 ^ 31 - 1) ≤ℤ t → t <ℤ pos (2 ^ 31) → to_int32 t ≡ t
unfolding to_int32
to_int32_small (pos n) lo hi = ground arith
to_int32_small (negsuc n) lo hi = ground arith

-- `--t` raises the tick that it should lower: the two decrements disagree on every value, and
-- `t--` undoes `++t` while `--t` does not.
pub decrements_disagree :
    (t : Tick)
    → ((pre_decrement t).0 ≡ (post_decrement t).0 +ℤ pos 2)
      × ((post_decrement (pre_increment t).0).0 ≡ t)
      × ((pre_decrement (pre_increment t).0).0 ≡ t +ℤ pos 2)
unfolding pre_decrement post_decrement pre_increment
decrements_disagree t = omega int_laws
