-- ===== src/CapacityTimer/Examples.antt =====
-- Integers in place of floating-point numbers; a division keeps the number that it divides.
use partsim.Prelude.Int.{ℤ, ◌+ℤ◌, ◌-ℤ◌, ◌*ℤ◌, leb_ℤ, ltb_ℤ, eqb_ℤ}
use partsim.CapacityTimer.{Doubles}

abbrev pub integers : Doubles ℤ
integers = record {
  of_tick = λ t. t;
  to_tick = λ t. t;
  ceil = λ t. t;
  floor = λ t. t;
  add = λ a b. a +ℤ b;
  sub = λ a b. a -ℤ b;
  mul = λ a b. a *ℤ b;
  div = λ a b. a;
  le = leb_ℤ;
  lt = ltb_ℤ;
  eq = eqb_ℤ;
}
