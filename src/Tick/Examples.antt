-- ===== src/Tick/Examples.antt =====
-- The decrements at the tick 7.
use partsim.Prelude.Int.{pos}
use partsim.Tick.{Tick}

abbrev seven : Tick
seven = pos 7
