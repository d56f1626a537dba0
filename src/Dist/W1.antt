-- ===== src/Dist/W1.antt =====
-- model/dist.cc: the table `w1`, from its parts.
pub mod PartA
pub mod PartB
use homa_nic.Prelude.{List, ◌++◌}
use homa_nic.Dist.Point.{CdfPoint}
use PartA.{w1_a}
use PartB.{w1_b}

unfoldable pub w1 : List CdfPoint
unfolding w1_a w1_b
w1 = w1_a ++ w1_b
