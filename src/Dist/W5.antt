-- ===== src/Dist/W5.antt =====
-- model/dist.cc: the table `w5`, from its parts.
pub mod PartA
pub mod PartB
pub mod PartC
use homa_nic.Prelude.{List, ◌++◌}
use homa_nic.Dist.Point.{CdfPoint}
use PartA.{w5_a}
use PartB.{w5_b}
use PartC.{w5_c}

unfoldable pub w5 : List CdfPoint
unfolding w5_a w5_b w5_c
w5 = w5_a ++ (w5_b ++ w5_c)
