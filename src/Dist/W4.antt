-- ===== src/Dist/W4.antt =====
-- model/dist.cc: the table `w4`, from its parts. The rows of its `#if 0` branch are not compiled.
pub mod PartA
pub mod PartB
pub mod PartC
pub mod PartD
use homa_nic.Prelude.{List, ◌++◌}
use homa_nic.Dist.Point.{CdfPoint}
use PartA.{w4_a}
use PartB.{w4_b}
use PartC.{w4_c}
use PartD.{w4_d}

unfoldable pub w4 : List CdfPoint
unfolding w4_a w4_b w4_c w4_d
w4 = w4_a ++ (w4_b ++ (w4_c ++ w4_d))
