-- ===== src/Dist/W3.antt =====
-- model/dist.cc: the table `w3`, from its parts.
pub mod PartA
pub mod PartB
pub mod PartC
pub mod PartD
pub mod PartE
pub mod PartF
use homa_nic.Prelude.{List, ◌++◌}
use homa_nic.Dist.Point.{CdfPoint}
use PartA.{w3_a}
use PartB.{w3_b}
use PartC.{w3_c}
use PartD.{w3_d}
use PartE.{w3_e}
use PartF.{w3_f}

unfoldable pub w3 : List CdfPoint
unfolding w3_a w3_b w3_c w3_d w3_e w3_f
w3 = w3_a ++ (w3_b ++ (w3_c ++ (w3_d ++ (w3_e ++ w3_f))))
