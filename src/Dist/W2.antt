-- ===== src/Dist/W2.antt =====
-- model/dist.cc: the table `w2`, from its parts.
pub mod PartA
use homa_nic.Prelude.{List, ◌++◌}
use homa_nic.Dist.Point.{CdfPoint}
use PartA.{w2_a}

unfoldable pub w2 : List CdfPoint
unfolding w2_a
w2 = w2_a
