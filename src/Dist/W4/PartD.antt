-- ===== src/Dist/W4/PartD.antt =====
-- model/dist.cc: lines 1891 to 2011 of the table `w4`.
use homa_nic.Prelude.{List, [], ◌∷◌}
use homa_nic.Dist.Point.{CdfPoint, pt}

unfoldable pub w4_d : List CdfPoint
w4_d =
    pt 159136 9173300000000000
    ∷ pt 161752 9182600000000000
    ∷ pt 164410 9191900000000000
    ∷ pt 167112 9201200000000000
    ∷ pt 169859 9210500000000000
    ∷ pt 172651 9219800000000000
    ∷ pt 175488 9229100000000000
    ∷ pt 178373 9238400000000000
    ∷ pt 181304 9247700000000000
    ∷ pt 184284 9257000000000000
    ∷ pt 186932 9266200000000000
    ∷ pt 189618 9275400000000000
    ∷ pt 192343 9284600000000000
    ∷ pt 195107 9293800000000000
    ∷ pt 197911 9303000000000000
    ∷ pt 200755 9312200000000000
    ∷ pt 203640 9321400000000000
    ∷ pt 206566 9330600000000000
    ∷ pt 209535 9339800000000000
    ∷ pt 212546 9349000000000000
    ∷ pt 215160 9358300000000000
    ∷ pt 217805 9367600000000000
    ∷ pt 220484 9376900000000000
    ∷ pt 223195 9386200000000000
    ∷ pt 225940 9395500000000000
    ∷ pt 228718 9404800000000000
    ∷ pt 231530 9414100000000000
    ∷ pt 234377 9423400000000000
    ∷ pt 237259 9432700000000000
    ∷ pt 240177 9442000000000000
    ∷ pt 244622 9451300000000000
    ∷ pt 249150 9460600000000000
    ∷ pt 253761 9469900000000000
    ∷ pt 258458 9479200000000000
    ∷ pt 263241 9488500000000000
    ∷ pt 268113 9497800000000000
    ∷ pt 273075 9507100000000000
    ∷ pt 278129 9516400000000000
    ∷ pt 283277 9525700000000000
    ∷ pt 288520 9535000000000000
    ∷ pt 302981 9544300000000000
    ∷ pt 318166 9553600000000000
    ∷ pt 334113 9562900000000000
    ∷ pt 350858 9572200000000000
    ∷ pt 368444 9581500000000000
    ∷ pt 386910 9590800000000000
    ∷ pt 406302 9600100000000000
    ∷ pt 426666 9609400000000000
    ∷ pt 448051 9618700000000000
    ∷ pt 470507 9628000000000000
    ∷ pt 492079 9633600000000000
    ∷ pt 514641 9639200000000000
    ∷ pt 538237 9644800000000000
    ∷ pt 562914 9650400000000000
    ∷ pt 588723 9656000000000000
    ∷ pt 615716 9661600000000000
    ∷ pt 643946 9667200000000000
    ∷ pt 673470 9672800000000000
    ∷ pt 704348 9678400000000000
    ∷ pt 736642 9684000000000000
    ∷ pt 754877 9687700000000000
    ∷ pt 773563 9691400000000000
    ∷ pt 792711 9695100000000000
    ∷ pt 812333 9698800000000000
    ∷ pt 832442 9702500000000000
    ∷ pt 853048 9706200000000000
    ∷ pt 874164 9709900000000000
    ∷ pt 895802 9713600000000000
    ∷ pt 917977 9717300000000000
    ∷ pt 940700 9721000000000000
    ∷ pt 1002039 9730300000000000
    ∷ pt 1067379 9739600000000000
    ∷ pt 1136978 9748900000000000
    ∷ pt 1211116 9758200000000000
    ∷ pt 1290088 9767500000000000
    ∷ pt 1374210 9776800000000000
    ∷ pt 1463817 9786100000000000
    ∷ pt 1559267 9795400000000000
    ∷ pt 1660940 9804700000000000
    ∷ pt 1769244 9814000000000000
    ∷ pt 1805665 9819600000000000
    ∷ pt 1842837 9825200000000000
    ∷ pt 1880773 9830800000000000
    ∷ pt 1919490 9836400000000000
    ∷ pt 1959005 9842000000000000
    ∷ pt 1999332 9847600000000000
    ∷ pt 2040490 9853200000000000
    ∷ pt 2082496 9858800000000000
    ∷ pt 2125366 9864400000000000
    ∷ pt 2169118 9870000000000000
    ∷ pt 2527289 9883000000000000
    ∷ pt 2944602 9896000000000000
    ∷ pt 3430822 9909000000000000
    ∷ pt 3997329 9922000000000000
    ∷ pt 4657379 9935000000000000
    ∷ pt 5426418 9948000000000000
    ∷ pt 6322443 9961000000000000
    ∷ pt 7366423 9974000000000000
    ∷ pt 8582787 9987000000000000
    ∷ pt 10000000 10000000000000000
    ∷ []
