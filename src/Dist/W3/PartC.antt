-- ===== src/Dist/W3/PartC.antt =====
-- model/dist.cc: lines 968 to 1108 of the table `w3`.
use homa_nic.Prelude.{List, [], ◌∷◌}
use homa_nic.Dist.Point.{CdfPoint, pt}

unfoldable pub w3_c : List CdfPoint
w3_c =
    pt 65902 9932987614157960
    ∷ pt 66272 9933417963791090
    ∷ pt 66647 9933848313424220
    ∷ pt 67025 9934278663057350
    ∷ pt 67408 9934709012690480
    ∷ pt 67796 9935139362323610
    ∷ pt 68188 9935569711956740
    ∷ pt 68584 9936000061589870
    ∷ pt 68985 9936430411223000
    ∷ pt 69391 9936860760856130
    ∷ pt 69802 9937291110489260
    ∷ pt 70217 9937721460122390
    ∷ pt 70638 9938151809755520
    ∷ pt 71063 9938582159388650
    ∷ pt 71494 9939012509021790
    ∷ pt 71930 9939442858654920
    ∷ pt 72371 9939873208288050
    ∷ pt 72818 9940303557921180
    ∷ pt 73270 9940733907554310
    ∷ pt 73728 9941164257187440
    ∷ pt 74192 9941594606820570
    ∷ pt 74661 9942024956453700
    ∷ pt 75137 9942455306086830
    ∷ pt 75618 9942885655719960
    ∷ pt 76106 9943316005353090
    ∷ pt 76601 9943746354986220
    ∷ pt 77101 9944176704619350
    ∷ pt 77608 9944607054252480
    ∷ pt 78122 9945037403885610
    ∷ pt 78643 9945467753518740
    ∷ pt 79171 9945898103151870
    ∷ pt 79706 9946328452785000
    ∷ pt 80248 9946758802418130
    ∷ pt 80798 9947189152051260
    ∷ pt 81355 9947619501684390
    ∷ pt 81920 9948049851317520
    ∷ pt 82493 9948480200950650
    ∷ pt 83074 9948910550583780
    ∷ pt 83663 9949340900216910
    ∷ pt 84261 9949771249850040
    ∷ pt 84867 9950201599483170
    ∷ pt 85482 9950631949116310
    ∷ pt 86106 9951062298749440
    ∷ pt 86739 9951492648382570
    ∷ pt 87381 9951922998015700
    ∷ pt 88033 9952353347648830
    ∷ pt 88695 9952783697281960
    ∷ pt 89367 9953214046915090
    ∷ pt 90049 9953644396548220
    ∷ pt 90742 9954074746181350
    ∷ pt 91446 9954505095814480
    ∷ pt 92160 9954935445447610
    ∷ pt 92886 9955365795080740
    ∷ pt 93623 9955796144713870
    ∷ pt 94372 9956226494347000
    ∷ pt 95133 9956656843980130
    ∷ pt 95906 9957087193613260
    ∷ pt 96692 9957517543246390
    ∷ pt 97492 9957947892879520
    ∷ pt 98304 9958378242512650
    ∷ pt 99130 9958808592145780
    ∷ pt 99970 9959238941778910
    ∷ pt 100825 9959669291412040
    ∷ pt 101694 9960099641045170
    ∷ pt 102578 9960529990678310
    ∷ pt 103478 9960960340311440
    ∷ pt 104394 9961390689944570
    ∷ pt 105326 9961821039577700
    ∷ pt 106275 9962251389210830
    ∷ pt 107241 9962681738843960
    ∷ pt 108225 9963112088477090
    ∷ pt 109227 9963542438110220
    ∷ pt 110247 9963972787743350
    ∷ pt 111288 9964403137376480
    ∷ pt 112347 9964833487009610
    ∷ pt 113428 9965263836642740
    ∷ pt 114529 9965694186275870
    ∷ pt 115652 9966124535909000
    ∷ pt 116797 9966554885542130
    ∷ pt 117965 9966985235175260
    ∷ pt 119156 9967415584808390
    ∷ pt 120372 9967845934441520
    ∷ pt 121613 9968276284074650
    ∷ pt 122880 9968706633707780
    ∷ pt 124173 9969136983340910
    ∷ pt 125494 9969567332974040
    ∷ pt 126844 9969997682607170
    ∷ pt 128223 9970428032240300
    ∷ pt 129632 9970858381873440
    ∷ pt 131072 9971288731506570
    ∷ pt 131630 9971400954354830
    ∷ pt 132192 9971513177203080
    ∷ pt 132760 9971625400051340
    ∷ pt 133332 9971737622899600
    ∷ pt 133909 9971849845747860
    ∷ pt 134491 9971962068596120
    ∷ pt 135079 9972074291444380
    ∷ pt 135671 9972186514292640
    ∷ pt 136269 9972298737140900
    ∷ pt 136872 9972410959989160
    ∷ pt 137480 9972523182837420
    ∷ pt 138094 9972635405685680
    ∷ pt 138713 9972747628533940
    ∷ pt 139338 9972859851382200
    ∷ pt 139968 9972972074230460
    ∷ pt 140605 9973084297078720
    ∷ pt 141247 9973196519926980
    ∷ pt 141894 9973308742775240
    ∷ pt 142548 9973420965623490
    ∷ pt 143208 9973533188471750
    ∷ pt 143874 9973645411320010
    ∷ pt 144547 9973757634168270
    ∷ pt 145225 9973869857016530
    ∷ pt 145910 9973982079864790
    ∷ pt 146602 9974094302713050
    ∷ pt 147300 9974206525561310
    ∷ pt 148005 9974318748409570
    ∷ pt 148716 9974430971257830
    ∷ pt 149435 9974543194106090
    ∷ pt 150160 9974655416954350
    ∷ pt 150893 9974767639802610
    ∷ pt 151632 9974879862650870
    ∷ pt 152379 9974992085499130
    ∷ pt 153134 9975104308347390
    ∷ pt 153895 9975216531195640
    ∷ pt 154665 9975328754043900
    ∷ pt 155442 9975440976892160
    ∷ pt 156227 9975553199740420
    ∷ pt 157020 9975665422588680
    ∷ pt 157821 9975777645436940
    ∷ pt 158631 9975889868285200
    ∷ pt 159448 9976002091133460
    ∷ pt 160275 9976114313981720
    ∷ pt 161109 9976226536829980
    ∷ pt 161953 9976338759678240
    ∷ pt 162805 9976450982526500
    ∷ pt 163667 9976563205374760
    ∷ pt 164537 9976675428223020
    ∷ pt 165417 9976787651071280
    ∷ pt 166306 9976899873919540
    ∷ pt 167205 9977012096767790
    ∷ []
