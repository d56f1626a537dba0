-- ===== src/Dist/W3/PartF.antt =====
-- model/dist.cc: lines 1391 to 1527 of the table `w3`.
use homa_nic.Prelude.{List, [], ◌∷◌}
use homa_nic.Dist.Point.{CdfPoint, pt}

unfoldable pub w3_f : List CdfPoint
w3_f =
    pt 755059 9996570817654130
    ∷ pt 760371 9996596032230200
    ∷ pt 765759 9996621246806270
    ∷ pt 771224 9996646461382340
    ∷ pt 776767 9996671675958420
    ∷ pt 782390 9996696890534490
    ∷ pt 788096 9996722105110560
    ∷ pt 793885 9996747319686640
    ∷ pt 799760 9996772534262710
    ∷ pt 805723 9996797748838780
    ∷ pt 811775 9996822963414850
    ∷ pt 817919 9996848177990930
    ∷ pt 824156 9996873392567000
    ∷ pt 830490 9996898607143070
    ∷ pt 836921 9996923821719140
    ∷ pt 843453 9996949036295220
    ∷ pt 850088 9996974250871290
    ∷ pt 856827 9996999465447360
    ∷ pt 863675 9997024680023430
    ∷ pt 870633 9997049894599510
    ∷ pt 877704 9997075109175580
    ∷ pt 884890 9997100323751650
    ∷ pt 892196 9997125538327720
    ∷ pt 899623 9997150752903800
    ∷ pt 907174 9997175967479870
    ∷ pt 914854 9997201182055940
    ∷ pt 922664 9997226396632010
    ∷ pt 930609 9997251611208090
    ∷ pt 938693 9997276825784160
    ∷ pt 946917 9997302040360230
    ∷ pt 955288 9997327254936300
    ∷ pt 963807 9997352469512380
    ∷ pt 972480 9997377684088450
    ∷ pt 981310 9997402898664520
    ∷ pt 990302 9997428113240600
    ∷ pt 999461 9997453327816670
    ∷ pt 1008790 9997478542392740
    ∷ pt 1018296 9997503756968810
    ∷ pt 1027982 9997528971544890
    ∷ pt 1037854 9997554186120960
    ∷ pt 1047917 9997579400697030
    ∷ pt 1058178 9997604615273100
    ∷ pt 1068642 9997629829849180
    ∷ pt 1079314 9997655044425250
    ∷ pt 1090202 9997680259001320
    ∷ pt 1101312 9997705473577390
    ∷ pt 1112651 9997730688153470
    ∷ pt 1124225 9997755902729540
    ∷ pt 1136043 9997781117305610
    ∷ pt 1148112 9997806331881680
    ∷ pt 1160440 9997831546457760
    ∷ pt 1173036 9997856761033830
    ∷ pt 1185908 9997881975609900
    ∷ pt 1199066 9997907190185980
    ∷ pt 1212519 9997932404762050
    ∷ pt 1226277 9997957619338120
    ∷ pt 1240351 9997982833914190
    ∷ pt 1254752 9998008048490260
    ∷ pt 1269492 9998033263066340
    ∷ pt 1284581 9998058477642410
    ∷ pt 1300034 9998083692218480
    ∷ pt 1315863 9998108906794550
    ∷ pt 1332082 9998134121370630
    ∷ pt 1348706 9998159335946700
    ∷ pt 1365751 9998184550522770
    ∷ pt 1383231 9998209765098850
    ∷ pt 1401165 9998234979674920
    ∷ pt 1419570 9998260194250990
    ∷ pt 1438465 9998285408827060
    ∷ pt 1457870 9998310623403140
    ∷ pt 1477805 9998335837979210
    ∷ pt 1498294 9998361052555280
    ∷ pt 1519358 9998386267131350
    ∷ pt 1541023 9998411481707430
    ∷ pt 1563315 9998436696283500
    ∷ pt 1586261 9998461910859570
    ∷ pt 1609891 9998487125435640
    ∷ pt 1634235 9998512340011720
    ∷ pt 1659327 9998537554587790
    ∷ pt 1685202 9998562769163860
    ∷ pt 1711896 9998587983739930
    ∷ pt 1739450 9998613198316010
    ∷ pt 1767905 9998638412892080
    ∷ pt 1797307 9998663627468150
    ∷ pt 1827703 9998688842044230
    ∷ pt 1859145 9998714056620300
    ∷ pt 1891687 9998739271196370
    ∷ pt 1925389 9998764485772440
    ∷ pt 1960314 9998789700348510
    ∷ pt 1996529 9998814914924590
    ∷ pt 2034108 9998840129500660
    ∷ pt 2073128 9998865344076730
    ∷ pt 2113675 9998890558652810
    ∷ pt 2155839 9998915773228880
    ∷ pt 2199720 9998940987804950
    ∷ pt 2245424 9998966202381020
    ∷ pt 2293067 9998991416957100
    ∷ pt 2342777 9999016631533170
    ∷ pt 2394689 9999041846109240
    ∷ pt 2448954 9999067060685310
    ∷ pt 2505735 9999092275261390
    ∷ pt 2565212 9999117489837460
    ∷ pt 2627581 9999142704413530
    ∷ pt 2693059 9999167918989600
    ∷ pt 2761883 9999193133565680
    ∷ pt 2834317 9999218348141750
    ∷ pt 2910653 9999243562717820
    ∷ pt 2991214 9999268777293890
    ∷ pt 3076362 9999293991869970
    ∷ pt 3166500 9999319206446040
    ∷ pt 3262080 9999344421022110
    ∷ pt 3363608 9999369635598190
    ∷ pt 3471660 9999394850174260
    ∷ pt 3586885 9999420064750330
    ∷ pt 3710020 9999445279326400
    ∷ pt 3841911 9999470493902480
    ∷ pt 3983524 9999495708478550
    ∷ pt 4135977 9999520923054620
    ∷ pt 4300563 9999546137630690
    ∷ pt 4478791 9999571352206770
    ∷ pt 4672430 9999596566782840
    ∷ pt 4883570 9999621781358910
    ∷ pt 5114695 9999646995934980
    ∷ pt 5368784 9999672210511060
    ∷ pt 5649438 9999697425087130
    ∷ pt 5961053 9999722639663200
    ∷ pt 6309051 9999747854239270
    ∷ pt 6700199 9999773068815350
    ∷ pt 7143054 9999798283391420
    ∷ pt 7648594 9999823497967490
    ∷ pt 8231141 9999848712543560
    ∷ pt 8909743 9999873927119640
    ∷ pt 9710291 9999899141695710
    ∷ pt 10668901 9999924356271780
    ∷ pt 11837511 9999949570847850
    ∷ pt 13293619 9999974785423930
    ∷ pt 15158197 10000000000000000
    ∷ []
