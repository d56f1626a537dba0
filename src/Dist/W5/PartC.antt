-- ===== src/Dist/W5/PartC.antt =====
-- model/dist.cc: lines 2284 to 2415 of the table `w5`.
use homa_nic.Prelude.{List, [], ◌∷◌}
use homa_nic.Dist.Point.{CdfPoint, pt}

unfoldable pub w5_c : List CdfPoint
w5_c =
    pt 765870 6726590000000000
    ∷ pt 784980 6750940000000000
    ∷ pt 804090 6775280000000000
    ∷ pt 824670 6801500000000000
    ∷ pt 843780 6825840000000000
    ∷ pt 862890 6850190000000000
    ∷ pt 883470 6876400000000000
    ∷ pt 902580 6900750000000000
    ∷ pt 921690 6925090000000000
    ∷ pt 942270 6951310000000000
    ∷ pt 961380 6975660000000000
    ∷ pt 980490 7000000000000000
    ∷ pt 1005480 7025530000000000
    ∷ pt 1030470 7051050000000000
    ∷ pt 1053990 7075080000000000
    ∷ pt 1078980 7100600000000000
    ∷ pt 1103970 7126130000000000
    ∷ pt 1127490 7150150000000000
    ∷ pt 1152480 7175680000000000
    ∷ pt 1177470 7201200000000000
    ∷ pt 1200990 7225230000000000
    ∷ pt 1225980 7250750000000000
    ∷ pt 1250970 7276280000000000
    ∷ pt 1274490 7300300000000000
    ∷ pt 1299480 7325830000000000
    ∷ pt 1324470 7351350000000000
    ∷ pt 1347990 7375380000000000
    ∷ pt 1372980 7400900000000000
    ∷ pt 1397970 7426430000000000
    ∷ pt 1421490 7450450000000000
    ∷ pt 1446480 7475980000000000
    ∷ pt 1470000 7500000000000000
    ∷ pt 1494990 7525530000000000
    ∷ pt 1519980 7551050000000000
    ∷ pt 1543500 7575080000000000
    ∷ pt 1568490 7600600000000000
    ∷ pt 1593480 7626130000000000
    ∷ pt 1617000 7650150000000000
    ∷ pt 1641990 7675680000000000
    ∷ pt 1666980 7701200000000000
    ∷ pt 1690500 7725230000000000
    ∷ pt 1715490 7750750000000000
    ∷ pt 1740480 7776280000000000
    ∷ pt 1764000 7800300000000000
    ∷ pt 1788990 7825830000000000
    ∷ pt 1813980 7851350000000000
    ∷ pt 1837500 7875380000000000
    ∷ pt 1862490 7900900000000000
    ∷ pt 1887480 7926430000000000
    ∷ pt 1911000 7950450000000000
    ∷ pt 1935990 7975980000000000
    ∷ pt 1959510 8000000000000000
    ∷ pt 2033010 8025000000000000
    ∷ pt 2106510 8050000000000000
    ∷ pt 2180010 8075000000000000
    ∷ pt 2253510 8100000000000000
    ∷ pt 2327010 8125000000000000
    ∷ pt 2400510 8150000000000000
    ∷ pt 2474010 8175000000000000
    ∷ pt 2547510 8200000000000000
    ∷ pt 2621010 8225000000000000
    ∷ pt 2694510 8250000000000000
    ∷ pt 2768010 8275000000000000
    ∷ pt 2841510 8300000000000000
    ∷ pt 2915010 8325000000000000
    ∷ pt 2988510 8350000000000000
    ∷ pt 3062010 8375000000000000
    ∷ pt 3135510 8400000000000000
    ∷ pt 3209010 8425000000000000
    ∷ pt 3282510 8450000000000000
    ∷ pt 3356010 8475000000000000
    ∷ pt 3429510 8500000000000000
    ∷ pt 3503010 8525000000000000
    ∷ pt 3576510 8550000000000000
    ∷ pt 3650010 8575000000000000
    ∷ pt 3723510 8600000000000000
    ∷ pt 3797010 8625000000000000
    ∷ pt 3870510 8650000000000000
    ∷ pt 3944010 8675000000000000
    ∷ pt 4017510 8700000000000000
    ∷ pt 4091010 8725000000000000
    ∷ pt 4164510 8750000000000000
    ∷ pt 4238010 8775000000000000
    ∷ pt 4311510 8800000000000000
    ∷ pt 4385010 8825000000000000
    ∷ pt 4458510 8850000000000000
    ∷ pt 4532010 8875000000000000
    ∷ pt 4605510 8900000000000000
    ∷ pt 4679010 8925000000000000
    ∷ pt 4752510 8950000000000000
    ∷ pt 4826010 8975000000000000
    ∷ pt 4899510 9000000000000000
    ∷ pt 10291470 9025050000000000
    ∷ pt 10780980 9050030000000000
    ∷ pt 11270490 9075000000000000
    ∷ pt 11761470 9100050000000000
    ∷ pt 12250980 9125030000000000
    ∷ pt 12740490 9150000000000000
    ∷ pt 13231470 9175050000000000
    ∷ pt 13720980 9200030000000000
    ∷ pt 14210490 9225010000000000
    ∷ pt 14701470 9250060000000000
    ∷ pt 15190980 9275030000000000
    ∷ pt 15680490 9300010000000000
    ∷ pt 16171470 9325060000000000
    ∷ pt 16660980 9350030000000000
    ∷ pt 17150490 9375010000000000
    ∷ pt 17641470 9400060000000000
    ∷ pt 18130980 9425040000000000
    ∷ pt 18620490 9450010000000000
    ∷ pt 19111470 9475060000000000
    ∷ pt 19600980 9500040000000000
    ∷ pt 20090490 9525010000000000
    ∷ pt 20581470 9550060000000000
    ∷ pt 21070980 9575040000000000
    ∷ pt 21560490 9600020000000000
    ∷ pt 22051470 9625070000000000
    ∷ pt 22540980 9650040000000000
    ∷ pt 23030490 9675020000000000
    ∷ pt 23521470 9700070000000000
    ∷ pt 24010980 9725040000000000
    ∷ pt 24500490 9750020000000000
    ∷ pt 24991470 9775070000000000
    ∷ pt 25480980 9800050000000000
    ∷ pt 25970490 9825020000000000
    ∷ pt 26461470 9850070000000000
    ∷ pt 26950980 9875050000000000
    ∷ pt 27440490 9900020000000000
    ∷ pt 27931470 9925070000000000
    ∷ pt 28420980 9950050000000000
    ∷ pt 28910490 9975020000000000
    ∷ pt 29400000 10000000000000000
    ∷ []
