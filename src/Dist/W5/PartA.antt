-- ===== src/Dist/W5/PartA.antt =====
-- model/dist.cc: lines 2016 to 2149 of the table `w5`.
use homa_nic.Prelude.{List, [], ◌∷◌}
use homa_nic.Dist.Point.{CdfPoint, pt}

unfoldable pub w5_a : List CdfPoint
w5_a =
    pt 1430 250000000000000
    ∷ pt 2860 500000000000000
    ∷ pt 4290 750000000000000
    ∷ pt 5720 1000000000000000
    ∷ pt 7150 1250000000000000
    ∷ pt 8580 1500000000000000
    ∷ pt 10010 1571430000000000
    ∷ pt 11440 1642860000000000
    ∷ pt 13230 1714290000000000
    ∷ pt 14700 1785710000000000
    ∷ pt 16170 1857140000000000
    ∷ pt 17640 1928570000000000
    ∷ pt 19110 2000000000000000
    ∷ pt 20580 2166670000000000
    ∷ pt 22050 2333330000000000
    ∷ pt 23520 2500000000000000
    ∷ pt 24990 2666670000000000
    ∷ pt 26460 2833330000000000
    ∷ pt 27930 3000000000000000
    ∷ pt 29400 3071430000000000
    ∷ pt 30870 3142860000000000
    ∷ pt 32340 3214290000000000
    ∷ pt 33810 3285710000000000
    ∷ pt 35280 3357140000000000
    ∷ pt 36750 3428570000000000
    ∷ pt 38220 3500000000000000
    ∷ pt 39690 3571430000000000
    ∷ pt 41160 3642860000000000
    ∷ pt 42630 3714290000000000
    ∷ pt 44100 3785710000000000
    ∷ pt 45570 3857140000000000
    ∷ pt 47040 3928570000000000
    ∷ pt 48510 4000000000000000
    ∷ pt 49980 4065000000000000
    ∷ pt 51450 4130000000000000
    ∷ pt 52920 4195000000000000
    ∷ pt 54390 4260000000000000
    ∷ pt 55860 4325000000000000
    ∷ pt 57330 4390000000000000
    ∷ pt 58800 4455000000000000
    ∷ pt 60270 4520000000000000
    ∷ pt 61740 4585000000000000
    ∷ pt 63210 4650000000000000
    ∷ pt 64680 4715000000000000
    ∷ pt 66150 4780000000000000
    ∷ pt 67620 4845000000000000
    ∷ pt 69090 4910000000000000
    ∷ pt 70560 4975000000000000
    ∷ pt 72030 5040000000000000
    ∷ pt 73500 5105000000000000
    ∷ pt 74970 5170000000000000
    ∷ pt 76440 5235000000000000
    ∷ pt 77910 5300000000000000
    ∷ pt 79380 5308750000000000
    ∷ pt 80850 5317500000000000
    ∷ pt 82320 5326250000000000
    ∷ pt 83790 5335000000000000
    ∷ pt 85260 5343750000000000
    ∷ pt 86730 5352500000000000
    ∷ pt 88200 5361250000000000
    ∷ pt 89670 5370000000000000
    ∷ pt 91140 5378750000000000
    ∷ pt 92610 5387500000000000
    ∷ pt 94080 5396250000000000
    ∷ pt 95550 5405000000000000
    ∷ pt 97020 5413750000000000
    ∷ pt 98490 5422500000000000
    ∷ pt 99960 5431250000000000
    ∷ pt 101430 5440000000000000
    ∷ pt 102900 5448750000000000
    ∷ pt 104370 5457500000000000
    ∷ pt 105840 5466250000000000
    ∷ pt 107310 5475000000000000
    ∷ pt 108780 5483750000000000
    ∷ pt 110250 5492500000000000
    ∷ pt 111720 5501250000000000
    ∷ pt 113190 5510000000000000
    ∷ pt 114660 5518750000000000
    ∷ pt 116130 5527500000000000
    ∷ pt 117600 5536250000000000
    ∷ pt 119070 5545000000000000
    ∷ pt 120540 5553750000000000
    ∷ pt 122010 5562500000000000
    ∷ pt 123480 5571250000000000
    ∷ pt 124950 5580000000000000
    ∷ pt 126420 5588750000000000
    ∷ pt 127890 5597500000000000
    ∷ pt 129360 5606250000000000
    ∷ pt 130830 5615000000000000
    ∷ pt 132300 5623750000000000
    ∷ pt 133770 5632500000000000
    ∷ pt 135240 5641250000000000
    ∷ pt 136710 5650000000000000
    ∷ pt 138180 5658750000000000
    ∷ pt 139650 5667500000000000
    ∷ pt 141120 5676250000000000
    ∷ pt 142590 5685000000000000
    ∷ pt 144060 5693750000000000
    ∷ pt 145530 5702500000000000
    ∷ pt 147000 5711250000000000
    ∷ pt 148470 5720000000000000
    ∷ pt 149940 5728750000000000
    ∷ pt 151410 5737500000000000
    ∷ pt 152880 5746250000000000
    ∷ pt 154350 5755000000000000
    ∷ pt 155820 5763750000000000
    ∷ pt 157290 5772500000000000
    ∷ pt 158760 5781250000000000
    ∷ pt 160230 5790000000000000
    ∷ pt 161700 5798750000000000
    ∷ pt 163170 5807500000000000
    ∷ pt 164640 5816250000000000
    ∷ pt 166110 5825000000000000
    ∷ pt 167580 5833750000000000
    ∷ pt 169050 5842500000000000
    ∷ pt 170520 5851250000000000
    ∷ pt 171990 5860000000000000
    ∷ pt 173460 5868750000000000
    ∷ pt 174930 5877500000000000
    ∷ pt 176400 5886250000000000
    ∷ pt 177870 5895000000000000
    ∷ pt 179340 5903750000000000
    ∷ pt 180810 5912500000000000
    ∷ pt 182280 5921250000000000
    ∷ pt 183750 5930000000000000
    ∷ pt 185220 5938750000000000
    ∷ pt 186690 5947500000000000
    ∷ pt 188160 5956250000000000
    ∷ pt 189630 5965000000000000
    ∷ pt 191100 5973750000000000
    ∷ pt 192570 5982500000000000
    ∷ pt 194040 5991250000000000
    ∷ pt 195510 6000000000000000
    ∷ pt 196980 6001870000000000
    ∷ []
