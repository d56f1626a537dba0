-- ===== src/Dist/W5/PartB.antt =====
-- model/dist.cc: lines 2150 to 2283 of the table `w5`.
use homa_nic.Prelude.{List, [], ◌∷◌}
use homa_nic.Dist.Point.{CdfPoint, pt}

unfoldable pub w5_b : List CdfPoint
w5_b =
    pt 198450 6003750000000000
    ∷ pt 199920 6005620000000000
    ∷ pt 201390 6007490000000000
    ∷ pt 202860 6009360000000000
    ∷ pt 204330 6011240000000000
    ∷ pt 205800 6013110000000000
    ∷ pt 207270 6014980000000000
    ∷ pt 208740 6016850000000000
    ∷ pt 210210 6018730000000000
    ∷ pt 211680 6020600000000000
    ∷ pt 213150 6022470000000000
    ∷ pt 214620 6024340000000000
    ∷ pt 216090 6026220000000000
    ∷ pt 217560 6028090000000000
    ∷ pt 219030 6029960000000000
    ∷ pt 220500 6031840000000000
    ∷ pt 221970 6033710000000000
    ∷ pt 223440 6035580000000000
    ∷ pt 224910 6037450000000000
    ∷ pt 226380 6039330000000000
    ∷ pt 227850 6041200000000000
    ∷ pt 229320 6043070000000000
    ∷ pt 230790 6044940000000000
    ∷ pt 232260 6046820000000000
    ∷ pt 233730 6048690000000000
    ∷ pt 235200 6050560000000000
    ∷ pt 236670 6052430000000000
    ∷ pt 238140 6054310000000000
    ∷ pt 239610 6056180000000000
    ∷ pt 241080 6058050000000000
    ∷ pt 242550 6059930000000000
    ∷ pt 244020 6061800000000000
    ∷ pt 245490 6063670000000000
    ∷ pt 246960 6065540000000000
    ∷ pt 248430 6067420000000000
    ∷ pt 249900 6069290000000000
    ∷ pt 251370 6071160000000000
    ∷ pt 252840 6073030000000000
    ∷ pt 254310 6074910000000000
    ∷ pt 255780 6076780000000000
    ∷ pt 257250 6078650000000000
    ∷ pt 258720 6080520000000000
    ∷ pt 260190 6082400000000000
    ∷ pt 261660 6084270000000000
    ∷ pt 263130 6086140000000000
    ∷ pt 264600 6088010000000000
    ∷ pt 266070 6089890000000000
    ∷ pt 267540 6091760000000000
    ∷ pt 269010 6093630000000000
    ∷ pt 270480 6095510000000000
    ∷ pt 271950 6097380000000000
    ∷ pt 273420 6099250000000000
    ∷ pt 274890 6101120000000000
    ∷ pt 276360 6103000000000000
    ∷ pt 277830 6104870000000000
    ∷ pt 279300 6106740000000000
    ∷ pt 280770 6108610000000000
    ∷ pt 282240 6110490000000000
    ∷ pt 283710 6112360000000000
    ∷ pt 285180 6114230000000000
    ∷ pt 286650 6116100000000000
    ∷ pt 288120 6117980000000000
    ∷ pt 289590 6119850000000000
    ∷ pt 291060 6121720000000000
    ∷ pt 292530 6123600000000000
    ∷ pt 294000 6125470000000000
    ∷ pt 295470 6127340000000000
    ∷ pt 296940 6129210000000000
    ∷ pt 298410 6131090000000000
    ∷ pt 299880 6132960000000000
    ∷ pt 301350 6134830000000000
    ∷ pt 302820 6136700000000000
    ∷ pt 304290 6138580000000000
    ∷ pt 305760 6140450000000000
    ∷ pt 307230 6142320000000000
    ∷ pt 308700 6144190000000000
    ∷ pt 310170 6146070000000000
    ∷ pt 311640 6147940000000000
    ∷ pt 313110 6149810000000000
    ∷ pt 314580 6151690000000000
    ∷ pt 316050 6153560000000000
    ∷ pt 317520 6155430000000000
    ∷ pt 318990 6157300000000000
    ∷ pt 320460 6159180000000000
    ∷ pt 321930 6161050000000000
    ∷ pt 323400 6162920000000000
    ∷ pt 324870 6164790000000000
    ∷ pt 326340 6166670000000000
    ∷ pt 327810 6168540000000000
    ∷ pt 329280 6170410000000000
    ∷ pt 330750 6172280000000000
    ∷ pt 332220 6174160000000000
    ∷ pt 333690 6176030000000000
    ∷ pt 335160 6177900000000000
    ∷ pt 336630 6179780000000000
    ∷ pt 338100 6181650000000000
    ∷ pt 339570 6183520000000000
    ∷ pt 341040 6185390000000000
    ∷ pt 342510 6187270000000000
    ∷ pt 343980 6189140000000000
    ∷ pt 345450 6191010000000000
    ∷ pt 346920 6192880000000000
    ∷ pt 348390 6194760000000000
    ∷ pt 349860 6196630000000000
    ∷ pt 351330 6198500000000000
    ∷ pt 352800 6200370000000000
    ∷ pt 354270 6202250000000000
    ∷ pt 355740 6204120000000000
    ∷ pt 357210 6205990000000000
    ∷ pt 358680 6207870000000000
    ∷ pt 360150 6209740000000000
    ∷ pt 361620 6211610000000000
    ∷ pt 363090 6213480000000000
    ∷ pt 364560 6215360000000000
    ∷ pt 373380 6226590000000000
    ∷ pt 392490 6250940000000000
    ∷ pt 411600 6275280000000000
    ∷ pt 432180 6301500000000000
    ∷ pt 451290 6325840000000000
    ∷ pt 470400 6350190000000000
    ∷ pt 490980 6376400000000000
    ∷ pt 510090 6400750000000000
    ∷ pt 529200 6425090000000000
    ∷ pt 549780 6451310000000000
    ∷ pt 568890 6475660000000000
    ∷ pt 588000 6500000000000000
    ∷ pt 608580 6526220000000000
    ∷ pt 627690 6550560000000000
    ∷ pt 648270 6576780000000000
    ∷ pt 667380 6601120000000000
    ∷ pt 686490 6625470000000000
    ∷ pt 707070 6651690000000000
    ∷ pt 726180 6676030000000000
    ∷ pt 745290 6700370000000000
    ∷ []
