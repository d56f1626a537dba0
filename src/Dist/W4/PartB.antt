-- ===== src/Dist/W4/PartB.antt =====
-- model/dist.cc: lines 1651 to 1770 of the table `w4`.
use homa_nic.Prelude.{List, [], ◌∷◌}
use homa_nic.Dist.Point.{CdfPoint, pt}

unfoldable pub w4_b : List CdfPoint
w4_b =
    pt 808 5777000000000000
    ∷ pt 816 5792000000000000
    ∷ pt 825 5807000000000000
    ∷ pt 833 5822000000000000
    ∷ pt 841 5837000000000000
    ∷ pt 850 5852000000000000
    ∷ pt 859 5867000000000000
    ∷ pt 867 5882000000000000
    ∷ pt 876 5897000000000000
    ∷ pt 885 5912000000000000
    ∷ pt 900 5930500000000000
    ∷ pt 914 5949000000000000
    ∷ pt 929 5967500000000000
    ∷ pt 945 5986000000000000
    ∷ pt 960 6004500000000000
    ∷ pt 976 6023000000000000
    ∷ pt 992 6041500000000000
    ∷ pt 1009 6060000000000000
    ∷ pt 1025 6078500000000000
    ∷ pt 1042 6097000000000000
    ∷ pt 1063 6115500000000000
    ∷ pt 1085 6134000000000000
    ∷ pt 1108 6152500000000000
    ∷ pt 1130 6171000000000000
    ∷ pt 1154 6189500000000000
    ∷ pt 1177 6208000000000000
    ∷ pt 1201 6226500000000000
    ∷ pt 1226 6245000000000000
    ∷ pt 1251 6263500000000000
    ∷ pt 1277 6282000000000000
    ∷ pt 1290 6293200000000000
    ∷ pt 1303 6304400000000000
    ∷ pt 1316 6315600000000000
    ∷ pt 1330 6326800000000000
    ∷ pt 1343 6338000000000000
    ∷ pt 1357 6349200000000000
    ∷ pt 1371 6360400000000000
    ∷ pt 1385 6371600000000000
    ∷ pt 1399 6382800000000000
    ∷ pt 1413 6394000000000000
    ∷ pt 1425 6401400000000000
    ∷ pt 1436 6408800000000000
    ∷ pt 1448 6416200000000000
    ∷ pt 1460 6423600000000000
    ∷ pt 1472 6431000000000000
    ∷ pt 1484 6438400000000000
    ∷ pt 1497 6445800000000000
    ∷ pt 1509 6453200000000000
    ∷ pt 1521 6460600000000000
    ∷ pt 1534 6468000000000000
    ∷ pt 1547 6488500000000000
    ∷ pt 1559 6509000000000000
    ∷ pt 1572 6529500000000000
    ∷ pt 1585 6550000000000000
    ∷ pt 1598 6570500000000000
    ∷ pt 1611 6591000000000000
    ∷ pt 1624 6611500000000000
    ∷ pt 1637 6632000000000000
    ∷ pt 1651 6652500000000000
    ∷ pt 1664 6673000000000000
    ∷ pt 1712 6680400000000000
    ∷ pt 1762 6687800000000000
    ∷ pt 1813 6695200000000000
    ∷ pt 1865 6702600000000000
    ∷ pt 1919 6710000000000000
    ∷ pt 1975 6717400000000000
    ∷ pt 2032 6724800000000000
    ∷ pt 2091 6732200000000000
    ∷ pt 2152 6739600000000000
    ∷ pt 2214 6747000000000000
    ∷ pt 2311 6756300000000000
    ∷ pt 2412 6765600000000000
    ∷ pt 2517 6774900000000000
    ∷ pt 2627 6784200000000000
    ∷ pt 2742 6793500000000000
    ∷ pt 2862 6802800000000000
    ∷ pt 2987 6812100000000000
    ∷ pt 3118 6821400000000000
    ∷ pt 3254 6830700000000000
    ∷ pt 3396 6840000000000000
    ∷ pt 3544 6849300000000000
    ∷ pt 3699 6858600000000000
    ∷ pt 3861 6867900000000000
    ∷ pt 4030 6877200000000000
    ∷ pt 4206 6886500000000000
    ∷ pt 4390 6895800000000000
    ∷ pt 4582 6905100000000000
    ∷ pt 4783 6914400000000000
    ∷ pt 4992 6923700000000000
    ∷ pt 5210 6933000000000000
    ∷ pt 5427 6947900000000000
    ∷ pt 5652 6962800000000000
    ∷ pt 5887 6977700000000000
    ∷ pt 6132 6992600000000000
    ∷ pt 6387 7007500000000000
    ∷ pt 6653 7022400000000000
    ∷ pt 6929 7037300000000000
    ∷ pt 7217 7052200000000000
    ∷ pt 7517 7067100000000000
    ∷ pt 7830 7082000000000000
    ∷ pt 9012 7095000000000000
    ∷ pt 10373 7108000000000000
    ∷ pt 11939 7121000000000000
    ∷ pt 13741 7134000000000000
    ∷ pt 15816 7147000000000000
    ∷ pt 18203 7160000000000000
    ∷ pt 20952 7173000000000000
    ∷ pt 24115 7186000000000000
    ∷ pt 27756 7199000000000000
    ∷ pt 31946 7212000000000000
    ∷ pt 32405 7221300000000000
    ∷ pt 32871 7230600000000000
    ∷ pt 33343 7239900000000000
    ∷ pt 33822 7249200000000000
    ∷ pt 34308 7258500000000000
    ∷ pt 34801 7267800000000000
    ∷ pt 35301 7277100000000000
    ∷ pt 35808 7286400000000000
    ∷ pt 36322 7295700000000000
    ∷ pt 36844 7305000000000000
    ∷ []
