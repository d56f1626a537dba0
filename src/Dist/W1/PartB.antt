-- ===== src/Dist/W1/PartB.antt =====
-- model/dist.cc: lines 378 to 527 of the table `w1`.
use homa_nic.Prelude.{List, [], ◌∷◌}
use homa_nic.Dist.Point.{CdfPoint, pt}

unfoldable pub w1_b : List CdfPoint
w1_b =
    pt 1283 9786396254229370
    ∷ pt 1321 9798320130910700
    ∷ pt 1360 9809678756214330
    ∷ pt 1401 9820491279922670
    ∷ pt 1442 9830776766207790
    ∷ pt 1485 9840554147868980
    ∷ pt 1529 9849842183631160
    ∷ pt 1574 9858659418539980
    ∷ pt 1621 9867024147466820
    ∷ pt 1669 9874954381715980
    ∷ pt 1719 9882467818706910
    ∷ pt 1770 9889581814686290
    ∷ pt 1822 9896313360408490
    ∷ pt 1876 9902679059708480
    ∷ pt 1932 9908695110877890
    ∷ pt 1989 9914377290744150
    ∷ pt 2048 9919740941342570
    ∷ pt 2109 9924800959063330
    ∷ pt 2172 9929571786148880
    ∷ pt 2236 9934067404412110
    ∷ pt 2303 9938301331042150
    ∷ pt 2371 9942286616362180
    ∷ pt 2441 9946035843402560
    ∷ pt 2514 9949561129152810
    ∷ pt 2588 9952874127356570
    ∷ pt 2665 9955986032716060
    ∷ pt 2744 9958907586375020
    ∷ pt 2826 9961649082552740
    ∷ pt 2909 9964220376205710
    ∷ pt 2996 9966630891598290
    ∷ pt 3085 9968889631668590
    ∷ pt 3176 9971005188081310
    ∷ pt 3270 9972985751864730
    ∷ pt 3367 9974839124535330
    ∷ pt 3467 9976572729618770
    ∷ pt 3570 9978193624482840
    ∷ pt 3676 9979708512403280
    ∷ pt 3785 9981123754789740
    ∷ pt 3897 9982445383505060
    ∷ pt 4013 9983679113216600
    ∷ pt 4132 9984830353724090
    ∷ pt 4255 9985904222213870
    ∷ pt 4381 9986905555394600
    ∷ pt 4511 9987838921474280
    ∷ pt 4645 9988708631943600
    ∷ pt 4782 9989518753134390
    ∷ pt 4924 9990273117526960
    ∷ pt 5070 9990975334783280
    ∷ pt 5221 9991628802487180
    ∷ pt 5376 9992236716575840
    ∷ pt 5535 9992802081450000
    ∷ pt 5699 9993327719753420
    ∷ pt 5868 9993816281814320
    ∷ pt 6043 9994270254744510
    ∷ pt 6222 9994691971193450
    ∷ pt 6406 9995083617756900
    ∷ pt 6596 9995447243041360
    ∷ pt 6792 9995784765386990
    ∷ pt 6994 9996097980253160
    ∷ pt 7201 9996388567271980
    ∷ pt 7415 9996658096975950
    ∷ pt 7635 9996908037207150
    ∷ pt 7861 9997139759215590
    ∷ pt 8094 9997354543455550
    ∷ pt 8334 9997553585088600
    ∷ pt 8582 9997737999203010
    ∷ pt 8836 9997908825758930
    ∷ pt 9098 9998067034269440
    ∷ pt 9368 9998213528227420
    ∷ pt 9646 9998349149288200
    ∷ pt 9932 9998474681218280
    ∷ pt 10227 9998590853619880
    ∷ pt 10530 9998698345441440
    ∷ pt 10843 9998797788283650
    ∷ pt 11164 9998889769510740
    ∷ pt 11496 9998974835176340
    ∷ pt 11837 9999053492772990
    ∷ pt 12188 9999126213814350
    ∷ pt 12549 9999193436258570
    ∷ pt 12922 9999255566781250
    ∷ pt 13305 9999312982905990
    ∷ pt 13700 9999366035000360
    ∷ pt 14106 9999415048144600
    ∷ pt 14524 9999460323880380
    ∷ pt 14955 9999502141846240
    ∷ pt 15399 9999540761306540
    ∷ pt 15856 9999576422579820
    ∷ pt 16326 9999609348372850
    ∷ pt 16810 9999639745025830
    ∷ pt 17309 9999667803674180
    ∷ pt 17822 9999693701332060
    ∷ pt 18351 9999717601902450
    ∷ pt 18896 9999739657118370
    ∷ pt 19456 9999760007419600
    ∷ pt 20033 9999778782769010
    ∷ pt 20627 9999796103412340
    ∷ pt 21239 9999812080585180
    ∷ pt 21869 9999826817170460
    ∷ pt 22518 9999840408309830
    ∷ pt 23186 9999852941971890
    ∷ pt 23874 9999864499480210
    ∷ pt 24582 9999875156003770
    ∷ pt 25311 9999884981012450
    ∷ pt 26062 9999894038699780
    ∷ pt 26835 9999902388375410
    ∷ pt 27631 9999910084829170
    ∷ pt 28451 9999917178668790
    ∷ pt 29295 9999923716633120
    ∷ pt 30164 9999929741882430
    ∷ pt 31059 9999935294267600
    ∷ pt 31980 9999940410579510
    ∷ pt 32929 9999945124780050
    ∷ pt 33905 9999949468216210
    ∷ pt 34911 9999953469818190
    ∷ pt 35947 9999957156283000
    ∷ pt 37013 9999960552244220
    ∷ pt 38111 9999963680429300
    ∷ pt 39242 9999966561804950
    ∷ pt 40406 9999969215711770
    ∷ pt 41604 9999971659988730
    ∷ pt 42838 9999973911088260
    ∷ pt 44109 9999975984182740
    ∷ pt 45418 9999977893262890
    ∷ pt 46765 9999979651228790
    ∷ pt 48152 9999981269973910
    ∷ pt 49580 9999982760462810
    ∷ pt 51051 9999984132802980
    ∷ pt 52565 9999985396311120
    ∷ pt 54125 9999986559574400
    ∷ pt 55730 9999987630507070
    ∷ pt 57383 9999988616402660
    ∷ pt 59086 9999989523982280
    ∷ pt 60838 9999990359439100
    ∷ pt 62643 9999991128479520
    ∷ pt 64501 9999991836361100
    ∷ pt 66415 9999992487927550
    ∷ pt 68385 9999993087641100
    ∷ pt 70413 9999993639612310
    ∷ pt 72502 9999994147627560
    ∷ pt 74653 9999994615174480
    ∷ pt 76867 9999995045465310
    ∷ pt 79147 9999995441458540
    ∷ pt 81495 9999995805878810
    ∷ pt 83912 9999996141235290
    ∷ pt 86401 9999996449838610
    ∷ pt 88964 9999996733816460
    ∷ pt 91603 9999996995128020
    ∷ pt 94321 9999997235577240
    ∷ pt 97119 9999997456825010
    ∷ pt 100000 10000000000000000
    ∷ []
