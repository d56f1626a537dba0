-- ===== src/Dist/W1/PartA.antt =====
-- model/dist.cc: lines 228 to 377 of the table `w1`.
use homa_nic.Prelude.{List, [], ◌∷◌}
use homa_nic.Dist.Point.{CdfPoint, pt}

unfoldable pub w1_a : List CdfPoint
w1_a =
    pt 8 3109400000000000
    ∷ pt 9 3193100000000000
    ∷ pt 10 3276800000000000
    ∷ pt 11 4175700000000000
    ∷ pt 12 4184900000000000
    ∷ pt 13 4217500000000000
    ∷ pt 14 4415500000000000
    ∷ pt 15 4700000000000000
    ∷ pt 16 4748218165010570
    ∷ pt 17 4773067349164550
    ∷ pt 18 4785984461593190
    ∷ pt 19 4812840920236410
    ∷ pt 20 4841111028392230
    ∷ pt 21 4855795527676520
    ∷ pt 22 4886302767145860
    ∷ pt 23 4902141462642390
    ∷ pt 24 4935029362474480
    ∷ pt 25 4952094870276640
    ∷ pt 26 4969585691553320
    ∷ pt 27 5005876293882710
    ∷ pt 28 5024692635373270
    ∷ pt 29 5043967392292290
    ∷ pt 30 5063708851971630
    ∷ pt 31 5083925285379040
    ∷ pt 32 5104624935432950
    ∷ pt 33 5125816004640710
    ∷ pt 34 5147506642043640
    ∷ pt 35 5169704929453570
    ∷ pt 36 5192418866966650
    ∷ pt 37 5215656357741600
    ∷ pt 38 5239425192031200
    ∷ pt 39 5263733030457670
    ∷ pt 40 5288587386524440
    ∷ pt 41 5313995608359340
    ∷ pt 43 5339964859686240
    ∷ pt 44 5366502100025490
    ∷ pt 45 5393614064125840
    ∷ pt 47 5421307240634250
    ∷ pt 48 5449587850013270
    ∷ pt 50 5478461821719410
    ∷ pt 51 5507934770660020
    ∷ pt 53 5538011972950660
    ∷ pt 54 5568698340999280
    ∷ pt 56 5599998397948750
    ∷ pt 57 5631916251514170
    ∷ pt 59 5664455567257140
    ∷ pt 61 5697619541344620
    ∷ pt 63 5731410872846220
    ∷ pt 65 5765831735629960
    ∷ pt 67 5800883749922850
    ∷ pt 69 5836567953609510
    ∷ pt 71 5872884773348800
    ∷ pt 73 5909833995595410
    ∷ pt 75 5947414737620580
    ∷ pt 77 5985625418633140
    ∷ pt 79 6024463731109510
    ∷ pt 82 6063926612448290
    ∷ pt 84 6104010217072360
    ∷ pt 87 6144709889108410
    ∷ pt 89 6186020135780490
    ∷ pt 92 6227934601661020
    ∷ pt 95 6270446043928540
    ∷ pt 97 6313546308787660
    ∷ pt 100 6357226309211810
    ∷ pt 103 6401476004173990
    ∷ pt 106 6446284379535170
    ∷ pt 110 6491639430762790
    ∷ pt 113 6537528147654750
    ∷ pt 116 6583936501245410
    ∷ pt 120 6630849433070710
    ∷ pt 123 6678250846968980
    ∷ pt 127 6726123603591690
    ∷ pt 131 6774449517795690
    ∷ pt 135 6823209359083530
    ∷ pt 139 6872382855252270
    ∷ pt 143 6921948699404070
    ∷ pt 147 6971884560461980
    ∷ pt 151 7022167097323980
    ∷ pt 156 7072771976775610
    ∷ pt 161 7123673895267240
    ∷ pt 165 7174846604646300
    ∷ pt 170 7226262941917010
    ∷ pt 175 7277894863081160
    ∷ pt 181 7329713481092400
    ∷ pt 186 7381689107934450
    ∷ pt 191 7433791300809850
    ∷ pt 197 7485988912400710
    ∷ pt 203 7538250145137090
    ∷ pt 209 7590542609381320
    ∷ pt 215 7642833385408640
    ∷ pt 222 7695089089036520
    ∷ pt 228 7747275940725560
    ∷ pt 235 7799359837946780
    ∷ pt 242 7851306430580930
    ∷ pt 249 7903081199087490
    ∷ pt 257 7954649535153640
    ∷ pt 264 8005976824507240
    ∷ pt 272 8057028531552650
    ∷ pt 280 8107770285465450
    ∷ pt 289 8158167967360540
    ∷ pt 297 8208187798129290
    ∷ pt 306 8257796426525270
    ∷ pt 315 8306961017064280
    ∷ pt 324 8355649337294510
    ∷ pt 334 8403829843985040
    ∷ pt 344 8451471767777960
    ∷ pt 354 8498545195849100
    ∷ pt 365 8545021152126380
    ∷ pt 376 8590871674622760
    ∷ pt 387 8636069889452020
    ∷ pt 398 8680590081111400
    ∷ pt 410 8724407758634360
    ∷ pt 422 8767499717239420
    ∷ pt 435 8809844095127930
    ∷ pt 448 8851420425112890
    ∷ pt 461 8892209680794120
    ∷ pt 475 8932194317030320
    ∷ pt 489 8971358304496710
    ∷ pt 503 9009687158156690
    ∷ pt 518 9047167959517640
    ∷ pt 534 9083789372583830
    ∷ pt 549 9119541653462680
    ∷ pt 566 9154416653624680
    ∷ pt 582 9188407816860900
    ∷ pt 600 9221510170024820
    ∷ pt 618 9253720307687560
    ∷ pt 636 9285036370875660
    ∷ pt 655 9315458020099370
    ∷ pt 674 9344986402915450
    ∷ pt 694 9373624116302250
    ∷ pt 715 9401375164155170
    ∷ pt 736 9428244910238270
    ∷ pt 758 9454240026951470
    ∷ pt 780 9479368440293090
    ∷ pt 804 9503639271414050
    ∷ pt 827 9527062775172560
    ∷ pt 852 9549650276106960
    ∷ pt 877 9571414102249290
    ∷ pt 903 9592367517203220
    ∷ pt 930 9612524650907540
    ∷ pt 958 9631900429500190
    ∷ pt 986 9650510504688660
    ∷ pt 1015 9668371183019920
    ∷ pt 1046 9685499355427850
    ∷ pt 1077 9701912427418300
    ∷ pt 1108 9717628250231740
    ∷ pt 1141 9732665053301490
    ∷ pt 1175 9747041378301820
    ∷ pt 1210 9760776015055120
    ∷ pt 1246 9773887939541810
    ∷ []
