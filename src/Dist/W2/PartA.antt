-- ===== src/Dist/W2/PartA.antt =====
-- model/dist.cc: lines 531 to 682 of the table `w2`.
use homa_nic.Prelude.{List, [], ◌∷◌}
use homa_nic.Dist.Point.{CdfPoint, pt}

unfoldable pub w2_a : List CdfPoint
w2_a =
    pt 8 1701076279091390
    ∷ pt 32 1890084754545990
    ∷ pt 34 2027512207344260
    ∷ pt 36 2164939660142540
    ∷ pt 38 2302367112940820
    ∷ pt 40 2439794565739100
    ∷ pt 43 2577222018537380
    ∷ pt 46 2714649471335660
    ∷ pt 49 2852076924133940
    ∷ pt 53 2989504376932220
    ∷ pt 58 3126931829730500
    ∷ pt 64 3264359282528780
    ∷ pt 67 3279626527873350
    ∷ pt 71 3294893773217930
    ∷ pt 75 3310161018562510
    ∷ pt 80 3325428263907090
    ∷ pt 85 3340695509251660
    ∷ pt 91 3355962754596240
    ∷ pt 98 3371229999940820
    ∷ pt 107 3386497245285390
    ∷ pt 116 3401764490629970
    ∷ pt 128 3417031735974550
    ∷ pt 135 3539168103019490
    ∷ pt 142 3661304470064430
    ∷ pt 151 3783440837109370
    ∷ pt 160 3905577204154310
    ∷ pt 171 4027713571199250
    ∷ pt 183 4149849938244190
    ∷ pt 197 4271986305289130
    ∷ pt 213 4394122672334070
    ∷ pt 233 4516259039379010
    ∷ pt 256 4638395406423950
    ∷ pt 269 5084956485779450
    ∷ pt 284 5531517565134950
    ∷ pt 301 5978078644490450
    ∷ pt 320 6424639723845950
    ∷ pt 341 6871200803201450
    ∷ pt 366 7317761882556950
    ∷ pt 394 7764322961912450
    ∷ pt 427 8210884041267950
    ∷ pt 465 8657445120623450
    ∷ pt 512 9104006199978950
    ∷ pt 539 9151715716495210
    ∷ pt 569 9199425233011470
    ∷ pt 602 9247134749527730
    ∷ pt 640 9294844266043990
    ∷ pt 683 9342553782560250
    ∷ pt 731 9390263299076510
    ∷ pt 788 9437972815592760
    ∷ pt 853 9485682332109020
    ∷ pt 931 9533391848625280
    ∷ pt 1024 9581101365141540
    ∷ pt 1078 9604001941405150
    ∷ pt 1138 9626902517668760
    ∷ pt 1205 9649803093932380
    ∷ pt 1280 9672703670195990
    ∷ pt 1365 9695604246459600
    ∷ pt 1463 9718504822723210
    ∷ pt 1575 9741405398986820
    ∷ pt 1707 9764305975250430
    ∷ pt 1862 9787206551514040
    ∷ pt 2048 9810107127777660
    ∷ pt 2156 9824419976778380
    ∷ pt 2276 9838732825779110
    ∷ pt 2409 9853045674779840
    ∷ pt 2560 9867358523780570
    ∷ pt 2731 9881671372781300
    ∷ pt 2926 9895984221782030
    ∷ pt 3151 9910297070782760
    ∷ pt 3413 9924609919783490
    ∷ pt 3724 9938922768784220
    ∷ pt 4096 9953235617784950
    ∷ pt 4312 9956336739037870
    ∷ pt 4551 9959437860290800
    ∷ pt 4819 9962538981543720
    ∷ pt 5120 9965640102796640
    ∷ pt 5461 9968741224049570
    ∷ pt 5851 9971842345302490
    ∷ pt 6302 9974943466555410
    ∷ pt 6827 9978044587808340
    ∷ pt 7447 9981145709061260
    ∷ pt 8192 9984246830314190
    ∷ pt 8623 9984723925032790
    ∷ pt 9102 9985201019751390
    ∷ pt 9638 9985678114469990
    ∷ pt 10240 9986155209188590
    ∷ pt 10923 9986632303907190
    ∷ pt 11703 9987109398625790
    ∷ pt 12603 9987586493344400
    ∷ pt 13653 9988063588063000
    ∷ pt 14895 9988540682781600
    ∷ pt 16384 9989017777500200
    ∷ pt 17246 9989256324859500
    ∷ pt 18204 9989494872218800
    ∷ pt 19275 9989733419578100
    ∷ pt 20480 9989971966937400
    ∷ pt 21845 9990210514296700
    ∷ pt 23406 9990449061656000
    ∷ pt 25206 9990687609015310
    ∷ pt 27307 9990926156374610
    ∷ pt 29789 9991164703733910
    ∷ pt 32768 9991403251093210
    ∷ pt 34493 9991611980265180
    ∷ pt 36409 9991820709437150
    ∷ pt 38551 9992029438609120
    ∷ pt 40960 9992238167781100
    ∷ pt 43691 9992446896953070
    ∷ pt 46811 9992655626125040
    ∷ pt 50412 9992864355297010
    ∷ pt 54613 9993073084468980
    ∷ pt 59578 9993281813640960
    ∷ pt 65536 9993490542812930
    ∷ pt 68985 9994012365742860
    ∷ pt 72818 9994534188672790
    ∷ pt 77101 9995056011602720
    ∷ pt 81920 9995577834532650
    ∷ pt 87381 9996099657462580
    ∷ pt 93623 9996621480392510
    ∷ pt 100825 9997143303322440
    ∷ pt 109227 9997665126252370
    ∷ pt 119156 9998186949182300
    ∷ pt 131072 9998708772112230
    ∷ pt 137971 9998813136698210
    ∷ pt 145636 9998917501284200
    ∷ pt 154202 9999021865870190
    ∷ pt 163840 9999126230456170
    ∷ pt 174763 9999230595042160
    ∷ pt 187246 9999334959628150
    ∷ pt 201649 9999439324214130
    ∷ pt 218453 9999543688800120
    ∷ pt 238313 9999648053386100
    ∷ pt 262144 9999752417972090
    ∷ pt 275941 9999759872635210
    ∷ pt 291271 9999767327298340
    ∷ pt 308405 9999774781961460
    ∷ pt 327680 9999782236624590
    ∷ pt 349525 9999789691287710
    ∷ pt 374491 9999797145950840
    ∷ pt 403298 9999804600613960
    ∷ pt 436907 9999812055277080
    ∷ pt 476625 9999819509940210
    ∷ pt 524288 9999826964603330
    ∷ pt 573085 9999844268143000
    ∷ pt 631896 9999861571682660
    ∷ pt 704160 9999878875222330
    ∷ pt 795085 9999896178762000
    ∷ pt 912974 9999913482301670
    ∷ pt 1071908 9999930785841330
    ∷ pt 1297841 9999948089381000
    ∷ pt 1644453 9999965392920670
    ∷ pt 2243665 9999982696460330
    ∷ pt 3529904 10000000000000000
    ∷ []
