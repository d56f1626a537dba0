-- ===== src/Dist/W3/PartE.antt =====
-- model/dist.cc: lines 1250 to 1390 of the table `w3`.
use homa_nic.Prelude.{List, [], ◌∷◌}
use homa_nic.Dist.Point.{CdfPoint, pt}

unfoldable pub w3_e : List CdfPoint
w3_e =
    pt 347256 9989654200032730
    ∷ pt 348765 9989722508998490
    ∷ pt 350288 9989790817964240
    ∷ pt 351825 9989859126930000
    ∷ pt 353375 9989927435895750
    ∷ pt 354938 9989995744861500
    ∷ pt 356516 9990064053827260
    ∷ pt 358107 9990132362793010
    ∷ pt 359713 9990200671758770
    ∷ pt 361334 9990268980724520
    ∷ pt 362969 9990337289690270
    ∷ pt 364618 9990405598656030
    ∷ pt 366283 9990473907621780
    ∷ pt 367964 9990542216587540
    ∷ pt 369659 9990610525553290
    ∷ pt 371371 9990678834519040
    ∷ pt 373098 9990747143484800
    ∷ pt 374841 9990815452450550
    ∷ pt 376601 9990883761416310
    ∷ pt 378378 9990952070382060
    ∷ pt 380171 9991020379347810
    ∷ pt 381981 9991088688313570
    ∷ pt 383809 9991156997279320
    ∷ pt 385654 9991225306245080
    ∷ pt 387517 9991293615210830
    ∷ pt 389398 9991361924176580
    ∷ pt 391298 9991430233142340
    ∷ pt 393216 9991498542108090
    ∷ pt 395153 9991566851073850
    ∷ pt 397109 9991635160039600
    ∷ pt 399085 9991703469005360
    ∷ pt 401080 9991771777971110
    ∷ pt 403096 9991840086936860
    ∷ pt 405132 9991908395902620
    ∷ pt 407188 9991976704868370
    ∷ pt 409266 9992045013834130
    ∷ pt 411364 9992113322799880
    ∷ pt 413485 9992181631765640
    ∷ pt 415627 9992249940731390
    ∷ pt 417792 9992318249697140
    ∷ pt 419979 9992386558662900
    ∷ pt 422190 9992454867628650
    ∷ pt 424424 9992523176594410
    ∷ pt 426681 9992591485560160
    ∷ pt 428963 9992659794525910
    ∷ pt 431269 9992728103491670
    ∷ pt 433600 9992796412457420
    ∷ pt 435957 9992864721423180
    ∷ pt 438339 9992933030388930
    ∷ pt 440748 9993001339354680
    ∷ pt 443183 9993069648320440
    ∷ pt 445645 9993137957286190
    ∷ pt 448134 9993206266251950
    ∷ pt 450652 9993274575217700
    ∷ pt 453198 9993342884183450
    ∷ pt 455773 9993411193149210
    ∷ pt 458378 9993479502114960
    ∷ pt 461012 9993547811080720
    ∷ pt 463677 9993616120046470
    ∷ pt 466372 9993684429012230
    ∷ pt 469100 9993752737977980
    ∷ pt 471859 9993821046943730
    ∷ pt 474651 9993889355909490
    ∷ pt 477477 9993957664875240
    ∷ pt 480336 9994025973841000
    ∷ pt 483229 9994094282806750
    ∷ pt 486158 9994162591772500
    ∷ pt 489122 9994230900738260
    ∷ pt 492123 9994299209704010
    ∷ pt 495161 9994367518669770
    ∷ pt 498236 9994435827635520
    ∷ pt 501350 9994504136601270
    ∷ pt 504504 9994572445567030
    ∷ pt 507697 9994640754532780
    ∷ pt 510930 9994709063498540
    ∷ pt 514206 9994777372464290
    ∷ pt 517523 9994845681430040
    ∷ pt 520884 9994913990395800
    ∷ pt 524288 9994982299361550
    ∷ pt 526844 9995007513937630
    ∷ pt 529425 9995032728513700
    ∷ pt 532031 9995057943089770
    ∷ pt 534663 9995083157665840
    ∷ pt 537322 9995108372241920
    ∷ pt 540006 9995133586817990
    ∷ pt 542718 9995158801394060
    ∷ pt 545458 9995184015970130
    ∷ pt 548225 9995209230546210
    ∷ pt 551020 9995234445122280
    ∷ pt 553844 9995259659698350
    ∷ pt 556697 9995284874274420
    ∷ pt 559579 9995310088850500
    ∷ pt 562492 9995335303426570
    ∷ pt 565435 9995360518002640
    ∷ pt 568408 9995385732578720
    ∷ pt 571414 9995410947154790
    ∷ pt 574451 9995436161730860
    ∷ pt 577521 9995461376306930
    ∷ pt 580624 9995486590883000
    ∷ pt 583760 9995511805459080
    ∷ pt 586931 9995537020035150
    ∷ pt 590136 9995562234611220
    ∷ pt 593376 9995587449187300
    ∷ pt 596652 9995612663763370
    ∷ pt 599964 9995637878339440
    ∷ pt 603313 9995663092915510
    ∷ pt 606700 9995688307491590
    ∷ pt 610125 9995713522067660
    ∷ pt 613590 9995738736643730
    ∷ pt 617093 9995763951219800
    ∷ pt 620637 9995789165795880
    ∷ pt 624222 9995814380371950
    ∷ pt 627848 9995839594948020
    ∷ pt 631517 9995864809524090
    ∷ pt 635229 9995890024100170
    ∷ pt 638985 9995915238676240
    ∷ pt 642786 9995940453252310
    ∷ pt 646632 9995965667828380
    ∷ pt 650524 9995990882404460
    ∷ pt 654463 9996016096980530
    ∷ pt 658451 9996041311556600
    ∷ pt 662487 9996066526132680
    ∷ pt 666573 9996091740708750
    ∷ pt 670710 9996116955284820
    ∷ pt 674899 9996142169860890
    ∷ pt 679140 9996167384436970
    ∷ pt 683435 9996192599013040
    ∷ pt 687784 9996217813589110
    ∷ pt 692190 9996243028165180
    ∷ pt 696652 9996268242741260
    ∷ pt 701172 9996293457317330
    ∷ pt 705750 9996318671893400
    ∷ pt 710390 9996343886469470
    ∷ pt 715090 9996369101045550
    ∷ pt 719853 9996394315621620
    ∷ pt 724680 9996419530197690
    ∷ pt 729573 9996444744773760
    ∷ pt 734531 9996469959349840
    ∷ pt 739558 9996495173925910
    ∷ pt 744654 9996520388501980
    ∷ pt 749820 9996545603078050
    ∷ []
