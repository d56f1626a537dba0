-- ===== src/Dist/W3/PartD.antt =====
-- model/dist.cc: lines 1109 to 1249 of the table `w3`.
use homa_nic.Prelude.{List, [], ◌∷◌}
use homa_nic.Dist.Point.{CdfPoint, pt}

unfoldable pub w3_d : List CdfPoint
w3_d =
    pt 168114 9977124319616050
    ∷ pt 169033 9977236542464310
    ∷ pt 169961 9977348765312570
    ∷ pt 170901 9977460988160830
    ∷ pt 171850 9977573211009090
    ∷ pt 172810 9977685433857350
    ∷ pt 173781 9977797656705610
    ∷ pt 174763 9977909879553870
    ∷ pt 175756 9978022102402130
    ∷ pt 176760 9978134325250390
    ∷ pt 177776 9978246548098650
    ∷ pt 178803 9978358770946910
    ∷ pt 179843 9978470993795170
    ∷ pt 180895 9978583216643430
    ∷ pt 181959 9978695439491690
    ∷ pt 183035 9978807662339950
    ∷ pt 184125 9978919885188200
    ∷ pt 185227 9979032108036460
    ∷ pt 186343 9979144330884720
    ∷ pt 187473 9979256553732980
    ∷ pt 188616 9979368776581240
    ∷ pt 189773 9979480999429500
    ∷ pt 190944 9979593222277760
    ∷ pt 192130 9979705445126020
    ∷ pt 193331 9979817667974280
    ∷ pt 194547 9979929890822540
    ∷ pt 195778 9980042113670800
    ∷ pt 197025 9980154336519060
    ∷ pt 198288 9980266559367320
    ∷ pt 199568 9980378782215580
    ∷ pt 200864 9980491005063840
    ∷ pt 202176 9980603227912100
    ∷ pt 203507 9980715450760350
    ∷ pt 204854 9980827673608610
    ∷ pt 206220 9980939896456870
    ∷ pt 207604 9981052119305130
    ∷ pt 209007 9981164342153390
    ∷ pt 210429 9981276565001650
    ∷ pt 211870 9981388787849910
    ∷ pt 213331 9981501010698170
    ∷ pt 214812 9981613233546430
    ∷ pt 216315 9981725456394690
    ∷ pt 217838 9981837679242950
    ∷ pt 219383 9981949902091210
    ∷ pt 220950 9982062124939470
    ∷ pt 222540 9982174347787730
    ∷ pt 224152 9982286570635990
    ∷ pt 225788 9982398793484250
    ∷ pt 227448 9982511016332500
    ∷ pt 229133 9982623239180760
    ∷ pt 230843 9982735462029020
    ∷ pt 232579 9982847684877280
    ∷ pt 234341 9982959907725540
    ∷ pt 236130 9983072130573800
    ∷ pt 237946 9983184353422060
    ∷ pt 239791 9983296576270320
    ∷ pt 241664 9983408799118580
    ∷ pt 243567 9983521021966840
    ∷ pt 245500 9983633244815100
    ∷ pt 247464 9983745467663360
    ∷ pt 249460 9983857690511620
    ∷ pt 251488 9983969913359880
    ∷ pt 253549 9984082136208140
    ∷ pt 255645 9984194359056400
    ∷ pt 257775 9984306581904660
    ∷ pt 259941 9984418804752910
    ∷ pt 262144 9984531027601170
    ∷ pt 263003 9984599336566930
    ∷ pt 263869 9984667645532680
    ∷ pt 264739 9984735954498440
    ∷ pt 265616 9984804263464190
    ∷ pt 266499 9984872572429940
    ∷ pt 267387 9984940881395700
    ∷ pt 268281 9985009190361450
    ∷ pt 269181 9985077499327210
    ∷ pt 270088 9985145808292960
    ∷ pt 271000 9985214117258720
    ∷ pt 271919 9985282426224470
    ∷ pt 272844 9985350735190220
    ∷ pt 273775 9985419044155980
    ∷ pt 274713 9985487353121730
    ∷ pt 275657 9985555662087490
    ∷ pt 276607 9985623971053240
    ∷ pt 277564 9985692280018990
    ∷ pt 278528 9985760588984750
    ∷ pt 279498 9985828897950500
    ∷ pt 280476 9985897206916260
    ∷ pt 281460 9985965515882010
    ∷ pt 282451 9986033824847770
    ∷ pt 283449 9986102133813520
    ∷ pt 284454 9986170442779270
    ∷ pt 285466 9986238751745030
    ∷ pt 286486 9986307060710780
    ∷ pt 287513 9986375369676540
    ∷ pt 288547 9986443678642290
    ∷ pt 289589 9986511987608040
    ∷ pt 290638 9986580296573800
    ∷ pt 291695 9986648605539550
    ∷ pt 292759 9986716914505310
    ∷ pt 293832 9986785223471060
    ∷ pt 294912 9986853532436810
    ∷ pt 296000 9986921841402570
    ∷ pt 297097 9986990150368320
    ∷ pt 298201 9987058459334080
    ∷ pt 299314 9987126768299830
    ∷ pt 300435 9987195077265580
    ∷ pt 301564 9987263386231340
    ∷ pt 302702 9987331695197090
    ∷ pt 303849 9987400004162850
    ∷ pt 305004 9987468313128600
    ∷ pt 306168 9987536622094360
    ∷ pt 307341 9987604931060110
    ∷ pt 308523 9987673240025860
    ∷ pt 309715 9987741548991620
    ∷ pt 310915 9987809857957370
    ∷ pt 312125 9987878166923130
    ∷ pt 313344 9987946475888880
    ∷ pt 314573 9988014784854630
    ∷ pt 315811 9988083093820390
    ∷ pt 317060 9988151402786140
    ∷ pt 318318 9988219711751900
    ∷ pt 319586 9988288020717650
    ∷ pt 320864 9988356329683400
    ∷ pt 322153 9988424638649160
    ∷ pt 323452 9988492947614910
    ∷ pt 324761 9988561256580670
    ∷ pt 326082 9988629565546420
    ∷ pt 327413 9988697874512180
    ∷ pt 328754 9988766183477930
    ∷ pt 330107 9988834492443680
    ∷ pt 331471 9988902801409440
    ∷ pt 332847 9988971110375190
    ∷ pt 334234 9989039419340950
    ∷ pt 335632 9989107728306700
    ∷ pt 337042 9989176037272450
    ∷ pt 338464 9989244346238210
    ∷ pt 339899 9989312655203960
    ∷ pt 341345 9989380964169720
    ∷ pt 342804 9989449273135470
    ∷ pt 344275 9989517582101220
    ∷ pt 345759 9989585891066980
    ∷ []
