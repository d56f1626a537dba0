-- ===== src/Dist/W3/PartB.antt =====
-- model/dist.cc: lines 827 to 967 of the table `w3`.
use homa_nic.Prelude.{List, [], ◌∷◌}
use homa_nic.Dist.Point.{CdfPoint, pt}

unfoldable pub w3_b : List CdfPoint
w3_b =
    pt 11385 9757445391951410
    ∷ pt 11582 9762417337462780
    ∷ pt 11785 9767389282974140
    ∷ pt 11995 9772361228485510
    ∷ pt 12214 9777333173996870
    ∷ pt 12440 9782305119508240
    ∷ pt 12674 9787277065019600
    ∷ pt 12918 9792249010530970
    ∷ pt 13171 9797220956042330
    ∷ pt 13435 9802192901553700
    ∷ pt 13709 9807164847065060
    ∷ pt 13995 9812136792576430
    ∷ pt 14292 9817108738087790
    ∷ pt 14603 9822080683599160
    ∷ pt 14928 9827052629110520
    ∷ pt 15267 9832024574621890
    ∷ pt 15622 9836996520133250
    ∷ pt 15994 9841968465644620
    ∷ pt 16384 9846940411155980
    ∷ pt 16540 9848017353507810
    ∷ pt 16699 9849094295859630
    ∷ pt 16861 9850171238211450
    ∷ pt 17027 9851248180563280
    ∷ pt 17195 9852325122915100
    ∷ pt 17367 9853402065266930
    ∷ pt 17542 9854479007618750
    ∷ pt 17721 9855555949970570
    ∷ pt 17904 9856632892322400
    ∷ pt 18091 9857709834674220
    ∷ pt 18281 9858786777026040
    ∷ pt 18476 9859863719377870
    ∷ pt 18674 9860940661729690
    ∷ pt 18877 9862017604081510
    ∷ pt 19085 9863094546433340
    ∷ pt 19297 9864171488785160
    ∷ pt 19514 9865248431136980
    ∷ pt 19735 9866325373488810
    ∷ pt 19962 9867402315840630
    ∷ pt 20194 9868479258192460
    ∷ pt 20432 9869556200544280
    ∷ pt 20675 9870633142896100
    ∷ pt 20924 9871710085247930
    ∷ pt 21179 9872787027599750
    ∷ pt 21441 9873863969951570
    ∷ pt 21709 9874940912303400
    ∷ pt 21984 9876017854655220
    ∷ pt 22265 9877094797007040
    ∷ pt 22555 9878171739358870
    ∷ pt 22851 9879248681710690
    ∷ pt 23156 9880325624062520
    ∷ pt 23469 9881402566414340
    ∷ pt 23790 9882479508766160
    ∷ pt 24121 9883556451117990
    ∷ pt 24461 9884633393469810
    ∷ pt 24810 9885710335821630
    ∷ pt 25170 9886787278173460
    ∷ pt 25540 9887864220525280
    ∷ pt 25921 9888941162877100
    ∷ pt 26314 9890018105228930
    ∷ pt 26719 9891095047580750
    ∷ pt 27136 9892171989932580
    ∷ pt 27567 9893248932284400
    ∷ pt 28011 9894325874636220
    ∷ pt 28471 9895402816988050
    ∷ pt 28945 9896479759339870
    ∷ pt 29436 9897556701691690
    ∷ pt 29943 9898633644043520
    ∷ pt 30468 9899710586395340
    ∷ pt 31013 9900787528747160
    ∷ pt 31576 9901864471098990
    ∷ pt 32161 9902941413450810
    ∷ pt 32768 9904018355802640
    ∷ pt 33007 9904431963175420
    ∷ pt 33250 9904845570548210
    ∷ pt 33496 9905259177920990
    ∷ pt 33746 9905672785293780
    ∷ pt 34000 9906086392666560
    ∷ pt 34257 9906500000039350
    ∷ pt 34519 9906913607412130
    ∷ pt 34784 9907327214784920
    ∷ pt 35054 9907740822157700
    ∷ pt 35328 9908154429530490
    ∷ pt 35606 9908568036903270
    ∷ pt 35889 9908981644276060
    ∷ pt 36176 9909395251648850
    ∷ pt 36468 9909808859021630
    ∷ pt 36764 9910222466394420
    ∷ pt 37065 9910636073767200
    ∷ pt 37372 9911049681139990
    ∷ pt 37683 9911463288512770
    ∷ pt 38000 9911876895885560
    ∷ pt 38322 9912290503258340
    ∷ pt 38649 9912704110631130
    ∷ pt 38983 9913117718003910
    ∷ pt 39322 9913531325376700
    ∷ pt 39667 9913944932749480
    ∷ pt 40018 9914358540122270
    ∷ pt 40375 9914772147495060
    ∷ pt 40739 9915185754867840
    ∷ pt 41109 9915599362240630
    ∷ pt 41486 9916012969613410
    ∷ pt 41870 9916426576986200
    ∷ pt 42262 9916840184358980
    ∷ pt 42660 9917253791731770
    ∷ pt 43067 9917667399104550
    ∷ pt 43481 9918081006477340
    ∷ pt 43903 9918494613850120
    ∷ pt 44333 9918908221222910
    ∷ pt 44772 9919321828595700
    ∷ pt 45220 9919735435968480
    ∷ pt 45677 9920149043341270
    ∷ pt 46143 9920562650714050
    ∷ pt 46618 9920976258086840
    ∷ pt 47104 9921389865459620
    ∷ pt 47600 9921803472832410
    ∷ pt 48106 9922217080205190
    ∷ pt 48623 9922630687577980
    ∷ pt 49152 9923044294950760
    ∷ pt 49692 9923457902323550
    ∷ pt 50244 9923871509696330
    ∷ pt 50809 9924285117069120
    ∷ pt 51386 9924698724441910
    ∷ pt 51977 9925112331814690
    ∷ pt 52581 9925525939187480
    ∷ pt 53200 9925939546560260
    ∷ pt 53833 9926353153933050
    ∷ pt 54482 9926766761305830
    ∷ pt 55146 9927180368678620
    ∷ pt 55827 9927593976051400
    ∷ pt 56525 9928007583424190
    ∷ pt 57240 9928421190796970
    ∷ pt 57974 9928834798169760
    ∷ pt 58727 9929248405542550
    ∷ pt 59500 9929662012915330
    ∷ pt 60293 9930075620288120
    ∷ pt 61108 9930489227660900
    ∷ pt 61945 9930902835033690
    ∷ pt 62805 9931316442406470
    ∷ pt 63690 9931730049779260
    ∷ pt 64600 9932143657152040
    ∷ pt 65536 9932557264524830
    ∷ []
