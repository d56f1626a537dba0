-- ===== src/Dist/W3/PartA.antt =====
-- model/dist.cc: lines 686 to 826 of the table `w3`.
use homa_nic.Prelude.{List, [], ◌∷◌}
use homa_nic.Dist.Point.{CdfPoint, pt}

unfoldable pub w3_a : List CdfPoint
w3_a =
    pt 8 648826230027598
    ∷ pt 32 973239345041398
    ∷ pt 36 1089132949118340
    ∷ pt 40 1205026553195280
    ∷ pt 46 1320920157272230
    ∷ pt 53 1436813761349170
    ∷ pt 64 1552707365426110
    ∷ pt 70 1879878042039700
    ∷ pt 77 2207048718653280
    ∷ pt 85 2534219395266870
    ∷ pt 96 2861390071880450
    ∷ pt 110 3188560748494040
    ∷ pt 128 3515731425107630
    ∷ pt 137 3698640951162460
    ∷ pt 146 3881550477217290
    ∷ pt 158 4064460003272120
    ∷ pt 171 4247369529326950
    ∷ pt 186 4430279055381780
    ∷ pt 205 4613188581436610
    ∷ pt 228 4796098107491450
    ∷ pt 256 4979007633546280
    ∷ pt 268 5239935348784430
    ∷ pt 282 5500863064022580
    ∷ pt 296 5761790779260730
    ∷ pt 313 6022718494498880
    ∷ pt 331 6283646209737030
    ∷ pt 352 6544573924975180
    ∷ pt 375 6805501640213330
    ∷ pt 402 7066429355451480
    ∷ pt 433 7327357070689630
    ∷ pt 469 7588284785927780
    ∷ pt 512 7849212501165930
    ∷ pt 531 7905125585645840
    ∷ pt 551 7961038670125750
    ∷ pt 573 8016951754605660
    ∷ pt 597 8072864839085570
    ∷ pt 623 8128777923565480
    ∷ pt 652 8184691008045390
    ∷ pt 683 8240604092525300
    ∷ pt 717 8296517177005210
    ∷ pt 755 8352430261485120
    ∷ pt 796 8408343345965030
    ∷ pt 843 8464256430444940
    ∷ pt 896 8520169514924850
    ∷ pt 956 8576082599404760
    ∷ pt 1024 8631995683884670
    ∷ pt 1053 8657363659283180
    ∷ pt 1084 8682731634681700
    ∷ pt 1117 8708099610080210
    ∷ pt 1152 8733467585478720
    ∷ pt 1189 8758835560877230
    ∷ pt 1229 8784203536275740
    ∷ pt 1271 8809571511674250
    ∷ pt 1317 8834939487072760
    ∷ pt 1365 8860307462471280
    ∷ pt 1418 8885675437869790
    ∷ pt 1475 8911043413268300
    ∷ pt 1536 8936411388666810
    ∷ pt 1603 8961779364065320
    ∷ pt 1676 8987147339463830
    ∷ pt 1755 9012515314862340
    ∷ pt 1843 9037883290260860
    ∷ pt 1940 9063251265659370
    ∷ pt 2048 9088619241057880
    ∷ pt 2092 9099491209919730
    ∷ pt 2137 9110363178781580
    ∷ pt 2185 9121235147643440
    ∷ pt 2234 9132107116505290
    ∷ pt 2286 9142979085367140
    ∷ pt 2341 9153851054229000
    ∷ pt 2398 9164723023090850
    ∷ pt 2458 9175594991952700
    ∷ pt 2521 9186466960814550
    ∷ pt 2587 9197338929676410
    ∷ pt 2657 9208210898538260
    ∷ pt 2731 9219082867400110
    ∷ pt 2809 9229954836261970
    ∷ pt 2891 9240826805123820
    ∷ pt 2979 9251698773985670
    ∷ pt 3072 9262570742847520
    ∷ pt 3171 9273442711709380
    ∷ pt 3277 9284314680571230
    ∷ pt 3390 9295186649433080
    ∷ pt 3511 9306058618294940
    ∷ pt 3641 9316930587156790
    ∷ pt 3781 9327802556018640
    ∷ pt 3932 9338674524880490
    ∷ pt 4096 9349546493742350
    ∷ pt 4163 9359015659918080
    ∷ pt 4233 9368484826093810
    ∷ pt 4304 9377953992269540
    ∷ pt 4378 9387423158445270
    ∷ pt 4455 9396892324621000
    ∷ pt 4535 9406361490796740
    ∷ pt 4617 9415830656972470
    ∷ pt 4703 9425299823148200
    ∷ pt 4792 9434768989323930
    ∷ pt 4884 9444238155499660
    ∷ pt 4979 9453707321675390
    ∷ pt 5079 9463176487851120
    ∷ pt 5183 9472645654026860
    ∷ pt 5291 9482114820202590
    ∷ pt 5403 9491583986378320
    ∷ pt 5521 9501053152554050
    ∷ pt 5643 9510522318729780
    ∷ pt 5772 9519991484905510
    ∷ pt 5906 9529460651081240
    ∷ pt 6046 9538929817256980
    ∷ pt 6194 9548398983432710
    ∷ pt 6349 9557868149608440
    ∷ pt 6512 9567337315784170
    ∷ pt 6683 9576806481959900
    ∷ pt 6864 9586275648135630
    ∷ pt 7054 9595744814311360
    ∷ pt 7256 9605213980487100
    ∷ pt 7469 9614683146662830
    ∷ pt 7696 9624152312838560
    ∷ pt 7936 9633621479014290
    ∷ pt 8192 9643090645190020
    ∷ pt 8293 9648062590701390
    ∷ pt 8397 9653034536212750
    ∷ pt 8503 9658006481724120
    ∷ pt 8612 9662978427235480
    ∷ pt 8724 9667950372746850
    ∷ pt 8839 9672922318258210
    ∷ pt 8957 9677894263769580
    ∷ pt 9078 9682866209280940
    ∷ pt 9202 9687838154792310
    ∷ pt 9330 9692810100303670
    ∷ pt 9461 9697782045815040
    ∷ pt 9596 9702753991326400
    ∷ pt 9735 9707725936837770
    ∷ pt 9879 9712697882349130
    ∷ pt 10026 9717669827860500
    ∷ pt 10178 9722641773371860
    ∷ pt 10335 9727613718883220
    ∷ pt 10496 9732585664394590
    ∷ pt 10663 9737557609905950
    ∷ pt 10835 9742529555417320
    ∷ pt 11012 9747501500928680
    ∷ pt 11196 9752473446440050
    ∷ []
