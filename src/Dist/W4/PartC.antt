-- ===== src/Dist/W4/PartC.antt =====
-- model/dist.cc: lines 1771 to 1890 of the table `w4`.
use homa_nic.Prelude.{List, [], ◌∷◌}
use homa_nic.Dist.Point.{CdfPoint, pt}

unfoldable pub w4_c : List CdfPoint
w4_c =
    pt 37146 7314300000000000
    ∷ pt 37450 7323600000000000
    ∷ pt 37756 7332900000000000
    ∷ pt 38065 7342200000000000
    ∷ pt 38377 7351500000000000
    ∷ pt 38691 7360800000000000
    ∷ pt 39007 7370100000000000
    ∷ pt 39327 7379400000000000
    ∷ pt 39648 7388700000000000
    ∷ pt 39973 7398000000000000
    ∷ pt 40382 7416600000000000
    ∷ pt 40796 7435200000000000
    ∷ pt 41214 7453800000000000
    ∷ pt 41636 7472400000000000
    ∷ pt 42062 7491000000000000
    ∷ pt 42493 7509600000000000
    ∷ pt 42928 7528200000000000
    ∷ pt 43367 7546800000000000
    ∷ pt 43811 7565400000000000
    ∷ pt 44260 7584000000000000
    ∷ pt 44531 7604400000000000
    ∷ pt 44804 7624800000000000
    ∷ pt 45079 7645200000000000
    ∷ pt 45356 7665600000000000
    ∷ pt 45634 7686000000000000
    ∷ pt 45913 7706400000000000
    ∷ pt 46195 7726800000000000
    ∷ pt 46478 7747200000000000
    ∷ pt 46763 7767600000000000
    ∷ pt 47050 7788000000000000
    ∷ pt 47435 7825200000000000
    ∷ pt 47823 7862400000000000
    ∷ pt 48215 7899600000000000
    ∷ pt 48609 7936800000000000
    ∷ pt 49007 7974000000000000
    ∷ pt 49408 8011200000000000
    ∷ pt 49813 8048400000000000
    ∷ pt 50221 8085600000000000
    ∷ pt 50632 8122800000000000
    ∷ pt 51046 8160000000000000
    ∷ pt 52097 8167400000000000
    ∷ pt 53169 8174800000000000
    ∷ pt 54264 8182200000000000
    ∷ pt 55381 8189600000000000
    ∷ pt 56521 8197000000000000
    ∷ pt 57684 8204400000000000
    ∷ pt 58872 8211800000000000
    ∷ pt 60084 8219200000000000
    ∷ pt 61321 8226600000000000
    ∷ pt 62583 8234000000000000
    ∷ pt 63353 8243300000000000
    ∷ pt 64132 8252600000000000
    ∷ pt 64921 8261900000000000
    ∷ pt 65720 8271200000000000
    ∷ pt 66528 8280500000000000
    ∷ pt 67347 8289800000000000
    ∷ pt 68175 8299100000000000
    ∷ pt 69014 8308400000000000
    ∷ pt 69863 8317700000000000
    ∷ pt 70722 8327000000000000
    ∷ pt 71156 8336300000000000
    ∷ pt 71592 8345600000000000
    ∷ pt 72031 8354900000000000
    ∷ pt 72473 8364200000000000
    ∷ pt 72917 8373500000000000
    ∷ pt 73364 8382800000000000
    ∷ pt 73814 8392100000000000
    ∷ pt 74266 8401400000000000
    ∷ pt 74722 8410700000000000
    ∷ pt 75180 8420000000000000
    ∷ pt 75795 8449700000000000
    ∷ pt 76416 8479400000000000
    ∷ pt 77041 8509100000000000
    ∷ pt 77672 8538800000000000
    ∷ pt 78307 8568500000000000
    ∷ pt 78948 8598200000000000
    ∷ pt 79595 8627900000000000
    ∷ pt 80246 8657600000000000
    ∷ pt 80903 8687300000000000
    ∷ pt 81565 8717000000000000
    ∷ pt 83414 8733800000000000
    ∷ pt 85305 8750600000000000
    ∷ pt 87238 8767400000000000
    ∷ pt 89216 8784200000000000
    ∷ pt 91238 8801000000000000
    ∷ pt 93306 8817800000000000
    ∷ pt 95421 8834600000000000
    ∷ pt 97584 8851400000000000
    ∷ pt 99796 8868200000000000
    ∷ pt 102058 8885000000000000
    ∷ pt 103313 8894300000000000
    ∷ pt 104584 8903600000000000
    ∷ pt 105871 8912900000000000
    ∷ pt 107173 8922200000000000
    ∷ pt 108492 8931500000000000
    ∷ pt 109826 8940800000000000
    ∷ pt 111177 8950100000000000
    ∷ pt 112545 8959400000000000
    ∷ pt 113929 8968700000000000
    ∷ pt 115331 8978000000000000
    ∷ pt 116988 8987200000000000
    ∷ pt 118669 8996400000000000
    ∷ pt 120373 9005600000000000
    ∷ pt 122103 9014800000000000
    ∷ pt 123857 9024000000000000
    ∷ pt 125636 9033200000000000
    ∷ pt 127441 9042400000000000
    ∷ pt 129272 9051600000000000
    ∷ pt 131129 9060800000000000
    ∷ pt 133013 9070000000000000
    ∷ pt 135199 9079400000000000
    ∷ pt 137421 9088800000000000
    ∷ pt 139679 9098200000000000
    ∷ pt 141975 9107600000000000
    ∷ pt 144308 9117000000000000
    ∷ pt 146680 9126400000000000
    ∷ pt 149091 9135800000000000
    ∷ pt 151541 9145200000000000
    ∷ pt 154032 9154600000000000
    ∷ pt 156563 9164000000000000
    ∷ []
