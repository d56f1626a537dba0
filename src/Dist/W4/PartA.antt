-- ===== src/Dist/W4/PartA.antt =====
-- model/dist.cc: lines 1531 to 1650 of the table `w4`.
use homa_nic.Prelude.{List, [], ◌∷◌}
use homa_nic.Dist.Point.{CdfPoint, pt}

unfoldable pub w4_a : List CdfPoint
w4_a =
    pt 53 7400000000000
    ∷ pt 56 14800000000000
    ∷ pt 60 22200000000000
    ∷ pt 64 29600000000000
    ∷ pt 68 37000000000000
    ∷ pt 72 44400000000000
    ∷ pt 77 51800000000000
    ∷ pt 81 59200000000000
    ∷ pt 87 66600000000000
    ∷ pt 92 74000000000000
    ∷ pt 100 81500000000000
    ∷ pt 109 89000000000000
    ∷ pt 119 96500000000000
    ∷ pt 130 104000000000000
    ∷ pt 141 111500000000000
    ∷ pt 154 119000000000000
    ∷ pt 168 126500000000000
    ∷ pt 183 134000000000000
    ∷ pt 199 141500000000000
    ∷ pt 217 149000000000000
    ∷ pt 222 175000000000000
    ∷ pt 227 201000000000000
    ∷ pt 232 227000000000000
    ∷ pt 237 253000000000000
    ∷ pt 243 279000000000000
    ∷ pt 248 305000000000000
    ∷ pt 254 331000000000000
    ∷ pt 259 357000000000000
    ∷ pt 265 383000000000000
    ∷ pt 271 409000000000000
    ∷ pt 274 420100000000000
    ∷ pt 277 431200000000000
    ∷ pt 279 442300000000000
    ∷ pt 282 453400000000000
    ∷ pt 285 464500000000000
    ∷ pt 288 475600000000000
    ∷ pt 291 486700000000000
    ∷ pt 294 497800000000000
    ∷ pt 297 508900000000000
    ∷ pt 300 520000000000000
    ∷ pt 303 605500000000000
    ∷ pt 305 691000000000000
    ∷ pt 308 776500000000000
    ∷ pt 310 862000000000000
    ∷ pt 313 947500000000000
    ∷ pt 315 1033000000000000
    ∷ pt 318 1118500000000000
    ∷ pt 321 1204000000000000
    ∷ pt 323 1289500000000000
    ∷ pt 326 1375000000000000
    ∷ pt 331 1440100000000000
    ∷ pt 335 1505200000000000
    ∷ pt 340 1570300000000000
    ∷ pt 345 1635400000000000
    ∷ pt 350 1700500000000000
    ∷ pt 355 1765600000000000
    ∷ pt 360 1830700000000000
    ∷ pt 365 1895800000000000
    ∷ pt 371 1960900000000000
    ∷ pt 376 2026000000000000
    ∷ pt 381 2046400000000000
    ∷ pt 385 2066800000000000
    ∷ pt 390 2087200000000000
    ∷ pt 395 2107600000000000
    ∷ pt 400 2128000000000000
    ∷ pt 405 2148400000000000
    ∷ pt 410 2168800000000000
    ∷ pt 415 2189200000000000
    ∷ pt 420 2209600000000000
    ∷ pt 425 2230000000000000
    ∷ pt 430 2270900000000000
    ∷ pt 435 2311800000000000
    ∷ pt 441 2352700000000000
    ∷ pt 446 2393600000000000
    ∷ pt 452 2434500000000000
    ∷ pt 457 2475400000000000
    ∷ pt 463 2516300000000000
    ∷ pt 468 2557200000000000
    ∷ pt 474 2598100000000000
    ∷ pt 480 2639000000000000
    ∷ pt 491 2834200000000000
    ∷ pt 502 3029400000000000
    ∷ pt 513 3224600000000000
    ∷ pt 525 3419800000000000
    ∷ pt 537 3615000000000000
    ∷ pt 549 3810200000000000
    ∷ pt 561 4005400000000000
    ∷ pt 574 4200600000000000
    ∷ pt 587 4395800000000000
    ∷ pt 600 4591000000000000
    ∷ pt 607 4648600000000000
    ∷ pt 615 4706200000000000
    ∷ pt 623 4763800000000000
    ∷ pt 630 4821400000000000
    ∷ pt 638 4879000000000000
    ∷ pt 646 4936600000000000
    ∷ pt 654 4994200000000000
    ∷ pt 662 5051800000000000
    ∷ pt 671 5109400000000000
    ∷ pt 679 5167000000000000
    ∷ pt 685 5202300000000000
    ∷ pt 690 5237600000000000
    ∷ pt 696 5272900000000000
    ∷ pt 702 5308200000000000
    ∷ pt 707 5343500000000000
    ∷ pt 713 5378800000000000
    ∷ pt 719 5414100000000000
    ∷ pt 725 5449400000000000
    ∷ pt 731 5484700000000000
    ∷ pt 737 5520000000000000
    ∷ pt 743 5544200000000000
    ∷ pt 749 5568400000000000
    ∷ pt 755 5592600000000000
    ∷ pt 762 5616800000000000
    ∷ pt 768 5641000000000000
    ∷ pt 774 5665200000000000
    ∷ pt 781 5689400000000000
    ∷ pt 787 5713600000000000
    ∷ pt 793 5737800000000000
    ∷ pt 800 5762000000000000
    ∷ []
