-- ===== src/Integration/Tables/DunavantTo20.antt =====
-- `Dunavant_2D::GPData` (source/integration/integrations_2D/integration_dunavant_2D.cpp), in units of
-- 10 ^ -15.
use dgswemv.Prelude.{[], ◌∷◌}
use dgswemv.Integration.Signed.{pos, neg}
use dgswemv.Integration.Data.{TriangleData}

unfoldable pub dunavant_17 : TriangleData
dunavant_17 = record {
  weights =
      pos 33437199290803
      ∷ pos 5093415440507
      ∷ pos 14670864527638
      ∷ pos 24350878353672
      ∷ pos 31107550868969
      ∷ pos 31257111218620
      ∷ pos 24815654339665
      ∷ pos 14056073070557
      ∷ pos 3194676173779
      ∷ pos 8119655318993
      ∷ pos 26805742283163
      ∷ pos 18459993210822
      ∷ pos 8476868534328
      ∷ pos 18292796770025
      ∷ pos 6665632004165
      ∷ [];
  points =
      (pos 333333333333333, pos 333333333333333, pos 333333333333333)
      ∷ (pos 5658918886452, pos 497170540556774, pos 497170540556774)
      ∷ (pos 35647354750751, pos 482176322624625, pos 482176322624625)
      ∷ (pos 99520061958437, pos 450239969020782, pos 450239969020782)
      ∷ (pos 199467521245206, pos 400266239377397, pos 400266239377397)
      ∷ (pos 495717464058095, pos 252141267970953, pos 252141267970953)
      ∷ (pos 675905990683077, pos 162047004658461, pos 162047004658461)
      ∷ (pos 848248235478508, pos 75875882260746, pos 75875882260746)
      ∷ (pos 968690546064356, pos 15654726967822, pos 15654726967822)
      ∷ (pos 10186928826919, pos 334319867363658, pos 655493203809423)
      ∷ (pos 135440871671036, pos 292221537796944, pos 572337590532020)
      ∷ (pos 54423924290583, pos 319574885423190, pos 626001190286228)
      ∷ (pos 12868560833637, pos 190704224192292, pos 796427214974071)
      ∷ (pos 67165782413524, pos 180483211648746, pos 752351005937729)
      ∷ (pos 14663182224828, pos 80711313679564, pos 904625504095608)
      ∷ [];
}

unfoldable pub dunavant_18 : TriangleData
dunavant_18 = record {
  weights =
      pos 30809939937647
      ∷ pos 9072436679404
      ∷ pos 18761316939594
      ∷ pos 19441097985477
      ∷ pos 27753948610810
      ∷ pos 32256225351457
      ∷ pos 25074032616922
      ∷ pos 15271927971832
      ∷ pos 6793922022963
      ∷ neg 2223098729920
      ∷ pos 6331914076406
      ∷ pos 27257538049138
      ∷ pos 17676785649465
      ∷ pos 18379484638070
      ∷ pos 8104732808192
      ∷ pos 7634129070725
      ∷ pos 46187660794
      ∷ [];
  points =
      (pos 333333333333333, pos 333333333333333, pos 333333333333333)
      ∷ (pos 13310382738157, pos 493344808630921, pos 493344808630921)
      ∷ (pos 61578811516086, pos 469210594241957, pos 469210594241957)
      ∷ (pos 127437208225989, pos 436281395887006, pos 436281395887006)
      ∷ (pos 210307658653168, pos 394846170673416, pos 394846170673416)
      ∷ (pos 500410862393686, pos 249794568803157, pos 249794568803157)
      ∷ (pos 677135612512315, pos 161432193743843, pos 161432193743843)
      ∷ (pos 846803545029257, pos 76598227485371, pos 76598227485371)
      ∷ (pos 951495121293100, pos 24252439353450, pos 24252439353450)
      ∷ (pos 913707265566071, pos 43146367216965, pos 43146367216965)
      ∷ (pos 8430536202420, pos 358911494940944, pos 632657968856636)
      ∷ (pos 131186551737188, pos 294402476751957, pos 574410971510855)
      ∷ (pos 50203151565675, pos 325017801641814, pos 624779046792512)
      ∷ (pos 66329263810916, pos 184737559666046, pos 748933176523037)
      ∷ (pos 11996194566236, pos 218796800013321, pos 769207005420443)
      ∷ (pos 14858100590125, pos 101179597136408, pos 883962302273467)
      ∷ (neg 35222015287949, pos 20874755282586, pos 1014347260005360)
      ∷ [];
}

unfoldable pub dunavant_19 : TriangleData
dunavant_19 = record {
  weights =
      pos 32906331388919
      ∷ pos 10330731891272
      ∷ pos 22387247263016
      ∷ pos 30266125869468
      ∷ pos 30490967802198
      ∷ pos 24159212741641
      ∷ pos 16050803586801
      ∷ pos 8084580261784
      ∷ pos 2079362027485
      ∷ pos 3884876904981
      ∷ pos 25574160612022
      ∷ pos 8880903573338
      ∷ pos 16124546761731
      ∷ pos 2491941817491
      ∷ pos 18242840118951
      ∷ pos 10258563736199
      ∷ pos 3799928855302
      ∷ [];
  points =
      (pos 333333333333333, pos 333333333333333, pos 333333333333333)
      ∷ (pos 20780025853987, pos 489609987073006, pos 489609987073006)
      ∷ (pos 90926214604215, pos 454536892697893, pos 454536892697893)
      ∷ (pos 197166638701138, pos 401416680649431, pos 401416680649431)
      ∷ (pos 488896691193805, pos 255551654403098, pos 255551654403098)
      ∷ (pos 645844115695741, pos 177077942152130, pos 177077942152130)
      ∷ (pos 779877893544096, pos 110061053227952, pos 110061053227952)
      ∷ (pos 888942751496321, pos 55528624251840, pos 55528624251840)
      ∷ (pos 974756272445543, pos 12621863777229, pos 12621863777229)
      ∷ (pos 3611417848412, pos 395754787356943, pos 600633794794645)
      ∷ (pos 134466754530780, pos 307929983880436, pos 557603261588784)
      ∷ (pos 14446025776115, pos 264566948406520, pos 720987025817365)
      ∷ (pos 46933578838178, pos 358539352205951, pos 594527068955871)
      ∷ (pos 2861120350567, pos 157807405968595, pos 839331473680839)
      ∷ (pos 223861424097916, pos 75050596975911, pos 701087978926173)
      ∷ (pos 34647074816760, pos 142421601113383, pos 822931324069857)
      ∷ (pos 10161119296278, pos 65494628082938, pos 924344252620784)
      ∷ [];
}

unfoldable pub dunavant_20 : TriangleData
dunavant_20 = record {
  weights =
      pos 33057055541624
      ∷ pos 867019185663
      ∷ pos 11660052716448
      ∷ pos 22876936356421
      ∷ pos 30448982673938
      ∷ pos 30624891725355
      ∷ pos 24368057676800
      ∷ pos 15997432032024
      ∷ pos 7698301815602
      ∷ neg 632060497488
      ∷ pos 1751134301193
      ∷ pos 16465839189576
      ∷ pos 4839033540485
      ∷ pos 25804906534650
      ∷ pos 8471091054441
      ∷ pos 18354914106280
      ∷ pos 704404677908
      ∷ pos 10112684927462
      ∷ pos 3573909385950
      ∷ [];
  points =
      (pos 333333333333333, pos 333333333333333, pos 333333333333333)
      ∷ (neg 1900928704400, pos 500950464352200, pos 500950464352200)
      ∷ (pos 23574084130543, pos 488212957934729, pos 488212957934729)
      ∷ (pos 89726636099435, pos 455136681950283, pos 455136681950283)
      ∷ (pos 196007481363421, pos 401996259318289, pos 401996259318289)
      ∷ (pos 488214180481157, pos 255892909759421, pos 255892909759421)
      ∷ (pos 647023488009788, pos 176488255995106, pos 176488255995106)
      ∷ (pos 791658289326483, pos 104170855336758, pos 104170855336758)
      ∷ (pos 893862072318140, pos 53068963840930, pos 53068963840930)
      ∷ (pos 916762569607942, pos 41618715196029, pos 41618715196029)
      ∷ (pos 976836157186356, pos 11581921406822, pos 11581921406822)
      ∷ (pos 48741583664839, pos 344855770229001, pos 606402646106160)
      ∷ (pos 6314115948605, pos 377843269594854, pos 615842614456541)
      ∷ (pos 134316520547348, pos 306635479062357, pos 559048000390295)
      ∷ (pos 13973893962392, pos 249419362774742, pos 736606743262866)
      ∷ (pos 75549132909764, pos 212775724802802, pos 711675142287434)
      ∷ (neg 8368153208227, pos 146965436053239, pos 861402717154987)
      ∷ (pos 26686063258714, pos 137726978828923, pos 835586957912363)
      ∷ (pos 10547719294141, pos 59696109149007, pos 929756171556853)
      ∷ [];
}
