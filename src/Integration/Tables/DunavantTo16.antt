-- ===== src/Integration/Tables/DunavantTo16.antt =====
-- `Dunavant_2D::GPData` (source/integration/integrations_2D/integration_dunavant_2D.cpp), in units of
-- 10 ^ -15.
use dgswemv.Prelude.{[], ◌∷◌}
use dgswemv.Integration.Signed.{pos, neg}
use dgswemv.Integration.Data.{TriangleData}

unfoldable pub dunavant_11 : TriangleData
dunavant_11 = record {
  weights =
      pos 927006328961
      ∷ pos 77149534914813
      ∷ pos 59322977380774
      ∷ pos 36184540503418
      ∷ pos 13659731002678
      ∷ pos 52337111962204
      ∷ pos 20707659639141
      ∷ [];
  points =
      (neg 69222096541517, pos 534611048270758, pos 534611048270758)
      ∷ (pos 202061394068290, pos 398969302965855, pos 398969302965855)
      ∷ (pos 593380199137435, pos 203309900431282, pos 203309900431282)
      ∷ (pos 761298175434837, pos 119350912282581, pos 119350912282581)
      ∷ (pos 935270103777448, pos 32364948111276, pos 32364948111276)
      ∷ (pos 50178138310495, pos 356620648261293, pos 593201213428213)
      ∷ (pos 21022016536166, pos 171488980304042, pos 807489003159792)
      ∷ [];
}

unfoldable pub dunavant_12 : TriangleData
dunavant_12 = record {
  weights =
      pos 25731066440455
      ∷ pos 43692544538038
      ∷ pos 62858224217885
      ∷ pos 34796112930709
      ∷ pos 6166261051559
      ∷ pos 40371557766381
      ∷ pos 22356773202303
      ∷ pos 17316231108659
      ∷ [];
  points =
      (pos 23565220452390, pos 488217389773805, pos 488217389773805)
      ∷ (pos 120551215411079, pos 439724392294460, pos 439724392294460)
      ∷ (pos 457579229975768, pos 271210385012116, pos 271210385012116)
      ∷ (pos 744847708916828, pos 127576145541586, pos 127576145541586)
      ∷ (pos 957365299093579, pos 21317350453210, pos 21317350453210)
      ∷ (pos 115343494534698, pos 275713269685514, pos 608943235779788)
      ∷ (pos 22838332222257, pos 281325580989940, pos 695836086787803)
      ∷ (pos 25734050548330, pos 116251915907597, pos 858014033544073)
      ∷ [];
}

unfoldable pub dunavant_13 : TriangleData
dunavant_13 = record {
  weights =
      pos 52520923400802
      ∷ pos 11280145209330
      ∷ pos 31423518362454
      ∷ pos 47072502504194
      ∷ pos 47363586536355
      ∷ pos 31167529045794
      ∷ pos 7975771465074
      ∷ pos 36848402728732
      ∷ pos 17401463303822
      ∷ pos 15521786839045
      ∷ [];
  points =
      (pos 333333333333333, pos 333333333333333, pos 333333333333333)
      ∷ (pos 9903630120591, pos 495048184939705, pos 495048184939705)
      ∷ (pos 62566729780852, pos 468716635109574, pos 468716635109574)
      ∷ (pos 170957326397447, pos 414521336801277, pos 414521336801277)
      ∷ (pos 541200855914337, pos 229399572042831, pos 229399572042831)
      ∷ (pos 771151009607340, pos 114424495196330, pos 114424495196330)
      ∷ (pos 950377217273082, pos 24811391363459, pos 24811391363459)
      ∷ (pos 94853828379579, pos 268794997058761, pos 636351174561660)
      ∷ (pos 18100773278807, pos 291730066734288, pos 690169159986905)
      ∷ (pos 22233076674090, pos 126357385491669, pos 851409537834241)
      ∷ [];
}

unfoldable pub dunavant_14 : TriangleData
dunavant_14 = record {
  weights =
      pos 21883581369429
      ∷ pos 32788353544125
      ∷ pos 51774104507292
      ∷ pos 42162588736993
      ∷ pos 14433699669777
      ∷ pos 4923403602400
      ∷ pos 24665753212564
      ∷ pos 38571510787061
      ∷ pos 14436308113534
      ∷ pos 5010228838501
      ∷ [];
  points =
      (pos 22072179275643, pos 488963910362179, pos 488963910362179)
      ∷ (pos 164710561319092, pos 417644719340454, pos 417644719340454)
      ∷ (pos 453044943382323, pos 273477528308839, pos 273477528308839)
      ∷ (pos 645588935174913, pos 177205532412543, pos 177205532412543)
      ∷ (pos 876400233818255, pos 61799883090873, pos 61799883090873)
      ∷ (pos 961218077502598, pos 19390961248701, pos 19390961248701)
      ∷ (pos 57124757403648, pos 172266687821356, pos 770608554774996)
      ∷ (pos 92916249356972, pos 336861459796345, pos 570222290846683)
      ∷ (pos 14646950055654, pos 298372882136258, pos 686980167808088)
      ∷ (pos 1268330932872, pos 118974497696957, pos 879757171370171)
      ∷ [];
}

unfoldable pub dunavant_15 : TriangleData
dunavant_15 = record {
  weights =
      pos 1916875642849
      ∷ pos 44249027271145
      ∷ pos 51186548718852
      ∷ pos 23687735870688
      ∷ pos 13289775690021
      ∷ pos 4748916608192
      ∷ pos 38550072599593
      ∷ pos 27215814320624
      ∷ pos 2182077366797
      ∷ pos 21505319847731
      ∷ pos 7673942631049
      ∷ [];
  points =
      (neg 13945833716486, pos 506972916858243, pos 506972916858243)
      ∷ (pos 137187291433955, pos 431406354283023, pos 431406354283023)
      ∷ (pos 444612710305711, pos 277693644847144, pos 277693644847144)
      ∷ (pos 747070217917492, pos 126464891041254, pos 126464891041254)
      ∷ (pos 858383228050628, pos 70808385974686, pos 70808385974686)
      ∷ (pos 962069659517853, pos 18965170241073, pos 18965170241073)
      ∷ (pos 133734161966621, pos 261311371140087, pos 604954466893291)
      ∷ (pos 36366677396917, pos 388046767090269, pos 575586555512814)
      ∷ (neg 10174883126571, pos 285712220049916, pos 724462663076655)
      ∷ (pos 36843869875878, pos 215599664072284, pos 747556466051838)
      ∷ (pos 12459809331199, pos 103575616576386, pos 883964574092416)
      ∷ [];
}

unfoldable pub dunavant_16 : TriangleData
dunavant_16 = record {
  weights =
      pos 46875697427642
      ∷ pos 6405878578585
      ∷ pos 41710296739387
      ∷ pos 26891484250064
      ∷ pos 42132522761650
      ∷ pos 30000266842773
      ∷ pos 14200098925024
      ∷ pos 3582462351273
      ∷ pos 32773147460627
      ∷ pos 15298306248441
      ∷ pos 2386244192839
      ∷ pos 19084792755899
      ∷ pos 6850054546542
      ∷ [];
  points =
      (pos 333333333333333, pos 333333333333333, pos 333333333333333)
      ∷ (pos 5238916103123, pos 497380541948438, pos 497380541948438)
      ∷ (pos 173061122901295, pos 413469438549352, pos 413469438549352)
      ∷ (pos 59082801866017, pos 470458599066991, pos 470458599066991)
      ∷ (pos 518892500060958, pos 240553749969521, pos 240553749969521)
      ∷ (pos 704068411554854, pos 147965794222573, pos 147965794222573)
      ∷ (pos 849069624685052, pos 75465187657474, pos 75465187657474)
      ∷ (pos 966807194753950, pos 16596402623025, pos 16596402623025)
      ∷ (pos 103575692245252, pos 296555596579887, pos 599868711174861)
      ∷ (pos 20083411655416, pos 337723063403079, pos 642193524941505)
      ∷ (neg 4341002614139, pos 204748281642812, pos 799592720971327)
      ∷ (pos 41941786468010, pos 189358492130623, pos 768699721401368)
      ∷ (pos 14317320230681, pos 85283615682657, pos 900399064086661)
      ∷ [];
}
