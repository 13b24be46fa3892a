-- ===== src/Integration/Tables/DunavantTo10.antt =====
-- `Dunavant_2D::GPData` (source/integration/integrations_2D/integration_dunavant_2D.cpp), in units of
-- 10 ^ -15.
use dgswemv.Prelude.{[], ◌∷◌}
use dgswemv.Integration.Signed.{pos, neg}
use dgswemv.Integration.Data.{TriangleData}

unfoldable pub dunavant_1 : TriangleData
dunavant_1 = record {
  weights = pos 1000000000000000 ∷ [];
  points = (pos 333333333333333, pos 333333333333333, pos 333333333333333) ∷ [];
}

unfoldable pub dunavant_2 : TriangleData
dunavant_2 = record {
  weights = pos 333333333333333 ∷ [];
  points = (pos 666666666666667, pos 166666666666667, pos 166666666666667) ∷ [];
}

unfoldable pub dunavant_3 : TriangleData
dunavant_3 = record {
  weights = neg 562500000000000 ∷ pos 520833333333333 ∷ [];
  points =
      (pos 333333333333333, pos 333333333333333, pos 333333333333333)
      ∷ (pos 600000000000000, pos 200000000000000, pos 200000000000000)
      ∷ [];
}

unfoldable pub dunavant_4 : TriangleData
dunavant_4 = record {
  weights = pos 223381589678011 ∷ pos 109951743655322 ∷ [];
  points =
      (pos 108103018168070, pos 445948490915965, pos 445948490915965)
      ∷ (pos 816847572980459, pos 91576213509771, pos 91576213509771)
      ∷ [];
}

unfoldable pub dunavant_5 : TriangleData
dunavant_5 = record {
  weights = pos 225000000000000 ∷ pos 132394152788506 ∷ pos 125939180544827 ∷ [];
  points =
      (pos 333333333333333, pos 333333333333333, pos 333333333333333)
      ∷ (pos 59715871789770, pos 470142064105115, pos 470142064105115)
      ∷ (pos 797426985353087, pos 101286507323456, pos 101286507323456)
      ∷ [];
}

unfoldable pub dunavant_6 : TriangleData
dunavant_6 = record {
  weights = pos 116786275726379 ∷ pos 50844906370207 ∷ pos 82851075618374 ∷ [];
  points =
      (pos 501426509658179, pos 249286745170910, pos 249286745170910)
      ∷ (pos 873821971016996, pos 63089014491502, pos 63089014491502)
      ∷ (pos 53145049844817, pos 310352451033784, pos 636502499121399)
      ∷ [];
}

unfoldable pub dunavant_7 : TriangleData
dunavant_7 = record {
  weights =
      neg 149570044467682 ∷ pos 175615257433208 ∷ pos 53347235608838 ∷ pos 77113760890257 ∷ [];
  points =
      (pos 333333333333333, pos 333333333333333, pos 333333333333333)
      ∷ (pos 479308067841920, pos 260345966079040, pos 260345966079040)
      ∷ (pos 869739794195568, pos 65130102902216, pos 65130102902216)
      ∷ (pos 48690315425316, pos 312865496004874, pos 638444188569810)
      ∷ [];
}

unfoldable pub dunavant_8 : TriangleData
dunavant_8 = record {
  weights =
      pos 144315607677787
      ∷ pos 95091634267285
      ∷ pos 103217370534718
      ∷ pos 32458497623198
      ∷ pos 27230314174435
      ∷ [];
  points =
      (pos 333333333333333, pos 333333333333333, pos 333333333333333)
      ∷ (pos 81414823414554, pos 459292588292723, pos 459292588292723)
      ∷ (pos 658861384496480, pos 170569307751760, pos 170569307751760)
      ∷ (pos 898905543365938, pos 50547228317031, pos 50547228317031)
      ∷ (pos 8394777409958, pos 263112829634638, pos 728492392955404)
      ∷ [];
}

unfoldable pub dunavant_9 : TriangleData
dunavant_9 = record {
  weights =
      pos 97135796282799
      ∷ pos 31334700227139
      ∷ pos 77827541004774
      ∷ pos 79647738927210
      ∷ pos 25577675658698
      ∷ pos 43283539377289
      ∷ [];
  points =
      (pos 333333333333333, pos 333333333333333, pos 333333333333333)
      ∷ (pos 20634961602525, pos 489682519198738, pos 489682519198738)
      ∷ (pos 125820817014127, pos 437089591492937, pos 437089591492937)
      ∷ (pos 623592928761935, pos 188203535619033, pos 188203535619033)
      ∷ (pos 910540973211095, pos 44729513394453, pos 44729513394453)
      ∷ (pos 36838412054736, pos 221962989160766, pos 741198598784498)
      ∷ [];
}

unfoldable pub dunavant_10 : TriangleData
dunavant_10 = record {
  weights =
      pos 90817990382754
      ∷ pos 36725957756467
      ∷ pos 45321059435528
      ∷ pos 72757916845420
      ∷ pos 28327242531057
      ∷ pos 9421666963733
      ∷ [];
  points =
      (pos 333333333333333, pos 333333333333333, pos 333333333333333)
      ∷ (pos 28844733232685, pos 485577633383657, pos 485577633383657)
      ∷ (pos 781036849029926, pos 109481575485037, pos 109481575485037)
      ∷ (pos 141707219414880, pos 307939838764121, pos 550352941820999)
      ∷ (pos 25003534762686, pos 246672560639903, pos 728323904597411)
      ∷ (pos 9540815400299, pos 66803251012200, pos 923655933587500)
      ∷ [];
}
