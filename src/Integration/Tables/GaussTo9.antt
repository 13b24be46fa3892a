-- ===== src/Integration/Tables/GaussTo9.antt =====
-- `GaussLegendre_1D::GPData` (source/integration/integrations_1D/integration_gausslegendre_1D.cpp),
-- in units of 10 ^ -31.
use dgswemv.Prelude.{[], ◌∷◌}
use dgswemv.Integration.Signed.{pos, neg}
use dgswemv.Integration.Data.{LineData}

unfoldable pub gauss_1 : LineData
gauss_1 = record { weights = pos 20000000000000000000000000000000 ∷ []; points = pos 0 ∷ [] }

unfoldable pub gauss_2 : LineData
gauss_2 = record {
  weights = pos 10000000000000000000000000000000 ∷ pos 10000000000000000000000000000000 ∷ [];
  points = neg 5773502691896257645091487805020 ∷ pos 5773502691896257645091487805020 ∷ [];
}

unfoldable pub gauss_3 : LineData
gauss_3 = record {
  weights =
      pos 5555555555555555555555555555560
      ∷ pos 8888888888888888888888888888890
      ∷ pos 5555555555555555555555555555560
      ∷ [];
  points = neg 7745966692414833770358530799560 ∷ pos 0 ∷ pos 7745966692414833770358530799560 ∷ [];
}

unfoldable pub gauss_4 : LineData
gauss_4 = record {
  weights =
      pos 3478548451374538573730639492220
      ∷ pos 6521451548625461426269360507780
      ∷ pos 6521451548625461426269360507780
      ∷ pos 3478548451374538573730639492220
      ∷ [];
  points =
      neg 8611363115940525752239464888930
      ∷ neg 3399810435848562648026657591030
      ∷ pos 3399810435848562648026657591030
      ∷ pos 8611363115940525752239464888930
      ∷ [];
}

unfoldable pub gauss_5 : LineData
gauss_5 = record {
  weights =
      pos 2369268850561890875142640407200
      ∷ pos 4786286704993664680412915148360
      ∷ pos 5688888888888888888888888888890
      ∷ pos 4786286704993664680412915148360
      ∷ pos 2369268850561890875142640407200
      ∷ [];
  points =
      neg 9061798459386639927976268782990
      ∷ neg 5384693101056830910363144207000
      ∷ pos 0
      ∷ pos 5384693101056830910363144207000
      ∷ pos 9061798459386639927976268782990
      ∷ [];
}

unfoldable pub gauss_6 : LineData
gauss_6 = record {
  weights =
      pos 1713244923791703450402961421730
      ∷ pos 3607615730481386075698335138380
      ∷ pos 4679139345726910473898703439900
      ∷ pos 4679139345726910473898703439900
      ∷ pos 3607615730481386075698335138380
      ∷ pos 1713244923791703450402961421730
      ∷ [];
  points =
      neg 9324695142031520278123015544940
      ∷ neg 6612093864662645136613995950200
      ∷ neg 2386191860831969086305017216810
      ∷ pos 2386191860831969086305017216810
      ∷ pos 6612093864662645136613995950200
      ∷ pos 9324695142031520278123015544940
      ∷ [];
}

unfoldable pub gauss_7 : LineData
gauss_7 = record {
  weights =
      pos 1294849661688696932706114326790
      ∷ pos 2797053914892766679014677714240
      ∷ pos 3818300505051189449503697754890
      ∷ pos 4179591836734693877551020408160
      ∷ pos 3818300505051189449503697754890
      ∷ pos 2797053914892766679014677714240
      ∷ pos 1294849661688696932706114326790
      ∷ [];
  points =
      neg 9491079123427585245261896840480
      ∷ neg 7415311855993944398638647732810
      ∷ neg 4058451513773971669066064120770
      ∷ pos 0
      ∷ pos 4058451513773971669066064120770
      ∷ pos 7415311855993944398638647732810
      ∷ pos 9491079123427585245261896840480
      ∷ [];
}

unfoldable pub gauss_8 : LineData
gauss_8 = record {
  weights =
      pos 1012285362903762591525313543100
      ∷ pos 2223810344533744705443559944260
      ∷ pos 3137066458778872873379622019870
      ∷ pos 3626837833783619829651504492770
      ∷ pos 3626837833783619829651504492770
      ∷ pos 3137066458778872873379622019870
      ∷ pos 2223810344533744705443559944260
      ∷ pos 1012285362903762591525313543100
      ∷ [];
  points =
      neg 9602898564975362316835608685690
      ∷ neg 7966664774136267395915539364760
      ∷ neg 5255324099163289858177390491890
      ∷ neg 1834346424956498049394761423600
      ∷ pos 1834346424956498049394761423600
      ∷ pos 5255324099163289858177390491890
      ∷ pos 7966664774136267395915539364760
      ∷ pos 9602898564975362316835608685690
      ∷ [];
}

unfoldable pub gauss_9 : LineData
gauss_9 = record {
  weights =
      pos 812743883615744119718921581110
      ∷ pos 1806481606948574040584720312400
      ∷ pos 2606106964029354623187428694200
      ∷ pos 3123470770400028400686304065800
      ∷ pos 3302393550012597631645250692900
      ∷ pos 3123470770400028400686304065800
      ∷ pos 2606106964029354623187428694200
      ∷ pos 1806481606948574040584720312400
      ∷ pos 812743883615744119718921581110
      ∷ [];
  points =
      neg 9681602395076260898355762030000
      ∷ neg 8360311073266357942994297880000
      ∷ neg 6133714327005903973087020390000
      ∷ neg 3242534234038089290385380150000
      ∷ pos 0
      ∷ pos 3242534234038089290385380150000
      ∷ pos 6133714327005903973087020390000
      ∷ pos 8360311073266357942994297880000
      ∷ pos 9681602395076260898355762030000
      ∷ [];
}
