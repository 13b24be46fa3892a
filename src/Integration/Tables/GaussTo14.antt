-- ===== src/Integration/Tables/GaussTo14.antt =====
-- `GaussLegendre_1D::GPData` (source/integration/integrations_1D/integration_gausslegendre_1D.cpp),
-- in units of 10 ^ -31.
use dgswemv.Prelude.{[], ◌∷◌}
use dgswemv.Integration.Signed.{pos, neg}
use dgswemv.Integration.Data.{LineData}

unfoldable pub gauss_10 : LineData
gauss_10 = record {
  weights =
      pos 666713443086881375935688098930
      ∷ pos 1494513491505805931457763396600
      ∷ pos 2190863625159820439955349342300
      ∷ pos 2692667193099963550912269215700
      ∷ pos 2955242247147528701738929946500
      ∷ pos 2955242247147528701738929946500
      ∷ pos 2692667193099963550912269215700
      ∷ pos 2190863625159820439955349342300
      ∷ pos 1494513491505805931457763396600
      ∷ pos 666713443086881375935688098930
      ∷ [];
  points =
      neg 9739065285171717200779640120000
      ∷ neg 8650633666889845107320966880000
      ∷ neg 6794095682990244062343273650000
      ∷ neg 4333953941292471907992659430000
      ∷ neg 1488743389816312108848260010000
      ∷ pos 1488743389816312108848260010000
      ∷ pos 4333953941292471907992659430000
      ∷ pos 6794095682990244062343273650000
      ∷ pos 8650633666889845107320966880000
      ∷ pos 9739065285171717200779640120000
      ∷ [];
}

unfoldable pub gauss_11 : LineData
gauss_11 = record {
  weights =
      pos 556685671161736664827537204430
      ∷ pos 1255803694649046246346942992200
      ∷ pos 1862902109277342514260976414300
      ∷ pos 2331937645919904799185237048400
      ∷ pos 2628045445102466621806888698900
      ∷ pos 2729250867779006307144835283400
      ∷ pos 2628045445102466621806888698900
      ∷ pos 2331937645919904799185237048400
      ∷ pos 1862902109277342514260976414300
      ∷ pos 1255803694649046246346942992200
      ∷ pos 556685671161736664827537204430
      ∷ [];
  points =
      neg 9782286581460569928039380010000
      ∷ neg 8870625997680952990751577690000
      ∷ neg 7301520055740493240934162520000
      ∷ neg 5190961292068118159257256690000
      ∷ neg 2695431559523449723315319850000
      ∷ pos 0
      ∷ pos 2695431559523449723315319850000
      ∷ pos 5190961292068118159257256690000
      ∷ pos 7301520055740493240934162520000
      ∷ pos 8870625997680952990751577690000
      ∷ pos 9782286581460569928039380010000
      ∷ [];
}

unfoldable pub gauss_12 : LineData
gauss_12 = record {
  weights =
      pos 471753363865118271946159614850
      ∷ pos 1069393259953184309602547181900
      ∷ pos 1600783285433462263346525295400
      ∷ pos 2031674267230659217490644558100
      ∷ pos 2334925365383548087608498989200
      ∷ pos 2491470458134027850005624360400
      ∷ pos 2491470458134027850005624360400
      ∷ pos 2334925365383548087608498989200
      ∷ pos 2031674267230659217490644558100
      ∷ pos 1600783285433462263346525295400
      ∷ pos 1069393259953184309602547181900
      ∷ pos 471753363865118271946159614850
      ∷ [];
  points =
      neg 9815606342467192506905490900000
      ∷ neg 9041172563704748566784658660000
      ∷ neg 7699026741943046870368938330000
      ∷ neg 5873179542866174472967024190000
      ∷ neg 3678314989981801937526915370000
      ∷ neg 1252334085114689154724413690000
      ∷ pos 1252334085114689154724413690000
      ∷ pos 3678314989981801937526915370000
      ∷ pos 5873179542866174472967024190000
      ∷ pos 7699026741943046870368938330000
      ∷ pos 9041172563704748566784658660000
      ∷ pos 9815606342467192506905490900000
      ∷ [];
}

unfoldable pub gauss_13 : LineData
gauss_13 = record {
  weights =
      pos 404840047653158795200215922010
      ∷ pos 921214998377284479144217759540
      ∷ pos 1388735102197872384636017768700
      ∷ pos 1781459807619457382800466920000
      ∷ pos 2078160475368885023125232193100
      ∷ pos 2262831802628972384120901860400
      ∷ pos 2325515532308739101945895152700
      ∷ pos 2262831802628972384120901860400
      ∷ pos 2078160475368885023125232193100
      ∷ pos 1781459807619457382800466920000
      ∷ pos 1388735102197872384636017768700
      ∷ pos 921214998377284479144217759540
      ∷ pos 404840047653158795200215922010
      ∷ [];
  points =
      neg 9841830547185881494728294490000
      ∷ neg 9175983992229779652065478370000
      ∷ neg 8015780907333099127942064900000
      ∷ neg 6423493394403402206439846070000
      ∷ neg 4484927510364468528779128520000
      ∷ neg 2304583159551347940655281210000
      ∷ pos 0
      ∷ pos 2304583159551347940655281210000
      ∷ pos 4484927510364468528779128520000
      ∷ pos 6423493394403402206439846070000
      ∷ pos 8015780907333099127942064900000
      ∷ pos 9175983992229779652065478400000
      ∷ pos 9841830547185881494728294500000
      ∷ [];
}

unfoldable pub gauss_14 : LineData
gauss_14 = record {
  weights =
      pos 351194603317518630318328761380
      ∷ pos 801580871597602098056332770600
      ∷ pos 1215185706879031846894148090700
      ∷ pos 1572031671581935345696019386200
      ∷ pos 1855383974779378137417165901300
      ∷ pos 2051984637212956039659240656600
      ∷ pos 2152638534631577901958764433200
      ∷ pos 2152638534631577901958764433200
      ∷ pos 2051984637212956039659240656600
      ∷ pos 1855383974779378137417165901300
      ∷ pos 1572031671581935345696019386200
      ∷ pos 1215185706879031846894148090700
      ∷ pos 801580871597602098056332770600
      ∷ pos 351194603317518630318328761380
      ∷ [];
  points =
      neg 9862838086968123388415972670000
      ∷ neg 9284348836635735173363911390000
      ∷ neg 8272013150697649931897947430000
      ∷ neg 6872929048116854701480198030000
      ∷ neg 5152486363581540919652907190000
      ∷ neg 3191123689278897604356718240000
      ∷ neg 1080549487073436620662446500000
      ∷ pos 1080549487073436620662446500000
      ∷ pos 3191123689278897604356718200000
      ∷ pos 5152486363581540919652907200000
      ∷ pos 6872929048116854701480198000000
      ∷ pos 8272013150697649931897947400000
      ∷ pos 9284348836635735173363911400000
      ∷ pos 9862838086968123388415972700000
      ∷ [];
}
