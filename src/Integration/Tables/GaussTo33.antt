-- ===== src/Integration/Tables/GaussTo33.antt =====
-- `GaussLegendre_1D::GPData` (source/integration/integrations_1D/integration_gausslegendre_1D.cpp),
-- in units of 10 ^ -31.
use dgswemv.Prelude.{[], ◌∷◌}
use dgswemv.Integration.Signed.{pos, neg}
use dgswemv.Integration.Data.{LineData}

unfoldable pub gauss_32 : LineData
gauss_32 = record {
  weights =
      pos 70186100094700966004070637390
      ∷ pos 162743947309056706051705622060
      ∷ pos 253920653092620594557525897890
      ∷ pos 342738629130214331026877322520
      ∷ pos 428358980222266806568786466060
      ∷ pos 509980592623761761961632446900
      ∷ pos 586840934785355471452836373000
      ∷ pos 658222227763618468376500637100
      ∷ pos 723457941088485062253993564800
      ∷ pos 781938957870703064717409188300
      ∷ pos 833119242269467552221990746000
      ∷ pos 876520930044038111427714627500
      ∷ pos 911738786957638847128685771100
      ∷ pos 938443990808045656391802376700
      ∷ pos 956387200792748594190820022000
      ∷ pos 965400885147278005667648300600
      ∷ pos 965400885147278005667648300600
      ∷ pos 956387200792748594190820022000
      ∷ pos 938443990808045656391802376700
      ∷ pos 911738786957638847128685771100
      ∷ pos 876520930044038111427714627500
      ∷ pos 833119242269467552221990746000
      ∷ pos 781938957870703064717409188300
      ∷ pos 723457941088485062253993564800
      ∷ pos 658222227763618468376500637100
      ∷ pos 586840934785355471452836373000
      ∷ pos 509980592623761761961632446900
      ∷ pos 428358980222266806568786466060
      ∷ pos 342738629130214331026877322520
      ∷ pos 253920653092620594557525897890
      ∷ pos 162743947309056706051705622060
      ∷ pos 70186100094700966004070637390
      ∷ [];
  points =
      neg 9972638618494815635449811300000
      ∷ neg 9856115115452683354001750400000
      ∷ neg 9647622555875064307738119300000
      ∷ neg 9349060759377396891709191300000
      ∷ neg 8963211557660521239653072400000
      ∷ neg 8493676137325699701336930000000
      ∷ neg 7944837959679424069630973000000
      ∷ neg 7321821187402896803874266700000
      ∷ neg 6630442669302152009751151700000
      ∷ neg 5877157572407623290407454800000
      ∷ neg 5068999089322293900237474700000
      ∷ neg 4213512761306353453641194400000
      ∷ neg 3318686022821276497799168100000
      ∷ neg 2392873622521370745446032100000
      ∷ neg 1444719615827964934851863700000
      ∷ neg 483076656877383162348125700000
      ∷ pos 483076656877383162348125700000
      ∷ pos 1444719615827964934851863700000
      ∷ pos 2392873622521370745446032100000
      ∷ pos 3318686022821276497799168100000
      ∷ pos 4213512761306353453641194400000
      ∷ pos 5068999089322293900237474700000
      ∷ pos 5877157572407623290407454800000
      ∷ pos 6630442669302152009751151700000
      ∷ pos 7321821187402896803874266700000
      ∷ pos 7944837959679424069630973000000
      ∷ pos 8493676137325699701336930000000
      ∷ pos 8963211557660521239653072400000
      ∷ pos 9349060759377396891709191300000
      ∷ pos 9647622555875064307738119300000
      ∷ pos 9856115115452683354001750400000
      ∷ pos 9972638618494815635449811300000
      ∷ [];
}

unfoldable pub gauss_33 : LineData
gauss_33 = record {
  weights =
      pos 66062278475873780586492352085
      ∷ pos 153217015129346761279457685340
      ∷ pos 239155481017494803505332575290
      ∷ pos 323003586323289532815614472500
      ∷ pos 404015413316695915634097905270
      ∷ pos 481477428187116956701468801380
      ∷ pos 554708466316635612849444954390
      ∷ pos 623064825303174800316277257710
      ∷ pos 685945728186567128059550730150
      ∷ pos 742798548439541493424721759190
      ∷ pos 793123647948867383639083849420
      ∷ pos 836478760670387076139280145180
      ∷ pos 872482876188443376072816709450
      ∷ pos 900819586606385772397437055000
      ∷ pos 921239866433168462132409777170
      ∷ pos 933564260655961161609991262740
      ∷ pos 937684461602099965673045415500
      ∷ pos 933564260655961161609991262740
      ∷ pos 921239866433168462132409777170
      ∷ pos 900819586606385772397437055000
      ∷ pos 872482876188443376072816709450
      ∷ pos 836478760670387076139280145180
      ∷ pos 793123647948867383639083849420
      ∷ pos 742798548439541493424721759190
      ∷ pos 685945728186567128059550730150
      ∷ pos 623064825303174800316277257710
      ∷ pos 554708466316635612849444954390
      ∷ pos 481477428187116956701468801380
      ∷ pos 404015413316695915634097905270
      ∷ pos 323003586323289532815614472500
      ∷ pos 239155481017494803505332575290
      ∷ pos 153217015129346761279457685340
      ∷ pos 66062278475873780586492352085
      ∷ [];
  points =
      neg 9974246942464552172661680200000
      ∷ neg 9864557262306424881103757000000
      ∷ neg 9668229096899927689283777100000
      ∷ neg 9386943726111683503558351200000
      ∷ neg 9023167677434335830405313300000
      ∷ neg 8580096526765040646430614800000
      ∷ neg 8061623562741665897962008700000
      ∷ neg 7472304964495621578590551200000
      ∷ neg 6817319599697427862682159500000
      ∷ neg 6102423458363790273072875100000
      ∷ neg 5333899047863476435488942600000
      ∷ neg 4518500172724506957259932800000
      ∷ neg 3663392577480733410702206200000
      ∷ neg 2776090971524970294032480700000
      ∷ neg 1864392988279915723357987600000
      ∷ neg 936310658547333856707429200000
      ∷ pos 0
      ∷ pos 936310658547333856707429200000
      ∷ pos 1864392988279915723357987600000
      ∷ pos 2776090971524970294032480700000
      ∷ pos 3663392577480733410702206200000
      ∷ pos 4518500172724506957259932800000
      ∷ pos 5333899047863476435488942600000
      ∷ pos 6102423458363790273072875100000
      ∷ pos 6817319599697427862682159500000
      ∷ pos 7472304964495621578590551200000
      ∷ pos 8061623562741665897962008700000
      ∷ pos 8580096526765040646430614800000
      ∷ pos 9023167677434335830405313300000
      ∷ pos 9386943726111683503558351200000
      ∷ pos 9668229096899927689283777100000
      ∷ pos 9864557262306424881103757000000
      ∷ pos 9974246942464552172661680200000
      ∷ [];
}
