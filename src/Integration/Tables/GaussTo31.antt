-- ===== src/Integration/Tables/GaussTo31.antt =====
-- `GaussLegendre_1D::GPData` (source/integration/integrations_1D/integration_gausslegendre_1D.cpp),
-- in units of 10 ^ -31.
use dgswemv.Prelude.{[], ◌∷◌}
use dgswemv.Integration.Signed.{pos, neg}
use dgswemv.Integration.Data.{LineData}

unfoldable pub gauss_29 : LineData
gauss_29 = record {
  weights =
      pos 85169038787464096542638133022
      ∷ pos 197320850561227059838598016400
      ∷ pos 307404922020936226444085253750
      ∷ pos 414020625186828361048300101140
      ∷ pos 515948269024979239125943811800
      ∷ pos 612030906570791385421098480240
      ∷ pos 701179332550512785695814869490
      ∷ pos 782383271357637838281448886600
      ∷ pos 854722573661725275453448492970
      ∷ pos 917377571392587633479664110770
      ∷ pos 969638340944086063019000748830
      ∷ pos 1010912737599149661218205469070
      ∷ pos 1040733100777293739133284712850
      ∷ pos 1058761550973209414065913278520
      ∷ pos 1064793817183142442465111269100
      ∷ pos 1058761550973209414065913278520
      ∷ pos 1040733100777293739133284712850
      ∷ pos 1010912737599149661218205469070
      ∷ pos 969638340944086063019000748830
      ∷ pos 917377571392587633479664110770
      ∷ pos 854722573661725275453448492970
      ∷ pos 782383271357637838281448886600
      ∷ pos 701179332550512785695814869490
      ∷ pos 612030906570791385421098480240
      ∷ pos 515948269024979239125943811800
      ∷ pos 414020625186828361048300101140
      ∷ pos 307404922020936226444085253750
      ∷ pos 197320850561227059838598016400
      ∷ pos 85169038787464096542638133022
      ∷ [];
  points =
      neg 9966794422605965861631915300000
      ∷ neg 9825455052614131748709260200000
      ∷ neg 9572855957780877257982080400000
      ∷ neg 9211802329530587850937534400000
      ∷ neg 8746378049201027904177934200000
      ∷ neg 8181854876152524449895722100000
      ∷ neg 7524628517344771339126100800000
      ∷ neg 6782145376026865151561850100000
      ∷ neg 5962817971382278203795862100000
      ∷ neg 5075929551242276421026279200000
      ∷ neg 4131528881740086638907065900000
      ∷ neg 3140316378676399349481959200000
      ∷ neg 2113522861660010745063757300000
      ∷ neg 1062782301326792301709823900000
      ∷ pos 0
      ∷ pos 1062782301326792301709823900000
      ∷ pos 2113522861660010745063757300000
      ∷ pos 3140316378676399349481959200000
      ∷ pos 4131528881740086638907065900000
      ∷ pos 5075929551242276421026279200000
      ∷ pos 5962817971382278203795862100000
      ∷ pos 6782145376026865151561850100000
      ∷ pos 7524628517344771339126100800000
      ∷ pos 8181854876152524449895722100000
      ∷ pos 8746378049201027904177934200000
      ∷ pos 9211802329530587850937534400000
      ∷ pos 9572855957780877257982080400000
      ∷ pos 9825455052614131748709260200000
      ∷ pos 9966794422605965861631915300000
      ∷ [];
}

unfoldable pub gauss_30 : LineData
gauss_30 = record {
  weights =
      pos 79681924961666056154658834750
      ∷ pos 184664683110909591423021319120
      ∷ pos 287847078833233693497191796110
      ∷ pos 387991925696270495968019364460
      ∷ pos 484026728305940529029381404230
      ∷ pos 574931562176190664817216894020
      ∷ pos 659742298821804951281285151200
      ∷ pos 737559747377052062682438500200
      ∷ pos 807558952294202153546949384600
      ∷ pos 868997872010829798023875307200
      ∷ pos 921225222377861287176327070900
      ∷ pos 963687371746442596394686263500
      ∷ pos 995934205867952670627802821000
      ∷ pos 1017623897484055045964289521700
      ∷ pos 1028526528935588403412856367100
      ∷ pos 1028526528935588403412856367100
      ∷ pos 1017623897484055045964289521700
      ∷ pos 995934205867952670627802821000
      ∷ pos 963687371746442596394686263500
      ∷ pos 921225222377861287176327070900
      ∷ pos 868997872010829798023875307200
      ∷ pos 807558952294202153546949384600
      ∷ pos 737559747377052062682438500200
      ∷ pos 659742298821804951281285151200
      ∷ pos 574931562176190664817216894020
      ∷ pos 484026728305940529029381404230
      ∷ pos 387991925696270495968019364460
      ∷ pos 287847078833233693497191796110
      ∷ pos 184664683110909591423021319120
      ∷ pos 79681924961666056154658834750
      ∷ [];
  points =
      neg 9968934840746495402716300500000
      ∷ neg 9836681232797472099700325800000
      ∷ neg 9600218649683075122168710300000
      ∷ neg 9262000474292743258793242800000
      ∷ neg 8825605357920526815431164600000
      ∷ neg 8295657623827683974428981200000
      ∷ neg 7677774321048261949179773400000
      ∷ neg 6978504947933157969322923900000
      ∷ neg 6205261829892428611404775600000
      ∷ neg 5366241481420198992641697900000
      ∷ neg 4470337695380891767806099000000
      ∷ neg 3527047255308781134710372100000
      ∷ neg 2546369261678898464398051300000
      ∷ neg 1538699136085835469637946700000
      ∷ neg 514718425553176958330252100000
      ∷ pos 514718425553176958330252100000
      ∷ pos 1538699136085835469637946700000
      ∷ pos 2546369261678898464398051300000
      ∷ pos 3527047255308781134710372100000
      ∷ pos 4470337695380891767806099000000
      ∷ pos 5366241481420198992641697900000
      ∷ pos 6205261829892428611404775600000
      ∷ pos 6978504947933157969322923900000
      ∷ pos 7677774321048261949179773400000
      ∷ pos 8295657623827683974428981200000
      ∷ pos 8825605357920526815431164600000
      ∷ pos 9262000474292743258793242800000
      ∷ pos 9600218649683075122168710300000
      ∷ pos 9836681232797472099700325800000
      ∷ pos 9968934840746495402716300500000
      ∷ [];
}

unfoldable pub gauss_31 : LineData
gauss_31 = record {
  weights =
      pos 74708315792487758586968750322
      ∷ pos 173186207903105824631579960870
      ∷ pos 270090191849794218006087080920
      ∷ pos 364322739123854640243920104680
      ∷ pos 454937075272011029023158578950
      ∷ pos 541030824249168537116662590870
      ∷ pos 621747865610284269103435436870
      ∷ pos 696285832354103661677561262550
      ∷ pos 763903865987766164263576749010
      ∷ pos 823929917615892639038233674320
      ∷ pos 875767406084778761261980696950
      ∷ pos 918901138936414782153628716070
      ∷ pos 952902429123195128072041974880
      ∷ pos 977433353863287250934740109790
      ∷ pos 992250112266723078748755144290
      ∷ pos 997205447934264514275338337300
      ∷ pos 992250112266723078748755144290
      ∷ pos 977433353863287250934740109790
      ∷ pos 952902429123195128072041974880
      ∷ pos 918901138936414782153628716070
      ∷ pos 875767406084778761261980696950
      ∷ pos 823929917615892639038233674320
      ∷ pos 763903865987766164263576749010
      ∷ pos 696285832354103661677561262550
      ∷ pos 621747865610284269103435436870
      ∷ pos 541030824249168537116662590870
      ∷ pos 454937075272011029023158578950
      ∷ pos 364322739123854640243920104680
      ∷ pos 270090191849794218006087080920
      ∷ pos 173186207903105824631579960870
      ∷ pos 74708315792487758586968750322
      ∷ [];
  points =
      neg 9970874818194770740556265500000
      ∷ neg 9846859096651524840024651700000
      ∷ neg 9625039250929496617890524000000
      ∷ neg 9307569978966481649569457600000
      ∷ neg 8897600299482710433741920100000
      ∷ neg 8399203201462673400869045400000
      ∷ neg 7817331484166249404063600200000
      ∷ neg 7157767845868532839059708700000
      ∷ neg 6427067229242603461844182000000
      ∷ neg 5632491614071492627209449200000
      ∷ neg 4781937820449024804405940400000
      ∷ neg 3883859016082329430613514600000
      ∷ neg 2947180699817016166179039000000
      ∷ neg 1981211993355706287724130000000
      ∷ neg 995553121523415203251747900000
      ∷ pos 0
      ∷ pos 995553121523415203251747900000
      ∷ pos 1981211993355706287724130000000
      ∷ pos 2947180699817016166179039000000
      ∷ pos 3883859016082329430613514600000
      ∷ pos 4781937820449024804405940400000
      ∷ pos 5632491614071492627209449200000
      ∷ pos 6427067229242603461844182000000
      ∷ pos 7157767845868532839059708700000
      ∷ pos 7817331484166249404063600200000
      ∷ pos 8399203201462673400869045400000
      ∷ pos 8897600299482710433741920100000
      ∷ pos 9307569978966481649569457600000
      ∷ pos 9625039250929496617890524000000
      ∷ pos 9846859096651524840024651700000
      ∷ pos 9970874818194770740556265500000
      ∷ [];
}
