-- ===== src/Integration/Tables/GaussTo22.antt =====
-- `GaussLegendre_1D::GPData` (source/integration/integrations_1D/integration_gausslegendre_1D.cpp),
-- in units of 10 ^ -31.
use dgswemv.Prelude.{[], ◌∷◌}
use dgswemv.Integration.Signed.{pos, neg}
use dgswemv.Integration.Data.{LineData}

unfoldable pub gauss_19 : LineData
gauss_19 = record {
  weights =
      pos 194617882297264770363120414640
      ∷ pos 448142267656996003328381574020
      ∷ pos 690445427376412265807082580060
      ∷ pos 914900216224499994644620941240
      ∷ pos 1115666455473339947160239016820
      ∷ pos 1287539625393362276755157848600
      ∷ pos 1426067021736066117757461094400
      ∷ pos 1527660420658596667788554009000
      ∷ pos 1589688433939543476499564394600
      ∷ pos 1610544498487836959791636253200
      ∷ pos 1589688433939543476499564394600
      ∷ pos 1527660420658596667788554009000
      ∷ pos 1426067021736066117757461094400
      ∷ pos 1287539625393362276755157848600
      ∷ pos 1115666455473339947160239016820
      ∷ pos 914900216224499994644620941240
      ∷ pos 690445427376412265807082580060
      ∷ pos 448142267656996003328381574020
      ∷ pos 194617882297264770363120414640
      ∷ [];
  points =
      neg 9924068438435844031890176700000
      ∷ neg 9602081521348300308527788410000
      ∷ neg 9031559036148179016426609290000
      ∷ neg 8227146565371428249789224870000
      ∷ neg 7209661773352293786170958600000
      ∷ neg 6005453046616810234696381600000
      ∷ neg 4645707413759609457172671500000
      ∷ neg 3165640999636298319901173300000
      ∷ neg 1603586456402253758680961200000
      ∷ pos 0
      ∷ pos 1603586456402253758680961200000
      ∷ pos 3165640999636298319901173300000
      ∷ pos 4645707413759609457172671500000
      ∷ pos 6005453046616810234696381600000
      ∷ pos 7209661773352293786170958600000
      ∷ pos 8227146565371428249789224900000
      ∷ pos 9031559036148179016426609300000
      ∷ pos 9602081521348300308527788400000
      ∷ pos 9924068438435844031890176700000
      ∷ [];
}

unfoldable pub gauss_20 : LineData
gauss_20 = record {
  weights =
      pos 176140071391521183118619623520
      ∷ pos 406014298003869413310399522750
      ∷ pos 626720483341090635695065351870
      ∷ pos 832767415767047487247581432200
      ∷ pos 1019301198172404350367501354800
      ∷ pos 1181945319615184173123773777100
      ∷ pos 1316886384491766268984944997500
      ∷ pos 1420961093183820513292983250700
      ∷ pos 1491729864726037467878287370000
      ∷ pos 1527533871307258506980843319500
      ∷ pos 1527533871307258506980843319500
      ∷ pos 1491729864726037467878287370000
      ∷ pos 1420961093183820513292983250700
      ∷ pos 1316886384491766268984944997500
      ∷ pos 1181945319615184173123773777100
      ∷ pos 1019301198172404350367501354800
      ∷ pos 832767415767047487247581432200
      ∷ pos 626720483341090635695065351870
      ∷ pos 406014298003869413310399522750
      ∷ pos 176140071391521183118619623520
      ∷ [];
  points =
      neg 9931285991850949247861223880000
      ∷ neg 9639719272779137912676661310000
      ∷ neg 9122344282513259058677524410000
      ∷ neg 8391169718222188233945290600000
      ∷ neg 7463319064601507926143050700000
      ∷ neg 6360536807265150254528367000000
      ∷ neg 5108670019508270980043640500000
      ∷ neg 3737060887154195606725481800000
      ∷ neg 2277858511416450780804962000000
      ∷ neg 765265211334973337546404100000
      ∷ pos 765265211334973337546404100000
      ∷ pos 2277858511416450780804962000000
      ∷ pos 3737060887154195606725481800000
      ∷ pos 5108670019508270980043640500000
      ∷ pos 6360536807265150254528367000000
      ∷ pos 7463319064601507926143050700000
      ∷ pos 8391169718222188233945290600000
      ∷ pos 9122344282513259058677524400000
      ∷ pos 9639719272779137912676661300000
      ∷ pos 9931285991850949247861223900000
      ∷ [];
}

unfoldable pub gauss_21 : LineData
gauss_21 = record {
  weights =
      pos 160172282577743333242246168580
      ∷ pos 369537897708524937999506682990
      ∷ pos 571344254268572082836358264720
      ∷ pos 761001136283793020170516533000
      ∷ pos 934444234560338615532897411140
      ∷ pos 1087972991671483776634745780700
      ∷ pos 1218314160537285341953671771300
      ∷ pos 1322689386333374617810525745000
      ∷ pos 1398873947910731547221334238700
      ∷ pos 1445244039899700590638271665500
      ∷ pos 1460811336496904271919851476800
      ∷ pos 1445244039899700590638271665500
      ∷ pos 1398873947910731547221334238700
      ∷ pos 1322689386333374617810525745000
      ∷ pos 1218314160537285341953671771300
      ∷ pos 1087972991671483776634745780700
      ∷ pos 934444234560338615532897411140
      ∷ pos 761001136283793020170516533000
      ∷ pos 571344254268572082836358264720
      ∷ pos 369537897708524937999506682990
      ∷ pos 160172282577743333242246168580
      ∷ [];
  points =
      neg 9937521706203895002602420400000
      ∷ neg 9672268385663062943166222100000
      ∷ neg 9200993341504008287901871300000
      ∷ neg 8533633645833172836472506400000
      ∷ neg 7684399634756779086158778500000
      ∷ neg 6671388041974123193059666700000
      ∷ neg 5516188358872198070590188000000
      ∷ neg 4243421202074387835736688900000
      ∷ neg 2880213168024010966007925200000
      ∷ neg 1455618541608950909370309800000
      ∷ pos 0
      ∷ pos 1455618541608950909370309800000
      ∷ pos 2880213168024010966007925200000
      ∷ pos 4243421202074387835736688900000
      ∷ pos 5516188358872198070590188000000
      ∷ pos 6671388041974123193059666700000
      ∷ pos 7684399634756779086158778500000
      ∷ pos 8533633645833172836472506400000
      ∷ pos 9200993341504008287901871300000
      ∷ pos 9672268385663062943166222100000
      ∷ pos 9937521706203895002602420400000
      ∷ [];
}

unfoldable pub gauss_22 : LineData
gauss_22 = record {
  weights =
      pos 146279952982722006849910980470
      ∷ pos 337749015848141547933022468660
      ∷ pos 522933351526832859403120512730
      ∷ pos 697964684245204880949614189300
      ∷ pos 859416062170677274144436813700
      ∷ pos 1004141444428809649320788378300
      ∷ pos 1129322960805392183934006074200
      ∷ pos 1232523768105124242855609861500
      ∷ pos 1311735047870623707329649925300
      ∷ pos 1365414983460151713525738312300
      ∷ pos 1392518728556319933754102483400
      ∷ pos 1392518728556319933754102483400
      ∷ pos 1365414983460151713525738312300
      ∷ pos 1311735047870623707329649925300
      ∷ pos 1232523768105124242855609861500
      ∷ pos 1129322960805392183934006074200
      ∷ pos 1004141444428809649320788378300
      ∷ pos 859416062170677274144436813700
      ∷ pos 697964684245204880949614189300
      ∷ pos 522933351526832859403120512730
      ∷ pos 337749015848141547933022468660
      ∷ pos 146279952982722006849910980470
      ∷ [];
  points =
      neg 9942945854823992920730314200000
      ∷ neg 9700604978354287271239509900000
      ∷ neg 9269567721871740005206929400000
      ∷ neg 8658125777203001365364256400000
      ∷ neg 7878168059792081620042779600000
      ∷ neg 6944872631866827800506898400000
      ∷ neg 5876404035069115929588769300000
      ∷ neg 4693558379867570264063307100000
      ∷ neg 3419358208920842251581474200000
      ∷ neg 2078604266882212854788465300000
      ∷ neg 697392733197222212138418000000
      ∷ pos 697392733197222212138418000000
      ∷ pos 2078604266882212854788465300000
      ∷ pos 3419358208920842251581474200000
      ∷ pos 4693558379867570264063307100000
      ∷ pos 5876404035069115929588769300000
      ∷ pos 6944872631866827800506898400000
      ∷ pos 7878168059792081620042779600000
      ∷ pos 8658125777203001365364256400000
      ∷ pos 9269567721871740005206929400000
      ∷ pos 9700604978354287271239509900000
      ∷ pos 9942945854823992920730314200000
      ∷ [];
}
