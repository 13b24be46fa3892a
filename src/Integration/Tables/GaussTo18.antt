-- ===== src/Integration/Tables/GaussTo18.antt =====
-- `GaussLegendre_1D::GPData` (source/integration/integrations_1D/integration_gausslegendre_1D.cpp),
-- in units of 10 ^ -31.
use dgswemv.Prelude.{[], ◌∷◌}
use dgswemv.Integration.Signed.{pos, neg}
use dgswemv.Integration.Data.{LineData}

unfoldable pub gauss_15 : LineData
gauss_15 = record {
  weights =
      pos 307532419961172683546283935770
      ∷ pos 703660474881081247092674164510
      ∷ pos 1071592204671719350118695466860
      ∷ pos 1395706779261543144478047945100
      ∷ pos 1662692058169939335532008604800
      ∷ pos 1861610000155622110268005618700
      ∷ pos 1984314853271115764561183264400
      ∷ pos 2025782419255612728806201999700
      ∷ pos 1984314853271115764561183264400
      ∷ pos 1861610000155622110268005618700
      ∷ pos 1662692058169939335532008604800
      ∷ pos 1395706779261543144478047945100
      ∷ pos 1071592204671719350118695466860
      ∷ pos 703660474881081247092674164510
      ∷ pos 307532419961172683546283935770
      ∷ [];
  points =
      neg 9879925180204854284895657190000
      ∷ neg 9372733924007059043077589480000
      ∷ neg 8482065834104272162006483210000
      ∷ neg 7244177313601700474161860550000
      ∷ neg 5709721726085388475372267370000
      ∷ neg 3941513470775633698972073710000
      ∷ neg 2011940939974345223006283030000
      ∷ pos 0
      ∷ pos 2011940939974345223006283000000
      ∷ pos 3941513470775633698972073700000
      ∷ pos 5709721726085388475372267400000
      ∷ pos 7244177313601700474161860500000
      ∷ pos 8482065834104272162006483200000
      ∷ pos 9372733924007059043077589500000
      ∷ pos 9879925180204854284895657200000
      ∷ [];
}

unfoldable pub gauss_16 : LineData
gauss_16 = record {
  weights =
      pos 271524594117540948517805724560
      ∷ pos 622535239386478928628438369940
      ∷ pos 951585116824927848099251076000
      ∷ pos 1246289712555338720524762821900
      ∷ pos 1495959888165767320815017305500
      ∷ pos 1691565193950025381893120790300
      ∷ pos 1826034150449235888667636679700
      ∷ pos 1894506104550684962853967232100
      ∷ pos 1894506104550684962853967232100
      ∷ pos 1826034150449235888667636679700
      ∷ pos 1691565193950025381893120790300
      ∷ pos 1495959888165767320815017305500
      ∷ pos 1246289712555338720524762821900
      ∷ pos 951585116824927848099251076000
      ∷ pos 622535239386478928628438369940
      ∷ pos 271524594117540948517805724560
      ∷ [];
  points =
      neg 9894009349916499325961541730000
      ∷ neg 9445750230732325760779884160000
      ∷ neg 8656312023878317438804678980000
      ∷ neg 7554044083550030338951011950000
      ∷ neg 6178762444026437484466717640000
      ∷ neg 4580167776572273863424194430000
      ∷ neg 2816035507792589132304605010000
      ∷ neg 950125098376374401853193400000
      ∷ pos 950125098376374401853193400000
      ∷ pos 2816035507792589132304605000000
      ∷ pos 4580167776572273863424194400000
      ∷ pos 6178762444026437484466717600000
      ∷ pos 7554044083550030338951011900000
      ∷ pos 8656312023878317438804679000000
      ∷ pos 9445750230732325760779884200000
      ∷ pos 9894009349916499325961541700000
      ∷ [];
}

unfoldable pub gauss_17 : LineData
gauss_17 = record {
  weights =
      pos 241483028685479319601100262880
      ∷ pos 554595293739872011294401653590
      ∷ pos 850361483171791808835353701910
      ∷ pos 1118838471934039710947883856260
      ∷ pos 1351363684685254732863199817000
      ∷ pos 1540457610768102880814315948000
      ∷ pos 1680041021564500445099706637900
      ∷ pos 1765627053669926463252709901100
      ∷ pos 1794464703562065254582656442600
      ∷ pos 1765627053669926463252709901100
      ∷ pos 1680041021564500445099706637900
      ∷ pos 1540457610768102880814315948000
      ∷ pos 1351363684685254732863199817000
      ∷ pos 1118838471934039710947883856260
      ∷ pos 850361483171791808835353701910
      ∷ pos 554595293739872011294401653590
      ∷ pos 241483028685479319601100262880
      ∷ [];
  points =
      neg 9905754753144173356754340200000
      ∷ neg 9506755217687677612227169580000
      ∷ neg 8802391537269859021229556940000
      ∷ neg 7815140038968014069252300560000
      ∷ neg 6576711592166907658503022170000
      ∷ neg 5126905370864769678862465690000
      ∷ neg 3512317634538763152971855200000
      ∷ neg 1784841814958478558506774900000
      ∷ pos 0
      ∷ pos 1784841814958478558506774900000
      ∷ pos 3512317634538763152971855200000
      ∷ pos 5126905370864769678862465700000
      ∷ pos 6576711592166907658503022200000
      ∷ pos 7815140038968014069252300600000
      ∷ pos 8802391537269859021229556900000
      ∷ pos 9506755217687677612227169600000
      ∷ pos 9905754753144173356754340200000
      ∷ [];
}

unfoldable pub gauss_18 : LineData
gauss_18 = record {
  weights =
      pos 216160135264833103133427102660
      ∷ pos 497145488949697964533349462030
      ∷ pos 764257302548890565291296776200
      ∷ pos 1009420441062871655628139849200
      ∷ pos 1225552067114784601845191268000
      ∷ pos 1406429146706506512047313037500
      ∷ pos 1546846751262652449254180038400
      ∷ pos 1642764837458327229860537764700
      ∷ pos 1691423829631435918406564701300
      ∷ pos 1691423829631435918406564701300
      ∷ pos 1642764837458327229860537764700
      ∷ pos 1546846751262652449254180038400
      ∷ pos 1406429146706506512047313037500
      ∷ pos 1225552067114784601845191268000
      ∷ pos 1009420441062871655628139849200
      ∷ pos 764257302548890565291296776200
      ∷ pos 497145488949697964533349462030
      ∷ pos 216160135264833103133427102660
      ∷ [];
  points =
      neg 9915651684209309467300160050000
      ∷ neg 9558239495713977551811958930000
      ∷ neg 8926024664975557392060605910000
      ∷ neg 8037049589725231156824174550000
      ∷ neg 6916870430603532078748910810000
      ∷ neg 5597708310739475346078715500000
      ∷ neg 4117511614628426460359317900000
      ∷ neg 2518862256915055095889728500000
      ∷ neg 847750130417353012422618500000
      ∷ pos 847750130417353012422618500000
      ∷ pos 2518862256915055095889728500000
      ∷ pos 4117511614628426460359317900000
      ∷ pos 5597708310739475346078715500000
      ∷ pos 6916870430603532078748910800000
      ∷ pos 8037049589725231156824174600000
      ∷ pos 8926024664975557392060605900000
      ∷ pos 9558239495713977551811958900000
      ∷ pos 9915651684209309467300160000000
      ∷ [];
}
