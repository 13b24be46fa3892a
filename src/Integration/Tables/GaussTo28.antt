-- ===== src/Integration/Tables/GaussTo28.antt =====
-- `GaussLegendre_1D::GPData` (source/integration/integrations_1D/integration_gausslegendre_1D.cpp),
-- in units of 10 ^ -31.
use dgswemv.Prelude.{[], ◌∷◌}
use dgswemv.Integration.Signed.{pos, neg}
use dgswemv.Integration.Data.{LineData}

unfoldable pub gauss_26 : LineData
gauss_26 = record {
  weights =
      pos 105513726173430071556511876850
      ∷ pos 244178510926319087896158275200
      ∷ pos 379623832943627639503031412490
      ∷ pos 509758252971478119983199007240
      ∷ pos 632740463295748355394536899070
      ∷ pos 746841497656597458870757961000
      ∷ pos 850458943134852392104477650800
      ∷ pos 942138003559141484636648830700
      ∷ pos 1020591610944254232384140702500
      ∷ pos 1084718405285765906565794267300
      ∷ pos 1133618165463196665494407184400
      ∷ pos 1166604434852965820446625075400
      ∷ pos 1183214152792622765163710857000
      ∷ pos 1183214152792622765163710857000
      ∷ pos 1166604434852965820446625075400
      ∷ pos 1133618165463196665494407184400
      ∷ pos 1084718405285765906565794267300
      ∷ pos 1020591610944254232384140702500
      ∷ pos 942138003559141484636648830700
      ∷ pos 850458943134852392104477650800
      ∷ pos 746841497656597458870757961000
      ∷ pos 632740463295748355394536899070
      ∷ pos 509758252971478119983199007240
      ∷ pos 379623832943627639503031412490
      ∷ pos 244178510926319087896158275200
      ∷ pos 105513726173430071556511876850
      ∷ [];
  points =
      neg 9958857011456169290032169600000
      ∷ neg 9783854459564709911005803500000
      ∷ neg 9471590666617142501359152800000
      ∷ neg 9026378619843070742176656000000
      ∷ neg 8454459427884980187975070600000
      ∷ neg 7763859488206788561929672500000
      ∷ neg 6964272604199572648638139100000
      ∷ neg 6066922930176180632319787500000
      ∷ neg 5084407148245057176957030600000
      ∷ neg 4030517551234863064810773800000
      ∷ neg 2920048394859568951428353800000
      ∷ neg 1768588203568901839690577500000
      ∷ neg 592300934293132070937185800000
      ∷ pos 592300934293132070937185800000
      ∷ pos 1768588203568901839690577500000
      ∷ pos 2920048394859568951428353800000
      ∷ pos 4030517551234863064810773800000
      ∷ pos 5084407148245057176957030600000
      ∷ pos 6066922930176180632319787500000
      ∷ pos 6964272604199572648638139100000
      ∷ pos 7763859488206788561929672500000
      ∷ pos 8454459427884980187975070600000
      ∷ pos 9026378619843070742176656000000
      ∷ pos 9471590666617142501359152800000
      ∷ pos 9783854459564709911005803500000
      ∷ pos 9958857011456169290032169600000
      ∷ [];
}

unfoldable pub gauss_27 : LineData
gauss_27 = record {
  weights =
      pos 97989960512943602611500550912
      ∷ pos 226862315961806231960342064470
      ∷ pos 352970537574197110225782893050
      ∷ pos 474494125206150627040967101140
      ∷ pos 589835368598335991103008337200
      ∷ pos 697488237662455929843228883570
      ∷ pos 796048677730577712630749590100
      ∷ pos 884231585437569501943228028540
      ∷ pos 960887273700285075656526465580
      ∷ pos 1025016378177457986712477115330
      ∷ pos 1075782857885331872121629844270
      ∷ pos 1112524883568451926721630960430
      ∷ pos 1134763461089651486203699480920
      ∷ pos 1142208673789569890450457369000
      ∷ pos 1134763461089651486203699480920
      ∷ pos 1112524883568451926721630960430
      ∷ pos 1075782857885331872121629844270
      ∷ pos 1025016378177457986712477115330
      ∷ pos 960887273700285075656526465580
      ∷ pos 884231585437569501943228028540
      ∷ pos 796048677730577712630749590100
      ∷ pos 697488237662455929843228883570
      ∷ pos 589835368598335991103008337200
      ∷ pos 474494125206150627040967101140
      ∷ pos 352970537574197110225782893050
      ∷ pos 226862315961806231960342064470
      ∷ pos 97989960512943602611500550912
      ∷ [];
  points =
      neg 9961792628889885669388872100000
      ∷ neg 9799234759615012228558733600000
      ∷ neg 9509005578147050068519080300000
      ∷ neg 9094823206774911043006450200000
      ∷ neg 8562079080182944903027372200000
      ∷ neg 7917716390705082271443973400000
      ∷ neg 7170134737394236992948162100000
      ∷ neg 6329079719464951409277346400000
      ∷ neg 5405515645794568949003009400000
      ∷ neg 4411482517500268805859741600000
      ∷ neg 3359939036385088997303190300000
      ∷ neg 2264593654395368588572391100000
      ∷ neg 1139725856095299669328949800000
      ∷ pos 0
      ∷ pos 1139725856095299669328949800000
      ∷ pos 2264593654395368588572391100000
      ∷ pos 3359939036385088997303190300000
      ∷ pos 4411482517500268805859741600000
      ∷ pos 5405515645794568949003009400000
      ∷ pos 6329079719464951409277346400000
      ∷ pos 7170134737394236992948162100000
      ∷ pos 7917716390705082271443973400000
      ∷ pos 8562079080182944903027372200000
      ∷ pos 9094823206774911043006450200000
      ∷ pos 9509005578147050068519080300000
      ∷ pos 9799234759615012228558733600000
      ∷ pos 9961792628889885669388872100000
      ∷ [];
}

unfoldable pub gauss_28 : LineData
gauss_28 = record {
  weights =
      pos 91242825930945177388161539230
      ∷ pos 211321125927712597515003809930
      ∷ pos 329014277823043799776308191710
      ∷ pos 442729347590042278395878776530
      ∷ pos 551073456757167454314829182270
      ∷ pos 652729239669995957933975667800
      ∷ pos 746462142345687790239318871700
      ∷ pos 831134172289012183903964982400
      ∷ pos 905717443930328409421860313400
      ∷ pos 969306579979299158504890061000
      ∷ pos 1021129675780607698142166385100
      ∷ pos 1060557659228464179104164370000
      ∷ pos 1087111922582941352535715193000
      ∷ pos 1100470130164751962823762656000
      ∷ pos 1100470130164751962823762656000
      ∷ pos 1087111922582941352535715193000
      ∷ pos 1060557659228464179104164370000
      ∷ pos 1021129675780607698142166385100
      ∷ pos 969306579979299158504890061000
      ∷ pos 905717443930328409421860313400
      ∷ pos 831134172289012183903964982400
      ∷ pos 746462142345687790239318871700
      ∷ pos 652729239669995957933975667800
      ∷ pos 551073456757167454314829182270
      ∷ pos 442729347590042278395878776530
      ∷ pos 329014277823043799776308191710
      ∷ pos 211321125927712597515003809930
      ∷ pos 91242825930945177388161539230
      ∷ [];
  points =
      neg 9964424975739544499504363900000
      ∷ neg 9813031653708727536945599500000
      ∷ neg 9542592806289381972541018400000
      ∷ neg 9156330263921320738696894200000
      ∷ neg 8658925225743950489422545700000
      ∷ neg 8056413709171791714478859600000
      ∷ neg 7356108780136317720281445100000
      ∷ neg 6566510940388649612198981800000
      ∷ neg 5697204718114017193080032800000
      ∷ neg 4758742249551182610344118500000
      ∷ neg 3762515160890787102213572100000
      ∷ neg 2720616276351780776768263600000
      ∷ neg 1645692821333807712814717800000
      ∷ neg 550792898840342704265165300000
      ∷ pos 550792898840342704265165300000
      ∷ pos 1645692821333807712814717800000
      ∷ pos 2720616276351780776768263600000
      ∷ pos 3762515160890787102213572100000
      ∷ pos 4758742249551182610344118500000
      ∷ pos 5697204718114017193080032800000
      ∷ pos 6566510940388649612198981800000
      ∷ pos 7356108780136317720281445100000
      ∷ pos 8056413709171791714478859600000
      ∷ pos 8658925225743950489422545700000
      ∷ pos 9156330263921320738696894200000
      ∷ pos 9542592806289381972541018400000
      ∷ pos 9813031653708727536945599500000
      ∷ pos 9964424975739544499504363900000
      ∷ [];
}
