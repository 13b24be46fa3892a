-- ===== src/Integration/Tables/GaussTo25.antt =====
-- `GaussLegendre_1D::GPData` (source/integration/integrations_1D/integration_gausslegendre_1D.cpp),
-- in units of 10 ^ -31.
use dgswemv.Prelude.{[], ◌∷◌}
use dgswemv.Integration.Signed.{pos, neg}
use dgswemv.Integration.Data.{LineData}

unfoldable pub gauss_23 : LineData
gauss_23 = record {
  weights =
      pos 134118594871417720813094934590
      ∷ pos 309880058569794443106942196420
      ∷ pos 480376717310846685716410716320
      ∷ pos 642324214085258521271696151590
      ∷ pos 792814117767189549228925247420
      ∷ pos 929157660600351474770186173700
      ∷ pos 1048920914645414100740861850150
      ∷ pos 1149966402224113649416435129300
      ∷ pos 1230490843067295304675784006700
      ∷ pos 1289057221880821499785953394000
      ∷ pos 1324620394046966173716424647000
      ∷ pos 1336545721861061753514571105500
      ∷ pos 1324620394046966173716424647000
      ∷ pos 1289057221880821499785953394000
      ∷ pos 1230490843067295304675784006700
      ∷ pos 1149966402224113649416435129300
      ∷ pos 1048920914645414100740861850150
      ∷ pos 929157660600351474770186173700
      ∷ pos 792814117767189549228925247420
      ∷ pos 642324214085258521271696151590
      ∷ pos 480376717310846685716410716320
      ∷ pos 309880058569794443106942196420
      ∷ pos 134118594871417720813094934590
      ∷ [];
  points =
      neg 9947693349975521235239257200000
      ∷ neg 9725424712181152319560240800000
      ∷ neg 9329710868260161023491969900000
      ∷ neg 8767523582704416673781568900000
      ∷ neg 8048884016188398921511184100000
      ∷ neg 7186613631319501944616244800000
      ∷ neg 6196098757636461563850973100000
      ∷ neg 5095014778460075496897930500000
      ∷ neg 3903010380302908314214888700000
      ∷ neg 2641356809703449305338695400000
      ∷ neg 1332568242984661109317426800000
      ∷ pos 0
      ∷ pos 1332568242984661109317426800000
      ∷ pos 2641356809703449305338695400000
      ∷ pos 3903010380302908314214888700000
      ∷ pos 5095014778460075496897930500000
      ∷ pos 6196098757636461563850973100000
      ∷ pos 7186613631319501944616244800000
      ∷ pos 8048884016188398921511184100000
      ∷ pos 8767523582704416673781568900000
      ∷ pos 9329710868260161023491969900000
      ∷ pos 9725424712181152319560240800000
      ∷ pos 9947693349975521235239257200000
      ∷ [];
}

unfoldable pub gauss_24 : LineData
gauss_24 = record {
  weights =
      pos 123412297999871995468056670700
      ∷ pos 285313886289336631813078159520
      ∷ pos 442774388174198061686027482110
      ∷ pos 592985849154367807463677585000
      ∷ pos 733464814110803057340336152500
      ∷ pos 861901615319532759171852029800
      ∷ pos 976186521041138882698806644600
      ∷ pos 1074442701159656347825773424500
      ∷ pos 1155056680537256013533444839100
      ∷ pos 1216704729278033912044631534800
      ∷ pos 1258374563468282961213753825100
      ∷ pos 1279381953467521569740561652200
      ∷ pos 1279381953467521569740561652200
      ∷ pos 1258374563468282961213753825100
      ∷ pos 1216704729278033912044631534800
      ∷ pos 1155056680537256013533444839100
      ∷ pos 1074442701159656347825773424500
      ∷ pos 976186521041138882698806644600
      ∷ pos 861901615319532759171852029800
      ∷ pos 733464814110803057340336152500
      ∷ pos 592985849154367807463677585000
      ∷ pos 442774388174198061686027482110
      ∷ pos 285313886289336631813078159520
      ∷ pos 123412297999871995468056670700
      ∷ [];
  points =
      neg 9951872199970213601799974100000
      ∷ neg 9747285559713094981983919900000
      ∷ neg 9382745520027327585236490000000
      ∷ neg 8864155270044010342131543400000
      ∷ neg 8200019859739029219539498700000
      ∷ neg 7401241915785543642438281000000
      ∷ neg 6480936519369755692524957900000
      ∷ neg 5454214713888395356583756200000
      ∷ neg 4337935076260451384870842300000
      ∷ neg 3150426796961633743867932900000
      ∷ neg 1911188674736163091586398200000
      ∷ neg 640568928626056260850430800000
      ∷ pos 640568928626056260850430800000
      ∷ pos 1911188674736163091586398200000
      ∷ pos 3150426796961633743867932900000
      ∷ pos 4337935076260451384870842300000
      ∷ pos 5454214713888395356583756200000
      ∷ pos 6480936519369755692524957900000
      ∷ pos 7401241915785543642438281000000
      ∷ pos 8200019859739029219539498700000
      ∷ pos 8864155270044010342131543400000
      ∷ pos 9382745520027327585236490000000
      ∷ pos 9747285559713094981983919900000
      ∷ pos 9951872199970213601799974100000
      ∷ [];
}

unfoldable pub gauss_25 : LineData
gauss_25 = record {
  weights =
      pos 113937985010262879479029641132
      ∷ pos 263549866150321372619018152950
      ∷ pos 409391567013063126556234877120
      ∷ pos 549046959758351919259368915410
      ∷ pos 680383338123569172071871856570
      ∷ pos 801407003350010180132349596690
      ∷ pos 910282619829636498114972207030
      ∷ pos 1005359490670506442022068903930
      ∷ pos 1085196244742636531160939570500
      ∷ pos 1148582591457116483393255458700
      ∷ pos 1194557635357847722281781265100
      ∷ pos 1222424429903100416889595189500
      ∷ pos 1231760537267154512039028730800
      ∷ pos 1222424429903100416889595189500
      ∷ pos 1194557635357847722281781265100
      ∷ pos 1148582591457116483393255458700
      ∷ pos 1085196244742636531160939570500
      ∷ pos 1005359490670506442022068903930
      ∷ pos 910282619829636498114972207030
      ∷ pos 801407003350010180132349596690
      ∷ pos 680383338123569172071871856570
      ∷ pos 549046959758351919259368915410
      ∷ pos 409391567013063126556234877120
      ∷ pos 263549866150321372619018152950
      ∷ pos 113937985010262879479029641132
      ∷ [];
  points =
      neg 9955569697904980979087849500000
      ∷ neg 9766639214595175114983153900000
      ∷ neg 9429745712289743394140111700000
      ∷ neg 8949919978782753688510420100000
      ∷ neg 8334426287608340014210211100000
      ∷ neg 7592592630373576305772828700000
      ∷ neg 6735663684734683644851206300000
      ∷ neg 5776629302412229677236898400000
      ∷ neg 4730027314457149605221821200000
      ∷ neg 3611723058093878377358217300000
      ∷ neg 2438668837209884320451903600000
      ∷ neg 1228646926107103963873598200000
      ∷ pos 0
      ∷ pos 1228646926107103963873598200000
      ∷ pos 2438668837209884320451903600000
      ∷ pos 3611723058093878377358217300000
      ∷ pos 4730027314457149605221821200000
      ∷ pos 5776629302412229677236898400000
      ∷ pos 6735663684734683644851206300000
      ∷ pos 7592592630373576305772828700000
      ∷ pos 8334426287608340014210211100000
      ∷ pos 8949919978782753688510420100000
      ∷ pos 9429745712289743394140111700000
      ∷ pos 9766639214595175114983153900000
      ∷ pos 9955569697904980979087849500000
      ∷ [];
}
