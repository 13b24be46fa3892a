-- ===== src/Stepper/Schemes/Order4.antt =====
-- The fourth order schemes of ESSPRKStepper::InitializeCoefficients
-- (source/simulation/stepper/explicit_ssp_rk_stepper.cpp).
use dgswemv.Prelude.{◌^◌, [], ◌∷◌}
use dgswemv.Stepper.Schemes.Table.{entry, Scheme}

unfoldable pub ssp_5_4 : Scheme
ssp_5_4 = record {
  ark =
      entry 0 0 1 1
      ∷ entry 1 0 44437049406734 (10 ^ 14)
      ∷ entry 1 1 55562950593266 (10 ^ 14)
      ∷ entry 2 0 62010185138540 (10 ^ 14)
      ∷ entry 2 2 37989814861460 (10 ^ 14)
      ∷ entry 3 0 17807995410773 (10 ^ 14)
      ∷ entry 3 3 82192004589227 (10 ^ 14)
      ∷ entry 4 0 683325884039 (10 ^ 14)
      ∷ entry 4 2 51723167208978 (10 ^ 14)
      ∷ entry 4 3 12759831133288 (10 ^ 14)
      ∷ entry 4 4 34833675773694 (10 ^ 14)
      ∷ [];
  brk =
      entry 0 0 39175222700392 (10 ^ 14)
      ∷ entry 1 1 36841059262959 (10 ^ 14)
      ∷ entry 2 2 25189177424738 (10 ^ 14)
      ∷ entry 3 3 54497475021237 (10 ^ 14)
      ∷ entry 4 3 8460416338212 (10 ^ 14)
      ∷ entry 4 4 22600748319395 (10 ^ 14)
      ∷ [];
}

unfoldable pub ssp_6_4 : Scheme
ssp_6_4 = record {
  ark =
      entry 0 0 1 1
      ∷ entry 1 0 30948026455053 (10 ^ 14)
      ∷ entry 1 1 69051973544947 (10 ^ 14)
      ∷ entry 2 0 54205244285557 (10 ^ 14)
      ∷ entry 2 2 45794755714443 (10 ^ 14)
      ∷ entry 3 0 35984960863377 (10 ^ 14)
      ∷ entry 3 3 64015039136623 (10 ^ 14)
      ∷ entry 4 4 1 1
      ∷ entry 5 0 5776282890116 (10 ^ 14)
      ∷ entry 5 2 44216432622405 (10 ^ 14)
      ∷ entry 5 4 10115567086469 (10 ^ 14)
      ∷ entry 5 5 39891717401009 (10 ^ 14)
      ∷ [];
  brk =
      entry 0 0 39270746575722 (10 ^ 14)
      ∷ entry 1 1 30154043149172 (10 ^ 14)
      ∷ entry 2 2 19997937335132 (10 ^ 14)
      ∷ entry 3 3 27954483459696 (10 ^ 14)
      ∷ entry 4 4 43668618869443 (10 ^ 14)
      ∷ entry 5 2 9150931531680 (10 ^ 14)
      ∷ entry 5 4 4417328437472 (10 ^ 14)
      ∷ entry 5 5 14911300530736 (10 ^ 14)
      ∷ [];
}

unfoldable pub ssp_7_4 : Scheme
ssp_7_4 = record {
  ark =
      entry 0 0 1 1
      ∷ entry 1 0 20161507213829 (10 ^ 14)
      ∷ entry 1 1 79838492786171 (10 ^ 14)
      ∷ entry 2 0 19469598207921 (10 ^ 14)
      ∷ entry 2 2 80530401792079 (10 ^ 14)
      ∷ entry 3 0 58143386885601 (10 ^ 14)
      ∷ entry 3 3 41856613114399 (10 ^ 14)
      ∷ entry 4 0 1934367892154 (10 ^ 14)
      ∷ entry 4 4 98065632107846 (10 ^ 14)
      ∷ entry 5 5 1 1
      ∷ entry 6 0 6006304558847 (10 ^ 14)
      ∷ entry 6 2 30152730794242 (10 ^ 14)
      ∷ entry 6 3 10518998496676 (10 ^ 14)
      ∷ entry 6 4 1483791154585 (10 ^ 14)
      ∷ entry 6 6 51838174995650 (10 ^ 14)
      ∷ [];
  brk =
      entry 0 0 30111872706068 (10 ^ 14)
      ∷ entry 1 1 24040865318216 (10 ^ 14)
      ∷ entry 2 2 24249212077315 (10 ^ 14)
      ∷ entry 3 3 12603810060080 (10 ^ 14)
      ∷ entry 4 4 29529398308716 (10 ^ 14)
      ∷ entry 5 5 30111872706068 (10 ^ 14)
      ∷ entry 6 2 9079551914158 (10 ^ 14)
      ∷ entry 6 3 2888359354880 (10 ^ 14)
      ∷ entry 6 6 15609445267839 (10 ^ 14)
      ∷ [];
}

unfoldable pub ssp_8_4 : Scheme
ssp_8_4 = record {
  ark =
      entry 0 0 1 1
      ∷ entry 1 0 10645325745007 (10 ^ 14)
      ∷ entry 1 1 89354674254993 (10 ^ 14)
      ∷ entry 2 2 1 1
      ∷ entry 3 0 57175518477257 (10 ^ 14)
      ∷ entry 3 3 42824481522743 (10 ^ 14)
      ∷ entry 4 0 19161667219044 (10 ^ 14)
      ∷ entry 4 4 80838332780956 (10 ^ 14)
      ∷ entry 5 5 1 1
      ∷ entry 6 6 1 1
      ∷ entry 7 0 2580435327923 (10 ^ 14)
      ∷ entry 7 2 3629901341774 (10 ^ 14)
      ∷ entry 7 3 31859181340256 (10 ^ 14)
      ∷ entry 7 4 5186768980103 (10 ^ 14)
      ∷ entry 7 5 3944076217320 (10 ^ 14)
      ∷ entry 7 6 511633747411 (10 ^ 14)
      ∷ entry 7 7 52288003045213 (10 ^ 14)
      ∷ [];
  brk =
      entry 0 0 24120020561311 (10 ^ 14)
      ∷ entry 1 1 21552365802797 (10 ^ 14)
      ∷ entry 2 2 24120020561311 (10 ^ 14)
      ∷ entry 3 3 10329273748560 (10 ^ 14)
      ∷ entry 4 4 19498222488188 (10 ^ 14)
      ∷ entry 5 5 24120020561311 (10 ^ 14)
      ∷ entry 6 6 24120020561311 (10 ^ 14)
      ∷ entry 7 2 875532949991 (10 ^ 14)
      ∷ entry 7 3 6195575835101 (10 ^ 14)
      ∷ entry 7 5 951311994571 (10 ^ 14)
      ∷ entry 7 7 12611877085604 (10 ^ 14)
      ∷ [];
}
