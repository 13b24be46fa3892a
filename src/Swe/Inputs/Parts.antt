-- ===== src/Swe/Inputs/Parts.antt =====
-- Reading back each part that `as_yaml_node` writes (source/problem/SWE/problem_input/swe_inputs.cpp).
use Prim.Native.String.{String}
use dgswemv.Prelude.{◌≡◌, false, some}
use dgswemv.Double.{Double}
use dgswemv.Yaml.{has, double_at, Yaml, double_of, text_of, text_at}
use dgswemv.Yaml.Writer.{YamlWriter, IsFaithful}
use dgswemv.Swe.Inputs.{
  projection_enable, initial_constant, initial_function, chezy, manning, meteo_enable, tide_test,
  wet_dry_enable, cockburn_shu, SphericalProjection, InitialConditions, BottomFriction,
  MeteoForcing, WettingDrying, SlopeLimiting, default_initial,
}
use dgswemv.Swe.Inputs.Read.{
  quiet, read_projection, read_constant_initial, read_initial, read_enable, check_friction,
  read_chezy, read_manning, read_friction, read_meteo, read_tide, read_wet_dry, read_cockburn_shu,
  read_limiting,
}
use dgswemv.Swe.Inputs.Write.{
  write_projection, write_initial, write_friction, write_meteo, write_tide, write_wet_dry,
  write_limiting,
}

module _ {N D : Type 0} ⦃double : Double D⦄ (y : Yaml N D) (w : YamlWriter N D)
    (ok : IsFaithful y w) where
  open ok use {lookup-fresh, lookup-put, as_double-of_double, as_text-of_text, is_null-of_text}

  pub projection_again :
      (lon lat r : D)
      → let p : SphericalProjection D = record {
        kind = projection_enable;
        longitude_o = lon;
        latitude_o = lat;
        r = r;
      } in
        read_projection y (write_projection w p) ≡ quiet p
  unfolding read_projection write_projection
  projection_again lon lat r = simp (has, double_at, double_of, lookup-put, as_double-of_double)

  pub constant_again :
      (ze qx qy : D)
      → let c : InitialConditions D = record {
        kind = initial_constant;
        ze_initial = ze;
        qx_initial = qx;
        qy_initial = qy;
      } in
        read_initial y (write_initial w c) ≡ quiet c
  unfolding read_initial read_constant_initial write_initial
  constant_again ze qx qy =
      simp (has, double_at, double_of, text_of, lookup-put, as_double-of_double, as_text-of_text)

  pub function_again :
      let c : InitialConditions D = record default_initial { kind = initial_function } in
      read_initial y (write_initial w c) ≡ quiet c
  unfolding read_initial write_initial
  function_again = simp (text_of, lookup-put, as_text-of_text)

  pub enable_again :
      {A : Type 0}
      → (off on : A) (part : String)
      → read_enable {D = D} y off on part (some (w.of_text "Enable")) ≡ quiet on
  unfolding read_enable
  enable_again off on part = simp (text_of, is_null-of_text, as_text-of_text)

  pub chezy_again :
      (c : D)
      → let f : BottomFriction D = record {
        kind = chezy;
        coefficient = c;
        manning_data_file = "";
      } in
        double.less c (double.of_ratio 0 1) ≡ false → read_friction y (write_friction w f) ≡ quiet f
  unfolding read_friction read_chezy check_friction write_friction
  chezy_again c h =
      simp (has, double_at, double_of, text_of, lookup-put, as_double-of_double, as_text-of_text, h)

  pub manning_again :
      (c : D) (file : String)
      → let f : BottomFriction D = record {
        kind = manning;
        coefficient = c;
        manning_data_file = file;
      } in
        double.less c (double.of_ratio 0 1) ≡ false → read_friction y (write_friction w f) ≡ quiet f
  unfolding read_friction read_manning check_friction write_friction
  manning_again c file h = simp (
    has, double_at, double_of, text_at, text_of, lookup-put, as_double-of_double, as_text-of_text,
    h,
  )

  pub meteo_again :
      (unset : D) (kind raw file : String) (f : D)
      → let m : MeteoForcing D = record {
        kind = meteo_enable;
        meteo_data_type = kind;
        raw_meteo_data_file = raw;
        meteo_data_file = file;
        frequency = f;
      } in
        read_meteo y unset (write_meteo w m) ≡ quiet m
  unfolding read_meteo write_meteo
  meteo_again unset kind raw file f = simp (
    has, double_at, double_of, text_at, text_of, lookup-put, as_double-of_double, as_text-of_text,
  )

  pub tide_again : read_tide {D = D} y (write_tide w tide_test) ≡ quiet tide_test
  unfolding read_tide write_tide
  tide_again = simp (text_of, lookup-put, as_text-of_text)

  pub wet_dry_again :
      (h : D)
      → let d : WettingDrying D = record { kind = wet_dry_enable; h_o = h } in
        read_wet_dry y (write_wet_dry w d) ≡ quiet d
  unfolding read_wet_dry write_wet_dry
  wet_dry_again h = simp (has, double_at, double_of, lookup-put, as_double-of_double)

  pub limiting_again :
      (m nu : D)
      → let s : SlopeLimiting D = record {
        kind = cockburn_shu;
        slope_limiting_type = "Cockburn-Shu";
        m = m;
        nu = nu;
      } in
        read_limiting y (write_limiting w s) ≡ quiet s
  unfolding read_limiting read_cockburn_shu write_limiting
  limiting_again m nu =
      simp (has, double_at, double_of, text_of, lookup-put, as_double-of_double, as_text-of_text)
