-- ===== src/Swe/Inputs/Write.antt =====
-- `Inputs::as_yaml_node` (source/problem/SWE/problem_input/swe_inputs.cpp).
use Prim.Native.String.{String}
use dgswemv.Prelude.{Option, none, some}
use dgswemv.Yaml.Writer.{YamlWriter}
use dgswemv.Swe.Inputs.{
  projection_none, projection_enable, initial_default, initial_constant, initial_function,
  FunctionSourceType, source_none, source_enable, friction_none, chezy, manning, meteo_none,
  meteo_enable, TidePotentialType, tide_none, tide_test, CoriolisType, coriolis_none,
  coriolis_enable, wet_dry_none, wet_dry_enable, limiting_none, cockburn_shu, SphericalProjection,
  InitialConditions, BottomFriction, MeteoForcing, WettingDrying, SlopeLimiting, Inputs,
}

module _ {N D : Type 0} (w : YamlWriter N D) where
  open w use {fresh, put, of_double, of_text}

  -- The node of a part, `none` where the `switch` writes nothing.
  unfoldable pub write_projection : SphericalProjection D → Option N
  write_projection p = elim p.kind [
    | projection_none ↦ none
    | projection_enable ↦ some (
        put
          (put (put (put fresh "type" (of_text "Enable")) "longitude_o" (of_double p.longitude_o))
            "latitude_o" (of_double p.latitude_o))
          "R" (of_double p.r))
  ]

  unfoldable pub write_initial : InitialConditions D → Option N
  write_initial c = elim c.kind [
    | initial_default ↦ none
    | initial_constant ↦ some (
        put
          (put
            (put (put fresh "type" (of_text "Constant")) "initial_surface_height"
              (of_double c.ze_initial))
            "initial_momentum_x" (of_double c.qx_initial))
          "initial_momentum_y" (of_double c.qy_initial))
    | initial_function ↦ some (put fresh "type" (of_text "Function"))
  ]

  unfoldable pub write_source : FunctionSourceType → Option N
  write_source source_none = none
  write_source source_enable = some (of_text "Enable")

  unfoldable pub write_friction : BottomFriction D → Option N
  write_friction f = elim f.kind [
    | friction_none ↦ none
    | chezy ↦
        some (put (put fresh "type" (of_text "Chezy")) "coefficient" (of_double f.coefficient))
    | manning ↦ some (
        put (put (put fresh "type" (of_text "Manning")) "coefficient" (of_double f.coefficient))
          "input_file" (of_text f.manning_data_file))
  ]

  unfoldable pub write_meteo : MeteoForcing D → Option N
  write_meteo m = elim m.kind [
    | meteo_none ↦ none
    | meteo_enable ↦ some (
        put
          (put
            (put (put fresh "type" (of_text m.meteo_data_type)) "raw_input_file"
              (of_text m.raw_meteo_data_file))
            "input_file" (of_text m.meteo_data_file))
          "frequency" (of_double m.frequency))
  ]

  unfoldable pub write_tide : TidePotentialType → Option N
  write_tide tide_none = none
  write_tide tide_test = some (put fresh "type" (of_text "Test"))

  unfoldable pub write_coriolis : CoriolisType → Option N
  write_coriolis coriolis_none = none
  write_coriolis coriolis_enable = some (of_text "Enable")

  unfoldable pub write_wet_dry : WettingDrying D → Option N
  write_wet_dry d = elim d.kind [
    | wet_dry_none ↦ none
    | wet_dry_enable ↦ some (put fresh "h_o" (of_double d.h_o))
  ]

  unfoldable pub write_limiting : SlopeLimiting D → Option N
  write_limiting s = elim s.kind [
    | limiting_none ↦ none
    | cockburn_shu ↦ some (
        put (put (put fresh "type" (of_text s.slope_limiting_type)) "M" (of_double s.m)) "nu"
          (of_double s.nu))
  ]

  -- `ret[key] = part`, in the cases of the `switch` that have it.
  unfoldable pub put_part : N → String → Option N → N
  put_part node key none = node
  put_part node key (some part) = put node key part

  unfoldable pub write_constants : Inputs D → N
  write_constants i =
      put
        (put (put (put fresh "name" (of_text i.name)) "gravity" (of_double i.g)) "density_air"
          (of_double i.rho_air))
        "density_water" (of_double i.rho_water)

  unfoldable pub as_yaml_node : Inputs D → N
  as_yaml_node i =
      let n1 =
        put_part (write_constants i) "spherical_projection"
          (write_projection i.spherical_projection) in
      let n2 = put_part n1 "initial_conditions" (write_initial i.initial_conditions) in
      let n3 = put_part n2 "function_source" (write_source i.function_source) in
      let n4 = put_part n3 "bottom_friction" (write_friction i.bottom_friction) in
      let n5 = put_part n4 "meteo_forcing" (write_meteo i.meteo_forcing) in
      let n6 = put_part n5 "tide_potential" (write_tide i.tide_potential) in
      let n7 = put_part n6 "coriolis" (write_coriolis i.coriolis) in
      let n8 = put_part n7 "wetting_drying" (write_wet_dry i.wet_dry) in
      put_part n8 "slope_limiting" (write_limiting i.slope_limit)
