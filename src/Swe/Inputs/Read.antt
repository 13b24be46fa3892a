-- ===== src/Swe/Inputs/Read.antt =====
-- `Inputs::Inputs(YAML::Node&)` (source/problem/SWE/problem_input/swe_inputs.cpp). What is printed to
-- `std::cerr` is a list of warnings.
use text.Mathlib.Text.{◌==◌ as str_eq}
use Prim.Native.String.{String}
use dgswemv.Prelude.{◌&&◌, if◌then◌else◌, Option, none, some, List, [], ◌∷◌, ◌++◌}
use dgswemv.Double.{Double}
use dgswemv.Outcome.{Outcome, returned, thrown, malformed, ◌>>=◌}
use dgswemv.Yaml.{Yaml, has, double_at, double_of, text_of, text_at}
use dgswemv.Swe.Inputs.{
  projection_enable, initial_constant, initial_function, source_none, source_enable, chezy, manning,
  meteo_enable, TidePotentialType, tide_none, tide_test, coriolis_none, coriolis_enable,
  wet_dry_enable, cockburn_shu, SphericalProjection, InitialConditions, BottomFriction,
  MeteoForcing, WettingDrying, SlopeLimiting, Inputs, default_g, default_rho_air, default_rho_water,
  default_projection, default_initial, default_friction, default_meteo, default_wet_dry,
  default_limiting,
}

pub data Warning : Type 0 where
  using_default : String → Warning
  malformatted : String → Warning

-- What a part of the reader returns, with the warnings it prints.
abbrev pub Logged : Type 0 → Type 0
Logged A = Outcome (A × List Warning)

abbrev pub quiet : {A : Type 0} → A → Logged A
quiet a = returned (a, [])

abbrev pub warn : {A : Type 0} → A → String → Logged A
warn a part = returned (a, malformatted part ∷ [])

-- A part of the reader, then the rest of it.
infixl 4 ◌then_read◌
unfoldable pub ◌then_read◌ : {A B : Type 0} → Logged A → (A → Logged B) → Logged B
returned (a, ws) then_read next = next a >>= λ (b, vs). returned (b, ws ++ vs)
thrown e then_read next = thrown e

module _ {N D : Type 0} ⦃double : Double D⦄ (y : Yaml N D) where
  open double use {of_ratio, less}
  open y use {lookup, is_null}

  unfoldable pub read_constant : Option N → String → D → Logged D
  read_constant none part default = returned (default, using_default part ∷ [])
  read_constant (some node) part default = double_of y node >>= λ d. quiet d

  unfoldable pub read_projection : Option N → Logged (SphericalProjection D)
  read_projection none = quiet default_projection
  read_projection (some node) =
      if has y node "longitude_o" && (has y node "latitude_o" && has y node "R")
      then (double_at y node "longitude_o" >>= λ lon. double_at y node "latitude_o" >>= λ lat.
          double_at y node "R" >>= λ r.
          quiet (record { kind = projection_enable; longitude_o = lon; latitude_o = lat; r = r }))
      else warn default_projection "spherical projection inputs"

  unfoldable pub read_constant_initial : N → Logged (InitialConditions D)
  read_constant_initial node =
      if has y node "initial_surface_height"
        && (has y node "initial_momentum_x" && has y node "initial_momentum_y")
      then (double_at y node "initial_surface_height" >>= λ ze.
          double_at y node "initial_momentum_x" >>= λ qx.
          double_at y node "initial_momentum_y" >>= λ qy.
          quiet
            (record { kind = initial_constant; ze_initial = ze; qx_initial = qx; qy_initial = qy }))
      else warn default_initial "initial conditions"

  unfoldable pub read_initial : Option N → Logged (InitialConditions D)
  read_initial none = quiet default_initial
  read_initial (some node) = elim (lookup node "type") [
    | none ↦ warn default_initial "initial conditions"
    | some kind ↦ text_of y kind >>= λ name.
        if str_eq name "Constant"
        then read_constant_initial node
        else if str_eq name "Function"
        then quiet (record default_initial { kind = initial_function })
        else warn default_initial "initial conditions"
  ]

  -- The function source and the Coriolis forcing: a scalar node that is "Enable".
  unfoldable pub read_enable : {A : Type 0} → A → A → String → Option N → Logged A
  read_enable off on part none = quiet off
  read_enable off on part (some node) =
      if is_null node
      then warn off part
      else (text_of y node >>= λ name. if str_eq name "Enable" then quiet on else warn off part)

  -- `if (coefficient < 0.) throw`
  unfoldable pub check_friction : BottomFriction D → Logged (BottomFriction D)
  check_friction friction =
      if less friction.coefficient (of_ratio 0 1)
      then thrown (malformed "Chezy friction coefficient")
      else quiet friction

  unfoldable pub read_chezy : N → Logged (BottomFriction D)
  read_chezy node =
      if has y node "coefficient"
      then (double_at y node "coefficient" >>= λ c.
          check_friction (record { kind = chezy; coefficient = c; manning_data_file = "" }))
      else warn default_friction "bottom friction"

  unfoldable pub read_manning : N → Logged (BottomFriction D)
  read_manning node =
      if has y node "coefficient" && has y node "input_file"
      then (double_at y node "coefficient" >>= λ c. text_at y node "input_file" >>= λ file.
          check_friction (record { kind = manning; coefficient = c; manning_data_file = file }))
      else warn default_friction "bottom friction"

  unfoldable pub read_friction : Option N → Logged (BottomFriction D)
  read_friction none = quiet default_friction
  read_friction (some node) = elim (lookup node "type") [
    | none ↦ warn default_friction "bottom friction"
    | some kind ↦ text_of y kind >>= λ name.
        if str_eq name "Chezy"
        then read_chezy node
        else if str_eq name "Manning"
        then read_manning node
        else warn default_friction "bottom friction"
  ]

  unfoldable pub read_meteo : D → Option N → Logged (MeteoForcing D)
  read_meteo unset none = quiet (default_meteo unset)
  read_meteo unset (some node) =
      if has y node "type"
        && (has y node "raw_input_file" && (has y node "input_file" && has y node "frequency"))
      then (text_at y node "type" >>= λ kind. text_at y node "raw_input_file" >>= λ raw.
          text_at y node "input_file" >>= λ file. double_at y node "frequency" >>= λ f.
          quiet (record {
            kind = meteo_enable;
            meteo_data_type = kind;
            raw_meteo_data_file = raw;
            meteo_data_file = file;
            frequency = f;
          }))
      else warn (default_meteo unset) "meteo forcing"

  unfoldable pub read_tide : Option N → Logged TidePotentialType
  read_tide none = quiet tide_none
  read_tide (some node) = elim (lookup node "type") [
    | none ↦ warn tide_none "tide potential forcing"
    | some kind ↦ text_of y kind >>= λ name.
        if str_eq name "Test" then quiet tide_test else warn tide_none "tide potential forcing"
  ]

  unfoldable pub read_wet_dry : Option N → Logged (WettingDrying D)
  read_wet_dry none = quiet default_wet_dry
  read_wet_dry (some node) =
      if has y node "h_o"
      then (double_at y node "h_o" >>= λ h. quiet (record { kind = wet_dry_enable; h_o = h }))
      else warn default_wet_dry "wet-dry"

  unfoldable pub read_cockburn_shu : N → Logged (SlopeLimiting D)
  read_cockburn_shu node =
      if has y node "M" && has y node "nu"
      then (double_at y node "M" >>= λ m. double_at y node "nu" >>= λ nu.
          quiet
            (record { kind = cockburn_shu; slope_limiting_type = "Cockburn-Shu"; m = m; nu = nu }))
      else warn default_limiting "slope limiting"

  unfoldable pub read_limiting : Option N → Logged (SlopeLimiting D)
  read_limiting none = quiet default_limiting
  read_limiting (some node) = elim (lookup node "type") [
    | none ↦ warn default_limiting "slope limiting"
    | some kind ↦ text_of y kind >>= λ name.
        if str_eq name "Cockburn-Shu"
        then read_cockburn_shu node
        else warn default_limiting "slope limiting"
  ]

  -- The constructor; `unset` is the value of the one `double` that has no initial value.
  unfoldable pub read_inputs : D → N → Logged (Inputs D)
  read_inputs unset node = (text_at y node "name" >>= λ name. quiet name) then_read λ name.
      read_constant (lookup node "gravity") "g" default_g then_read λ g.
      read_constant (lookup node "density_air") "air density" default_rho_air then_read λ rho_air.
      read_constant (lookup node "density_water") "water density" default_rho_water
      then_read λ rho_water.
          read_projection (lookup node "spherical_projection") then_read λ projection.
          read_initial (lookup node "initial_conditions") then_read λ initial.
          read_enable source_none source_enable "function source" (lookup node "function_source")
          then_read λ source. read_friction (lookup node "bottom_friction") then_read λ friction.
              read_meteo unset (lookup node "meteo_forcing") then_read λ meteo.
              read_tide (lookup node "tide_potential") then_read λ tide.
              read_enable coriolis_none coriolis_enable "coriolis forcing" (lookup node "coriolis")
              then_read λ coriolis. read_wet_dry (lookup node "wetting_drying") then_read λ wet_dry.
                  read_limiting (lookup node "slope_limiting") then_read λ limiting. quiet (record {
                    name = name;
                    g = g;
                    rho_air = rho_air;
                    rho_water = rho_water;
                    spherical_projection = projection;
                    initial_conditions = initial;
                    function_source = source;
                    bottom_friction = friction;
                    meteo_forcing = meteo;
                    tide_potential = tide;
                    coriolis = coriolis;
                    wet_dry = wet_dry;
                    slope_limit = limiting;
                  })
