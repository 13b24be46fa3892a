-- ===== src/Swe/Inputs.antt =====
-- The input record of the shallow water problem (source/problem/SWE/problem_input/swe_inputs.hpp)
-- with its default values. A `double` without an initial value is `unset`.
pub mod Parts
pub mod Stable
pub mod RoundTrip
pub mod Read
pub mod Write
use Prim.Native.String.{String}
use dgswemv.Prelude.{ℕ, ◌^◌, List, []}
use dgswemv.Double.{Double}

pub data SphericalProjectionType : Type 0 where
  projection_none : SphericalProjectionType
  projection_enable : SphericalProjectionType

pub data InitialConditionsType : Type 0 where
  initial_default : InitialConditionsType
  initial_constant : InitialConditionsType
  initial_function : InitialConditionsType

pub data FunctionSourceType : Type 0 where
  source_none : FunctionSourceType
  source_enable : FunctionSourceType

pub data BottomFrictionType : Type 0 where
  friction_none : BottomFrictionType
  chezy : BottomFrictionType
  manning : BottomFrictionType

pub data MeteoForcingType : Type 0 where
  meteo_none : MeteoForcingType
  meteo_enable : MeteoForcingType

pub data TidePotentialType : Type 0 where
  tide_none : TidePotentialType
  tide_test : TidePotentialType

pub data CoriolisType : Type 0 where
  coriolis_none : CoriolisType
  coriolis_enable : CoriolisType

pub data WettingDryingType : Type 0 where
  wet_dry_none : WettingDryingType
  wet_dry_enable : WettingDryingType

pub data SlopeLimitingType : Type 0 where
  limiting_none : SlopeLimitingType
  cockburn_shu : SlopeLimitingType

pub record SphericalProjection (D : Type 0) : Type 0 where
  pub kind : SphericalProjectionType
  pub longitude_o : D
  pub latitude_o : D
  pub r : D

pub record InitialConditions (D : Type 0) : Type 0 where
  pub kind : InitialConditionsType
  pub ze_initial : D
  pub qx_initial : D
  pub qy_initial : D

pub record BottomFriction (D : Type 0) : Type 0 where
  pub kind : BottomFrictionType
  pub coefficient : D
  pub manning_data_file : String

pub record MeteoForcing (D : Type 0) : Type 0 where
  pub kind : MeteoForcingType
  pub meteo_data_type : String
  pub raw_meteo_data_file : String
  pub meteo_data_file : String
  pub frequency : D

pub record WettingDrying (D : Type 0) : Type 0 where
  pub kind : WettingDryingType
  pub h_o : D

pub record SlopeLimiting (D : Type 0) : Type 0 where
  pub kind : SlopeLimitingType
  pub slope_limiting_type : String
  pub m : D
  pub nu : D

-- `Inputs`, but for the boundary data, which `read_bcis` reads. The four structs that hold only a
-- type are that type.
pub record Inputs (D : Type 0) : Type 0 where
  pub name : String
  pub g : D
  pub rho_air : D
  pub rho_water : D
  pub spherical_projection : SphericalProjection D
  pub initial_conditions : InitialConditions D
  pub function_source : FunctionSourceType
  pub bottom_friction : BottomFriction D
  pub meteo_forcing : MeteoForcing D
  pub tide_potential : TidePotentialType
  pub coriolis : CoriolisType
  pub wet_dry : WettingDrying D
  pub slope_limit : SlopeLimiting D

module _ {D : Type 0} ⦃double : Double D⦄ where
  open double use {of_ratio}

  abbrev pub default_g : D
  default_g = of_ratio 981 100

  abbrev pub default_rho_air : D
  default_rho_air = of_ratio 12250 10000

  abbrev pub default_rho_water : D
  default_rho_water = of_ratio 1000 1

  abbrev pub default_projection : SphericalProjection D
  default_projection = record {
    kind = projection_none;
    longitude_o = of_ratio 0 1;
    latitude_o = of_ratio 0 1;
    r = of_ratio 6378200 1;
  }

  abbrev pub default_initial : InitialConditions D
  default_initial = record {
    kind = initial_default;
    ze_initial = of_ratio 0 1;
    qx_initial = of_ratio 0 1;
    qy_initial = of_ratio 0 1;
  }

  abbrev pub default_friction : BottomFriction D
  default_friction = record {
    kind = friction_none;
    coefficient = of_ratio 0 1;
    manning_data_file = "";
  }

  abbrev pub default_meteo : D → MeteoForcing D
  default_meteo unset = record {
    kind = meteo_none;
    meteo_data_type = "";
    raw_meteo_data_file = "";
    meteo_data_file = "";
    frequency = unset;
  }

  abbrev pub default_wet_dry : WettingDrying D
  default_wet_dry = record { kind = wet_dry_none; h_o = of_ratio 1 10 }

  abbrev pub default_limiting : SlopeLimiting D
  default_limiting = record {
    kind = limiting_none;
    slope_limiting_type = "";
    m = of_ratio 1 (10 ^ 8);
    nu = of_ratio 15 10;
  }
