-- ===== src/Parameters.antt =====
-- The input of a run (source/preprocessor/input_parameters.hpp): its structs and defaults. The mesh
-- and the boundary metadata, which are read later, are left out.
pub mod FileName
pub mod Read
pub mod Write
pub mod Parts
pub mod RoundTrip
pub mod Problems
use Prim.Native.String.{String}
use dgswemv.Prelude.{ℕ, ◌-◌, ◌^◌, Bool, true, false, List}
use dgswemv.Outcome.{Outcome}
use dgswemv.Swe.Inputs.Read.{Logged}

-- What the code takes from `<ctime>` and `<cmath>`: `strptime` on a cleared `struct tm`, as `timegm`
-- leaves it when it normalises its argument in place; `strftime`; the difference in seconds of an end
-- and a start; and `(uint)std::ceil(…)`; the greatest `double`; and the value of a `double` without
-- an initial value.
pub record Platform (T D : Type 0) : Type 0 where
  pub parse_time : String → T
  pub print_time : T → String
  pub seconds : T → T → D
  pub ceil_uint : D → ℕ
  pub max_double : D
  pub unset : D

-- `problem_specific_ctor_helper` on the node of the problem, and `as_yaml_node`.
pub record Problem (N P : Type 0) : Type 0 where
  pub construct : N → Logged P
  pub as_node : P → N

pub data CoordinateSystem : Type 0 where
  cartesian : CoordinateSystem
  polar : CoordinateSystem
  spherical : CoordinateSystem

pub record MeshInput : Type 0 where
  pub mesh_format : String
  pub mesh_file_name : String
  pub bc_is_file_name : String
  pub db_file_name : String
  pub mesh_coordinate_sys : CoordinateSystem

pub record StepperInput (T D : Type 0) : Type 0 where
  pub t_start : T
  pub t_end : T
  pub run_time : D
  pub dt : D
  pub nstages : ℕ
  pub order : ℕ
  pub ramp_duration : D

-- The three members of `WriterInput` about the log file.
pub record LogFile : Type 0 where
  pub writing : Bool
  pub verbose : Bool
  pub name : String

-- The three members about each of the VTK, VTU and modal output.
pub record FieldOutput (D : Type 0) : Type 0 where
  pub writing : Bool
  pub frequency : D
  pub freq_step : ℕ

pub record WriterInput (D : Type 0) : Type 0 where
  pub writing_output : Bool
  pub output_path : String
  pub log_file : LogFile
  pub vtk : FieldOutput D
  pub vtu : FieldOutput D
  pub modal : FieldOutput D

pub record LoadBalancerInput (D : Type 0) : Type 0 where
  pub use_load_balancer : Bool
  pub name : String
  pub rebalance_frequency : D

pub record InputParameters (P T D : Type 0) : Type 0 where
  pub polynomial_order : ℕ
  pub mesh_input : MeshInput
  pub stepper_input : StepperInput T D
  pub problem_input : P
  pub writer_input : WriterInput D
  pub load_balancer_input : LoadBalancerInput D

abbrev pub no_log_file : LogFile
no_log_file = record { writing = false; verbose = false; name = "" }

module _ {T D : Type 0} (platform : Platform T D) where
  open platform use {max_double, unset}

  abbrev pub no_field : FieldOutput D
  no_field = record { writing = false; frequency = max_double; freq_step = 2 ^ 32 - 1 }

  abbrev pub no_output : WriterInput D
  no_output = record {
    writing_output = false;
    output_path = "";
    log_file = no_log_file;
    vtk = no_field;
    vtu = no_field;
    modal = no_field;
  }

  abbrev pub no_balancer : LoadBalancerInput D
  no_balancer = record { use_load_balancer = false; name = ""; rebalance_frequency = unset }
