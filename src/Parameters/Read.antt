-- ===== src/Parameters/Read.antt =====
-- `InputParameters::InputParameters(const std::string&)` (source/preprocessor/input_parameters.hpp), from
-- the loaded document on.
use text.Mathlib.Text.{◌==◌ as str_eq}
use Prim.Native.String.{String, ◌++◌}
use dgswemv.Prelude.{ℕ, true, ◌&&◌, ◌||◌, if◌then◌else◌, Option, none, some}
use dgswemv.Double.{Double}
use dgswemv.Outcome.{Outcome, returned, thrown, unsupported, malformed, ◌>>=◌, ◌>>◌, throw_unless}
use dgswemv.Yaml.{Yaml, has, double_at, uint_at, bool_at, text_at, required, uint_of}
use dgswemv.Swe.Inputs.Read.{Logged}
use dgswemv.Parameters.{
  Platform, Problem, CoordinateSystem, cartesian, polar, spherical, MeshInput, StepperInput,
  LogFile, FieldOutput, WriterInput, LoadBalancerInput, InputParameters, no_log_file, no_field,
  no_output, no_balancer,
}
use dgswemv.Parameters.FileName.{stem, with_slash}

unfoldable pub coordinate_system_of : String → Outcome CoordinateSystem
coordinate_system_of name =
    if str_eq name "cartesian"
    then returned cartesian
    else if str_eq name "polar"
    then returned polar
    else if str_eq name "spherical"
    then returned spherical
    else thrown (unsupported "coordinate system")

module _ {N D : Type 0} (y : Yaml N D) where
  unfoldable pub read_mesh_input : N → Outcome MeshInput
  read_mesh_input node =
      if has y node "format" && (has y node "file_name" && has y node "coordinate_system")
      then (text_at y node "format" >>= λ format.
          throw_unless (str_eq format "Adcirc" || str_eq format "Meta") (unsupported "mesh format")
          >> (text_at y node "file_name" >>= λ file. text_at y node "coordinate_system" >>= λ name.
              coordinate_system_of name >>= λ system. returned (record {
                mesh_format = format;
                mesh_file_name = file;
                bc_is_file_name = stem file ++ ".bcis";
                db_file_name = stem file ++ ".dbmd";
                mesh_coordinate_sys = system;
              })))
      else thrown (malformed "mesh")

  unfoldable pub read_log_file : Option N → Outcome LogFile
  read_log_file none = returned no_log_file
  read_log_file (some node) =
      if has y node "verbose" && has y node "name"
      then (bool_at y node "verbose" >>= λ verbose. text_at y node "name" >>= λ name.
          returned (record { writing = true; verbose = verbose; name = name }))
      else thrown (malformed "logfile")

  module _ {T : Type 0} ⦃double : Double D⦄ (platform : Platform T D) where
    open double use {of_ratio, quotient}
    open platform use {parse_time, seconds, ceil_uint}

    -- `time_stepping["ramp_duration"] ? … : 0`
    unfoldable pub read_ramp : N → Outcome D
    read_ramp node =
        if has y node "ramp_duration"
        then double_at y node "ramp_duration"
        else returned (of_ratio 0 1)

    unfoldable pub read_stepper_input : N → Outcome (StepperInput T D)
    read_stepper_input node =
        if has y node "start_time"
          && (has y node "end_time"
              && (has y node "dt" && (has y node "order" && has y node "nstages")))
        then (text_at y node "start_time" >>= λ start. text_at y node "end_time" >>= λ end.
            double_at y node "dt" >>= λ dt. uint_at y node "order" >>= λ order.
            uint_at y node "nstages" >>= λ nstages. read_ramp node >>= λ ramp. returned (record {
              t_start = parse_time start;
              t_end = parse_time end;
              run_time = seconds (parse_time end) (parse_time start);
              dt = dt;
              nstages = nstages;
              order = order;
              ramp_duration = ramp;
            }))
        else thrown (malformed "timestepping")

    unfoldable pub read_load_balancer : Option N → Outcome (LoadBalancerInput D)
    read_load_balancer none = returned (no_balancer platform)
    read_load_balancer (some node) =
        if has y node "name" && has y node "rebalance_frequency"
        then (text_at y node "name" >>= λ name. double_at y node "rebalance_frequency" >>= λ f.
            returned (record { use_load_balancer = true; name = name; rebalance_frequency = f }))
        else thrown (malformed "load balancer")

    -- The blocks on "vtk", "vtu" and "modal".
    unfoldable pub read_field : D → String → Option N → Outcome (FieldOutput D)
    read_field dt part none = returned (no_field platform)
    read_field dt part (some node) =
        if has y node "frequency"
        then (double_at y node "frequency" >>= λ f.
            returned
              (record { writing = true; frequency = f; freq_step = ceil_uint (quotient f dt) }))
        else thrown (malformed part)

    unfoldable pub read_output : D → Option N → Outcome (WriterInput D)
    read_output dt none = returned (no_output platform)
    read_output dt (some node) =
        if has y node "path"
        then (text_at y node "path" >>= λ path. read_log_file (y.lookup node "logfile") >>= λ log.
            read_field dt "vtk" (y.lookup node "vtk") >>= λ vtk.
            read_field dt "vtu" (y.lookup node "vtu") >>= λ vtu.
            read_field dt "modal" (y.lookup node "modal") >>= λ modal. returned (record {
              writing_output = true;
              output_path = with_slash path;
              log_file = log;
              vtk = vtk;
              vtu = vtu;
              modal = modal;
            }))
        else thrown (malformed "output")

    -- Up to the input of the stepper.
    unfoldable pub read_discretization : N → Outcome (ℕ × MeshInput × StepperInput T D)
    read_discretization node = required y node "polynomial_order" >>= λ p. uint_of y p >>= λ order.
        required y node "mesh" >>= λ m. read_mesh_input m >>= λ mesh.
        required y node "timestepping" >>= λ t.
        read_stepper_input t >>= λ stepper. returned (order, mesh, stepper)

    unfoldable pub read_parameters : {P : Type 0} → Problem N P → N → Logged (InputParameters P T D)
    read_parameters problem node = read_discretization node >>= λ (order, mesh, stepper).
        required y node "problem" >>= λ n. problem.construct n >>= λ (input, warnings).
        read_load_balancer (y.lookup node "load_balancer") >>= λ balancer.
        read_output stepper.dt (y.lookup node "output") >>= λ writer. returned (
          record {
            polynomial_order = order;
            mesh_input = mesh;
            stepper_input = stepper;
            problem_input = input;
            writer_input = writer;
            load_balancer_input = balancer;
          },
          warnings,
        )
