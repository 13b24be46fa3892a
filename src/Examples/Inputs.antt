-- ===== src/Examples/Inputs.antt =====
-- A document with the inputs of the shallow water problem, on a YAML library made of trees.
use text.Mathlib.Text.{◌==◌ as str_eq}
use Prim.Native.String.{String}
use dgswemv.Prelude.{
  ◌==◌, ℕ, ◌≡◌, refl, Bool, true, false, if◌then◌else◌, Option, none, some, List, [], ◌∷◌,
}
use dgswemv.Double.{fixed_double}
use dgswemv.Outcome.{returned}
use dgswemv.Yaml.{Yaml}
use dgswemv.Yaml.Writer.{YamlWriter, IsFaithful}
use dgswemv.Swe.Inputs.{
  Inputs, source_none, tide_none, coriolis_enable, chezy, wet_dry_enable, default_g,
  default_rho_water, default_projection, default_initial, default_meteo, default_limiting,
}
use dgswemv.Swe.Inputs.Read.{
  Warning, using_default, malformatted, ◌then_read◌, read_constant, read_projection,
  read_constant_initial, read_initial, read_enable, check_friction, read_chezy, read_manning,
  read_friction, read_meteo, read_tide, read_wet_dry, read_cockburn_shu, read_limiting, read_inputs,
}
use dgswemv.Swe.Inputs.Write.{as_yaml_node}
use dgswemv.Swe.Inputs.RoundTrip.{read_inputs-as_yaml_node}
use dgswemv.Parameters.{Platform, InputParameters, polar, no_log_file, no_field, no_balancer}
use dgswemv.Parameters.FileName.{stem, has_dot, with_slash, ends_with_slash}
use dgswemv.Parameters.Read.{
  coordinate_system_of, read_mesh_input, read_log_file, read_ramp, read_stepper_input,
  read_load_balancer, read_field, read_output, read_discretization, read_parameters,
}
use dgswemv.Parameters.Write.{write_parameters}
use dgswemv.Parameters.RoundTrip.{read_parameters-write_parameters}
use dgswemv.Parameters.Problems.{wrapper, wrapper-IsRereadable}

data Tree : Type 0 where
  leafless : Tree
  entry : Tree → String → Tree → Tree
  scalar : ℕ → Tree
  truth : Bool → Tree
  words : String → Tree

abbrev find : Tree → String → Option Tree
find (entry rest key v) other = if str_eq key other then some v else find rest other
find leafless other = none
find (scalar d) other = none
find (truth b) other = none
find (words t) other = none

abbrev scalar_of : Tree → Option ℕ
scalar_of (scalar d) = some d
scalar_of leafless = none
scalar_of (entry rest key v) = none
scalar_of (words t) = none
scalar_of (truth b) = none

abbrev words_of : Tree → Option String
words_of (words t) = some t
words_of leafless = none
words_of (entry rest key v) = none
words_of (scalar d) = none
words_of (truth b) = none

abbrev truth_of : Tree → Option Bool
truth_of (truth b) = some b
truth_of leafless = none
truth_of (entry rest key v) = none
truth_of (scalar d) = none
truth_of (words t) = none

abbrev is_leafless : Tree → Bool
is_leafless leafless = true
is_leafless (entry rest key v) = false
is_leafless (scalar d) = false
is_leafless (words t) = false
is_leafless (truth b) = false

abbrev trees : Yaml Tree ℕ
trees = record {
  lookup = find;
  as_double = scalar_of;
  as_uint = scalar_of;
  as_bool = truth_of;
  as_text = words_of;
  is_null = is_leafless;
  is_sequence = λ t. false;
  items = λ t. [];
}

abbrev tree_writer : YamlWriter Tree ℕ
tree_writer = record {
  fresh = leafless;
  put = entry;
  of_double = scalar;
  of_uint = scalar;
  of_bool = truth;
  of_text = words;
}

tree_writer-IsFaithful : IsFaithful trees tree_writer
tree_writer-IsFaithful = record {
  lookup-fresh = λ key. refl;
  lookup-put = λ node key v other. refl;
  as_double-of_double = λ d. refl;
  as_uint-of_uint = λ n. refl;
  as_bool-of_bool = λ b. refl;
  as_text-of_text = λ t. refl;
  is_null-of_text = λ t. refl;
}

abbrev document : Tree
document =
    entry
      (entry
        (entry
          (entry (entry (entry leafless "name" (words "rkdg_swe")) "density_air" (scalar 7))
            "bottom_friction"
            (entry (entry leafless "type" (words "Chezy")) "coefficient" (scalar 5)))
          "meteo_forcing" (entry leafless "type" (words "Test")))
        "coriolis" (words "Enable"))
      "wetting_drying" (entry leafless "h_o" (scalar 9))

abbrev inputs : Inputs ℕ
inputs = record {
  name = "rkdg_swe";
  g = default_g;
  rho_air = 7;
  rho_water = default_rho_water;
  spherical_projection = default_projection;
  initial_conditions = default_initial;
  function_source = source_none;
  bottom_friction = record { kind = chezy; coefficient = 5; manning_data_file = "" };
  meteo_forcing = default_meteo 0;
  tide_potential = tide_none;
  coriolis = coriolis_enable;
  wet_dry = record { kind = wet_dry_enable; h_o = 9 };
  slope_limit = default_limiting;
}

abbrev warnings : List Warning
warnings = using_default "g" ∷ using_default "water density" ∷ malformatted "meteo forcing" ∷ []

read_document : read_inputs trees 0 document ≡ returned (inputs, warnings)
unfolding read_inputs ◌then_read◌ read_constant read_projection read_constant_initial read_initial
    read_enable check_friction read_chezy read_manning read_friction read_meteo read_tide
    read_wet_dry read_cockburn_shu read_limiting
read_document = refl

read_inputs-as_yaml_node_example :
    read_inputs trees 0 (as_yaml_node tree_writer inputs) ≡ returned (inputs, [])
read_inputs-as_yaml_node_example =
    read_inputs-as_yaml_node trees tree_writer tree_writer-IsFaithful 0 document inputs warnings
      read_document

abbrev platform : Platform ℕ ℕ
platform = record {
  parse_time = λ text. if str_eq text "01-01-2000 00:00:00" then 1 else 2;
  print_time = λ t. if t == 1 then "01-01-2000 00:00:00" else "02-01-2000 00:00:00";
  seconds = λ end start. 7;
  ceil_uint = λ d. 2;
  max_double = 9;
  unset = 0;
}

abbrev mesh_node : Tree
mesh_node =
    entry (entry (entry leafless "format" (words "Meta")) "file_name" (words "meshes/quad.14"))
      "coordinate_system" (words "polar")

abbrev time_node : Tree
time_node =
    entry
      (entry
        (entry
          (entry (entry leafless "start_time" (words "01-01-2000 00:00:00")) "end_time"
            (words "02-01-2000 00:00:00"))
          "dt" (scalar 6))
        "order" (scalar 2))
      "nstages" (scalar 2)

abbrev run : Tree
run =
    entry
      (entry
        (entry (entry (entry leafless "polynomial_order" (scalar 1)) "mesh" mesh_node)
          "timestepping" time_node)
        "problem" document)
      "output"
      (entry (entry leafless "path" (words "out")) "vtk" (entry leafless "frequency" (scalar 12)))

abbrev parameters : InputParameters Tree ℕ ℕ
parameters = record {
  polynomial_order = 1;
  mesh_input = record {
    mesh_format = "Meta";
    mesh_file_name = "meshes/quad.14";
    bc_is_file_name = "meshes/quad.bcis";
    db_file_name = "meshes/quad.dbmd";
    mesh_coordinate_sys = polar;
  };
  stepper_input = record {
    t_start = 1;
    t_end = 2;
    run_time = 7;
    dt = 6;
    nstages = 2;
    order = 2;
    ramp_duration = 0;
  };
  problem_input = document;
  writer_input = record {
    writing_output = true;
    output_path = "out/";
    log_file = no_log_file;
    vtk = record { writing = true; frequency = 12; freq_step = 2 };
    vtu = no_field platform;
    modal = no_field platform;
  };
  load_balancer_input = no_balancer platform;
}

read_run : read_parameters trees platform wrapper run ≡ returned (parameters, [])
unfolding read_parameters read_discretization read_mesh_input coordinate_system_of
    read_stepper_input read_ramp read_load_balancer read_output read_field read_log_file stem
    has_dot with_slash ends_with_slash wrapper
read_run = refl

read_parameters-write_parameters_example :
    read_parameters trees platform wrapper
      (write_parameters tree_writer platform wrapper parameters)
    ≡ returned (parameters, [])
read_parameters-write_parameters_example =
    read_parameters-write_parameters trees tree_writer tree_writer-IsFaithful platform wrapper
      wrapper-IsRereadable run parameters [] read_run refl refl
