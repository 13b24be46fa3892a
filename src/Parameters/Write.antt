-- ===== src/Parameters/Write.antt =====
-- `InputParameters::write_to` (source/preprocessor/input_parameters.hpp), up to the printing of the
-- document.
use Prim.Native.String.{String}
use dgswemv.Prelude.{if◌then◌else◌, Option, none, some}
use dgswemv.Yaml.Writer.{YamlWriter}
use dgswemv.Swe.Inputs.Write.{put_part}
use dgswemv.Parameters.{
  Platform, Problem, CoordinateSystem, cartesian, polar, spherical, MeshInput, StepperInput,
  LogFile, FieldOutput, WriterInput, LoadBalancerInput, InputParameters,
}

unfoldable pub coordinate_system_name : CoordinateSystem → String
coordinate_system_name cartesian = "cartesian"
coordinate_system_name polar = "polar"
coordinate_system_name spherical = "spherical"

module _ {N D : Type 0} (w : YamlWriter N D) where
  open w use {fresh, put, of_double, of_uint, of_bool, of_text}

  unfoldable pub write_mesh_input : MeshInput → N
  write_mesh_input m =
      put (put (put fresh "format" (of_text m.mesh_format)) "file_name" (of_text m.mesh_file_name))
        "coordinate_system" (of_text (coordinate_system_name m.mesh_coordinate_sys))

  unfoldable pub write_log_file : LogFile → Option N
  write_log_file l =
      if l.writing
      then some (put (put fresh "name" (of_text l.name)) "verbose" (of_bool l.verbose))
      else none

  unfoldable pub write_field : FieldOutput D → Option N
  write_field f = if f.writing then some (put fresh "frequency" (of_double f.frequency)) else none

  unfoldable pub write_output : WriterInput D → Option N
  write_output o =
      if o.writing_output
      then some (
          put_part w
            (put_part w
              (put_part w
                (put_part w (put fresh "path" (of_text o.output_path)) "logfile"
                  (write_log_file o.log_file))
                "vtk" (write_field o.vtk))
              "vtu" (write_field o.vtu))
            "modal" (write_field o.modal))
      else none

  unfoldable pub write_load_balancer : LoadBalancerInput D → Option N
  write_load_balancer b =
      if b.use_load_balancer
      then some (
          put (put fresh "name" (of_text b.name)) "rebalance_frequency"
            (of_double b.rebalance_frequency))
      else none

  module _ {T : Type 0} (platform : Platform T D) where
    open platform use {print_time}

    unfoldable pub write_stepper_input : StepperInput T D → N
    write_stepper_input s =
        put
          (put
            (put
              (put
                (put (put fresh "start_time" (of_text (print_time s.t_start))) "end_time"
                  (of_text (print_time s.t_end)))
                "dt" (of_double s.dt))
              "order" (of_uint s.order))
            "nstages" (of_uint s.nstages))
          "ramp_duration" (of_double s.ramp_duration)

    unfoldable pub write_parameters : {P : Type 0} → Problem N P → InputParameters P T D → N
    write_parameters problem i =
        put_part w
          (put_part w
            (put
              (put
                (put (put fresh "polynomial_order" (of_uint i.polynomial_order)) "mesh"
                  (write_mesh_input i.mesh_input))
                "timestepping" (write_stepper_input i.stepper_input))
              "problem" (problem.as_node i.problem_input))
            "output" (write_output i.writer_input))
          "load_balancer" (write_load_balancer i.load_balancer_input)
