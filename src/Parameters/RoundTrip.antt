-- ===== src/Parameters/RoundTrip.antt =====
-- The input of a run is read again from the document that `write_to` prints
-- (source/preprocessor/input_parameters.hpp).
use dgswemv.Prelude.{ℕ, ◌≡◌, ap, ◌∙◌, List, []}
use dgswemv.Double.{Double}
use dgswemv.Outcome.{Outcome, returned, >>=-eq-returned}
use dgswemv.Yaml.{Yaml, required, uint_of}
use dgswemv.Yaml.Writer.{YamlWriter, IsFaithful}
use dgswemv.Swe.Inputs.Read.{Warning, quiet}
use dgswemv.Swe.Inputs.RoundTrip.{lookup-put_part, or_else-none}
use dgswemv.Swe.Inputs.Stable.{on_returned}
use dgswemv.Parameters.{Platform, Problem, MeshInput, StepperInput, InputParameters}
use dgswemv.Parameters.Read.{
  read_mesh_input, read_stepper_input, read_load_balancer, read_output, read_discretization,
  read_parameters,
}
use dgswemv.Parameters.Write.{
  write_mesh_input, write_stepper_input, write_load_balancer, write_output, write_parameters,
}
use dgswemv.Parameters.Parts.{mesh_stable, stepper_stable, balancer_stable}
use dgswemv.Parameters.Parts.Output.{output_stable}

-- What a problem promises: its inputs are read again from the node it makes of them.
pub record IsRereadable {N P : Type 0} (problem : Problem N P) : Type 0 where
  pub again :
      (node : N) (p : P) (ws : List Warning)
      → problem.construct node ≡ returned (p, ws)
      → problem.construct (problem.as_node p) ≡ quiet p

module _ {N D T P : Type 0} ⦃double : Double D⦄ (y : Yaml N D) (w : YamlWriter N D)
    (ok : IsFaithful y w) (platform : Platform T D) (problem : Problem N P)
    (rereadable : IsRereadable problem) where
  open ok use {lookup-fresh, lookup-put, as_uint-of_uint}
  open platform use {parse_time, print_time}

  read_written :
      (i : InputParameters P T D)
      → read_mesh_input y (write_mesh_input w i.mesh_input) ≡ returned i.mesh_input
      → read_stepper_input y platform (write_stepper_input w platform i.stepper_input)
        ≡ returned i.stepper_input
      → problem.construct (problem.as_node i.problem_input) ≡ quiet i.problem_input
      → read_load_balancer y platform (write_load_balancer w i.load_balancer_input)
        ≡ returned i.load_balancer_input
      → read_output y platform i.stepper_input.dt (write_output w i.writer_input)
        ≡ returned i.writer_input
      → read_parameters y platform problem (write_parameters w platform problem i) ≡ quiet i
  unfolding read_parameters read_discretization write_parameters
  read_written i a b c d e = simp (
    required, uint_of, lookup-put_part, lookup-put, lookup-fresh, or_else-none, as_uint-of_uint, a,
    b, c, d, e,
  )

  discretization_stable :
      (node : N) (order : ℕ) (mesh : MeshInput) (stepper : StepperInput T D)
      → read_discretization y platform node ≡ returned (order, mesh, stepper)
      → (read_mesh_input y (write_mesh_input w mesh) ≡ returned mesh)
        × (m : N) × (read_stepper_input y platform m ≡ returned stepper)
  unfolding read_discretization
  discretization_stable node order mesh stepper h =
      let (p, _, h1) = >>=-eq-returned (required y node "polynomial_order") _ h in
      let (n, _, h2) = >>=-eq-returned (uint_of y p) _ h1 in
      let (m, _, h3) = >>=-eq-returned (required y node "mesh") _ h2 in
      let (mesh', e, h4) = >>=-eq-returned (read_mesh_input y m) _ h3 in
      let (t, _, h5) = >>=-eq-returned (required y node "timestepping") _ h4 in
      let (stepper', e', h6) = >>=-eq-returned (read_stepper_input y platform t) _ h5 in
      let same = parts n order mesh' mesh stepper' stepper h6 in
      (mesh_stable y w ok m mesh (e ∙ ap returned same.0), t, e' ∙ ap returned same.1)
    where
      parts :
          (n n' : ℕ) (m m' : MeshInput) (s s' : StepperInput T D)
          → ◌≡◌ {A = Outcome (ℕ × MeshInput × StepperInput T D)}
              (returned (n, m, s))
              (returned (n', m', s'))
          → (m ≡ m') × (s ≡ s')
      parts n n' m m' s s' q = (cc, cc)

  -- Whatever document the constructor reads without exception: if the two times it parsed are
  -- parsed again as they are printed, the document that `write_to` prints of the result gives the same
  -- parameters again, with no warning. The problem is any whose inputs are read again from its node.
  pub read_parameters-write_parameters :
      (node : N) (i : InputParameters P T D) (ws : List Warning)
      → read_parameters y platform problem node ≡ returned (i, ws)
      → parse_time (print_time i.stepper_input.t_start) ≡ i.stepper_input.t_start
      → parse_time (print_time i.stepper_input.t_end) ≡ i.stepper_input.t_end
      → read_parameters y platform problem (write_parameters w platform problem i)
        ≡ returned (i, [])
  unfolding read_parameters
  read_parameters-write_parameters node i ws h =
      let ((order, mesh, stepper), e, h1) =
        >>=-eq-returned (read_discretization y platform node) _ h in
      let (e_mesh, t, e_step) = discretization_stable node order mesh stepper e in
      let (n, _, h2) = >>=-eq-returned (required y node "problem") _ h1 in
      let ((input, vs), e_prob, h3) = >>=-eq-returned (problem.construct n) _ h2 in
      let (balancer, e_bal, h4) =
        >>=-eq-returned (read_load_balancer y platform (y.lookup node "load_balancer")) _ h3 in
      let (writer, e_out, h5) =
        >>=-eq-returned (read_output y platform stepper.dt (y.lookup node "output")) _ h4 in
      on_returned
        (λ j.
          parse_time (print_time j.stepper_input.t_start) ≡ j.stepper_input.t_start
          → parse_time (print_time j.stepper_input.t_end) ≡ j.stepper_input.t_end
          → read_parameters y platform problem (write_parameters w platform problem j) ≡ quiet j)
        h5
        (λ start end.
          read_written _ e_mesh (stepper_stable y w ok platform t stepper e_step start end)
            (rereadable.again n input vs e_prob) (balancer_stable y w ok platform _ balancer e_bal)
            (output_stable y w ok platform stepper.dt _ writer e_out))
