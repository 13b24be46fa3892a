-- ===== src/Parameters/Parts.antt =====
-- Each part of the input of a run is read again from what is written of it
-- (source/preprocessor/input_parameters.hpp).
pub mod Output
use text.Mathlib.Text.{◌==◌ as str_eq}
use Prim.Native.String.{String, ◌++◌}
use dgswemv.Prelude.{
  ℕ, ◌≡◌, refl, subst, inl, inr, Bool, true, false, ◌&&◌, ◌||◌, Option, none, some, Bool-cases,
}
use dgswemv.Double.{Double}
use dgswemv.Outcome.{
  Error, returned, thrown, unsupported, throw_unless, >>=-eq-returned, returned_injective,
}
use dgswemv.Yaml.{
  Yaml, has, double_at, uint_at, bool_at, text_at, double_of, uint_of, bool_of, text_of,
}
use dgswemv.Yaml.Writer.{YamlWriter, IsFaithful}
use dgswemv.Swe.Inputs.RoundTrip.{lookup-put_part, or_else-none}
use dgswemv.Parameters.{
  Platform, CoordinateSystem, cartesian, polar, spherical, MeshInput, StepperInput, LogFile,
  FieldOutput, WriterInput, LoadBalancerInput,
}
use dgswemv.Parameters.FileName.{stem, with_slash, with_slash_idem}
use dgswemv.Parameters.Read.{
  coordinate_system_of, read_mesh_input, read_log_file, read_ramp, read_stepper_input,
  read_load_balancer, read_field, read_output,
}
use dgswemv.Parameters.Write.{
  coordinate_system_name, write_mesh_input, write_log_file, write_field, write_output,
  write_load_balancer, write_stepper_input,
}

-- A property of the value that is returned holds of the value it is.
pub on_value : {A : Type 0} → (P : A → Type 0) {a b : A} → returned a ≡ returned b → P a → P b
on_value P {a} {b} h p = subst P (returned_injective a b h) p

throw_unless-true : (b : Bool) (e : Error) (u : Unit {0}) → throw_unless b e ≡ returned u → b ≡ true
throw_unless-true true e u h = refl
throw_unless-true false e u h = cc

coordinates_again :
    (c : CoordinateSystem) → coordinate_system_of (coordinate_system_name c) ≡ returned c
unfolding coordinate_system_of coordinate_system_name
coordinates_again cartesian = refl
coordinates_again polar = refl
coordinates_again spherical = refl

module _ {N D : Type 0} (y : Yaml N D) (w : YamlWriter N D) (ok : IsFaithful y w) where
  open ok use {
    lookup-fresh, lookup-put, as_double-of_double, as_uint-of_uint, as_bool-of_bool,
    as_text-of_text,
  }

  mesh_again :
      (format file : String) (c : CoordinateSystem)
      → let m : MeshInput = record {
        mesh_format = format;
        mesh_file_name = file;
        bc_is_file_name = stem file ++ ".bcis";
        db_file_name = stem file ++ ".dbmd";
        mesh_coordinate_sys = c;
      } in
        (str_eq format "Adcirc" || str_eq format "Meta") ≡ true
        → read_mesh_input y (write_mesh_input w m) ≡ returned m
  unfolding read_mesh_input write_mesh_input
  mesh_again format file c h =
      simp (has, text_at, text_of, lookup-put, as_text-of_text, h, coordinates_again)

  pub mesh_stable :
      (node : N) (m : MeshInput)
      → read_mesh_input y node ≡ returned m
      → read_mesh_input y (write_mesh_input w m) ≡ returned m
  unfolding read_mesh_input
  mesh_stable node m h =
      elim (Bool-cases
        (has y node "format" && (has y node "file_name" && has y node "coordinate_system"))) [
          | inr e ↦ absurd (impossible (rw (e, read_mesh_input) at h))
          | inl e ↦
              let (format, _, h1) =
                >>=-eq-returned (text_at y node "format") _ (rw (e, read_mesh_input) at h) in
              let (u, known, h2) =
                >>=-eq-returned
                  (throw_unless (str_eq format "Adcirc" || str_eq format "Meta")
                    (unsupported "mesh format"))
                  _ h1 in
              let (file, _, h3) = >>=-eq-returned (text_at y node "file_name") _ h2 in
              let (name, _, h4) = >>=-eq-returned (text_at y node "coordinate_system") _ h3 in
              let (c, _, h5) = >>=-eq-returned (coordinate_system_of name) _ h4 in
              on_value (λ q. read_mesh_input y (write_mesh_input w q) ≡ returned q) h5
                (mesh_again format file c (throw_unless-true _ _ u known))
        ]
    where
      impossible : {e : Error} → thrown e ≡ returned m → ⊥
      impossible h = cc

  log_again :
      (verbose : Bool) (name : String)
      → let l : LogFile = record { writing = true; verbose = verbose; name = name } in
        read_log_file y (write_log_file w l) ≡ returned l
  unfolding read_log_file write_log_file
  log_again verbose name =
      simp (has, text_at, text_of, bool_at, bool_of, lookup-put, as_text-of_text, as_bool-of_bool)

  pub log_stable :
      (o : Option N) (l : LogFile)
      → read_log_file y o ≡ returned l
      → read_log_file y (write_log_file w l) ≡ returned l
  unfolding read_log_file write_log_file
  log_stable none l h = on_value (λ q. read_log_file y (write_log_file w q) ≡ returned q) h refl
  log_stable (some node) l h = elim (Bool-cases (has y node "verbose" && has y node "name")) [
    | inr e ↦ absurd (impossible (rw (e, read_log_file) at h))
    | inl e ↦
        let (verbose, _, h1) =
          >>=-eq-returned (bool_at y node "verbose") _ (rw (e, read_log_file) at h) in
        let (name, _, h2) = >>=-eq-returned (text_at y node "name") _ h1 in
        on_value (λ q. read_log_file y (write_log_file w q) ≡ returned q) h2
          (log_again verbose name)
  ]
    where
      impossible : {e : Error} → thrown e ≡ returned l → ⊥
      impossible h = cc

  module _ {T : Type 0} ⦃double : Double D⦄ (platform : Platform T D) where
    open platform use {parse_time, print_time, seconds}

    stepper_again :
        (start end : T) (dt ramp : D) (nstages order : ℕ)
        → let s : StepperInput T D = record {
          t_start = start;
          t_end = end;
          run_time = seconds end start;
          dt = dt;
          nstages = nstages;
          order = order;
          ramp_duration = ramp;
        } in
          parse_time (print_time start) ≡ start
          → parse_time (print_time end) ≡ end
          → read_stepper_input y platform (write_stepper_input w platform s) ≡ returned s
    unfolding read_stepper_input read_ramp write_stepper_input
    stepper_again start end dt ramp nstages order h h' = simp (
      has, text_at, text_of, double_at, double_of, uint_at, uint_of, lookup-put, as_text-of_text,
      as_double-of_double, as_uint-of_uint, h, h',
    )

    pub stepper_stable :
        (node : N) (s : StepperInput T D)
        → read_stepper_input y platform node ≡ returned s
        → parse_time (print_time s.t_start) ≡ s.t_start
        → parse_time (print_time s.t_end) ≡ s.t_end
        → read_stepper_input y platform (write_stepper_input w platform s) ≡ returned s
    unfolding read_stepper_input
    stepper_stable node s h =
        elim (Bool-cases (
          has y node "start_time"
          && (has y node "end_time"
              && (has y node "dt" && (has y node "order" && has y node "nstages"))))) [
                | inr e ↦ absurd (impossible (rw (e, read_stepper_input) at h))
                | inl e ↦
                    let (start, _, h1) =
                      >>=-eq-returned (text_at y node "start_time") _
                        (rw (e, read_stepper_input) at h) in
                    let (end, _, h2) = >>=-eq-returned (text_at y node "end_time") _ h1 in
                    let (dt, _, h3) = >>=-eq-returned (double_at y node "dt") _ h2 in
                    let (order, _, h4) = >>=-eq-returned (uint_at y node "order") _ h3 in
                    let (nstages, _, h5) = >>=-eq-returned (uint_at y node "nstages") _ h4 in
                    let (ramp, _, h6) = >>=-eq-returned (read_ramp y platform node) _ h5 in
                    on_value
                      (λ q.
                        parse_time (print_time q.t_start) ≡ q.t_start
                        → parse_time (print_time q.t_end) ≡ q.t_end
                        → read_stepper_input y platform (write_stepper_input w platform q)
                          ≡ returned q)
                      h6 (stepper_again (parse_time start) (parse_time end) dt ramp nstages order)
              ]
      where
        impossible : {e : Error} → thrown e ≡ returned s → ⊥
        impossible h = cc

    balancer_again :
        (name : String) (f : D)
        → let b : LoadBalancerInput D = record {
          use_load_balancer = true;
          name = name;
          rebalance_frequency = f;
        } in
          read_load_balancer y platform (write_load_balancer w b) ≡ returned b
    unfolding read_load_balancer write_load_balancer
    balancer_again name f = simp (
      has, text_at, text_of, double_at, double_of, lookup-put, as_text-of_text, as_double-of_double,
    )

    pub balancer_stable :
        (o : Option N) (b : LoadBalancerInput D)
        → read_load_balancer y platform o ≡ returned b
        → read_load_balancer y platform (write_load_balancer w b) ≡ returned b
    unfolding read_load_balancer write_load_balancer
    balancer_stable none b h =
        on_value (λ q. read_load_balancer y platform (write_load_balancer w q) ≡ returned q) h refl
    balancer_stable (some node) b h =
        elim (Bool-cases (has y node "name" && has y node "rebalance_frequency")) [
          | inr e ↦ absurd (impossible (rw (e, read_load_balancer) at h))
          | inl e ↦
              let (name, _, h1) =
                >>=-eq-returned (text_at y node "name") _ (rw (e, read_load_balancer) at h) in
              let (f, _, h2) = >>=-eq-returned (double_at y node "rebalance_frequency") _ h1 in
              on_value (λ q. read_load_balancer y platform (write_load_balancer w q) ≡ returned q)
                h2 (balancer_again name f)
        ]
      where
        impossible : {e : Error} → thrown e ≡ returned b → ⊥
        impossible h = cc
