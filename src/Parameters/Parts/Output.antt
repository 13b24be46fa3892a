-- ===== src/Parameters/Parts/Output.antt =====
-- The output of a run is read again from what is written of it
-- (source/preprocessor/input_parameters.hpp).
use Prim.Native.String.{String}
use dgswemv.Prelude.{◌≡◌, refl, inl, inr, true, Option, none, some, Bool-cases}
use dgswemv.Double.{Double}
use dgswemv.Outcome.{Error, returned, thrown, >>=-eq-returned}
use dgswemv.Yaml.{Yaml, has, double_at, text_at, double_of, text_of}
use dgswemv.Yaml.Writer.{YamlWriter, IsFaithful}
use dgswemv.Swe.Inputs.RoundTrip.{lookup-put_part, or_else-none}
use dgswemv.Parameters.{Platform, LogFile, FieldOutput, WriterInput}
use dgswemv.Parameters.FileName.{with_slash, with_slash_idem}
use dgswemv.Parameters.Read.{read_log_file, read_field, read_output}
use dgswemv.Parameters.Write.{write_log_file, write_field, write_output}
use dgswemv.Parameters.Parts.{on_value, log_stable}

module _ {N D T : Type 0} ⦃double : Double D⦄ (y : Yaml N D) (w : YamlWriter N D)
    (ok : IsFaithful y w) (platform : Platform T D) where
  open ok use {lookup-fresh, lookup-put, as_double-of_double, as_text-of_text}
  open double use {quotient}
  open platform use {ceil_uint}

  field_again :
      (dt f : D) (part : String)
      → let o : FieldOutput D = record {
        writing = true;
        frequency = f;
        freq_step = ceil_uint (quotient f dt);
      } in
        read_field y platform dt part (write_field w o) ≡ returned o
  unfolding read_field write_field
  field_again dt f part = simp (has, double_at, double_of, lookup-put, as_double-of_double)

  pub field_stable :
      (dt : D) (part : String) (o : Option N) (f : FieldOutput D)
      → read_field y platform dt part o ≡ returned f
      → read_field y platform dt part (write_field w f) ≡ returned f
  unfolding read_field write_field
  field_stable dt part none f h =
      on_value (λ q. read_field y platform dt part (write_field w q) ≡ returned q) h refl
  field_stable dt part (some node) f h = elim (Bool-cases (has y node "frequency")) [
    | inr e ↦ absurd (impossible (rw (e, read_field) at h))
    | inl e ↦
        let (d, _, h1) =
          >>=-eq-returned (double_at y node "frequency") _ (rw (e, read_field) at h) in
        on_value (λ q. read_field y platform dt part (write_field w q) ≡ returned q) h1
          (field_again dt d part)
  ]
    where
      impossible : {e : Error} → thrown e ≡ returned f → ⊥
      impossible h = cc

  output_again :
      (dt : D) (path : String) (l : LogFile) (vtk vtu modal : FieldOutput D)
      → let o : WriterInput D = record {
        writing_output = true;
        output_path = with_slash path;
        log_file = l;
        vtk = vtk;
        vtu = vtu;
        modal = modal;
      } in
        read_log_file y (write_log_file w l) ≡ returned l
        → read_field y platform dt "vtk" (write_field w vtk) ≡ returned vtk
        → read_field y platform dt "vtu" (write_field w vtu) ≡ returned vtu
        → read_field y platform dt "modal" (write_field w modal) ≡ returned modal
        → read_output y platform dt (write_output w o) ≡ returned o
  unfolding read_output write_output
  output_again dt path l vtk vtu modal a b c d = simp (
    has, text_at, text_of, lookup-put_part, lookup-put, lookup-fresh, or_else-none, as_text-of_text,
    with_slash_idem, a, b, c, d,
  )

  pub output_stable :
      (dt : D) (n : Option N) (o : WriterInput D)
      → read_output y platform dt n ≡ returned o
      → read_output y platform dt (write_output w o) ≡ returned o
  unfolding read_output write_output
  output_stable dt none o h =
      on_value (λ q. read_output y platform dt (write_output w q) ≡ returned q) h refl
  output_stable dt (some node) o h = elim (Bool-cases (has y node "path")) [
    | inr e ↦ absurd (impossible (rw (e, read_output) at h))
    | inl e ↦
        let (path, _, h1) = >>=-eq-returned (text_at y node "path") _ (rw (e, read_output) at h) in
        let (l, a, h2) = >>=-eq-returned (read_log_file y (y.lookup node "logfile")) _ h1 in
        let (vtk, b, h3) =
          >>=-eq-returned (read_field y platform dt "vtk" (y.lookup node "vtk")) _ h2 in
        let (vtu, c, h4) =
          >>=-eq-returned (read_field y platform dt "vtu" (y.lookup node "vtu")) _ h3 in
        let (modal, d, h5) =
          >>=-eq-returned (read_field y platform dt "modal" (y.lookup node "modal")) _ h4 in
        on_value (λ q. read_output y platform dt (write_output w q) ≡ returned q) h5
          (output_again dt path l vtk vtu modal (log_stable y w ok _ l a)
            (field_stable dt "vtk" _ vtk b) (field_stable dt "vtu" _ vtu c)
            (field_stable dt "modal" _ modal d))
  ]
    where
      impossible : {e : Error} → thrown e ≡ returned o → ⊥
      impossible h = cc
