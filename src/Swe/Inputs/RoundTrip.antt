-- ===== src/Swe/Inputs/RoundTrip.antt =====
-- `Inputs::Inputs(YAML::Node&)` reads back what `as_yaml_node` writes
-- (source/problem/SWE/problem_input/swe_inputs.cpp).
use text.Mathlib.Text.{◌==◌ as str_eq}
use Prim.Native.String.{String}
use dgswemv.Prelude.{
  ◌≡◌, refl, ap, ◌∙◌, Bool, true, false, if◌then◌else◌, Option, none, some, List, [], ◌++◌,
}
use dgswemv.Double.{Double}
use dgswemv.Outcome.{returned, thrown, >>=-eq-returned}
use dgswemv.Yaml.{Yaml, double_of, text_of, text_at}
use dgswemv.Yaml.Writer.{YamlWriter, IsFaithful}
use dgswemv.Swe.Inputs.{Inputs}
use dgswemv.Swe.Inputs.Read.{
  Warning, Logged, quiet, read_constant, read_projection, read_initial, read_friction, read_meteo,
  read_tide, read_wet_dry, read_limiting, read_inputs, ◌then_read◌,
}
use dgswemv.Swe.Inputs.Write.{
  write_projection, write_initial, write_friction, write_meteo, write_tide, write_wet_dry,
  write_limiting, put_part, write_constants, as_yaml_node,
}
use dgswemv.Swe.Inputs.Stable.Friction.{friction_stable}
use dgswemv.Swe.Inputs.Stable.{
  on_returned, projection_stable, initial_stable, source_stable, meteo_stable, tide_stable,
  coriolis_stable, wet_dry_stable, limiting_stable,
}

abbrev quiet_with : {A : Type 0} → A → List Warning → Logged A
quiet_with a ws = returned (a, ws)

then_read_inv :
    {A B : Type 0}
    → (x : Logged A) (next : A → Logged B) (b : B) (ws : List Warning)
    → (x then_read next) ≡ returned (b, ws)
    → (a : A) × (u : List Warning) × (v : List Warning) × (x ≡ returned (a, u))
      × (next a ≡ returned (b, v))
unfolding ◌then_read◌
then_read_inv {A} {B} (returned (a, u)) next b ws h =
    let ((b', v), e, e') = >>=-eq-returned (next a) _ h in
    (a, u, v, refl, e ∙ ap (λ x. quiet_with x v) (first_eq b' v e'))
  where
    first_eq :
        (b' : B) (v' : List Warning)
        → ◌≡◌ {A = Logged B} (returned (b', u ++ v')) (returned (b, ws))
        → b' ≡ b
    first_eq b' v' q = cc
then_read_inv (thrown e) next b ws h = cc

abbrev pub or_else : {A : Type 0} → Option A → Option A → Option A
or_else none other = other
or_else (some a) other = some a

pub or_else-none : {A : Type 0} → (o : Option A) → or_else o none ≡ o
or_else-none none = refl
or_else-none (some a) = refl

module _ {N D : Type 0} ⦃double : Double D⦄ (y : Yaml N D) (w : YamlWriter N D)
    (ok : IsFaithful y w) where
  open ok use {lookup-fresh, lookup-put, as_double-of_double, as_text-of_text, is_null-of_text}

  pub lookup-put_part :
      (node : N) (key : String) (o : Option N) (other : String)
      → y.lookup (put_part w node key o) other
        ≡ (if str_eq key other then or_else o (y.lookup node other) else y.lookup node other)
  unfolding put_part
  lookup-put_part node key none other = same (str_eq key other)
    where
      same :
          (b : Bool)
          → y.lookup node other ≡ (if b then y.lookup node other else y.lookup node other)
      same true = refl
      same false = refl
  lookup-put_part node key (some v) other = lookup-put node key v other

  read_written :
      (i : Inputs D) (unset : D)
      → read_projection y (write_projection w i.spherical_projection) ≡ quiet i.spherical_projection
      → read_initial y (write_initial w i.initial_conditions) ≡ quiet i.initial_conditions
      → read_friction y (write_friction w i.bottom_friction) ≡ quiet i.bottom_friction
      → read_meteo y unset (write_meteo w i.meteo_forcing) ≡ quiet i.meteo_forcing
      → read_tide {D = D} y (write_tide w i.tide_potential) ≡ quiet i.tide_potential
      → read_wet_dry y (write_wet_dry w i.wet_dry) ≡ quiet i.wet_dry
      → read_limiting y (write_limiting w i.slope_limit) ≡ quiet i.slope_limit
      → read_inputs y unset (as_yaml_node w i) ≡ quiet i
  unfolding read_inputs as_yaml_node write_constants read_constant ◌then_read◌
  read_written i unset sp ic bf mf tp wd sl = simp (
    lookup-put_part,
    lookup-put,
    lookup-fresh,
    or_else-none,
    text_at,
    text_of,
    double_of,
    as_double-of_double,
    as_text-of_text,
    sp,
    ic,
    bf,
    mf,
    tp,
    wd,
    sl,
    source_stable y w ok i.function_source,
    coriolis_stable y w ok i.coriolis,
  )

  -- Whatever document the constructor of `Inputs` reads without exception: if the result is written by
  -- `as_yaml_node` and read again, the same inputs come back, and no warning is printed.
  pub read_inputs-as_yaml_node :
      (unset : D) (node : N) (i : Inputs D) (ws : List Warning)
      → read_inputs y unset node ≡ returned (i, ws)
      → read_inputs y unset (as_yaml_node w i) ≡ returned (i, [])
  unfolding read_inputs
  read_inputs-as_yaml_node unset node i ws h =
      let (name, _, _, _, h1) = then_read_inv _ _ i ws h in
      let (g, _, v2, _, h2) = then_read_inv _ _ i _ h1 in
      let (rho_air, _, _, _, h3) = then_read_inv _ _ i _ h2 in
      let (rho_water, _, _, _, h4) = then_read_inv _ _ i _ h3 in
      let (sp, _, _, e_sp, h5) = then_read_inv _ _ i _ h4 in
      let (ic, _, _, e_ic, h6) = then_read_inv _ _ i _ h5 in
      let (fs, _, _, _, h7) = then_read_inv _ _ i _ h6 in
      let (bf, _, _, e_bf, h8) = then_read_inv _ _ i _ h7 in
      let (mf, _, _, e_mf, h9) = then_read_inv _ _ i _ h8 in
      let (tp, _, _, e_tp, h10) = then_read_inv _ _ i _ h9 in
      let (co, _, _, _, h11) = then_read_inv _ _ i _ h10 in
      let (wd, _, _, e_wd, h12) = then_read_inv _ _ i _ h11 in
      let (sl, _, _, e_sl, h13) = then_read_inv _ _ i _ h12 in
      on_returned (λ j. read_inputs y unset (as_yaml_node w j) ≡ quiet j) h13
        (read_written _ unset (projection_stable y w ok _ sp _ e_sp)
          (initial_stable y w ok _ ic _ e_ic) (friction_stable y w ok _ bf _ e_bf)
          (meteo_stable y w ok unset _ mf _ e_mf) (tide_stable y w ok _ tp _ e_tp)
          (wet_dry_stable y w ok _ wd _ e_wd) (limiting_stable y w ok _ sl _ e_sl))
