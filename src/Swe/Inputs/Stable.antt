-- ===== src/Swe/Inputs/Stable.antt =====
-- What a part of the reader returned is read again from what is written of it
-- (source/problem/SWE/problem_input/swe_inputs.cpp).
pub mod Friction
use text.Mathlib.Text.{◌==◌ as str_eq}
use dgswemv.Prelude.{◌≡◌, refl, subst, false, ◌&&◌, Option, none, some, List}
use dgswemv.Double.{Double}
use dgswemv.Outcome.{Error, returned, thrown, >>=-eq-returned}
use dgswemv.Yaml.{has, double_at, Yaml, text_of, text_at}
use dgswemv.Yaml.Writer.{YamlWriter, IsFaithful}
use dgswemv.Swe.Inputs.{
  FunctionSourceType, source_none, source_enable, TidePotentialType, tide_none, tide_test,
  CoriolisType, coriolis_none, coriolis_enable, SphericalProjection, InitialConditions,
  BottomFriction, MeteoForcing, WettingDrying, SlopeLimiting,
}
use dgswemv.Swe.Inputs.Read.{
  Warning, Logged, quiet, read_projection, read_constant_initial, read_initial, read_enable,
  check_friction, read_chezy, read_manning, read_friction, read_meteo, read_tide, read_wet_dry,
  read_cockburn_shu, read_limiting,
}
use dgswemv.Swe.Inputs.Write.{
  write_projection, write_initial, write_source, write_friction, write_meteo, write_tide,
  write_coriolis, write_wet_dry, write_limiting,
}
use dgswemv.Prelude.{Bool-cases, Option-cases, inl, inr}
use dgswemv.Swe.Inputs.Parts.{
  projection_again, constant_again, function_again, enable_again, chezy_again, manning_again,
  meteo_again, tide_again, wet_dry_again, limiting_again,
}

-- A property of the value that is returned holds of the value it is.
pub on_returned :
    {A : Type 0}
    → (P : A → Type 0) {a b : A} {u v : List Warning}
    → ◌≡◌ {A = Logged A} (returned (a, u)) (returned (b, v))
    → P a
    → P b
on_returned P h p = subst P (value h) p
  where
    value :
        {A : Type 0}
        → {a b : A} {u v : List Warning} → ◌≡◌ {A = Logged A} (returned (a, u)) (returned (b, v))
        → a ≡ b
    value h = cc

module _ {N D : Type 0} ⦃double : Double D⦄ (y : Yaml N D) (w : YamlWriter N D)
    (ok : IsFaithful y w) where
  pub projection_stable :
      (o : Option N) (p : SphericalProjection D) (ws : List Warning)
      → read_projection y o ≡ returned (p, ws)
      → read_projection y (write_projection w p) ≡ quiet p
  unfolding read_projection write_projection
  projection_stable none p ws h =
      on_returned (λ q. read_projection y (write_projection w q) ≡ quiet q) h refl
  projection_stable (some node) p ws h =
      elim (Bool-cases (has y node "longitude_o" && (has y node "latitude_o" && has y node "R"))) [
        | inr e ↦
            on_returned (λ q. read_projection y (write_projection w q) ≡ quiet q)
              (rw (e, read_projection) at h) refl
        | inl e ↦
            let (lon, _, h1) =
              >>=-eq-returned (double_at y node "longitude_o") _ (rw (e, read_projection) at h) in
            let (lat, _, h2) = >>=-eq-returned (double_at y node "latitude_o") _ h1 in
            let (r, _, h3) = >>=-eq-returned (double_at y node "R") _ h2 in
            on_returned (λ q. read_projection y (write_projection w q) ≡ quiet q) h3
              (projection_again y w ok lon lat r)
      ]

  pub meteo_stable :
      (unset : D) (o : Option N) (m : MeteoForcing D) (ws : List Warning)
      → read_meteo y unset o ≡ returned (m, ws)
      → read_meteo y unset (write_meteo w m) ≡ quiet m
  unfolding read_meteo write_meteo
  meteo_stable unset none m ws h =
      on_returned (λ q. read_meteo y unset (write_meteo w q) ≡ quiet q) h refl
  meteo_stable unset (some node) m ws h =
      elim (Bool-cases (
        has y node "type"
        && (has y node "raw_input_file" && (has y node "input_file" && has y node "frequency")))) [
          | inr e ↦
              on_returned (λ q. read_meteo y unset (write_meteo w q) ≡ quiet q)
                (rw (e, read_meteo) at h) refl
          | inl e ↦
              let (kind, _, h1) =
                >>=-eq-returned (text_at y node "type") _ (rw (e, read_meteo) at h) in
              let (raw, _, h2) = >>=-eq-returned (text_at y node "raw_input_file") _ h1 in
              let (file, _, h3) = >>=-eq-returned (text_at y node "input_file") _ h2 in
              let (f, _, h4) = >>=-eq-returned (double_at y node "frequency") _ h3 in
              on_returned (λ q. read_meteo y unset (write_meteo w q) ≡ quiet q) h4
                (meteo_again y w ok unset kind raw file f)
        ]

  pub wet_dry_stable :
      (o : Option N) (d : WettingDrying D) (ws : List Warning)
      → read_wet_dry y o ≡ returned (d, ws)
      → read_wet_dry y (write_wet_dry w d) ≡ quiet d
  unfolding read_wet_dry write_wet_dry
  wet_dry_stable none d ws h =
      on_returned (λ q. read_wet_dry y (write_wet_dry w q) ≡ quiet q) h refl
  wet_dry_stable (some node) d ws h = elim (Bool-cases (has y node "h_o")) [
    | inr e ↦
        on_returned (λ q. read_wet_dry y (write_wet_dry w q) ≡ quiet q) (rw (e, read_wet_dry) at h)
          refl
    | inl e ↦
        let (h_o, _, h1) = >>=-eq-returned (double_at y node "h_o") _ (rw (e, read_wet_dry) at h) in
        on_returned (λ q. read_wet_dry y (write_wet_dry w q) ≡ quiet q) h1
          (wet_dry_again y w ok h_o)
  ]

  pub tide_stable :
      (o : Option N) (t : TidePotentialType) (ws : List Warning)
      → read_tide {D = D} y o ≡ returned (t, ws)
      → read_tide {D = D} y (write_tide w t) ≡ quiet t
  unfolding write_tide read_tide
  tide_stable o tide_none ws h = refl
  tide_stable o tide_test ws h = tide_again y w ok

  pub source_stable :
      (t : FunctionSourceType)
      → read_enable {D = D} y source_none source_enable "function source" (write_source w t)
        ≡ quiet t
  unfolding write_source read_enable
  source_stable source_none = refl
  source_stable source_enable = enable_again y w ok source_none source_enable "function source"

  pub coriolis_stable :
      (t : CoriolisType)
      → read_enable {D = D} y coriolis_none coriolis_enable "coriolis forcing" (write_coriolis w t)
        ≡ quiet t
  unfolding write_coriolis read_enable
  coriolis_stable coriolis_none = refl
  coriolis_stable coriolis_enable =
      enable_again y w ok coriolis_none coriolis_enable "coriolis forcing"

  pub initial_stable :
      (o : Option N) (c : InitialConditions D) (ws : List Warning)
      → read_initial y o ≡ returned (c, ws)
      → read_initial y (write_initial w c) ≡ quiet c
  unfolding read_initial read_constant_initial write_initial
  initial_stable none c ws h =
      on_returned (λ q. read_initial y (write_initial w q) ≡ quiet q) h refl
  initial_stable (some node) c ws h =
      let P = λ (q : InitialConditions D). read_initial y (write_initial w q) ≡ quiet q in
      elim (Option-cases (y.lookup node "type")) [
        | inl e ↦ on_returned P (rw (e, read_initial) at h) refl
        | inr (kind, e) ↦
            let (name, _, h1) = >>=-eq-returned (text_of y kind) _ (rw (e, read_initial) at h) in
            elim (Bool-cases (str_eq name "Constant")) [
              | inl q ↦ constant (rw q at h1)
              | inr q ↦ elim (Bool-cases (str_eq name "Function")) [
                | inl q' ↦ on_returned P (rw (q, q') at h1) (function_again y w ok)
                | inr q' ↦ on_returned P (rw (q, q') at h1) refl
              ]
            ]
      ]
    where
      constant :
          read_constant_initial y node ≡ returned (c, ws)
          → read_initial y (write_initial w c) ≡ quiet c
      constant h =
          let P = λ (q : InitialConditions D). read_initial y (write_initial w q) ≡ quiet q in
          elim (Bool-cases (
            has y node "initial_surface_height"
            && (has y node "initial_momentum_x" && has y node "initial_momentum_y"))) [
              | inr e ↦ on_returned P (rw (e, read_constant_initial) at h) refl
              | inl e ↦
                  let (ze, _, h1) =
                    >>=-eq-returned (double_at y node "initial_surface_height") _
                      (rw (e, read_constant_initial) at h) in
                  let (qx, _, h2) = >>=-eq-returned (double_at y node "initial_momentum_x") _ h1 in
                  let (qy, _, h3) = >>=-eq-returned (double_at y node "initial_momentum_y") _ h2 in
                  on_returned P h3 (constant_again y w ok ze qx qy)
            ]

  pub limiting_stable :
      (o : Option N) (c : SlopeLimiting D) (ws : List Warning)
      → read_limiting y o ≡ returned (c, ws)
      → read_limiting y (write_limiting w c) ≡ quiet c
  unfolding read_limiting read_cockburn_shu write_limiting
  limiting_stable none c ws h =
      on_returned (λ q. read_limiting y (write_limiting w q) ≡ quiet q) h refl
  limiting_stable (some node) c ws h =
      let P = λ (q : SlopeLimiting D). read_limiting y (write_limiting w q) ≡ quiet q in
      elim (Option-cases (y.lookup node "type")) [
        | inl e ↦ on_returned P (rw (e, read_limiting) at h) refl
        | inr (kind, e) ↦
            let (name, _, h1) = >>=-eq-returned (text_of y kind) _ (rw (e, read_limiting) at h) in
            elim (Bool-cases (str_eq name "Cockburn-Shu")) [
              | inr q ↦ on_returned P (rw q at h1) refl
              | inl q ↦ elim (Bool-cases (has y node "M" && has y node "nu")) [
                | inr e' ↦ on_returned P (rw (q, e', read_cockburn_shu) at h1) refl
                | inl e' ↦
                    let (m, _, h2) =
                      >>=-eq-returned (double_at y node "M") _
                        (rw (q, e', read_cockburn_shu) at h1) in
                    let (nu, _, h3) = >>=-eq-returned (double_at y node "nu") _ h2 in
                    on_returned P h3 (limiting_again y w ok m nu)
              ]
            ]
      ]
