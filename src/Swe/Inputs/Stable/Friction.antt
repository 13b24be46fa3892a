-- ===== src/Swe/Inputs/Stable/Friction.antt =====
-- The bottom friction is read again from what is written of it
-- (source/problem/SWE/problem_input/swe_inputs.cpp).
use text.Mathlib.Text.{◌==◌ as str_eq}
use dgswemv.Prelude.{◌≡◌, refl, false, ◌&&◌, Option, none, some, List}
use dgswemv.Double.{Double}
use dgswemv.Outcome.{Error, returned, thrown, >>=-eq-returned}
use dgswemv.Yaml.{has, double_at, Yaml, text_of, text_at}
use dgswemv.Yaml.Writer.{YamlWriter, IsFaithful}
use dgswemv.Swe.Inputs.{BottomFriction}
use dgswemv.Swe.Inputs.Read.{
  Warning, Logged, quiet, check_friction, read_chezy, read_manning, read_friction,
}
use dgswemv.Swe.Inputs.Write.{write_friction}
use dgswemv.Prelude.{Bool-cases, Option-cases, inl, inr}
use dgswemv.Swe.Inputs.Parts.{chezy_again, manning_again}
use dgswemv.Swe.Inputs.Stable.{on_returned}

module _ {N D : Type 0} ⦃double : Double D⦄ (y : Yaml N D) (w : YamlWriter N D)
    (ok : IsFaithful y w) where
  -- A coefficient that is checked is not negative.
  checked :
      (f : BottomFriction D) (c : BottomFriction D) (ws : List Warning)
      → check_friction y f ≡ returned (c, ws)
      → (double.less f.coefficient (double.of_ratio 0 1) ≡ false) × (quiet f ≡ returned (c, ws))
  unfolding check_friction
  checked f c ws h = elim (Bool-cases (double.less f.coefficient (double.of_ratio 0 1))) [
    | inl e ↦ absurd (thrown_returned (rw (e, check_friction) at h))
    | inr e ↦ (e, rw (e, check_friction) at h)
  ]
    where
      thrown_returned :
          {e : Error} → ◌≡◌ {A = Logged (BottomFriction D)} (thrown e) (returned (c, ws)) → ⊥
      thrown_returned h = cc

  chezy_stable :
      (node : N) (c : BottomFriction D) (ws : List Warning)
      → read_chezy y node ≡ returned (c, ws)
      → read_friction y (write_friction w c) ≡ quiet c
  unfolding read_chezy write_friction read_friction
  chezy_stable node c ws h =
      let P = λ (q : BottomFriction D). read_friction y (write_friction w q) ≡ quiet q in
      elim (Bool-cases (has y node "coefficient")) [
        | inr e ↦ on_returned P (rw (e, read_chezy) at h) refl
        | inl e ↦
            let (d, _, h1) =
              >>=-eq-returned (double_at y node "coefficient") _ (rw (e, read_chezy) at h) in
            let (sign, h2) = checked _ c ws h1 in on_returned P h2 (chezy_again y w ok d sign)
      ]

  manning_stable :
      (node : N) (c : BottomFriction D) (ws : List Warning)
      → read_manning y node ≡ returned (c, ws)
      → read_friction y (write_friction w c) ≡ quiet c
  unfolding read_manning write_friction read_friction
  manning_stable node c ws h =
      let P = λ (q : BottomFriction D). read_friction y (write_friction w q) ≡ quiet q in
      elim (Bool-cases (has y node "coefficient" && has y node "input_file")) [
        | inr e ↦ on_returned P (rw (e, read_manning) at h) refl
        | inl e ↦
            let (d, _, h1) =
              >>=-eq-returned (double_at y node "coefficient") _ (rw (e, read_manning) at h) in
            let (file, _, h2) = >>=-eq-returned (text_at y node "input_file") _ h1 in
            let (sign, h3) = checked _ c ws h2 in
            on_returned P h3 (manning_again y w ok d file sign)
      ]

  pub friction_stable :
      (o : Option N) (c : BottomFriction D) (ws : List Warning)
      → read_friction y o ≡ returned (c, ws)
      → read_friction y (write_friction w c) ≡ quiet c
  unfolding read_friction write_friction
  friction_stable none c ws h =
      on_returned (λ q. read_friction y (write_friction w q) ≡ quiet q) h refl
  friction_stable (some node) c ws h =
      let P = λ (q : BottomFriction D). read_friction y (write_friction w q) ≡ quiet q in
      elim (Option-cases (y.lookup node "type")) [
        | inl e ↦ on_returned P (rw (e, read_friction) at h) refl
        | inr (kind, e) ↦
            let (name, _, h1) = >>=-eq-returned (text_of y kind) _ (rw (e, read_friction) at h) in
            elim (Bool-cases (str_eq name "Chezy")) [
              | inl q ↦ chezy_stable node c ws (rw q at h1)
              | inr q ↦ elim (Bool-cases (str_eq name "Manning")) [
                | inl q' ↦ manning_stable node c ws (rw (q, q') at h1)
                | inr q' ↦ on_returned P (rw (q, q') at h1) refl
              ]
            ]
      ]
