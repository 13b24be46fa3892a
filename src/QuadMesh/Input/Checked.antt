-- ===== src/QuadMesh/Input/Checked.antt =====
-- What a mesh generator input that was read without exception satisfies
-- (mesh_generators/quad_mesh_generator.cpp).
use Prim.Native.String.{String}
use dgswemv.Prelude.{
  ℕ, suc, ◌%◌, ◌<◌, ◌≤◌, ◌≡◌, ◌↔◌, ◌⊎◌, inl, inr, refl, ap, ◌∙◌, Bool, true, false, ◌&&◌, ◌||◌,
  ◌==◌, none, some, List, [], ◌∷◌, length, All, arith, Bool-cases,
}
use dgswemv.BoundaryTypes.{land, tide, flow, function, outflow}
use dgswemv.QuadMesh.Pattern.{Pattern, simple, zigzag, checker}
use dgswemv.Outcome.{
  returned, thrown, unsupported, >>=-eq-returned, throw_unless, malformed, returned_injective,
  Error,
}
use dgswemv.Yaml.{Yaml, required, text_at}
use dgswemv.QuadMesh.Input.{
  Forcing, Boundary, MeshGeneratorInput, pattern_of, boundary_code, read_forcing, with_forcing,
  read_boundary, read_boundaries, read_double, read_uint, read_boundary_list, read_name, read_input,
}

-- The values of the enumeration.
unfoldable pub code : Pattern → ℕ
code simple = 0
code zigzag = 1
code checker = 2

-- A pattern is read from exactly the numbers that have its value as their low byte, since the cast to
-- an enumeration over `uchar` drops the rest; and the exception is thrown for exactly the numbers
-- whose low byte is past the last value.
pub pattern_of_iff :
    (value : ℕ) (p : Pattern)
    → ((pattern_of value ≡ returned p) ↔ (value % 256 ≡ code p))
      × ((pattern_of value ≡ thrown (unsupported "pattern")) ↔ (2 < value % 256))
unfolding pattern_of code
pattern_of_iff value simple =
    ((λ h. ground arith, λ h. ground arith), (λ h. ground arith, λ h. ground arith))
pattern_of_iff value zigzag =
    ((λ h. ground arith, λ h. ground arith), (λ h. ground arith, λ h. ground arith))
pattern_of_iff value checker =
    ((λ h. ground arith, λ h. ground arith), (λ h. ground arith, λ h. ground arith))

-- The type is one of the five, and the forcing is there exactly for tide and flow.
pub record IsChecked {D : Type 0} (b : Boundary D) : Type 0 where
  pub kind_le : b.kind ≤ outflow
  pub forced : (b.kind ≡ tide) ⊎ (b.kind ≡ flow) → (f : Forcing D) × (b.forcing ≡ some f)
  pub unforced : (b.kind ≡ land) ⊎ (b.kind ≡ function) ⊎ (b.kind ≡ outflow) → b.forcing ≡ none

boundary_code-le : (name : String) {kind : ℕ} → boundary_code name ≡ returned kind → kind ≤ outflow
unfolding boundary_code
boundary_code-le name h = ground arith

throw_unless-ok : (b : Bool) (e : Error) {u : Unit {0}} → throw_unless b e ≡ returned u → b ≡ true
throw_unless-ok true e h = refl
throw_unless-ok false e h = cc

module _ {N D : Type 0} (y : Yaml N D) where
  with_forcing-IsChecked :
      (kind : ℕ) (node : N) (b : Boundary D)
      → kind ≤ outflow
      → with_forcing y kind node ≡ returned b
      → IsChecked b
  unfolding with_forcing
  with_forcing-IsChecked kind node b le h = elim (Bool-cases (kind == tide || kind == flow)) [
    | inl e ↦
        let (f, _, done) = >>=-eq-returned (read_forcing y node) _ (rw e at h) in
        rw (← returned_injective _ b done)
          (record { kind_le = le; forced = λ _. (f, refl); unforced = λ c. absurd (ground arith) })
    | inr e ↦
        rw (← returned_injective (record { kind = kind; forcing = none }) b (rw e at h))
          (record { kind_le = le; forced = λ c. absurd (ground arith); unforced = λ _. refl })
  ]

  read_boundary-IsChecked :
      (node : N) (b : Boundary D) → read_boundary y node ≡ returned b → IsChecked b
  unfolding read_boundary
  read_boundary-IsChecked node b h =
      let (name, _, h') = >>=-eq-returned (text_at y node "type") _ h in
      let (kind, e, h'') = >>=-eq-returned (boundary_code name) _ h' in
      with_forcing-IsChecked kind node b (boundary_code-le name e) h''

  read_boundaries-IsChecked :
      (nodes : List N) (bs : List (Boundary D))
      → read_boundaries y nodes ≡ returned bs
      → (length bs ≡ length nodes) × All IsChecked bs
  unfolding read_boundaries
  read_boundaries-IsChecked [] bs h = rw (← returned_injective [] bs h) (refl, tt)
  read_boundaries-IsChecked (node ∷ nodes) bs h =
      let (first, e, h') = >>=-eq-returned (read_boundary y node) _ h in
      let (rest, e', h'') = >>=-eq-returned (read_boundaries y nodes) _ h' in
      let (count, checked) = read_boundaries-IsChecked nodes rest e' in
      rw (← returned_injective (first ∷ rest) bs h'')
        (ap suc count, (read_boundary-IsChecked node first e, checked))

  length-of_test :
      (node : N)
      → (y.is_sequence node && length (y.items node) == 4) ≡ true
      → length (y.items node) ≡ 4
  length-of_test node h = ground arith

  read_boundary_list-IsChecked :
      (input : N) (bs : List (Boundary D))
      → read_boundary_list y input ≡ returned bs
      → (length bs ≡ 4) × All IsChecked bs
  unfolding read_boundary_list
  read_boundary_list-IsChecked input bs h =
      let (node, _, h') = >>=-eq-returned (required y input "boundary") _ h in
      let four = y.is_sequence node && length (y.items node) == 4 in
      let (_, passed, h'') = >>=-eq-returned (throw_unless four (malformed "boundary")) _ h' in
      let (count, checked) = read_boundaries-IsChecked (y.items node) bs h'' in
      let test = throw_unless-ok four (malformed "boundary") passed in
      (count ∙ length-of_test node test, checked)

  -- An input that is read without exception has four boundaries, each of a known type and with its
  -- forcing exactly if it is a tide or a flow boundary.
  pub read_input-IsChecked :
      (input : N) (r : MeshGeneratorInput D)
      → read_input y input ≡ returned r
      → (length r.boundary ≡ 4) × All IsChecked r.boundary
  unfolding read_input
  read_input-IsChecked input r h0 =
      let (x1, _, h1) = >>=-eq-returned (read_double y input "x1") _ h0 in
      let (y1, _, h2) = >>=-eq-returned (read_double y input "y1") _ h1 in
      let (x2, _, h3) = >>=-eq-returned (read_double y input "x2") _ h2 in
      let (y2, _, h4) = >>=-eq-returned (read_double y input "y2") _ h3 in
      let (x3, _, h5) = >>=-eq-returned (read_double y input "x3") _ h4 in
      let (y3, _, h6) = >>=-eq-returned (read_double y input "y3") _ h5 in
      let (x4, _, h7) = >>=-eq-returned (read_double y input "x4") _ h6 in
      let (y4, _, h8) = >>=-eq-returned (read_double y input "y4") _ h7 in
      let (m, _, h9) = >>=-eq-returned (read_uint y input "num_x_subdivisions") _ h8 in
      let (n, _, h10) = >>=-eq-returned (read_uint y input "num_y_subdivisions") _ h9 in
      let (code, _, h11) = >>=-eq-returned (read_uint y input "pattern") _ h10 in
      let (pat, _, h12) = >>=-eq-returned (pattern_of code) _ h11 in
      let (boundary, read, h13) = >>=-eq-returned (read_boundary_list y input) _ h12 in
      let (name, _, done) = >>=-eq-returned (read_name y input) _ h13 in
      rw (← returned_injective _ r done) (read_boundary_list-IsChecked input boundary read)
