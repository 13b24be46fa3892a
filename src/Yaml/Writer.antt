-- ===== src/Yaml/Writer.antt =====
-- What the writers call of the YAML library: `YAML::Node()`, `node[key] = value`, and the nodes made
-- of a `double` and of a string. `IsFaithful` is what the library documents of a node in memory:
-- an assigned key is found again, other keys are untouched, and `as<T>()` gives back the value.
use text.Mathlib.Text.{◌==◌ as str_eq}
use Prim.Native.String.{String}
use dgswemv.Prelude.{ℕ, ◌≡◌, Bool, false, if◌then◌else◌, none, some}
use dgswemv.Yaml.{Yaml}

pub record YamlWriter (N D : Type 0) : Type 0 where
  pub fresh : N
  pub put : N → String → N → N
  pub of_double : D → N
  pub of_uint : ℕ → N
  pub of_bool : Bool → N
  pub of_text : String → N

pub record IsFaithful {N D : Type 0} (y : Yaml N D) (w : YamlWriter N D) : Type 0 where
  pub lookup-fresh : (key : String) → y.lookup w.fresh key ≡ none
  pub lookup-put :
      (node : N) (key : String) (v : N) (other : String)
      → y.lookup (w.put node key v) other
        ≡ (if str_eq key other then some v else y.lookup node other)
  pub as_double-of_double : (d : D) → y.as_double (w.of_double d) ≡ some d
  pub as_uint-of_uint : (n : ℕ) → y.as_uint (w.of_uint n) ≡ some n
  pub as_bool-of_bool : (b : Bool) → y.as_bool (w.of_bool b) ≡ some b
  pub as_text-of_text : (t : String) → y.as_text (w.of_text t) ≡ some t
  pub is_null-of_text : (t : String) → y.is_null (w.of_text t) ≡ false
