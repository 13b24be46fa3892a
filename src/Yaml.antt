-- ===== src/Yaml.antt =====
-- The YAML library as an interface: what the readers call of `YAML::Node`. `lookup node key` is
-- `node[key]`, with `none` where the code's test of that node is false; the conversions are the
-- `as<T>()`, with `none` where they throw.
pub mod Writer
use dgswemv.Prelude.{ℕ, Bool, true, false, Option, none, some, List}
use Prim.Native.String.{String}
use dgswemv.Outcome.{missing, bad_conversion, Outcome, from_option, ◌>>=◌}

pub record Yaml (N D : Type 0) : Type 0 where
  pub lookup : N → String → Option N
  pub as_double : N → Option D
  pub as_uint : N → Option ℕ
  pub as_bool : N → Option Bool
  pub as_text : N → Option String
  pub is_null : N → Bool
  pub is_sequence : N → Bool
  pub items : N → List N

module _ {N D : Type 0} (y : Yaml N D) where
  open y use {lookup, as_double, as_uint, as_bool, as_text}

  -- `if (node[key]) … else throw`
  abbrev pub required : N → String → Outcome N
  required node key = from_option (missing key) (lookup node key)

  abbrev pub double_of : N → Outcome D
  double_of node = from_option bad_conversion (as_double node)

  abbrev pub uint_of : N → Outcome ℕ
  uint_of node = from_option bad_conversion (as_uint node)

  abbrev pub bool_of : N → Outcome Bool
  bool_of node = from_option bad_conversion (as_bool node)

  abbrev pub text_of : N → Outcome String
  text_of node = from_option bad_conversion (as_text node)

  -- `node[key].as<std::string>()` with no test before it.
  abbrev pub text_at : N → String → Outcome String
  text_at node key = from_option bad_conversion (lookup node key) >>= text_of

  -- `if (node[key])`
  abbrev pub has : N → String → Bool
  has node key = elim (lookup node key) [ none ↦ false | some _ ↦ true ]

  -- `node[key].as<double>()` and the like, after a test of the node.
  abbrev pub double_at : N → String → Outcome D
  double_at node key = from_option bad_conversion (lookup node key) >>= double_of

  abbrev pub uint_at : N → String → Outcome ℕ
  uint_at node key = from_option bad_conversion (lookup node key) >>= uint_of

  abbrev pub bool_at : N → String → Outcome Bool
  bool_at node key = from_option bad_conversion (lookup node key) >>= bool_of
