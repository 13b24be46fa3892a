-- ===== src/Parameters/Problems.antt =====
-- `YamlNodeWrapper`, the problem of a run that is not looked into
-- (source/preprocessor/input_parameters.hpp).
use dgswemv.Prelude.{refl}
use dgswemv.Swe.Inputs.Read.{quiet}
use dgswemv.Parameters.{Problem}
use dgswemv.Parameters.RoundTrip.{IsRereadable}

-- The node of the problem is kept as it is.
unfoldable pub wrapper : {N : Type 0} → Problem N N
wrapper = record { construct = λ node. quiet node; as_node = λ node. node }

pub wrapper-IsRereadable : {N : Type 0} → IsRereadable (wrapper {N = N})
unfolding wrapper
wrapper-IsRereadable = record { again = λ node p ws h. refl }
