-- ===== src/Outcome.antt =====
-- Results of code that throws: a value, or the exception.
use dgswemv.Prelude.{◌≡◌, refl, Bool, true, false, Option, none, some}
use Prim.Native.String.{String}

-- The `std::logic_error`s that the readers throw, and a failed conversion of a YAML node.
pub data Error : Type 0 where
  missing : String → Error
  unsupported : String → Error
  malformed : String → Error
  bad_conversion : Error

pub data Outcome {ℓ} (T : Type ℓ) : Type ℓ where
  returned : T → Outcome T
  thrown : Error → Outcome T

module _ {ℓ κ} {S : Type ℓ} {T : Type κ} where
  infixl 5 ◌>>=◌ ◌>>◌
  abbrev pub ◌>>=◌ : Outcome S → (S → Outcome T) → Outcome T
  returned s >>= next = next s
  thrown e >>= next = thrown e

  abbrev pub ◌>>◌ : Outcome S → Outcome T → Outcome T
  first >> second = first >>= λ _. second

  -- Code that returned went through both of its steps.
  pub >>=-eq-returned :
      (first : Outcome S) (next : S → Outcome T) {t : T}
      → (first >>= next) ≡ returned t
      → (s : S) × (first ≡ returned s) × (next s ≡ returned t)
  >>=-eq-returned (returned s) next h = (s, refl, h)
  >>=-eq-returned (thrown e) next h = cc

-- `if (!test) throw error;`
abbrev pub throw_unless : Bool → Error → Outcome (Unit {0})
throw_unless true error = returned tt
throw_unless false error = thrown error

abbrev pub from_option {ℓ} : {T : Type ℓ} → Error → Option T → Outcome T
from_option error none = thrown error
from_option error (some t) = returned t

pub returned_injective {ℓ} : {T : Type ℓ} (s t : T) → returned s ≡ returned t → s ≡ t
returned_injective s t h = cc
