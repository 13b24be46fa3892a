-- ===== src/Parameters/FileName.antt =====
-- The operations on file names (source/preprocessor/input_parameters.hpp).
use Prim.Native.Char.{code}
use Prim.Native.String.{String, [], ◌∷◌, ◌++◌}
use Prim.Native.String.append
use dgswemv.Prelude.{
  ℕ, ◌≡◌, ap, ◌∙◌, sym, Bool, true, false, ◌||◌, ◌==◌, if◌then◌else◌, Bool-cases, inl, inr,
}

-- `'.'` and `'/'`
abbrev dot : ℕ
dot = 46

abbrev slash : ℕ
slash = 47

unfoldable pub has_dot : String → Bool
has_dot [] = false
has_dot (c ∷ s) = code c == dot || has_dot s

-- `s.substr(0, s.find_last_of('.'))`, all of `s` where it has no dot.
unfoldable pub stem : String → String
stem [] = []
stem (c ∷ s) =
    let rest = stem s in if has_dot s then c ∷ rest else if code c == dot then [] else c ∷ s

-- `s.back() == '/'`, and no for an empty text.
unfoldable pub ends_with_slash : String → Bool
ends_with_slash [] = false
ends_with_slash (c ∷ []) = code c == slash
ends_with_slash (c ∷ d ∷ s) = ends_with_slash (d ∷ s)

-- `if (s.back() != '/') s += "/";`
unfoldable pub with_slash : String → String
with_slash s = if ends_with_slash s then s else s ++ "/"

ends_with_slash-append : (s : String) → ends_with_slash (s ++ "/") ≡ true
unfolding ends_with_slash
ends_with_slash-append [] = ap ends_with_slash (append.nil "/")
ends_with_slash-append (c ∷ []) =
    ap ends_with_slash (append.cons c [] "/" ∙ ap (λ t. c ∷ t) (append.nil "/"))
ends_with_slash-append (c ∷ d ∷ s) =
    ap ends_with_slash (append.cons c (d ∷ s) "/" ∙ ap (λ t. c ∷ t) (append.cons d s "/"))
    ∙ ap ends_with_slash (sym (append.cons d s "/"))
    ∙ ends_with_slash-append (d ∷ s)

-- A path that ends with a slash stays as it is.
pub with_slash_idem : (s : String) → with_slash (with_slash s) ≡ with_slash s
unfolding with_slash
with_slash_idem s = elim (Bool-cases (ends_with_slash s)) [
  | inl e ↦ rw (e, e)
  | inr e ↦ rw (e, ends_with_slash-append s)
]
