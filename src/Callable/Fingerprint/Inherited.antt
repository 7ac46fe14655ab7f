-- ===== src/Callable/Fingerprint/Inherited.antt =====
-- `reachable[name]` in src/callable/type-grammar.js reads an object literal, which inherits members.
use lagrange_images.Base.{ℕ, ◌≡◌, refl, suc, ap, ◌∙◌, sym, []}
use lagrange_images.Base.Dict.{get}
use lagrange_images.Base.TextOrder.{sort_texts}
use lagrange_images.Base.Result.{Result, ok, err}
use lagrange_images.Callable.TypeGrammar.{
  Declarations, named, is_primitive_type, primitive_of, GrammarError,
}
use lagrange_images.Callable.Declarations.{
  reachable_declarations, reach, referenced_names, sorted_by, count_references,
}
use lagrange_images.Callable.Fingerprint.{Platform, schema_hash, type_fingerprint}

nothing_reached :
    (types : Declarations) (n : ℕ)
    → reach types (suc n) (referenced_names (named "constructor")) [] ≡ ok []
unfolding reach referenced_names is_primitive_type primitive_of get
nothing_reached types n = refl

reachable_of_inherited :
    (types : Declarations) → reachable_declarations (named "constructor") types ≡ ok []
unfolding reachable_declarations
reachable_of_inherited types =
    rw (nothing_reached types (count_references types)) (unfold sorted_by sort_texts in refl)

-- The fingerprint of a type named `constructor` does not depend on its declaration, nor on whether it
-- has one: `reachable` inherits a member of that name, so the loop takes the name as reached.
pub fingerprint_of_inherited :
    (platform : Platform) (types types' : Declarations)
    → type_fingerprint platform (named "constructor") types
      ≡ type_fingerprint platform (named "constructor") types'
unfolding type_fingerprint
fingerprint_of_inherited platform types types' =
    ap
      (λ (r : Result GrammarError Declarations). elim r [
        | err e ↦ err e
        | ok reachable ↦ ok (schema_hash platform (named "constructor") reachable)
      ])
      (reachable_of_inherited types ∙ sym (reachable_of_inherited types'))
