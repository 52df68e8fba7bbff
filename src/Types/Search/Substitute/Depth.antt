-- ===== src/Types/Search/Substitute/Depth.antt =====
-- What the substitution of placeholders keeps, and that its loop ends.
use livtet.Base.{
  ℕ, zero, suc, ◌+◌, ◌<◌, max, Bool, true, false, Option, none, some, [], ◌∷◌, ◌++◌, ◌≡◌, ◌≢◌, refl,
  sym, ap, ◌∙◌, length, arith, ◌==◌, Option-cases, Bool-cases, ◌⊎◌, inl, inr,
}
use livtet.Base.Text.{Text, codes, strip_prefix}
use livtet.Base.Result.{Result, ok, err}
use livtet.Types.Search.Dsl.{
  UserInputLiteral, UserInputLeaf, literal, set, exists, range, parsed, UserInputAst, leaf, boost,
  clause, Clauses, nil, cons,
}
use livtet.Types.Search.Calendar.{Clock}
use livtet.Types.Search.Substitute.{
  CompositionError, Bindings, split_here, split_dollars, Substitution, kept, replaced, failed,
  out_of_fuel, resolve_token, finish, substitute_loop, substitute_in_phrase, substitute_literal,
  substitute_leaf, substitute_placeholders, substitute_children, nesting_depth, deepest,
}

some-injective {ℓ} : {A : Type ℓ} {a b : A} → some a ≡ some b → a ≡ b
some-injective h = cc

some-ne-none {ℓ} : {A : Type ℓ} {a : A} → some a ≡ none → ⊥
some-ne-none h = cc

length-strip_prefix : (p s r : Text) → strip_prefix p s ≡ some r → length r + length p ≡ length s
unfolding strip_prefix
length-strip_prefix [] s r h =
    ap (λ (t : Text). length t + 0) (some-injective (sym h)) ∙ omega arith
length-strip_prefix (p ∷ ps) [] r h = cc
length-strip_prefix (p ∷ ps) (c ∷ s) r h = elim (Bool-cases (p == c)) [
  | inl e ↦ omega (arith, length-strip_prefix ps s r (rw e at h))
  | inr e ↦ absurd (some-ne-none (sym (rw e at h)))
]

length-split_here :
    (c : ℕ) (s : Text) (o : Option Text) (rest : Option (Text × Text)) (a b : Text)
    → ((after : Text) → o ≡ some after → length after < length (c ∷ s))
    → ((x y : Text) → rest ≡ some (x, y) → length y < length s)
    → split_here c o rest ≡ some (a, b)
    → length b < length (c ∷ s)
length-split_here c s (some after) rest a b h k e =
    omega (arith, h after refl, ap (λ (p : Text × Text). length p.1) (some-injective e))
length-split_here c s none none a b h k e = absurd (some-ne-none (sym e))
length-split_here c s none (some (x, y)) a b h k e =
    omega (arith, k x y refl, ap (λ (p : Text × Text). length p.1) (some-injective e))

length-split_dollars : (s a b : Text) → split_dollars s ≡ some (a, b) → length b < length s
unfolding split_dollars
length-split_dollars [] a b h = absurd (some-ne-none (sym h))
length-split_dollars (c ∷ s) a b h =
    length-split_here c s (strip_prefix (codes "$$") (c ∷ s)) (split_dollars s) a b
      (λ after e. omega (arith, length-strip_prefix (codes "$$") (c ∷ s) after e))
      (λ x y e. length-split_dollars s x y e) h

kept-ne-out_of_fuel : kept ≡ out_of_fuel → ⊥
kept-ne-out_of_fuel h = cc

failed-ne-out_of_fuel : {e : CompositionError} → failed e ≡ out_of_fuel → ⊥
failed-ne-out_of_fuel h = cc

Result-cases : {E A : Type 0} (m : Result E A) → ((e : E) × (m ≡ err e)) ⊎ ((a : A) × (m ≡ ok a))
Result-cases (ok a) = inr (a, refl)
Result-cases (err e) = inl (e, refl)

module _ (clock : Clock) (now : clock.Instant) (bindings : Bindings) where
  substitute_literal-depth :
      (X : Type 0) (lit : UserInputLiteral) (s : Substitution)
      → nesting_depth (substitute_literal clock now bindings {X = X} lit s) ≡ 1
  unfolding substitute_literal nesting_depth
  substitute_literal-depth X lit kept = refl
  substitute_literal-depth X lit (replaced t) = refl
  substitute_literal-depth X lit (failed e) = refl
  substitute_literal-depth X lit out_of_fuel = refl

  substitute_leaf-depth :
      (X : Type 0) (l : UserInputLeaf X) → nesting_depth (substitute_leaf clock now bindings l) ≡ 1
  unfolding substitute_leaf nesting_depth
  substitute_leaf-depth X (literal lit) =
      substitute_literal-depth X lit (substitute_in_phrase clock now bindings lit.phrase)
  substitute_leaf-depth X (set f es) = refl
  substitute_leaf-depth X (exists f) = refl
  substitute_leaf-depth X (range f lo hi) = refl
  substitute_leaf-depth X (parsed x) = refl

  mutual
    unfolding substitute_placeholders substitute_children nesting_depth deepest

    ast-depth :
        (X : Type 0) (a : UserInputAst X)
        → nesting_depth (substitute_placeholders clock now bindings a) ≡ nesting_depth a
    ast-depth X (clause cs) = ap (λ (n : ℕ). 1 + n) (children-depth X cs)
    ast-depth X (boost a score) = ast-depth X a
    ast-depth X (leaf l) = substitute_leaf-depth X l

    children-depth :
        (X : Type 0) (cs : Clauses X)
        → deepest (substitute_children clock now bindings cs) ≡ deepest cs
    children-depth X nil = refl
    children-depth X (cons o a cs) =
        ap (λ (n : ℕ). max n (deepest (substitute_children clock now bindings cs))) (ast-depth X a)
        ∙ ap (max (nesting_depth a)) (children-depth X cs)

  -- Substituting placeholders, whatever their values, keeps the nesting depth of a query tree.
  pub nesting_depth-substitute_placeholders :
      (X : Type 0) (a : UserInputAst X)
      → nesting_depth (substitute_placeholders clock now bindings a) ≡ nesting_depth a
  nesting_depth-substitute_placeholders X a = ast-depth X a

  finish-ends :
      (out : Text) (changed : Bool) (rest : Text)
      → finish clock now bindings out changed rest ≢ out_of_fuel
  unfolding finish
  finish-ends out true rest h = cc
  finish-ends out false rest h = cc

  loop_ends :
      (fuel : ℕ) (out : Text) (changed : Bool) (rest : Text)
      → length rest < fuel
      → substitute_loop clock now bindings fuel out changed rest ≢ out_of_fuel
  unfolding substitute_loop
  loop_ends zero out changed rest h e = omega arith
  loop_ends (suc fuel) out changed rest h e = elim (Option-cases (split_dollars rest)) [
    | inl f ↦ finish-ends out changed rest (rw (f, substitute_loop) at e)
    | inr ((before, after_open), f) ↦ elim (Option-cases (split_dollars after_open)) [
      | inl g ↦ kept-ne-out_of_fuel (rw g at (rw (f, substitute_loop) at e))
      | inr ((token, after_close), g) ↦
          elim (Result-cases (resolve_token clock now bindings token)) [
            | inl (x, r) ↦ failed-ne-out_of_fuel (rw r at (rw g at (rw (f, substitute_loop) at e)))
            | inr (value, r) ↦
                loop_ends fuel (out ++ (before ++ value)) true after_close
                  (omega (
                    arith,
                    length-split_dollars rest before after_open f,
                    length-split_dollars after_open token after_close g,
                  ))
                  (rw r at (rw g at (rw (f, substitute_loop) at e)))
          ]
    ]
  ]

  -- The loop over a phrase ends within its fuel, whatever the phrase holds.
  pub substitute_in_phrase-ends :
      (phrase : Text) → substitute_in_phrase clock now bindings phrase ≢ out_of_fuel
  unfolding substitute_in_phrase
  substitute_in_phrase-ends phrase = loop_ends (suc (length phrase)) [] false phrase (omega arith)
