-- ===== src/Types/Search/Substitute.antt =====
-- livtet-types/src/search/composition.rs: the placeholders in a query tree give way to their values.
pub mod Depth
use livtet.Base.{
  ℕ, zero, suc, ◌+◌, max, Bool, true, false, not, Option, none, some, List, [], ◌∷◌, ◌++◌,
  if◌then◌else◌, length,
}
use livtet.Base.Text.{Text, codes, text_eq, strip_prefix}
use livtet.Base.Result.{Result, ok, err, ok_or, ◌>>=◌}
use livtet.Types.Search.Dsl.{
  Occur, UserInputLiteral, UserInputLeaf, literal, set, exists, range, parsed, UserInputAst, leaf,
  boost, clause, Clauses, nil, cons, double_quotes,
}
use livtet.Types.Search.Kinds.{Ref}
use livtet.Types.Search.Saved.{InvalidDslError}
use livtet.Types.Search.Placeholder.{
  PlaceholderName, reserved, date_offset, user, PlaceholderParseError, parse_placeholder,
}
use livtet.Types.Search.Calendar.{Clock, get_or, render}

pub data CompositionError : Type 0 where
  stale_references : List Ref → CompositionError
  unbound_placeholders : Text → CompositionError
  invalid_placeholder_syntax : PlaceholderParseError → CompositionError
  recursion_limit_exceeded : ℕ → CompositionError
  invalid_user_dsl : InvalidDslError → CompositionError
  db_error : CompositionError
  user_defined_disabled : CompositionError

-- `CompositionBindings`
abbrev pub Bindings : Type 0
Bindings = List (Text × Text)

unfoldable pub binding : Text → Bindings → Option Text
binding name [] = none
binding name ((k, v) ∷ m) = let rest = binding name m in if text_eq k name then some v else rest

-- on what stands behind a `$$` at the head, and on the split of the tail
abbrev pub split_here : ℕ → Option Text → Option (Text × Text) → Option (Text × Text)
split_here c (some after) rest = some ([], after)
split_here c none none = none
split_here c none (some (a, b)) = some (c ∷ a, b)

-- the text before and behind the first `$$`
unfoldable pub split_dollars : Text → Option (Text × Text)
split_dollars [] = none
split_dollars (c ∷ s) = split_here c (strip_prefix (codes "$$") (c ∷ s)) (split_dollars s)

-- What `substitute_in_phrase` does to a phrase.
pub data Substitution : Type 0 where
  kept : Substitution
  replaced : Text → Substitution
  failed : CompositionError → Substitution
  out_of_fuel : Substitution

unfoldable pub map_syntax :
    Result PlaceholderParseError PlaceholderName → Result CompositionError PlaceholderName
map_syntax (ok n) = ok n
map_syntax (err e) = err (invalid_placeholder_syntax e)

-- `now` is the clock's one reading for the whole tree.
module _ (clock : Clock) (now : clock.Instant) (bindings : Bindings) where
  -- the `format` of a rendered instant
  unfoldable pub time_text : PlaceholderName → Text
  time_text name = get_or (clock.unix_text now) (clock.rfc3339 (render clock name now))

  unfoldable pub resolve_name : PlaceholderName → Result CompositionError Text
  resolve_name (reserved r) = ok (time_text (reserved r))
  resolve_name (date_offset unit sign amount) = ok (time_text (date_offset unit sign amount))
  resolve_name (user name) = ok_or (unbound_placeholders name) (binding name bindings)

  unfoldable pub resolve_token : Text → Result CompositionError Text
  resolve_token token =
      map_syntax (parse_placeholder (codes "$$" ++ (token ++ codes "$$"))) >>= resolve_name

  -- the end of the loop
  finish : Text → Bool → Text → Substitution
  finish out changed rest = if not changed then kept else replaced (out ++ rest)

  -- the loop over `rest`, on fuel for as many placeholders
  unfoldable pub substitute_loop : ℕ → Text → Bool → Text → Substitution
  unfolding finish
  substitute_loop zero out changed rest = out_of_fuel
  substitute_loop (suc fuel) out changed rest = elim (split_dollars rest) [
    | none ↦ finish out changed rest
    | some (before, after_open) ↦ elim (split_dollars after_open) [
      | none ↦ kept
      | some (token, after_close) ↦ elim (resolve_token token) [
        | err e ↦ failed e
        | ok value ↦ substitute_loop fuel (out ++ (before ++ value)) true after_close
      ]
    ]
  ]

  unfoldable pub substitute_in_phrase : Text → Substitution
  substitute_in_phrase phrase = substitute_loop (suc (length phrase)) [] false phrase

  module _ {X : Type 0} where
    -- `fail`
    unfoldable pub error_leaf : UserInputAst X
    error_leaf = leaf (
        literal (record {
          field_name = some (codes "_error");
          phrase = codes "_ERR_";
          delimiter = double_quotes;
          slop = 0;
          prefix = false;
        }))

    unfoldable pub substitute_literal : UserInputLiteral → Substitution → UserInputAst X
    unfolding error_leaf
    substitute_literal lit kept = leaf (literal lit)
    substitute_literal lit (replaced t) = leaf (literal (record lit { phrase = t }))
    substitute_literal lit (failed _) = error_leaf
    substitute_literal lit out_of_fuel = leaf (literal lit)

    unfoldable pub substitute_leaf : UserInputLeaf X → UserInputAst X
    substitute_leaf (literal lit) = substitute_literal lit (substitute_in_phrase lit.phrase)
    substitute_leaf (set f es) = leaf (set f es)
    substitute_leaf (exists f) = leaf (exists f)
    substitute_leaf (range f lo hi) = leaf (range f lo hi)
    substitute_leaf (parsed x) = leaf (parsed x)

    unfoldable mutual
      pub substitute_placeholders : UserInputAst X → UserInputAst X
      substitute_placeholders (clause cs) = clause (substitute_children cs)
      substitute_placeholders (boost a score) = boost (substitute_placeholders a) score
      substitute_placeholders (leaf l) = substitute_leaf l

      pub substitute_children : Clauses X → Clauses X
      substitute_children nil = nil
      substitute_children (cons o a cs) =
          cons o (substitute_placeholders a) (substitute_children cs)

unfoldable mutual
  pub nesting_depth : {X : Type 0} → UserInputAst X → ℕ
  nesting_depth (clause cs) = 1 + deepest cs
  nesting_depth (boost a score) = nesting_depth a
  nesting_depth (leaf l) = 1

  -- the greatest depth of the children, 0 if there is none
  pub deepest : {X : Type 0} → Clauses X → ℕ
  deepest nil = 0
  deepest (cons o a cs) = max (nesting_depth a) (deepest cs)
