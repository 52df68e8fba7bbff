-- ===== src/Types/Search/Compose.antt =====
-- livtet-types/src/search/composition.rs: `SavedSearches::render`.
pub mod UserDefined
pub mod Policy
use livtet.Base.{
  ℕ, zero, suc, ◌+◌, Bool, true, false, not, ◌&&◌, ◌||◌, Option, none, some, List, [], ◌∷◌, ◌++◌,
  map, ◌==◌, ltb, if◌then◌else◌,
}
use livtet.Base.Text.{Text}
use livtet.Base.Result.{Result, ok, err, ok_or, ◌>>=◌}
use livtet.Types.Search.Dsl.{UserInputAst, and_clause, or_clause}
use livtet.Types.Search.Kinds.{ResourceKind, kind_eq, DbId, Ref, Names}
use livtet.Types.Search.Saved.{
  SavedSearchKind, SavedSearchKinds, and_of, or_of, not_of, categorization, limit, format,
  identifier, availability, ordering, text, user_defined, no_kinds, more_kinds, InvalidDslError,
  collect_refs, into_ast_with_names,
}
use livtet.Types.Search.Calendar.{Clock}
use livtet.Types.Search.Substitute.{
  CompositionError, stale_references, recursion_limit_exceeded, invalid_user_dsl, db_error,
  user_defined_disabled, Bindings, substitute_placeholders, nesting_depth,
}

pub record CompositionOptions : Type 0 where
  pub max_depth : ℕ
  pub allow_user_defined : Bool

pub record SavedSearch : Type 0 where
  pub id : DbId
  pub definition : SavedSearchKind

pub record SavedSearches : Type 0 where
  pub children : List SavedSearch
  pub options : CompositionOptions

-- the trait of stale.rs; `none` is a database error
pub record ResourceLookup : Type 0 where
  pub exists : ResourceKind → DbId → Option Bool
  pub names : ResourceKind → List DbId → Option (List (DbId × Text))

-- `contains_user_defined`
unfoldable mutual
  pub contains_user_defined : SavedSearchKind → Bool
  contains_user_defined (and_of ks) = any_user_defined ks
  contains_user_defined (or_of ks) = any_user_defined ks
  contains_user_defined (not_of k) = contains_user_defined k
  contains_user_defined (categorization _) = false
  contains_user_defined (limit _) = false
  contains_user_defined (format _) = false
  contains_user_defined (identifier _) = false
  contains_user_defined (availability _) = false
  contains_user_defined (ordering _) = false
  contains_user_defined (text _) = false
  contains_user_defined (user_defined _) = true

  pub any_user_defined : SavedSearchKinds → Bool
  any_user_defined no_kinds = false
  any_user_defined (more_kinds k ks) = contains_user_defined k || any_user_defined ks

-- the references of all children, in order
unfoldable pub all_refs : List SavedSearch → List Ref
all_refs [] = []
all_refs (c ∷ cs) = collect_refs c.definition ++ all_refs cs

-- the ids of one axis, `grouped[kind]`
unfoldable pub ids_of : ResourceKind → List Ref → List DbId
ids_of kind [] = []
ids_of kind ((k, id) ∷ rs) = let rest = ids_of kind rs in if kind_eq k kind then id ∷ rest else rest

abbrev pub lift : {A : Type 0} → Result InvalidDslError A → Result CompositionError A
lift (ok a) = ok a
lift (err e) = err (invalid_user_dsl e)

module _ (lookup : ResourceLookup) where
  -- the ids of one axis that do not exist
  unfoldable pub stale_of : ResourceKind → List DbId → Result CompositionError (List Ref)
  stale_of kind [] = ok []
  stale_of kind (id ∷ ids) = ok_or db_error (lookup.exists kind id) >>= λ there.
      stale_of kind ids >>= λ stale. ok (if there then stale else (kind, id) ∷ stale)

  abbrev pub refuse_stale : List Ref → Result CompositionError Unit
  refuse_stale [] = ok tt
  refuse_stale (r ∷ rs) = err (stale_references (r ∷ rs))

  -- step 2, over the axes in the order of the map
  unfoldable pub check_stale : List Ref → List ResourceKind → Result CompositionError Unit
  check_stale refs [] = ok tt
  check_stale refs (kind ∷ kinds) = stale_of kind (ids_of kind refs) >>= λ stale.
      refuse_stale stale >>= λ _. check_stale refs kinds

  -- the names of one axis; an axis without an id is not in the map
  unfoldable pub names_of : ResourceKind → List DbId → Option (List (DbId × Text))
  names_of kind [] = some []
  names_of kind (id ∷ ids) = lookup.names kind (id ∷ ids)

  -- step 3
  unfoldable pub resolve_names :
      List Ref → List ResourceKind → Names → Result CompositionError Names
  resolve_names refs [] names = ok names
  resolve_names refs (kind ∷ kinds) names =
      ok_or db_error (names_of kind (ids_of kind refs)) >>= λ found.
      resolve_names refs kinds (map (λ p. ((kind, p.0), p.1)) found ++ names)

-- step 6
unfoldable pub check_depth : {X : Type 0} → ℕ → List (UserInputAst X) → Result CompositionError Unit
check_depth most [] = ok tt
check_depth most (a ∷ as_) =
    let rest = check_depth most as_ in
    if ltb most (nesting_depth a) then err (recursion_limit_exceeded (nesting_depth a)) else rest

-- `kinds` is the order in which the map of axes is iterated.
module _ {X : Type 0} (parse_lenient : Text → UserInputAst X × Bool) (show : DbId → Text)
    (kinds : List ResourceKind) (lookup : ResourceLookup) (clock : Clock)
    (now : clock.Instant) where
  abbrev pub allowed : Bool → Bool → Result CompositionError Unit
  allowed allow found = if not allow && found then err user_defined_disabled else ok tt

  -- step 4
  unfoldable pub render_children :
      Bool → Names → List SavedSearch → Result CompositionError (List (UserInputAst X))
  render_children allow names [] = ok []
  render_children allow names (c ∷ cs) =
      lift (into_ast_with_names parse_lenient show names c.definition) >>= λ a.
      allowed allow (contains_user_defined c.definition) >>= λ _.
      render_children allow names cs >>= λ rest. ok (a ∷ rest)

  -- steps 5 to 7
  unfoldable pub compose :
      ℕ → Bindings → List (UserInputAst X) → Result CompositionError (UserInputAst X)
  compose most bindings renderings =
      let substituted = map (substitute_placeholders clock now bindings) renderings in
      check_depth most substituted >>= λ _.
      ok (and_clause (map (λ a. or_clause (a ∷ [])) substituted))

  -- steps 1 to 7
  unfoldable pub render_within :
      ℕ → SavedSearches → Bindings → Result CompositionError (UserInputAst X)
  render_within most s bindings = check_stale lookup (all_refs s.children) kinds >>= λ _.
      resolve_names lookup (all_refs s.children) kinds [] >>= λ names.
      render_children s.options.allow_user_defined names s.children >>= compose most bindings

  unfoldable pub render_searches :
      SavedSearches → Bindings → Result CompositionError (UserInputAst X)
  render_searches s bindings =
      if s.options.max_depth == 0
      then err (recursion_limit_exceeded 0)
      else render_within s.options.max_depth s bindings
