-- ===== src/Types/Search/Saved.antt =====
-- livtet-types/src/search/saved_search.rs: saved searches and the query tree of one of them.
pub mod Refs
pub mod Parts
use livtet.Base.{
  ℕ, suc, ◌+◌, ◌-◌, max, Bool, true, false, ◌||◌, Option, none, some, List, [], ◌∷◌, ◌++◌, ◌==◌,
  ltb, if◌then◌else◌,
}
use livtet.Base.Text.{Text, codes, byte_len}
use livtet.Base.Result.{Result, ok, err, ◌>>=◌}
use livtet.Types.Search.Dsl.{UserInputAst, field_exists, and_clause, or_clause, must_not_clause}
use livtet.Types.Search.Kinds.{
  DbId, Ref, Names, LimitSearch, FormatSearch, AvailabilitySearch, OrderingSearch, TextSearch,
  CategorizationSearch, referenced_ids, limit_ast, format_ast, availability_ast, ordering_ast,
  text_ast, categorization_ast,
}
use livtet.Types.Search.Identifier.{IdentifierSearch, identifier_ast}

mutual
  pub data SavedSearchKind : Type 0 where
    and_of : SavedSearchKinds → SavedSearchKind
    or_of : SavedSearchKinds → SavedSearchKind
    not_of : SavedSearchKind → SavedSearchKind
    categorization : CategorizationSearch → SavedSearchKind
    limit : LimitSearch → SavedSearchKind
    format : FormatSearch → SavedSearchKind
    identifier : IdentifierSearch → SavedSearchKind
    availability : AvailabilitySearch → SavedSearchKind
    ordering : OrderingSearch → SavedSearchKind
    text : TextSearch → SavedSearchKind
    user_defined : Text → SavedSearchKind

  -- `Vec<SavedSearchKind>`
  pub data SavedSearchKinds : Type 0 where
    no_kinds : SavedSearchKinds
    more_kinds : SavedSearchKind → SavedSearchKinds → SavedSearchKinds

-- What the messages of `InvalidDslError` tell apart, with their numbers; the position is always 0.
pub data InvalidDslError : Type 0 where
  too_long : ℕ → InvalidDslError
  too_deep : ℕ → InvalidDslError
  not_parsed : InvalidDslError

abbrev pub max_dsl_len : ℕ
max_dsl_len = 8192

abbrev pub max_dsl_depth : ℕ
max_dsl_depth = 64

unfoldable pub opens : ℕ → Bool
opens c = c == b'(' || c == b'[' || c == b'{'

unfoldable pub closes : ℕ → Bool
closes c = c == b')' || c == b']' || c == b'}'

-- The loop over the bytes: `depth` and `max_depth`. A bracket is one byte, and no byte of another
-- character is one.
unfoldable pub scan_depth : ℕ → ℕ → Text → ℕ
scan_depth depth most [] = most
scan_depth depth most (c ∷ s) =
    let deeper = scan_depth (depth + 1) (max most (depth + 1)) s in
    let shallower = scan_depth (depth - 1) most s in
    let same = scan_depth depth most s in
    if opens c then deeper else if closes c then shallower else same

-- `collect_refs`
unfoldable mutual
  unfolding referenced_ids

  pub collect_refs : SavedSearchKind → List Ref
  collect_refs (and_of ks) = collect_all ks
  collect_refs (or_of ks) = collect_all ks
  collect_refs (not_of k) = collect_refs k
  collect_refs (categorization c) = referenced_ids c
  collect_refs (limit _) = []
  collect_refs (format _) = []
  collect_refs (identifier _) = []
  collect_refs (availability _) = []
  collect_refs (ordering _) = []
  collect_refs (text _) = []
  collect_refs (user_defined _) = []

  pub collect_all : SavedSearchKinds → List Ref
  collect_all no_kinds = []
  collect_all (more_kinds k ks) = collect_refs k ++ collect_all ks

-- `parse_lenient` is tantivy's parser: the tree, and whether it reports an error. `show` is the text
-- form of a ULID.
module _ {X : Type 0} (parse_lenient : Text → UserInputAst X × Bool) (show : DbId → Text) where
  unfoldable pub parsed_or : UserInputAst X × Bool → Result InvalidDslError (UserInputAst X)
  parsed_or (ast, true) = err not_parsed
  parsed_or (ast, false) = ok ast

  unfoldable pub parse_user_dsl : Text → Result InvalidDslError (UserInputAst X)
  unfolding parsed_or
  parse_user_dsl s =
      if ltb max_dsl_len (byte_len s)
      then err (too_long (byte_len s))
      else if ltb max_dsl_depth (scan_depth 0 0 s)
      then err (too_deep (scan_depth 0 0 s))
      else parsed_or (parse_lenient s)

  -- `_all` where a combinator has no child
  abbrev pub and_or_all : List (UserInputAst X) → UserInputAst X
  unfolding field_exists
  and_or_all [] = field_exists (codes "_all")
  and_or_all (c ∷ cs) = and_clause (c ∷ cs)

  abbrev pub or_or_all : List (UserInputAst X) → UserInputAst X
  unfolding field_exists
  or_or_all [] = field_exists (codes "_all")
  or_or_all (c ∷ cs) = or_clause (c ∷ cs)

  unfoldable mutual
    pub into_ast_with_names : Names → SavedSearchKind → Result InvalidDslError (UserInputAst X)
    into_ast_with_names names (and_of ks) = into_asts names ks >>= λ cs. ok (and_or_all cs)
    into_ast_with_names names (or_of ks) = into_asts names ks >>= λ cs. ok (or_or_all cs)
    into_ast_with_names names (not_of k) =
        into_ast_with_names names k >>= λ c. ok (must_not_clause c)
    into_ast_with_names names (categorization c) = ok (categorization_ast show names c)
    into_ast_with_names names (limit l) = ok (limit_ast l)
    into_ast_with_names names (format f) = ok (format_ast f)
    into_ast_with_names names (identifier i) = ok (identifier_ast i)
    into_ast_with_names names (availability a) = ok (availability_ast a)
    into_ast_with_names names (ordering o) = ok (ordering_ast o)
    into_ast_with_names names (text t) = ok (text_ast t)
    into_ast_with_names names (user_defined s) = parse_user_dsl s

    pub into_asts : Names → SavedSearchKinds → Result InvalidDslError (List (UserInputAst X))
    into_asts names no_kinds = ok []
    into_asts names (more_kinds k ks) =
        into_ast_with_names names k >>= λ c. into_asts names ks >>= λ cs. ok (c ∷ cs)
