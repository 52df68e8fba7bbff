-- ===== src/Types/Search/Tests.antt =====
-- A collection of saved searches, and the theorems on it.
use livtet.Base.{
  ℕ, ◌+◌, ◌-◌, Bool, true, false, ◌||◌, some, List, [], ◌∷◌, ◌≡◌, ◌≢◌, refl, All, arith,
}
use livtet.Base.Text.{Text, codes, text_eq, trim, trim_start, is_whitespace, strip_prefix}
use livtet.Base.Int.{pos}
use livtet.Base.Result.{ok}
use livtet.Types.Isbn.Tests.{hyphened, canonical, parse_isbn10}
use livtet.Types.Search.Dsl.{
  UserInputAst, field_exists, field_term_exact, and_clause, or_clause, escape, escape_query_text,
  is_query_syntax, is_delimiter_whitespace,
}
use livtet.Types.Search.Dsl.Escape.{read_escapes, escaped_by, read_escapes-escape}
use livtet.Types.Search.Kinds.{
  ResourceKind, author, genre, subject, series, publisher, tag, by_author, by_title, name_of,
  ref_eq, kind_text, categorization_ast, hybrid, hybrid_arms, text_ast, referenced_ids,
}
use livtet.Types.Search.Identifier.{by, isbn, identifier_ast, identifier_ast-canonical}
use livtet.Types.Search.Saved.{
  SavedSearchKind, and_of, categorization, text, more_kinds, no_kinds, into_ast_with_names,
  into_asts, collect_refs, collect_all,
}
use livtet.Types.Search.Saved.Refs.{into_ast_with_names-Agrees}
use livtet.Types.Search.Placeholder.{
  date_offset, day, minus, from_str, print_name, parse_placeholder, parse_inner, inner,
  parse_trimmed, parse_token, find_token, reserved_token,
}
use livtet.Types.Search.Placeholder.RoundTrip.{from_str-print_name, IsPrintable}
use livtet.Types.Search.Calendar.{Clock}
use livtet.Types.Search.Substitute.{
  substitute_placeholders, substitute_in_phrase, nesting_depth, deepest, out_of_fuel,
  substitute_children, substitute_leaf, substitute_literal, substitute_loop, split_dollars,
  resolve_token, resolve_name, time_text, map_syntax, replaced, kept,
}
use livtet.Types.Search.Substitute.Depth.{
  nesting_depth-substitute_placeholders, substitute_in_phrase-ends,
}
use livtet.Types.Search.Compose.{
  SavedSearches, ResourceLookup, contains_user_defined, any_user_defined, all_refs, ids_of,
  stale_of, check_stale, names_of, resolve_names, check_depth, render_children, compose,
  render_within, render_searches,
}
use livtet.Types.Search.Compose.Policy.{
  render_searches-Exists, render_searches-allowed, HasEveryKind, PartsExist, HasNoUserDefined,
}

abbrev at_noon : Clock
at_noon = record {
  Instant = ℕ;
  epoch = 0;
  add = λ t n. t + n;
  sub = λ t n. t - n;
  midnight = λ t. t;
  is_monday = λ _. true;
  year_of = λ _. pos 2024;
  month_of = λ _. 1;
  replace_day = λ _ t. some t;
  replace_month = λ _ t. some t;
  replace_year = λ _ t. some t;
  rfc3339 = λ _. some (codes "noon");
  unix_text = λ _. [];
}

abbrev parser : Text → UserInputAst Unit × Bool
unfolding field_exists
parser s = (field_exists s, false)

abbrev show : Text → Text
show id = id

abbrev library : ResourceLookup
library = record { exists = λ _ _. some true; names = λ _ _. some [] }

abbrev axes : List ResourceKind
axes = author ∷ genre ∷ subject ∷ series ∷ publisher ∷ tag ∷ []

abbrev by_somebody : SavedSearchKind
by_somebody = and_of (
    more_kinds (categorization (by_author (1 ∷ [])))
      (more_kinds (text (by_title (codes "dune"))) no_kinds))

abbrev shelf : SavedSearches
shelf = record {
  children = record { id = []; definition = by_somebody } ∷ [];
  options = record { max_depth = 4; allow_user_defined = false };
}

abbrev shelf_query : UserInputAst Unit
unfolding field_term_exact and_clause or_clause
shelf_query = and_clause (
    or_clause (
      and_clause (
        field_term_exact (codes "author_id") (1 ∷ [])
        ∷ field_term_exact (codes "title") (codes "dune")
        ∷ [])
      ∷ [])
    ∷ [])

render_shelf : render_searches parser show axes library at_noon 0 shelf [] ≡ ok shelf_query
unfolding render_searches render_within check_stale stale_of ids_of kind_text text_eq all_refs
    collect_refs collect_all referenced_ids resolve_names names_of render_children
    into_ast_with_names into_asts categorization_ast hybrid name_of text_ast field_term_exact
    and_clause or_clause contains_user_defined any_user_defined compose check_depth nesting_depth
    deepest substitute_placeholders substitute_children substitute_leaf substitute_literal
    substitute_in_phrase substitute_loop split_dollars strip_prefix parser hybrid_arms
render_shelf = refl

today_substituted :
    substitute_in_phrase at_noon 0 [] (codes "since $$today$$!") ≡ replaced (codes "since noon!")
unfolding substitute_in_phrase substitute_loop split_dollars strip_prefix resolve_token resolve_name
    time_text map_syntax parse_placeholder parse_inner inner from_str parse_trimmed parse_token
    find_token reserved_token text_eq trim trim_start is_whitespace
today_substituted = refl

unclosed_kept : substitute_in_phrase at_noon 0 [] (codes "$$today$$ $$") ≡ kept
unfolding substitute_in_phrase substitute_loop split_dollars strip_prefix resolve_token resolve_name
    time_text map_syntax parse_placeholder parse_inner inner from_str parse_trimmed parse_token
    find_token reserved_token text_eq trim trim_start is_whitespace
unclosed_kept = refl

read_escapes-escape_example :
    (read_escapes (escape (codes "a: b"))
      ≡ escaped_by (λ c. is_query_syntax c || is_delimiter_whitespace c) (codes "a: b"))
    × (read_escapes (escape_query_text (codes "a: b")) ≡ escaped_by is_query_syntax (codes "a: b"))
read_escapes-escape_example = read_escapes-escape (codes "a: b")

identifier_ast-canonical_example :
    identifier_ast {X = Unit} (by isbn hyphened) ≡ identifier_ast (by isbn (codes "9780306406157"))
identifier_ast-canonical_example = identifier_ast-canonical Unit hyphened canonical parse_isbn10

into_ast_with_names-Agrees_example :
    into_ast_with_names parser show
      (((author, 1 ∷ []), codes "Herbert") ∷ ((tag, []), []) ∷ [])
      by_somebody
    ≡ into_ast_with_names parser show (((author, 1 ∷ []), codes "Herbert") ∷ []) by_somebody
unfolding collect_refs collect_all referenced_ids name_of ref_eq kind_text text_eq
into_ast_with_names-Agrees_example =
    into_ast_with_names-Agrees parser show
      (((author, 1 ∷ []), codes "Herbert") ∷ ((tag, []), []) ∷ [])
      (((author, 1 ∷ []), codes "Herbert") ∷ []) by_somebody (refl, tt)

from_str-print_name_example :
    from_str (print_name (date_offset day minus 30)) ≡ ok (date_offset day minus 30)
unfolding IsPrintable
from_str-print_name_example =
    from_str-print_name (date_offset day minus 30) (omega arith, omega arith)

nesting_depth-substitute_placeholders_example :
    nesting_depth (substitute_placeholders at_noon 0 [] shelf_query) ≡ nesting_depth shelf_query
nesting_depth-substitute_placeholders_example =
    nesting_depth-substitute_placeholders at_noon 0 [] Unit shelf_query

substitute_in_phrase-ends_example : substitute_in_phrase at_noon 0 [] (codes "$$$$$") ≢ out_of_fuel
substitute_in_phrase-ends_example = substitute_in_phrase-ends at_noon 0 [] (codes "$$$$$")

axes-HasEveryKind : HasEveryKind library axes
axes-HasEveryKind P h author = h.0
axes-HasEveryKind P h genre = h.1.0
axes-HasEveryKind P h subject = h.1.1.0
axes-HasEveryKind P h series = h.1.1.1.0
axes-HasEveryKind P h publisher = h.1.1.1.1.0
axes-HasEveryKind P h tag = h.1.1.1.1.1.0

render_searches-Exists_example : All (PartsExist parser show axes library at_noon 0) shelf.children
render_searches-Exists_example =
    render_searches-Exists parser show axes library at_noon 0 shelf [] shelf_query axes-HasEveryKind
      render_shelf

render_searches-allowed_example :
    All (HasNoUserDefined parser show axes library at_noon 0) shelf.children
render_searches-allowed_example =
    render_searches-allowed parser show axes library at_noon 0 shelf [] shelf_query refl
      render_shelf

escaped : escape (codes "a\"b/c d\\") ≡ codes "a\\\"b\\/c\\ d\\\\"
unfolding escape is_query_syntax is_delimiter_whitespace
escaped = refl
