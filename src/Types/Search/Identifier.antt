-- ===== src/Types/Search/Identifier.antt =====
-- livtet-types/src/search/identifier_search.rs: filters on identifiers. The macro's `By<Kind>` and
-- `Has<Kind>` are two constructors on a kind.
use livtet.Base.{◌≡◌, refl, Bool, true, false, some, ◌++◌, if◌then◌else◌}
use livtet.Base.Text.{Text, codes, text_eq}
use livtet.Base.Result.{Result, ok, err}
use livtet.Types.Isbn.{Isbn, IsbnError, parse, to_string}
use livtet.Types.Isbn.Canonical.{parse-to_string}
use livtet.Types.Search.Dsl.{
  UserInputAst, leaf, literal, undelimited, field_exists, must_not_clause,
}

pub data IdentifierKind : Type 0 where
  isbn oclc lccn doi web opds custom : IdentifierKind

pub data IdentifierSearch : Type 0 where
  by : IdentifierKind → Text → IdentifierSearch
  has : IdentifierKind → Bool → IdentifierSearch

unfoldable pub dsl_prefix : IdentifierKind → Text
dsl_prefix isbn = codes "isbn"
dsl_prefix oclc = codes "oclc"
dsl_prefix lccn = codes "lccn"
dsl_prefix doi = codes "doi"
dsl_prefix web = codes "web"
dsl_prefix opds = codes "opds"
dsl_prefix custom = codes "custom"

-- `.map(|i| i.as_str().to_string()).unwrap_or(needle)`
abbrev pub canonical_or : Text → Result IsbnError Isbn → Text
canonical_or needle (ok i) = to_string i
canonical_or needle (err _) = needle

-- the value that a `By` filter looks for
unfoldable pub identifier_value : IdentifierKind → Text → Text
identifier_value kind needle =
    if text_eq (dsl_prefix kind) (codes "isbn") then canonical_or needle (parse needle) else needle

module _ {X : Type 0} where
  unfoldable pub identifier_ast : IdentifierSearch → UserInputAst X
  unfolding dsl_prefix field_exists must_not_clause
  identifier_ast (by kind needle) = leaf (
      literal (record {
        field_name = some (codes "identifier_values:" ++ dsl_prefix kind);
        phrase = identifier_value kind needle;
        delimiter = undelimited;
        slop = 0;
        prefix = false;
      }))
  identifier_ast (has kind true) = field_exists (codes "identifier_values:" ++ dsl_prefix kind)
  identifier_ast (has kind false) =
      must_not_clause (field_exists (codes "identifier_values:" ++ dsl_prefix kind))

-- Any spelling of an ISBN and its canonical form give the same query.
pub identifier_ast-canonical :
    (X : Type 0) (s : Text) (i : Isbn)
    → parse s ≡ ok i
    → identifier_ast {X = X} (by isbn s) ≡ identifier_ast (by isbn (to_string i))
unfolding identifier_ast identifier_value dsl_prefix text_eq
identifier_ast-canonical X s i h = rw h (rw (parse-to_string s i h) refl)
