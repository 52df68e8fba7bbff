-- ===== src/Types/Search/Dsl.antt =====
-- livtet-types/src/search/dsl.rs: the query trees of tantivy, as far as the source builds and
-- matches on them, and the escapes.
pub mod Escape
use livtet.Base.{
  ℕ, suc, ◌+◌, Bool, true, false, ◌||◌, Option, none, some, List, [], ◌∷◌, ◌++◌, ◌==◌,
  if◌then◌else◌, any,
}
use livtet.Base.Text.{Text, codes}

pub data Occur : Type 0 where
  should must must_not : Occur

pub data Delimiter : Type 0 where
  single_quotes double_quotes undelimited : Delimiter

pub record UserInputLiteral : Type 0 where
  pub field_name : Option Text
  pub phrase : Text
  pub delimiter : Delimiter
  pub slop : ℕ
  pub prefix : Bool

-- `UserInputBound`, of which the source builds inclusive ones
pub data UserInputBound : Type 0 where
  inclusive : Text → UserInputBound

-- `X` stands for the score of a boost, and for the leaves that only tantivy's parser makes.
pub data UserInputLeaf (X : Type 0) : Type 0 where
  literal : UserInputLiteral → UserInputLeaf X
  set : Option Text → List Text → UserInputLeaf X
  exists : Text → UserInputLeaf X
  range : Option Text → UserInputBound → UserInputBound → UserInputLeaf X
  parsed : X → UserInputLeaf X

mutual
  pub data UserInputAst (X : Type 0) : Type 0 where
    clause : Clauses X → UserInputAst X
    boost : UserInputAst X → X → UserInputAst X
    leaf : UserInputLeaf X → UserInputAst X

  -- the children of a clause
  pub data Clauses (X : Type 0) : Type 0 where
    nil : Clauses X
    cons : Option Occur → UserInputAst X → Clauses X → Clauses X

module _ {X : Type 0} where
  unfoldable pub field_term : Text → Text → UserInputAst X
  field_term field value = leaf (
      literal (record {
        field_name = some field;
        phrase = value;
        delimiter = undelimited;
        slop = 0;
        prefix = false;
      }))

  unfoldable pub field_term_exact : Text → Text → UserInputAst X
  field_term_exact field value = leaf (
      literal (record {
        field_name = some field;
        phrase = value;
        delimiter = double_quotes;
        slop = 0;
        prefix = false;
      }))

  unfoldable pub field_term_undelimited : Text → Text → UserInputAst X
  unfolding field_term
  field_term_undelimited = field_term

  unfoldable pub field_term_exact_set : Text → List Text → UserInputAst X
  field_term_exact_set field values = leaf (set (some field) values)

  unfoldable pub field_exists : Text → UserInputAst X
  field_exists field = leaf (exists field)

  unfoldable pub range_inclusive : Text → Text → Text → UserInputAst X
  range_inclusive field lower upper = leaf (range (some field) (inclusive lower) (inclusive upper))

  -- each child with one `Occur`
  abbrev pub children_of : Occur → List (UserInputAst X) → Clauses X
  children_of o [] = nil
  children_of o (c ∷ cs) = cons (some o) c (children_of o cs)

  unfoldable pub and_clause : List (UserInputAst X) → UserInputAst X
  and_clause cs = clause (children_of must cs)

  unfoldable pub or_clause : List (UserInputAst X) → UserInputAst X
  or_clause cs = clause (children_of should cs)

  unfoldable pub must_not_clause : UserInputAst X → UserInputAst X
  must_not_clause c = clause (cons (some must_not) c nil)

unfoldable pub is_query_syntax : ℕ → Bool
is_query_syntax c = any (◌==◌ c) (codes "\\+-!(){}[]^\"~*?:/")

unfoldable pub is_delimiter_whitespace : ℕ → Bool
is_delimiter_whitespace c = c == b' ' || c == 9 || c == 10 || c == 13

unfoldable pub escape_query_text : Text → Text
escape_query_text [] = []
escape_query_text (c ∷ s) =
    let rest = escape_query_text s in if is_query_syntax c then b'\\' ∷ c ∷ rest else c ∷ rest

unfoldable pub escape : Text → Text
escape [] = []
escape (c ∷ s) =
    let rest = escape s in
    if is_query_syntax c || is_delimiter_whitespace c then b'\\' ∷ c ∷ rest else c ∷ rest
