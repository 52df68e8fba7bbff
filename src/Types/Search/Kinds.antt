-- ===== src/Types/Search/Kinds.antt =====
-- The filters that a saved search is made of: limit.rs, format.rs, availability.rs, ordering.rs,
-- text.rs, categorization.rs and stale.rs of livtet-types/src/search.
use livtet.Base.{
  ℕ, zero, suc, ◌+◌, ◌/◌, ◌%◌, Bool, false, ◌&&◌, Option, none, some, List, [], ◌∷◌, ◌==◌,
  if◌then◌else◌,
}
use livtet.Base.Text.{Text, codes, text_eq}
use livtet.Base.Int.{ℤ, pos, negsuc}
use livtet.Types.Search.Dsl.{
  UserInputAst, leaf, literal, undelimited, field_term, field_term_exact, field_term_undelimited,
  field_exists, range_inclusive, or_clause, must_not_clause,
}

-- the decimal digits before those of `done`, on fuel for as many digits
unfoldable pub digits_onto : ℕ → ℕ → Text → Text
digits_onto zero n done = done
digits_onto (suc fuel) n done =
    let digit = b'0' + n % 10 in
    let rest = digits_onto fuel (n / 10) (digit ∷ done) in
    if n / 10 == 0 then digit ∷ done else rest

-- `to_string` of an unsigned integer; twenty digits hold 64 bits
unfoldable pub show_nat : ℕ → Text
unfolding digits_onto
show_nat n = digits_onto 20 n []

-- `i32::to_string`
unfoldable pub show_int : ℤ → Text
unfolding show_nat
show_int (pos n) = show_nat n
show_int (negsuc n) = b'-' ∷ show_nat (suc n)

pub data ResourceKind : Type 0 where
  author genre subject series publisher tag : ResourceKind

unfoldable pub kind_text : ResourceKind → Text
kind_text author = codes "author"
kind_text genre = codes "genre"
kind_text subject = codes "subject"
kind_text series = codes "series"
kind_text publisher = codes "publisher"
kind_text tag = codes "tag"

abbrev pub kind_eq : ResourceKind → ResourceKind → Bool
kind_eq a b = text_eq (kind_text a) (kind_text b)

-- the 16 bytes
abbrev pub DbId : Type 0
DbId = List ℕ

abbrev pub Ref : Type 0
Ref = ResourceKind × DbId

unfoldable pub ref_eq : Ref → Ref → Bool
ref_eq a b = kind_eq a.0 b.0 && text_eq a.1 b.1

-- `HashMap<(ResourceKind, DbId), String>`, the newest binding first
abbrev pub Names : Type 0
Names = List (Ref × Text)

unfoldable pub name_of : Ref → Names → Option Text
unfolding ref_eq
name_of r [] = none
name_of r ((k, t) ∷ m) = let rest = name_of r m in if ref_eq k r then some t else rest

pub data LimitSearch : Type 0 where
  by_year : ℤ → LimitSearch
  by_year_range : (lower upper : ℤ) → LimitSearch
  by_date_added : (from to : Text) → LimitSearch
  by_rating : ℕ → LimitSearch
  by_series_index : ℕ → LimitSearch
  by_file_size : ℕ → LimitSearch
  by_page_count : ℕ → LimitSearch

pub data FormatSearch : Type 0 where
  by_format : Text → FormatSearch
  by_language : Text → FormatSearch
  by_item_type : Text → FormatSearch
  by_read_status : Text → FormatSearch

pub data AvailabilitySearch : Type 0 where
  has_cover : Bool → AvailabilitySearch
  has_notes : Bool → AvailabilitySearch
  has_attachments : Bool → AvailabilitySearch
  has_full_text : Bool → AvailabilitySearch
  has_inventory : Bool → AvailabilitySearch

pub data OrderingSearch : Type 0 where
  most_recently_added most_recently_updated recently_read recently_imported never_read :
      OrderingSearch

pub data TextSearch : Type 0 where
  by_title : Text → TextSearch
  by_description : Text → TextSearch
  by_notes : Text → TextSearch
  full_text : Text → TextSearch

pub data CategorizationSearch : Type 0 where
  by_author : DbId → CategorizationSearch
  by_genre : DbId → CategorizationSearch
  by_subject : DbId → CategorizationSearch
  by_series : DbId → CategorizationSearch
  by_publisher : DbId → CategorizationSearch
  by_tag : DbId → CategorizationSearch
  in_collection : DbId → CategorizationSearch

unfoldable pub ordering_marker : OrderingSearch → Text
ordering_marker most_recently_added = codes "ordering:most_recently_added"
ordering_marker most_recently_updated = codes "ordering:most_recently_updated"
ordering_marker recently_read = codes "ordering:recently_read"
ordering_marker recently_imported = codes "ordering:recently_imported"
ordering_marker never_read = codes "ordering:never_read"

unfoldable pub referenced_ids : CategorizationSearch → List Ref
referenced_ids (by_author id) = (author, id) ∷ []
referenced_ids (by_genre id) = (genre, id) ∷ []
referenced_ids (by_subject id) = (subject, id) ∷ []
referenced_ids (by_series id) = (series, id) ∷ []
referenced_ids (by_publisher id) = (publisher, id) ∷ []
referenced_ids (by_tag id) = (tag, id) ∷ []
referenced_ids (in_collection _) = []

module _ {X : Type 0} where
  unfoldable pub limit_ast : LimitSearch → UserInputAst X
  unfolding field_term range_inclusive show_nat show_int
  limit_ast (by_year y) = field_term (codes "published_year") (show_int y)
  limit_ast (by_year_range lo hi) =
      range_inclusive (codes "published_year") (show_int lo) (show_int hi)
  limit_ast (by_date_added lo hi) = range_inclusive (codes "created_at") lo hi
  limit_ast (by_rating n) = field_term (codes "rating") (show_nat n)
  limit_ast (by_series_index n) = field_term (codes "series_index") (show_nat n)
  limit_ast (by_file_size n) = field_term (codes "file_size") (show_nat n)
  limit_ast (by_page_count n) = field_term (codes "page_count") (show_nat n)

  unfoldable pub format_ast : FormatSearch → UserInputAst X
  unfolding field_term
  format_ast (by_format t) = field_term (codes "format") t
  format_ast (by_language t) = field_term (codes "language") t
  format_ast (by_item_type t) = field_term (codes "item_type") t
  format_ast (by_read_status t) = field_term (codes "read_status") t

  arm : Text → Bool → UserInputAst X
  unfolding field_exists must_not_clause
  arm field value = if value then field_exists field else must_not_clause (field_exists field)

  unfoldable pub availability_ast : AvailabilitySearch → UserInputAst X
  unfolding arm
  availability_ast (has_cover v) = arm (codes "cover") v
  availability_ast (has_notes v) = arm (codes "notes") v
  availability_ast (has_attachments v) = arm (codes "attachments") v
  availability_ast (has_full_text v) = arm (codes "full_text") v
  availability_ast (has_inventory v) = arm (codes "inventory_rows") v

  unfoldable pub ordering_ast : OrderingSearch → UserInputAst X
  unfolding ordering_marker
  ordering_ast o = leaf (
      literal (record {
        field_name = some (codes "ordering");
        phrase = ordering_marker o;
        delimiter = undelimited;
        slop = 0;
        prefix = false;
      }))

  unfoldable pub text_ast : TextSearch → UserInputAst X
  unfolding field_term_exact
  text_ast (by_title t) = field_term_exact (codes "title") t
  text_ast (by_description t) = field_term_exact (codes "edition_description") t
  text_ast (by_notes t) = field_term_exact (codes "notes") t
  text_ast (full_text t) = field_term_exact (codes "body") t

  -- `show` is the text form of a ULID.
  module _ (show : DbId → Text) where
    -- `hybrid`, on the name that is known
    unfoldable pub hybrid_arms : Text → Text → DbId → Option Text → UserInputAst X
    unfolding field_term_exact field_term_undelimited or_clause
    hybrid_arms id_field text_field id none = field_term_exact id_field (show id)
    hybrid_arms id_field text_field id (some name) =
        or_clause
          (field_term_exact id_field (show id) ∷ field_term_undelimited text_field name ∷ [])

    unfoldable pub hybrid : ResourceKind → DbId → Names → Text → Text → UserInputAst X
    hybrid kind id names id_field text_field =
        hybrid_arms id_field text_field id (name_of (kind, id) names)

    unfoldable pub categorization_ast : Names → CategorizationSearch → UserInputAst X
    unfolding hybrid field_term_exact
    categorization_ast names (by_author id) =
        hybrid author id names (codes "author_id") (codes "authors")
    categorization_ast names (by_genre id) =
        hybrid genre id names (codes "genre_id") (codes "genres")
    categorization_ast names (by_subject id) =
        hybrid subject id names (codes "subject_id") (codes "subjects")
    categorization_ast names (by_series id) =
        hybrid series id names (codes "series_id") (codes "series")
    categorization_ast names (by_publisher id) =
        hybrid publisher id names (codes "publisher_id") (codes "publishers")
    categorization_ast names (by_tag id) = hybrid tag id names (codes "tag_id") (codes "tags")
    categorization_ast names (in_collection id) = field_term_exact (codes "collection_id") (show id)
