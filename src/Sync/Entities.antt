-- ===== src/Sync/Entities.antt =====
-- livtet-sync/src/types/syncable_entity.rs: the registered entity types and their tables, and the
-- ranks of livtet-sync/src/engine.rs.
pub mod Agreement
use livtet.Base.{ℕ, Bool, true, false, ◌||◌, Option, none, some, List, [], ◌∷◌, if◌then◌else◌}
use livtet.Base.Text.{Text, codes, text_eq}

-- One constructor for each entry of `define_syncable_entities!`.
pub data SyncableEntityKind : Type 0 where
  work edition series_entry digital_inventory owned_edition edition_loan : SyncableEntityKind
  annotation reading_list reading_list_book reading_progress work_author : SyncableEntityKind
  work_tag work_genre work_subject work_publisher edition_author : SyncableEntityKind
  edition_tag edition_genre edition_subject edition_publisher edition_group : SyncableEntityKind

unfoldable pub entity_type_name : SyncableEntityKind → Text
entity_type_name work = codes "work"
entity_type_name edition = codes "edition"
entity_type_name series_entry = codes "series_entry"
entity_type_name digital_inventory = codes "digital_inventory"
entity_type_name owned_edition = codes "owned_edition"
entity_type_name edition_loan = codes "edition_loan"
entity_type_name annotation = codes "annotation"
entity_type_name reading_list = codes "reading_list"
entity_type_name reading_list_book = codes "reading_list_book"
entity_type_name reading_progress = codes "reading_progress"
entity_type_name work_author = codes "work_author"
entity_type_name work_tag = codes "work_tag"
entity_type_name work_genre = codes "work_genre"
entity_type_name work_subject = codes "work_subject"
entity_type_name work_publisher = codes "work_publisher"
entity_type_name edition_author = codes "edition_author"
entity_type_name edition_tag = codes "edition_tag"
entity_type_name edition_genre = codes "edition_genre"
entity_type_name edition_subject = codes "edition_subject"
entity_type_name edition_publisher = codes "edition_publisher"
entity_type_name edition_group = codes "edition_group"

unfoldable pub table_name : SyncableEntityKind → Text
table_name work = codes "works"
table_name edition = codes "editions"
table_name series_entry = codes "series_entries"
table_name digital_inventory = codes "digital_inventory"
table_name owned_edition = codes "owned_editions"
table_name edition_loan = codes "editions_loans"
table_name annotation = codes "annotations"
table_name reading_list = codes "reading_lists"
table_name reading_list_book = codes "reading_list_book"
table_name reading_progress = codes "reading_progress"
table_name work_author = codes "work_authors"
table_name work_tag = codes "work_tags"
table_name work_genre = codes "work_genres"
table_name work_subject = codes "work_subjects"
table_name work_publisher = codes "work_publishers"
table_name edition_author = codes "edition_authors"
table_name edition_tag = codes "edition_tags"
table_name edition_genre = codes "edition_genres"
table_name edition_subject = codes "edition_subjects"
table_name edition_publisher = codes "edition_publishers"
table_name edition_group = codes "edition_groups"

abbrev pub all_kinds : List SyncableEntityKind
all_kinds =
    work ∷ edition ∷ series_entry ∷ digital_inventory ∷ owned_edition ∷ edition_loan ∷ annotation
    ∷ reading_list ∷ reading_list_book ∷ reading_progress ∷ work_author ∷ work_tag ∷ work_genre
    ∷ work_subject ∷ work_publisher ∷ edition_author ∷ edition_tag ∷ edition_genre ∷ edition_subject
    ∷ edition_publisher ∷ edition_group ∷ []

-- The `match entity_type` that the macro makes: the first kind whose name is the text.
unfoldable pub find_kind : List SyncableEntityKind → Text → Option SyncableEntityKind
find_kind [] t = none
find_kind (k ∷ ks) t =
    let rest = find_kind ks t in if text_eq t (entity_type_name k) then some k else rest

-- A `match` on a text with literal patterns: the first pattern that is equal decides.
unfoldable pub match_text {ℓ} : {A : Type ℓ} → List (Text × A) → A → Text → A
match_text [] d t = d
match_text ((p, a) ∷ arms) d t = let rest = match_text arms d t in if text_eq t p then a else rest

-- `entity_type_to_table`
abbrev pub table_arms : List (Text × Option Text)
table_arms =
    (codes "annotation", some (codes "annotations"))
    ∷ (codes "digital_inventory", some (codes "digital_inventory"))
    ∷ (codes "edition", some (codes "editions"))
    ∷ (codes "edition_author", some (codes "edition_authors"))
    ∷ (codes "edition_genre", some (codes "edition_genres"))
    ∷ (codes "edition_group", some (codes "edition_groups"))
    ∷ (codes "edition_loan", some (codes "editions_loans"))
    ∷ (codes "edition_publisher", some (codes "edition_publishers"))
    ∷ (codes "edition_subject", some (codes "edition_subjects"))
    ∷ (codes "edition_tag", some (codes "edition_tags"))
    ∷ (codes "owned_edition", some (codes "owned_editions"))
    ∷ (codes "reading_list", some (codes "reading_lists"))
    ∷ (codes "reading_list_book", some (codes "reading_list_book"))
    ∷ (codes "reading_progress", some (codes "reading_progress"))
    ∷ (codes "series_entry", some (codes "series_entries"))
    ∷ (codes "work", some (codes "works"))
    ∷ (codes "work_author", some (codes "work_authors"))
    ∷ (codes "work_genre", some (codes "work_genres"))
    ∷ (codes "work_publisher", some (codes "work_publishers"))
    ∷ (codes "work_subject", some (codes "work_subjects"))
    ∷ (codes "work_tag", some (codes "work_tags"))
    ∷ []

unfoldable pub entity_type_to_table : Text → Option Text
unfolding match_text
entity_type_to_table = match_text table_arms none

-- `apply_rank`: parents before the rows that refer to them
abbrev pub rank_arms : List (Text × ℕ)
rank_arms =
    (codes "work", 0)
    ∷ (codes "edition_group", 0)
    ∷ (codes "reading_list", 0)
    ∷ (codes "edition", 1)
    ∷ (codes "digital_inventory", 2)
    ∷ (codes "owned_edition", 2)
    ∷ (codes "work_author", 2)
    ∷ (codes "work_genre", 2)
    ∷ (codes "work_subject", 2)
    ∷ (codes "work_publisher", 2)
    ∷ (codes "work_tag", 2)
    ∷ (codes "edition_author", 2)
    ∷ (codes "edition_genre", 2)
    ∷ (codes "edition_subject", 2)
    ∷ (codes "edition_publisher", 2)
    ∷ (codes "edition_tag", 2)
    ∷ (codes "series_entry", 2)
    ∷ (codes "reading_list_book", 2)
    ∷ (codes "edition_loan", 3)
    ∷ (codes "annotation", 3)
    ∷ (codes "reading_progress", 4)
    ∷ []

unfoldable pub apply_rank : Text → ℕ
unfolding match_text
apply_rank = match_text rank_arms 5
