-- ===== src/Sync/Entities/Agreement.antt =====
-- The `match` of `entity_type_to_table` agrees with the list of `define_syncable_entities!`.
use mathlib.Core.Option
use livtet.Base.{
  none, some, List, [], ◌∷◌, ◌≡◌, refl, ap, ◌∙◌, arith, Bool-cases, Option-cases, inl, inr,
}
use livtet.Base.Text.{Text, text_eq, text_eq_iff}
use livtet.Sync.Entities.{
  SyncableEntityKind, work, edition, series_entry, digital_inventory, owned_edition, edition_loan,
  annotation, reading_list, reading_list_book, reading_progress, work_author, work_tag, work_genre,
  work_subject, work_publisher, edition_author, edition_tag, edition_genre, edition_subject,
  edition_publisher, edition_group, entity_type_name, table_name, all_kinds, find_kind,
  entity_type_to_table,
}

-- Each kind is found by its name.
pub find_kind-entity_type_name :
    (k : SyncableEntityKind) → find_kind all_kinds (entity_type_name k) ≡ some k
unfolding find_kind entity_type_name text_eq
find_kind-entity_type_name work = refl
find_kind-entity_type_name edition = refl
find_kind-entity_type_name series_entry = refl
find_kind-entity_type_name digital_inventory = refl
find_kind-entity_type_name owned_edition = refl
find_kind-entity_type_name edition_loan = refl
find_kind-entity_type_name annotation = refl
find_kind-entity_type_name reading_list = refl
find_kind-entity_type_name reading_list_book = refl
find_kind-entity_type_name reading_progress = refl
find_kind-entity_type_name work_author = refl
find_kind-entity_type_name work_tag = refl
find_kind-entity_type_name work_genre = refl
find_kind-entity_type_name work_subject = refl
find_kind-entity_type_name work_publisher = refl
find_kind-entity_type_name edition_author = refl
find_kind-entity_type_name edition_tag = refl
find_kind-entity_type_name edition_genre = refl
find_kind-entity_type_name edition_subject = refl
find_kind-entity_type_name edition_publisher = refl
find_kind-entity_type_name edition_group = refl

table-entity_type_name :
    (k : SyncableEntityKind) → entity_type_to_table (entity_type_name k) ≡ some (table_name k)
unfolding entity_type_to_table entity_type_name table_name text_eq
table-entity_type_name work = refl
table-entity_type_name edition = refl
table-entity_type_name series_entry = refl
table-entity_type_name digital_inventory = refl
table-entity_type_name owned_edition = refl
table-entity_type_name edition_loan = refl
table-entity_type_name annotation = refl
table-entity_type_name reading_list = refl
table-entity_type_name reading_list_book = refl
table-entity_type_name reading_progress = refl
table-entity_type_name work_author = refl
table-entity_type_name work_tag = refl
table-entity_type_name work_genre = refl
table-entity_type_name work_subject = refl
table-entity_type_name work_publisher = refl
table-entity_type_name edition_author = refl
table-entity_type_name edition_tag = refl
table-entity_type_name edition_genre = refl
table-entity_type_name edition_subject = refl
table-entity_type_name edition_publisher = refl
table-entity_type_name edition_group = refl

find_kind_sound :
    (ks : List SyncableEntityKind) (t : Text) (k : SyncableEntityKind)
    → find_kind ks t ≡ some k
    → t ≡ entity_type_name k
unfolding find_kind
find_kind_sound [] t k h = cc
find_kind_sound (x ∷ ks) t k h = elim (Bool-cases (text_eq t (entity_type_name x))) [
  | inl e ↦ (text_eq_iff t (entity_type_name x)).0 e ∙ ap entity_type_name (some_inj (rw e at h))
  | inr e ↦ find_kind_sound ks t k (rw e at h)
]
  where
    some_inj : {a b : SyncableEntityKind} → some a ≡ some b → a ≡ b
    some_inj q = cc

no_table : (t : Text) → find_kind all_kinds t ≡ none → entity_type_to_table t ≡ none
unfolding find_kind entity_type_name entity_type_to_table
no_table t h = ground arith

-- A text has a table exactly if it names a registered entity, and then it is that entity's table.
pub entity_type_to_table-find_kind :
    (t : Text) → entity_type_to_table t ≡ Option.map table_name (find_kind all_kinds t)
entity_type_to_table-find_kind t = elim (Option-cases (find_kind all_kinds t)) [
  | inl e ↦ no_table t e ∙ rw e
  | inr (k, e) ↦
      ap entity_type_to_table (find_kind_sound all_kinds t k e) ∙ table-entity_type_name k ∙ rw e
]
