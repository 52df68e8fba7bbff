-- ===== src/Types/Search/Saved/Parts.antt =====
-- livtet-types/src/search/saved_search.rs: the searches that stand inside a saved search, at any depth.
use livtet.Base.{List, [], ◌∷◌, ◌++◌, All}
use livtet.Types.Search.Kinds.{
  author, genre, subject, series, publisher, tag, DbId, Ref, CategorizationSearch, by_author,
  by_genre, by_subject, by_series, by_publisher, by_tag, referenced_ids,
}
use livtet.Types.Search.Saved.{
  SavedSearchKind, SavedSearchKinds, and_of, or_of, not_of, categorization, more_kinds,
  collect_refs, collect_all,
}

mutual
  -- `p` is the search, or stands below one of its combinators
  pub data Part (p : SavedSearchKind) : SavedSearchKind → Type 0 where
    itself : Part p p
    of_and : {ks : SavedSearchKinds} → PartOf p ks → Part p (and_of ks)
    of_or : {ks : SavedSearchKinds} → PartOf p ks → Part p (or_of ks)
    of_not : {k : SavedSearchKind} → Part p k → Part p (not_of k)

  pub data PartOf (p : SavedSearchKind) : SavedSearchKinds → Type 0 where
    first : {k : SavedSearchKind} {ks : SavedSearchKinds} → Part p k → PartOf p (more_kinds k ks)
    other : {k : SavedSearchKind} {ks : SavedSearchKinds} → PartOf p ks → PartOf p (more_kinds k ks)

-- the row that a category search stands for
pub data RefersTo : CategorizationSearch → Ref → Type 0 where
  to_author : (id : DbId) → RefersTo (by_author id) (author, id)
  to_genre : (id : DbId) → RefersTo (by_genre id) (genre, id)
  to_subject : (id : DbId) → RefersTo (by_subject id) (subject, id)
  to_series : (id : DbId) → RefersTo (by_series id) (series, id)
  to_publisher : (id : DbId) → RefersTo (by_publisher id) (publisher, id)
  to_tag : (id : DbId) → RefersTo (by_tag id) (tag, id)

pub All-append_left {ℓ κ} :
    {A : Type ℓ} (P : A → Type κ) (xs ys : List A) → All P (xs ++ ys) → All P xs
All-append_left P [] ys h = tt
All-append_left P (x ∷ xs) ys h = (h.0, All-append_left P xs ys h.1)

pub All-append_right {ℓ κ} :
    {A : Type ℓ} (P : A → Type κ) (xs ys : List A) → All P (xs ++ ys) → All P ys
All-append_right P [] ys h = h
All-append_right P (x ∷ xs) ys h = All-append_right P xs ys h.1

All-referenced_ids :
    (P : Ref → Type 0) {c : CategorizationSearch} {r : Ref}
    → RefersTo c r
    → All P (referenced_ids c)
    → P r
unfolding referenced_ids
All-referenced_ids P (to_author id) h = h.0
All-referenced_ids P (to_genre id) h = h.0
All-referenced_ids P (to_subject id) h = h.0
All-referenced_ids P (to_series id) h = h.0
All-referenced_ids P (to_publisher id) h = h.0
All-referenced_ids P (to_tag id) h = h.0

module _ (P : Ref → Type 0) (p : SavedSearchKind) where
  -- what holds of all collected references holds of those of every part
  mutual
    unfolding collect_refs collect_all

    All-collect_refs :
        {k : SavedSearchKind} → Part p k → All P (collect_refs k) → All P (collect_refs p)
    All-collect_refs itself h = h
    All-collect_refs (of_and q) h = All-collect_all q h
    All-collect_refs (of_or q) h = All-collect_all q h
    All-collect_refs (of_not q) h = All-collect_refs q h

    All-collect_all :
        {ks : SavedSearchKinds} → PartOf p ks → All P (collect_all ks) → All P (collect_refs p)
    All-collect_all (first {k} {ks} q) h =
        All-collect_refs q (All-append_left P (collect_refs k) (collect_all ks) h)
    All-collect_all (other {k} {ks} q) h =
        All-collect_all q (All-append_right P (collect_refs k) (collect_all ks) h)

pub part_reference :
    (P : Ref → Type 0) (k : SavedSearchKind) (c : CategorizationSearch) (r : Ref)
    → All P (collect_refs k)
    → Part (categorization c) k
    → RefersTo c r
    → P r
unfolding collect_refs
part_reference P k c r h q to = All-referenced_ids P to (All-collect_refs P (categorization c) q h)
