-- ===== src/Sync/Query/Resolution.antt =====
-- Resolving a conflict against the list of open conflicts.
use livtet.Base.{
  ℕ, Bool, not, Option, List, [], ◌∷◌, ◌==◌, ◌≡◌, refl, ap, sym, ◌∙◌, keep, arith, any,
}
use livtet.Base.Text.{Text}
use livtet.Base.Sort.{sort_by, keep-sort_by}
use livtet.Sync.Types.{Conflict}
use livtet.Sync.Query.{
  unresolved, list_conflicts, update_conflicts, resolve_conflict, positive, newest_first,
}

-- the conflicts with another id
abbrev pub others : ℕ → List Conflict → List Conflict
others id = keep (λ (k : Conflict). not (k.id == id))

abbrev pub has_id : ℕ → List Conflict → Bool
has_id id = any (λ (k : Conflict). k.id == id)

module _ (id : ℕ) (resolution : Text) (merged : Option Text) where
  unresolved-update_conflicts :
      (ks : List Conflict)
      → unresolved (update_conflicts id resolution merged ks).0 ≡ others id (unresolved ks)
  unfolding update_conflicts
  unresolved-update_conflicts [] = refl
  unresolved-update_conflicts (k ∷ ks) = ground (arith, unresolved-update_conflicts ks)

  affected-update_conflicts :
      (ks : List Conflict)
      → positive (update_conflicts id resolution merged ks).1 ≡ has_id id (unresolved ks)
  unfolding update_conflicts
  affected-update_conflicts [] = refl
  affected-update_conflicts (k ∷ ks) = ground (arith, affected-update_conflicts ks)

  -- Resolving an id reports success exactly if an open conflict has that id, and afterwards the
  -- list of open conflicts is the one from before without that id.
  pub list_conflicts-resolve_conflict :
      (ks : List Conflict)
      → ((resolve_conflict id resolution merged ks).1 ≡ has_id id (unresolved ks))
        × (list_conflicts (resolve_conflict id resolution merged ks).0
            ≡ others id (list_conflicts ks))
  unfolding resolve_conflict list_conflicts
  list_conflicts-resolve_conflict ks = (
    affected-update_conflicts ks,
    ap (sort_by newest_first) (unresolved-update_conflicts ks)
        ∙ sym (
            keep-sort_by newest_first (λ x y h. ground arith) (λ x y z h k. ground arith)
              (λ (k : Conflict). not (k.id == id)) (unresolved ks)),
  )
