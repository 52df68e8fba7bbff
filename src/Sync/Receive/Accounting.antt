-- ===== src/Sync/Receive/Accounting.antt =====
-- `apply_changes` accounts for every change that it is given, and takes parents first.
use mathlib.Core.List.{Perm}
use livtet.Base.{
  ℕ, ◌+◌, Option, none, some, List, [], ◌∷◌, ◌≡◌, sym, ap, ◌∙◌, arith, leb, length, length-append,
  Bool-cases, inl, inr,
}
use livtet.Base.Text.{Text, codes, text_eq}
use livtet.Base.Int.{ltb_ℤ}
use livtet.Base.Result.{ok, >>=-eq-ok, ok-injective}
use livtet.Base.Sort.{sort_by-perm, length-sort_by, IsSortedBy, sort_by-IsSortedBy}
use livtet.Sync.Types.{SyncChange}
use livtet.Sync.Entities.{apply_rank}
use livtet.Sync.Json.{Env}
use livtet.Sync.Store.{Db}
use livtet.Sync.Store.Laws.{fetch-insert_conflict}
use livtet.Sync.Push.{record_conflict, Progress}
use livtet.Sync.Receive.{
  InventoryMap, ApplyOutcome, Receipt, receive_row, receive_checked, receive_known, receive_typed,
  receive_one, receive_all, ordered, apply_changes, is_operation,
}

length-record_conflict :
    {T : Type 0} (now : Text) (r c : SyncChange) (s : Progress T)
    → length (record_conflict now r c s).1 ≡ length s.1 + 1
unfolding record_conflict
length-record_conflict now r c s =
    let (k, e) = fetch-insert_conflict now c r.payload s.0 in rw e (length-append s.1 (k ∷ []))

module _ (env : Env) (now : Text) where
  abbrev total : Receipt env now → ℕ
  total s = s.1.applied + s.1.skipped + length s.1.conflicts

  total-receive_checked :
      (m : InventoryMap) (table : Text) (c : SyncChange) (s s' : Receipt env now)
      → receive_checked env now m table c s ≡ ok s'
      → total s' ≡ total s + 1
  unfolding receive_checked
  total-receive_checked m table c s s' h = elim (Bool-cases (is_operation c.operation)) [
    | inl e ↦
        let (d, a, k) = >>=-eq-ok (receive_row env now m table c s.0) _ (rw e at h) in
        ap total (ok-injective (sym k)) ∙ omega arith
    | inr e ↦ ap total (ok-injective (sym (rw e at h))) ∙ omega arith
  ]

  total-receive_known :
      (m : InventoryMap) (table : Text) (c : SyncChange) (r : Option SyncChange)
      (s s' : Receipt env now)
      → receive_known env now m table c r s ≡ ok s'
      → total s' ≡ total s + 1
  unfolding receive_known
  total-receive_known m table c none s s' h = total-receive_checked m table c s s' h
  total-receive_known m table c (some r) s s' h = elim (Bool-cases (ltb_ℤ c.version r.version)) [
    | inl e ↦
        ap total (ok-injective (sym (rw e at h)))
        ∙ omega (arith, length-record_conflict now r c (s.0, s.1.conflicts))
    | inr e ↦ total-receive_checked m table c s s' (rw e at h)
  ]

  total-receive_typed :
      (m : InventoryMap) (c : SyncChange) (o : Option Text) (s s' : Receipt env now)
      → receive_typed env now m c o s ≡ ok s'
      → total s' ≡ total s + 1
  unfolding receive_typed
  total-receive_typed m c none s s' h = ap total (ok-injective (sym h)) ∙ omega arith
  total-receive_typed m c (some t) s s' h = total-receive_known m t c _ s s' h

  total-receive_one :
      (m : InventoryMap) (c : SyncChange) (s s' : Receipt env now)
      → receive_one env now m c s ≡ ok s'
      → total s' ≡ total s + 1
  unfolding receive_one
  total-receive_one m c s s' h = elim (Bool-cases (text_eq c.entity_type (codes "file_offer"))) [
    | inl e ↦ ap total (ok-injective (sym (rw e at h))) ∙ omega arith
    | inr e ↦ total-receive_typed m c _ s s' (rw e at h)
  ]

  total-receive_all :
      (m : InventoryMap) (cs : List SyncChange) (s s' : Receipt env now)
      → receive_all env now m cs s ≡ ok s'
      → total s' ≡ total s + length cs
  unfolding receive_all
  total-receive_all m [] s s' h = ap total (ok-injective (sym h)) ∙ omega arith
  total-receive_all m (c ∷ cs) s s' h =
      let (x, a, k) = >>=-eq-ok (receive_one env now m c s) (receive_all env now m cs) h in
      omega (arith, total-receive_one m c s x a, total-receive_all m cs x s' k)

  -- Every change given to a successful `apply_changes` is counted once: as applied, as skipped, or
  -- by a conflict.
  pub total-apply_changes :
      (m : InventoryMap) (cs : List SyncChange) (d d' : Db env.Tables) (o : ApplyOutcome)
      → apply_changes env now m cs d ≡ ok (d', o)
      → o.applied + o.skipped + length o.conflicts ≡ length cs
  unfolding apply_changes ordered
  total-apply_changes m cs d d' o h =
      total-receive_all m _ _ (d', o) h
      ∙ omega (
        arith,
        length-sort_by
            (λ (a b : SyncChange). leb (apply_rank a.entity_type) (apply_rank b.entity_type)) cs,
      )

-- The order of application is a permutation of the changes in which no change comes after one of a
-- higher rank.
pub ordered-IsSortedBy :
    (cs : List SyncChange)
    → Perm (ordered cs) cs
      × IsSortedBy (λ a b. leb (apply_rank a.entity_type) (apply_rank b.entity_type)) (ordered cs)
unfolding ordered
ordered-IsSortedBy cs =
    (sort_by-perm _ cs, sort_by-IsSortedBy _ (λ x y h. ground arith) (λ x y z h k. ground arith) cs)
