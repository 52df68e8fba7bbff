-- ===== src/Sync/Store/Laws.antt =====
-- What the statements of Store guarantee.
use livtet.Base.{
  ℕ, ◌+◌, Bool, true, ◌&&◌, ◌||◌, Option, none, some, List, [], ◌∷◌, ◌++◌, ◌≡◌, refl, ap, ◌∙◌,
  arith, leb, if◌then◌else◌, any,
}
use livtet.Base.Text.{Text, text_eq_refl}
use livtet.Base.Int.{eqb_ℤ_refl}
use livtet.Base.Result.{ok}
use livtet.Sync.Types.{SyncChange, Conflict}
use livtet.Sync.Store.{
  Db, same_identity, seen, insert_log, echo, echo_all, insert_conflict, fetch_from,
  fetch_latest_conflict, open_conflict, better_conflict,
}

pub any-append {ℓ} :
    {A : Type ℓ} (p : A → Bool) (xs ys : List A) → any p (xs ++ ys) ≡ (any p xs || any p ys)
any-append p [] ys = refl
any-append p (x ∷ xs) ys = ground (arith, any-append p xs ys)

pub seen-append :
    (c : SyncChange) (xs ys : List SyncChange) → seen c xs ≡ true → seen c (xs ++ ys) ≡ true
unfolding seen
seen-append c xs ys h = ground (arith, any-append (same_identity c) xs ys)

pub same_identity_refl : (c : SyncChange) (n : ℕ) → same_identity c (record c { id = n }) ≡ true
unfolding same_identity
same_identity_refl c n = ground (
  arith,
  text_eq_refl c.entity_type,
  text_eq_refl c.entity_id,
  text_eq_refl c.device_id,
  text_eq_refl c.operation,
  eqb_ℤ_refl c.version,
)

pub seen-concat :
    (c : SyncChange) (xs : List SyncChange) (n : ℕ) → seen c (xs ++ record c { id = n } ∷ []) ≡ true
unfolding seen
seen-concat c xs n =
    ground
      (arith, any-append (same_identity c) xs (record c { id = n } ∷ []), same_identity_refl c n)

pub echo-suppressed :
    {T : Type 0} (now : Text) (e : SyncChange) (d : Db T) → d.sync_apply ≡ true → echo now e d ≡ d
unfolding echo
echo-suppressed now e d h = ground arith

-- With `sync_apply` set the audit triggers log nothing.
pub echo_all-suppressed :
    {T : Type 0} (now : Text) (es : List SyncChange) (d : Db T)
    → d.sync_apply ≡ true
    → echo_all now es d ≡ d
unfolding echo_all
echo_all-suppressed now [] d h = refl
echo_all-suppressed now (e ∷ es) d h =
    ap (echo_all now es) (echo-suppressed now e d h) ∙ echo_all-suppressed now es d h

fetch_from-concat :
    (t i : Text) (ks : List Conflict) (k : Conflict) (best : Option Conflict)
    → open_conflict t i k ≡ true
    → (b : Conflict) × (fetch_from t i best (ks ++ k ∷ []) ≡ some b)
unfolding fetch_from
fetch_from-concat t i [] k none h = (k, ground arith)
fetch_from-concat t i [] k (some b) h =
    (if open_conflict t i k && leb b.id k.id then k else b, ground arith)
fetch_from-concat t i (x ∷ ks) k best h = fetch_from-concat t i ks k (better_conflict t i best x) h

-- A conflict that was just recorded leaves one to be fetched.
pub fetch-insert_conflict :
    {T : Type 0} (now : Text) (c : SyncChange) (p : Text) (d : Db T)
    → (k : Conflict) × (fetch_latest_conflict (insert_conflict now c p d).conflicts c ≡ some k)
unfolding fetch_latest_conflict insert_conflict
fetch-insert_conflict now c p d =
    fetch_from-concat c.entity_type c.entity_id d.conflicts _ none
      (unfold open_conflict in ground (arith, text_eq_refl c.entity_type, text_eq_refl c.entity_id))

-- A successful insert appends the row under the next id.
pub insert_log-eq-ok :
    {T : Type 0} (c : SyncChange) (d : Db T) {d' : Db T}
    → insert_log c d ≡ ok d'
    → d' ≡ record d { log = d.log ++ record c { id = d.next_id } ∷ []; next_id = d.next_id + 1 }
unfolding insert_log
insert_log-eq-ok c d h = ground arith
