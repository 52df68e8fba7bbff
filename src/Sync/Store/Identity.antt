-- ===== src/Sync/Store/Identity.antt =====
-- The rows that `seen` and `latest_change` find, as members of the change log.
use mathlib.Core.List.{Memᴰ}
use livtet.Base.{
  Bool, true, false, ◌||◌, ◌&&◌, Option, none, some, List, [], ◌∷◌, ◌≡◌, refl, sym, ap, ◌∙◌, ◌⊎◌,
  inl, inr, Bool-cases, and_parts, and_intro,
}
use livtet.Base.Text.{Text, text_eq, text_eq_iff}
use livtet.Base.Int.{ltb_ℤ, eqb_ℤ, eqb_ℤ_iff}
use livtet.Sync.Types.{SyncChange}
use livtet.Sync.Store.{same_entity, same_identity, seen, latest_change, latest_from, better_row}
use livtet.Sync.Store.Latest.{AtMost, Newest, latest_change-Newest}

-- a row of this entity
abbrev pub OfEntity : Text → Text → SyncChange → Type 0
OfEntity t i r = (r.entity_type ≡ t) × (r.entity_id ≡ i)

-- a row of the identity of the change
abbrev pub IsRow : SyncChange → SyncChange → Type 0
IsRow c r =
    OfEntity c.entity_type c.entity_id r
    × (r.version ≡ c.version)
    × (r.device_id ≡ c.device_id)
    × (r.operation ≡ c.operation)

-- the log has a row of the identity
abbrev pub Logged : SyncChange → List SyncChange → Type 0
Logged c log = (r : SyncChange) × Memᴰ r log × IsRow c r

-- a row of the entity than which none of its rows is newer
abbrev pub IsLatest : Text → Text → List SyncChange → SyncChange → Type 0
IsLatest t i log r = Memᴰ r log × OfEntity t i r × AtMost t i r.version log

pub same_entity-OfEntity : (t i : Text) (r : SyncChange) → same_entity t i r ≡ true → OfEntity t i r
unfolding same_entity
same_entity-OfEntity t i r h =
    let parts = and_parts (text_eq r.entity_type t) (text_eq r.entity_id i) h in
    ((text_eq_iff r.entity_type t).0 parts.0, (text_eq_iff r.entity_id i).0 parts.1)

pub OfEntity-same_entity : (t i : Text) (r : SyncChange) → OfEntity t i r → same_entity t i r ≡ true
unfolding same_entity
OfEntity-same_entity t i r h =
    and_intro _ _ ((text_eq_iff r.entity_type t).1 h.0) ((text_eq_iff r.entity_id i).1 h.1)

same_identity-IsRow : (c r : SyncChange) → same_identity c r ≡ true → IsRow c r
unfolding same_identity
same_identity-IsRow c r h =
    let (rest, e) = and_parts _ (text_eq r.operation c.operation) h in
    let (rest', d) = and_parts _ (text_eq r.device_id c.device_id) rest in
    let (a, b) =
      and_parts (same_entity c.entity_type c.entity_id r) (eqb_ℤ r.version c.version) rest' in
    (
      same_entity-OfEntity c.entity_type c.entity_id r a,
      (eqb_ℤ_iff r.version c.version).0 b,
      (text_eq_iff r.device_id c.device_id).0 d,
      (text_eq_iff r.operation c.operation).0 e,
    )

IsRow-same_identity : (c r : SyncChange) → IsRow c r → same_identity c r ≡ true
unfolding same_identity
IsRow-same_identity c r (e, v, d, o) =
    and_intro _ _
      (and_intro _ _
        (and_intro _ _ (OfEntity-same_entity c.entity_type c.entity_id r e)
          ((eqb_ℤ_iff r.version c.version).1 v))
        ((text_eq_iff r.device_id c.device_id).1 d))
      ((text_eq_iff r.operation c.operation).1 o)

pub seen-Logged : (c : SyncChange) (log : List SyncChange) → seen c log ≡ true → Logged c log
unfolding seen
seen-Logged c [] h = cc
seen-Logged c (r ∷ log) h = elim (Bool-cases (same_identity c r)) [
  | inl e ↦ (r, Memᴰ.head refl, same_identity-IsRow c r e)
  | inr e ↦ let (x, m, q) = seen-Logged c log (rw e at h) in (x, Memᴰ.tail m, q)
]

or_false : (a b : Bool) → a || b ≡ false → (a ≡ false) × (b ≡ false)
or_false true b k = cc
or_false false b k = (refl, k)

true-ne-false : true ≡ false → ⊥
true-ne-false k = cc

unseen-IsRow :
    (c : SyncChange) {r : SyncChange} {log : List SyncChange}
    → Memᴰ r log
    → IsRow c r
    → seen c log ≡ false
    → ⊥
unfolding seen
unseen-IsRow c {r} (Memᴰ.head {x} {xs} e) q h = true-ne-false (
    sym (IsRow-same_identity c r q)
    ∙ (ap (same_identity c) e ∙ (or_false (same_identity c x) _ h).0))
unseen-IsRow c (Memᴰ.tail {x} {xs} m) q h = unseen-IsRow c m q (or_false (same_identity c x) _ h).1

pub unseen-Logged : (c : SyncChange) (log : List SyncChange) → seen c log ≡ false → Logged c log → ⊥
unseen-Logged c log h (r, m, q) = unseen-IsRow c m q h

same_row : {a b : SyncChange} → ◌≡◌ {A = Option SyncChange} (some a) (some b) → b ≡ a
same_row e = cc

better_row-cases :
    (t i : Text) (best : Option SyncChange) (x r : SyncChange)
    → better_row t i best x ≡ some r
    → ((r ≡ x) × (same_entity t i r ≡ true)) ⊎ (best ≡ some r)
unfolding better_row
better_row-cases t i none x r e = elim (Bool-cases (same_entity t i x)) [
  | inl f ↦ let q = same_row (rw f at e) in inl (q, ap (same_entity t i) q ∙ f)
  | inr f ↦ inr (rw f at e)
]
better_row-cases t i (some b) x r e =
    elim (Bool-cases (same_entity t i x && ltb_ℤ b.version x.version)) [
      | inl f ↦
          let q = same_row (rw f at e) in
          inl (q, ap (same_entity t i) q ∙ (and_parts (same_entity t i x) _ f).0)
      | inr f ↦ inr (rw f at e)
    ]

latest_from-mem :
    (t i : Text) (best : Option SyncChange) (log : List SyncChange) (r : SyncChange)
    → latest_from t i best log ≡ some r
    → (Memᴰ r log × (same_entity t i r ≡ true)) ⊎ (best ≡ some r)
unfolding latest_from
latest_from-mem t i best [] r h = inr h
latest_from-mem t i best (x ∷ log) r h =
    elim (latest_from-mem t i (better_row t i best x) log r h) [
      | inl (m, e) ↦ inl (Memᴰ.tail m, e)
      | inr e ↦ elim (better_row-cases t i best x r e) [
        | inl (q, f) ↦ inl (Memᴰ.head q, f)
        | inr f ↦ inr f
      ]
    ]

pub latest_change-IsLatest :
    (log : List SyncChange) (t i : Text) (r : SyncChange)
    → latest_change log t i ≡ some r
    → IsLatest t i log r
unfolding latest_change
latest_change-IsLatest log t i r h = elim (latest_from-mem t i none log r h) [
  | inl (m, e) ↦ (
    m,
    same_entity-OfEntity t i r e,
    newest (latest_change log t i) h (latest_change-Newest log t i),
  )
  | inr e ↦ cc
]
  where
    newest : (o : Option SyncChange) → o ≡ some r → Newest t i log o → AtMost t i r.version log
    newest none e n = cc
    newest (some b) e n = rw (same_row e) n
