-- ===== src/Sync/Store/Latest.antt =====
-- The latest change of an entity has the greatest version of that entity's rows.
use livtet.Base.{
  true, false, ◌&&◌, Option, none, some, List, [], ◌∷◌, ◌≡◌, sym, ◌∙◌, arith, Bool-cases, inl, inr,
  All,
}
use livtet.Base.Text.{Text}
use livtet.Base.Int.{ℤ, ltb_ℤ, ◌≤ℤ◌}
use livtet.Sync.Types.{SyncChange}
use livtet.Sync.Store.{same_entity, latest_change, latest_from, better_row}

-- the rows of one entity have at most the version `v`
abbrev pub AtMost : Text → Text → ℤ → List SyncChange → Type 0
AtMost t i v = All (λ (r : SyncChange). same_entity t i r ≡ true → r.version ≤ℤ v)

pub AtMost-le :
    (t i : Text) (v w : ℤ) (log : List SyncChange) → v ≤ℤ w → AtMost t i v log → AtMost t i w log
AtMost-le t i v w [] h k = tt
AtMost-le t i v w (r ∷ log) h k = (λ e. omega (arith, k.0 e), AtMost-le t i v w log h k.1)

-- what the choice of a latest row `o` says of the rows it was chosen from
abbrev pub Newest : Text → Text → List SyncChange → Option SyncChange → Type 0
Newest t i log none = All (λ (r : SyncChange). same_entity t i r ≡ false) log
Newest t i log (some b) = AtMost t i b.version log

-- a choice that is at least as new as `v`, among rows of which it is the newest
abbrev From : Text → Text → ℤ → List SyncChange → Option SyncChange → Type 0
From t i v log none = ⊥
From t i v log (some b) = (v ≤ℤ b.version) × AtMost t i b.version log

cons-From :
    (t i : Text) (v w : ℤ) (x : SyncChange) (log : List SyncChange) (o : Option SyncChange)
    → v ≤ℤ w
    → (same_entity t i x ≡ true → x.version ≤ℤ w)
    → From t i w log o
    → From t i v (x ∷ log) o
cons-From t i v w x log none h k f = f
cons-From t i v w x log (some b) h k f = (omega (arith, f.0), ((λ e. omega (arith, k e, f.0)), f.1))

latest_from-From :
    (t i : Text) (best : SyncChange) (log : List SyncChange)
    → From t i best.version log (latest_from t i (some best) log)
unfolding latest_from better_row
latest_from-From t i best [] = (omega arith, tt)
latest_from-From t i best (x ∷ log) =
    elim (Bool-cases (same_entity t i x && ltb_ℤ best.version x.version)) [
      | inl e ↦ rw e (
          cons-From t i best.version x.version x log _ (ground arith) (λ _. omega arith)
            (latest_from-From t i x log))
      | inr e ↦ rw e (
          cons-From t i best.version best.version x log _ (omega arith) (λ f. ground arith)
            (latest_from-From t i best log))
    ]

From-Newest :
    (t i : Text) (x : SyncChange) (log : List SyncChange) (o : Option SyncChange)
    → From t i x.version log o
    → Newest t i (x ∷ log) o
From-Newest t i x log none f = absurd f
From-Newest t i x log (some b) f = ((λ _. f.0), f.1)

skip-Newest :
    (t i : Text) (x : SyncChange) (log : List SyncChange) (o : Option SyncChange)
    → same_entity t i x ≡ false
    → Newest t i log o
    → Newest t i (x ∷ log) o
skip-Newest t i x log none e h = (e, h)
skip-Newest t i x log (some b) e h = ((λ f. absurd (true-ne-false (sym f ∙ e))), h)
  where
    true-ne-false : true ≡ false → ⊥
    true-ne-false q = cc

from_none-Newest : (t i : Text) (log : List SyncChange) → Newest t i log (latest_from t i none log)
unfolding latest_from better_row
from_none-Newest t i [] = tt
from_none-Newest t i (x ∷ log) = elim (Bool-cases (same_entity t i x)) [
  | inl e ↦ rw e (From-Newest t i x log _ (latest_from-From t i x log))
  | inr e ↦ rw e (skip-Newest t i x log _ e (from_none-Newest t i log))
]

pub latest_change-Newest :
    (log : List SyncChange) (t i : Text) → Newest t i log (latest_change log t i)
unfolding latest_change
latest_change-Newest log t i = from_none-Newest t i log
