-- ===== src/Types/Search/Compose/UserDefined.antt =====
-- livtet-types/src/search/composition.rs: `contains_user_defined` finds every user-defined part.
use livtet.Base.{Bool, true, false, ◌||◌, ◌≡◌, refl, sym, ap, ◌∙◌}
use livtet.Base.Text.{Text}
use livtet.Types.Search.Saved.{SavedSearchKind, SavedSearchKinds, user_defined}
use livtet.Types.Search.Saved.Parts.{Part, PartOf, itself, of_and, of_or, of_not, first, other}
use livtet.Types.Search.Compose.{contains_user_defined, any_user_defined}

or_right : (b : Bool) → b || true ≡ true
or_right true = refl
or_right false = refl

module _ (p : SavedSearchKind) (h : contains_user_defined p ≡ true) where
  mutual
    unfolding contains_user_defined any_user_defined

    contains-Part : {k : SavedSearchKind} → Part p k → contains_user_defined k ≡ true
    contains-Part itself = h
    contains-Part (of_and q) = any-PartOf q
    contains-Part (of_or q) = any-PartOf q
    contains-Part (of_not q) = contains-Part q

    any-PartOf : {ks : SavedSearchKinds} → PartOf p ks → any_user_defined ks ≡ true
    any-PartOf (first {k} {ks} q) = ap (λ (b : Bool). b || any_user_defined ks) (contains-Part q)
    any-PartOf (other {k} {ks} q) =
        ap (λ (b : Bool). contains_user_defined k || b) (any-PartOf q)
        ∙ or_right (contains_user_defined k)

pub no_user_defined :
    (k : SavedSearchKind) (t : Text) → contains_user_defined k ≡ false → Part (user_defined t) k → ⊥
unfolding contains_user_defined
no_user_defined k t h q = clash (sym (contains-Part (user_defined t) refl q) ∙ h)
  where
    clash : true ≡ false → ⊥
    clash e = cc
