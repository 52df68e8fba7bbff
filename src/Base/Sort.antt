-- ===== src/Base/Sort.antt =====
-- A stable sort (`sort_by_key`, `ORDER BY`), by insertion, over a Boolean order.
use Prim.Native.Nat.{suc}
use mathlib.Core.Path.{◌≡◌, refl, ap, ◌∙◌}
use mathlib.Core.Bool.{Bool, true, false}
use mathlib.Core.List.{List, [], ◌∷◌, Perm}
use mathlib.Core.List.Perm
use native.Mathlib.Omega.{arith}
use livtet.Base.Tests.{if◌then◌else◌, Bool-cases}
use livtet.Base.Lists.{All, length, keep}
use mathlib.Core.Logic.{inl, inr}

module _ {ℓ} {A : Type ℓ} (le : A → A → Bool) where
  -- `x` goes before the first element that it may precede, so equal elements keep their order.
  unfoldable pub insert_sorted : A → List A → List A
  insert_sorted x [] = x ∷ []
  insert_sorted x (y ∷ ys) =
      let rest = insert_sorted x ys in if le x y then x ∷ y ∷ ys else y ∷ rest

  unfoldable pub sort_by : List A → List A
  unfolding insert_sorted
  sort_by [] = []
  sort_by (x ∷ xs) = insert_sorted x (sort_by xs)

  -- Each element may precede all that follow it.
  abbrev pub IsSortedBy : List A → Type ℓ
  IsSortedBy [] = Unit
  IsSortedBy (x ∷ xs) = All (λ y. le x y ≡ true) xs × IsSortedBy xs

  pub insert_sorted-perm : (x : A) (ys : List A) → Perm (insert_sorted x ys) (x ∷ ys)
  unfolding insert_sorted
  insert_sorted-perm x [] = Perm.refl (x ∷ [])
  insert_sorted-perm x (y ∷ ys) = elim (Bool-cases (le x y)) [
    | inl e ↦ rw e (Perm.refl (x ∷ y ∷ ys))
    | inr e ↦ rw e (Perm.trans (Perm.cons y (insert_sorted-perm x ys)) (Perm.swap x y ys))
  ]

  pub sort_by-perm : (xs : List A) → Perm (sort_by xs) xs
  unfolding sort_by
  sort_by-perm [] = Perm.refl []
  sort_by-perm (x ∷ xs) =
      Perm.trans (insert_sorted-perm x (sort_by xs)) (Perm.cons x (sort_by-perm xs))

  length-insert_sorted : (x : A) (ys : List A) → length (insert_sorted x ys) ≡ suc (length ys)
  unfolding insert_sorted
  length-insert_sorted x [] = refl
  length-insert_sorted x (y ∷ ys) = ground (arith, length-insert_sorted x ys)

  pub length-sort_by : (xs : List A) → length (sort_by xs) ≡ length xs
  unfolding sort_by
  length-sort_by [] = refl
  length-sort_by (x ∷ xs) = length-insert_sorted x (sort_by xs) ∙ ap suc (length-sort_by xs)

  module _ (total : (x y : A) → le x y ≡ false → le y x ≡ true)
      (trans : (x y z : A) → le x y ≡ true → le y z ≡ true → le x z ≡ true) where
    All-le :
        (x y : A) (ys : List A)
        → le x y ≡ true
        → All (λ z. le y z ≡ true) ys
        → All (λ z. le x z ≡ true) ys
    All-le x y [] h k = tt
    All-le x y (z ∷ ys) h k = (trans x y z h k.0, All-le x y ys h k.1)

    All-insert_sorted :
        (x y : A) (ys : List A)
        → le y x ≡ true
        → All (λ z. le y z ≡ true) ys
        → All (λ z. le y z ≡ true) (insert_sorted x ys)
    unfolding insert_sorted
    All-insert_sorted x y [] h k = (h, tt)
    All-insert_sorted x y (z ∷ ys) h k = elim (Bool-cases (le x z)) [
      | inl e ↦ rw e ((h, (k.0, k.1)))
      | inr e ↦ rw e ((k.0, All-insert_sorted x y ys h k.1))
    ]

    insert_sorted-IsSortedBy :
        (x : A) (ys : List A) → IsSortedBy ys → IsSortedBy (insert_sorted x ys)
    unfolding insert_sorted
    insert_sorted-IsSortedBy x [] s = (tt, tt)
    insert_sorted-IsSortedBy x (y ∷ ys) s = elim (Bool-cases (le x y)) [
      | inl e ↦ rw e (((e, All-le x y ys e s.0), s))
      | inr e ↦
          rw e ((All-insert_sorted x y ys (total x y e) s.0, insert_sorted-IsSortedBy x ys s.1))
    ]

    pub sort_by-IsSortedBy : (xs : List A) → IsSortedBy (sort_by xs)
    unfolding sort_by
    sort_by-IsSortedBy [] = tt
    sort_by-IsSortedBy (x ∷ xs) = insert_sorted-IsSortedBy x (sort_by xs) (sort_by-IsSortedBy xs)

    All-keep {κ} : (P : A → Type κ) (p : A → Bool) (xs : List A) → All P xs → All P (keep p xs)
    All-keep P p [] h = tt
    All-keep P p (x ∷ xs) h = elim (Bool-cases (p x)) [
      | inl e ↦ rw e ((h.0, All-keep P p xs h.1))
      | inr e ↦ rw e (All-keep P p xs h.1)
    ]

    insert_sorted-first :
        (x : A) (ys : List A) → All (λ y. le x y ≡ true) ys → insert_sorted x ys ≡ x ∷ ys
    unfolding insert_sorted
    insert_sorted-first x [] h = refl
    insert_sorted-first x (y ∷ ys) h = rw h.0

    keep-insert_sorted :
        (p : A → Bool) (x : A) (ys : List A)
        → IsSortedBy ys
        → keep p (insert_sorted x ys) ≡ (if p x then insert_sorted x (keep p ys) else keep p ys)
    unfolding insert_sorted
    keep-insert_sorted p x [] s = refl
    keep-insert_sorted p x (y ∷ ys) s = elim (Bool-cases (le x y)) [
      | inl e ↦
          ground (arith, insert_sorted-first x (keep p ys) (All-keep _ p ys (All-le x y ys e s.0)))
      | inr e ↦ ground (arith, keep-insert_sorted p x ys s.1)
    ]

    -- Filtering and sorting commute.
    pub keep-sort_by : (p : A → Bool) (xs : List A) → keep p (sort_by xs) ≡ sort_by (keep p xs)
    unfolding sort_by
    keep-sort_by p [] = refl
    keep-sort_by p (x ∷ xs) =
        keep-insert_sorted p x (sort_by xs) (sort_by-IsSortedBy xs)
        ∙ rw (keep-sort_by p xs) (ground arith)
