-- ===== src/Base/Assoc.antt =====
-- A `HashMap` with text keys, as a list of bindings.
use livtet.Base.Tests.{if◌then◌else◌}
use livtet.Base.Lists.{length}
use livtet.Base.Text.{Text, text_eq, text_eq_iff, text_eq_refl}
use Prim.Native.Nat.{suc, ◌≤◌}
use mathlib.Core.Path.{◌≡◌, refl, ap, ◌∙◌}
use mathlib.Core.Bool.{Bool, true, false}
use mathlib.Core.Option.{Option, none, some}
use mathlib.Core.List.{List, [], ◌∷◌}
use native.Mathlib.Omega.{arith}

other_key : (k id who : Text) → text_eq who id ≡ false → text_eq k who ≡ true → text_eq k id ≡ false
other_key k id who h e = ap (λ (t : Text). text_eq t id) ((text_eq_iff k who).0 e) ∙ h

module _ {ℓ} {V : Type ℓ} where
  unfoldable pub get : Text → List (Text × V) → Option V
  get id [] = none
  get id ((k, v) ∷ m) = let rest = get id m in if text_eq k id then some v else rest

  unfoldable pub insert : Text → V → List (Text × V) → List (Text × V)
  insert id v [] = (id, v) ∷ []
  insert id v ((k, w) ∷ m) =
      let rest = insert id v m in if text_eq k id then (k, v) ∷ m else (k, w) ∷ rest

  unfoldable pub remove : Text → List (Text × V) → List (Text × V)
  remove id [] = []
  remove id ((k, v) ∷ m) = let rest = remove id m in if text_eq k id then rest else (k, v) ∷ rest

  -- `retain`, on the values
  unfoldable pub retain : (V → Bool) → List (Text × V) → List (Text × V)
  retain p [] = []
  retain p ((k, v) ∷ m) = let rest = retain p m in if p v then (k, v) ∷ rest else rest

  pub get-insert_self : (id : Text) (v : V) (m : List (Text × V)) → get id (insert id v m) ≡ some v
  unfolding get insert
  get-insert_self id v [] = rw (text_eq_refl id) refl
  get-insert_self id v ((k, w) ∷ m) = ground (arith, get-insert_self id v m)

  pub get-insert_other :
      (id who : Text) (v : V) (m : List (Text × V))
      → text_eq who id ≡ false
      → get id (insert who v m) ≡ get id m
  unfolding get insert
  get-insert_other id who v [] h = rw h refl
  get-insert_other id who v ((k, w) ∷ m) h =
      ground (arith, get-insert_other id who v m h, other_key k id who h)

  pub get-remove_self : (id : Text) (m : List (Text × V)) → get id (remove id m) ≡ none
  unfolding get remove
  get-remove_self id [] = refl
  get-remove_self id ((k, w) ∷ m) = ground (arith, get-remove_self id m)

  pub get-remove_other :
      (id who : Text) (m : List (Text × V))
      → text_eq who id ≡ false
      → get id (remove who m) ≡ get id m
  unfolding get remove
  get-remove_other id who [] h = refl
  get-remove_other id who ((k, w) ∷ m) h =
      ground (arith, get-remove_other id who m h, other_key k id who h)

  pub length-insert :
      (id : Text) (v : V) (m : List (Text × V)) → length (insert id v m) ≤ suc (length m)
  unfolding insert
  length-insert id v [] = omega arith
  length-insert id v ((k, w) ∷ m) = ground (arith, length-insert id v m)

  pub length-retain : (p : V → Bool) (m : List (Text × V)) → length (retain p m) ≤ length m
  unfolding retain
  length-retain p [] = omega arith
  length-retain p ((k, w) ∷ m) = ground (arith, length-retain p m)

  pub length-remove : (id : Text) (m : List (Text × V)) → length (remove id m) ≤ length m
  unfolding remove
  length-remove id [] = omega arith
  length-remove id ((k, w) ∷ m) = ground (arith, length-remove id m)

  -- a key of the map is removed with its binding
  pub length-remove_key :
      (id : Text) (v : V) (m : List (Text × V))
      → get id m ≡ some v
      → suc (length (remove id m)) ≤ length m
  unfolding remove get
  length-remove_key id v [] h = cc
  length-remove_key id v ((k, w) ∷ m) h =
      ground (arith, length-remove id m, length-remove_key id v m)

  -- what a retained key stands for, it stood for before
  pub get-retain :
      (p : V → Bool) (id : Text) (v : V) (m : List (Text × V))
      → get id m ≡ some v
      → p v ≡ true
      → get id (retain p m) ≡ some v
  unfolding get retain
  get-retain p id v [] h t = h
  get-retain p id v ((k, w) ∷ m) h t = ground (arith, get-retain p id v m)
