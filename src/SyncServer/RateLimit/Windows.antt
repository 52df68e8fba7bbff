-- ===== src/SyncServer/RateLimit/Windows.antt =====
-- The window of a node in the map, through the steps of a claim.
use livtet.Base.{
  ℕ, ◌+◌, ◌-◌, ◌≤◌, ◌<◌, true, false, Option, none, some, List, [], ◌∷◌, ◌≡◌, refl, ap, ◌∙◌, ltb,
  Bool-cases, inl, inr, arith,
}
use livtet.Base.Text.{Text, text_eq, text_eq_iff, text_eq_refl}
use livtet.SyncServer.RateLimit.{Window, lookup, set_window, retain_open}

pub lookup-set_window :
    (id : Text) (w : Window) (m : List (Text × Window)) → lookup id (set_window id w m) ≡ some w
unfolding lookup set_window
lookup-set_window id w [] = rw (text_eq_refl id) refl
lookup-set_window id w ((k, v) ∷ m) = ground (arith, lookup-set_window id w m)

other_text :
    (k id who : Text) → text_eq who id ≡ false → text_eq k who ≡ true → text_eq k id ≡ false
other_text k id who h e = ap (λ (t : Text). text_eq t id) ((text_eq_iff k who).0 e) ∙ h

pub lookup-other :
    (id who : Text) (w : Window) (m : List (Text × Window))
    → text_eq who id ≡ false
    → lookup id (set_window who w m) ≡ lookup id m
unfolding lookup set_window
lookup-other id who w [] h = rw h refl
lookup-other id who w ((k, v) ∷ m) h =
    ground (arith, lookup-other id who w m h, other_text k id who h)

-- the node has no window, or one that no instant before `last` closes, with at least `used` claims
abbrev pub IsUsed : ℕ → ℕ → ℕ → ℕ → Option Window → Type 0
IsUsed window last most used none = used ≡ 0
IsUsed window last most used (some w) = (last ≤ w.0 + window) × (used ≤ w.1) × (w.1 ≤ most)

open_still :
    (now start last window : ℕ)
    → 0 < window
    → now < last
    → last ≤ start + window
    → ltb (now - start) window ≡ true
open_still now start last window p h l = ground arith

pub retain-IsUsed :
    (window last most used now : ℕ) (id : Text) (m : List (Text × Window))
    → 0 < window
    → now < last
    → IsUsed window last most used (lookup id m)
    → IsUsed window last most used (lookup id (retain_open window now m))
unfolding lookup retain_open
retain-IsUsed window last most used now id [] p h u = u
retain-IsUsed window last most used now id ((k, w) ∷ m) p h u = elim (Bool-cases (text_eq k id)) [
  | inl e ↦ let v = rw e at u in rw (open_still now w.0 last window p h v.0) (rw e v)
  | inr e ↦ elim (Bool-cases (ltb (now - w.0) window)) [
    | inl f ↦ rw f (rw e (retain-IsUsed window last most used now id m p h (rw e at u)))
    | inr f ↦ rw f (retain-IsUsed window last most used now id m p h (rw e at u))
  ]
]
