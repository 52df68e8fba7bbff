-- ===== src/SyncServer/RateLimit/Budget.antt =====
-- No node is over its budget within one window, whatever the other nodes claim.
use mathlib.Core.Path.{subst}
use livtet.Base.{
  ℕ, suc, ◌+◌, ◌≤◌, ◌<◌, Bool, true, false, ◌&&◌, Option, none, some, List, [], ◌∷◌, ◌≡◌, refl, sym,
  ap, leb, if◌then◌else◌, All, Bool-cases, inl, inr, arith,
}
use livtet.Base.Text.{Text, text_eq, text_eq_iff, text_eq_refl}
use livtet.SyncServer.RateLimit.Windows.{lookup-set_window, lookup-other, IsUsed, retain-IsUsed}
use livtet.SyncServer.RateLimit.{
  Window, ClaimRateLimiter, lookup, set_window, retain_open, or_fresh, count_claim, allow_at,
}

-- one more if the claim is the node's and was granted
abbrev pub tally : Text → Text → Bool → ℕ → ℕ
tally id who granted n = if text_eq who id && granted then suc n else n

-- the claims of the node that are allowed in a sequence of claims, each by a node at an instant
unfoldable pub allowed_claims : Text → List (Text × ℕ) → ClaimRateLimiter → ℕ
allowed_claims id [] l = 0
allowed_claims id ((who, now) ∷ claims) l =
    tally id who (allow_at who now l).0 (allowed_claims id claims (allow_at who now l).1)

-- a window in which at least `used` claims are counted
abbrev IsOpen : ℕ → ℕ → ℕ → ℕ → Window → Type 0
IsOpen window last most used w = (last ≤ w.0 + window) × (used ≤ w.1) × (w.1 ≤ most)

fresh-IsOpen :
    (window last most used now : ℕ) (o : Option Window)
    → last ≤ now + window
    → IsUsed window last most used o
    → IsOpen window last most used (or_fresh now o)
fresh-IsOpen window last most used now none h u = (h, omega arith, omega arith)
fresh-IsOpen window last most used now (some w) h u = u

-- the tally of what a claim gives, with the claims behind it
abbrev after_claim : Text → Text → List (Text × ℕ) → Bool × ClaimRateLimiter → ℕ
after_claim id who claims r = tally id who r.0 (allowed_claims id claims r.1)

refused :
    (l : ClaimRateLimiter) (id : Text) (m : List (Text × Window)) (w : Window)
    → leb l.max_claims w.1 ≡ true
    → count_claim l id m w ≡ (false, record l { windows = set_window id w m })
unfolding count_claim
refused l id m w h = rw h refl

granted :
    (l : ClaimRateLimiter) (id : Text) (m : List (Text × Window)) (w : Window)
    → leb l.max_claims w.1 ≡ false
    → count_claim l id m w ≡ (true, record l { windows = set_window id (w.0, w.1 + 1) m })
unfolding count_claim
granted l id m w h = rw h refl

-- the instants from `first` on and before `last`
abbrev pub Within : ℕ → ℕ → Text × ℕ → Type 0
Within first last claim = (first ≤ claim.1) × (claim.1 < last)

tally_refused : (id : Text) (n : ℕ) → tally id id false n ≡ n
tally_refused id n = rw (text_eq_refl id) refl

ltb_le : (a b : ℕ) → leb a b ≡ false → b + 1 ≤ a
ltb_le a b h = ground arith

module _ (id : Text) (window most first last : ℕ) where
  -- what holds before a claim
  Before : ℕ → List (Text × Window) → Type 0
  Before used m = IsUsed window last most used (lookup id m)

  limiter : List (Text × Window) → ClaimRateLimiter
  limiter m = record { window = window; max_claims = most; windows = m }

  IsWithinBudget : List (Text × ℕ) → Type 0
  IsWithinBudget claims =
      (used : ℕ) (m : List (Text × Window))
      → used ≤ most
      → Before used m
      → allowed_claims id claims (limiter m) + used ≤ most

  set-Before :
      (used : ℕ) (w : Window) (m : List (Text × Window))
      → IsOpen window last most used w
      → Before used (set_window id w m)
  unfolding Before
  set-Before used w m h = rw (lookup-set_window id w m) h

  other-Before :
      (used : ℕ) (who : Text) (w : Window) (m : List (Text × Window))
      → text_eq who id ≡ false
      → Before used m
      → Before used (set_window who w m)
  unfolding Before
  other-Before used who w m e h = rw (lookup-other id who w m e) h

  tally_own : (n : ℕ) → tally id id true n ≡ suc n
  tally_own n = rw (text_eq_refl id) refl

  tally_other : (who : Text) (b : Bool) (n : ℕ) → text_eq who id ≡ false → tally id who b n ≡ n
  tally_other who b n h = rw h refl

  own_claim :
      (claims : List (Text × ℕ)) (used : ℕ) (w : Window) (m : List (Text × Window))
      → IsWithinBudget claims
      → used ≤ most
      → IsOpen window last most used w
      → after_claim id id claims (count_claim (limiter m) id m w) + used ≤ most
  unfolding IsWithinBudget limiter
  own_claim claims used w m rest h o = elim (Bool-cases (leb most w.1)) [
    | inl e ↦
        let l' = limiter (set_window id w m) in
        omega (
          arith,
          ap (after_claim id id claims) (refused (limiter m) id m w e),
          tally_refused id (allowed_claims id claims l'),
          rest used (set_window id w m) h (set-Before used w m o),
        )
    | inr e ↦
        let w' : Window = (w.0, w.1 + 1) in
        let l' = limiter (set_window id w' m) in
        let n = ltb_le most w.1 e in
        omega (
          arith,
          ap (after_claim id id claims) (granted (limiter m) id m w e),
          tally_own (allowed_claims id claims l'),
          rest (used + 1) (set_window id w' m) (omega (arith, o.1))
              (set-Before (used + 1) w' m (o.0, omega (arith, o.1), n)),
        )
  ]

  other_claim :
      (claims : List (Text × ℕ)) (used : ℕ) (who : Text) (w : Window) (m : List (Text × Window))
      → IsWithinBudget claims
      → used ≤ most
      → text_eq who id ≡ false
      → Before used m
      → after_claim id who claims (count_claim (limiter m) who m w) + used ≤ most
  unfolding IsWithinBudget limiter
  other_claim claims used who w m rest h e b = elim (Bool-cases (leb most w.1)) [
    | inl f ↦ omega (
      arith,
      ap (after_claim id who claims) (refused (limiter m) who m w f),
      tally_other who false (allowed_claims id claims (limiter (set_window who w m))) e,
      rest used (set_window who w m) h (other-Before used who w m e b),
    )
    | inr f ↦
        let w' : Window = (w.0, w.1 + 1) in
        omega (
          arith,
          ap (after_claim id who claims) (granted (limiter m) who m w f),
          tally_other who true (allowed_claims id claims (limiter (set_window who w' m))) e,
          rest used (set_window who w' m) h (other-Before used who w' m e b),
        )
  ]

  next_claim :
      (claims : List (Text × ℕ)) (used now : ℕ) (who : Text) (m : List (Text × Window))
      → 0 < window
      → last ≤ first + window
      → Within first last (who, now)
      → IsWithinBudget claims
      → used ≤ most
      → Before used m
      → after_claim id who claims (allow_at who now (limiter m)) + used ≤ most
  unfolding allow_at Before limiter retain_open count_claim
  next_claim claims used now who m p l t rest h b =
      let kept = retain_open window now m in
      let b' = retain-IsUsed window last most used now id m p t.1 b in
      elim (Bool-cases (text_eq who id)) [
        | inl e ↦
            subst
              (λ (x : Text).
                after_claim id x claims
                    (count_claim (limiter m) x kept (or_fresh now (lookup x kept)))
                  + used
                ≤ most)
              (sym ((text_eq_iff who id).0 e))
              (own_claim claims used (or_fresh now (lookup id kept)) kept rest h
                (fresh-IsOpen window last most used now (lookup id kept) (omega (arith, t.0)) b'))
        | inr e ↦ other_claim claims used who (or_fresh now (lookup who kept)) kept rest h e b'
      ]

  claims-IsWithinBudget :
      (claims : List (Text × ℕ))
      → 0 < window
      → last ≤ first + window
      → All (Within first last) claims
      → IsWithinBudget claims
  unfolding IsWithinBudget allowed_claims
  claims-IsWithinBudget [] p l t used m h b = omega arith
  claims-IsWithinBudget ((who, now) ∷ claims) p l t used m h b =
      next_claim claims used now who m p l t.0 (claims-IsWithinBudget claims p l t.1) h b

-- Within any span of one window's length, a limiter that has no window of a node grants that node
-- at most `max_claims` claims, however the claims of other nodes come between them.
pub allowed_claims-bounded :
    (id : Text) (first : ℕ) (claims : List (Text × ℕ)) (l : ClaimRateLimiter)
    → 0 < l.window
    → lookup id l.windows ≡ none
    → All (Within first (first + l.window)) claims
    → allowed_claims id claims l ≤ l.max_claims
unfolding IsWithinBudget Before limiter
allowed_claims-bounded id first claims l p n t = omega (
  arith,
  claims-IsWithinBudget id l.window l.max_claims first (first + l.window) claims p (omega arith) t 0
      l.windows (omega arith) (rw n refl),
)
