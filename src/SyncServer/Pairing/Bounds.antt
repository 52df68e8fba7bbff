-- ===== src/SyncServer/Pairing/Bounds.antt =====
-- The map of decisions is bounded: the eviction ends below its cap.
use livtet.Base.{
  ℕ, zero, suc, ◌≤◌, ◌<◌, false, some, [], ◌∷◌, ◌≡◌, refl, ◌⊎◌, inl, inr, ltb, leb, length,
  Bool-cases, arith,
}
use livtet.Base.Text.{Text, text_eq, text_eq_refl}
use livtet.Base.Assoc.{get, length-insert, length-remove_key}
use livtet.SyncServer.Pairing.{
  pair_decision_cap, DecidedPairing, PairDecisions, prune, oldest_from, oldest, remove_some, evict,
  record_decision,
}

-- the first binding of a key
first_bound : (k : Text) (d : DecidedPairing) (m : PairDecisions) → get k ((k, d) ∷ m) ≡ some d
unfolding get
first_bound k d m = rw (text_eq_refl k) refl

-- a key that is bound behind is bound
bound_behind :
    (k j : Text) (d e : DecidedPairing) (m : PairDecisions)
    → get j m ≡ some e
    → (x : DecidedPairing) × (get j ((k, d) ∷ m) ≡ some x)
unfolding get
bound_behind k j d e m h = elim (Bool-cases (text_eq k j)) [
  | inl t ↦ (d, rw t refl)
  | inr f ↦ (e, rw f h)
]

Bound : Text → PairDecisions → Type 0
Bound k m = (x : DecidedPairing) × (get k m ≡ some x)

Bound-behind :
    (k j : Text) (d : DecidedPairing) (m : PairDecisions) → Bound j m → Bound j ((k, d) ∷ m)
unfolding Bound
Bound-behind k j d m b = bound_behind k j d b.0 m b.1

-- the oldest claim is the one so far, or a key of the rest
oldest_from-Bound :
    (k : Text) (at : ℕ) (m : PairDecisions)
    → (oldest_from k at m ≡ k) ⊎ Bound (oldest_from k at m) m
unfolding oldest_from
oldest_from-Bound k at [] = inl refl
oldest_from-Bound k at ((j, e) ∷ m) = elim (Bool-cases (ltb e.decided_at at)) [
  | inl t ↦ rw t (elim (oldest_from-Bound j e.decided_at m) [
    | inl same ↦ inr (rw same (first j e m))
    | inr b ↦ inr (Bound-behind j (oldest_from j e.decided_at m) e m b)
  ])
  | inr f ↦ rw f (elim (oldest_from-Bound k at m) [
    | inl same ↦ inl same
    | inr b ↦ inr (Bound-behind j (oldest_from k at m) e m b)
  ])
]
  where
    first : (i : Text) (x : DecidedPairing) (n : PairDecisions) → Bound i ((i, x) ∷ n)
    first i x n = unfold Bound in (x, first_bound i x n)

-- a round of the eviction removes an entry
remove_oldest :
    (k : Text) (d : DecidedPairing) (m : PairDecisions)
    → length (remove_some (oldest ((k, d) ∷ m)) ((k, d) ∷ m)) < length ((k, d) ∷ m)
unfolding remove_some oldest Bound
remove_oldest k d m = elim (oldest_from-Bound k d.decided_at m) [
  | inl same ↦ rw same (omega (arith, length-remove_key {0} k d ((k, d) ∷ m) (first_bound k d m)))
  | inr b ↦
      let j = oldest_from k d.decided_at m in
      let b' = Bound-behind k j d m b in
      omega (arith, length-remove_key {0} j b'.0 ((k, d) ∷ m) b'.1)
]

small :
    (m : PairDecisions) → leb pair_decision_cap (length m) ≡ false → length m < pair_decision_cap
small m h = ground arith

-- with fuel for every entry the loop ends by its test
pub evict-small :
    (fuel : ℕ) (m : PairDecisions) → length m ≤ fuel → length (evict fuel m) < pair_decision_cap
unfolding evict
evict-small zero [] h = omega arith
evict-small zero (e ∷ m) h = absurd (omega arith)
evict-small (suc fuel) [] h = omega arith
evict-small (suc fuel) ((k, d) ∷ m) h =
    elim (Bool-cases (leb pair_decision_cap (length ((k, d) ∷ m)))) [
      | inl t ↦ rw t (
          evict-small fuel (remove_some (oldest ((k, d) ∷ m)) ((k, d) ∷ m))
            (omega (arith, remove_oldest k d m)))
      | inr f ↦ rw f (small ((k, d) ∷ m) f)
    ]

pub length-record_decision :
    (now : ℕ) (claim : Text) (d : DecidedPairing) (m : PairDecisions)
    → length (record_decision now claim d m) ≤ pair_decision_cap
unfolding record_decision
length-record_decision now claim d m =
    let kept = prune now m in
    omega (
      arith,
      length-insert {0} claim d (evict (length kept) kept),
      evict-small (length kept) kept (omega arith),
    )
