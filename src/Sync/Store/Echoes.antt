-- ===== src/Sync/Store/Echoes.antt =====
-- Versions in the change log, and that `discard_echoes` removes the echoes and nothing older.
use mathlib.Core.List.{append-nil, append_assoc}
use livtet.Base.{
  zero, suc, ◌+◌, Bool, true, false, ◌&&◌, List, [], ◌∷◌, ◌++◌, ◌≡◌, refl, sym, ap, ◌∙◌, arith,
  if◌then◌else◌, Bool-cases, inl, inr, All, all,
}
use livtet.Base.Text.{Text}
use livtet.Base.Int.{ℤ, pos, negsuc, suc_ℤ, max_ℤ, ltb_ℤ, ◌≤ℤ◌, ◌<ℤ◌}
use livtet.Sync.Types.{SyncChange}
use livtet.Sync.Store.Laws.{echo-suppressed}
use livtet.Sync.Store.{
  Db, same_entity, max_from, max_version, echo, echo_all, discard_echoes, local,
}

le-max_left : (a b : ℤ) → a ≤ℤ max_ℤ a b
le-max_left a b = ground arith

le-max_right : (a b : ℤ) → b ≤ℤ max_ℤ a b
le-max_right a b = ground arith

lt-suc_ℤ : (a : ℤ) → a <ℤ suc_ℤ a
lt-suc_ℤ (pos n) = omega arith
lt-suc_ℤ (negsuc zero) = omega arith
lt-suc_ℤ (negsuc (suc n)) = omega arith

le-max_from : (v : ℤ) (rs : List SyncChange) → v ≤ℤ max_from v rs
unfolding max_from
le-max_from v [] = omega arith
le-max_from v (r ∷ rs) = omega (arith, le-max_from (max_ℤ v r.version) rs, le-max_left v r.version)

rows-le-max_from :
    (v : ℤ) (rs : List SyncChange) → All (λ (r : SyncChange). r.version ≤ℤ max_from v rs) rs
unfolding max_from
rows-le-max_from v [] = tt
rows-le-max_from v (r ∷ rs) = (
  omega (arith, le-max_from (max_ℤ v r.version) rs, le-max_right v r.version),
  rows-le-max_from (max_ℤ v r.version) rs,
)

-- No row has a higher version than the maximum.
pub rows-le-max_version :
    (rs : List SyncChange) → All (λ (r : SyncChange). r.version ≤ℤ max_version rs) rs
unfolding max_version
rows-le-max_version [] = tt
rows-le-max_version (r ∷ rs) = (le-max_from r.version rs, rows-le-max_from r.version rs)

max_from-concat :
    (v : ℤ) (rs : List SyncChange) (r : SyncChange)
    → max_from v (rs ++ r ∷ []) ≡ max_ℤ (max_from v rs) r.version
unfolding max_from
max_from-concat v [] r = refl
max_from-concat v (x ∷ rs) r = max_from-concat (max_ℤ v x.version) rs r

max_version-concat :
    (rs : List SyncChange) (r : SyncChange)
    → max_version rs ≤ℤ r.version
    → max_version rs ≤ℤ max_version (rs ++ r ∷ [])
unfolding max_version max_from
max_version-concat [] r h = h
max_version-concat (x ∷ rs) r h =
    rw (max_from-concat x.version rs r) (le-max_left (max_from x.version rs) r.version)

discard_echoes-append :
    (c : SyncChange) (b : ℤ) (xs ys : List SyncChange)
    → discard_echoes c b (xs ++ ys) ≡ discard_echoes c b xs ++ discard_echoes c b ys
unfolding discard_echoes
discard_echoes-append c b [] ys = refl
discard_echoes-append c b (x ∷ xs) ys =
    elim (Bool-cases (same_entity c.entity_type c.entity_id x && ltb_ℤ b x.version)) [
      | inl e ↦ rw e (discard_echoes-append c b xs ys)
      | inr e ↦ rw e (ap (◌∷◌ x) (discard_echoes-append c b xs ys))
    ]

discard_echoes-old :
    (c : SyncChange) (b : ℤ) (xs : List SyncChange)
    → All (λ (r : SyncChange). r.version ≤ℤ b) xs
    → discard_echoes c b xs ≡ xs
unfolding discard_echoes
discard_echoes-old c b [] h = refl
discard_echoes-old c b (x ∷ xs) h = ground (arith, discard_echoes-old c b xs h.1)

discard_echoes-new :
    (c : SyncChange) (b : ℤ) (xs : List SyncChange)
    → All (λ (r : SyncChange). b <ℤ r.version) xs
    → all (same_entity c.entity_type c.entity_id) xs ≡ true
    → discard_echoes c b xs ≡ []
unfolding discard_echoes
discard_echoes-new c b [] h k = refl
discard_echoes-new c b (x ∷ xs) h k = ground (arith, discard_echoes-new c b xs h.1)

-- What the triggers add: rows above the baseline, of the entities of the echoes.
pub record Echoed {T : Type 0} (b : ℤ) (c : SyncChange) (own : Bool) (d d' : Db T) : Type 0 where
  pub rows : List SyncChange
  pub log_is : d'.log ≡ d.log ++ rows
  pub above : All (λ (r : SyncChange). b <ℤ r.version) rows
  pub of_entity : own ≡ true → all (same_entity c.entity_type c.entity_id) rows ≡ true

module _ {T : Type 0} (now : Text) (b : ℤ) (c : SyncChange) where
  echo-max_version :
      (e : SyncChange) (d : Db T) → b ≤ℤ max_version d.log → b ≤ℤ max_version (echo now e d).log
  unfolding echo
  echo-max_version e d h = elim (Bool-cases d.sync_apply) [
    | inl f ↦ rw f h
    | inr f ↦ rw f (
        omega (
          arith,
          lt-suc_ℤ (max_version d.log),
          max_version-concat d.log (record e {
            id = d.next_id;
            version = suc_ℤ (max_version d.log);
            changed_at = now;
            device_id = local;
          }),
        ))
  ]

  log-echo :
      (e : SyncChange) (d : Db T)
      → d.sync_apply ≡ false
      → (echo now e d).log
        ≡ d.log
          ++ record e {
            id = d.next_id;
            version = suc_ℤ (max_version d.log);
            changed_at = now;
            device_id = local;
          }
            ∷ []
  unfolding echo
  log-echo e d f =
      ap
        (λ (x : Bool).
          (if x then d else record d {
            log =
                d.log
                ++ record e {
                  id = d.next_id;
                  version = suc_ℤ (max_version d.log);
                  changed_at = now;
                  device_id = local;
                }
                  ∷ [];
            next_id = d.next_id + 1;
          }).log)
        f

  Echoed-cons :
      (e : SyncChange) (own : Bool) (d d' : Db T)
      → b ≤ℤ max_version d.log
      → Echoed b c own (echo now e d) d'
      → Echoed b c (same_entity c.entity_type c.entity_id e && own) d d'
  unfolding echo same_entity
  Echoed-cons e own d d' h g = elim (Bool-cases d.sync_apply) [
    | inl f ↦ record {
      rows = g.rows;
      log_is = g.log_is ∙ ap (λ (x : Db T). x.log ++ g.rows) (echo-suppressed now e d f);
      above = g.above;
      of_entity = λ k. g.of_entity (ground arith);
    }
    | inr f ↦
        let row = record e {
          id = d.next_id;
          version = suc_ℤ (max_version d.log);
          changed_at = now;
          device_id = local;
        } in
        record {
          rows = row ∷ g.rows;
          log_is =
              g.log_is
              ∙ (ap (λ (l : List SyncChange). l ++ g.rows) (log-echo e d f)
                  ∙ append_assoc d.log (row ∷ []) g.rows);
          above = (omega (arith, lt-suc_ℤ (max_version d.log)), g.above);
          of_entity = λ k. ground (arith, g.of_entity);
        }
  ]

  pub echo_all-Echoed :
      (es : List SyncChange) (d : Db T)
      → b ≤ℤ max_version d.log
      → Echoed b c (all (same_entity c.entity_type c.entity_id) es) d (echo_all now es d)
  unfolding echo_all
  echo_all-Echoed [] d h = record {
    rows = [];
    log_is = sym (append-nil d.log);
    above = tt;
    of_entity = λ _. refl;
  }
  echo_all-Echoed (e ∷ es) d h =
      Echoed-cons e _ d _ h (echo_all-Echoed es (echo now e d) (echo-max_version e d h))

  -- Discarding above the highest version of the old log keeps the old log whole.
  discard-Echoed :
      (own : Bool) (d d' : Db T)
      → b ≡ max_version d.log
      → (g : Echoed b c own d d') → discard_echoes c b d'.log ≡ d.log ++ discard_echoes c b g.rows
  discard-Echoed own d d' e g =
      ap (discard_echoes c b) g.log_is
      ∙ (discard_echoes-append c b d.log g.rows
          ∙ ap (λ (l : List SyncChange). l ++ discard_echoes c b g.rows)
              (discard_echoes-old c b d.log (rw e (rows-le-max_version d.log))))

  -- Echoes of the change's own entity are all discarded.
  pub discard-own :
      (d d' : Db T)
      → b ≡ max_version d.log
      → Echoed b c true d d'
      → discard_echoes c b d'.log ≡ d.log
  discard-own d d' e g =
      discard-Echoed true d d' e g
      ∙ (ap (◌++◌ d.log) (discard_echoes-new c b g.rows g.above (g.of_entity refl))
          ∙ append-nil d.log)
