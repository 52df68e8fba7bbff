-- ===== src/SyncServer/Changes/Laws.antt =====
-- Every change moves each claim forward, and keeps the tables and maps sound.
use livtet.Base.{
  ◌≤◌, true, false, Option, none, some, List, ◌≡◌, ◌≢◌, refl, sym, ap, ◌∙◌, length, Bool-cases, inl,
  inr, arith,
}
use mathlib.Core.Path.{subst}
use livtet.Base.Text.{Text, text_eq, text_eq_iff}
use livtet.Base.Assoc.{get, insert, get-insert_self, get-insert_other}
use livtet.SyncServer.Changes.{
  ClaimState, absent, waiting, decided, state_of, view, Move, stay, file_claim, decide, Keeps,
  Filed, Settles, Change, keeps, files, settles,
}
use livtet.SyncServer.Pairing.{pair_decision_cap}
use livtet.SyncServer.Pairs.{is_pending}
use livtet.SyncServer.WireState.{PendingPairing, WireState}

-- the rows of the pending pairings
abbrev Rows : Type 0
Rows = List (Text × PendingPairing)

to_waiting : (c : ClaimState) → c ≢ decided → Move c waiting
to_waiting absent n = file_claim
to_waiting waiting n = stay
to_waiting decided n = absurd (n refl)

to_decided : (c : ClaimState) → c ≢ absent → Move c decided
to_decided absent n = absurd (n refl)
to_decided waiting n = decide
to_decided decided n = stay

-- One row is written: its node moves, and the others stay.
insert-Move :
    (who node : Text) (row : PendingPairing) (rows rows' : Rows)
    → rows' ≡ insert who row rows
    → Move (state_of (get who rows)) (state_of (some row))
    → Move (state_of (get node rows)) (state_of (get node rows'))
insert-Move who node row rows rows' e move = elim (Bool-cases (text_eq who node)) [
  | inl same ↦ rw e (
      subst (λ (n : Text). Move (state_of (get n rows)) (state_of (get n (insert who row rows))))
        ((text_eq_iff who node).0 same) (rw (get-insert_self {0} who row rows) move))
  | inr other ↦ rw (e, get-insert_other {0} node who row rows other) stay
]

waiting_row :
    (row : PendingPairing) → is_pending row.status_id ≡ true → state_of (some row) ≡ waiting
unfolding state_of
waiting_row row e = rw e refl

decided_row :
    (row : PendingPairing) → is_pending row.status_id ≡ false → state_of (some row) ≡ decided
unfolding state_of
decided_row row e = rw e refl

module _ {T : Type 0} {s t : WireState T} where
  pub Change-Move : Change s t → (node : Text) → Move (view node s) (view node t)
  unfolding view
  Change-Move (keeps k) node = rw k.0 stay
  Change-Move (files who (row, claim, undecided, pending, rows, waiters, fewer)) node =
      insert-Move who node row s.pending_pairings t.pending_pairings rows
        (rw (waiting_row row pending) (to_waiting _ undecided))
  Change-Move (settles who (row, present, done, rows, mine, others, bounded)) node =
      insert-Move who node row s.pending_pairings t.pending_pairings rows
        (rw (decided_row row done) (to_decided _ present))

-- The decisions are bounded, and a node with a waiter has a claim that is not decided.
pub record IsSound {T : Type 0} (s : WireState T) : Type 0 where
  pub bounded : length s.pair_decisions ≤ pair_decision_cap
  pub waiters : (node claim : Text) → get node s.pair_waiters ≡ some claim → view node s ≡ waiting

-- a node that is not the one that was written
other_view :
    {T : Type 0} (s t : WireState T) (who node : Text) (row : PendingPairing)
    → t.pending_pairings ≡ insert who row s.pending_pairings
    → text_eq who node ≡ false
    → view node t ≡ view node s
unfolding view
other_view s t who node row e n =
    rw (e, get-insert_other {0} node who row s.pending_pairings n) refl

own_view :
    {T : Type 0} (s t : WireState T) (who : Text) (row : PendingPairing)
    → t.pending_pairings ≡ insert who row s.pending_pairings
    → is_pending row.status_id ≡ true
    → view who t ≡ waiting
unfolding view
own_view s t who row e p =
    rw (e, get-insert_self {0} who row s.pending_pairings) (waiting_row row p)

module _ {T : Type 0} (s t : WireState T) (sound : IsSound s) where
  Filed-waiters :
      (who : Text)
      → Filed who s t
      → (node claim : Text) → get node t.pair_waiters ≡ some claim
      → view node t ≡ waiting
  Filed-waiters who (row, secret, undecided, pending, rows, waiters, fewer) node claim e =
      elim (Bool-cases (text_eq who node)) [
        | inl same ↦
            subst (λ (n : Text). view n t ≡ waiting) ((text_eq_iff who node).0 same)
              (own_view s t who row rows pending)
        | inr other ↦
            other_view s t who node row rows other
            ∙ sound.waiters node claim (
                sym (get-insert_other {0} node who secret s.pair_waiters other)
                ∙ sym (ap (get node) waiters)
                ∙ e)
      ]

  Settles-waiters :
      (who : Text)
      → Settles who s t
      → (node claim : Text) → get node t.pair_waiters ≡ some claim
      → view node t ≡ waiting
  Settles-waiters who (row, present, done, rows, mine, others, bounded) node claim e =
      elim (Bool-cases (text_eq who node)) [
        | inl same ↦ absurd (
            none_some (
              sym (
                subst (λ (n : Text). get n t.pair_waiters ≡ none) ((text_eq_iff who node).0 same)
                  mine)
              ∙ e))
        | inr other ↦
            other_view s t who node row rows other
            ∙ sound.waiters node claim (sym (others node other) ∙ e)
      ]
    where
      none_some : {c : Text} → ◌≡◌ {A = Option Text} none (some c) → ⊥
      none_some p = cc

Keeps-view : {T : Type 0} (s t : WireState T) (node : Text) → Keeps s t → view node t ≡ view node s
unfolding view
Keeps-view s t node k = rw k.0 refl

pub Change-IsSound : {T : Type 0} (s t : WireState T) → IsSound s → Change s t → IsSound t
Change-IsSound s t sound (keeps k) = record {
  bounded = omega (arith, sound.bounded, k.2);
  waiters = λ node claim e.
      Keeps-view s t node k ∙ sound.waiters node claim (sym (ap (get node) k.1) ∙ e);
}
Change-IsSound s t sound (files who f) = record {
  bounded = omega (arith, sound.bounded, f.6);
  waiters = Filed-waiters s t sound who f;
}
Change-IsSound s t sound (settles who f) = record {
  bounded = f.6 sound.bounded;
  waiters = Settles-waiters s t sound who f;
}
