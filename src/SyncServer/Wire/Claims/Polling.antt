-- ===== src/SyncServer/Wire/Claims/Polling.antt =====
-- Whom a poll tells of an approval.
use mathlib.Core.List.{Memᴰ}
use livtet.Base.{
  ℕ, ◌-◌, ◌<◌, true, Option, none, some, [], ◌∷◌, ◌≡◌, refl, sym, ap, ◌∙◌, ltb→lt, Bool-cases, inl,
  inr,
}
use livtet.Base.Text.{Text, text_eq, text_eq_iff}
use livtet.Base.Assoc.{get, retain}
use livtet.Sync.Json.{Env}
use livtet.SyncIroh.Messages.{Response, pairing_pending, paired, refused, reply}
use livtet.SyncServer.Pairing.{
  pair_decision_ttl, DecidedPairing, PairDecisions, response, is_fresh, prune, of_node, decided,
}
use livtet.SyncServer.WireState.{WireState, Moment, Host}
use livtet.SyncServer.Wire.Access.{answer_reply, answer_error}
use livtet.SyncServer.Wire.Claims.{is_waiting, status_answer, status_of_claim}

Mem-get :
    (claim : Text) (d : DecidedPairing) (m : PairDecisions)
    → get claim m ≡ some d
    → Memᴰ (claim, d) m
unfolding get
Mem-get claim d [] e = cc
Mem-get claim d ((k, x) ∷ m) e = elim (Bool-cases (text_eq k claim)) [
  | inl t ↦ Memᴰ.head (both (sym ((text_eq_iff k claim).0 t)) (same (rw t at e)))
  | inr f ↦ Memᴰ.tail (Mem-get claim d m (rw f at e))
]
  where
    same : {a b : DecidedPairing} → ◌≡◌ {A = Option DecidedPairing} (some a) (some b) → b ≡ a
    same p = cc

    both :
        {a b : Text} {x y : DecidedPairing}
        → a ≡ b
        → x ≡ y
        → ◌≡◌ {A = Text × DecidedPairing} (a, x) (b, y)
    both p q = cc

Mem-prune :
    (now : ℕ) (claim : Text) (d : DecidedPairing) (m : PairDecisions)
    → Memᴰ (claim, d) (prune now m)
    → Memᴰ (claim, d) m × (is_fresh now d ≡ true)
unfolding prune retain
Mem-prune now claim d [] e = elim e [ ]
Mem-prune now claim d ((k, x) ∷ m) e = elim (Bool-cases (is_fresh now x)) [
  | inl t ↦ kept (Mem-prune now claim d m) t (rw t at e)
  | inr f ↦ let r = Mem-prune now claim d m (rw f at e) in (Memᴰ.tail r.0, r.1)
]
  where
    kept :
        (Memᴰ (claim, d) (prune now m) → Memᴰ (claim, d) m × (is_fresh now d ≡ true))
        → is_fresh now x ≡ true
        → Memᴰ (claim, d) ((k, x) ∷ prune now m)
        → Memᴰ (claim, d) ((k, x) ∷ m) × (is_fresh now d ≡ true)
    kept rest t (Memᴰ.head p) =
        (Memᴰ.head p, ap (λ (c : Text × DecidedPairing). is_fresh now c.1) p ∙ t)
    kept rest t (Memᴰ.tail p) = let r = rest p in (Memᴰ.tail r.0, r.1)

of_node_lem :
    (node : Text) (o : Option DecidedPairing) {d : DecidedPairing}
    → of_node node o ≡ some d
    → (o ≡ some d) × (d.node_id ≡ node)
unfolding of_node
of_node_lem node none e = cc
of_node_lem node (some x) {d} e = elim (Bool-cases (text_eq x.node_id node)) [
  | inl t ↦
      let same = rw t at e in
      (
        same,
        ap (λ (y : DecidedPairing). y.node_id) (sym (out same)) ∙ (text_eq_iff x.node_id node).0 t,
      )
  | inr f ↦ absurd (none_some (rw f at e))
]
  where
    none_some : ◌≡◌ {A = Option DecidedPairing} none (some d) → ⊥
    none_some p = cc

    out : {a b : DecidedPairing} → ◌≡◌ {A = Option DecidedPairing} (some a) (some b) → a ≡ b
    out p = cc

-- An approval of the node's own claim, with this token, not older than the window.
abbrev pub Approves : ℕ → Text → Text → PairDecisions → Text → Type 0
Approves now node claim m token =
    (d : DecidedPairing) × Memᴰ (claim, d) m
    × (d.node_id ≡ node)
    × (d.approved ≡ true)
    × (d.session_token ≡ token)
    × (now - d.decided_at < pair_decision_ttl)

module _ {env : Env} (h : Host env) (m : Moment) (node claim : Text) where
  response_lem :
      (d : DecidedPairing) {device token : Text}
      → ◌≡◌ {A = Response env.F} (response d) (paired device token)
      → (d.approved ≡ true) × (d.session_token ≡ token)
  unfolding response
  response_lem d e = elim (Bool-cases d.approved) [
    | inl t ↦ (t, token_eq (rw t at e))
    | inr f ↦ absurd (refused_paired (rw f at e))
  ]
    where
      token_eq : {a b c e : Text} → ◌≡◌ {A = Response env.F} (paired a b) (paired c e) → b ≡ e
      token_eq p = cc

      refused_paired : {a b c : Text} → ◌≡◌ {A = Response env.F} (refused a) (paired b c) → ⊥
      refused_paired p = cc

  told_lem :
      (decisions : PairDecisions) (o : Option DecidedPairing) {device token : Text}
      → of_node node (get claim (prune m.now decisions)) ≡ o
      → (status_answer {F = env.F} o).outcome.response ≡ paired device token
      → Approves m.now node claim decisions token
  unfolding status_answer answer_error answer_reply reply
  told_lem decisions none found e = cc
  told_lem decisions (some d) found e =
      let (is, mine) = of_node_lem node (get claim (prune m.now decisions)) found in
      let (member, fresh) =
        Mem-prune m.now claim d decisions (Mem-get claim d (prune m.now decisions) is) in
      let (agreed, token_is) = response_lem d e in
      (d, member, mine, agreed, token_is, ltb→lt _ _ fresh)

  -- A poll tells a node of an approval only if that node's claim, under the secret that it presents,
  -- was approved with the token it is told, within the window.
  pub status_of_claim-Approves :
      (s : WireState env.Tables) {device token : Text}
      → (status_of_claim h m node claim s).0.outcome.response ≡ paired device token
      → Approves m.now node claim s.pair_decisions token
  unfolding status_of_claim decided answer_reply reply
  status_of_claim-Approves s e = elim (Bool-cases (is_waiting claim (get node s.pair_waiters))) [
    | inl t ↦ absurd (pending_paired (rw t at e))
    | inr f ↦ told_lem s.pair_decisions _ refl (rw f at e)
  ]
    where
      pending_paired :
          {a b c : Text} → ◌≡◌ {A = Response env.F} (pairing_pending a) (paired b c) → ⊥
      pending_paired p = cc
