-- ===== src/Types/Search/Compose/Policy.antt =====
-- What a composed query is sure of: its depth, its references, and its user-defined parts.
use livtet.Base.{
  Bool, true, false, Option, none, some, List, [], ◌∷◌, ◌≡◌, refl, ap, ◌∙◌, ◌==◌, if◌then◌else◌,
  All, Bool-cases, inl, inr,
}
use livtet.Base.Text.{Text, text_eq_refl}
use livtet.Base.Result.{ok, ok_or, ◌>>=◌, >>=-eq-ok, ok-injective, err-ne-ok}
use livtet.Types.Search.Dsl.{UserInputAst}
use livtet.Types.Search.Kinds.{
  ResourceKind, kind_eq, kind_text, DbId, Ref, Names, CategorizationSearch,
}
use livtet.Types.Search.Saved.{categorization, user_defined, collect_refs, into_ast_with_names}
use livtet.Types.Search.Saved.Parts.{
  Part, RefersTo, part_reference, All-append_left, All-append_right,
}
use livtet.Types.Search.Compose.UserDefined.{no_user_defined}
use livtet.Types.Search.Calendar.{Clock}
use livtet.Types.Search.Substitute.{CompositionError, db_error, Bindings}
use livtet.Types.Search.Compose.{
  SavedSearch, SavedSearches, ResourceLookup, contains_user_defined, all_refs, ids_of, lift,
  stale_of, refuse_stale, check_stale, resolve_names, allowed, render_children, compose,
  render_within, render_searches,
}

none_stale :
    (e : CompositionError) (o : Option Bool) (there : Bool) (r : Ref) (stale : List Ref)
    → ok_or e o ≡ ok there
    → (if there then stale else r ∷ stale) ≡ []
    → (o ≡ some true) × (stale ≡ [])
none_stale e none there r stale h k = absurd (err-ne-ok h)
none_stale e (some b) true r stale h k = (ap some (ok-injective h), k)
none_stale e (some b) false r stale h k = cc

kind_eq_refl : (k : ResourceKind) → kind_eq k k ≡ true
kind_eq_refl k = text_eq_refl (kind_text k)

module _ (lookup : ResourceLookup) where
  abbrev pub Exists : Ref → Type 0
  Exists r = lookup.exists r.0 r.1 ≡ some true

  AllExist : ResourceKind → List DbId → Type 0
  AllExist kind = All (λ id. lookup.exists kind id ≡ some true)

  stale_of-nil :
      (kind : ResourceKind) (ids : List DbId) → stale_of lookup kind ids ≡ ok [] → AllExist kind ids
  unfolding stale_of AllExist
  stale_of-nil kind [] h = tt
  stale_of-nil kind (id ∷ ids) h =
      let (there, a, k) = >>=-eq-ok (ok_or db_error (lookup.exists kind id)) _ h in
      let (stale, b, l) =
        >>=-eq-ok (stale_of lookup kind ids) (λ t. ok (if there then t else (kind, id) ∷ t)) k in
      let (here, rest) =
        none_stale db_error (lookup.exists kind id) there (kind, id) stale a (ok-injective l) in
      (here, stale_of-nil kind ids (b ∙ ap (λ (t : List Ref). ok t) rest))

  refuse_stale-eq-ok : (stale : List Ref) {u : Unit} → refuse_stale lookup stale ≡ ok u → stale ≡ []
  refuse_stale-eq-ok [] h = refl
  refuse_stale-eq-ok (r ∷ rs) h = absurd (err-ne-ok h)

  check_stale-AllExist :
      (refs : List Ref) (kinds : List ResourceKind) {u : Unit}
      → check_stale lookup refs kinds ≡ ok u
      → All (λ kind. AllExist kind (ids_of kind refs)) kinds
  unfolding check_stale
  check_stale-AllExist refs [] h = tt
  check_stale-AllExist refs (kind ∷ kinds) h =
      let (stale, a, k) =
        >>=-eq-ok (stale_of lookup kind (ids_of kind refs))
          (λ t. refuse_stale lookup t >>= λ _. check_stale lookup refs kinds) h in
      let (_, b, l) =
        >>=-eq-ok (refuse_stale lookup stale) (λ _. check_stale lookup refs kinds) k in
      (
        stale_of-nil kind (ids_of kind refs)
            (a ∙ ap (λ (t : List Ref). ok t) (refuse_stale-eq-ok stale b)),
        check_stale-AllExist refs kinds l,
      )

  -- the map of axes has every axis
  abbrev pub HasEveryKind : List ResourceKind → Type 1
  HasEveryKind kinds = (P : ResourceKind → Type 0) → All P kinds → (k : ResourceKind) → P k

  AllExist-tail :
      (kind k : ResourceKind) (id : DbId) (rs : List Ref)
      → AllExist kind (ids_of kind ((k, id) ∷ rs))
      → AllExist kind (ids_of kind rs)
  unfolding ids_of AllExist
  AllExist-tail kind k id rs h = elim (Bool-cases (kind_eq k kind)) [
    | inl e ↦ (rw e at h).1
    | inr e ↦ rw e at h
  ]

  AllExist-head :
      (k : ResourceKind) (id : DbId) (rs : List Ref)
      → AllExist k (ids_of k ((k, id) ∷ rs))
      → lookup.exists k id ≡ some true
  unfolding ids_of AllExist
  AllExist-head k id rs h = (rw (kind_eq_refl k) at h).0

  refs_exist :
      (refs : List Ref)
      → ((kind : ResourceKind) → AllExist kind (ids_of kind refs))
      → All Exists refs
  refs_exist [] h = tt
  refs_exist ((k, id) ∷ rs) h =
      (AllExist-head k id rs (h k), refs_exist rs (λ kind. AllExist-tail kind k id rs (h kind)))

module _ {X : Type 0} (parse_lenient : Text → UserInputAst X × Bool) (show : DbId → Text)
    (kinds : List ResourceKind) (lookup : ResourceLookup) (clock : Clock)
    (now : clock.Instant) where
  -- the parts of a rendering
  record Rendered (s : SavedSearches) (bindings : Bindings) (a : UserInputAst X) : Type 0 where
    unit : Unit
    names : Names
    renderings : List (UserInputAst X)
    checked : check_stale lookup (all_refs s.children) kinds ≡ ok unit
    rendered :
        render_children parse_lenient show kinds lookup clock now s.options.allow_user_defined names
          s.children
        ≡ ok renderings
    composed :
        compose parse_lenient show kinds lookup clock now s.options.max_depth bindings renderings
        ≡ ok a

  within-Rendered :
      (s : SavedSearches) (bindings : Bindings) (a : UserInputAst X)
      → render_within parse_lenient show kinds lookup clock now s.options.max_depth s bindings
        ≡ ok a
      → Rendered s bindings a
  unfolding render_within
  within-Rendered s bindings a h =
      let refs = all_refs s.children in
      let children = λ (names : Names).
        render_children parse_lenient show kinds lookup clock now s.options.allow_user_defined names
          s.children in
      let last = compose parse_lenient show kinds lookup clock now s.options.max_depth bindings in
      let (u, b, k) =
        >>=-eq-ok (check_stale lookup refs kinds)
          (λ _. resolve_names lookup refs kinds [] >>= λ names. children names >>= last) h in
      let (names, c, e) =
        >>=-eq-ok (resolve_names lookup refs kinds []) (λ n. children n >>= last) k in
      let (l, d, m) = >>=-eq-ok (children names) last e in
      record { unit = u; names = names; renderings = l; checked = b; rendered = d; composed = m }

  searches-Rendered :
      (s : SavedSearches) (bindings : Bindings) (a : UserInputAst X)
      → render_searches parse_lenient show kinds lookup clock now s bindings ≡ ok a
      → Rendered s bindings a
  unfolding render_searches
  searches-Rendered s bindings a h = elim (Bool-cases (s.options.max_depth == 0)) [
    | inl e ↦ absurd (err-ne-ok (rw e at h))
    | inr e ↦ within-Rendered s bindings a (rw e at h)
  ]

  -- every row that a part of the search stands for exists
  abbrev pub PartsExist : SavedSearch → Type 0
  PartsExist c =
      (x : CategorizationSearch) (r : Ref)
      → Part (categorization x) c.definition
      → RefersTo x r
      → Exists lookup r

  all_refs-PartsExist :
      (cs : List SavedSearch) → All (Exists lookup) (all_refs cs) → All PartsExist cs
  unfolding all_refs
  all_refs-PartsExist [] h = tt
  all_refs-PartsExist (c ∷ cs) h =
      let refs = collect_refs c.definition in
      (
        λ x r.
            part_reference (Exists lookup) c.definition x r
              (All-append_left (Exists lookup) refs (all_refs cs) h),
        all_refs-PartsExist cs (All-append_right (Exists lookup) refs (all_refs cs) h),
      )

  -- If the map of axes has every axis, a collection is rendered only if every author, genre,
  -- subject, series, publisher and tag that stands in one of its searches, at any depth, exists.
  pub render_searches-Exists :
      (s : SavedSearches) (bindings : Bindings) (a : UserInputAst X)
      → HasEveryKind lookup kinds
      → render_searches parse_lenient show kinds lookup clock now s bindings ≡ ok a
      → All PartsExist s.children
  render_searches-Exists s bindings a every h =
      let r = searches-Rendered s bindings a h in
      let refs = all_refs s.children in
      all_refs-PartsExist s.children (
        refs_exist lookup refs (λ k.
          every (λ kind. AllExist lookup kind (ids_of kind refs))
            (check_stale-AllExist lookup refs kinds r.checked) k))

  -- no part of the search is a user-defined query
  abbrev pub HasNoUserDefined : SavedSearch → Type 0
  HasNoUserDefined c = (t : Text) → Part (user_defined t) c.definition → ⊥

  render_children-allowed :
      (names : Names) (cs : List SavedSearch) (xs : List (UserInputAst X))
      → render_children parse_lenient show kinds lookup clock now false names cs ≡ ok xs
      → All HasNoUserDefined cs
  unfolding render_children
  render_children-allowed names [] xs h = tt
  render_children-allowed names (c ∷ cs) xs h =
      let f =
        allowed parse_lenient show kinds lookup clock now false
          (contains_user_defined c.definition) in
      let rest = render_children parse_lenient show kinds lookup clock now false names cs in
      let (a, b, k) =
        >>=-eq-ok (lift (into_ast_with_names parse_lenient show names c.definition))
          (λ x. f >>= λ _. rest >>= λ ys. ok (x ∷ ys)) h in
      let (u, d, l) = >>=-eq-ok f (λ _. rest >>= λ ys. ok (a ∷ ys)) k in
      let (ys, e, m) = >>=-eq-ok rest (λ ys. ok (a ∷ ys)) l in
      (
        λ t. no_user_defined c.definition t (not_allowed (contains_user_defined c.definition) d),
        render_children-allowed names cs ys e,
      )
    where
      not_allowed :
          (b : Bool) {u : Unit}
          → allowed parse_lenient show kinds lookup clock now false b ≡ ok u
          → b ≡ false
      not_allowed true h = absurd (err-ne-ok h)
      not_allowed false h = refl

  -- Where the options refuse user-defined queries, a collection is rendered only if none stands in
  -- one of its searches, at any depth.
  pub render_searches-allowed :
      (s : SavedSearches) (bindings : Bindings) (a : UserInputAst X)
      → s.options.allow_user_defined ≡ false
      → render_searches parse_lenient show kinds lookup clock now s bindings ≡ ok a
      → All HasNoUserDefined s.children
  render_searches-allowed s bindings a f h =
      let r = searches-Rendered s bindings a h in
      render_children-allowed r.names s.children r.renderings (rw f at r.rendered)
