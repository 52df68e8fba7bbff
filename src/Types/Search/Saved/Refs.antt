-- ===== src/Types/Search/Saved/Refs.antt =====
-- What the query tree of a saved search depends on: the names of the ids that it refers to.
use livtet.Base.{
  ◌≤◌, Bool, true, false, List, [], ◌∷◌, ◌++◌, ◌≡◌, refl, ap, ◌∙◌, All, ltb, Bool-cases, inl, inr,
  arith,
}
use livtet.Base.Text.{Text, byte_len}
use livtet.Base.Result.{Result, ok, ◌>>=◌, err-ne-ok, ok-injective}
use livtet.Types.Search.Dsl.{UserInputAst, must_not_clause}
use livtet.Types.Search.Kinds.{
  DbId, Ref, Names, name_of, hybrid, hybrid_arms, referenced_ids, CategorizationSearch, by_author,
  by_genre, by_subject, by_series, by_publisher, by_tag, in_collection, categorization_ast,
}
use livtet.Types.Search.Saved.{
  SavedSearchKind, SavedSearchKinds, and_of, or_of, not_of, categorization, limit, format,
  identifier, availability, ordering, text, user_defined, no_kinds, more_kinds, InvalidDslError,
  max_dsl_len, max_dsl_depth, scan_depth, collect_refs, collect_all, parsed_or, parse_user_dsl,
  and_or_all, or_or_all, into_ast_with_names, into_asts,
}

All-append-left : (P : Ref → Type 0) (xs ys : List Ref) → All P (xs ++ ys) → All P xs
All-append-left P [] ys h = tt
All-append-left P (x ∷ xs) ys h = (h.0, All-append-left P xs ys h.1)

All-append-right : (P : Ref → Type 0) (xs ys : List Ref) → All P (xs ++ ys) → All P ys
All-append-right P [] ys h = h
All-append-right P (x ∷ xs) ys h = All-append-right P xs ys h.1

-- two maps that give a reference the same name, or both none
abbrev pub Agrees : Names → Names → Ref → Type 0
Agrees m n r = name_of r m ≡ name_of r n

module _ {X : Type 0} (parse_lenient : Text → UserInputAst X × Bool) (show : DbId → Text) where
  hybrid-Agrees :
      (m n : Names) (r : Ref) (f g : Text)
      → Agrees m n r
      → hybrid {X = X} show r.0 r.1 m f g ≡ hybrid show r.0 r.1 n f g
  unfolding hybrid
  hybrid-Agrees m n r f g h = ap (hybrid_arms show f g r.1) h

  categorization-Agrees :
      (m n : Names) (c : CategorizationSearch)
      → All (Agrees m n) (referenced_ids c)
      → categorization_ast {X = X} show m c ≡ categorization_ast show n c
  unfolding categorization_ast referenced_ids
  categorization-Agrees m n (by_author id) h = hybrid-Agrees m n _ _ _ h.0
  categorization-Agrees m n (by_genre id) h = hybrid-Agrees m n _ _ _ h.0
  categorization-Agrees m n (by_subject id) h = hybrid-Agrees m n _ _ _ h.0
  categorization-Agrees m n (by_series id) h = hybrid-Agrees m n _ _ _ h.0
  categorization-Agrees m n (by_publisher id) h = hybrid-Agrees m n _ _ _ h.0
  categorization-Agrees m n (by_tag id) h = hybrid-Agrees m n _ _ _ h.0
  categorization-Agrees m n (in_collection id) h = refl

  mutual
    unfolding into_ast_with_names into_asts collect_refs collect_all

    into_ast-Agrees :
        (m n : Names) (k : SavedSearchKind)
        → All (Agrees m n) (collect_refs k)
        → into_ast_with_names parse_lenient show m k ≡ into_ast_with_names parse_lenient show n k
    into_ast-Agrees m n (and_of ks) h =
        ap
          (λ (r : Result InvalidDslError (List (UserInputAst X))).
            r >>= λ cs. ok (and_or_all parse_lenient show cs))
          (into_asts-Agrees m n ks h)
    into_ast-Agrees m n (or_of ks) h =
        ap
          (λ (r : Result InvalidDslError (List (UserInputAst X))).
            r >>= λ cs. ok (or_or_all parse_lenient show cs))
          (into_asts-Agrees m n ks h)
    into_ast-Agrees m n (not_of k) h =
        ap (λ (r : Result InvalidDslError (UserInputAst X)). r >>= λ c. ok (must_not_clause c))
          (into_ast-Agrees m n k h)
    into_ast-Agrees m n (categorization c) h =
        ap (λ (a : UserInputAst X). ok a) (categorization-Agrees m n c h)
    into_ast-Agrees m n (limit _) h = refl
    into_ast-Agrees m n (format _) h = refl
    into_ast-Agrees m n (identifier _) h = refl
    into_ast-Agrees m n (availability _) h = refl
    into_ast-Agrees m n (ordering _) h = refl
    into_ast-Agrees m n (text _) h = refl
    into_ast-Agrees m n (user_defined _) h = refl

    into_asts-Agrees :
        (m n : Names) (ks : SavedSearchKinds)
        → All (Agrees m n) (collect_all ks)
        → into_asts parse_lenient show m ks ≡ into_asts parse_lenient show n ks
    into_asts-Agrees m n no_kinds h = refl
    into_asts-Agrees m n (more_kinds k ks) h =
        ap
          (λ (r : Result InvalidDslError (UserInputAst X)).
            r >>= λ c. into_asts parse_lenient show m ks >>= λ cs. ok (c ∷ cs))
          (into_ast-Agrees m n k (All-append-left (Agrees m n) (collect_refs k) (collect_all ks) h))
        ∙ ap
            (λ (r : Result InvalidDslError (List (UserInputAst X))).
              into_ast_with_names parse_lenient show n k >>= λ c. r >>= λ cs. ok (c ∷ cs))
            (into_asts-Agrees m n ks
              (All-append-right (Agrees m n) (collect_refs k) (collect_all ks) h))

  -- The query tree of a saved search depends on the names of the ids that `referenced_ids` collects
  -- and on no other: two maps that agree on those give the same tree, or the same error.
  pub into_ast_with_names-Agrees :
      (m n : Names) (k : SavedSearchKind)
      → All (Agrees m n) (collect_refs k)
      → into_ast_with_names parse_lenient show m k ≡ into_ast_with_names parse_lenient show n k
  into_ast_with_names-Agrees m n k h = into_ast-Agrees m n k h

  parsed-eq-ok :
      (p : UserInputAst X × Bool) (a : UserInputAst X)
      → parsed_or parse_lenient show p ≡ ok a
      → p ≡ (a, false)
  unfolding parsed_or
  parsed-eq-ok (b, true) a h = absurd (err-ne-ok h)
  parsed-eq-ok (b, false) a h = ap (λ (x : UserInputAst X). (x, false)) (ok-injective h)

  -- A query text of a user reaches tantivy's parser, and gives a tree, only if it is within the
  -- length and its brackets within the depth.
  pub parse_user_dsl-bounded :
      (s : Text) (a : UserInputAst X)
      → parse_user_dsl parse_lenient show s ≡ ok a
      → (byte_len s ≤ max_dsl_len)
        × (scan_depth 0 0 s ≤ max_dsl_depth)
        × (parse_lenient s ≡ (a, false))
  unfolding parse_user_dsl
  parse_user_dsl-bounded s a h = elim (Bool-cases (ltb max_dsl_len (byte_len s))) [
    | inl e ↦ absurd (err-ne-ok (rw e at h))
    | inr e ↦ elim (Bool-cases (ltb max_dsl_depth (scan_depth 0 0 s))) [
      | inl f ↦ absurd (err-ne-ok (rw f at (rw e at h)))
      | inr f ↦ (ground arith, ground arith, parsed-eq-ok (parse_lenient s) a (rw f at (rw e at h)))
    ]
  ]
