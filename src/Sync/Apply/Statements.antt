-- ===== src/Sync/Apply/Statements.antt =====
-- apply.rs: the statements that are made bind as many values as their SQL has marks.
use mathlib.Core.Path.{subst}
use livtet.Base.{
  ◌||◌, suc, Bool, Option, none, some, List, [], ◌∷◌, map, ◌≡◌, refl, sym, ap, ◌∙◌, length, All,
  arith, Bool-cases, Option-cases, inl, inr,
}
use livtet.Base.Text.{Text, text_eq, to_ascii_uppercase}
use livtet.Base.Result.{ok, ok_or, ◌>>=◌, >>=-eq-ok, ok-injective, err-ne-ok}
use livtet.Sync.Types.{SyncChange, invalid_entity_id}
use livtet.Sync.Json.{Json, Fields, SqlValue, Statement, Column, Schema, Env, get}
use livtet.Sync.Apply.Marks.{marks, Plain, marks-delete_sql, marks-upsert_sql}
use livtet.Sync.Apply.{
  json_to_sql, resolve_keys, resolve_primary_keys, key_values, key_map, key_get, upsert_columns,
  delete_sql, names, delete_statement, upsert_of, upsert_statement, statement_of, payload_object,
  or_else, payload_get, from_entity_id, delete_op, insert_op, update_op,
}

module _ (env : Env) where
  resolve_keys-length :
      (single : Bool) (c : SyncChange) (payload : Option (Fields env.F)) (ks : List Column)
      {vs : List (Json env.F)}
      → resolve_keys env single c payload ks ≡ ok vs
      → length vs ≡ length ks
  unfolding resolve_keys
  resolve_keys-length single c payload [] h = ap length (ok-injective (sym h))
  resolve_keys-length single c payload (k ∷ ks) h =
      let (v, a, l) =
        >>=-eq-ok
          (ok_or (invalid_entity_id c.entity_type) (
            or_else (payload_get env payload k.name)
              (from_entity_id env single c.entity_id k.name (env.parse_json c.entity_id))))
          _ h in
      let (vs, b, m) = >>=-eq-ok (resolve_keys env single c payload ks) (λ ws. ok (v ∷ ws)) l in
      ap length (ok-injective (sym m)) ∙ ap suc (resolve_keys-length single c payload ks b)

  key_values-length :
      (c : SyncChange) (ks : List Column) (vs : List (Json env.F)) {xs : List (SqlValue env.F)}
      → length vs ≡ length ks
      → key_values env c ks vs ≡ ok xs
      → length xs ≡ length ks
  unfolding key_values
  key_values-length c [] [] n h = ap length (ok-injective (sym h))
  key_values-length c [] (v ∷ vs) n h = absurd (omega arith)
  key_values-length c (k ∷ ks) [] n h = absurd (omega arith)
  key_values-length c (k ∷ ks) (v ∷ vs) n h =
      let (x, a, l) = >>=-eq-ok (json_to_sql env k.column_type v c.entity_type) _ h in
      let (xs, b, m) = >>=-eq-ok (key_values env c ks vs) (λ ys. ok (x ∷ ys)) l in
      ap length (ok-injective (sym m)) ∙ ap suc (key_values-length c ks vs (omega arith) b)

  IsFirstPlain : List (Text × SqlValue env.F) → Type 0
  IsFirstPlain bound = All Plain (map (λ p. p.0) bound)

  upsert_columns-IsFirstPlain :
      (c : SyncChange) (payload : Fields env.F) (keys : List (Text × Json env.F)) (ks : List Column)
      {bound : List (Text × SqlValue env.F)}
      → All Plain (names env ks)
      → upsert_columns env c payload keys ks ≡ ok bound
      → IsFirstPlain bound
  unfolding upsert_columns IsFirstPlain
  upsert_columns-IsFirstPlain c payload keys [] h e = subst IsFirstPlain (ok-injective e) tt
  upsert_columns-IsFirstPlain c payload keys (k ∷ ks) h e =
      elim (Option-cases (or_else (get k.name payload) (key_get env k.name keys))) [
        | inl n ↦ upsert_columns-IsFirstPlain c payload keys ks h.1 (rw (n, upsert_columns) at e)
        | inr (v, n) ↦
            let (x, a, l) =
              >>=-eq-ok (json_to_sql env k.column_type v c.entity_type)
                (λ y. upsert_columns env c payload keys ks >>= λ ys. ok ((k.name, y) ∷ ys))
                (rw (n, upsert_columns) at e) in
            let (xs, b, m) =
              >>=-eq-ok (upsert_columns env c payload keys ks) (λ ys. ok ((k.name, x) ∷ ys)) l in
            subst IsFirstPlain (ok-injective m)
              (h.0, upsert_columns-IsFirstPlain c payload keys ks h.1 b)
      ]

  -- as many values as marks
  unfoldable pub IsBalanced : Option (Statement env.F) → Type 0
  IsBalanced none = Unit
  IsBalanced (some st) = marks st.sql ≡ length st.values

  length-bound :
      (bound : List (Text × SqlValue env.F))
      → length (map (λ p. p.0) bound) ≡ length (map (λ p. p.1) bound)
  length-bound [] = refl
  length-bound (b ∷ bound) = ap suc (length-bound bound)

  length-names : (ks : List Column) → length (names env ks) ≡ length ks
  length-names [] = refl
  length-names (k ∷ ks) = ap suc (length-names ks)

  delete-IsBalanced :
      (table : Text) (s : Schema) (c : SyncChange) {o : Option (Statement env.F)}
      → Plain table
      → All Plain (names env s.primary_key)
      → delete_statement env table s c ≡ ok o
      → IsBalanced o
  unfolding delete_statement resolve_primary_keys IsBalanced
  delete-IsBalanced table s c h k e =
      let keys = names env s.primary_key in
      let (vs, a, l) =
        >>=-eq-ok (resolve_primary_keys env s c none)
          (λ ws. key_values env c s.primary_key ws >>= λ xs.
            ok (some (record { sql = delete_sql env table keys; values = xs })))
          e in
      let (xs, b, m) =
        >>=-eq-ok (key_values env c s.primary_key vs)
          (λ ys. ok (some (record { sql = delete_sql env table keys; values = ys }))) l in
      subst IsBalanced (ok-injective m) (
        marks-delete_sql env table keys h k
        ∙ (length-names s.primary_key
            ∙ sym (
                key_values-length c s.primary_key vs (resolve_keys-length _ c none s.primary_key a)
                  b)))

  upsert_of-IsBalanced :
      (table : Text) (keys : List Text) (bound : List (Text × SqlValue env.F))
      → Plain table
      → All Plain keys
      → IsFirstPlain bound
      → IsBalanced (upsert_of env table keys bound)
  unfolding upsert_of IsBalanced IsFirstPlain
  upsert_of-IsBalanced table keys [] h k l = tt
  upsert_of-IsBalanced table keys (b ∷ bound) h k l =
      marks-upsert_sql env table (map (λ p. p.0) (b ∷ bound)) keys h l k ∙ length-bound (b ∷ bound)

  upsert-IsBalanced :
      (table : Text) (s : Schema) (c : SyncChange) {o : Option (Statement env.F)}
      → Plain table
      → All Plain (names env s.primary_key)
      → All Plain (names env s.columns)
      → upsert_statement env table s c ≡ ok o
      → IsBalanced o
  unfolding upsert_statement
  upsert-IsBalanced table s c h k l e =
      let keys = names env s.primary_key in
      let last = λ (bound : List (Text × SqlValue env.F)). ok (upsert_of env table keys bound) in
      let (payload, a, f) =
        >>=-eq-ok (payload_object env c)
          (λ p. resolve_primary_keys env s c (some p) >>= λ vs.
            upsert_columns env c p (key_map env s.primary_key vs) s.columns >>= last)
          e in
      let (vs, b, g) =
        >>=-eq-ok (resolve_primary_keys env s c (some payload))
          (λ vs. upsert_columns env c payload (key_map env s.primary_key vs) s.columns >>= last)
          f in
      let (bound, d, m) =
        >>=-eq-ok (upsert_columns env c payload (key_map env s.primary_key vs) s.columns) last g in
      subst IsBalanced (ok-injective m) (
        upsert_of-IsBalanced table keys bound h k
          (upsert_columns-IsFirstPlain c payload (key_map env s.primary_key vs) s.columns l d))

  -- Where the names of a table and its columns have no `?`, the statement that a pushed change
  -- becomes binds exactly as many values as its SQL has marks, whatever the change's texts hold.
  pub statement_of-IsBalanced :
      (table : Text) (s : Schema) (c : SyncChange) (o : Option (Statement env.F))
      → Plain table
      → All Plain (names env s.primary_key)
      → All Plain (names env s.columns)
      → statement_of env table s c ≡ ok o
      → IsBalanced o
  unfolding statement_of
  statement_of-IsBalanced table s c o h k l e =
      let op = map to_ascii_uppercase c.operation in
      elim (Bool-cases (text_eq op delete_op)) [
        | inl d ↦ delete-IsBalanced table s c h k (rw d at e)
        | inr d ↦ elim (Bool-cases (text_eq op insert_op || text_eq op update_op)) [
          | inl u ↦ upsert-IsBalanced table s c h k l (rw u at (rw d at e))
          | inr u ↦ absurd (err-ne-ok (rw u at (rw d at e)))
        ]
      ]
