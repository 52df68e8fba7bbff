-- ===== src/Sync/Apply/Marks.antt =====
-- apply.rs: the `?` in the SQL that is made for a change.
use livtet.Base.{
  ℕ, suc, ◌+◌, List, [], ◌∷◌, ◌++◌, map, ◌≡◌, refl, ◌∙◌, ◌==◌, if◌then◌else◌, length, All, any,
  arith, Bool-cases, inl, inr,
}
use livtet.Base.Text.{Text, codes, text_eq}
use livtet.Sync.Json.{Env}
use livtet.Sync.Apply.{join, delete_sql, without, conflict_clause, upsert_sql}

-- the number of `?` in a text
abbrev pub marks : Text → ℕ
marks [] = 0
marks (c ∷ s) = let rest = marks s in if c == b'?' then suc rest else rest

abbrev pub Plain : Text → Type 0
Plain t = marks t ≡ 0

marks-append : (a b : Text) → marks (a ++ b) ≡ marks a + marks b
marks-append [] b = omega arith
marks-append (c ∷ a) b = ground (arith, marks-append a b)

Plain-append : (a b : Text) → Plain a → Plain b → Plain (a ++ b)
Plain-append a b h k = marks-append a b ∙ omega arith

Plain-join : (sep : Text) (ts : List Text) → Plain sep → All Plain ts → Plain (join sep ts)
unfolding join
Plain-join sep [] h k = refl
Plain-join sep (t ∷ []) h k = k.0
Plain-join sep (t ∷ u ∷ ts) h k =
    Plain-append t (sep ++ join sep (u ∷ ts)) k.0
      (Plain-append sep (join sep (u ∷ ts)) h (Plain-join sep (u ∷ ts) h k.1))

-- one mark in each text
marks-join :
    {A : Type 0} (sep : Text) (f : A → Text) (xs : List A)
    → Plain sep
    → All (λ x. marks (f x) ≡ 1) xs
    → marks (join sep (map f xs)) ≡ length xs
unfolding join
marks-join sep f [] h k = refl
marks-join sep f (x ∷ []) h k = k.0
marks-join sep f (x ∷ y ∷ xs) h k =
    marks-append (f x) (sep ++ join sep (map f (y ∷ xs)))
    ∙ omega (
      arith,
      k.0,
      h,
      marks-append sep (join sep (map f (y ∷ xs))),
      marks-join sep f (y ∷ xs) h k.1,
    )

All-map-Plain :
    (f : Text → Text) (ts : List Text)
    → ((t : Text) → Plain t → Plain (f t))
    → All Plain ts
    → All Plain (map f ts)
All-map-Plain f [] h k = tt
All-map-Plain f (t ∷ ts) h k = (h t k.0, All-map-Plain f ts h k.1)

marks-question : (ts : List Text) → All (λ _. marks (codes "?") ≡ 1) ts
marks-question [] = tt
marks-question (t ∷ ts) = (refl, marks-question ts)

key_marks : (ts : List Text) → All Plain ts → All (λ k. marks (k ++ codes " = ?") ≡ 1) ts
key_marks [] h = tt
key_marks (t ∷ ts) h = (marks-append t (codes " = ?") ∙ omega (arith, h.0), key_marks ts h.1)

module _ (env : Env) where
  pub marks-delete_sql :
      (table : Text) (keys : List Text)
      → Plain table
      → All Plain keys
      → marks (delete_sql env table keys) ≡ length keys
  unfolding delete_sql
  marks-delete_sql table keys h k =
      let w = join (codes " AND ") (map (λ n. n ++ codes " = ?") keys) in
      marks-append table (codes " WHERE " ++ w)
      ∙ omega (
        arith,
        h,
        marks-join (codes " AND ") (λ n. n ++ codes " = ?") keys refl (key_marks keys k),
      )

  Plain-without : (keys ns : List Text) → All Plain ns → All Plain (without env keys ns)
  unfolding without
  Plain-without keys [] h = tt
  Plain-without keys (n ∷ ns) h = elim (Bool-cases (any (text_eq n) keys)) [
    | inl e ↦ rw e (Plain-without keys ns h.1)
    | inr e ↦ rw e ((h.0, Plain-without keys ns h.1))
  ]

  Plain-conflict_clause : (ns : List Text) → All Plain ns → Plain (conflict_clause env ns)
  unfolding conflict_clause
  Plain-conflict_clause [] h = refl
  Plain-conflict_clause (n ∷ ns) h =
      Plain-join (codes ", ") (map (λ m. m ++ (codes " = excluded." ++ m)) (n ∷ ns)) refl (
        All-map-Plain (λ m. m ++ (codes " = excluded." ++ m)) (n ∷ ns)
          (λ t p. Plain-append t (codes " = excluded." ++ t) p p) h)

  pub marks-upsert_sql :
      (table : Text) (columns keys : List Text)
      → Plain table
      → All Plain columns
      → All Plain keys
      → marks (upsert_sql env table columns keys) ≡ length columns
  unfolding upsert_sql
  marks-upsert_sql table columns keys h k l =
      let c = conflict_clause env (without env keys columns) in
      let b = join (codes ", ") keys ++ (codes ") " ++ c) in
      let q = join (codes ", ") (map (λ _. codes "?") columns) in
      let m = join (codes ", ") columns in
      marks-append table _
      ∙ omega (
        arith,
        h,
        marks-append m (codes ") VALUES (" ++ (q ++ (codes ") ON CONFLICT (" ++ b))),
        Plain-join (codes ", ") columns refl k,
        marks-append q (codes ") ON CONFLICT (" ++ b),
        marks-join (codes ", ") (λ _. codes "?") columns refl (marks-question columns),
        marks-append (join (codes ", ") keys) (codes ") " ++ c),
        Plain-join (codes ", ") keys refl l,
        Plain-conflict_clause (without env keys columns) (Plain-without keys columns k),
      )
