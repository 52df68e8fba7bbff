-- ===== src/Types/Search/Dsl/Escape.antt =====
-- What a reader that takes a backslash as an escape makes of escaped text.
use livtet.Base.{
  ℕ, Bool, true, false, ◌||◌, List, [], ◌∷◌, ◌==◌, ◌≡◌, refl, ap, ◌∙◌, if◌then◌else◌, arith,
}
use livtet.Base.Text.{Text}
use livtet.Types.Search.Dsl.{is_query_syntax, is_delimiter_whitespace, escape, escape_query_text}

-- One token of a query: a character, and whether a backslash stands before it. A backslash at the
-- end stands for itself.
abbrev pub read_escapes : Text → List (ℕ × Bool)
read_escapes [] = []
read_escapes (c ∷ []) = (c, false) ∷ []
read_escapes (c ∷ d ∷ s) =
    let skip = read_escapes s in
    let rest = read_escapes (d ∷ s) in if c == b'\\' then (d, true) ∷ skip else (c, false) ∷ rest

-- the characters of a text, each escaped if the test says so
abbrev pub escaped_by : (ℕ → Bool) → Text → List (ℕ × Bool)
escaped_by p [] = []
escaped_by p (c ∷ s) = (c, p c) ∷ escaped_by p s

read_escaped : (c : ℕ) (s : Text) → read_escapes (b'\\' ∷ c ∷ s) ≡ (c, true) ∷ read_escapes s
read_escaped c s = refl

read_plain :
    (c : ℕ) (s : Text) → (c == b'\\') ≡ false → read_escapes (c ∷ s) ≡ (c, false) ∷ read_escapes s
read_plain c [] h = refl
read_plain c (d ∷ s) h = rw h

backslash : (c : ℕ) → is_query_syntax c ≡ false → (c == b'\\') ≡ false
unfolding is_query_syntax
backslash c h = ground arith

read_one :
    (b : Bool) (c : ℕ) (e : Text) {t : List (ℕ × Bool)}
    → (b ≡ false → (c == b'\\') ≡ false)
    → read_escapes e ≡ t
    → read_escapes (if b then b'\\' ∷ c ∷ e else c ∷ e) ≡ (c, b) ∷ t
read_one true c e h k = ap (◌∷◌ (c, true)) k
read_one false c e h k = read_plain c e (h refl) ∙ ap (◌∷◌ (c, false)) k

or_false : (a b : Bool) → (a || b) ≡ false → a ≡ false
or_false true b h = cc
or_false false b h = refl

read-escape :
    (s : Text)
    → read_escapes (escape s) ≡ escaped_by (λ c. is_query_syntax c || is_delimiter_whitespace c) s
unfolding escape
read-escape [] = refl
read-escape (c ∷ s) =
    read_one (is_query_syntax c || is_delimiter_whitespace c) c (escape s)
      (λ h. backslash c (or_false _ _ h)) (read-escape s)

read-escape_query_text :
    (s : Text) → read_escapes (escape_query_text s) ≡ escaped_by is_query_syntax s
unfolding escape_query_text
read-escape_query_text [] = refl
read-escape_query_text (c ∷ s) =
    read_one (is_query_syntax c) c (escape_query_text s) (backslash c) (read-escape_query_text s)

-- Read with a backslash as the escape, escaped text has the characters of the text, in order, and
-- exactly those behind a backslash that are query syntax or, for `escape`, white space that ends a
-- term.
pub read_escapes-escape :
    (s : Text)
    → (read_escapes (escape s) ≡ escaped_by (λ c. is_query_syntax c || is_delimiter_whitespace c) s)
      × (read_escapes (escape_query_text s) ≡ escaped_by is_query_syntax s)
read_escapes-escape s = (read-escape s, read-escape_query_text s)
