-- ===== src/SyncServer/Pull/Pages.antt =====
-- The pages of one pass against a peer whose log stands still: they join up, and they end.
use livtet.Base.{
  ℕ, zero, suc, ◌<◌, Bool, true, false, not, Option, some, List, [], ◌∷◌, ◌++◌, ◌≡◌, refl, sym, ap,
  ◌∙◌, ◌==◌, ==_iff, keep, take, length, length-append, Bool-cases, inl, inr, if◌then◌else◌, arith,
}
use mathlib.Core.List.{append-nil}
use livtet.Base.Text.{Text}
use livtet.Base.Int.{ℤ, pos}
use livtet.Base.Sort.{sort_by}
use livtet.Base.Result.{Result, ok, err, ◌>>=◌}
use livtet.Sync.Types.{SyncChange, PullResponse}
use livtet.Sync.Json.{Env}
use livtet.Sync.Query.{newer, by_version, pull_changes, pull_from}
use livtet.Sync.Query.Paging.{HasDistinctVersions, pull_changes-next}
use livtet.SyncServer.Wire.Access.{change_is_for}
use livtet.SyncServer.Pull.Pass.{take_page, is_last_empty, after_page, on_page, pull_loop}

keep-append {ℓ} :
    {A : Type ℓ} (p : A → Bool) (xs ys : List A) → keep p (xs ++ ys) ≡ keep p xs ++ keep p ys
keep-append p [] ys = refl
keep-append p (x ∷ xs) ys = elim (Bool-cases (p x)) [
  | inl t ↦ rw t (ap (◌∷◌ x) (keep-append p xs ys))
  | inr f ↦ rw f (keep-append p xs ys)
]

-- a page that is not full is all there is
short_take {ℓ} :
    {A : Type ℓ} (n : ℕ) (xs : List A) → (length (take n xs) == n) ≡ false → take n xs ≡ xs
short_take zero xs e = cc
short_take (suc n) [] e = refl
short_take (suc n) (x ∷ xs) e = ap (◌∷◌ x) (short_take n xs (ground arith))

-- what the peer's server answers to `changes`: a page of its log, less the offers to other devices
abbrev pub page_of : Env → Text → List SyncChange → ℤ → PullResponse
page_of env device log since =
    let page = pull_from since (pos 100) log in
    record page { changes = keep (λ (c : SyncChange). change_is_for env c device) page.changes }

-- the changes of the pages, one after the other
abbrev pub all_changes : List PullResponse → List SyncChange
all_changes [] = []
all_changes (p ∷ ps) = p.changes ++ all_changes ps

-- the rows after the cursor, in order of versions
abbrev pub rows_after : ℤ → List SyncChange → List SyncChange
rows_after cursor log = sort_by by_version (newer cursor log)

module _ (cursor : ℤ) (log : List SyncChange) where
  abbrev raw : PullResponse
  raw = pull_from cursor (pos 100) log

  raw-next :
      HasDistinctVersions log
      → rows_after cursor log ≡ raw.changes ++ rows_after raw.latest_version log
  unfolding pull_from
  raw-next distinct = pull_changes-next cursor 100 log distinct

  raw_more : raw.has_more ≡ true → length raw.changes ≡ 100
  unfolding pull_from pull_changes
  raw_more e = (==_iff _ 100).0 e

  raw_last : raw.has_more ≡ false → raw.changes ≡ rows_after cursor log
  unfolding pull_from pull_changes
  raw_last e = short_take 100 (rows_after cursor log) e

  -- a full page leaves fewer rows behind it
  raw_shrinks :
      HasDistinctVersions log
      → raw.has_more ≡ true
      → length (rows_after raw.latest_version log) < length (rows_after cursor log)
  raw_shrinks distinct e = omega (
    arith,
    ap (length {A = SyncChange}) (raw-next distinct),
    raw_more e,
    length-append raw.changes (rows_after raw.latest_version log),
  )

last_empty :
    (page : PullResponse)
    → is_last_empty page ≡ true
    → (page.changes ≡ []) × (page.has_more ≡ false)
unfolding is_last_empty
last_empty page e = go page.changes page.has_more refl e
  where
    go :
        (cs : List SyncChange) (more : Bool)
        → page.changes ≡ cs
        → elim cs as (λ _. Bool) [ [] ↦ not more | _ ∷ _ ↦ false ] ≡ true
        → (page.changes ≡ []) × (more ≡ false)
    go [] false p e = (p, refl)
    go [] true p e = cc
    go (c ∷ cs) more p e = cc

module _ (env : Env) (device : Text) (log : List SyncChange) where
  abbrev pub visible : List SyncChange → List SyncChange
  visible = keep (λ (c : SyncChange). change_is_for env c device)

  -- the pages that a pass fetches from a cursor
  unfoldable pub pages_from : ℕ → ℤ → List PullResponse
  pages_from zero cursor = []
  pages_from (suc fuel) cursor =
      let page = page_of env device log cursor in
      let rest = pages_from fuel page.latest_version in
      if is_last_empty page then [] else if page.has_more then page ∷ rest else page ∷ []

  pages_from-visible :
      (fuel : ℕ) (cursor : ℤ)
      → HasDistinctVersions log
      → length (rows_after cursor log) < fuel
      → all_changes (pages_from fuel cursor) ≡ visible (rows_after cursor log)
  unfolding pages_from
  pages_from-visible zero cursor distinct h = absurd (omega arith)
  pages_from-visible (suc fuel) cursor distinct h =
      let page = page_of env device log cursor in
      elim (Bool-cases (is_last_empty page)) [
        | inl t ↦
            let (nothing, ended) = last_empty page t in
            rw t (sym nothing ∙ ap visible (raw_last cursor log ended))
        | inr f ↦ elim (Bool-cases page.has_more) [
          | inl more ↦
              rw (f, more)
                (ap (◌++◌ page.changes) (
                    pages_from-visible fuel page.latest_version distinct
                      (omega (arith, raw_shrinks cursor log distinct more)))
                  ∙ sym
                      (keep-append _ (raw cursor log).changes (rows_after page.latest_version log))
                  ∙ ap visible (sym (raw-next cursor log distinct)))
          | inr ended ↦
              rw (f, ended) (append-nil page.changes ∙ ap visible (raw_last cursor log ended))
        ]
      ]

  module _ {E S : Type 0} (handle : PullResponse → S → Result E S) (skip : ℤ → S → Result E S) where
    abbrev pub answers : ℤ → S → Result E PullResponse
    answers since s = ok (page_of env device log since)

    -- the effect of the pages on a state, in their order, up to the first error
    unfoldable pub take_all : List PullResponse → S → Result E S
    take_all [] s = ok s
    take_all (p ∷ ps) s = take_page answers handle skip p s >>= take_all ps

    onwards :
        (next : S → Option (Result E S)) (pages : List PullResponse) (r : Result E S)
        → ((s : S) → next s ≡ some (take_all pages s))
        → after_page answers handle skip true next r ≡ some (r >>= take_all pages)
    unfolding after_page
    onwards next pages (err e) h = refl
    onwards next pages (ok s) h = h s

    stops :
        (next : S → Option (Result E S)) (r : Result E S)
        → after_page answers handle skip false next r ≡ some (r >>= take_all [])
    unfolding after_page take_all
    stops next (err e) = refl
    stops next (ok s) = refl

    taken :
        (last more : Bool) (page : PullResponse) (next : S → Option (Result E S))
        (rest : List PullResponse) (s : S)
        → (more ≡ true → (s' : S) → next s' ≡ some (take_all rest s'))
        → (if last
            then some (ok s)
            else after_page answers handle skip more next (take_page answers handle skip page s))
          ≡ some (take_all (if last then [] else if more then page ∷ rest else page ∷ []) s)
    unfolding take_all
    taken true more page next rest s h = refl
    taken false true page next rest s h =
        onwards next rest (take_page answers handle skip page s) (h refl)
    taken false false page next rest s h = stops next (take_page answers handle skip page s)

    pull_loop-pages :
        (fuel : ℕ) (cursor : ℤ) (s : S)
        → HasDistinctVersions log
        → length (rows_after cursor log) < fuel
        → pull_loop answers handle skip fuel cursor s ≡ some (take_all (pages_from fuel cursor) s)
    unfolding pull_loop on_page pages_from
    pull_loop-pages zero cursor s distinct h = absurd (omega arith)
    pull_loop-pages (suc fuel) cursor s distinct h =
        let page = page_of env device log cursor in
        taken (is_last_empty page) page.has_more page
          (pull_loop answers handle skip fuel page.latest_version)
          (pages_from fuel page.latest_version) s
          (λ more s'.
            pull_loop-pages fuel page.latest_version s' distinct
              (omega (arith, raw_shrinks cursor log distinct more)))

    -- What the loop does from a cursor: it takes pages that hold, together and in order, every
    -- change after the cursor that the device may see.
    abbrev pub Takes : ℤ → S → Option (Result E S) → Type 0
    Takes cursor s r =
        (pages : List PullResponse) × (r ≡ some (take_all pages s))
        × (all_changes pages ≡ visible (rows_after cursor log))

    -- A pass against a peer whose log stands still and has no version twice ends, given more fuel
    -- than there are rows after the cursor. It takes pages up to the first error, and the pages hold,
    -- in order of versions and once each, exactly the changes after the cursor that the device may
    -- see: empty pages of offers to other devices do not stop it.
    pub pull_loop-Takes :
        (fuel : ℕ) (cursor : ℤ) (s : S)
        → HasDistinctVersions log
        → length (rows_after cursor log) < fuel
        → Takes cursor s (pull_loop answers handle skip fuel cursor s)
    pull_loop-Takes fuel cursor s distinct h = (
      pages_from fuel cursor,
      pull_loop-pages fuel cursor s distinct h,
      pages_from-visible fuel cursor distinct h,
    )
