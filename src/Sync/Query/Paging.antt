-- ===== src/Sync/Query/Paging.antt =====
-- Pages of `pull_changes` join up where no two rows of the change log share a version.
use livtet.Base.{
  ℕ, zero, suc, Bool, true, List, [], ◌∷◌, ◌++◌, ◌≡◌, ◌≢◌, refl, sym, ap, ◌∙◌, arith, keep, take,
  All, Bool-cases, inl, inr,
}
use livtet.Base.Int.{ℤ, ltb_ℤ, ◌≤ℤ◌, ◌<ℤ◌, eq_of_parts}
use livtet.Base.Sort.{sort_by, insert_sorted, keep-sort_by, sort_by-IsSortedBy, IsSortedBy}
use livtet.Sync.Types.{SyncChange}
use livtet.Sync.Query.{newer, by_version, last_version, pull_changes}

-- no two rows have the same version
abbrev pub HasDistinctVersions : List SyncChange → Type 0
HasDistinctVersions [] = Unit
HasDistinctVersions (r ∷ rs) =
    All (λ (x : SyncChange). r.version ≢ x.version) rs × HasDistinctVersions rs

abbrev IsIncreasing : List SyncChange → Type 0
IsIncreasing [] = Unit
IsIncreasing (r ∷ rs) = All (λ (x : SyncChange). r.version <ℤ x.version) rs × IsIncreasing rs

All-keep :
    (P : SyncChange → Type 0) (p : SyncChange → Bool) (rs : List SyncChange)
    → All P rs
    → All P (keep p rs)
All-keep P p [] h = tt
All-keep P p (r ∷ rs) h = elim (Bool-cases (p r)) [
  | inl e ↦ rw e ((h.0, All-keep P p rs h.1))
  | inr e ↦ rw e (All-keep P p rs h.1)
]

keep-HasDistinctVersions :
    (p : SyncChange → Bool) (rs : List SyncChange)
    → HasDistinctVersions rs
    → HasDistinctVersions (keep p rs)
keep-HasDistinctVersions p [] h = tt
keep-HasDistinctVersions p (r ∷ rs) h = elim (Bool-cases (p r)) [
  | inl e ↦ rw e ((All-keep _ p rs h.0, keep-HasDistinctVersions p rs h.1))
  | inr e ↦ rw e (keep-HasDistinctVersions p rs h.1)
]

All-insert_sorted :
    (P : SyncChange → Type 0) (r : SyncChange) (rs : List SyncChange)
    → P r
    → All P rs
    → All P (insert_sorted by_version r rs)
unfolding insert_sorted
All-insert_sorted P r [] h k = (h, tt)
All-insert_sorted P r (x ∷ rs) h k = elim (Bool-cases (by_version r x)) [
  | inl e ↦ rw e ((h, k))
  | inr e ↦ rw e ((k.0, All-insert_sorted P r rs h k.1))
]

All-sort_by :
    (P : SyncChange → Type 0) (rs : List SyncChange) → All P rs → All P (sort_by by_version rs)
unfolding sort_by
All-sort_by P [] h = tt
All-sort_by P (r ∷ rs) h = All-insert_sorted P r (sort_by by_version rs) h.0 (All-sort_by P rs h.1)

All-ne_sym :
    (r : SyncChange) (rs : List SyncChange)
    → All (λ (x : SyncChange). r.version ≢ x.version) rs
    → All (λ (x : SyncChange). x.version ≢ r.version) rs
All-ne_sym r [] h = tt
All-ne_sym r (x ∷ rs) h = (λ e. h.0 (sym e), All-ne_sym r rs h.1)

insert_sorted-HasDistinctVersions :
    (r : SyncChange) (rs : List SyncChange)
    → All (λ (x : SyncChange). r.version ≢ x.version) rs
    → HasDistinctVersions rs
    → HasDistinctVersions (insert_sorted by_version r rs)
unfolding insert_sorted
insert_sorted-HasDistinctVersions r [] h k = (tt, tt)
insert_sorted-HasDistinctVersions r (x ∷ rs) h k = elim (Bool-cases (by_version r x)) [
  | inl e ↦ rw e ((h, k))
  | inr e ↦ rw e (
      (
        All-insert_sorted _ r rs (λ z. h.0 (sym z)) k.0,
        insert_sorted-HasDistinctVersions r rs h.1 k.1,
      ))
]

sort_by-HasDistinctVersions :
    (rs : List SyncChange) → HasDistinctVersions rs → HasDistinctVersions (sort_by by_version rs)
unfolding sort_by
sort_by-HasDistinctVersions [] h = tt
sort_by-HasDistinctVersions (r ∷ rs) h =
    insert_sorted-HasDistinctVersions r (sort_by by_version rs) (All-sort_by _ rs h.0)
      (sort_by-HasDistinctVersions rs h.1)

lt_of_sorted :
    (r x : SyncChange) → by_version r x ≡ true → r.version ≢ x.version → r.version <ℤ x.version
lt_of_sorted r x h n = elim (Bool-cases (ltb_ℤ r.version x.version)) [
  | inl e ↦ ground arith
  | inr e ↦ absurd (n (eq_of_parts r.version x.version (ground arith)))
]

All-lt :
    (r : SyncChange) (rs : List SyncChange)
    → All (λ x. by_version r x ≡ true) rs
    → All (λ (x : SyncChange). r.version ≢ x.version) rs
    → All (λ (x : SyncChange). r.version <ℤ x.version) rs
All-lt r [] h k = tt
All-lt r (x ∷ rs) h k = (lt_of_sorted r x h.0 k.0, All-lt r rs h.1 k.1)

IsIncreasing-of_sorted :
    (rs : List SyncChange) → IsSortedBy by_version rs → HasDistinctVersions rs → IsIncreasing rs
IsIncreasing-of_sorted [] h k = tt
IsIncreasing-of_sorted (r ∷ rs) h k = (All-lt r rs h.0 k.0, IsIncreasing-of_sorted rs h.1 k.1)

le-last_version :
    (v : ℤ) (n : ℕ) (rs : List SyncChange)
    → All (λ (x : SyncChange). v <ℤ x.version) rs
    → IsIncreasing rs
    → v ≤ℤ last_version v (take n rs)
unfolding last_version
le-last_version v zero rs h k = omega arith
le-last_version v (suc n) [] h k = omega arith
le-last_version v (suc n) (r ∷ rs) h k = omega (arith, h.0, le-last_version r.version n rs k.0 k.1)

newer-keeps :
    (v : ℤ) (rs : List SyncChange) → All (λ (x : SyncChange). v <ℤ x.version) rs → newer v rs ≡ rs
newer-keeps v [] h = refl
newer-keeps v (r ∷ rs) h = ground (arith, newer-keeps v rs h.1)

newer-old :
    (v : ℤ) (r : SyncChange) (rs : List SyncChange) → r.version ≤ℤ v → newer v (r ∷ rs) ≡ newer v rs
newer-old v r rs h = ground arith

newer-newer : (v w : ℤ) (rs : List SyncChange) → v ≤ℤ w → newer w (newer v rs) ≡ newer w rs
newer-newer v w [] h = refl
newer-newer v w (r ∷ rs) h = ground (arith, newer-newer v w rs h)

take-newer :
    (v : ℤ) (n : ℕ) (rs : List SyncChange)
    → All (λ (x : SyncChange). v <ℤ x.version) rs
    → IsIncreasing rs
    → rs ≡ take n rs ++ newer (last_version v (take n rs)) rs
unfolding last_version
take-newer v zero rs h k = sym (newer-keeps v rs h)
take-newer v (suc n) [] h k = refl
take-newer v (suc n) (r ∷ rs) h k = ap (◌∷◌ r) (
    take-newer r.version n rs k.0 k.1
    ∙ ap (◌++◌ (take n rs)) (sym (newer-old _ r rs (le-last_version r.version n rs k.0 k.1))))

newer-above : (v : ℤ) (rs : List SyncChange) → All (λ (x : SyncChange). v <ℤ x.version) (newer v rs)
newer-above v [] = tt
newer-above v (r ∷ rs) = elim (Bool-cases (ltb_ℤ v r.version)) [
  | inl e ↦ rw e ((ground arith, newer-above v rs))
  | inr e ↦ rw e (newer-above v rs)
]

sort_newer :
    (v : ℤ) (rs : List SyncChange)
    → newer v (sort_by by_version rs) ≡ sort_by by_version (newer v rs)
sort_newer v rs =
    keep-sort_by by_version (λ x y h. ground arith) (λ x y z h k. ground arith)
      (λ (r : SyncChange). ltb_ℤ v r.version) rs

-- Where no two rows share a version, a page and what is newer than its latest version are together,
-- in order of versions, all rows that are newer than the start: pulling on from the latest version
-- misses nothing and repeats nothing.
pub pull_changes-next :
    (since : ℤ) (limit : ℕ) (log : List SyncChange)
    → HasDistinctVersions log
    → sort_by by_version (newer since log)
      ≡ (pull_changes since limit log).changes
        ++ sort_by by_version (newer (pull_changes since limit log).latest_version log)
unfolding pull_changes
pull_changes-next since limit log distinct =
    let rows = sort_by by_version (newer since log) in
    let above =
      All-sort_by (λ (x : SyncChange). since <ℤ x.version) (newer since log)
        (newer-above since log) in
    let increasing =
      IsIncreasing-of_sorted rows
        (sort_by-IsSortedBy by_version (λ x y h. ground arith) (λ x y z h k. ground arith)
          (newer since log))
        (sort_by-HasDistinctVersions (newer since log) (keep-HasDistinctVersions _ log distinct)) in
    let w = last_version since (take limit rows) in
    take-newer since limit rows above increasing
    ∙ ap (◌++◌ (take limit rows)) (
        sort_newer w (newer since log)
        ∙ ap (sort_by by_version)
            (newer-newer since w log (le-last_version since limit rows above increasing)))
