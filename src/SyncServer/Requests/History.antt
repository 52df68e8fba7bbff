-- ===== src/SyncServer/Requests/History.antt =====
-- The bounded log against the history of all requests.
use mathlib.Core.List.{reverse-cons, reverse-append, append_assoc, append-nil}
use livtet.Base.{
  ℕ, zero, suc, ◌≤◌, true, false, List, [], ◌∷◌, ◌++◌, ◌≡◌, refl, ap, sym, ◌∙◌, leb, length, take,
  reverse, Bool-cases, leb→le, length-append, inl, inr, arith,
}
use livtet.SyncServer.Requests.{RequestRecord, request_log_cap, pop_over, record_request, recent}

-- what the log holds after these requests, in their order
unfoldable pub record_all : List RequestRecord → List RequestRecord → List RequestRecord
record_all [] queue = queue
record_all (r ∷ rs) queue = record_all rs (record_request r queue)

module _ {ℓ} {A : Type ℓ} where
  length-reverse : (xs : List A) → length (reverse xs) ≡ length xs
  length-reverse [] = refl
  length-reverse (x ∷ xs) =
      rw (reverse-cons x xs) (omega (arith, length-append (reverse xs) (x ∷ []), length-reverse xs))

  take-append : (n : ℕ) (xs ys : List A) → n ≤ length xs → take n (xs ++ ys) ≡ take n xs
  take-append zero xs ys h = refl
  take-append (suc n) [] ys h = absurd (omega arith)
  take-append (suc n) (x ∷ xs) ys h = ap (λ (t : List A). x ∷ t) (take-append n xs ys (omega arith))

  take_short : (n : ℕ) (xs : List A) → length xs ≤ n → take n xs ≡ xs
  take_short zero [] h = refl
  take_short zero (x ∷ xs) h = absurd (omega arith)
  take_short (suc n) [] h = refl
  take_short (suc n) (x ∷ xs) h = ap (λ (t : List A). x ∷ t) (take_short n xs (omega arith))

  take-take_less : (n : ℕ) (xs : List A) → take n (take (suc n) xs) ≡ take n xs
  take-take_less zero xs = refl
  take-take_less (suc n) [] = refl
  take-take_less (suc n) (x ∷ xs) = ap (λ (t : List A). x ∷ t) (take-take_less n xs)

-- Popping leaves room for one record.
reverse-pop_over :
    (queue : List RequestRecord) → reverse (pop_over queue) ≡ take 199 (reverse queue)
unfolding pop_over
reverse-pop_over [] = refl
reverse-pop_over (r ∷ queue) = elim (Bool-cases (leb request_log_cap (length (r ∷ queue)))) [
  | inl full ↦ rw full (
      reverse-pop_over queue
      ∙ sym (take-append 199 (reverse queue) (r ∷ []) (enough queue full))
      ∙ ap (take 199) (sym (reverse-cons r queue)))
  | inr free ↦ rw free (sym (take_short 199 (reverse (r ∷ queue)) (few (r ∷ queue) free)))
]
  where
    enough :
        (q : List RequestRecord)
        → leb request_log_cap (suc (length q)) ≡ true
        → 199 ≤ length (reverse q)
    enough q h = let e = leb→le 200 (suc (length q)) h in omega (arith, length-reverse q)

    few :
        (q : List RequestRecord) → leb request_log_cap (length q) ≡ false → length (reverse q) ≤ 199
    few q h = ground (arith, length-reverse q)

reverse-snoc {ℓ} : {A : Type ℓ} (xs : List A) (x : A) → reverse (xs ++ x ∷ []) ≡ x ∷ reverse xs
reverse-snoc xs x = reverse-append xs (x ∷ [])

-- The newest first, the log is the first 200 of the history.
reverse-record_all :
    (rs queue history : List RequestRecord)
    → reverse queue ≡ take request_log_cap history
    → reverse (record_all rs queue) ≡ take request_log_cap (reverse rs ++ history)
unfolding record_all record_request
reverse-record_all [] queue history h = h
reverse-record_all (r ∷ rs) queue history h =
    reverse-record_all rs (pop_over queue ++ r ∷ []) (r ∷ history) (
      reverse-snoc (pop_over queue) r
      ∙ ap (λ (t : List RequestRecord). r ∷ t)
          (reverse-pop_over queue ∙ ap (take 199) h ∙ take-take_less 199 history))
    ∙ ap (take request_log_cap) (
        sym (append_assoc (reverse rs) (r ∷ []) history)
        ∙ ap (λ (t : List RequestRecord). t ++ history) (sym (reverse-cons r rs)))

-- The log is the bounded view of the history of all requests: after any requests on an empty log,
-- `recent` gives the last of them, the newest first, and no more than 200 or than it is asked for.
pub recent-record_all :
    (limit : ℕ) (rs : List RequestRecord)
    → recent limit (record_all rs []) ≡ take limit (take request_log_cap (reverse rs))
unfolding recent
recent-record_all limit rs =
    ap (take limit)
      (reverse-record_all rs [] [] refl ∙ ap (take request_log_cap) (append-nil (reverse rs)))
