-- ===== src/SyncIroh/Wire/Bounds.antt =====
-- What a reader does with any stream, whatever a peer sends.
use livtet.Base.{
  ℕ, zero, suc, ◌+◌, ◌≤◌, ◌<◌, Option, none, some, List, [], ◌∷◌, ◌≡◌, ◌≢◌, refl, sym, ap, ◌∙◌,
  ◌==◌, ltb, length, take, arith, length-append, Bool-cases, ◌⊎◌, inl, inr,
}
use livtet.Base.Result.{Result, ok, err, >>=-eq-ok, ok-injective, err-ne-ok}
use livtet.SyncIroh.Wire.RoundTrip.{length-parts}
use livtet.SyncIroh.Wire.{
  max_message_bytes, max_chunk_bytes, WireError, read_u32, read_exact, check_chunk, read_chunk,
  read_loop, read_total, read_body, read_frame, decode,
}

some-ne-none {ℓ} : {A : Type ℓ} {a : A} → some a ≡ none → ⊥
some-ne-none h = cc

length-read_u32 :
    (s : List ℕ) (n : ℕ) (s' : List ℕ) → read_u32 s ≡ ok (n, s') → length s ≡ length s' + 4
length-read_u32 [] n s' h = absurd (err-ne-ok h)
length-read_u32 (a ∷ []) n s' h = absurd (err-ne-ok h)
length-read_u32 (a ∷ b ∷ []) n s' h = absurd (err-ne-ok h)
length-read_u32 (a ∷ b ∷ c ∷ []) n s' h = absurd (err-ne-ok h)
length-read_u32 (a ∷ b ∷ c ∷ d ∷ s) n s' h =
    omega (arith, ap (λ (x : ℕ × List ℕ). length x.1) (ok-injective h))

length-take : (n : ℕ) (xs : List ℕ) → n ≤ length xs → length (take n xs) ≡ n
length-take zero xs h = refl
length-take (suc n) [] h = absurd (omega arith)
length-take (suc n) (x ∷ xs) h = omega (arith, length-take n xs (omega arith))

length-read_exact :
    (n : ℕ) (s : List ℕ) (r : List ℕ × List ℕ)
    → read_exact n s ≡ ok r
    → (length r.0 ≡ n) × (length s ≡ length r.0 + length r.1)
unfolding read_exact
length-read_exact n s r h = elim (Bool-cases (ltb (length s) n)) [
  | inl e ↦ absurd (err-ne-ok (rw e at h))
  | inr e ↦
      let q = ok-injective (rw e at h) in
      let taken = length-take n s (ground arith) in
      (
        ap (λ (x : List ℕ × List ℕ). length x.0) (sym q) ∙ taken,
        sym (length-parts n s) ∙ ap (λ (x : List ℕ × List ℕ). length x.0 + length x.1) q,
      )
]

-- A chunk that is accepted makes the body longer, within the total, by bytes of the stream.
length-check_chunk :
    (total : ℕ) (body : List ℕ) (n : ℕ) (s : List ℕ) (r : List ℕ × List ℕ)
    → check_chunk total body n s ≡ ok r
    → (length body < length r.0)
      × (length r.0 ≤ total)
      × (length body + length s ≡ length r.0 + length r.1)
unfolding check_chunk
length-check_chunk total body n s r h = elim (Bool-cases (ltb max_chunk_bytes n)) [
  | inl e ↦ absurd (err-ne-ok (rw e at h))
  | inr e ↦ elim (Bool-cases (n == 0)) [
    | inl f ↦ absurd (err-ne-ok (rw f at (rw e at h)))
    | inr f ↦ elim (Bool-cases (ltb total (length body + n))) [
      | inl g ↦ absurd (err-ne-ok (rw g at (rw f at (rw e at h))))
      | inr g ↦
          let ((x, y), a, k) = >>=-eq-ok (read_exact n s) _ (rw g at (rw f at (rw e at h))) in
          let (l, m) = length-read_exact n s (x, y) a in
          let q = ok-injective k in
          let first = ap (λ (z : List ℕ × List ℕ). length z.0) q in
          let second = ap (λ (z : List ℕ × List ℕ). length z.1) q in
          ground (arith, length-append body x, first, second, l, m)
    ]
  ]
]

length-read_chunk :
    (total : ℕ) (body s : List ℕ) (r : List ℕ × List ℕ)
    → read_chunk total body s ≡ ok r
    → (length body < length r.0)
      × (length r.0 ≤ total)
      × (length body + length s ≡ length r.0 + length r.1 + 4)
unfolding read_chunk
length-read_chunk total body s r h =
    let ((n, s'), a, k) = >>=-eq-ok (read_u32 s) (λ x. check_chunk total body x.0 x.1) h in
    let (x, y, z) = length-check_chunk total body n s' r k in
    (x, y, omega (arith, z, length-read_u32 s n s' a))

Result-cases {ℓ} :
    {E A : Type ℓ} (m : Result E A) → ((e : E) × (m ≡ err e)) ⊎ ((a : A) × (m ≡ ok a))
Result-cases (ok a) = inr (a, refl)
Result-cases (err e) = inl (e, refl)

loop_ends :
    (fuel total : ℕ) (body s : List ℕ)
    → length body ≤ total
    → total < length body + fuel
    → read_loop fuel total body s ≢ none
unfolding read_loop
loop_ends zero total body s l h e = omega arith
loop_ends (suc fuel) total body s l h e = elim (Bool-cases (ltb (length body) total)) [
  | inr b ↦ some-ne-none (rw b at e)
  | inl b ↦ elim (Result-cases (read_chunk total body s)) [
    | inl (x, c) ↦ some-ne-none (rw c at (rw b at e))
    | inr (r, c) ↦
        let (longer, within, _) = length-read_chunk total body s r c in
        loop_ends fuel total r.0 r.1 within (omega arith) (rw c at (rw b at e))
  ]
]

total_ends : (r : Result WireError (ℕ × List ℕ)) → read_total r ≢ none
unfolding read_total
total_ends (err x) e = some-ne-none e
total_ends (ok (total, s)) e = elim (Bool-cases (ltb max_message_bytes total)) [
  | inl b ↦ some-ne-none (rw b at e)
  | inr b ↦ loop_ends (suc total) total [] s (omega arith) (omega arith) (rw b at e)
]

module _ {A : Type 0} (to_vec : A → Option (List ℕ)) (from_slice : List ℕ → Option A) where
  decode_ends :
      (o : Option (Result WireError (List ℕ × List ℕ)))
      → o ≢ none
      → decode to_vec from_slice o ≢ none
  unfolding decode
  decode_ends none h e = h refl
  decode_ends (some r) h e = some-ne-none e

  -- On every stream the reader's loop ends within the fuel of its total plus one: reading a frame
  -- gives a message or an error.
  pub read_frame-ends : (s : List ℕ) → read_frame to_vec from_slice s ≢ none
  unfolding read_frame read_body
  read_frame-ends s = decode_ends (read_total (read_u32 s)) (total_ends (read_u32 s))
