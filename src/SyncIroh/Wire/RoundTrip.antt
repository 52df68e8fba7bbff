-- ===== src/SyncIroh/Wire/RoundTrip.antt =====
-- What a peer writes, the other one reads.
use livtet.Base.{
  ℕ, zero, suc, ◌+◌, ◌*◌, ◌/◌, ◌%◌, ◌≤◌, ◌<◌, true, false, Option, some, List, [], ◌∷◌, ◌++◌, ◌≡◌,
  refl, sym, ap, ◌∙◌, ltb, leb, length, take, drop, arith, length-append, Bool-cases, Option-cases,
  ◌⊎◌, inl, inr, ltb→lt,
}
use mathlib.Core.List.{append_assoc, append-nil}
use livtet.Base.Result.{Result, ok, err, ◌>>=◌, ok-injective, err-ne-ok}
use livtet.SyncIroh.Wire.{
  max_message_bytes, max_chunk_bytes, WireError, too_large, to_be_bytes, chunks, write_chunks,
  write_body, read_u32, read_exact, check_chunk, read_chunk, read_loop, read_total, read_body,
  write_frame, read_frame, decode, fits_one_frame,
}

module _ {ℓ} {A : Type ℓ} where
  pub take-drop : (n : ℕ) (xs : List A) → take n xs ++ drop n xs ≡ xs
  take-drop zero xs = refl
  take-drop (suc n) [] = refl
  take-drop (suc n) (x ∷ xs) = ap (◌∷◌ x) (take-drop n xs)

  take-append : (xs ys : List A) → take (length xs) (xs ++ ys) ≡ xs
  take-append [] ys = refl
  take-append (x ∷ xs) ys = ap (◌∷◌ x) (take-append xs ys)

  drop-append : (xs ys : List A) → drop (length xs) (xs ++ ys) ≡ ys
  drop-append [] ys = refl
  drop-append (x ∷ xs) ys = drop-append xs ys

  pub length-take-le : (n : ℕ) (xs : List A) → length (take n xs) ≤ n
  length-take-le zero xs = omega arith
  length-take-le (suc n) [] = omega arith
  length-take-le (suc n) (x ∷ xs) = omega (arith, length-take-le n xs)

from_be :
    (n : ℕ)
    → n < 4294967296
    → n / 16777216 % 256 * 16777216 + n / 65536 % 256 * 65536 + n / 256 % 256 * 256 + n % 256 ≡ n
from_be n h = omega arith

read_u32-to_be_bytes :
    (n : ℕ) (s : List ℕ) → n < 4294967296 → read_u32 (to_be_bytes n ++ s) ≡ ok (n, s)
read_u32-to_be_bytes n s h = rw (from_be n h)

read_exact-append : (xs s : List ℕ) → read_exact (length xs) (xs ++ s) ≡ ok (xs, s)
unfolding read_exact
read_exact-append xs s = elim (Bool-cases (ltb (length (xs ++ s)) (length xs))) [
  | inl e ↦ absurd (omega (arith, ltb→lt _ _ e, length-append xs s))
  | inr e ↦ rw e (rw (take-append xs s) (rw (drop-append xs s)))
]

check_chunk-append :
    (total : ℕ) (body c s : List ℕ)
    → 0 < length c
    → length c ≤ max_chunk_bytes
    → length body + length c ≤ total
    → check_chunk total body (length c) (c ++ s) ≡ ok (body ++ c, s)
unfolding check_chunk
check_chunk-append total body c s h k l = ground (arith, read_exact-append c s)

read_chunk-append :
    (total : ℕ) (body c s : List ℕ)
    → 0 < length c
    → length c ≤ max_chunk_bytes
    → length body + length c ≤ total
    → read_chunk total body (to_be_bytes (length c) ++ (c ++ s)) ≡ ok (body ++ c, s)
unfolding read_chunk
read_chunk-append total body c s h k l =
    ap (λ (r : Result WireError (ℕ × List ℕ)). r >>= λ x. check_chunk total body x.0 x.1)
      (read_u32-to_be_bytes (length c) (c ++ s) (omega arith))
    ∙ check_chunk-append total body c s h k l

read_loop-step :
    (fuel total : ℕ) (body s : List ℕ) (r : List ℕ × List ℕ)
    → length body < total
    → read_chunk total body s ≡ ok r
    → read_loop (suc fuel) total body s ≡ read_loop fuel total r.0 r.1
unfolding read_loop
read_loop-step fuel total body s r h e = rw e (ground arith)

read_loop-end :
    (fuel total : ℕ) (body s : List ℕ)
    → total ≤ length body
    → read_loop (suc fuel) total body s ≡ some (ok (body, s))
unfolding read_loop
read_loop-end fuel total body s h = ground arith

length-take-positive : (n b : ℕ) (bs : List ℕ) → 0 < n → 0 < length (take n (b ∷ bs))
length-take-positive zero b bs h = absurd (omega arith)
length-take-positive (suc n) b bs h = omega arith

pub length-parts : (n : ℕ) (xs : List ℕ) → length (take n xs) + length (drop n xs) ≡ length xs
length-parts n xs = sym (length-append (take n xs) (drop n xs)) ∙ ap length (take-drop n xs)

write_chunks-nil : (f n : ℕ) → write_chunks (chunks f n []) ≡ []
unfolding write_chunks
write_chunks-nil zero n = refl
write_chunks-nil (suc f) n = refl

-- the loop reads the rest of a body behind what it has read
read_loop-write_chunks :
    (fuel f n : ℕ) (body more s : List ℕ)
    → 0 < n
    → n ≤ max_chunk_bytes
    → length more ≤ f
    → length more < fuel
    → read_loop fuel (length body + length more) body (write_chunks (chunks f n more) ++ s)
      ≡ some (ok (body ++ more, s))
unfolding write_chunks
read_loop-write_chunks zero f n body more s h k l m = absurd (omega arith)
read_loop-write_chunks (suc fuel) f n body [] s h k l m =
    ap (λ (w : List ℕ). read_loop (suc fuel) (length body + 0) body (w ++ s)) (write_chunks-nil f n)
    ∙ read_loop-end fuel (length body + 0) body s (omega arith)
    ∙ ap (λ (x : List ℕ). some (ok (x, s))) (sym (append-nil body))
read_loop-write_chunks (suc fuel) zero n body (b ∷ bs) s h k l m = absurd (omega arith)
read_loop-write_chunks (suc fuel) (suc f) n body (b ∷ bs) s h k l m =
    let more = b ∷ bs in
    let c = take n more in
    let d = drop n more in
    let w = write_chunks (chunks f n d) in
    let total = length body + length more in
    let parts = length-parts n more in
    let positive = length-take-positive n b bs h in
    ap (λ (x : List ℕ). read_loop (suc fuel) total body (to_be_bytes (length c) ++ x))
      (append_assoc c w s)
    ∙ read_loop-step fuel total body _ (body ++ c, w ++ s) (omega arith)
        (read_chunk-append total body c (w ++ s) positive (omega (arith, length-take-le n more))
          (omega arith))
    ∙ ap (λ (t : ℕ). read_loop fuel t (body ++ c) (w ++ s)) (omega (arith, length-append body c))
    ∙ read_loop-write_chunks fuel f n (body ++ c) d s h k (omega arith) (omega arith)
    ∙ ap (λ (x : List ℕ). some (ok (x, s)))
        (append_assoc body c d ∙ ap (◌++◌ body) (take-drop n more))

read_total-within :
    (total : ℕ) (s : List ℕ)
    → ltb max_message_bytes total ≡ false
    → read_total (ok (total, s)) ≡ read_loop (suc total) total [] s
unfolding read_total
read_total-within total s h = rw h

read_body-frame :
    (body s : List ℕ)
    → ltb max_message_bytes (length body) ≡ false
    → read_body (
        (to_be_bytes (length body) ++ write_chunks (chunks (length body) max_chunk_bytes body))
        ++ s)
      ≡ some (ok (body, s))
unfolding read_body
read_body-frame body s e =
    let w = write_chunks (chunks (length body) max_chunk_bytes body) in
    ap read_total (read_u32-to_be_bytes (length body) (w ++ s) (ground arith))
    ∙ read_total-within (length body) (w ++ s) e
    ∙ ap (λ (t : ℕ). read_loop (suc (length body)) t [] (w ++ s)) (omega arith)
    ∙ read_loop-write_chunks (suc (length body)) (length body) max_chunk_bytes [] body s
        (omega arith) (omega arith) (omega arith) (omega arith)

-- A body that is written is read back, and the reader stops right behind it.
read_body-write_body :
    (body s bytes : List ℕ)
    → write_body body ≡ ok bytes
    → read_body (bytes ++ s) ≡ some (ok (body, s))
unfolding write_body
read_body-write_body body s bytes h = elim (Bool-cases (ltb max_message_bytes (length body))) [
  | inl e ↦ absurd (err-ne-ok (rw e at h))
  | inr e ↦
      ap (λ (x : List ℕ). read_body (x ++ s)) (ok-injective (sym (rw e at h)))
      ∙ read_body-frame body s e
]

module _ {A : Type 0} (to_vec : A → Option (List ℕ)) (from_slice : List ℕ → Option A) where
  decode-ok :
      (v : A) (body s : List ℕ)
      → from_slice body ≡ some v
      → decode to_vec from_slice (some (ok (body, s))) ≡ some (ok (v, s))
  unfolding decode
  decode-ok v body s h = rw h

  encoded :
      (v : A) {bytes : List ℕ}
      → write_frame to_vec from_slice v ≡ ok bytes
      → (body : List ℕ) × (to_vec v ≡ some body) × (write_body body ≡ ok bytes)
  unfolding write_frame
  encoded v h = elim (Option-cases (to_vec v)) [
    | inl e ↦ absurd (err-ne-ok (rw e at h))
    | inr (body, e) ↦ (body, e, rw e at h)
  ]

  -- If JSON text parses back to the value that it was made from, a message that one peer could
  -- write is what the other peer reads, whatever follows it on the stream, and the reader stops
  -- right behind it.
  pub read_frame-write_frame :
      ((v : A) (body : List ℕ) → to_vec v ≡ some body → from_slice body ≡ some v)
      → (v : A) (s bytes : List ℕ) → write_frame to_vec from_slice v ≡ ok bytes
      → read_frame to_vec from_slice (bytes ++ s) ≡ some (ok (v, s))
  unfolding read_frame
  read_frame-write_frame parses v s bytes h =
      let (body, e, w) = encoded v h in
      ap (decode to_vec from_slice) (read_body-write_body body s bytes w)
      ∙ decode-ok v body s (parses v body e)

  -- A message that JSON can encode is written exactly if it fits one frame; else the error gives
  -- the length of its encoding.
  pub write_frame-fits :
      (v : A) (body : List ℕ)
      → to_vec v ≡ some body
      → ((fits_one_frame to_vec from_slice v ≡ true)
          × ((bytes : List ℕ) × (write_frame to_vec from_slice v ≡ ok bytes)))
        ⊎ ((fits_one_frame to_vec from_slice v ≡ false)
            × (write_frame to_vec from_slice v ≡ err (too_large (length body))))
  unfolding write_frame fits_one_frame write_body
  write_frame-fits v body e = elim (Bool-cases (leb (length body) max_message_bytes)) [
    | inl h ↦ inl (
      rw (e, fits_one_frame) h,
      (
        to_be_bytes (length body) ++ write_chunks (chunks (length body) max_chunk_bytes body),
        rw (e, write_frame) (ground arith),
      ),
    )
    | inr h ↦ inr (rw (e, fits_one_frame) h, rw (e, write_frame) (ground arith))
  ]
