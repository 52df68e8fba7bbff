-- ===== src/SyncIroh/Wire/Tests.antt =====
-- Frames of small messages, and the theorems on them.
use livtet.Base.{ℕ, none, some, List, [], ◌∷◌, ◌++◌, ◌≡◌, ◌≢◌, refl, sym}
use livtet.Base.Result.{ok, err}
use livtet.SyncIroh.Wire.{
  write_frame, read_frame, write_body, write_chunks, read_body, read_total, read_loop, read_chunk,
  check_chunk, read_exact, io, too_large, empty_chunk, chunk_overflow,
}
use livtet.SyncIroh.Wire.RoundTrip.{read_frame-write_frame}
use livtet.SyncIroh.Wire.Bounds.{read_frame-ends}

abbrev hello : List ℕ
hello = 104 ∷ 105 ∷ []

abbrev frame : List ℕ
frame = 0 ∷ 0 ∷ 0 ∷ 2 ∷ 0 ∷ 0 ∷ 0 ∷ 2 ∷ 104 ∷ 105 ∷ []

write_hello : write_frame some some hello ≡ ok frame
unfolding write_frame write_body write_chunks
write_hello = refl

-- two chunks of one byte, an empty chunk, a chunk past the total, and a stream that ends
read_others :
    (read_body (0 ∷ 0 ∷ 0 ∷ 2 ∷ 0 ∷ 0 ∷ 0 ∷ 1 ∷ 104 ∷ 0 ∷ 0 ∷ 0 ∷ 1 ∷ 105 ∷ [])
      ≡ some (ok (hello, [])))
    × (read_body (0 ∷ 0 ∷ 0 ∷ 2 ∷ 0 ∷ 0 ∷ 0 ∷ 0 ∷ []) ≡ some (err (empty_chunk 2)))
    × (read_body (0 ∷ 0 ∷ 0 ∷ 2 ∷ 0 ∷ 0 ∷ 0 ∷ 3 ∷ []) ≡ some (err (chunk_overflow 2 3 0)))
    × (read_body (0 ∷ 0 ∷ 0 ∷ 2 ∷ 0 ∷ 0 ∷ 0 ∷ 2 ∷ 104 ∷ []) ≡ some (err io))
    × (read_body (255 ∷ 0 ∷ 0 ∷ 0 ∷ []) ≡ some (err (too_large 4278190080)))
unfolding read_body read_total read_loop read_chunk check_chunk read_exact
read_others = (refl, refl, refl, refl, refl)

read_frame-write_frame_example : read_frame some some (frame ++ 7 ∷ []) ≡ some (ok (hello, 7 ∷ []))
read_frame-write_frame_example =
    read_frame-write_frame some some (λ v body e. sym e) hello (7 ∷ []) frame write_hello

read_frame-ends_example : read_frame some some hello ≢ none
read_frame-ends_example = read_frame-ends some some hello
