-- ===== src/SyncIroh/Wire.antt =====
-- livtet-sync-iroh/src/wire.rs: messages in frames of chunks. A stream is the list of bytes that it
-- still holds; it ends where the list ends.
pub mod RoundTrip
pub mod Bounds
mod Tests
use livtet.Base.{
  ℕ, zero, suc, ◌+◌, ◌-◌, ◌*◌, ◌/◌, ◌%◌, ◌^◌, Bool, true, false, Option, none, some, List, [], ◌∷◌,
  ◌++◌, ◌==◌, ltb, leb, if◌then◌else◌, length, take, drop,
}
use livtet.Base.Text.{Text, codes}
use livtet.Base.Result.{Result, ok, err, ok_or, ◌>>=◌}

abbrev pub max_message_bytes : ℕ
max_message_bytes = 256 * 1024 * 1024

abbrev pub max_chunk_bytes : ℕ
max_chunk_bytes = 8 * 1024 * 1024

-- The messages of the errors of serde and of the stream are left out.
pub data WireError : Type 0 where
  io : WireError
  json : WireError
  too_large : ℕ → WireError
  chunk_overflow : (total chunk read : ℕ) → WireError
  empty_chunk : ℕ → WireError

-- `(n as u32).to_be_bytes()`
abbrev pub to_be_bytes : ℕ → List ℕ
to_be_bytes n = n / 16777216 % 256 ∷ n / 65536 % 256 ∷ n / 256 % 256 ∷ n % 256 ∷ []

-- `body.chunks(n)`, on fuel for as many chunks
abbrev pub chunks : ℕ → ℕ → List ℕ → List (List ℕ)
chunks zero n body = []
chunks (suc fuel) n [] = []
chunks (suc fuel) n (b ∷ body) = take n (b ∷ body) ∷ chunks fuel n (drop n (b ∷ body))

-- the writes of the loop over the chunks
unfoldable pub write_chunks : List (List ℕ) → List ℕ
write_chunks [] = []
write_chunks (c ∷ cs) = to_be_bytes (length c) ++ (c ++ write_chunks cs)

unfoldable pub write_body : List ℕ → Result WireError (List ℕ)
write_body body =
    if ltb max_message_bytes (length body)
    then err (too_large (length body))
    else ok (to_be_bytes (length body) ++ write_chunks (chunks (length body) max_chunk_bytes body))

-- `read_exact` into four bytes, and `u32::from_be_bytes`
abbrev pub read_u32 : List ℕ → Result WireError (ℕ × List ℕ)
read_u32 (a ∷ b ∷ c ∷ d ∷ s) = ok (a * 16777216 + b * 65536 + c * 256 + d, s)
read_u32 _ = err io

-- `read_exact` into `n` bytes
unfoldable pub read_exact : ℕ → List ℕ → Result WireError (List ℕ × List ℕ)
read_exact n s = if ltb (length s) n then err io else ok (take n s, drop n s)

-- the tests on a chunk's length, and the read of its bytes
unfoldable pub check_chunk : ℕ → List ℕ → ℕ → List ℕ → Result WireError (List ℕ × List ℕ)
check_chunk total body chunk s =
    if ltb max_chunk_bytes chunk
    then err (too_large chunk)
    else if chunk == 0
    then err (empty_chunk total)
    else if ltb total (length body + chunk)
    then err (chunk_overflow total chunk (length body))
    else (read_exact chunk s >>= λ r. ok (body ++ r.0, r.1))

-- the body of the loop
unfoldable pub read_chunk : ℕ → List ℕ → List ℕ → Result WireError (List ℕ × List ℕ)
read_chunk total body s = read_u32 s >>= λ r. check_chunk total body r.0 r.1

-- The loop, on fuel for as many chunks. `none` is out of fuel.
unfoldable pub read_loop : ℕ → ℕ → List ℕ → List ℕ → Option (Result WireError (List ℕ × List ℕ))
read_loop zero total body s = none
read_loop (suc fuel) total body s =
    if ltb (length body) total
    then (elim (read_chunk total body s) [
      | err e ↦ some (err e)
      | ok r ↦ read_loop fuel total r.0 r.1
    ])
    else some (ok (body, s))

-- past the total: no chunk is empty, so there are at most `total` of them
unfoldable pub read_total :
    Result WireError (ℕ × List ℕ) → Option (Result WireError (List ℕ × List ℕ))
read_total (err e) = some (err e)
read_total (ok (total, s)) =
    if ltb max_message_bytes total
    then some (err (too_large total))
    else read_loop (suc total) total [] s

-- `read_frame`, up to the parse of the body
unfoldable pub read_body : List ℕ → Option (Result WireError (List ℕ × List ℕ))
read_body s = read_total (read_u32 s)

-- `serde_json` on one type of messages
module _ {A : Type 0} (to_vec : A → Option (List ℕ)) (from_slice : List ℕ → Option A) where
  unfoldable pub write_frame : A → Result WireError (List ℕ)
  write_frame v = ok_or json (to_vec v) >>= write_body

  -- the message, and what the stream still holds
  unfoldable pub decode :
      Option (Result WireError (List ℕ × List ℕ)) → Option (Result WireError (A × List ℕ))
  decode none = none
  decode (some r) = some (r >>= λ x. ok_or json (from_slice x.0) >>= λ v. ok (v, x.1))

  unfoldable pub read_frame : List ℕ → Option (Result WireError (A × List ℕ))
  read_frame s = decode (read_body s)

  -- `Response::fits_one_frame`
  unfoldable pub fits_one_frame : A → Bool
  fits_one_frame v = elim (to_vec v) [
    | none ↦ false
    | some encoded ↦ leb (length encoded) max_message_bytes
  ]
