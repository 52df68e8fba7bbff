-- ===== src/SyncServer/Wire/Files/Ranges.antt =====
-- The range of a file that is served lies in the file, and follows the precondition.
use mathlib.Core.Path.{subst}
use livtet.Base.{
  ℕ, ◌+◌, ◌-◌, ◌≤◌, true, false, Option, none, some, ◌≡◌, refl, ap, ◌∙◌, Option-cases, inl, inr,
  ltb, Bool-cases, arith,
}
use livtet.Base.Text.{Text, codes}
use livtet.Base.Result.{Result, ok, err, ok-injective, err-ne-ok}
use livtet.Sync.Json.{Env}
use livtet.Sync.Receive.{InventoryPaths}
use livtet.SyncIroh.Messages.{
  ErrorCode, not_found, range_not_satisfiable, Response, file_of, FileHeader, FileBody, serve_file,
}
use livtet.SyncServer.WireState.{WireState, Moment, Host}
use livtet.SyncServer.Wire.Access.{
  Failure, Answered, answer_reply, answer_error, answer_failure, answer_file, with_device,
}
use livtet.SyncServer.Wire.Files.{
  matches, served_length, range_of, content_type_for, file_range, file_path, file_paths,
  serve_range, file_metadata, inventory_paths,
}

-- How the header and the bytes behind it belong to a file on disk, and to the request: they are
-- the requested range if the caller named the file's etag, and the whole file otherwise.
pub record IsRange (m : Moment) (offset : ℕ) (n : Option ℕ) (if_range : Option Text)
    (a : FileHeader) (b : Option FileBody) : Type 0 where
  pub within : a.offset + a.length ≤ a.total
  pub continued :
      matches a.etag if_range ≡ true
      → (a.offset ≡ offset) × (a.length ≡ served_length (a.total - offset) n)
  pub restarted : matches a.etag if_range ≡ false → (a.offset ≡ 0) × (a.length ≡ a.total)
  pub on_disk :
      (path : Text) × ((modified : Option ℕ) × (m.metadata path ≡ some (a.total, modified)))
      × (b ≡ some (record { path = path; offset = a.offset; length = a.length }))

served_length-le : (available : ℕ) (n : Option ℕ) → served_length available n ≤ available
served_length-le available none = omega arith
served_length-le available (some n) = ground arith

range_of-within :
    (total : ℕ) (etag : Text) (offset : ℕ) (n : Option ℕ) (if_range : Option Text)
    → ltb total offset ≡ false
    → (range_of total etag offset n if_range).0 + (range_of total etag offset n if_range).1 ≤ total
unfolding range_of
range_of-within total etag offset n if_range e = elim (Bool-cases (matches etag if_range)) [
  | inl t ↦ rw t (ground (arith, served_length-le (total - offset) n))
  | inr f ↦ rw f (omega arith)
]

range_of-continued :
    (total : ℕ) (etag : Text) (offset : ℕ) (n : Option ℕ) (if_range : Option Text)
    → matches etag if_range ≡ true
    → range_of total etag offset n if_range ≡ (offset, served_length (total - offset) n)
unfolding range_of
range_of-continued total etag offset n if_range t = rw t refl

range_of-restarted :
    (total : ℕ) (etag : Text) (offset : ℕ) (n : Option ℕ) (if_range : Option Text)
    → matches etag if_range ≡ false
    → range_of total etag offset n if_range ≡ (0, total)
unfolding range_of
range_of-restarted total etag offset n if_range t = rw t refl

metadata_lem :
    (m : Moment) (path : Text) {total : ℕ} {etag : Text}
    → file_metadata m path ≡ ok (total, etag)
    → (modified : Option ℕ) × (m.metadata path ≡ some (total, modified))
unfolding file_metadata
metadata_lem m path e = elim (Option-cases (m.metadata path)) [
  | inl gone ↦ absurd (err-ne-ok (rw (gone, file_metadata) at e))
  | inr (p, is) ↦
      let e' = ok-injective (rw (is, file_metadata) at e) in
      (p.1, is ∙ ap (λ (t : ℕ). some (t, p.1)) (ap (λ (x : ℕ × Text). x.0) e'))
]

module _ {env : Env} (h : Host env) (m : Moment) (device : Text) where
  -- what an answer with this header says
  abbrev Ranged : ℕ → Option ℕ → Option Text → Answered env.F → Type 0
  Ranged offset n if_range a =
      (header : FileHeader)
      → a.outcome.response ≡ file_of header
      → IsRange m offset n if_range header a.outcome.body

  failure-Ranged :
      (offset : ℕ) (n : Option ℕ) (if_range : Option Text) (f : Failure)
      → Ranged offset n if_range (answer_failure f)
  unfolding answer_failure answer_error answer_reply
  failure-Ranged offset n if_range f header e = cc

  past-Ranged :
      (offset : ℕ) (n : Option ℕ) (if_range : Option Text) (code : ErrorCode) (message : Text)
      → Ranged offset n if_range (with_device device (answer_error code message))
  unfolding answer_error answer_reply with_device
  past-Ranged offset n if_range code message header e = cc

  header_of : {a b : FileHeader} → ◌≡◌ {A = Response env.F} (file_of a) (file_of b) → a ≡ b
  header_of e = cc

  -- the header of a range that is not past the file
  header_for : Text → ℕ → Text → ℕ × ℕ → FileHeader
  header_for path total etag range = record {
    content_type = content_type_for path;
    offset = range.0;
    length = range.1;
    total = total;
    etag = etag;
  }

  header_for-IsRange :
      (path : Text) (offset : ℕ) (n : Option ℕ) (if_range : Option Text) (total : ℕ) (etag : Text)
      → file_metadata m path ≡ ok (total, etag)
      → ltb total offset ≡ false
      → let a = header_for path total etag (range_of total etag offset n if_range) in
        IsRange m offset n if_range a
          (some (record { path = path; offset = a.offset; length = a.length }))
  unfolding header_for
  header_for-IsRange path offset n if_range total etag e f = record {
    within = range_of-within total etag offset n if_range f;
    continued = λ t.
        let p = range_of-continued total etag offset n if_range t in
        (ap (λ (x : ℕ × ℕ). x.0) p, ap (λ (x : ℕ × ℕ). x.1) p);
    restarted = λ t.
        let p = range_of-restarted total etag offset n if_range t in
        (ap (λ (x : ℕ × ℕ). x.0) p, ap (λ (x : ℕ × ℕ). x.1) p);
    on_disk = (path, metadata_lem m path e, refl);
  }

  file_range-Ranged :
      (path : Text) (offset : ℕ) (n : Option ℕ) (if_range : Option Text)
      (r : Result Failure (ℕ × Text))
      → file_metadata m path ≡ r
      → Ranged offset n if_range (file_range h m device path offset n if_range r)
  unfolding file_range header_for
  file_range-Ranged path offset n if_range (err f) e = failure-Ranged offset n if_range f
  file_range-Ranged path offset n if_range (ok (total, etag)) e =
      elim (Bool-cases (ltb total offset)) [
        | inl t ↦ rw t (
            past-Ranged offset n if_range (range_not_satisfiable total)
              (codes "the offset is past the file"))
        | inr f ↦ rw f (served path offset n if_range total etag e f)
      ]
    where
      served :
          (path : Text) (offset : ℕ) (n : Option ℕ) (if_range : Option Text) (total : ℕ)
          (etag : Text)
          → file_metadata m path ≡ ok (total, etag)
          → ltb total offset ≡ false
          → Ranged offset n if_range (
              with_device device (
                answer_file
                  (header_for path total etag (range_of total etag offset n if_range))
                  path))
      served path offset n if_range total etag e f header k =
          unfold with_device answer_file serve_file in
          subst
            (λ (a : FileHeader).
              IsRange m offset n if_range a
                (answer_file {F = env.F}
                  (header_for path total etag (range_of total etag offset n if_range))
                  path).outcome.body)
            (header_of k) (header_for-IsRange path offset n if_range total etag e f)

  file_path-Ranged :
      (offset : ℕ) (n : Option ℕ) (if_range path : Option Text)
      → Ranged offset n if_range (file_path h m device offset n if_range path)
  unfolding file_path answer_error answer_failure
  file_path-Ranged offset n if_range none =
      failure-Ranged offset n if_range
        (record { code = not_found; message = codes "this inventory has no file" })
  file_path-Ranged offset n if_range (some path) =
      file_range-Ranged path offset n if_range (file_metadata m path) refl

  file_paths-Ranged :
      (offset : ℕ) (n : Option ℕ) (if_range : Option Text) (r : Result Failure InventoryPaths)
      → Ranged offset n if_range (file_paths h m device offset n if_range r)
  unfolding file_paths
  file_paths-Ranged offset n if_range (err f) = failure-Ranged offset n if_range f
  file_paths-Ranged offset n if_range (ok p) = file_path-Ranged offset n if_range p.file_path

  -- Every file that is served is on disk at the size that the header gives, its range lies inside
  -- it, and the bytes behind the header are that range: the requested one, cut at the end, if the
  -- caller named the file's etag, and the whole file otherwise.
  pub serve_range-IsRange :
      (id : Text) (offset : ℕ) (n : Option ℕ) (if_range : Option Text) (s : WireState env.Tables)
      (header : FileHeader)
      → (serve_range h m device id offset n if_range s).outcome.response ≡ file_of header
      → IsRange m offset n if_range header
          (serve_range h m device id offset n if_range s).outcome.body
  unfolding serve_range
  serve_range-IsRange id offset n if_range s =
      file_paths-Ranged offset n if_range (inventory_paths h m id s)
