-- ===== src/SyncServer/Wire/Files.antt =====
-- livtet-sync-server/src/wire.rs: the files and covers of the inventory, in ranges.
pub mod Served
pub mod Ranges
use livtet.Base.{
  ℕ, zero, suc, ◌+◌, ◌-◌, ◌/◌, ◌%◌, Bool, true, false, ◌||◌, Option, none, some, List, [], ◌∷◌,
  ◌++◌, ◌==◌, ltb, leb, map, reverse, if◌then◌else◌,
}
use livtet.Base.Text.{Text, codes, text_eq, to_ascii_lowercase, strip_prefix}
use livtet.Base.Result.{Result, ok, err}
use livtet.Sync.Json.{Env}
use livtet.Sync.Apply.{from_hex}
use livtet.Sync.Receive.{InventoryPaths}
use livtet.SyncIroh.Messages.{
  ErrorCode, bad_request, not_found, range_not_satisfiable, FileHeader, FileMetadata, file_info_of,
}
use livtet.SyncServer.WireState.{WireState, inventory_lookup, Moment, Host, DbId}
use livtet.SyncServer.Wire.Access.{
  Failure, internal_failure, Answered, answer_reply, answer_error, answer_failure, answer_file,
  answer_cover, with_device,
}

hex_digit : ℕ → ℕ
hex_digit d = if ltb d 10 then b'0' + d else b'a' + (d - 10)

hex_from : ℕ → ℕ → Text → Text
unfolding hex_digit
hex_from zero n acc = acc
hex_from (suc fuel) n acc =
    let acc' = hex_digit (n % 16) ∷ acc in
    let rest = hex_from fuel (n / 16) acc' in if n / 16 == 0 then acc' else rest

-- `{:x}` of a number of at most 128 bits
unfoldable pub lower_hex : ℕ → Text
unfolding hex_from
lower_hex n = hex_from 32 n []

ends_with : Text → Text → Bool
ends_with suffix s = elim (strip_prefix (reverse suffix) (reverse s)) [
  | none ↦ false
  | some _ ↦ true
]

unfoldable pub content_type_for : Text → Text
unfolding ends_with
content_type_for path =
    let lower = map to_ascii_lowercase path in
    if ends_with (codes ".pdf") lower
    then codes "application/pdf"
    else if ends_with (codes ".png") lower
    then codes "image/png"
    else if ends_with (codes ".jpg") lower || ends_with (codes ".jpeg") lower
    then codes "image/jpeg"
    else if ends_with (codes ".webp") lower
    then codes "image/webp"
    else codes "application/epub+zip"

-- the size, and the modification time in nanoseconds, where there is one
etag_of : ℕ → Option ℕ → Text
unfolding lower_hex
etag_of size none = lower_hex size
etag_of size (some nanos) = lower_hex size ++ (b'-' ∷ lower_hex nanos)

unfoldable pub file_metadata : Moment → Text → Result Failure (ℕ × Text)
unfolding etag_of
file_metadata m path = elim (m.metadata path) [
  | none ↦ err (record { code = not_found; message = codes "the file is not on disk" })
  | some (size, modified) ↦ ok (size, etag_of size modified)
]

-- `if_range.as_deref() == Some(etag)`
abbrev pub matches : Text → Option Text → Bool
matches etag none = false
matches etag (some t) = text_eq t etag

abbrev pub min : ℕ → ℕ → ℕ
min a b = if leb a b then a else b

-- `length.unwrap_or(available).min(available)`
abbrev pub served_length : ℕ → Option ℕ → ℕ
served_length available none = available
served_length available (some n) = min n available

-- the start and the length of what is served
unfoldable pub range_of : ℕ → Text → ℕ → Option ℕ → Option Text → ℕ × ℕ
range_of total etag offset length if_range =
    if matches etag if_range then (offset, served_length (total - offset) length) else (0, total)

module _ {env : Env} (h : Host env) (m : Moment) where
  found_inventory : Option InventoryPaths → Result Failure InventoryPaths
  found_inventory none = err (record { code = not_found; message = codes "no such inventory" })
  found_inventory (some paths) = ok paths

  inventory_of : Option DbId → WireState env.Tables → Result Failure InventoryPaths
  unfolding found_inventory
  inventory_of none s = err (record { code = bad_request; message = codes "invalid inventory id" })
  inventory_of (some id) s =
      if m.refuses inventory_lookup
      then err (internal_failure (codes "inventory lookup: "))
      else found_inventory (h.inventory id s.db.tables)

  -- `parse_inventory_id` is `DbId::from_hex` again.
  unfoldable pub inventory_paths : Text → WireState env.Tables → Result Failure InventoryPaths
  unfolding inventory_of
  inventory_paths inventory_id s = inventory_of (from_hex env inventory_id) s

  -- what follows a file that is there
  unfoldable pub file_range :
      Text → Text → ℕ → Option ℕ → Option Text → Result Failure (ℕ × Text) → Answered env.F
  file_range device path offset length if_range (err f) = answer_failure f
  file_range device path offset length if_range (ok (total, etag)) =
      if ltb total offset
      then with_device device
          (answer_error (range_not_satisfiable total) (codes "the offset is past the file"))
      else (let range = range_of total etag offset length if_range in
          with_device device (
            answer_file
              (record {
                content_type = content_type_for path;
                offset = range.0;
                length = range.1;
                total = total;
                etag = etag;
              })
              path))

  file_path : Text → ℕ → Option ℕ → Option Text → Option Text → Answered env.F
  unfolding file_range
  file_path device offset length if_range none =
      answer_error not_found (codes "this inventory has no file")
  file_path device offset length if_range (some path) =
      file_range device path offset length if_range (file_metadata m path)

  file_paths : Text → ℕ → Option ℕ → Option Text → Result Failure InventoryPaths → Answered env.F
  unfolding file_path
  file_paths device offset length if_range (err f) = answer_failure f
  file_paths device offset length if_range (ok p) =
      file_path device offset length if_range p.file_path

  -- `file`, for the device that was authorized
  unfoldable pub serve_range :
      Text → Text → ℕ → Option ℕ → Option Text → WireState env.Tables → Answered env.F
  unfolding file_paths
  serve_range device inventory_id offset length if_range s =
      file_paths device offset length if_range (inventory_paths inventory_id s)

  info_metadata : Text → Text → Result Failure (ℕ × Text) → Answered env.F
  info_metadata device path (err f) = answer_failure f
  info_metadata device path (ok (size, etag)) = with_device device (
      answer_reply
        (file_info_of (record { content_type = content_type_for path; size = size; etag = etag })))

  info_path : Text → Option Text → Answered env.F
  unfolding info_metadata
  info_path device none = answer_error not_found (codes "this inventory has no file")
  info_path device (some path) = info_metadata device path (file_metadata m path)

  info_paths : Text → Result Failure InventoryPaths → Answered env.F
  unfolding info_path
  info_paths device (err f) = answer_failure f
  info_paths device (ok p) = info_path device p.file_path

  -- `file_info`, for the device that was authorized
  unfoldable pub serve_info : Text → Text → WireState env.Tables → Answered env.F
  unfolding info_paths
  serve_info device inventory_id s = info_paths device (inventory_paths inventory_id s)

  cover_metadata : Text → Text → Result Failure (ℕ × Text) → Answered env.F
  cover_metadata device path (err f) = answer_failure f
  cover_metadata device path (ok (total, etag)) = with_device device (
      answer_cover
        (record {
          content_type = content_type_for path;
          offset = 0;
          length = total;
          total = total;
          etag = etag;
        })
        path)

  cover_path : Text → Option Text → Answered env.F
  unfolding cover_metadata
  cover_path device none = answer_error not_found (codes "this inventory has no cover")
  cover_path device (some path) = cover_metadata device path (file_metadata m path)

  cover_paths : Text → Result Failure InventoryPaths → Answered env.F
  unfolding cover_path
  cover_paths device (err f) = answer_failure f
  cover_paths device (ok p) = cover_path device p.cover_path

  -- `cover`, for the device that was authorized
  unfoldable pub serve_cover_of : Text → Text → WireState env.Tables → Answered env.F
  unfolding cover_paths
  serve_cover_of device inventory_id s = cover_paths device (inventory_paths inventory_id s)
