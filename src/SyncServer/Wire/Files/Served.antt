-- ===== src/SyncServer/Wire/Files/Served.antt =====
-- The answers for files and covers name the device that they are for, or are errors.
use livtet.Base.{ℕ, Option, none, some, refl, inl, inr, ltb, Bool-cases}
use livtet.Base.Text.{Text}
use livtet.Base.Result.{Result, ok, err}
use livtet.Sync.Json.{Env}
use livtet.Sync.Receive.{InventoryPaths}
use livtet.SyncServer.WireState.{WireState, Moment, Host}
use livtet.SyncServer.Wire.Access.{Failure, answer_error, answer_failure, answer_file, with_device}
use livtet.SyncServer.Wire.Access.Sessions.{Served}
use livtet.SyncServer.Wire.Files.{
  file_range, file_path, file_paths, serve_range, info_metadata, info_path, info_paths, serve_info,
  cover_metadata, cover_path, cover_paths, serve_cover_of, file_metadata, inventory_paths,
}

module _ {env : Env} (h : Host env) (m : Moment) (device : Text) where
  file_range-Served :
      (path : Text) (offset : ℕ) (n : Option ℕ) (if_range : Option Text)
      (r : Result Failure (ℕ × Text))
      → Served device (file_range h m device path offset n if_range r)
  unfolding file_range answer_failure answer_error with_device answer_file
  file_range-Served path offset n if_range (err f) = inl refl
  file_range-Served path offset n if_range (ok (total, etag)) =
      elim (Bool-cases (ltb total offset)) [ inl t ↦ rw t (inr refl) | inr f ↦ rw f (inr refl) ]

  file_path-Served :
      (offset : ℕ) (n : Option ℕ) (if_range path : Option Text)
      → Served device (file_path h m device offset n if_range path)
  unfolding file_path answer_error
  file_path-Served offset n if_range none = inl refl
  file_path-Served offset n if_range (some path) =
      file_range-Served path offset n if_range (file_metadata m path)

  file_paths-Served :
      (offset : ℕ) (n : Option ℕ) (if_range : Option Text) (r : Result Failure InventoryPaths)
      → Served device (file_paths h m device offset n if_range r)
  unfolding file_paths answer_failure
  file_paths-Served offset n if_range (err f) = inl refl
  file_paths-Served offset n if_range (ok p) = file_path-Served offset n if_range p.file_path

  pub serve_range-Served :
      (id : Text) (offset : ℕ) (n : Option ℕ) (if_range : Option Text) (s : WireState env.Tables)
      → Served device (serve_range h m device id offset n if_range s)
  unfolding serve_range
  serve_range-Served id offset n if_range s =
      file_paths-Served offset n if_range (inventory_paths h m id s)

  info_metadata-Served :
      (path : Text) (r : Result Failure (ℕ × Text))
      → Served device (info_metadata h m device path r)
  unfolding info_metadata answer_failure with_device
  info_metadata-Served path (err f) = inl refl
  info_metadata-Served path (ok (size, etag)) = inr refl

  info_path-Served : (path : Option Text) → Served device (info_path h m device path)
  unfolding info_path answer_error
  info_path-Served none = inl refl
  info_path-Served (some path) = info_metadata-Served path (file_metadata m path)

  info_paths-Served : (r : Result Failure InventoryPaths) → Served device (info_paths h m device r)
  unfolding info_paths answer_failure
  info_paths-Served (err f) = inl refl
  info_paths-Served (ok p) = info_path-Served p.file_path

  pub serve_info-Served :
      (id : Text) (s : WireState env.Tables) → Served device (serve_info h m device id s)
  unfolding serve_info
  serve_info-Served id s = info_paths-Served (inventory_paths h m id s)

  cover_metadata-Served :
      (path : Text) (r : Result Failure (ℕ × Text))
      → Served device (cover_metadata h m device path r)
  unfolding cover_metadata answer_failure with_device
  cover_metadata-Served path (err f) = inl refl
  cover_metadata-Served path (ok (size, etag)) = inr refl

  cover_path-Served : (path : Option Text) → Served device (cover_path h m device path)
  unfolding cover_path answer_error
  cover_path-Served none = inl refl
  cover_path-Served (some path) = cover_metadata-Served path (file_metadata m path)

  cover_paths-Served :
      (r : Result Failure InventoryPaths) → Served device (cover_paths h m device r)
  unfolding cover_paths answer_failure
  cover_paths-Served (err f) = inl refl
  cover_paths-Served (ok p) = cover_path-Served p.cover_path

  pub serve_cover_of-Served :
      (id : Text) (s : WireState env.Tables) → Served device (serve_cover_of h m device id s)
  unfolding serve_cover_of
  serve_cover_of-Served id s = cover_paths-Served (inventory_paths h m id s)
