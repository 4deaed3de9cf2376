-- ===== src/Fs/Path/Examples.antt =====
-- Resolving "a/../b" from the root, over an index with the directory "/a" and the file "/b".
use genrt.Prelude.{ℕ, ◌≤◌, ◌≡◌, ◌↔◌, refl, Bool, true, false, [], ◌∷◌, length, ok, checked_add}
use genrt.Fs.Bytes.{Bytes, root, bytes_eq, rposition}
use genrt.Fs.Ramfs.{MountedRamfs, lookup_dir, lookup_file, dir_path, find_dir, find_file}
use genrt.Fs.Path.{
  path_max, ResolvedPath, file, is_directory, split_from, is_dot, is_dot_dot, needs_directory,
  find_non_empty, parent_dir, replace_with_dir_path, append_component, select, step, walk,
  start_dir, finish, capacity_of, resolve_existing_path,
}
use genrt.Fs.Path.Names.{Names}
use genrt.Fs.Path.Asks.{AsksDirectory}
use genrt.Fs.Path.Resolve.{resolve_existing_path-Names}

abbrev small : MountedRamfs
small = record {
  files = record { path = 47 ∷ 98 ∷ []; contents = 1 ∷ [] } ∷ [];
  dirs = record { path = root; entries = [] } ∷ record { path = 47 ∷ 97 ∷ []; entries = [] } ∷ [];
}

abbrev granted : ℕ → Bool
granted n = true

abbrev input : Bytes
input = 97 ∷ 47 ∷ 46 ∷ 46 ∷ 47 ∷ 98 ∷ []

abbrev resolved : ResolvedPath
resolved = record { absolute = 47 ∷ 98 ∷ []; node = file 0; requires_directory = false }

resolves : resolve_existing_path small granted 0 input ≡ ok resolved
unfolding resolve_existing_path start_dir finish capacity_of walk step is_dot is_dot_dot parent_dir
    replace_with_dir_path append_component select split_from find_non_empty needs_directory bytes_eq
    rposition lookup_dir lookup_file dir_path find_dir find_file checked_add
resolves = refl

resolve_existing_path-Names_example :
    (length resolved.absolute ≤ path_max)
    × Names small resolved.absolute resolved.node
    × ((resolved.requires_directory ≡ true) ↔ AsksDirectory input)
    × (resolved.requires_directory ≡ true → is_directory resolved.node ≡ true)
resolve_existing_path-Names_example =
    resolve_existing_path-Names small granted 0 input resolved resolves
