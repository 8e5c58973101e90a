-- ===== src/Http/Path.antt =====
-- validate_and_resolve_path of src/http.c. `realpath` is the C library's: a function from a path to
-- the canonical path, or none on failure.
pub mod Containment
mod Tests
use nx_lite.Base.{
  ℕ, zero, suc, ◌+◌, ◌-◌, Bool, true, false, not, ◌&&◌, ◌||◌, Option, none, some, List, [], ◌∷◌,
  ◌++◌, ltb, leb, ◌==◌, if◌then◌else◌, length, take, drop, get_or, Bytes, codes, has_prefix, strstr,
  strrchr,
}

-- PATH_MAX of limits.h
abbrev pub path_max : ℕ
path_max = 4096

-- strncmp(path, root, strlen(root)) == 0 and the byte behind the root is NUL or a slash.
unfoldable pub within_root : Bytes → Bytes → Bool
within_root path root =
    has_prefix path root && elim (drop (length root) path) [ [] ↦ true | c ∷ s ↦ c == b'/' ]

module _ (realpath : Bytes → Option Bytes) where
  -- The path when realpath fails: that of the parent directory, if it is within the root, with the
  -- last component behind it.
  unfoldable pub resolve_parent : Bytes → Bytes → Option Bytes
  resolve_parent root_dir temp_path = elim (strrchr temp_path b'/') [
    | none ↦ elim (realpath root_dir) [ none ↦ none | some canonical_root ↦ some temp_path ]
    | some last_slash ↦ elim (realpath (take last_slash temp_path)) [
      | none ↦ none
      | some canonical_dir ↦ elim (realpath root_dir) [
        | none ↦ none
        | some canonical_root ↦
            let file = drop (suc last_slash) temp_path in
            if not (within_root canonical_dir canonical_root)
            then none
            else if leb path_max (length canonical_dir + 1 + length file)
            then none
            else some (canonical_dir ++ (b'/' ∷ file))
      ]
    ]
  ]

  unfoldable pub canonical_path : Bytes → Bytes → Option Bytes
  unfolding resolve_parent
  canonical_path root_dir temp_path = elim (realpath temp_path) [
    | some path ↦ some path
    | none ↦ resolve_parent root_dir temp_path
  ]

  -- The resolved path, or none for the return value -1. A C string holds no null byte, so the test
  -- on one never fires; the path of a failed snprintf is not modelled.
  unfoldable pub validate_and_resolve_path : Bytes → Bytes → ℕ → Option Bytes
  unfolding canonical_path
  validate_and_resolve_path root_dir request_path resolved_path_size =
      elim (strstr request_path (codes "..")) [
        | some n ↦ none
        | none ↦
            let temp_path = root_dir ++ request_path in
            if leb path_max (length temp_path)
            then none
            else elim (canonical_path root_dir temp_path) [
              | none ↦ none
              | some path ↦ elim (realpath root_dir) [
                | none ↦ none
                | some canonical_root ↦
                    if not (within_root path canonical_root)
                    then none
                    else if leb resolved_path_size (length path)
                    then none
                    else some (take (resolved_path_size - 1) path)
              ]
            ]
      ]
