-- ===== src/Http/Path/Tests.antt =====
-- Paths resolved over a small file system.
use nx_lite.Base.{
  ◌<◌, ◌≡◌, refl, Option, none, some, length, Bytes, codes, strcmp_eq, if◌then◌else◌, strstr,
  strrchr, has_prefix,
}
use nx_lite.Http.Path.{path_max, within_root, validate_and_resolve_path}
use nx_lite.Http.Path.Containment.{IsWithin, resolved-IsWithin}

-- Two names resolve: the root directory and one file in it.
abbrev small_realpath : Bytes → Option Bytes
small_realpath p =
    if strcmp_eq p (codes "./static")
    then some (codes "/srv/static")
    else if strcmp_eq p (codes "./static/a.css")
    then some (codes "/srv/static/a.css")
    else none

abbrev resolve : Bytes → Option Bytes
resolve p = validate_and_resolve_path small_realpath (codes "./static") p path_max

resolve_file : resolve (codes "/a.css") ≡ some (codes "/srv/static/a.css")
unfolding validate_and_resolve_path strcmp_eq strstr has_prefix within_root
resolve_file = refl

resolve_absent : resolve (codes "/b.css") ≡ some (codes "/srv/static/b.css")
unfolding validate_and_resolve_path strcmp_eq strstr strrchr has_prefix within_root
resolve_absent = refl

resolve_dots : resolve (codes "/../etc") ≡ none
unfolding validate_and_resolve_path strstr has_prefix
resolve_dots = refl

resolved-IsWithin_example :
    (root : Bytes) × (small_realpath (codes "./static") ≡ some root)
    × IsWithin root (codes "/srv/static/a.css")
    × (length (codes "/srv/static/a.css") < path_max)
    × (strstr (codes "/a.css") (codes "..") ≡ none)
resolved-IsWithin_example =
    resolved-IsWithin small_realpath (codes "./static") (codes "/a.css") path_max
      (codes "/srv/static/a.css") resolve_file
