-- ===== src/Http/Path/Containment.antt =====
-- About validate_and_resolve_path of src/http.c and the document root.
use nx_lite.Base.{
  ◌↔◌, ℕ, suc, ◌-◌, ◌<◌, ◌≡◌, refl, sym, ◌∙◌, ap, subst, ◌⊎◌, inl, inr, true, Option, none, some,
  [], ◌∷◌, ◌++◌, leb, length, take, drop, Bytes, codes, has_prefix, strstr, strrchr, arith,
  Bool-cases, Option-cases, leb-false, take_all, ==_iff, append-nil,
}
use nx_lite.Http.Path.{
  path_max, within_root, resolve_parent, canonical_path, validate_and_resolve_path,
}

-- The root itself, or the root, a slash, and more.
abbrev pub IsWithin : Bytes → Bytes → Type 0
IsWithin root path = (path ≡ root) ⊎ ((rest : Bytes) × (path ≡ root ++ (47 ∷ rest)))

has_prefix-append : (s t : Bytes) → has_prefix s t ≡ true → s ≡ t ++ drop (length t) s
unfolding has_prefix
has_prefix-append s [] h = refl
has_prefix-append [] (y ∷ t) h = ground arith
has_prefix-append (x ∷ s) (y ∷ t) h = ground (arith, has_prefix-append s t)

-- What stands behind the root begins with a slash.
within_root-rest :
    (path root s : Bytes)
    → drop (length root) path ≡ s
    → within_root path root ≡ true
    → (s ≡ []) ⊎ ((rest : Bytes) × (s ≡ 47 ∷ rest))
unfolding within_root
within_root-rest path root [] e h = inl refl
within_root-rest path root (c ∷ s) e h =
    inr (s, ap (λ x. x ∷ s) ((==_iff c 47).0 (ground (arith, e, h))))

within_root-has_prefix :
    (path root : Bytes) → within_root path root ≡ true → has_prefix path root ≡ true
unfolding within_root
within_root-has_prefix path root h = ground (arith, h)

within_root-IsWithin : (path root : Bytes) → within_root path root ≡ true → IsWithin root path
within_root-IsWithin path root h = elim (within_root-rest path root _ refl h) [
  | inl e ↦ inl (whole ∙ ap (◌++◌ root) e ∙ append-nil root)
  | inr (rest, e) ↦ inr (rest, whole ∙ ap (◌++◌ root) e)
]
  where
    whole : path ≡ root ++ drop (length root) path
    whole = has_prefix-append path root (within_root-has_prefix path root h)

module _ (realpath : Bytes → Option Bytes) (root_dir request_path : Bytes) (size : ℕ) where
  -- The tests that a resolved path has passed.
  resolved_cases :
      (path : Bytes)
      → validate_and_resolve_path realpath root_dir request_path size ≡ some path
      → (strstr request_path (codes "..") ≡ none)
        × (length (root_dir ++ request_path) < path_max)
        × (full : Bytes) × (canonical_path realpath root_dir (root_dir ++ request_path) ≡ some full)
        × (root : Bytes) × (realpath root_dir ≡ some root)
        × (within_root full root ≡ true)
        × (length full < size)
        × (path ≡ full)
  unfolding validate_and_resolve_path
  resolved_cases path h = elim (Option-cases (strstr request_path (codes ".."))) [
    | inr (n, e) ↦ absurd (ground (arith, e))
    | inl e ↦ elim (Bool-cases (leb path_max (length (root_dir ++ request_path)))) [
      | inl long ↦ absurd (ground (arith, e, long))
      | inr fits ↦
          elim (Option-cases (canonical_path realpath root_dir (root_dir ++ request_path))) [
            | inl e1 ↦ absurd (ground (arith, e, fits, e1))
            | inr (full, e1) ↦ elim (Option-cases (realpath root_dir)) [
              | inl e2 ↦ absurd (ground (arith, e, fits, e1, e2))
              | inr (root, e2) ↦ elim (Bool-cases (within_root full root)) [
                | inr outside ↦ absurd (ground (arith, e, fits, e1, e2, outside))
                | inl inside ↦ elim (Bool-cases (leb size (length full))) [
                  | inl large ↦ absurd (ground (arith, e, fits, e1, e2, inside, large))
                  | inr small ↦
                      let room : length full < size = leb-false size (length full) small in
                      (
                        e,
                        leb-false path_max (length (root_dir ++ request_path)) fits,
                        full,
                        e1,
                        root,
                        e2,
                        inside,
                        room,
                        ground (
                          arith,
                          e,
                          fits,
                          e1,
                          e2,
                          inside,
                          small,
                          take_all (size - 1) full (omega arith),
                        ),
                      )
                ]
              ]
            ]
          ]
    ]
  ]

  -- A path that is resolved, whatever realpath answers, is the canonical root or lies below it with
  -- a slash behind the root, and fits its buffer; and the request had no `..` in it.
  pub resolved-IsWithin :
      (path : Bytes)
      → validate_and_resolve_path realpath root_dir request_path size ≡ some path
      → (root : Bytes) × (realpath root_dir ≡ some root)
        × IsWithin root path
        × (length path < size)
        × (strstr request_path (codes "..") ≡ none)
  resolved-IsWithin path h =
      let (clean, short, full, e1, root, e2, inside, room, same) = resolved_cases path h in
      (
        root,
        e2,
        subst (IsWithin root) (sym same) (within_root-IsWithin full root inside),
        subst (λ p. length p < size) (sym same) room,
        clean,
      )

  -- Of a file that realpath finds, the canonical path is returned exactly if the request has no `..`
  -- in it, the path to resolve and the result fit their buffers, and the result passes the test on
  -- the canonical root.
  resolved_existing :
      (full root : Bytes)
      → realpath (root_dir ++ request_path) ≡ some full
      → realpath root_dir ≡ some root
      → (validate_and_resolve_path realpath root_dir request_path size ≡ some full) ↔ (
          (strstr request_path (codes "..") ≡ none)
          × (length (root_dir ++ request_path) < path_max)
          × (within_root full root ≡ true)
          × (length full < size))
  unfolding canonical_path
  resolved_existing full root found top = (forth, back)
    where
      forth :
          validate_and_resolve_path realpath root_dir request_path size ≡ some full
          → (strstr request_path (codes "..") ≡ none)
            × (length (root_dir ++ request_path) < path_max)
            × (within_root full root ≡ true)
            × (length full < size)
      forth h =
          let (clean, short, full', e1, root', e2, inside, room, same) = resolved_cases full h in
          let r : root' ≡ root = ground (arith, e2, top) in
          (
            clean,
            short,
            subst (λ p. within_root p root ≡ true) (sym same)
                (subst (λ p. within_root full' p ≡ true) r inside),
            subst (λ p. length p < size) (sym same) room,
          )

      back :
          (strstr request_path (codes "..") ≡ none)
            × (length (root_dir ++ request_path) < path_max)
            × (within_root full root ≡ true)
            × (length full < size)
          → validate_and_resolve_path realpath root_dir request_path size ≡ some full
      back (clean, short, inside, room) =
          unfold validate_and_resolve_path in
          ground
            (arith, found, top, clean, short, inside, room, take_all (size - 1) full (omega arith))

-- A missing file is resolved to the canonical path of its directory, a slash and its name, provided
-- the directory is within the root and everything fits.
resolved_missing :
    (realpath : Bytes → Option Bytes) (root_dir request_path dir root : Bytes) (size slash : ℕ)
    → realpath (root_dir ++ request_path) ≡ none
    → realpath root_dir ≡ some root
    → strrchr (root_dir ++ request_path) 47 ≡ some slash
    → realpath (take slash (root_dir ++ request_path)) ≡ some dir
    → (path : Bytes) → validate_and_resolve_path realpath root_dir request_path size ≡ some path
    → (path ≡ dir ++ (47 ∷ drop (suc slash) (root_dir ++ request_path))) × IsWithin root dir
resolved_missing realpath root_dir request_path dir root size slash missing top last parent path h =
    let (clean, short, full, e1, root', e2, inside, room, same) =
      resolved_cases realpath root_dir request_path size path h in
    elim (Bool-cases (within_root dir root)) [
      | inr outside ↦ absurd (
          unfold canonical_path resolve_parent in
          ground (arith, e1, missing, top, last, parent, outside))
      | inl ok ↦ (
        same
            ∙ unfold canonical_path resolve_parent in
              ground (arith, e1, missing, top, last, parent, ok),
        within_root-IsWithin dir root ok,
      )
    ]
