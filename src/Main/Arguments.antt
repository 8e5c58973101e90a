-- ===== src/Main/Arguments.antt =====
-- About the arguments in main of src/main.c.
use nx_lite.Base.{
  ◌≡◌, refl, sym, ◌∙◌, ap, inl, inr, Bool, true, false, ◌||◌, List, [], ◌∷◌, ◌++◌, if◌then◌else◌,
  Bytes, codes, arith, All, append-nil, Bool-cases, ◌⊎◌,
}
use nx_lite.Main.{
  run_with, show_usage, unknown_option, is_option, is_development, is_help, scan_arguments,
  parse_arguments,
}

-- An argument that does not end the scan: the name of a file, or the development flag.
abbrev pub IsPlain : Bytes → Type 0
IsPlain arg = (is_development arg ≡ true) ⊎ ((is_help arg ≡ false) × (is_option arg ≡ false))

-- The last argument that is no flag, or the given file.
abbrev pub last_file : Bytes → List Bytes → Bytes
last_file file [] = file
last_file file (arg ∷ args) = last_file (if is_development arg then file else arg) args

abbrev pub any_development : List Bytes → Bool
any_development [] = false
any_development (arg ∷ args) = is_development arg || any_development args

or_true : (b : Bool) → (b || true) ≡ true
or_true true = refl
or_true false = refl

scan_arguments-plain :
    (before rest : List Bytes) (file : Bytes) (development : Bool)
    → All IsPlain before
    → scan_arguments (before ++ rest) file development
      ≡ scan_arguments rest (last_file file before) (development || any_development before)
unfolding scan_arguments
scan_arguments-plain [] rest file true v = refl
scan_arguments-plain [] rest file false v = refl
scan_arguments-plain (arg ∷ before) rest file development (v, vs) =
    elim (Bool-cases (is_development arg)) [
      | inl flag ↦ rw flag (
          scan_arguments-plain before rest file true vs
          ∙ ap (scan_arguments rest (last_file file before)) (sym (or_true development)))
      | inr other ↦ elim v [
        | inl flag ↦ absurd (ground (arith, flag, other))
        | inr (no_help, no_option) ↦
            rw (other, no_help, no_option) (scan_arguments-plain before rest arg development vs)
      ]
    ]

-- Plain arguments run the server, with the last file among them or the usual one, and in development
-- mode exactly if some argument asks for it.
parse_arguments-plain :
    (args : List Bytes)
    → All IsPlain args
    → parse_arguments args
      ≡ run_with (last_file (codes "config/server.conf") args) (any_development args)
unfolding parse_arguments scan_arguments
parse_arguments-plain args v =
    ap (λ xs. scan_arguments xs (codes "config/server.conf") false) (sym (append-nil args))
    ∙ scan_arguments-plain args [] (codes "config/server.conf") false v

-- The first argument that is not plain decides: help shows the usage, any other option is refused.
parse_arguments-option :
    (before rest : List Bytes) (arg : Bytes)
    → All IsPlain before
    → is_development arg ≡ false
    → is_option arg ≡ true
    → parse_arguments (before ++ arg ∷ rest)
      ≡ (if is_help arg then show_usage else unknown_option arg)
unfolding parse_arguments scan_arguments
parse_arguments-option before rest arg v other option =
    scan_arguments-plain before (arg ∷ rest) (codes "config/server.conf") false v
    ∙ (rw (other, option) refl)
