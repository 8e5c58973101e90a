-- ===== src/Config/Reload.antt =====
-- About config_load and config_reload of src/config.c.
use nx_lite.Base.{
  ℕ, zero, suc, ◌+◌, ◌≤◌, ◌≡◌, refl, sym, subst, ◌∙◌, ap, ◌⊎◌, inl, inr, Bool, true, false, Option,
  none, some, [], ◌∷◌, ◌==◌, if◌then◌else◌, length, Bytes, arith, Bool-cases, Option-cases, codes,
  strcmp_eq, take_all, length-take-le,
}
use nx_lite.Config.{
  Settings, config_init, set_value, is_skipped, scan_line, parse_config_line, fgets, load_lines,
  config_load, config_reload,
}

-- A line that is read and the rest are the text.
fgets-length : (n : ℕ) (s : Bytes) → length (fgets n s).0 + length (fgets n s).1 ≡ length s
unfolding fgets
fgets-length zero s = omega arith
fgets-length (suc n) [] = omega arith
fgets-length (suc n) (c ∷ s) = elim (Bool-cases (c == 10)) [
  | inl end ↦ rw end (omega arith)
  | inr other ↦ rw other (omega (arith, fgets-length n s))
]

pub load_lines-step :
    (fuel c : ℕ) (t text : Bytes) (s : Settings)
    → (fgets 511 text).0 ≡ c ∷ t
    → load_lines (suc fuel) text s
      ≡ load_lines fuel (fgets 511 text).1 (parse_config_line (c ∷ t) s)
unfolding load_lines
load_lines-step fuel c t text s e = simp (load_lines, e) refl

pub load_lines-end :
    (fuel : ℕ) (text : Bytes) (s : Settings) → (fgets 511 text).0 ≡ [] → load_lines fuel text s ≡ s
unfolding load_lines
load_lines-end zero text s e = refl
load_lines-end (suc fuel) text s e = simp (load_lines, e) refl

pub Bytes-cases : (s : Bytes) → (s ≡ []) ⊎ ((c : ℕ) × (t : Bytes) × (s ≡ c ∷ t))
Bytes-cases [] = inl refl
Bytes-cases (c ∷ t) = inr (c, t, refl)

fgets-empty : (n : ℕ) (s : Bytes) → length s ≤ 0 → (fgets n s).0 ≡ []
fgets-empty n s h = elim (Bytes-cases (fgets n s).0) [
  | inl e ↦ e
  | inr (c, t, e) ↦ absurd (omega (arith, h, fgets-length n s, ap length e))
]

-- The rounds of config_load are enough: with any more rounds than the file has bytes, the same
-- settings are read from it.
load_lines_enough :
    (fuel fuel' : ℕ) (text : Bytes) (s : Settings)
    → length text ≤ fuel
    → length text ≤ fuel'
    → load_lines fuel text s ≡ load_lines fuel' text s
load_lines_enough zero fuel' text s h h' =
    load_lines-end 0 text s (fgets-empty 511 text h)
    ∙ sym (load_lines-end fuel' text s (fgets-empty 511 text h))
load_lines_enough (suc fuel) zero text s h h' =
    load_lines-end (suc fuel) text s (fgets-empty 511 text h')
    ∙ sym (load_lines-end 0 text s (fgets-empty 511 text h'))
load_lines_enough (suc fuel) (suc fuel') text s h h' = elim (Bytes-cases (fgets 511 text).0) [
  | inl e ↦ load_lines-end (suc fuel) text s e ∙ sym (load_lines-end (suc fuel') text s e)
  | inr (c, t, e) ↦
      let shorter : suc (length (fgets 511 text).1) ≤ length text =
        omega (arith, fgets-length 511 text, ap length e) in
      load_lines-step fuel c t text s e
      ∙ load_lines_enough fuel fuel' (fgets 511 text).1 (parse_config_line (c ∷ t) s)
          (omega (arith, h, shorter)) (omega (arith, h', shorter))
      ∙ sym (load_lines-step fuel' c t text s e)
]

-- The settings that a reload takes over from the file, for a file that does not set them the
-- defaults; the port and the number of connections stay as they are.
pub record Reloaded (fresh s s' : Settings) : Type 0 where
  pub port : s'.port ≡ s.port
  pub max_connections : s'.max_connections ≡ s.max_connections
  pub worker_count : s'.worker_count ≡ fresh.worker_count
  pub root_dir : s'.root_dir ≡ fresh.root_dir
  pub log_file : s'.log_file ≡ fresh.log_file
  pub keep_alive_timeout : s'.keep_alive_timeout ≡ fresh.keep_alive_timeout
  pub development_mode : s'.development_mode ≡ fresh.development_mode

-- The names of files in settings fit their buffers.
pub record Fits (s : Settings) : Type 0 where
  pub root_dir : length s.root_dir ≤ 255
  pub log_file : length s.log_file ≤ 255

Fits-if : (b : Bool) (s t : Settings) → Fits s → Fits t → Fits (if b then s else t)
Fits-if true s t v v' = v
Fits-if false s t v v' = v'

set_value-Fits : (key value : Bytes) (s : Settings) → Fits s → Fits (set_value key value s)
unfolding set_value
set_value-Fits key value s v =
    Fits-if (strcmp_eq key (codes "port")) _ _
      (record { root_dir = v.root_dir; log_file = v.log_file })
      (Fits-if (strcmp_eq key (codes "worker_processes")) _ _
        (record { root_dir = v.root_dir; log_file = v.log_file })
        (Fits-if (strcmp_eq key (codes "root")) _ _
          (record { root_dir = length-take-le 255 value; log_file = v.log_file })
          (Fits-if (strcmp_eq key (codes "log")) _ _
            (record { root_dir = v.root_dir; log_file = length-take-le 255 value })
            (Fits-if (strcmp_eq key (codes "max_connections")) _ _
              (record { root_dir = v.root_dir; log_file = v.log_file })
              (Fits-if (strcmp_eq key (codes "keep_alive_timeout")) _ _
                (record { root_dir = v.root_dir; log_file = v.log_file })
                (Fits-if (strcmp_eq key (codes "development_mode")) _ _
                  (record { root_dir = v.root_dir; log_file = v.log_file }) v))))))

parse_config_line-Fits : (line : Bytes) (s : Settings) → Fits s → Fits (parse_config_line line s)
unfolding parse_config_line
parse_config_line-Fits line s v = elim (Bool-cases (is_skipped line)) [
  | inl skipped ↦ simp (parse_config_line, skipped) v
  | inr used ↦ elim (Option-cases (scan_line line)) [
    | inl e ↦ simp (parse_config_line, used, e) v
    | inr (p, e) ↦ simp (parse_config_line, used, e) (set_value-Fits _ _ s v)
  ]
]

load_lines-Fits : (fuel : ℕ) (text : Bytes) (s : Settings) → Fits s → Fits (load_lines fuel text s)
load_lines-Fits zero text s v = unfold load_lines in v
load_lines-Fits (suc fuel) text s v = elim (Bytes-cases (fgets 511 text).0) [
  | inl e ↦ subst Fits (sym (load_lines-end (suc fuel) text s e)) v
  | inr (c, t, e) ↦
      subst Fits (sym (load_lines-step fuel c t text s e))
        (load_lines-Fits fuel (fgets 511 text).1 _ (parse_config_line-Fits (c ∷ t) s v))
]

config_init-Fits : Fits config_init
config_init-Fits = record {
  root_dir = unfold config_init in omega arith;
  log_file = unfold config_init in omega arith;
}

-- A reload takes over what the file, read over the defaults, says, but for the port and the number of
-- connections, which stay; without the file it fails.
config_reload_lem :
    (file : Option Bytes) (s : Settings)
    → ((file ≡ none) × (config_reload file s ≡ none))
      ⊎ ((fresh s' : Settings) × (config_load file config_init ≡ some fresh)
          × (config_reload file s ≡ some s')
          × Reloaded fresh s s')
unfolding config_reload config_load
config_reload_lem none s = inl (refl, refl)
config_reload_lem (some text) s =
    let fits = load_lines-Fits (length text) text config_init config_init-Fits in
    inr (
      load_lines (length text) text config_init,
      _,
      refl,
      refl,
      record {
        port = refl;
        max_connections = refl;
        worker_count = refl;
        root_dir = take_all 255 _ fits.root_dir;
        log_file = take_all 255 _ fits.log_file;
        keep_alive_timeout = refl;
        development_mode = refl;
      },
    )
