-- ===== src/Main/Defaults.antt =====
-- What main of src/main.c does with a configuration that leaves settings out.
use nx_lite.Base.{
  ℕ, zero, suc, ◌≡◌, refl, sym, subst, ◌∙◌, ap, inl, inr, Bool, true, false, Option, none, some,
  List, [], ◌∷◌, length, Bytes, arith, Bool-cases, Option-cases, codes, strcmp_eq, if◌then◌else◌,
  All,
}
use nx_lite.Config.{
  ℤ, pos, Settings, set_value, is_skipped, scan_line, trim_whitespace, parse_config_line, fgets,
  load_lines, config_load,
}
use nx_lite.Config.Reload.{load_lines-step, load_lines-end, Bytes-cases}
use nx_lite.Master.{SetUp, master_init, refused}
use nx_lite.Main.{
  zero_settings, System, returns, open_server, load_settings, run_file, open_log, with_master,
  set_mode,
}

-- The lines that config_load reads.
unfoldable pub lines : ℕ → Bytes → List Bytes
lines zero text = []
lines (suc fuel) text =
    let (line, rest) = fgets 511 text in elim line [ [] ↦ [] | c ∷ t ↦ (c ∷ t) ∷ lines fuel rest ]

-- Whether a line has a value for the key.
abbrev pub names_key : Bytes → Option (Bytes × Bytes) → Bool
names_key key none = false
names_key key (some (name, value)) = strcmp_eq (trim_whitespace name) key

abbrev pub sets_key : Bytes → Bytes → Bool
sets_key key line = if is_skipped line then false else names_key key (scan_line line)

set_value-worker_count :
    (key value : Bytes) (s : Settings)
    → strcmp_eq key (codes "worker_processes") ≡ false
    → (set_value key value s).worker_count ≡ s.worker_count
unfolding set_value
set_value-worker_count key value s h = rw h (ground arith)

parse_config_line-worker_count :
    (line : Bytes) (s : Settings)
    → sets_key (codes "worker_processes") line ≡ false
    → (parse_config_line line s).worker_count ≡ s.worker_count
unfolding parse_config_line
parse_config_line-worker_count line s h = elim (Bool-cases (is_skipped line)) [
  | inl e ↦ rw e refl
  | inr e ↦ elim (Option-cases (scan_line line)) [
    | inl none_read ↦ simp (parse_config_line, e, none_read) refl
    | inr ((name, value), read) ↦
        let other : strcmp_eq (trim_whitespace name) (codes "worker_processes") ≡ false =
          sym (
            subst
              (λ o.
                sets_key (codes "worker_processes") line ≡ names_key (codes "worker_processes") o)
              read
              (subst
                (λ b.
                  (if b then false else names_key (codes "worker_processes") (scan_line line))
                  ≡ names_key (codes "worker_processes") (scan_line line))
                (sym e) refl))
          ∙ h in
        simp (parse_config_line, e, read)
          (set_value-worker_count (trim_whitespace name) (trim_whitespace value) s other)
  ]
]

lines-step :
    (fuel c : ℕ) (t text : Bytes)
    → (fgets 511 text).0 ≡ c ∷ t
    → lines (suc fuel) text ≡ (c ∷ t) ∷ lines fuel (fgets 511 text).1
unfolding lines
lines-step fuel c t text e = simp (lines, e) refl

load_lines-worker_count :
    (fuel : ℕ) (text : Bytes) (s : Settings)
    → All (λ line. sets_key (codes "worker_processes") line ≡ false) (lines fuel text)
    → (load_lines fuel text s).worker_count ≡ s.worker_count
unfolding load_lines
load_lines-worker_count zero text s h = refl
load_lines-worker_count (suc fuel) text s h = elim (Bytes-cases (fgets 511 text).0) [
  | inl e ↦ ap (λ (r : Settings). r.worker_count) (load_lines-end (suc fuel) text s e)
  | inr (c, t, e) ↦
      let (first, others) =
        subst (All (λ line. sets_key (codes "worker_processes") line ≡ false))
          (lines-step fuel c t text e) h in
      ap (λ (r : Settings). r.worker_count) (load_lines-step fuel c t text s e)
      ∙ load_lines-worker_count fuel (fgets 511 text).1 (parse_config_line (c ∷ t) s) others
      ∙ parse_config_line-worker_count (c ∷ t) s first
]

no_workers : (s : SetUp) (port : ℤ) → master_init s port (pos 0) ≡ refused []
unfolding master_init
no_workers s port = refl

open_server-no_workers :
    (sys : System) (s : Settings) → s.worker_count ≡ pos 0 → open_server sys s ≡ returns 1
unfolding open_server
open_server-no_workers sys s h =
    elim (open_log sys s).1
      as (λ b.
        (if b
          then with_master s (open_log sys s).0 (master_init sys.socket_calls s.port s.worker_count)
          else returns 1)
        ≡ returns 1) [
          | true ↦
              ap (λ n. with_master s (open_log sys s).0 (master_init sys.socket_calls s.port n)) h
              ∙ ap (with_master s (open_log sys s).0) (no_workers sys.socket_calls s.port)
          | false ↦ refl
        ]

-- The program does not start from a configuration file that does not name the number of workers,
-- whatever else the file says and the system answers: main returns 1.
unnamed_worker_count_fails :
    (sys : System) (file path text : Bytes) (development : Bool)
    → sys.realpath file ≡ some path
    → sys.content path ≡ some text
    → All (λ line. sets_key (codes "worker_processes") line ≡ false) (lines (length text) text)
    → run_file sys file development ≡ returns 1
unfolding run_file load_settings config_load
unnamed_worker_count_fails sys file path text development found read unnamed =
    let loaded = load_lines (length text) text zero_settings in
    let settings : load_settings sys file development ≡ some (set_mode development loaded) =
      simp (load_settings, found, read) refl in
    let no_count : (set_mode development loaded).worker_count ≡ pos 0 =
      ground (arith, load_lines-worker_count (length text) text zero_settings unnamed) in
    simp (run_file, settings) (open_server-no_workers sys (set_mode development loaded) no_count)
