-- ===== src/Config/Tests.antt =====
-- Lines of a configuration file.
use nx_lite.Base.{◌≡◌, refl, some, [], ◌∷◌, ◌++◌, codes, arith, has_byte, strcmp_eq, isspace}
use nx_lite.Http.Parse.{skip_whitespace}
use nx_lite.Http.Etag.{trim_end}
use nx_lite.Config.{
  pos, negsuc, config_init, trim_whitespace, atoi, digits, set_value, scan_line, scan_until,
  scan_value, parse_config_line, fgets, load_lines, config_load,
}
use nx_lite.Config.Keys.{root, parse_config_line-assign}

number_with_rest : atoi (codes " 120 \\") ≡ pos 120
unfolding atoi digits skip_whitespace isspace
number_with_rest = refl

negative_number : atoi (codes "-3") ≡ negsuc 2
unfolding atoi digits skip_whitespace isspace
negative_number = refl

-- 2^31 is not an int.
number_too_large : atoi (codes "2147483648") ≡ negsuc 2147483647
unfolding atoi digits skip_whitespace isspace
number_too_large = refl

-- The blank behind the equals sign is part of the directory.
root_with_blank :
    parse_config_line (codes "root = ./www \n") config_init
    ≡ record config_init { root_dir = codes " ./www" }
unfolding parse_config_line scan_line scan_value scan_until trim_whitespace skip_whitespace isspace
    trim_end set_value strcmp_eq
root_with_blank = refl

two_lines :
    config_load (some (codes "# port=1\nport=7877\nworker_processes=8")) config_init
    ≡ some (record config_init { port = pos 7877; worker_count = pos 8 })
unfolding config_load load_lines fgets parse_config_line scan_line scan_value scan_until
    trim_whitespace skip_whitespace isspace trim_end set_value strcmp_eq atoi digits
two_lines = refl

-- Blanks behind the key, and in front of the value and behind it.
parse_config_line-assign_example :
    parse_config_line
      ((codes "root" ++ codes "  ") ++ b'=' ∷ ((codes " ./ww" ++ b'w' ∷ codes " ") ++ 10 ∷ []))
      config_init
    ≡ record config_init { root_dir = codes " ./www" }
unfolding has_byte isspace
parse_config_line-assign_example =
    parse_config_line-assign root (codes " ./ww") b'w' (codes "  ") (codes " ") [] config_init refl
      (refl, (refl, tt)) (refl, tt) refl (omega arith) (omega arith)
