-- ===== src/Process/Printed.antt =====
-- A command line that asks for settings, and what the loop over the arguments makes of it.
use nuords_proxy.Prelude.{
  ℤ, none, ◌≡◌, refl, ap, ◌∙◌, List, [], ◌∷◌, Bytes, codes, fit_within, if◌then◌else◌, ◌||◌, Bool,
  true, false,
}
use nuords_proxy.Config.Texts.{same_text, starts_text}
use nuords_proxy.Process.{Process, lite_daemon, full_daemon}
use nuords_proxy.Process.Arguments.{
  option_of, settings, take_opt, take_value, parse_args, to_file, to_cons, to_slog, set_pid_path,
  log_debug,
}

pub data Setting : Type 0 where
  use_config log_to at_level use_pid : Bytes → Setting
  appends to_console to_syslog is_verbose detaches stays : Setting

abbrev pub print_settings : List Setting → List Bytes
print_settings [] = []
print_settings (use_config path ∷ rest) = codes "-cf" ∷ path ∷ print_settings rest
print_settings (log_to path ∷ rest) = codes "-lf" ∷ path ∷ print_settings rest
print_settings (at_level n ∷ rest) = codes "-ll" ∷ n ∷ print_settings rest
print_settings (use_pid path ∷ rest) = codes "-pf" ∷ path ∷ print_settings rest
print_settings (appends ∷ rest) = codes "-la" ∷ print_settings rest
print_settings (to_console ∷ rest) = codes "-lc" ∷ print_settings rest
print_settings (to_syslog ∷ rest) = codes "-ls" ∷ print_settings rest
print_settings (is_verbose ∷ rest) = codes "-lv" ∷ print_settings rest
print_settings (detaches ∷ rest) = codes "-dd" ∷ print_settings rest
print_settings (stays ∷ rest) = codes "-dl" ∷ print_settings rest

module _ (atoi : Bytes → ℤ) where
  abbrev pub make_setting : Setting → Process → Process
  make_setting (use_config path) p = record p { cfg_path = path }
  make_setting (log_to path) p = to_file path p
  make_setting (at_level n) p = record p { log_lvl = fit_within (atoi n) 0 7 }
  make_setting (use_pid path) p = set_pid_path path p
  make_setting appends p = record p { log_app = true }
  make_setting to_console p = to_cons p
  make_setting to_syslog p = to_slog p
  make_setting is_verbose p = record p { log_lvl = log_debug }
  make_setting detaches p = record p { daemon_mode = full_daemon }
  make_setting stays p = record p { daemon_mode = lite_daemon }

  abbrev pub make_settings : List Setting → Process → Process
  make_settings [] p = p
  make_settings (s ∷ rest) p = make_settings rest (make_setting s p)

  -- A command line that is printed for a list of settings makes these, in their order: of two for the
  -- same variable the later one holds. A path may be any text, one like an argument included.
  pub parse_args-print_settings :
      (asked : List Setting) (p : Process)
      → parse_args atoi none (print_settings asked) p ≡ settings (make_settings asked p)
  unfolding parse_args option_of take_opt take_value same_text starts_text
      nuords_proxy.Prelude.equal
  parse_args-print_settings [] p = refl
  parse_args-print_settings (use_config path ∷ rest) p = parse_args-print_settings rest _
  parse_args-print_settings (log_to path ∷ rest) p = parse_args-print_settings rest _
  parse_args-print_settings (at_level n ∷ rest) p = parse_args-print_settings rest _
  parse_args-print_settings (use_pid path ∷ rest) p = parse_args-print_settings rest _
  parse_args-print_settings (appends ∷ rest) p = parse_args-print_settings rest _
  parse_args-print_settings (to_console ∷ rest) p = parse_args-print_settings rest _
  parse_args-print_settings (to_syslog ∷ rest) p = parse_args-print_settings rest _
  parse_args-print_settings (is_verbose ∷ rest) p = parse_args-print_settings rest _
  parse_args-print_settings (detaches ∷ rest) p = parse_args-print_settings rest _
  parse_args-print_settings (stays ∷ rest) p = parse_args-print_settings rest _
