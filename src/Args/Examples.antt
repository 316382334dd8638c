-- ===== src/Args/Examples.antt =====
-- A start of the program whose command line gives the log level and whose configuration file gives
-- two threads and another log level.
use tcp_udp_proxy.Prelude.{
  ℕ, ◌≡◌, refl, pos, to_int, true, false, Option, none, some, List, [], ◌∷◌,
}
use tcp_udp_proxy.Strings.Tokens.{String}
use tcp_udp_proxy.Watch.{
  initial_watch, reset, guarded, dolog, log_line, fwriteln, dict_loglevelname,
}
use tcp_udp_proxy.Daemon.{in_child, mapped, exited}
use tcp_udp_proxy.Args.{ServerInfo, base_defaults, extra_defaults, server_args}
use tcp_udp_proxy.Args.Options.{Parsed, first_parsed, over, ProgramOptions}
use tcp_udp_proxy.Args.Start.{
  Machine, Process, Started, ready, ended, defaults, reset_log, fail, init,
}
use tcp_udp_proxy.Args.Launch.{IsLaunch, IsReady, init-IsLaunch, init_ready}

abbrev pub nothing : Parsed
nothing = record {
  help = false;
  version = false;
  base = record {
    work_dir = none;
    sbin_dir = none;
    bin_dir = none;
    etc_dir = none;
    var_dir = none;
    log_dir = none;
    run_dir = none;
    spool_dir = none;
    tmp_dir = none;
    data_dir = none;
    conf_dir = none;
    config_file = none;
    pid_file = none;
    log_file = none;
    log_level = none;
    daemon_flag = none;
    guardian_flag = none;
  };
  more = record {
    network_thread_num = none;
    tcp_timeout = none;
    udp_timeout = none;
    proxy_config_file = none;
    admin_port = none;
    admin_passwd = none;
  };
}

unfoldable pub stored : Option Parsed → Parsed
stored none = nothing
stored (some g) = g

unfoldable pub add : Parsed → Option Parsed → Option Parsed
add g none = some g
add g (some f) = some (first_parsed f g)

pub stored-add : (g : Parsed) (m : Option Parsed) → stored (add g m) ≡ first_parsed (stored m) g
unfolding stored add
stored-add g none = refl
stored-add g (some f) = refl

pub options_start : (g : Parsed) → stored (add g none) ≡ g
unfolding stored add
options_start g = refl

abbrev pub options : ProgramOptions
options = record {
  VariablesMap = Option Parsed;
  vm = none;
  store = add;
  notify = λ d m. over (stored m) d;
  given = stored;
  given_store_empty = options_start;
  given_store = stored-add;
  notify_given = λ d m. refl;
}

abbrev pub command_line : Parsed
command_line = record nothing { base = record nothing.base { log_level = some 3 } }

abbrev pub file : Parsed
file = record nothing {
  base = record nothing.base { log_level = some 7 };
  more = record nothing.more { network_thread_num = some 2 };
}

-- Each file opens, and `--bad` is no option.
unfoldable pub parse : List String → Option Parsed
parse [] = some command_line
parse (s ∷ argv) = none

abbrev pub machine : Machine ℕ
machine = record {
  around = record {
    replace_all = λ s. s;
    system_complete = λ s. s;
    opens = λ s. true;
    show_place = λ place. place ∷ [];
    show_ms = λ ms. [];
  };
  parse_command_line = parse;
  parse_config_file = λ content. some file;
  read_file = λ path. some [];
  opens = λ path. true;
  first_pid = pos 0;
  session = pos 1;
  second_pid = pos 0;
  mapping = mapped;
  rounds = λ n. record { running = true; still_running = true; fork = in_child; waited = true };
  help_text = [];
  time = [];
  place = 0;
  fail_message = b'?' ∷ [];
}

abbrev pub info : ServerInfo
info = record { software_name = b'p' ∷ []; module_name = b'f' ∷ []; version_str = b'1' ∷ [] }

abbrev pub process : Process
process = record {
  args = server_args (record { software_name = []; module_name = []; version_str = [] });
  watch = initial_watch;
  written = [];
  printed = [];
  pid_files = [];
}

init-IsLaunch_example : (s : Started) × (init machine options info [] process ≡ some s) × IsLaunch s
init-IsLaunch_example = init-IsLaunch machine options info [] process

init_ready_example :
    (q : Process) × (init machine options info [] process ≡ some (ready q))
    × IsReady machine (over command_line (over file (defaults info))) q
unfolding parse defaults base_defaults extra_defaults
init_ready_example =
    init_ready machine options info [] process {g = command_line} {h = file} {content = []} refl
      refl refl refl refl refl refl refl

-- A command line that does not parse ends the process; the message is in the log.
refused :
    init machine options info ([] ∷ []) process
    ≡ some (
        ended (exited 1) (record process {
          watch = reset machine.around process.args.base.log_file (pos 6) true;
          written =
              (
                some process.args.base.log_file,
                b'E' ∷ b'R' ∷ b'R' ∷ b' ' ∷ b' ' ∷ b'?' ∷ b' ' ∷ 0 ∷ [],
              )
              ∷ [];
        }))
unfolding init parse reset_log fail guarded dolog log_line dict_loglevelname fwriteln to_int reset
    server_args
refused = refl
