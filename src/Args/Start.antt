-- ===== src/Args/Start.antt =====
-- src/ServerArgsBase.cpp, src/args.cpp: `init` of the arguments, from the command line to the daemon
-- and the guardian.
use tcp_udp_proxy.Prelude.{
  ℕ, ◌==◌, ℤ, pos, to_int, Bool, true, false, Option, none, some, List, ◌∷◌, if◌then◌else◌,
}
use tcp_udp_proxy.Strings.Tokens.{String}
use tcp_udp_proxy.Watch.{Watch, Outside, Written, reset, guarded}
use tcp_udp_proxy.Daemon.{Ending, returned, exited, Mapping, Answers, daemonize, guardian}
use tcp_udp_proxy.Args.{ServerInfo, ServerArgs, base_defaults, extra_defaults}
use tcp_udp_proxy.Args.Options.{Parsed, Settings, ProgramOptions}

-- What `init` calls: the parsers, which throw where they give none, the files that it opens, and the
-- system calls of `daemonize` and `guardian`; the help text, and the time, the place and the text of
-- the message about an error.
pub record Machine (Place : Type 0) : Type 0 where
  pub around : Outside Place
  pub parse_command_line : List String → Option Parsed
  pub parse_config_file : String → Option Parsed
  pub read_file : String → Option String
  pub opens : String → Bool
  pub first_pid : ℤ
  pub session : ℤ
  pub second_pid : ℤ
  pub mapping : Mapping
  pub rounds : ℕ → Answers
  pub help_text : String
  pub time : String
  pub place : Place
  pub fail_message : String

-- What the process has: its arguments, its log, and what it wrote to `std::cout` and to which files
-- it wrote its id, the last one first.
pub record Process : Type 0 where
  pub args : ServerArgs
  pub watch : Watch
  pub written : Written
  pub printed : List String
  pub pid_files : List String

pub data Started : Type 0 where
  ready : Process → Started
  ended : Ending → Process → Started

-- The default values of the options, those of `def`.
unfoldable pub defaults : ServerInfo → Settings
defaults info = record { base = base_defaults info; more = extra_defaults }

unfoldable pub assign : Settings → Process → Process
assign s p = record p { args = record p.args { base = s.base; more = s.more } }

module _ {Place : Type 0} (m : Machine Place) where
  -- `log_level` is converted to the `int` that `reset` takes.
  unfoldable pub reset_log : Process → Process
  reset_log p = record p {
    watch = reset m.around p.args.base.log_file (to_int (pos p.args.base.log_level)) true;
  }

  -- The handlers of exceptions: a message in the log, and `exit(1)`.
  unfoldable pub fail : Process → Started
  fail p = ended (exited 1) (record p {
    written = guarded m.around p.watch (pos 3) m.time m.place m.fail_message p.written;
  })

  -- A `false` of `daemonize` or `guardian` is thrown as an error.
  unfoldable pub or_fail : Ending → Process → (Process → Option Started) → Option Started
  or_fail (returned true) p next = next p
  or_fail (returned false) p next = some (fail p)
  or_fail (exited n) p next = some (ended (exited n) p)
  or_fail Ending.thrown p next = some (fail p)
  or_fail Ending.crashed p next = some (ended Ending.crashed p)

  unfoldable pub start_guardian : Process → Option Started
  start_guardian p =
      if p.args.base.guardian_flag
      then elim (guardian 30 m.mapping m.rounds 1) [
        | none ↦ none
        | some e ↦ or_fail e p (λ q. some (ready q))
      ]
      else some (ready p)

  unfoldable pub start_daemon : Process → Option Started
  start_daemon p =
      if p.args.base.daemon_flag
      then or_fail (daemonize m.first_pid m.session m.second_pid) p start_guardian
      else start_guardian p

  unfoldable pub write_pid : Process → Process
  write_pid p =
      if m.opens p.args.base.pid_file
      then record p { pid_files = p.args.base.pid_file ∷ p.pid_files }
      else p

  -- `checkAfterInit`, and what follows it.
  unfoldable pub check_after_init : Process → Option Started
  check_after_init p =
      if p.args.more.network_thread_num == 0 then some (fail p) else start_daemon (write_pid p)

  module _ (o : ProgramOptions) (info : ServerInfo) where
    open o use {VariablesMap, vm, store, notify, given}

    -- The configuration file, where it opens.
    unfoldable pub load_file : VariablesMap → Process → Option Started
    load_file stored p = elim (m.read_file p.args.base.config_file) [
      | none ↦ check_after_init (reset_log p)
      | some content ↦ elim (m.parse_config_file content) [
        | none ↦ some (fail p)
        | some h ↦ check_after_init (reset_log (assign (notify (defaults info) (store h stored)) p))
      ]
    ]

    unfoldable pub print_help : Process → Started
    print_help p =
        ended (exited 0) (record p { printed = m.help_text ∷ info.version_str ∷ p.printed })

    unfoldable pub print_version : Process → Started
    print_version p = ended (exited 0) (record p { printed = info.version_str ∷ p.printed })

    unfoldable pub after_command_line : VariablesMap → Process → Option Started
    after_command_line stored p =
        if (given stored).help
        then some (print_help p)
        else if (given stored).version
        then some (print_version p)
        else load_file stored p

    -- None where the fuel of the guardian's loop runs out.
    unfoldable pub init : List String → Process → Option Started
    init argv p = elim (m.parse_command_line argv) [
      | none ↦ some (fail (reset_log p))
      | some g ↦
          after_command_line (store g vm)
            (assign (notify (defaults info) (store g vm)) (reset_log p))
    ]
