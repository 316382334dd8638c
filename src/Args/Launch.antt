-- ===== src/Args/Launch.antt =====
-- src/ServerArgsBase.cpp, src/args.cpp: how `init` ends, and which value each option has then.
use tcp_udp_proxy.Prelude.{
  ℕ, ◌≤◌, ◌≡◌, refl, sym, ap, ◌∙◌, subst, ◌==◌, pos, to_int, true, false, if_elim, inl, inr, Option,
  Option-cases, none, some, List, arith,
}
use tcp_udp_proxy.Strings.Tokens.{String}
use tcp_udp_proxy.Watch.{reset}
use tcp_udp_proxy.Daemon.{Ending, returned, exited, daemonize}
use tcp_udp_proxy.Daemon.Rounds.{guardian_ends}
use tcp_udp_proxy.Args.{ServerInfo}
use tcp_udp_proxy.Args.Options.{
  Parsed, Settings, ProgramOptions, over, notify-store, notify-store-store,
}
use tcp_udp_proxy.Args.Start.{
  Machine, Process, Started, ready, ended, defaults, assign, reset_log, fail, or_fail,
  start_guardian, start_daemon, write_pid, check_after_init, load_file, print_help, print_version,
  after_command_line, init,
}

-- No exception leaves `init`, and a program that goes on has a thread for its connections.
abbrev pub IsLaunch : Started → Type 0
IsLaunch (ready q) = 1 ≤ q.args.more.network_thread_num
IsLaunch (ended Ending.thrown q) = ⊥
IsLaunch (ended Ending.crashed q) = Unit {0}
IsLaunch (ended (exited n) q) = Unit {0}
IsLaunch (ended (returned b) q) = ⊥

abbrev Launches : Option Started → Type 0
Launches none = ⊥
Launches (some s) = IsLaunch s

one_or_more : (n : ℕ) → (n == 0) ≡ false → 1 ≤ n
one_or_more n h = ground arith

module _ {Place : Type 0} (m : Machine Place) where
  fail-IsLaunch : (p : Process) → IsLaunch (fail m p)
  unfolding fail
  fail-IsLaunch p = tt

  or_fail-Launches :
      (e : Ending) (p : Process) (next : Process → Option Started)
      → Launches (next p)
      → Launches (or_fail m e p next)
  unfolding or_fail fail
  or_fail-Launches (returned true) p next h = h
  or_fail-Launches (returned false) p next h = tt
  or_fail-Launches (exited n) p next h = tt
  or_fail-Launches Ending.thrown p next h = tt
  or_fail-Launches Ending.crashed p next h = tt

  start_guardian-Launches :
      (p : Process) → 1 ≤ p.args.more.network_thread_num → Launches (start_guardian m p)
  unfolding start_guardian
  start_guardian-Launches p h =
      if_elim Launches p.args.base.guardian_flag _ _
        (λ _.
          let (e, q, _) = guardian_ends m.mapping m.rounds 1 30 (omega arith) in
          rw q (or_fail-Launches e p (λ q. some (ready q)) h))
        (λ _. h)

  start_daemon-Launches :
      (p : Process) → 1 ≤ p.args.more.network_thread_num → Launches (start_daemon m p)
  unfolding start_daemon
  start_daemon-Launches p h =
      if_elim Launches p.args.base.daemon_flag _ _
        (λ _.
          or_fail-Launches (daemonize m.first_pid m.session m.second_pid) p (start_guardian m)
            (start_guardian-Launches p h))
        (λ _. start_guardian-Launches p h)

  args-write_pid : (p : Process) → (write_pid m p).args ≡ p.args
  unfolding write_pid
  args-write_pid p = ground arith

  check_after_init-Launches : (p : Process) → Launches (check_after_init m p)
  unfolding check_after_init
  check_after_init-Launches p =
      if_elim Launches (p.args.more.network_thread_num == 0) _ _ (λ _. fail-IsLaunch p)
        (λ t. start_daemon-Launches (write_pid m p) (
          subst (λ a. 1 ≤ a.more.network_thread_num) (sym (args-write_pid p))
            (one_or_more p.args.more.network_thread_num t)))

abbrev pub settings : Process → Settings
settings p = record { base = p.args.base; more = p.args.more }

module _ {Place : Type 0} (m : Machine Place) where
  start_daemon_plain :
      (q : Process)
      → q.args.base.daemon_flag ≡ false
      → q.args.base.guardian_flag ≡ false
      → start_daemon m q ≡ some (ready q)
  unfolding start_daemon start_guardian
  start_daemon_plain q b c = rw b (rw c refl)

  check_after_init_plain :
      (p : Process)
      → (p.args.more.network_thread_num == 0) ≡ false
      → p.args.base.daemon_flag ≡ false
      → p.args.base.guardian_flag ≡ false
      → check_after_init m p ≡ some (ready (write_pid m p))
  unfolding check_after_init
  check_after_init_plain p a b c = rw a (
      start_daemon_plain (write_pid m p) (ap (λ x. x.base.daemon_flag) (args-write_pid m p) ∙ b)
        (ap (λ x. x.base.guardian_flag) (args-write_pid m p) ∙ c))

  -- What `init` leaves where it goes on without a daemon and a guardian.
  pub record IsReady (s : Settings) (q : Process) : Type 0 where
    pub values : settings q ≡ s
    pub logs : q.watch ≡ reset m.around s.base.log_file (to_int (pos s.base.log_level)) true

  assigned-IsReady :
      (s : Settings) (p : Process) → IsReady s (write_pid m (reset_log m (assign s p)))
  unfolding write_pid reset_log assign
  assigned-IsReady s p =
      if_elim (IsReady s) (m.opens s.base.pid_file) _ _ (λ _. record { values = refl; logs = refl })
        (λ _. record { values = refl; logs = refl })

module _ {Place : Type 0} (m : Machine Place) (o : ProgramOptions) (info : ServerInfo) where
  open o use {VariablesMap, vm, store, notify, given}

  load_file-Launches :
      (stored : VariablesMap) (p : Process) → Launches (load_file m o info stored p)
  unfolding load_file
  load_file-Launches stored p = elim (Option-cases (m.read_file p.args.base.config_file)) [
    | inl e ↦ rw (e, load_file) (check_after_init-Launches m (reset_log m p))
    | inr (content, e) ↦ elim (Option-cases (m.parse_config_file content)) [
      | inl f ↦ rw (e, load_file) (rw (f, load_file) (fail-IsLaunch m p))
      | inr (h, f) ↦
          rw (e, load_file)
            (rw (f, load_file)
              (check_after_init-Launches m
                (reset_log m (assign (notify (defaults info) (store h stored)) p))))
    ]
  ]

  after_command_line-Launches :
      (stored : VariablesMap) (p : Process) → Launches (after_command_line m o info stored p)
  unfolding after_command_line print_help print_version
  after_command_line-Launches stored p =
      if_elim Launches (given stored).help _ _ (λ _. tt)
        (λ _.
          if_elim Launches (given stored).version _ _ (λ _. tt) (λ _. load_file-Launches stored p))

  init-Launches : (argv : List String) (p : Process) → Launches (init m o info argv p)
  unfolding init
  init-Launches argv p = elim (Option-cases (m.parse_command_line argv)) [
    | inl e ↦ rw (e, init) (fail-IsLaunch m (reset_log m p))
    | inr (g, e) ↦
        rw (e, init)
          (after_command_line-Launches (store g vm)
            (assign (notify (defaults info) (store g vm)) (reset_log m p)))
  ]

  Launches-some : (r : Option Started) → Launches r → (s : Started) × (r ≡ some s) × IsLaunch s
  Launches-some none h = absurd h
  Launches-some (some s) h = (s, refl, h)

  -- Whatever the command line, the configuration file and the system calls give: init ends. Either
  -- the process ends, by exit or by a write to the address -1 of a failed mmap, and no exception
  -- leaves init; or the program goes on, with a network_thread_num of at least 1.
  pub init-IsLaunch :
      (argv : List String) (p : Process)
      → (s : Started) × (init m o info argv p ≡ some s) × IsLaunch s
  init-IsLaunch argv p = Launches-some (init m o info argv p) (init-Launches argv p)

  file_loaded :
      (stored : VariablesMap) (p : Process) (s : Settings) {content : String} {h : Parsed}
      → m.read_file p.args.base.config_file ≡ some content
      → m.parse_config_file content ≡ some h
      → notify (defaults info) (store h stored) ≡ s
      → (s.more.network_thread_num == 0) ≡ false
      → s.base.daemon_flag ≡ false
      → s.base.guardian_flag ≡ false
      → load_file m o info stored p ≡ some (ready (write_pid m (reset_log m (assign s p))))
  unfolding load_file reset_log assign
  file_loaded stored p s {content} {h} e f n a b c =
      rw (e, load_file)
        (rw (f, load_file)
          (ap (λ x. check_after_init m (reset_log m (assign x p))) n
            ∙ check_after_init_plain m (reset_log m (assign s p)) a b c))

  after_command_line_plain :
      (stored : VariablesMap) (p : Process)
      → (given stored).help ≡ false
      → (given stored).version ≡ false
      → after_command_line m o info stored p ≡ load_file m o info stored p
  unfolding after_command_line
  after_command_line_plain stored p a b = ground arith

  -- For a command line and a configuration file that parse, without --help and --version, where the
  -- file is the one that the command line or else the default names, and where the values ask for a
  -- thread and for neither a daemon nor a guardian: init goes on, each option has its value of the
  -- command line, else that of the file, else its default, and the log goes to log_file with
  -- log_level.
  pub init_ready :
      (argv : List String) (p : Process) {g h : Parsed} {content : String}
      → m.parse_command_line argv ≡ some g
      → g.help ≡ false
      → g.version ≡ false
      → m.read_file (over g (defaults info)).base.config_file ≡ some content
      → m.parse_config_file content ≡ some h
      → ((over g (over h (defaults info))).more.network_thread_num == 0) ≡ false
      → (over g (over h (defaults info))).base.daemon_flag ≡ false
      → (over g (over h (defaults info))).base.guardian_flag ≡ false
      → (q : Process) × (init m o info argv p ≡ some (ready q))
        × IsReady m (over g (over h (defaults info))) q
  unfolding init assign
  init_ready argv p {g} {h} e help version found f a b c =
      let stored : VariablesMap = store g vm in
      let s : Settings = over g (over h (defaults info)) in
      let p1 : Process = assign (notify (defaults info) stored) (reset_log m p) in
      (
        write_pid m (reset_log m (assign s p1)),
        rw (e, init)
            (after_command_line_plain stored p1 (ap (λ x. x.help) (o.given_store_empty g) ∙ help)
                (ap (λ x. x.version) (o.given_store_empty g) ∙ version)
              ∙ file_loaded stored p1 s
                  (ap (λ x. m.read_file x.base.config_file) (notify-store o (defaults info) g)
                    ∙ found)
                  f (notify-store-store o (defaults info) g h) a b c),
        assigned-IsReady m s p1,
      )
