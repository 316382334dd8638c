-- ===== src/Args/Options.antt =====
-- src/ServerArgsBase.cpp: the options as `boost::program_options` gives them, which is a parameter.
use tcp_udp_proxy.Prelude.{Bool, ◌||◌, Option, none, some, ◌≡◌, refl, ap, ◌∙◌}
use tcp_udp_proxy.Args.{BaseOptions, ExtraOptions, Value, Given}

-- What a parse gives: whether `--help` and `--version` stand there, and the options that have a value.
pub record Parsed : Type 0 where
  pub help : Bool
  pub version : Bool
  pub base : BaseOptions Given
  pub more : ExtraOptions Given

-- The values that the options' variables have together.
pub record Settings : Type 0 where
  pub base : BaseOptions Value
  pub more : ExtraOptions Value

-- The value of an option that is given, or else another one.
abbrev pub or_else : {A : Type 0} → Option A → A → A
or_else none a = a
or_else (some x) a = x

abbrev pub base_over : BaseOptions Given → BaseOptions Value → BaseOptions Value
base_over g d = record {
  work_dir = or_else g.work_dir d.work_dir;
  sbin_dir = or_else g.sbin_dir d.sbin_dir;
  bin_dir = or_else g.bin_dir d.bin_dir;
  etc_dir = or_else g.etc_dir d.etc_dir;
  var_dir = or_else g.var_dir d.var_dir;
  log_dir = or_else g.log_dir d.log_dir;
  run_dir = or_else g.run_dir d.run_dir;
  spool_dir = or_else g.spool_dir d.spool_dir;
  tmp_dir = or_else g.tmp_dir d.tmp_dir;
  data_dir = or_else g.data_dir d.data_dir;
  conf_dir = or_else g.conf_dir d.conf_dir;
  config_file = or_else g.config_file d.config_file;
  pid_file = or_else g.pid_file d.pid_file;
  log_file = or_else g.log_file d.log_file;
  log_level = or_else g.log_level d.log_level;
  daemon_flag = or_else g.daemon_flag d.daemon_flag;
  guardian_flag = or_else g.guardian_flag d.guardian_flag;
}

abbrev pub extra_over : ExtraOptions Given → ExtraOptions Value → ExtraOptions Value
extra_over g d = record {
  network_thread_num = or_else g.network_thread_num d.network_thread_num;
  tcp_timeout = or_else g.tcp_timeout d.tcp_timeout;
  udp_timeout = or_else g.udp_timeout d.udp_timeout;
  proxy_config_file = or_else g.proxy_config_file d.proxy_config_file;
  admin_port = or_else g.admin_port d.admin_port;
  admin_passwd = or_else g.admin_passwd d.admin_passwd;
}

-- The values that a parse gives, and others where it gives none.
abbrev pub over : Parsed → Settings → Settings
over g d = record { base = base_over g.base d.base; more = extra_over g.more d.more }

-- The values of one parse, and those of another one where it gives none.
abbrev pub first_of : {A : Type 0} → Option A → Option A → Option A
first_of none b = b
first_of (some x) b = some x

abbrev pub base_first : BaseOptions Given → BaseOptions Given → BaseOptions Given
base_first g h = record {
  work_dir = first_of g.work_dir h.work_dir;
  sbin_dir = first_of g.sbin_dir h.sbin_dir;
  bin_dir = first_of g.bin_dir h.bin_dir;
  etc_dir = first_of g.etc_dir h.etc_dir;
  var_dir = first_of g.var_dir h.var_dir;
  log_dir = first_of g.log_dir h.log_dir;
  run_dir = first_of g.run_dir h.run_dir;
  spool_dir = first_of g.spool_dir h.spool_dir;
  tmp_dir = first_of g.tmp_dir h.tmp_dir;
  data_dir = first_of g.data_dir h.data_dir;
  conf_dir = first_of g.conf_dir h.conf_dir;
  config_file = first_of g.config_file h.config_file;
  pid_file = first_of g.pid_file h.pid_file;
  log_file = first_of g.log_file h.log_file;
  log_level = first_of g.log_level h.log_level;
  daemon_flag = first_of g.daemon_flag h.daemon_flag;
  guardian_flag = first_of g.guardian_flag h.guardian_flag;
}

abbrev pub extra_first : ExtraOptions Given → ExtraOptions Given → ExtraOptions Given
extra_first g h = record {
  network_thread_num = first_of g.network_thread_num h.network_thread_num;
  tcp_timeout = first_of g.tcp_timeout h.tcp_timeout;
  udp_timeout = first_of g.udp_timeout h.udp_timeout;
  proxy_config_file = first_of g.proxy_config_file h.proxy_config_file;
  admin_port = first_of g.admin_port h.admin_port;
  admin_passwd = first_of g.admin_passwd h.admin_passwd;
}

abbrev pub first_parsed : Parsed → Parsed → Parsed
first_parsed g h = record {
  help = g.help || h.help;
  version = g.version || h.version;
  base = base_first g.base h.base;
  more = extra_first g.more h.more;
}

-- `variables_map` with `store` and `notify`. `given` is what was stored: a value that is there is not
-- changed by a later `store`. `notify`, for options with these default values, gives the variables
-- the values that were stored, and the default values of the other options.
pub record ProgramOptions : Type 1 where
  pub VariablesMap : Type 0
  pub vm : VariablesMap
  pub store : Parsed → VariablesMap → VariablesMap
  pub notify : Settings → VariablesMap → Settings
  pub given : VariablesMap → Parsed
  pub given_store_empty : (g : Parsed) → given (store g vm) ≡ g
  pub given_store : (g : Parsed) (m : VariablesMap) → given (store g m) ≡ first_parsed (given m) g
  pub notify_given : (d : Settings) (m : VariablesMap) → notify d m ≡ over (given m) d

or_else-first_of :
    {A : Type 0} (a b : Option A) (d : A) → or_else (first_of a b) d ≡ or_else a (or_else b d)
or_else-first_of none b d = refl
or_else-first_of (some x) b d = refl

base_over-base_first :
    (g h : BaseOptions Given) (d : BaseOptions Value)
    → base_over (base_first g h) d ≡ base_over g (base_over h d)
base_over-base_first g h d i = record {
  work_dir = or_else-first_of g.work_dir h.work_dir d.work_dir i;
  sbin_dir = or_else-first_of g.sbin_dir h.sbin_dir d.sbin_dir i;
  bin_dir = or_else-first_of g.bin_dir h.bin_dir d.bin_dir i;
  etc_dir = or_else-first_of g.etc_dir h.etc_dir d.etc_dir i;
  var_dir = or_else-first_of g.var_dir h.var_dir d.var_dir i;
  log_dir = or_else-first_of g.log_dir h.log_dir d.log_dir i;
  run_dir = or_else-first_of g.run_dir h.run_dir d.run_dir i;
  spool_dir = or_else-first_of g.spool_dir h.spool_dir d.spool_dir i;
  tmp_dir = or_else-first_of g.tmp_dir h.tmp_dir d.tmp_dir i;
  data_dir = or_else-first_of g.data_dir h.data_dir d.data_dir i;
  conf_dir = or_else-first_of g.conf_dir h.conf_dir d.conf_dir i;
  config_file = or_else-first_of g.config_file h.config_file d.config_file i;
  pid_file = or_else-first_of g.pid_file h.pid_file d.pid_file i;
  log_file = or_else-first_of g.log_file h.log_file d.log_file i;
  log_level = or_else-first_of g.log_level h.log_level d.log_level i;
  daemon_flag = or_else-first_of g.daemon_flag h.daemon_flag d.daemon_flag i;
  guardian_flag = or_else-first_of g.guardian_flag h.guardian_flag d.guardian_flag i;
}

extra_over-extra_first :
    (g h : ExtraOptions Given) (d : ExtraOptions Value)
    → extra_over (extra_first g h) d ≡ extra_over g (extra_over h d)
extra_over-extra_first g h d i = record {
  network_thread_num =
      or_else-first_of g.network_thread_num h.network_thread_num d.network_thread_num i;
  tcp_timeout = or_else-first_of g.tcp_timeout h.tcp_timeout d.tcp_timeout i;
  udp_timeout = or_else-first_of g.udp_timeout h.udp_timeout d.udp_timeout i;
  proxy_config_file =
      or_else-first_of g.proxy_config_file h.proxy_config_file d.proxy_config_file i;
  admin_port = or_else-first_of g.admin_port h.admin_port d.admin_port i;
  admin_passwd = or_else-first_of g.admin_passwd h.admin_passwd d.admin_passwd i;
}

-- What is stored first comes before what is stored later, and both before the default values.
pub over-first_parsed :
    (g h : Parsed) (d : Settings) → over (first_parsed g h) d ≡ over g (over h d)
over-first_parsed g h d i = record {
  base = base_over-base_first g.base h.base d.base i;
  more = extra_over-extra_first g.more h.more d.more i;
}

module _ (o : ProgramOptions) where
  open o use {vm, store, notify, given, given_store_empty, given_store, notify_given}

  pub notify-store : (d : Settings) (g : Parsed) → notify d (store g vm) ≡ over g d
  notify-store d g = notify_given d (store g vm) ∙ ap (λ x. over x d) (given_store_empty g)

  pub notify-store-store :
      (d : Settings) (g h : Parsed) → notify d (store h (store g vm)) ≡ over g (over h d)
  notify-store-store d g h =
      notify_given d (store h (store g vm))
      ∙ ap (λ x. over x d)
          (given_store h (store g vm) ∙ ap (λ x. first_parsed x h) (given_store_empty g))
      ∙ over-first_parsed g h d
