-- ===== src/Args.antt =====
-- src/ServerArgsBase.h, src/ServerArgsBase.cpp, src/args.h and src/args.cpp: the arguments of the
-- program, with the defaults that it has on Linux.
pub mod Options
pub mod Start
pub mod Launch
pub mod Examples
use tcp_udp_proxy.Prelude.{ℕ, ℤ, pos, Bool, true, false, Option, none, some, List, [], ◌∷◌, ◌++◌}
use tcp_udp_proxy.Strings.Tokens.{String}
use tcp_udp_proxy.Strings.Paths.{path_separator}

pub record ServerInfo : Type 0 where
  pub software_name : String
  pub module_name : String
  pub version_str : String

-- The options of `ServerArgsBase::init`, each with a value of F. Names of files and directories are
-- strings.
pub record BaseOptions (F : Type 0 → Type 0) : Type 0 where
  pub work_dir : F String
  pub sbin_dir : F String
  pub bin_dir : F String
  pub etc_dir : F String
  pub var_dir : F String
  pub log_dir : F String
  pub run_dir : F String
  pub spool_dir : F String
  pub tmp_dir : F String
  pub data_dir : F String
  pub conf_dir : F String
  pub config_file : F String
  pub pid_file : F String
  pub log_file : F String
  pub log_level : F ℕ
  pub daemon_flag : F Bool
  pub guardian_flag : F Bool

-- The options of `getExtraDesc`.
pub record ExtraOptions (F : Type 0 → Type 0) : Type 0 where
  pub network_thread_num : F ℕ
  pub tcp_timeout : F ℤ
  pub udp_timeout : F ℤ
  pub proxy_config_file : F String
  pub admin_port : F ℕ
  pub admin_passwd : F String

abbrev pub Value : Type 0 → Type 0
Value A = A

abbrev pub Given : Type 0 → Type 0
Given A = Option A

-- The directory `name` in `dir`, and the file `module_name` with the ending `suffix` in it.
abbrev pub within : String → String → String
within dir name = dir ++ path_separator ∷ name

-- `ServerArgsBase()`, where `ServerInfo::instance()` is `info`.
unfoldable pub base_defaults : ServerInfo → BaseOptions Value
base_defaults info =
    let work : String =
      within
        (within (path_separator ∷ b'u' ∷ b's' ∷ b'r' ∷ []) (b'l' ∷ b'o' ∷ b'c' ∷ b'a' ∷ b'l' ∷ []))
        info.software_name in
    let etc : String = within work (b'e' ∷ b't' ∷ b'c' ∷ []) in
    let var : String = within work (b'v' ∷ b'a' ∷ b'r' ∷ []) in
    let log : String = within var (b'l' ∷ b'o' ∷ b'g' ∷ []) in
    let run : String = within var (b'r' ∷ b'u' ∷ b'n' ∷ []) in
    record {
      work_dir = work;
      sbin_dir = within work (b's' ∷ b'b' ∷ b'i' ∷ b'n' ∷ []);
      bin_dir = within work (b'b' ∷ b'i' ∷ b'n' ∷ []);
      etc_dir = etc;
      var_dir = var;
      log_dir = log;
      run_dir = run;
      spool_dir = within var (b's' ∷ b'p' ∷ b'o' ∷ b'o' ∷ b'l' ∷ []);
      tmp_dir = within var (b't' ∷ b'm' ∷ b'p' ∷ []);
      data_dir = within var (b'd' ∷ b'a' ∷ b't' ∷ b'a' ∷ []);
      conf_dir = within var (b'c' ∷ b'o' ∷ b'n' ∷ b'f' ∷ []);
      config_file = within etc (info.module_name ++ (b'.' ∷ b'c' ∷ b'o' ∷ b'n' ∷ b'f' ∷ []));
      pid_file = within run (info.module_name ++ (b'.' ∷ b'p' ∷ b'i' ∷ b'd' ∷ []));
      log_file = within log (info.module_name ++ (b'.' ∷ b'l' ∷ b'o' ∷ b'g' ∷ []));
      log_level = 6;
      daemon_flag = false;
      guardian_flag = false;
    }

-- What `ServerArgs()` sets itself.
unfoldable pub extra_defaults : ExtraOptions Value
extra_defaults = record {
  network_thread_num = 4;
  tcp_timeout = pos 600000;
  udp_timeout = pos 600000;
  proxy_config_file = b'p' ∷ b'r' ∷ b'o' ∷ b'x' ∷ b'y' ∷ b'.' ∷ b'c' ∷ b'o' ∷ b'n' ∷ b'f' ∷ [];
  admin_port = 6600;
  admin_passwd = b'1' ∷ b'2' ∷ b'3' ∷ b'4' ∷ b'5' ∷ b'6' ∷ [];
}

pub record ServerArgs : Type 0 where
  pub help_flag : Bool
  pub version_flag : Bool
  pub running_flag : Bool
  pub base : BaseOptions Value
  pub more : ExtraOptions Value

-- `ServerArgs()`, without a DEFAULT_CONFIG_FILE.
unfoldable pub server_args : ServerInfo → ServerArgs
unfolding base_defaults extra_defaults
server_args info = record {
  help_flag = false;
  version_flag = false;
  running_flag = true;
  base = base_defaults info;
  more = extra_defaults;
}
