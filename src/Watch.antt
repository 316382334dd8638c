-- ===== src/Watch.antt =====
-- src/watch.h and src/watch.cpp: `global::watch`, the log. Its functions lock a recursive mutex, and
-- each is one step here.
pub mod Levels
mod Examples
use tcp_udp_proxy.Prelude.{
  ℕ, zero, suc, ℤ, pos, negsuc, ◌-ℤ◌, leb_ℤ, Bool, true, false, ◌&&◌, Option, none, some, List, [],
  ◌∷◌, ◌++◌, if◌then◌else◌,
}
use tcp_udp_proxy.Prelude.Maps.{lookup}
use tcp_udp_proxy.Strings.Tokens.{String}
use tcp_udp_proxy.Strings.Equal.{string_eq}

-- `loglevel_t` is an `int`.
abbrev pub log_badvalue : ℤ
log_badvalue = negsuc 0

abbrev pub log_warning : ℤ
log_warning = pos 4

abbrev pub log_debug : ℤ
log_debug = pos 7

abbrev pub map_log_level : List (String × ℤ)
map_log_level =
    (b'E' ∷ b'M' ∷ b'G' ∷ [], pos 0)
    ∷ (b'A' ∷ b'L' ∷ b'T' ∷ [], pos 1)
    ∷ (b'C' ∷ b'R' ∷ b'T' ∷ [], pos 2)
    ∷ (b'E' ∷ b'R' ∷ b'R' ∷ [], pos 3)
    ∷ (b'W' ∷ b'R' ∷ b'N' ∷ [], pos 4)
    ∷ (b'N' ∷ b'T' ∷ b'C' ∷ [], pos 5)
    ∷ (b'I' ∷ b'N' ∷ b'F' ∷ [], pos 6)
    ∷ (b'D' ∷ b'B' ∷ b'G' ∷ [], pos 7)
    ∷ []

abbrev pub bad_name : String
bad_name = b'B' ∷ b'A' ∷ b'D' ∷ b'V' ∷ b'A' ∷ b'L' ∷ b'U' ∷ b'E' ∷ []

abbrev pub loglevel_name : List String
loglevel_name =
    (b'E' ∷ b'M' ∷ b'G' ∷ [])
    ∷ (b'A' ∷ b'L' ∷ b'T' ∷ [])
    ∷ (b'C' ∷ b'R' ∷ b'T' ∷ [])
    ∷ (b'E' ∷ b'R' ∷ b'R' ∷ [])
    ∷ (b'W' ∷ b'R' ∷ b'N' ∷ [])
    ∷ (b'N' ∷ b'T' ∷ b'C' ∷ [])
    ∷ (b'I' ∷ b'N' ∷ b'F' ∷ [])
    ∷ (b'D' ∷ b'B' ∷ b'G' ∷ [])
    ∷ bad_name
    ∷ []

-- `LOGLEVEL_NAME[i]`, for an index of the array.
abbrev pub name_at : ℕ → List String → String
name_at i [] = []
name_at zero (s ∷ names) = s
name_at (suc i) (s ∷ names) = name_at i names

unfoldable pub dict_loglevelname : ℤ → String
dict_loglevelname (pos n) =
    if leb_ℤ (pos n) (pos 7) then name_at n loglevel_name else name_at 8 loglevel_name
dict_loglevelname (negsuc n) = name_at 8 loglevel_name

unfoldable pub dict_loglevel : String → ℤ
unfolding lookup
dict_loglevel name = elim (lookup name map_log_level) [ none ↦ log_badvalue | some lv ↦ lv ]

pub record Watch : Type 0 where
  pub logpath : String
  pub maxloglevel : ℤ
  pub loglocation : Bool

unfoldable pub initial_watch : Watch
initial_watch = record { logpath = []; maxloglevel = log_warning; loglocation = false }

-- What the functions call: `boost::replace_all` of the backslashes by slashes, `system_complete`,
-- whether the file opens, the place of a message, which `boost::format` writes, and a time that has
-- passed.
pub record Outside (Place : Type 0) : Type 0 where
  pub replace_all : String → String
  pub system_complete : String → String
  pub opens : String → Bool
  pub show_place : Place → String
  pub show_ms : ℤ → String

-- `LBWatch_wrap_`, which logs when a block is entered and when it is left.
pub record WatchWrap (Place : Type 0) : Type 0 where
  pub log_level : ℤ
  pub ts_start : ℤ
  pub str_exit : String
  pub place : Place

-- `reset_logpath`, `reset_maxloglevel` and `reset_loglocation`
unfoldable pub reset_logpath : String → Watch → Watch
reset_logpath path w = record w { logpath = path }

unfoldable pub reset_maxloglevel : ℤ → Watch → Watch
reset_maxloglevel level w = record w { maxloglevel = level }

unfoldable pub reset_loglocation : Bool → Watch → Watch
reset_loglocation location w = record w { loglocation = location }

abbrev pub is_level : ℤ → ℤ → Bool
is_level a b = leb_ℤ a b && leb_ℤ b a

-- The lines that were written, the last one first, each with its file, or none where it went to
-- `std::cerr`.
abbrev pub Written : Type 0
Written = List (Option String × String)

module _ {Place : Type 0} (around : Outside Place) where
  unfoldable pub reset : String → ℤ → Bool → Watch
  reset path maxloglevel loglocation = record {
    logpath = around.system_complete (around.replace_all path);
    maxloglevel = maxloglevel;
    loglocation = loglocation;
  }

  unfoldable pub fwriteln : String → String → Written → Written
  fwriteln path message out =
      if around.opens path then (some path, message) ∷ out else (none, message) ∷ out

  -- The line of a message: its level, the time, the message and its place.
  unfoldable pub log_line : Watch → ℤ → String → Place → String → String
  unfolding dict_loglevelname
  log_line w loglevel time place message =
      ((((((dict_loglevelname loglevel ++ b' ' ∷ []) ++ time) ++ b' ' ∷ []) ++ message)
          ++ b' ' ∷ [])
        ++ (if w.loglocation then around.show_place place else []))

  unfoldable pub dolog : Watch → ℤ → String → Place → String → Written → Written
  unfolding fwriteln
  dolog w loglevel time place message out =
      if leb_ℤ loglevel w.maxloglevel
      then fwriteln w.logpath (log_line w loglevel time place message) out
      else out

  -- `dolog_` of the name of a level.
  unfoldable pub dolog_name : Watch → String → String → Place → String → Written → Written
  dolog_name w name time place message out =
      let lv : ℤ = dict_loglevel name in
      if is_level lv log_badvalue
      then dolog w log_debug time place message out
      else dolog w lv time place message out

  -- `LEmerg` to `LDebug`, which test the level before they form the message.
  unfoldable pub guarded : Watch → ℤ → String → Place → String → Written → Written
  guarded w loglevel time place message out =
      if leb_ℤ loglevel w.maxloglevel then dolog w loglevel time place message out else out

  -- The constructor of `LBWatch_wrap_` and its destructor, at the times `now` in milliseconds.
  unfoldable pub enter :
      Watch → ℤ → String → Place → String → String → ℤ → Written → WatchWrap Place × Written
  enter w loglevel time place str_enter str_exit now out = (
    record { log_level = loglevel; ts_start = now; str_exit = str_exit; place = place },
    dolog w loglevel time place str_enter out,
  )

  unfoldable pub leave : Watch → WatchWrap Place → String → ℤ → Written → Written
  leave w wrap time now out =
      dolog w wrap.log_level time wrap.place
        (wrap.str_exit ++ around.show_ms (now -ℤ wrap.ts_start)) out
