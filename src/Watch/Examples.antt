-- ===== src/Watch/Examples.antt =====
-- A short log. Times and places of messages are single characters, and each file opens.
use tcp_udp_proxy.Prelude.{
  ℕ, ℤ, pos, negsuc, ◌-ℤ◌, some, List, [], ◌∷◌, ◌≡◌, refl, true, false, arith,
}
use tcp_udp_proxy.Strings.Tokens.{String}
use tcp_udp_proxy.Watch.{
  log_badvalue, bad_name, dict_loglevelname, dict_loglevel, Watch, initial_watch, Outside,
  reset_logpath, reset_maxloglevel, reset_loglocation, reset, fwriteln, log_line, dolog, dolog_name,
  guarded, enter, leave,
}
use tcp_udp_proxy.Watch.Levels.{loglevel_names, Message, at_most, log_all, log_all-at_most}

abbrev show : ℤ → String
show (pos n) = n ∷ []
show (negsuc n) = b'-' ∷ []

abbrev around : Outside ℕ
around = record {
  replace_all = λ s. s;
  system_complete = λ s. b'/' ∷ s;
  opens = λ s. true;
  show_place = λ place. place ∷ [];
  show_ms = show;
}

-- "LOG" is not the name of a level.
abbrev messages : List (Message ℕ)
messages =
    record { name = b'E' ∷ b'R' ∷ b'R' ∷ []; time = b'1' ∷ []; place = b'p'; text = b'x' ∷ [] }
    ∷ record { name = b'L' ∷ b'O' ∷ b'G' ∷ []; time = b'2' ∷ []; place = b'q'; text = b'y' ∷ [] }
    ∷ []

abbrev watch : Watch
watch = reset around (b'a' ∷ []) (pos 7) true

-- Both messages are logged, the second one as "DBG", and the first one alone at the level 4.
logged :
    log_all around (reset around (b'a' ∷ []) (pos 4) false) messages []
    ≡ (some (b'/' ∷ b'a' ∷ []), b'E' ∷ b'R' ∷ b'R' ∷ b' ' ∷ b'1' ∷ b' ' ∷ b'x' ∷ b' ' ∷ []) ∷ []
unfolding log_all dolog_name dolog log_line dict_loglevel dict_loglevelname reset fwriteln
logged = refl

-- A block that is entered and left 5 ms later, with a macro's message in between.
block :
    (let (wrap, out) = enter around watch (pos 6) [] b'p' (b'i' ∷ []) (b'o' ∷ []) (pos 10) [] in
      leave around watch wrap [] (pos 15) (guarded around initial_watch (pos 6) [] b'p' [] out))
    ≡ (some (b'/' ∷ b'a' ∷ []), b'I' ∷ b'N' ∷ b'F' ∷ b' ' ∷ b' ' ∷ b'o' ∷ 5 ∷ b' ' ∷ b'p' ∷ [])
      ∷ (some (b'/' ∷ b'a' ∷ []), b'I' ∷ b'N' ∷ b'F' ∷ b' ' ∷ b' ' ∷ b'i' ∷ b' ' ∷ b'p' ∷ [])
      ∷ []
unfolding enter leave guarded dolog log_line dict_loglevelname reset initial_watch fwriteln ◌-ℤ◌
block = refl

loglevel_names_example :
    (dict_loglevel (dict_loglevelname (pos 9)) ≡ log_badvalue)
    × (dict_loglevel (b'x' ∷ []) ≡ log_badvalue)
    × (dict_loglevelname (dict_loglevel (b'x' ∷ [])) ≡ bad_name)
unfolding dict_loglevel
loglevel_names_example = loglevel_names (pos 9) (b'x' ∷ [])

log_all-at_most_example :
    log_all around (reset_maxloglevel (pos 4) watch) messages []
    ≡ at_most (pos 4) (log_all around watch messages [])
unfolding reset
log_all-at_most_example = log_all-at_most around watch (pos 4) messages (omega arith)

resets :
    reset_loglocation true
      (reset_maxloglevel (pos 7) (reset_logpath (b'/' ∷ b'a' ∷ []) initial_watch))
    ≡ watch
unfolding reset_loglocation reset_maxloglevel reset_logpath initial_watch reset
resets = refl
