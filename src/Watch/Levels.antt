-- ===== src/Watch/Levels.antt =====
-- src/watch.cpp: levels and their names, and what the largest level leaves of a log.
use tcp_udp_proxy.Prelude.{
  zero, suc, ℤ, pos, negsuc, leb_ℤ, ◌≤ℤ◌, Bool, true, false, ◌&&◌, Option, none, some, if_elim,
  List, [], ◌∷◌, take, if◌then◌else◌, ◌≡◌, refl, sym, ap, ◌∙◌, arith,
}
use tcp_udp_proxy.Prelude.Maps.{◌==◌, lookup}
use tcp_udp_proxy.Strings.Tokens.{String}
use tcp_udp_proxy.Strings.Equal.{equal_iff, string_eq}
use tcp_udp_proxy.Watch.{
  log_badvalue, log_debug, map_log_level, bad_name, dict_loglevelname, dict_loglevel, is_level,
  Watch, Outside, Written, log_line, dolog, dolog_name, reset_maxloglevel,
}

-- Whether a level is one of the eight.
abbrev pub is_known : ℤ → Bool
is_known lv = leb_ℤ (pos 0) lv && leb_ℤ lv (pos 7)

dict_loglevel_known :
    (lv : ℤ) → dict_loglevel (dict_loglevelname lv) ≡ (if is_known lv then lv else log_badvalue)
unfolding dict_loglevel dict_loglevelname
dict_loglevel_known (pos zero) = refl
dict_loglevel_known (pos (suc zero)) = refl
dict_loglevel_known (pos (suc (suc zero))) = refl
dict_loglevel_known (pos (suc (suc (suc zero)))) = refl
dict_loglevel_known (pos (suc (suc (suc (suc zero))))) = refl
dict_loglevel_known (pos (suc (suc (suc (suc (suc zero)))))) = refl
dict_loglevel_known (pos (suc (suc (suc (suc (suc (suc zero))))))) = refl
dict_loglevel_known (pos (suc (suc (suc (suc (suc (suc (suc zero)))))))) = refl
dict_loglevel_known (pos (suc (suc (suc (suc (suc (suc (suc (suc n))))))))) = ground arith
dict_loglevel_known (negsuc n) = ground arith

dict_loglevelname_known :
    (name : String)
    → dict_loglevelname (dict_loglevel name)
      ≡ (if is_known (dict_loglevel name) then name else bad_name)
unfolding dict_loglevel dict_loglevelname
dict_loglevelname_known name = ground (
  arith,
  equal_iff (b'E' ∷ b'M' ∷ b'G' ∷ []) name,
  equal_iff (b'A' ∷ b'L' ∷ b'T' ∷ []) name,
  equal_iff (b'C' ∷ b'R' ∷ b'T' ∷ []) name,
  equal_iff (b'E' ∷ b'R' ∷ b'R' ∷ []) name,
  equal_iff (b'W' ∷ b'R' ∷ b'N' ∷ []) name,
  equal_iff (b'N' ∷ b'T' ∷ b'C' ∷ []) name,
  equal_iff (b'I' ∷ b'N' ∷ b'F' ∷ []) name,
  equal_iff (b'D' ∷ b'B' ∷ b'G' ∷ []) name,
)

-- One of the eight levels, or LOG_BADVALUE.
abbrev IsRanged : ℤ → Type 0
IsRanged lv = lv ≡ (if is_known lv then lv else log_badvalue)

abbrev AllKnown : List (String × ℤ) → Type 0
AllKnown [] = Unit {0}
AllKnown ((name, lv) ∷ m) = (is_known lv ≡ true) × AllKnown m

lookup-IsRanged :
    (name : String) (m : List (String × ℤ))
    → AllKnown m
    → IsRanged (elim (lookup name m) [ none ↦ log_badvalue | some lv ↦ lv ])
unfolding lookup
lookup-IsRanged name [] h = refl
lookup-IsRanged name ((key, lv) ∷ m) (k, h) =
    if_elim {A = Option ℤ} (λ o. IsRanged (elim o [ none ↦ log_badvalue | some l ↦ l ]))
      (key == name) _ _ (λ _. rw k refl) (λ _. lookup-IsRanged name m h)

dict_loglevel-IsRanged : (name : String) → IsRanged (dict_loglevel name)
unfolding dict_loglevel
dict_loglevel-IsRanged name =
    lookup-IsRanged name map_log_level
      (refl, (refl, (refl, (refl, (refl, (refl, (refl, (refl, tt))))))))

-- For a level from 0 to 7 its name gives the level back, and the name of any other number gives
-- LOG_BADVALUE. What a string is given is either a level from 0 to 7, and then the string is the name
-- of that level, or LOG_BADVALUE, and the name of that is "BADVALUE".
pub loglevel_names :
    (lv : ℤ) (name : String)
    → (dict_loglevel (dict_loglevelname lv) ≡ (if is_known lv then lv else log_badvalue))
      × (dict_loglevel name
          ≡ (if is_known (dict_loglevel name) then dict_loglevel name else log_badvalue))
      × (dict_loglevelname (dict_loglevel name)
          ≡ (if is_known (dict_loglevel name) then name else bad_name))
loglevel_names lv name =
    (dict_loglevel_known lv, dict_loglevel-IsRanged name, dict_loglevelname_known name)

-- The level with which a message is logged by a name.
abbrev pub level_of : String → ℤ
level_of name =
    let lv : ℤ = dict_loglevel name in if is_level lv log_badvalue then log_debug else lv

level_of_known : (name : String) → is_known (level_of name) ≡ true
unfolding dict_loglevel
level_of_known name = ground arith

if_map :
    {A B : Type 0} (f : A → B) (b : Bool) (x y : A)
    → (if b then f x else f y) ≡ f (if b then x else y)
if_map f true x y = refl
if_map f false x y = refl

-- A message that is logged by the name of its level.
pub record Message (Place : Type 0) : Type 0 where
  pub name : String
  pub time : String
  pub place : Place
  pub text : String

-- What a line's first three characters say of its level.
abbrev pub level_in : Option String × String → ℤ
level_in (file, line) = dict_loglevel (take 3 line)

-- The lines of a log whose level is at most a.
unfoldable pub at_most : ℤ → Written → Written
at_most a [] = []
at_most a (l ∷ out) = if leb_ℤ (level_in l) a then l ∷ at_most a out else at_most a out

module _ {Place : Type 0} (around : Outside Place) where
  -- Logs the messages, one after the other.
  unfoldable pub log_all : Watch → List (Message Place) → Written → Written
  log_all w [] out = out
  log_all w (m ∷ ms) out = log_all w ms (dolog_name around w m.name m.time m.place m.text out)

  line_level :
      (w : Watch) (lv : ℤ) (time : String) (place : Place) (text : String)
      → is_known lv ≡ true
      → dict_loglevel (take 3 (log_line around w lv time place text)) ≡ lv
  unfolding dict_loglevel log_line
  line_level w (pos zero) time place text h = refl
  line_level w (pos (suc zero)) time place text h = refl
  line_level w (pos (suc (suc zero))) time place text h = refl
  line_level w (pos (suc (suc (suc zero)))) time place text h = refl
  line_level w (pos (suc (suc (suc (suc zero))))) time place text h = refl
  line_level w (pos (suc (suc (suc (suc (suc zero)))))) time place text h = refl
  line_level w (pos (suc (suc (suc (suc (suc (suc zero))))))) time place text h = refl
  line_level w (pos (suc (suc (suc (suc (suc (suc (suc zero)))))))) time place text h = refl
  line_level w (pos (suc (suc (suc (suc (suc (suc (suc (suc n))))))))) time place text h =
      ground arith
  line_level w (negsuc n) time place text h = ground arith

  dolog_name_eq :
      (w : Watch) (name time : String) (place : Place) (text : String) (out : Written)
      → dolog_name around w name time place text out
        ≡ dolog around w (level_of name) time place text out
  unfolding dolog_name
  dolog_name_eq w name time place text out =
      if_map (λ lv. dolog around w lv time place text out)
        (is_level (dict_loglevel name) log_badvalue) log_debug (dict_loglevel name)

  log_line-reset_maxloglevel :
      (w : Watch) (a lv : ℤ) (time : String) (place : Place) (text : String)
      → log_line around (reset_maxloglevel a w) lv time place text
        ≡ log_line around w lv time place text
  unfolding log_line reset_maxloglevel
  log_line-reset_maxloglevel w a lv time place text = refl

  dolog-at_most :
      (w : Watch) (a lv : ℤ) (time : String) (place : Place) (text : String) (out : Written)
      → a ≤ℤ w.maxloglevel
      → is_known lv ≡ true
      → dolog around (reset_maxloglevel a w) lv time place text (at_most a out)
        ≡ at_most a (dolog around w lv time place text out)
  unfolding dolog reset_maxloglevel at_most
  dolog-at_most w a lv time place text out h k =
      ground (
        arith,
        line_level w lv time place text k,
        log_line-reset_maxloglevel w a lv time place text,
      )

  quieter :
      (w : Watch) (a : ℤ) (ms : List (Message Place)) (out : Written)
      → a ≤ℤ w.maxloglevel
      → log_all (reset_maxloglevel a w) ms (at_most a out) ≡ at_most a (log_all w ms out)
  unfolding log_all
  quieter w a [] out h = refl
  quieter w a (m ∷ ms) out h =
      ap (log_all (reset_maxloglevel a w) ms) (
        dolog_name_eq (reset_maxloglevel a w) m.name m.time m.place m.text (at_most a out)
        ∙ dolog-at_most w a (level_of m.name) m.time m.place m.text out h (level_of_known m.name)
        ∙ sym (ap (at_most a) (dolog_name_eq w m.name m.time m.place m.text out)))
      ∙ quieter w a ms (dolog_name around w m.name m.time m.place m.text out) h

  -- Under a smaller maxloglevel the same messages leave exactly those lines of the log, in the same
  -- order and with the same file, whose first three characters name a level that is not above it.
  pub log_all-at_most :
      (w : Watch) (a : ℤ) (ms : List (Message Place))
      → a ≤ℤ w.maxloglevel
      → log_all (reset_maxloglevel a w) ms [] ≡ at_most a (log_all w ms [])
  unfolding at_most
  log_all-at_most w a ms h = quieter w a ms [] h
