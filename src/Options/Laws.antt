-- ===== src/Options/Laws.antt =====
-- options.c: where options_parse stops, and which options it reads.
use jk16legacy.Prelude.{
  ℕ, suc, ◌+◌, ◌≤◌, ◌<◌, inl, inr, Bool, true, false, Option, none, some, List, [], ◌∷◌, arith, ℤ,
  pos, negsuc, length, Text, strchr,
}
use jk16legacy.World.{World}
use jk16legacy.StringList.{string_list_add_cases}
use jk16legacy.Options.{
  Options, strdup, options_default, StringParam, Switch, help, nodaemonize, log_target,
  autosampledev, unknown, string_param, switch_of, ArgStep, stop, go_on, value_arg, copied_param,
  parse_string_param, parse_string_list, parse_key_value, parse_autosampledev, parse_switch,
  parse_args, named_parse, options_parse,
}
use mathlib.Core.Path.{subst}

-- A value that options_parse may return: 0, the number of a word of the command line, -1 or -2.
abbrev pub IsAnswer : ℕ → ℤ → Type 0
IsAnswer argc (pos n) = n < argc
IsAnswer argc (negsuc n) = n ≤ 1

abbrev IsAnswerStep : ℕ → ArgStep → Type 0
IsAnswerStep argc (stop r o w) = IsAnswer argc r
IsAnswerStep argc (go_on used o w) = Unit

-- The word behind an option that has one is in bounds, too.
abbrev Fits : ℕ → ℕ → Option Text → Type 0
Fits i argc none = i < argc
Fits i argc (some v) = i + 1 < argc

value_arg-Fits : (i : ℕ) (args : List Text) → Fits i (i + 1 + length args) (value_arg args)
unfolding value_arg
value_arg-Fits i [] = omega arith
value_arg-Fits i ([] ∷ args) = omega arith
value_arg-Fits i ((c ∷ s) ∷ args) = ground arith

copied_param-IsAnswer :
    (argc : ℕ) (p : StringParam) (o : Options) (copy : Option Text) (w : World)
    → IsAnswerStep argc (copied_param p o copy w)
unfolding copied_param
copied_param-IsAnswer argc p o none w = omega arith
copied_param-IsAnswer argc p o (some s) w = tt

parse_key_value-IsAnswer :
    (i argc : ℕ) (arg : Text) (v : Option Text) (o : Options) (w : World)
    → i + 1 < argc
    → IsAnswerStep argc (parse_key_value i arg v o w)
unfolding parse_key_value
parse_key_value-IsAnswer i argc arg none o w h = h
parse_key_value-IsAnswer i argc arg (some []) o w h = h
parse_key_value-IsAnswer i argc arg (some (c ∷ [])) o w h = h
parse_key_value-IsAnswer i argc arg (some (c ∷ v ∷ vs)) o w h = ground arith

parse_string_list-IsAnswer :
    (i argc : ℕ) (v : Text) (o : Options) (w : World)
    → i + 1 < argc
    → IsAnswerStep argc (parse_string_list i (some v) o w)
unfolding parse_string_list
parse_string_list-IsAnswer i argc v o w h = elim (string_list_add_cases o.log_targets_ v w) [
  | inl ok ↦ ground (arith, ok.0)
  | inr bad ↦ ground (arith, bad.0)
]

parse_switch-IsAnswer :
    (i argc : ℕ) (s : Switch) (v : Option Text) (o : Options) (w : World)
    → Fits i argc v
    → IsAnswerStep argc (parse_switch i s v o w)
unfolding parse_switch parse_string_param parse_string_list parse_autosampledev
parse_switch-IsAnswer i argc help v o w h = omega arith
parse_switch-IsAnswer i argc nodaemonize v o w h = tt
parse_switch-IsAnswer i argc unknown none o w h = h
parse_switch-IsAnswer i argc unknown (some v) o w h = omega arith
parse_switch-IsAnswer i argc log_target none o w h = h
parse_switch-IsAnswer i argc log_target (some v) o w h = parse_string_list-IsAnswer i argc v o w h
parse_switch-IsAnswer i argc autosampledev none o w h = h
parse_switch-IsAnswer i argc autosampledev (some v) o w h =
    parse_key_value-IsAnswer i argc v (strchr v b',') o w h
parse_switch-IsAnswer i argc (string_param p) none o w h = h
parse_switch-IsAnswer i argc (string_param p) (some v) o w h =
    copied_param-IsAnswer argc p o (strdup v w).0 (strdup v w).1

finish :
    (i : ℕ) (args : List Text) (step : ArgStep)
    → IsAnswerStep (i + 1 + length args) step
    → ((u : Bool) (o' : Options) (w' : World)
        → IsAnswer (i + 1 + length args) (parse_args (i + 1) u args o' w').0)
    → IsAnswer
        (i + suc (length args))
        (elim step as (λ x. ℤ × Options × World) [
          | stop ret o' w' ↦ (ret, o', w')
          | go_on used o' w' ↦ parse_args (i + 1) used args o' w'
        ]).0
finish i args (stop r o' w') k rec = subst (λ n. IsAnswer n r) (omega arith) k
finish i args (go_on u o' w') k rec =
    subst (λ n. IsAnswer n (parse_args (i + 1) u args o' w').0) (omega arith) (rec u o' w')

parse_args-IsAnswer :
    (i : ℕ) (used : Bool) (args : List Text) (o : Options) (w : World)
    → 0 < i
    → IsAnswer (i + length args) (parse_args i used args o w).0
unfolding parse_args
parse_args-IsAnswer i used [] o w h = omega arith
parse_args-IsAnswer i true (word ∷ args) o w h =
    subst (λ n. IsAnswer n (parse_args (i + 1) false args o w).0) (omega arith)
      (parse_args-IsAnswer (i + 1) false args o w (omega arith))
parse_args-IsAnswer i false (word ∷ args) o w h =
    finish i args (parse_switch i (switch_of word) (value_arg args) o w)
      (parse_switch-IsAnswer i (i + 1 + length args) (switch_of word) (value_arg args) o w
        (value_arg-Fits i args))
      (λ u o' w'. parse_args-IsAnswer (i + 1) u args o' w' (omega arith))

-- options_parse returns 0, -1, -2, or the number of a word of the command line, which main prints.
options_parse-IsAnswer :
    (argv0 : Text) (args : List Text) (w : World)
    → IsAnswer (1 + length args) (options_parse argv0 args w).0
unfolding options_parse named_parse strdup
options_parse-IsAnswer argv0 args w =
    let (o, w1) = options_default w in go o (strdup argv0 w1).0 (strdup argv0 w1).1
  where
    go :
        (o : Options) (name : Option Text) (v : World)
        → IsAnswer (1 + length args) (named_parse name args o v).0
    go o none v = omega arith
    go o (some s) v =
        parse_args-IsAnswer 1 false args (record o { progname_ = some s }) v (omega arith)
