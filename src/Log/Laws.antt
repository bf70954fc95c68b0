-- ===== src/Log/Laws.antt =====
-- log.c: what log_targets_add does to the list of targets.
use jk16legacy.Prelude.{
  ℕ, zero, suc, ◌≡◌, refl, sym, ap, ◌≢◌, ◌⊎◌, inl, inr, Bool, true, false, ◌&&◌, not, Option, none,
  some, List, [], ◌∷◌, ◌++◌, arith, ltb, if◌then◌else◌, ℤ, pos, negsuc, Text, strchr,
}
use jk16legacy.World.{World, head_alloc}
use jk16legacy.Log.{
  TargetType, TargetParam, no_param, syslog_param, file_param, LogTarget, log_target_parse_type,
  log_targets_target_exists, log_target_new, is_repeatable, InitResult, LogEnv, init_target,
  target_open, target_link, parse_prio, add_inited, add_with_prio, add_of_type, log_targets_add,
}
use mathlib.Core.Path.{subst}

target_link-append : (ts : List LogTarget) (t : LogTarget) → target_link ts t ≡ ts ++ (t ∷ [])
unfolding target_link
target_link-append [] t = refl
target_link-append (u ∷ ts) t = ap (λ r. u ∷ r) (target_link-append ts t)

-- A target that may be added to a list.
abbrev MayAdd : List LogTarget → LogTarget → Type 0
MayAdd ts t = is_repeatable t.type_ ≡ false → log_targets_target_exists ts t.type_ ≡ false

-- Either a target is added at the end, one that may be there, or an error leaves the list as it is.
abbrev pub IsAdded : List LogTarget → ℤ × List LogTarget × World → Type 0
IsAdded ts r =
    ((r.0 ≡ pos 0) × ((t : LogTarget) × (r.1 ≡ ts ++ (t ∷ [])) × MayAdd ts t))
    ⊎ ((r.0 ≢ pos 0) × (r.1 ≡ ts))

target_open-type : (env : LogEnv) (t : LogTarget) → (target_open env t).type_ ≡ t.type_
unfolding target_open
target_open-type env t = go t.param_
  where
    go :
        (p : TargetParam)
        → (elim p as (λ x. LogTarget) [
          | no_param ↦ t
          | syslog_param name facility ↦ record t { opened_ = true }
          | file_param name ↦ record t { opened_ = env.can_open name }
        ]).type_
          ≡ t.type_
    go no_param = refl
    go (syslog_param name facility) = refl
    go (file_param name) = refl

add_inited-IsAdded :
    (env : LogEnv) (ts : List LogTarget) (t : LogTarget) (r : InitResult × World)
    → MayAdd ts t
    → IsAdded ts (add_inited env ts t r)
unfolding add_inited
add_inited-IsAdded env ts t ((pos zero, param), w) h = inl (
  refl,
  (
    target_open env (record t { param_ = param }),
    target_link-append ts _,
    subst (λ y. is_repeatable y ≡ false → log_targets_target_exists ts y ≡ false)
        (sym (target_open-type env (record t { param_ = param }))) h,
  ),
)
add_inited-IsAdded env ts t ((pos (suc n), param), w) h = inr (λ e. ground arith, ground arith)
add_inited-IsAdded env ts t ((negsuc n, param), w) h = inr (λ e. ground arith, refl)

add_with_prio-IsAdded :
    (env : LogEnv) (ts : List LogTarget) (type : TargetType) (p : Option (ℕ × Option Text))
    (w : World)
    → (is_repeatable type ≡ false → log_targets_target_exists ts type ≡ false)
    → IsAdded ts (add_with_prio env ts type p w)
unfolding add_with_prio log_target_new
add_with_prio-IsAdded env ts type none w h = inr (λ e. ground arith, refl)
add_with_prio-IsAdded env ts type (some (prio, conf)) w h =
    add_inited-IsAdded env ts
      (record (log_target_new type) { max_prio_ = prio; enabled_ = ltb 0 prio })
      (init_target env type conf w) h

absent_of_guard : (a b g : Bool) → not a && b ≡ g → g ≡ false → a ≡ false → b ≡ false
absent_of_guard a b g e h k = ground arith

by_guards :
    (env : LogEnv) (ts : List LogTarget) (type : TargetType) (ok : Bool) (w : World) (g : Bool)
    → not (is_repeatable type) && log_targets_target_exists ts type ≡ g
    → (p : Option (ℕ × Option Text))
    → IsAdded ts (
        if not ok
        then (negsuc 1, ts, w)
        else if g
        then (negsuc 3, ts, w)
        else add_with_prio env ts type p w)
by_guards env ts type false w g e p = inr (λ e. ground arith, refl)
by_guards env ts type true w true e p = inr (λ e. ground arith, refl)
by_guards env ts type true w false e p =
    add_with_prio-IsAdded env ts type p w
      (absent_of_guard (is_repeatable type) (log_targets_target_exists ts type) false e refl)

-- log_targets_add either returns 0 and has added one target at the end, of which a syslog, stdout
-- or stderr target is the first of its type; or it returns an error and the list is as before.
pub log_targets_add_cases :
    (env : LogEnv) (ts : List LogTarget) (conf : Text) (w : World)
    → IsAdded ts (log_targets_add env ts conf w)
unfolding log_targets_add
log_targets_add_cases env ts conf w = go (log_target_parse_type conf)
  where
    go : (o : Option TargetType) → IsAdded ts (add_of_type env ts o conf w)
    go none = inr (λ e. ground arith, refl)
    go (some type) =
        by_guards env ts type (head_alloc w.allocs) _
          (not (is_repeatable type) && log_targets_target_exists ts type) refl
          (parse_prio (strchr conf b':'))
