-- ===== src/Options/Files/Checks.antt =====
-- options.c: what options_parse_post has checked.
use jk16legacy.Prelude.{
  ℕ, zero, suc, ◌≡◌, refl, sym, ap, ◌∙◌, ◌≢◌, inl, inr, true, Option, none, some, List, [], ◌∷◌,
  arith, if◌then◌else◌, Bool-cases, ℤ, pos, negsuc, Text, atoi,
}
use jk16legacy.World.{World}
use jk16legacy.KeyValue.{KeyValueStorage, key_value_storage_find}
use jk16legacy.Options.{Options}
use jk16legacy.Options.Files.{
  is_positive, check_autosample, check_autosamples, parse_file, unless_error, options_parse_post,
}
use mathlib.Core.Path.{subst}

-- An autosample device that passed the checks: it is in the storage, and its rate is positive.
abbrev pub AreChecked : KeyValueStorage → List Text → List Text → Type 0
AreChecked devs [] vs = Unit
AreChecked devs (k ∷ ks) [] = Unit
AreChecked devs (k ∷ ks) (v ∷ vs) =
    (key_value_storage_find devs (some k) ≢ none)
    × (is_positive (atoi v) ≡ true)
    × AreChecked devs ks vs

check_autosample-passed :
    (file : Option Text) (k v : Text) (dev : Option Text) (w : World)
    → (check_autosample file k v dev w).0 ≡ true
    → (dev ≢ none) × (is_positive (atoi v) ≡ true)
unfolding check_autosample
check_autosample-passed file k v none w h = ground arith
check_autosample-passed file k v (some d) w h = (λ e. cc, ground arith)

check_autosamples-AreChecked :
    (file : Option Text) (devs : KeyValueStorage) (ks vs : List Text) (w : World)
    → (check_autosamples file devs ks vs w).0 ≡ pos 0
    → AreChecked devs ks vs
unfolding check_autosamples
check_autosamples-AreChecked file devs [] vs w h = tt
check_autosamples-AreChecked file devs (k ∷ ks) [] w h = tt
check_autosamples-AreChecked file devs (k ∷ ks) (v ∷ vs) w h =
    let found = key_value_storage_find devs (some k) in
    let one = check_autosample file k v found w in
    let rest = check_autosamples file devs ks vs one.1 in
    elim (Bool-cases one.0) [
      | inl ok ↦
          (let (a, b) = check_autosample-passed file k v found w ok in
            (
              a,
              b,
              check_autosamples-AreChecked file devs ks vs one.1
                  (subst (λ z. (if z then rest else (negsuc 0, one.1)).0 ≡ pos 0) ok h),
            ))
      | inr bad ↦
          ground (arith, subst (λ z. (if z then rest else (negsuc 0, one.1)).0 ≡ pos 0) bad h)
    ]

unless_error-zero :
    (a b : ℤ × Options × World) → (unless_error a b).0 ≡ pos 0 → unless_error a b ≡ b
unless_error-zero (pos zero, o, w) b h = refl
unless_error-zero (pos (suc n), o, w) b h = ground arith
unless_error-zero (negsuc n, o, w) b h = ground arith

-- Both files have been read, or neither is named, where the value is 0.
post_chain :
    (a b c : ℤ × Options × World)
    → (unless_error a (unless_error b c)).0 ≡ pos 0
    → unless_error a (unless_error b c) ≡ c
post_chain a b c h =
    let first = unless_error-zero a (unless_error b c) h in
    first ∙ unless_error-zero b c (ap (λ r. r.0) (sym first) ∙ h)

-- Where options_parse_post returns 0, every autosample device is among the sample devices that it
-- has read, and its rate is positive.
pub options_parse_post-AreChecked :
    (off_end : ℤ) (err : Text) (fopen : Text → Option (List ℕ)) (o : Options) (w : World)
    → (options_parse_post off_end err fopen o w).0 ≡ pos 0
    → let o' = (options_parse_post off_end err fopen o w).1 in
      AreChecked o'.sampledevs_ o'.autosampledevs_.keys_ o'.autosampledevs_.values_
unfolding options_parse_post
options_parse_post-AreChecked off_end err fopen o w h =
    let f1 = parse_file off_end err fopen o.powerid_file_ o.powerids_ w in
    let f2 = parse_file off_end err fopen o.sampledev_file_ o.sampledevs_ f1.2 in
    let last =
      check_autosamples o.sampledev_file_ f2.1 o.autosampledevs_.keys_ o.autosampledevs_.values_
        f2.2 in
    let o1 = record o { powerids_ = f1.1 } in
    let o2 = record o1 { sampledevs_ = f2.1 } in
    let e = post_chain (f1.0, o1, f1.2) (f2.0, o2, f2.2) (last.0, o2, last.1) h in
    subst (λ r. AreChecked r.1.sampledevs_ r.1.autosampledevs_.keys_ r.1.autosampledevs_.values_)
      (sym e)
      (check_autosamples-AreChecked o.sampledev_file_ f2.1 o.autosampledevs_.keys_
        o.autosampledevs_.values_ f2.2 (ap (λ r. r.0) (sym e) ∙ h))
