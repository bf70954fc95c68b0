-- ===== src/Autosample/Laws.antt =====
-- autosample.c: what a time-out sends, and how often a device is sampled.
use jk16legacy.Prelude.{
  ℕ, zero, suc, ◌+◌, ◌*◌, ◌≤◌, ◌<◌, ◌≡◌, refl, sym, ap, ◌∙◌, inl, inr, true, List, [], ◌∷◌, ◌++◌,
  map, append-nil, append_assoc, arith, leb, if◌then◌else◌, Bool-cases, pos, Text,
}
use jk16legacy.World.{
  debug, str, Event, wrote, logged, World, emit, log_event, no_allocs_elim, no_writes_elim,
}
use jk16legacy.Daemon.Send.{response_loop}
use jk16legacy.Autosample.{
  AutosampleDevice, sample_message, send_sample_cmd, reaches, is_due, advance, is_enabled,
  tick_device, tick,
}

-- What a time-out of an enabled process adds to the trace.
abbrev due_event : ℕ → AutosampleDevice → List Event
due_event fd d =
    if is_due d
    then logged debug "autosample send sample command for '%s'" (str d.device_name_ ∷ [])
      ∷ wrote fd (sample_message d.device_name_)
      ∷ []
    else []

abbrev pub due_events : ℕ → List AutosampleDevice → List Event
due_events fd [] = []
due_events fd (d ∷ ds) = due_event fd d ++ due_events fd ds

abbrev pub add_events : List Event → World → World
add_events es w = record w { trace = w.trace ++ es }

send_sample_cmd_whole :
    (fd : ℕ) (name : Text) (w : World)
    → w.writes ≡ []
    → w.allocs ≡ []
    → send_sample_cmd fd name w ≡ (pos 0, add_events (wrote fd (sample_message name) ∷ []) w)
unfolding send_sample_cmd response_loop
send_sample_cmd_whole fd name w e a =
    no_allocs_elim
      (λ v. send_sample_cmd fd name v ≡ (pos 0, add_events (wrote fd (sample_message name) ∷ []) v))
      w a
      (no_writes_elim
        (λ v.
          send_sample_cmd fd name (record v { allocs = [] })
          ≡ (pos 0, add_events (wrote fd (sample_message name) ∷ []) (record v { allocs = [] })))
        w e refl)

pub add_events-append :
    (es fs : List Event) (w : World) → add_events fs (add_events es w) ≡ add_events (es ++ fs) w
add_events-append es fs w = ap (λ t. record w { trace = t }) (append_assoc w.trace es fs)

pub add_events-nil : (w : World) → w ≡ add_events [] w
add_events-nil w = ap (λ t. record w { trace = t }) (sym (append-nil w.trace))

tick_device-due :
    (fd enabled : ℕ) (d : AutosampleDevice) (w : World)
    → is_enabled enabled ≡ true
    → w.writes ≡ []
    → w.allocs ≡ []
    → tick_device fd enabled d w ≡ add_events (due_event fd d) w
unfolding tick_device log_event emit
tick_device-due fd enabled d w h e a =
    let event = logged debug "autosample send sample command for '%s'" (str d.device_name_ ∷ []) in
    let sent = send_sample_cmd_whole fd d.device_name_ (add_events (event ∷ []) w) e a in
    elim (Bool-cases (is_due d)) [
      | inl due ↦
          rw (due, h)
            (ap (λ r. r.1) sent
              ∙ add_events-append (event ∷ []) (wrote fd (sample_message d.device_name_) ∷ []) w)
      | inr not_due ↦ rw (not_due) (ap (λ t. record w { trace = t }) (sym (append-nil w.trace)))
    ]

pub tick-enabled :
    (fd enabled : ℕ) (ds : List AutosampleDevice) (w : World)
    → is_enabled enabled ≡ true
    → w.writes ≡ []
    → w.allocs ≡ []
    → tick fd enabled ds w ≡ (map advance ds, add_events (due_events fd ds) w)
unfolding tick
tick-enabled fd enabled [] w h e a = ap (λ v. ([], v)) (add_events-nil w)
tick-enabled fd enabled (d ∷ ds) w h e a =
    let rest = tick-enabled fd enabled ds (add_events (due_event fd d) w) h e a in
    ap (λ v. (advance d ∷ (tick fd enabled ds v).0, (tick fd enabled ds v).1))
      (tick_device-due fd enabled d w h e a)
    ∙ (ap (λ r. (advance d ∷ r.0, r.1)) rest
        ∙ ap (λ v. (advance d ∷ map advance ds, v))
            (add_events-append (due_event fd d) (due_events fd ds) w))

unfoldable pub ticks : ℕ → AutosampleDevice → AutosampleDevice
ticks zero d = d
ticks (suc n) d = ticks n (advance d)

-- In how many of the next n time-outs a device is due.
pub sends : ℕ → AutosampleDevice → ℕ
sends zero d = 0
sends (suc n) d = (if is_due d then 1 else 0) + sends n (advance d)

one_more : (x s p n c : ℕ) → x + s * suc p ≡ n → c ≡ p → x + (1 + s) * suc p ≡ suc n + c
one_more x s p n c h e = ground arith

sends_from :
    (n p : ℕ) (d : AutosampleDevice)
    → d.delay_ ≡ pos (suc p)
    → d.cnt_ ≤ p
    → ((ticks n d).cnt_ ≤ p) × ((ticks n d).cnt_ + sends n d * suc p ≡ n + d.cnt_)
unfolding ticks sends advance is_due
sends_from zero p d e h = ground arith
sends_from (suc n) p d e h =
    let x = (ticks n (advance d)).cnt_ in
    let s = sends n (advance d) in
    let same : is_due d ≡ leb (suc p) (d.cnt_ + 1) = ap (reaches (d.cnt_ + 1)) e in
    elim (Bool-cases (leb (suc p) (d.cnt_ + 1))) [
      | inl due ↦
          (let c : (advance d).cnt_ ≡ 0 = ap (λ z. if z then 0 else d.cnt_ + 1) (same ∙ due) in
            let (a, b) = sends_from n p (advance d) e (omega (arith, c)) in
            (
              a,
              ap (λ z. x + ((if z then 1 else 0) + s) * suc p) (same ∙ due)
                  ∙ one_more x s p n d.cnt_ (omega (arith, b, c)) (ground arith),
            ))
      | inr early ↦
          (let c : (advance d).cnt_ ≡ d.cnt_ + 1 =
              ap (λ z. if z then 0 else d.cnt_ + 1) (same ∙ early) in
            let (a, b) = sends_from n p (advance d) e (ground arith) in
            (
              a,
              ap (λ z. x + ((if z then 1 else 0) + s) * suc p) (same ∙ early) ∙ omega (arith, b, c),
            ))
    ]

-- A device with a delay of d seconds that starts at zero has been due floor(n / d) times after n
-- time-outs: its counter is below d, and makes up n with d times that number.
sends_lem :
    (n d : ℕ) (dev : AutosampleDevice)
    → 0 < d
    → dev.delay_ ≡ pos d
    → dev.cnt_ ≡ 0
    → ((ticks n dev).cnt_ < d) × ((ticks n dev).cnt_ + sends n dev * d ≡ n)
sends_lem n zero dev h e z = absurd (omega arith)
sends_lem n (suc p) dev h e z =
    let (a, b) = sends_from n p dev e (omega arith) in (omega arith, b ∙ omega arith)
