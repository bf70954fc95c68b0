-- ===== src/Daemon/MainLoop/TimeOuts.antt =====
-- Runs of main_loop in which select times out and nothing else happens.
use jk16legacy.Prelude.{
  suc, ◌≡◌, refl, ap, ◌∙◌, ◌≢◌, ◌⊎◌, inl, inr, true, false, some, List, [], ◌∷◌, if◌then◌else◌,
  Bool-cases, ℤ, length, All,
}
use jk16legacy.World.{error, World}
use jk16legacy.CommandQueue.{TimeVal, Cmd, cmd_sent, cmd_pop}
use jk16legacy.CommandQueue.Laws.{IsUntil, IsUntil-trans, IsUntil-refl}
use jk16legacy.Daemon.Send.{send_command}
use jk16legacy.Daemon.Send.Command.{
  SendOutcome, kept, begun, send_command-SendOutcome, send_command_returns,
}
use jk16legacy.Daemon.MainLoop.{timed_out, Round, Setup, Loop, on, next_run, with_shared, note}
use jk16legacy.Daemon.MainLoop.Body.{
  put_first, send_part, enable_part, first_has_expired, select_part, main_run,
}
use jk16legacy.Daemon.MainLoop.Effects.{body_idle}
use jk16legacy.Daemon.MainLoop.Follows.{cmd_q-enable_part}

-- No command has an empty parameter.
abbrev pub HasText : List Cmd → Type 0
HasText = All (λ c. c.param ≢ some [])

-- What is left of a queue after a run that begins with the first command taken off: the rest, with
-- its first command perhaps sent.
abbrev pub SentFirst : TimeVal → List Cmd → List Cmd → Type 0
SentFirst now [] q' = q' ≡ []
SentFirst now (c ∷ q) q' = (q' ≡ c ∷ q) ⊎ (q' ≡ cmd_sent now c ∷ q)

send_part_quiet :
    (c : Setup) (now : TimeVal) (q : List Cmd) (l : Loop)
    → l.shared.cmd_q ≡ q
    → HasText q
    → (l' : Loop) × (send_part c now q l ≡ on l') × SentFirst now q l'.shared.cmd_q
unfolding send_part put_first
send_part_quiet c now [] l e h = (l, refl, e)
send_part_quiet c now (cmd ∷ q) l e h =
    let (o, returns) = send_command_returns now c.tty_fd cmd l.shared.world h.0 in
    elim (Bool-cases cmd.sent) [
      | inl s ↦ (l, simp s, inl e)
      | inr s ↦ (
        with_shared (λ s. record s { cmd_q = o.1 ∷ q; world = o.2 }) l,
        ap (λ z. if z then on l else put_first q l (send_command now c.tty_fd cmd l.shared.world)) s
            ∙ ap (put_first q l) returns,
        first o (send_command-SendOutcome now c.tty_fd cmd l.shared.world o returns),
      )
    ]
  where
    first :
        (o : ℤ × Cmd × World)
        → SendOutcome now c.tty_fd cmd l.shared.world o
        → (o.1 ∷ q ≡ cmd ∷ q) ⊎ (o.1 ∷ q ≡ cmd_sent now cmd ∷ q)
    first o (kept same silent) = inl (ap (λ x. x ∷ q) same)
    first o (begun param bs n p t z same bytes) = inr (ap (λ x. x ∷ q) same)

-- Every command was sent at `t` at the latest.
abbrev pub IsStarted : TimeVal → List Cmd → Type 0
IsStarted t = All (λ c. IsUntil c.tv_start t)

pub IsStarted-later : (a b : TimeVal) (q : List Cmd) → IsUntil a b → IsStarted a q → IsStarted b q
IsStarted-later a b [] k h = tt
IsStarted-later a b (c ∷ q) k h = (IsUntil-trans c.tv_start a b h.0 k, IsStarted-later a b q k h.1)

-- What a time-out takes off the queue `q`, where its first command has expired.
pub record Shorter (now : TimeVal) (q q' : List Cmd) : Type 0 where
  pub one_less : length q ≡ suc (length q')
  pub has_text : HasText q'
  pub started : IsStarted now q'

Shorter-sent :
    (now : TimeVal) (c : Cmd) (q q' : List Cmd)
    → HasText q
    → IsStarted now q
    → SentFirst now q q'
    → Shorter now (c ∷ q) q'
unfolding cmd_sent
Shorter-sent now c [] q' h k e = rw e (record { one_less = refl; has_text = tt; started = tt })
Shorter-sent now c (d ∷ q) q' h k (inl e) =
    rw e (record { one_less = refl; has_text = h; started = k })
Shorter-sent now c (d ∷ q) q' h k (inr e) =
    rw e (record { one_less = refl; has_text = h; started = (IsUntil-refl now, k.1) })

send_popped :
    (c : Setup) (now : TimeVal) (q : List Cmd) (l : Loop)
    → first_has_expired now q ≡ true
    → l.shared.cmd_q ≡ cmd_pop q
    → HasText q
    → IsStarted now q
    → (l' : Loop) × (send_part c now l.shared.cmd_q l ≡ on l') × Shorter now q l'.shared.cmd_q
unfolding first_has_expired cmd_pop
send_popped c now [] l x e h k = cc
send_popped c now (d ∷ q) l x e h k =
    let (l', f, v) = send_part_quiet c now q l e h.1 in
    (l', ap (λ z. send_part c now z l) e ∙ f, Shorter-sent now d q l'.shared.cmd_q h.1 k.1 v)

-- A time-out: nothing changes where the first command has not expired; otherwise it is taken off.
pub data TimeOut (c : Setup) (r : Round) (l : Loop) : Type 0 where
  in_time :
      first_has_expired r.now l.shared.cmd_q ≡ false → main_run c r l ≡ next_run l → TimeOut c r l
  late :
      (l' : Loop)
      → main_run c r l ≡ on l'
      → Shorter r.now l.shared.cmd_q l'.shared.cmd_q
      → TimeOut c r l

pub timed_out_cases :
    (c : Setup) (r : Round) (l : Loop)
    → r.select ≡ timed_out
    → HasText l.shared.cmd_q
    → IsStarted r.now l.shared.cmd_q
    → TimeOut c r l
unfolding main_run select_part
timed_out_cases c r l s h k = elim (Bool-cases (first_has_expired r.now l.shared.cmd_q)) [
  | inl x ↦
      let l1 =
        with_shared (λ s. record s { cmd_q = cmd_pop s.cmd_q })
          (note error "last command expired" [] l) in
      let (l', e, v) = send_popped c r.now l.shared.cmd_q l1 x refl h k in
      late (enable_part c l') (rw (s, x, body_idle, e) refl) (rw cmd_q-enable_part v)
  | inr x ↦ in_time x (rw (s, x) refl)
]
