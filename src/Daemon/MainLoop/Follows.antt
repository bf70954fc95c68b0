-- ===== src/Daemon/MainLoop/Follows.antt =====
-- Whole runs of main_loop's body follow the protocol of requests, and so does the loop.
use jk16legacy.Prelude.{
  ℕ, ◌+◌, ◌≤◌, ◌<◌, ◌≡◌, refl, sym, ap, inl, inr, Bool, true, false, ◌&&◌, ◌||◌, not, Option, none,
  some, List, [], ◌∷◌, ◌++◌, map, arith, ltb, leb, ◌==◌, Bool-cases, length,
}
use jk16legacy.CommandQueue.{Cmd}
use jk16legacy.Daemon.MainLoop.{
  SelectOutcome, ready, timed_out, select_interrupted, select_failed, Round, Autosample, Setup,
  Loop, Flow, on, next_run, leave, hangs, fd_isset, autosample_part, clients_walk,
}
use jk16legacy.Daemon.MainLoop.Body.{
  send_part, count_sensor_listeners, enable_for, enable_part, clients_part, body, first_has_expired,
  select_part, main_run, Outcome, running, returned, stuck, proceed, main_runs,
}
use jk16legacy.Daemon.MainLoop.Invariant.{IsSerial, Ends, Ends-bind, Ends-check, Ends-if}
use jk16legacy.Daemon.MainLoop.Protocol.{Action, Steps, submitted, departed, Steps-fifo}
use jk16legacy.Daemon.MainLoop.Refines.{
  request, view, Advances, Advances-refl, Advances-more, Advances-trans, Advances-then,
  Advances-pop, contents-view,
}
use jk16legacy.Daemon.MainLoop.Simulation.{
  From, signal_part-Advances, tty_part-Advances, listen_part-Advances, autosample_ready-Advances,
  clients_walk-Advances, send_part-Advances,
}

enable_for_queue :
    (o : Option Autosample) (l : Loop) → (enable_for o l).shared.cmd_q ≡ l.shared.cmd_q
unfolding enable_for
enable_for_queue none l = refl
enable_for_queue (some a) l =
    elim (Bool-cases (
      (not l.autosample_enabled && ltb 0 (count_sensor_listeners l.shared.client_lst 0))
      || (l.autosample_enabled && count_sensor_listeners l.shared.client_lst 0 == 0))) [
        | inl e ↦ rw e refl
        | inr e ↦ rw e refl
      ]

pub cmd_q-enable_part : (c : Setup) (l : Loop) → (enable_part c l).shared.cmd_q ≡ l.shared.cmd_q
unfolding enable_part
cmd_q-enable_part c l = enable_for_queue c.autosample l

Ends-mono : (P Q : Loop → Type 0) (m : Flow) → ((l : Loop) → P l → Q l) → Ends P P m → Ends Q Q m
Ends-mono P Q (on l) f h = f l h
Ends-mono P Q (next_run l) f h = f l h
Ends-mono P Q (leave r l) f h = f l h
Ends-mono P Q hangs f h = tt

Ends-on : (P Q : Loop → Type 0) (m : Flow) → ((l : Loop) → P l → Q l) → Ends P P m → Ends P Q m
Ends-on P Q (on l) f h = h
Ends-on P Q (next_run l) f h = f l h
Ends-on P Q (leave r l) f h = f l h
Ends-on P Q hangs f h = tt

at_once : (q : List Cmd) → IsSerial q → Advances 1 q q
at_once q h = Advances-more 0 1 q q (omega arith) (Advances-refl q h)

module _ (c : Setup) (r : Round) (tmpfds : ℕ → Bool) (n : ℕ) (q : List Cmd) where
  clients_part-Advances :
      (l : Loop) → From n q l → Ends (From n q) (From n q) (clients_part c r tmpfds l)
  unfolding clients_part
  clients_part-Advances l h =
      let fds = map (λ k. k.fd) l.shared.client_lst in
      let (ret, l1) = clients_walk c r tmpfds fds l in
      let walked = clients_walk-Advances c r tmpfds n q fds l h in
      Ends-bind (From n q) (From n q) (From n q) (send_part c r.now l1.shared.cmd_q l1) _
        (Ends-mono (From 0 l1.shared.cmd_q) (From n q) (send_part c r.now l1.shared.cmd_q l1)
          (λ l2 k. Advances-then n q l1.shared.cmd_q l2.shared.cmd_q walked k)
          (send_part-Advances c r.now l1.shared.cmd_q l1 refl walked.serial))
        (λ l2 k.
          let enabled : From n q (enable_part c l2) = rw cmd_q-enable_part k in
          Ends-check (From n q) (From n q) ret _ enabled enabled)

  autosample_part-Advances :
      (l : Loop) → From n q l → Ends (From n q) (From n q) (autosample_part c r tmpfds l)
  unfolding autosample_part
  autosample_part-Advances l h = autosample_ready-Advances c r tmpfds n q c.autosample l h

body-Advances :
    (c : Setup) (r : Round) (tmpfds : ℕ → Bool) (n m : ℕ) (q : List Cmd) (l : Loop)
    → n ≤ m
    → (tmpfds c.tty_fd ≡ true → n < m)
    → From n q l
    → Ends (From m q) (From m q) (body c r tmpfds l)
unfolding body
body-Advances c r tmpfds n m q l k tty h =
    let then = Ends-bind (From m q) (From m q) (From m q) in
    then _ _
      (then _ _
        (then _ _
          (Ends-bind (From n q) (From m q) (From m q) _ _
            (Ends-on (From n q) (From m q) _ (λ l' h'. Advances-more n m q l'.shared.cmd_q k h')
              (signal_part-Advances c r tmpfds n q l h))
            (λ l' h'. tty_part-Advances c r tmpfds n q m l' k tty h'))
          (listen_part-Advances c r tmpfds m q))
        (autosample_part-Advances c r tmpfds m q))
      (clients_part-Advances c r tmpfds m q)

select_part-Advances :
    (c : Setup) (r : Round) (o : SelectOutcome) (l : Loop)
    → IsSerial l.shared.cmd_q
    → let q = l.shared.cmd_q in Ends (From 1 q) (From 1 q) (select_part c r o l)
unfolding select_part
select_part-Advances c r ready l h =
    body-Advances c r (λ fd. r.is_ready fd && (fd_isset fd l.readfds && leb fd l.max_fd)) 0 1
      l.shared.cmd_q l (omega arith) (λ e. omega arith) (Advances-refl l.shared.cmd_q h)
select_part-Advances c r timed_out l h =
    let q = l.shared.cmd_q in
    Ends-if (From 1 q) (From 1 q) (first_has_expired r.now q) _ (next_run l)
      (body-Advances c r (λ _. false) 1 1 q _ (omega arith) (λ e. cc) (Advances-pop q h))
      (at_once q h)
select_part-Advances c r select_interrupted l h = at_once l.shared.cmd_q h
select_part-Advances c r select_failed l h = at_once l.shared.cmd_q h

pub main_run-Advances :
    (c : Setup) (r : Round) (l : Loop)
    → IsSerial l.shared.cmd_q
    → Ends
        (λ l'. Advances 1 l.shared.cmd_q l'.shared.cmd_q)
        (λ l'. Advances 1 l.shared.cmd_q l'.shared.cmd_q)
        (main_run c r l)
unfolding main_run
main_run-Advances c r l h = select_part-Advances c r r.select l h

-- The queue of a loop that runs.
queue_of : List Cmd → Outcome → List Cmd
queue_of q (running l) = l.shared.cmd_q
queue_of q (returned ret l) = q
queue_of q stuck = q

-- What follows the first of some runs.
proceed-Advances :
    (c : Setup) (rs : List Round) (n : ℕ) (q q' : List Cmd) (l' : Loop) (m : Flow)
    → ((l1 : Loop) → From 1 q l1 → main_runs c rs l1 ≡ running l' → Advances n q q')
    → Ends (From 1 q) (From 1 q) m
    → proceed (main_runs c rs) m ≡ running l'
    → Advances n q q'
unfolding proceed
proceed-Advances c rs n q q' l' (on l1) k f e = k l1 f e
proceed-Advances c rs n q q' l' (next_run l1) k f e = k l1 f e
proceed-Advances c rs n q q' l' (leave ret l1) k f e = cc
proceed-Advances c rs n q q' l' hangs k f e = cc

main_runs-Advances :
    (c : Setup) (rs : List Round) (l l' : Loop)
    → IsSerial l.shared.cmd_q
    → main_runs c rs l ≡ running l'
    → Advances (length rs) l.shared.cmd_q l'.shared.cmd_q
unfolding main_runs proceed queue_of
main_runs-Advances c [] l l' h e =
    let same : l.shared.cmd_q ≡ l'.shared.cmd_q = ap (queue_of []) e in
    rw (sym same) (Advances-refl l.shared.cmd_q h)
main_runs-Advances c (r ∷ rs) l l' h e =
    let q = l.shared.cmd_q in
    let q' = l'.shared.cmd_q in
    proceed-Advances c rs (length (r ∷ rs)) q q' l' (main_run c r l)
      (λ l1 f k. Advances-more (1 + length rs) (length (r ∷ rs)) q q' (omega arith) (
        Advances-trans 1 (length rs) q l1.shared.cmd_q q' f
          (main_runs-Advances c rs l1 l' f.serial k)))
      (main_run-Advances c r l h) e

-- As long as main_loop runs, the requests of its queue leave in the order in which they have come,
-- and one at most in every run: what was in the queue before some runs, followed by what has been
-- put in line since, is what has left, followed by what is in the queue then. No request overtakes
-- another, is doubled or is lost. The condition is that no command behind the first is marked as
-- sent before.
pub main_runs-fifo :
    (c : Setup) (rs : List Round) (l l' : Loop)
    → IsSerial l.shared.cmd_q
    → main_runs c rs l ≡ running l'
    → (actions : List Action) × Steps (view l.shared.cmd_q) actions (view l'.shared.cmd_q)
      × (map request l.shared.cmd_q ++ submitted actions
          ≡ departed actions ++ map request l'.shared.cmd_q)
      × (length (departed actions) ≤ length rs)
main_runs-fifo c rs l l' h e =
    let a = main_runs-Advances c rs l l' h e in
    (
      a.actions,
      a.steps,
      rw (contents-view l.shared.cmd_q, contents-view l'.shared.cmd_q) at (Steps-fifo a.steps),
      a.few,
    )
