-- ===== src/Daemon/MainLoop/Refines.antt =====
-- main_loop does with its queue only what the protocol of requests allows.
use jk16legacy.Prelude.{
  ℕ, ◌+◌, ◌≤◌, ◌≡◌, refl, inl, inr, false, none, some, List, [], ◌∷◌, ◌++◌, map, arith,
  if◌then◌else◌, Bool-cases, length, length-append, All,
}
use jk16legacy.CommandQueue.{TimeVal, Cmd, new_cmd, cmd_sent, cmd_pop}
use jk16legacy.Daemon.Commands.Laws.{QueueChange, unchanged, pushed}
use jk16legacy.Daemon.MainLoop.Invariant.{IsSerial, IsSerial-change, IsSerial-pop}
use jk16legacy.Daemon.MainLoop.Protocol.{
  Request, State, Action, submit_request, send_request, end_request, drop_request, Step, submitting,
  sending, ending, dropping, Steps, stay, first_then, Steps-append, departed, contents,
  departed-append,
}
use mathlib.Core.List.{map-append}

abbrev pub request : Cmd → Request
request c = record { client = c.fd; id = c.cmd; param = c.param }

-- The queue as the protocol sees it.
abbrev pub view : List Cmd → State
view [] = record { in_flight = none; waiting = [] }
view (c ∷ q) =
    if c.sent
    then record { in_flight = some (request c); waiting = map request q }
    else record { in_flight = none; waiting = map request (c ∷ q) }

-- The queue `q'` comes from `q` by actions of the protocol with which at most `n` requests leave.
pub record Advances (n : ℕ) (q q' : List Cmd) : Type 0 where
  pub serial : IsSerial q'
  pub actions : List Action
  pub steps : Steps (view q) actions (view q')
  pub few : length (departed actions) ≤ n

pub Advances-refl : (q : List Cmd) → IsSerial q → Advances 0 q q
Advances-refl q h = record { serial = h; actions = []; steps = stay (view q); few = omega arith }

pub Advances-more : (n m : ℕ) (q q' : List Cmd) → n ≤ m → Advances n q q' → Advances m q q'
Advances-more n m q q' k h = record {
  serial = h.serial;
  actions = h.actions;
  steps = h.steps;
  few = (let few = h.few in omega (arith, k, few));
}

pub Advances-trans :
    (n m : ℕ) (q q1 q2 : List Cmd) → Advances n q q1 → Advances m q1 q2 → Advances (n + m) q q2
Advances-trans n m q q1 q2 h k = record {
  serial = k.serial;
  actions = h.actions ++ k.actions;
  steps = Steps-append h.steps k.steps;
  few =
      (let a = h.few in let b = k.few in rw (departed-append, length-append) (omega (arith, a, b)));
}

-- Where no request leaves in the second part.
pub Advances-then :
    (n : ℕ) (q q1 q2 : List Cmd) → Advances n q q1 → Advances 0 q1 q2 → Advances n q q2
Advances-then n q q1 q2 h k =
    Advances-more (n + 0) n q q2 (omega arith) (Advances-trans n 0 q q1 q2 h k)

Advances-one :
    (n : ℕ) (q q' : List Cmd) (a : Action)
    → IsSerial q'
    → Step (view q) a (view q')
    → length (departed (a ∷ [])) ≤ n
    → Advances n q q'
Advances-one n q q' a h k f = record {
  serial = h;
  actions = a ∷ [];
  steps = first_then k (stay (view q'));
  few = f;
}

view-push :
    (q : List Cmd) (c : Cmd)
    → c.sent ≡ false
    → Step (view q) (submit_request (request c)) (view (q ++ (c ∷ [])))
view-push [] c e = rw e (submitting none [] (request c))
view-push (d ∷ q) c e = elim (Bool-cases d.sent) [
  | inl s ↦
      rw (s, map-append request q (c ∷ []))
        (submitting (some (request d)) (map request q) (request c))
  | inr s ↦
      rw (s, map-append request q (c ∷ [])) (submitting none (map request (d ∷ q)) (request c))
]

pub Advances-change :
    (fd : ℕ) (q q' : List Cmd) → QueueChange fd q q' → IsSerial q → Advances 0 q q'
Advances-change fd q q' (unchanged e) h = rw e (Advances-refl q h)
Advances-change fd q q' (pushed id param e) h =
    Advances-one 0 q q' (submit_request (request (new_cmd fd id param)))
      (IsSerial-change fd q q' (pushed id param e) h)
      (rw e (view-push q (new_cmd fd id param) refl)) (omega arith)

view-unsent :
    (q : List Cmd)
    → All (λ d. d.sent ≡ false) q
    → view q ≡ record { in_flight = none; waiting = map request q }
view-unsent [] h = refl
view-unsent (c ∷ q) h = rw h.0 refl

pub Advances-pop : (q : List Cmd) → IsSerial q → Advances 1 q (cmd_pop q)
unfolding cmd_pop
Advances-pop [] h = Advances-more 0 1 [] [] (omega arith) (Advances-refl [] h)
Advances-pop (c ∷ q) h = elim (Bool-cases c.sent) [
  | inl s ↦
      Advances-one 1 (c ∷ q) q (end_request (request c)) (IsSerial-pop (c ∷ q) h)
        (rw (s, view-unsent q h) (ending (request c) (map request q))) (omega arith)
  | inr s ↦
      Advances-one 1 (c ∷ q) q (drop_request (request c)) (IsSerial-pop (c ∷ q) h)
        (rw (s, view-unsent q h) (dropping (request c) (map request q))) (omega arith)
]

pub Advances-send :
    (now : TimeVal) (c : Cmd) (q : List Cmd)
    → c.sent ≡ false
    → IsSerial (c ∷ q)
    → Advances 0 (c ∷ q) (cmd_sent now c ∷ q)
unfolding cmd_sent
Advances-send now c q e h =
    Advances-one 0 (c ∷ q) (cmd_sent now c ∷ q) (send_request (request c)) h
      (rw e (sending (request c) (map request q))) (omega arith)

-- The protocol sees every command of the queue.
pub contents-view : (q : List Cmd) → contents (view q) ≡ map request q
contents-view [] = refl
contents-view (c ∷ q) = elim (Bool-cases c.sent) [ inl s ↦ rw s refl | inr s ↦ rw s refl ]
