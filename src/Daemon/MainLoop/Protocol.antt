-- ===== src/Daemon/MainLoop/Protocol.antt =====
-- What main_loop promises of its commands, without clients, buffers and clocks: a waiting line, and
-- at most one request at the firmware.
use jk16legacy.Prelude.{
  ℕ, ◌≡◌, refl, sym, ap, ◌∙◌, Option, none, some, List, [], ◌∷◌, ◌++◌, append-nil, append_assoc,
  Text,
}
use jk16legacy.CommandQueue.{CmdId}

-- Who asks, for what, and with which parameter.
pub record Request : Type 0 where
  pub client : ℕ
  pub id : CmdId
  pub param : Option Text

pub record State : Type 0 where
  -- the request that the firmware works on
  pub in_flight : Option Request
  pub waiting : List Request

pub data Action : Type 0 where
  submit_request send_request end_request drop_request : Request → Action

-- A request is put at the end of the line; the first of the line is sent where the firmware is
-- free; the one at the firmware ends; and where the firmware is free the first of the line can be
-- given up unsent.
pub data Step : State → Action → State → Type 0 where
  submitting :
      (f : Option Request) (p : List Request) (r : Request)
      → Step
          (record { in_flight = f; waiting = p })
          (submit_request r)
          (record { in_flight = f; waiting = p ++ (r ∷ []) })
  sending :
      (r : Request) (p : List Request)
      → Step
          (record { in_flight = none; waiting = r ∷ p })
          (send_request r)
          (record { in_flight = some r; waiting = p })
  ending :
      (r : Request) (p : List Request)
      → Step
          (record { in_flight = some r; waiting = p })
          (end_request r)
          (record { in_flight = none; waiting = p })
  dropping :
      (r : Request) (p : List Request)
      → Step
          (record { in_flight = none; waiting = r ∷ p })
          (drop_request r)
          (record { in_flight = none; waiting = p })

pub data Steps : State → List Action → State → Type 0 where
  stay : (s : State) → Steps s [] s
  first_then :
      {s t u : State} {a : Action} {acts : List Action}
      → Step s a t
      → Steps t acts u
      → Steps s (a ∷ acts) u

pub Steps-append :
    {s t u : State} {acts more : List Action}
    → Steps s acts t
    → Steps t more u
    → Steps s (acts ++ more) u
Steps-append (stay s) k = k
Steps-append (first_then h hs) k = first_then h (Steps-append hs k)

-- The requests that are put in line, that leave, and that are sent.
abbrev pub submitted : List Action → List Request
submitted [] = []
submitted (submit_request r ∷ acts) = r ∷ submitted acts
submitted (send_request r ∷ acts) = submitted acts
submitted (end_request r ∷ acts) = submitted acts
submitted (drop_request r ∷ acts) = submitted acts

abbrev pub departed : List Action → List Request
departed [] = []
departed (submit_request r ∷ acts) = departed acts
departed (send_request r ∷ acts) = departed acts
departed (end_request r ∷ acts) = r ∷ departed acts
departed (drop_request r ∷ acts) = r ∷ departed acts

abbrev pub one_or_none : Option Request → List Request
one_or_none none = []
one_or_none (some r) = r ∷ []

-- The requests that have come and not left, the oldest first.
abbrev pub contents : State → List Request
contents s = one_or_none s.in_flight ++ s.waiting

Step-fifo :
    {s t : State} {a : Action}
    → Step s a t
    → contents s ++ submitted (a ∷ []) ≡ departed (a ∷ []) ++ contents t
Step-fifo (submitting none p r) = refl
Step-fifo (submitting (some x) p r) = refl
Step-fifo (sending r p) = append-nil (r ∷ p)
Step-fifo (ending r p) = append-nil (r ∷ p)
Step-fifo (dropping r p) = append-nil (r ∷ p)

submitted-cons :
    (a : Action) (acts : List Action) → submitted (a ∷ acts) ≡ submitted (a ∷ []) ++ submitted acts
submitted-cons (submit_request r) acts = refl
submitted-cons (send_request r) acts = refl
submitted-cons (end_request r) acts = refl
submitted-cons (drop_request r) acts = refl

departed-cons :
    (a : Action) (acts : List Action) → departed (a ∷ acts) ≡ departed (a ∷ []) ++ departed acts
departed-cons (submit_request r) acts = refl
departed-cons (send_request r) acts = refl
departed-cons (end_request r) acts = refl
departed-cons (drop_request r) acts = refl

-- Requests leave in the order in which they came.
pub Steps-fifo :
    {s t : State} {acts : List Action}
    → Steps s acts t
    → contents s ++ submitted acts ≡ departed acts ++ contents t
Steps-fifo (stay s) = append-nil (contents s)
Steps-fifo (first_then {s = s} {t = t} {u = u} {a = a} {acts = acts} h hs) =
    ap (λ x. contents s ++ x) (submitted-cons a acts)
    ∙ sym (append_assoc (contents s) (submitted (a ∷ [])) (submitted acts))
    ∙ ap (λ x. x ++ submitted acts) (Step-fifo h)
    ∙ append_assoc (departed (a ∷ [])) (contents t) (submitted acts)
    ∙ ap (λ x. departed (a ∷ []) ++ x) (Steps-fifo hs)
    ∙ sym (append_assoc (departed (a ∷ [])) (departed acts) (contents u))
    ∙ ap (λ x. x ++ contents u) (sym (departed-cons a acts))

pub departed-append :
    (acts more : List Action) → departed (acts ++ more) ≡ departed acts ++ departed more
departed-append [] more = refl
departed-append (submit_request r ∷ acts) more = departed-append acts more
departed-append (send_request r ∷ acts) more = departed-append acts more
departed-append (end_request r ∷ acts) more = ap (λ x. r ∷ x) (departed-append acts more)
departed-append (drop_request r ∷ acts) more = ap (λ x. r ∷ x) (departed-append acts more)
