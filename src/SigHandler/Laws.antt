-- ===== src/SigHandler/Laws.antt =====
-- sig_handler.c: no signal that ends the daemon is lost.
use jk16legacy.Prelude.{
  ℕ, zero, suc, ◌+◌, ◌≤◌, ◌<◌, ◌≡◌, refl, sym, ap, ◌∙◌, ◌≢◌, ◌↔◌, ◌⊎◌, inl, inr, Bool, true, false,
  ◌||◌, Option, none, List, [], ◌∷◌, arith, ◌==◌, if◌then◌else◌, Bool-cases,
}
use jk16legacy.World.{World}
use jk16legacy.SigHandler.{
  SignalSet, sigint, sigquit, sigterm, sigaddset, read_set, sig_handler, handle_one, signal_loop,
  signal_handle, deliver,
}

abbrev pub contains : ℕ → List ℕ → Bool
contains s [] = false
contains s (t ∷ ts) = s == t || contains s ts

-- The signals that end the daemon.
abbrev pub is_exit : ℕ → Bool
is_exit s = s == sigint || (s == sigquit || s == sigterm)

read_set-deliver :
    (sigs : List ℕ) (pipe : Option SignalSet) (s : ℕ)
    → read_set (deliver sigs pipe) s ≡ (contains s sigs || read_set pipe s)
unfolding deliver sig_handler sigaddset read_set
read_set-deliver [] pipe s = refl
read_set-deliver (t ∷ ts) pipe s =
    let rest = read_set-deliver ts (sig_handler t pipe) s in
    rest ∙ swap (contains s ts) (s == t) (read_set pipe s)
  where
    swap : (a b c : Bool) → (a || (b || c)) ≡ ((b || a) || c)
    swap a b c = ground arith

handle_one-is_exit : (s : ℕ) (w : World) → (handle_one s w).0 ≡ is_exit s
unfolding handle_one
handle_one-is_exit s w = ground arith

stays_true : (b ends : Bool) → (if b then true || ends else true) ≡ true
stays_true true ends = refl
stays_true false ends = refl

-- The value stays set.
signal_loop-keeps :
    (n sig : ℕ) (pending : SignalSet) (w : World) → (signal_loop n sig pending true w).0 ≡ true
unfolding signal_loop
signal_loop-keeps zero sig pending w = refl
signal_loop-keeps (suc n) sig pending w =
    let one = handle_one sig w in
    let next = if pending sig then one.1 else w in
    ap (λ r. (signal_loop n (sig + 1) pending r next).0) (stays_true (pending sig) one.0)
    ∙ signal_loop-keeps n (sig + 1) pending next

by_end : (b ret ends : Bool) → b ≡ true → ends ≡ true → (if b then ret || ends else ret) ≡ true
by_end b ret ends h e = ground arith

of_end :
    (b ret ends : Bool)
    → (if b then ret || ends else ret) ≡ true
    → (ret ≡ true) ⊎ ((b ≡ true) × (ends ≡ true))
of_end b true ends h = inl refl
of_end true false ends h = inr (refl, h)
of_end false false ends h = inl h

signal_loop-finds :
    (n sig s : ℕ) (pending : SignalSet) (ret : Bool) (w : World)
    → sig ≤ s
    → s < sig + n
    → pending s ≡ true
    → is_exit s ≡ true
    → (signal_loop n sig pending ret w).0 ≡ true
unfolding signal_loop
signal_loop-finds zero sig s pending ret w l u h e = absurd (omega arith)
signal_loop-finds (suc n) sig s pending ret w l u h e =
    let one = handle_one sig w in
    let next = if pending sig then one.1 else w in
    elim (Bool-cases (s == sig)) [
      | inl same ↦
          (let k : s ≡ sig = ground arith in
            let here : pending sig ≡ true = ap pending (sym k) ∙ h in
            let ends : one.0 ≡ true = handle_one-is_exit sig w ∙ (ap is_exit (sym k) ∙ e) in
            let stays : (if pending sig then ret || one.0 else ret) ≡ true =
              by_end (pending sig) ret one.0 here ends in
            ap (λ r. (signal_loop n (sig + 1) pending r next).0) stays
            ∙ signal_loop-keeps n (sig + 1) pending next)
      | inr other ↦
          signal_loop-finds n (sig + 1) s pending (if pending sig then ret || one.0 else ret) next
            (ground arith) (omega arith) h e
    ]

signal_loop_sound :
    (n sig : ℕ) (pending : SignalSet) (ret : Bool) (w : World)
    → (signal_loop n sig pending ret w).0 ≡ true
    → (ret ≡ true) ⊎ ((s : ℕ) × (pending s ≡ true) × (is_exit s ≡ true))
unfolding signal_loop
signal_loop_sound zero sig pending ret w h = inl h
signal_loop_sound (suc n) sig pending ret w h =
    let one = handle_one sig w in
    let next = if pending sig then one.1 else w in
    elim (signal_loop_sound n (sig + 1) pending (if pending sig then ret || one.0 else ret) next
      h) [
        | inl now ↦ elim (of_end (pending sig) ret one.0 now) [
          | inl before ↦ inl before
          | inr here ↦ inr (sig, here.0, sym (handle_one-is_exit sig w) ∙ here.1)
        ]
        | inr later ↦ inr later
      ]

or_false : (b : Bool) → (b || false) ≡ b
or_false true = refl
or_false false = refl

false_ne : false ≢ true
false_ne e = ground arith

exit_bounds : (s : ℕ) → is_exit s ≡ true → (1 ≤ s) × (s < 65)
exit_bounds s h = ground arith

-- However many signals have come since the pipe was empty, signal_handle tells main_loop to end
-- exactly if one of them was SIGINT, SIGQUIT or SIGTERM.
pub signal_handle-deliver :
    (sigs : List ℕ) (w : World)
    → ((signal_handle (deliver sigs none) w).0 ≡ true)
      ↔ ((s : ℕ) × (contains s sigs ≡ true) × (is_exit s ≡ true))
unfolding signal_handle
signal_handle-deliver sigs w =
    let pending = read_set (deliver sigs none) in
    let same = λ (s : ℕ). read_set-deliver sigs none s ∙ or_false (contains s sigs) in
    (
      λ h. elim (signal_loop_sound 64 1 pending false w h) [
        | inl never ↦ absurd (false_ne never)
        | inr (s, found, exits) ↦ (s, sym (same s) ∙ found, exits)
      ],
      λ k.
          (let (s, found, exits) = k in
            signal_loop-finds 64 1 s pending false w (exit_bounds s exits).0 (exit_bounds s exits).1
              (same s ∙ found) exits),
    )
