-- ===== src/Daemon/Send/Response.antt =====
-- What the receiver of send_response gets.
use jk16legacy.Prelude.{
  ℕ, zero, suc, ◌+◌, ◌-◌, ◌≤◌, min, ◌≡◌, refl, sym, ap, ◌∙◌, ◌≢◌, inl, inr, List, [], ◌∷◌, ◌++◌,
  append-nil, append_assoc, arith, leb, ◌==◌, if◌then◌else◌, leb→le, ==_refl, Bool-cases, pos,
  length, take, drop, length-drop, take-all, take-add, drop-add, Text,
}
use jk16legacy.World.{
  Event, wrote, WriteOutcome, taken, interrupted, failed, World, received, received-append,
}
use jk16legacy.Daemon.Send.{Written, write_loop, response_loop, finish_response, send_response}

-- No coming write returns an error other than EINTR.
abbrev pub HasNoFailure : List WriteOutcome → Type 0
HasNoFailure [] = Unit {0}
HasNoFailure (taken n ∷ ws) = HasNoFailure ws
HasNoFailure (interrupted ∷ ws) = HasNoFailure ws
HasNoFailure (failed ∷ ws) = ⊥

take-nil : (n : ℕ) → take {A = ℕ} n [] ≡ []
take-nil zero = refl
take-nil (suc n) = refl

write_loop-byte :
    (ws : List WriteOutcome) (fd b : ℕ) (out : List Event)
    → HasNoFailure ws
    → (n : ℕ) × (rest : List WriteOutcome) × (write_loop ws fd b [] out
        ≡ record { ret = pos (suc n); rest = rest; out = out ++ (wrote fd (b ∷ []) ∷ []) })
unfolding write_loop
write_loop-byte [] fd b out h = (0, [], refl)
write_loop-byte (taken zero ∷ ws) fd b out h = write_loop-byte ws fd b out h
write_loop-byte (taken (suc n) ∷ ws) fd b out h = (min n 0, ws, rw (take-nil n))
write_loop-byte (interrupted ∷ ws) fd b out h = write_loop-byte ws fd b out h
write_loop-byte (failed ∷ ws) fd b out h = absurd h

pub received-wrote :
    (fd : ℕ) (bs : List ℕ) (out : List Event)
    → received fd (out ++ (wrote fd bs ∷ [])) ≡ received fd out ++ bs
unfolding received
received-wrote fd bs out = rw (received-append fd out (wrote fd bs ∷ []), ==_refl fd, append-nil bs)

received-wrote_ne :
    (fd j : ℕ) (bs : List ℕ) (out : List Event)
    → j ≢ fd
    → received j (out ++ (wrote fd bs ∷ [])) ≡ received j out
unfolding received
received-wrote_ne fd j bs out h =
    ground (arith, received-append j out (wrote fd bs ∷ []), append-nil (received j out))

-- What the first loop of send_response does where no write fails: it returns 0, and the
-- descriptor has the response from the offset up to `k`, which is its end or one byte before.
record Delivered (fd : ℕ) (response : Text) (offset : ℕ) (out : List Event) (r : Written)
    : Type 0 where
  pub upto : ℕ
  pub within : upto ≤ length response
  pub nearly_all : length response ≤ upto + 1
  pub beyond : offset ≤ upto
  pub ret_zero : r.ret ≡ pos 0
  pub rest_fine : HasNoFailure r.rest
  pub bytes : received fd r.out ≡ received fd out ++ take (upto - offset) (drop offset response)
  pub others : (j : ℕ) → j ≢ fd → received j r.out ≡ received j out

-- The loop after a write that took some bytes.
Delivered-step :
    (n fd : ℕ) (response : Text) (offset : ℕ) (out : List Event) (r : Written)
    → offset + n ≤ length response
    → Delivered fd response (offset + n) (out ++ (wrote fd (take n (drop offset response)) ∷ [])) r
    → Delivered fd response offset out r
Delivered-step n fd response offset out r o d = record {
  upto = d.upto;
  within = d.within;
  nearly_all = d.nearly_all;
  beyond = omega (arith, d.beyond);
  ret_zero = d.ret_zero;
  rest_fine = d.rest_fine;
  bytes =
      d.bytes
      ∙ ap (λ b. b ++ take (d.upto - (offset + n)) (drop (offset + n) response))
          (received-wrote fd (take n (drop offset response)) out)
      ∙ append_assoc (received fd out) (take n (drop offset response)) _
      ∙ ap (◌++◌ (received fd out)) (
          rw (drop-add offset n (offset + n) response refl)
            (take-add n _ (d.upto - offset) (drop offset response) (omega (arith, d.beyond))));
  others = λ j ne. d.others j ne ∙ received-wrote_ne fd j (take n (drop offset response)) out ne;
}

Delivered-stop :
    (ws : List WriteOutcome) (n fd : ℕ) (response : Text) (offset : ℕ) (out : List Event)
    → HasNoFailure ws
    → offset + n ≤ length response
    → length response ≤ offset + n + 1
    → Delivered fd response offset out (record {
      ret = pos 0;
      rest = ws;
      out = out ++ (wrote fd (take n (drop offset response)) ∷ []);
    })
Delivered-stop ws n fd response offset out h o e = record {
  upto = offset + n;
  within = o;
  nearly_all = e;
  beyond = omega arith;
  ret_zero = refl;
  rest_fine = h;
  bytes =
      received-wrote fd (take n (drop offset response)) out
      ∙ ap (λ k. received fd out ++ take k (drop offset response)) (omega arith);
  others = λ j ne. received-wrote_ne fd j (take n (drop offset response)) out ne;
}

response_loop-Delivered :
    (ws : List WriteOutcome) (fd : ℕ) (response : Text) (offset : ℕ) (out : List Event)
    → HasNoFailure ws
    → offset ≤ length response
    → Delivered fd response offset out (response_loop ws fd response offset out)
unfolding response_loop
response_loop-Delivered [] fd response offset out h o = record {
  upto = length response;
  within = omega arith;
  nearly_all = omega arith;
  beyond = o;
  ret_zero = refl;
  rest_fine = tt;
  bytes =
      received-wrote fd (drop offset response) out
      ∙ ap (◌++◌ (received fd out)) (
          sym (
            take-all (length response - offset) (drop offset response)
              (omega (arith, length-drop offset response))));
  others = λ j ne. received-wrote_ne fd j (drop offset response) out ne;
}
response_loop-Delivered (taken n ∷ ws) fd response offset out h o =
    let k = min n (length response - offset) in
    elim (Bool-cases (leb (length response) (offset + k + 1))) [
      | inl e ↦ rw e (Delivered-stop ws k fd response offset out h (omega arith) (leb→le _ _ e))
      | inr e ↦ rw e (
          Delivered-step k fd response offset out _ (omega arith)
            (response_loop-Delivered ws fd response (offset + k) _ h (omega arith)))
    ]
response_loop-Delivered (interrupted ∷ ws) fd response offset out h o =
    elim (Bool-cases (leb (length response) (offset + 1))) [
      | inl e ↦ rw e (record {
        upto = offset;
        within = o;
        nearly_all = leb→le _ _ e;
        beyond = omega arith;
        ret_zero = refl;
        rest_fine = h;
        bytes = sym (
            ap (λ k. received fd out ++ take k (drop offset response))
              (let z : offset - offset ≡ 0 = omega arith in z)
            ∙ append-nil (received fd out));
        others = λ j ne. refl;
      })
      | inr e ↦ rw e (response_loop-Delivered ws fd response offset out h o)
    ]
response_loop-Delivered (failed ∷ ws) fd response offset out h o = absurd h

finish_response_lem :
    (fd : ℕ) (r : Written)
    → r.ret ≡ pos 0
    → HasNoFailure r.rest
    → (rest : List WriteOutcome) × (finish_response fd r
        ≡ record { ret = pos 0; rest = rest; out = r.out ++ (wrote fd (b'\n' ∷ []) ∷ []) })
unfolding finish_response
finish_response_lem fd r e h =
    let (n, rest, w) = write_loop-byte r.rest fd b'\n' r.out h in (rest, rw (e, w))

-- Where no write fails, send_response returns 0, and the descriptor has received the response, or
-- all of it but its last byte, and a line feed. No other descriptor has received anything.
pub send_response_delivers :
    (fd : ℕ) (response : Text) (w : World)
    → HasNoFailure w.writes
    → let (ret, w') = send_response fd response w in
      (ret ≡ pos 0)
      × ((k : ℕ) × (k ≤ length response)
          × (length response ≤ k + 1)
          × (received fd w'.trace ≡ received fd w.trace ++ (take k response ++ (b'\n' ∷ []))))
      × ((j : ℕ) → j ≢ fd → received j w'.trace ≡ received j w.trace)
unfolding send_response
send_response_delivers fd response w h =
    let r = response_loop w.writes fd response 0 w.trace in
    let d = response_loop-Delivered w.writes fd response 0 w.trace h (omega arith) in
    let (rest, e) = finish_response_lem fd r d.ret_zero d.rest_fine in
    rw e (
      refl,
      (
        d.upto,
        d.within,
        d.nearly_all,
        received-wrote fd (b'\n' ∷ []) r.out
            ∙ ap (λ b. b ++ (b'\n' ∷ [])) d.bytes
            ∙ append_assoc (received fd w.trace) _ _
            ∙ ap (λ k. received fd w.trace ++ (take k response ++ (b'\n' ∷ []))) (omega arith),
      ),
      λ j ne. received-wrote_ne fd j (b'\n' ∷ []) r.out ne ∙ d.others j ne,
    )

-- The kernel takes every write whole.
pub send_response_whole :
    (fd : ℕ) (response : Text) (w : World)
    → w.writes ≡ []
    → send_response fd response w
      ≡ (pos 0, record w { trace = w.trace ++ (wrote fd response ∷ wrote fd (b'\n' ∷ []) ∷ []) })
unfolding send_response response_loop finish_response write_loop
send_response_whole fd response w e =
    ground (arith, append_assoc w.trace (wrote fd response ∷ []) (wrote fd (b'\n' ∷ []) ∷ []))

-- A line to one descriptor, followed by an event that writes nothing.
pub received_line :
    (fd j : ℕ) (text : Text) (out : List Event) (e : Event)
    → received j (e ∷ []) ≡ []
    → received j ((out ++ (wrote fd text ∷ wrote fd (b'\n' ∷ []) ∷ [])) ++ (e ∷ []))
      ≡ received j out ++ (if fd == j then text ++ (b'\n' ∷ []) else [])
unfolding received
received_line fd j text out e h = ground (
  arith,
  received-append j (out ++ (wrote fd text ∷ wrote fd (b'\n' ∷ []) ∷ [])) (e ∷ []),
  received-append j out (wrote fd text ∷ wrote fd (b'\n' ∷ []) ∷ []),
  append-nil (received j out ++ (if fd == j then text ++ (b'\n' ∷ []) else [])),
  append-nil (received j out),
)
