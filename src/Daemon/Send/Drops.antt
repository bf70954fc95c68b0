-- ===== src/Daemon/Send/Drops.antt =====
-- A first write of send_response that takes all but the last byte.
use jk16legacy.Prelude.{
  ℕ, ◌+◌, ◌-◌, min, ◌≡◌, refl, ap, ◌∙◌, true, List, [], ◌∷◌, ◌++◌, append_assoc, arith, leb, le→leb,
  pos, length, length-append, take-length, Text,
}
use jk16legacy.World.{Event, wrote, taken, World, received}
use jk16legacy.Daemon.Send.{write_loop, response_loop, finish_response, send_response}
use jk16legacy.Daemon.Send.Response.{received-wrote}

short_write :
    (fd b : ℕ) (xs : Text) (out : List Event)
    → response_loop (taken (length xs) ∷ []) fd (xs ++ (b ∷ [])) 0 out
      ≡ record { ret = pos 0; rest = []; out = out ++ (wrote fd xs ∷ []) }
unfolding response_loop
short_write fd b xs out =
    let n : length (xs ++ (b ∷ [])) ≡ length xs + 1 = length-append xs (b ∷ []) in
    let k : min (length xs) (length (xs ++ (b ∷ [])) - 0) ≡ length xs = omega arith in
    let short : leb (length (xs ++ (b ∷ []))) (0 + length xs + 1) ≡ true =
      le→leb _ _ (omega arith) in
    rw (k, short, take-length xs (b ∷ []))

-- A first write that takes all but the last byte ends the loop: whatever the response, its last
-- byte is never written, and send_response returns 0 all the same.
send_response_drops_last :
    (fd b : ℕ) (xs : Text) (w : World)
    → w.writes ≡ taken (length xs) ∷ []
    → let (ret, w') = send_response fd (xs ++ (b ∷ [])) w in
      (ret ≡ pos 0) × (received fd w'.trace ≡ received fd w.trace ++ (xs ++ (b'\n' ∷ [])))
unfolding send_response finish_response write_loop received
send_response_drops_last fd b xs w e =
    rw (e, short_write fd b xs w.trace)
      (
        refl,
        received-wrote fd (b'\n' ∷ []) (w.trace ++ (wrote fd xs ∷ []))
            ∙ ap (λ r. r ++ (b'\n' ∷ [])) (received-wrote fd xs w.trace)
            ∙ append_assoc (received fd w.trace) xs (b'\n' ∷ []),
      )
