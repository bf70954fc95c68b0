-- ===== src/Daemon/Send/Listeners.antt =====
-- What the receivers of SEND_TO_LISTENER get.
use jk16legacy.Prelude.{
  ℕ, ◌+◌, ◌≡◌, refl, ap, ◌∙◌, Bool, true, false, ◌&&◌, Option, none, some, List, [], ◌∷◌, ◌++◌,
  append-nil, append_assoc, arith, if◌then◌else◌, Text,
}
use jk16legacy.World.{Event, wrote, World, emit, log_event, received, received-append}
use jk16legacy.ClientList.{Client, client_find}
use jk16legacy.ClientList.Laws.{IsFresh, IsDistinct, client_find_fresh}
use jk16legacy.Daemon.Send.{send_response, is_other, listener_loop, send_to_listeners}
use jk16legacy.Daemon.Send.Response.{send_response_whole}
use Prim.Native.String.{String}

-- What SEND_TO_LISTENER writes: the message and a line feed for each client that listens, and is
-- not the excepted descriptor.
pub deliveries : (Client → Bool) → Option ℕ → Text → List Client → List Event
deliveries is_listener except msg [] = []
deliveries is_listener except msg (c ∷ cs) =
    (if is_listener c && is_other except c.fd
      then wrote c.fd msg ∷ wrote c.fd (b'\n' ∷ []) ∷ []
      else [])
    ++ deliveries is_listener except msg cs

-- One client of the loop, for a known test.
listener_step :
    (is_listener : Client → Bool) (except : Option ℕ) (msg : Text) (fd : ℕ) (cs : List Client)
    (cnt : ℕ) (w : World) (hit : Bool)
    → w.writes ≡ []
    → ((n : ℕ) (v : World)
        → v.writes ≡ []
        → (listener_loop is_listener except msg cs n v).1
          ≡ record v { trace = v.trace ++ deliveries is_listener except msg cs })
    → (listener_loop is_listener except msg cs
        (if hit then cnt + 1 else cnt)
        (if hit then (send_response fd msg w).1 else w)).1
      ≡ record w {
        trace =
            w.trace
            ++ ((if hit then wrote fd msg ∷ wrote fd (b'\n' ∷ []) ∷ [] else [])
                ++ deliveries is_listener except msg cs);
      }
listener_step is_listener except msg fd cs cnt w true e ih = rw (send_response_whole fd msg w e) (
    ih (cnt + 1) (record w { trace = w.trace ++ (wrote fd msg ∷ wrote fd (b'\n' ∷ []) ∷ []) }) e
    ∙ ap (λ t. record w { trace = t })
        (append_assoc w.trace (wrote fd msg ∷ wrote fd (b'\n' ∷ []) ∷ [])
          (deliveries is_listener except msg cs)))
listener_step is_listener except msg fd cs cnt w false e ih = ih cnt w e

pub listener_loop-deliveries :
    (is_listener : Client → Bool) (except : Option ℕ) (msg : Text) (cs : List Client) (cnt : ℕ)
    (w : World)
    → w.writes ≡ []
    → (listener_loop is_listener except msg cs cnt w).1
      ≡ record w { trace = w.trace ++ deliveries is_listener except msg cs }
unfolding listener_loop deliveries
listener_loop-deliveries is_listener except msg [] cnt w e = rw (append-nil w.trace)
listener_loop-deliveries is_listener except msg (c ∷ cs) cnt w e =
    listener_step is_listener except msg c.fd cs cnt w (is_listener c && is_other except c.fd) e
      (listener_loop-deliveries is_listener except msg cs)

received-deliveries_fresh :
    (is_listener : Client → Bool) (except : Option ℕ) (msg : Text) (cs : List Client) (j : ℕ)
    → IsFresh j cs
    → received j (deliveries is_listener except msg cs) ≡ []
unfolding deliveries received
received-deliveries_fresh is_listener except msg [] j h = refl
received-deliveries_fresh is_listener except msg (c ∷ cs) j h =
    ground (arith, received-deliveries_fresh is_listener except msg cs j h.1)

abbrev pub is_addressee : (Client → Bool) → Option ℕ → Option Client → Bool
is_addressee is_listener except none = false
is_addressee is_listener except (some c) = is_listener c && is_other except c.fd

-- Among clients with different descriptors, each one that listens and is not excepted receives
-- the message and a line feed once; every other descriptor receives nothing.
received-deliveries :
    (is_listener : Client → Bool) (except : Option ℕ) (msg : Text) (cs : List Client) (j : ℕ)
    → IsDistinct cs
    → received j (deliveries is_listener except msg cs)
      ≡ (if is_addressee is_listener except (client_find cs j) then msg ++ (b'\n' ∷ []) else [])
unfolding deliveries received client_find
received-deliveries is_listener except msg [] j h = refl
received-deliveries is_listener except msg (c ∷ cs) j h = ground (
  arith,
  received-deliveries is_listener except msg cs j h.1,
  received-deliveries_fresh is_listener except msg cs j,
  append_assoc msg (b'\n' ∷ []) [],
  append-nil (msg ++ (b'\n' ∷ [])),
  client_find_fresh cs j,
)

-- Where the kernel takes every write whole and the clients have different descriptors,
-- SEND_TO_LISTENER gives the message and a line feed to each client that has the listener flag and
-- is not the excepted descriptor, and nothing to any other descriptor.
pub send_to_listeners_delivers :
    (is_listener : Client → Bool) (name : String) (except : Option ℕ) (msg : Text)
    (cs : List Client) (w : World) (j : ℕ)
    → w.writes ≡ []
    → IsDistinct cs
    → received j (send_to_listeners is_listener name except msg cs w).trace
      ≡ received j w.trace
        ++ (if is_addressee is_listener except (client_find cs j) then msg ++ (b'\n' ∷ []) else [])
unfolding send_to_listeners log_event emit received
send_to_listeners_delivers is_listener name except msg cs w j e d =
    rw (listener_loop-deliveries is_listener except msg cs 0 w e) (
      received-append j (w.trace ++ deliveries is_listener except msg cs) (_ ∷ [])
      ∙ append-nil _
      ∙ received-append j w.trace _
      ∙ ap (◌++◌ (received j w.trace)) (received-deliveries is_listener except msg cs j d))
