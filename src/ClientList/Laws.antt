-- ===== src/ClientList/Laws.antt =====
-- The client list as a map from descriptors to clients.
use jk16legacy.Prelude.{
  ℕ, ◌≡◌, refl, ap, ◌≢◌, ◌⊎◌, Option, none, some, List, [], ◌∷◌, ◌++◌, map, append-nil,
  append_assoc, arith, ◌==◌, if◌then◌else◌, pos, negsuc, All,
}
use jk16legacy.World.{Event, closed, World, emit}
use jk16legacy.ClientList.{
  Client, new_client, client_link, client_add, client_remove, client_find, client_update,
  client_clear,
}
use mathlib.Core.Option

-- No client of the list has the descriptor.
abbrev pub IsFresh : ℕ → List Client → Type 0
IsFresh fd = All λ c. c.fd ≢ fd

-- The clients have different descriptors.
abbrev pub IsDistinct : List Client → Type 0
IsDistinct [] = Unit {0}
IsDistinct (c ∷ cs) = IsFresh c.fd cs × IsDistinct cs

client_link-append : (cs : List Client) (c : Client) → client_link cs c ≡ cs ++ (c ∷ [])
unfolding client_link
client_link-append [] c = refl
client_link-append (d ∷ cs) c = ap (λ r. d ∷ r) (client_link-append cs c)

-- client_add either returns 0 and has put the new client, with every listener flag off and an
-- empty buffer, at the end of the list, or returns -2 and has left the list as it was.
pub client_add_cases :
    (cs : List Client) (fd : ℕ) (w : World)
    → let (ret, cs', w') = client_add cs fd w in
      ((ret ≡ pos 0) × (cs' ≡ cs ++ (new_client fd ∷ []))) ⊎ ((ret ≡ negsuc 1) × (cs' ≡ cs))
unfolding client_add
client_add_cases cs fd w = ground (arith, client_link-append cs (new_client fd))

client_find-append :
    (cs : List Client) (c : Client) (fd : ℕ)
    → client_find (cs ++ (c ∷ [])) fd ≡ (
        if c.fd == fd
        then (elim (client_find cs fd) [ none ↦ some c | some d ↦ some d ])
        else client_find cs fd)
unfolding client_find
client_find-append [] c fd = ground arith
client_find-append (d ∷ cs) c fd = ground (arith, client_find-append cs c fd)

pub client_find_fresh : (cs : List Client) (fd : ℕ) → IsFresh fd cs → client_find cs fd ≡ none
unfolding client_find
client_find_fresh [] fd h = refl
client_find_fresh (c ∷ cs) fd h = ground (arith, client_find_fresh cs fd h.1)

pub client_find-fd :
    (cs : List Client) (fd : ℕ) (c : Client) → client_find cs fd ≡ some c → c.fd ≡ fd
unfolding client_find
client_find-fd [] fd c h = ground arith
client_find-fd (d ∷ cs) fd c h = ground (arith, client_find-fd cs fd c)

IsFresh-remove :
    (cs : List Client) (fd x : ℕ) (w : World) → IsFresh x cs → IsFresh x (client_remove cs fd w).0
unfolding client_remove
IsFresh-remove [] fd x w h = tt
IsFresh-remove (c ∷ cs) fd x w h = ground (arith, IsFresh-remove cs fd x w h.1)

IsDistinct-remove :
    (cs : List Client) (fd : ℕ) (w : World) → IsDistinct cs → IsDistinct (client_remove cs fd w).0
unfolding client_remove
IsDistinct-remove [] fd w h = tt
IsDistinct-remove (c ∷ cs) fd w h =
    ground (arith, IsDistinct-remove cs fd w h.1, IsFresh-remove cs fd c.fd w h.0)

-- Where the descriptors are distinct, client_remove takes exactly the client of the descriptor off
-- the list: a search for it finds nothing, and a search for any other descriptor finds what it
-- found before.
client_find-remove :
    (cs : List Client) (fd j : ℕ) (w : World)
    → IsDistinct cs
    → client_find (client_remove cs fd w).0 j ≡ (if fd == j then none else client_find cs j)
unfolding client_remove client_find
client_find-remove [] fd j w h = ground arith
client_find-remove (c ∷ cs) fd j w h =
    ground (arith, client_find-remove cs fd j w h.1, client_find_fresh cs j)

closings : Option Client → List Event
closings none = []
closings (some c) = closed c.fd ∷ []

-- client_remove closes the descriptor if a client has it, and else does nothing to the world.
trace-client_remove :
    (cs : List Client) (fd : ℕ) (w : World)
    → (client_remove cs fd w).1 ≡ record w { trace = w.trace ++ closings (client_find cs fd) }
unfolding client_remove client_find closings
trace-client_remove [] fd w = rw (append-nil w.trace)
trace-client_remove (c ∷ cs) fd w = ground (arith, trace-client_remove cs fd w)

pub client_find-update :
    (f : Client → Client) (cs : List Client) (fd j : ℕ)
    → ((c : Client) → (f c).fd ≡ c.fd)
    → client_find (client_update f cs fd) j
      ≡ (if fd == j then Option.map f (client_find cs j) else client_find cs j)
unfolding client_find client_update
client_find-update f [] fd j h = ground arith
client_find-update f (c ∷ cs) fd j h = ground (arith, client_find-update f cs fd j h, h c)

-- client_clear empties the list and closes the descriptor of every client, in order.
pub client_clear_lem :
    (cs : List Client) (w : World)
    → client_clear cs w ≡ ([], record w { trace = w.trace ++ map (λ c. closed c.fd) cs })
unfolding client_clear
client_clear_lem [] w = rw (append-nil w.trace)
client_clear_lem (c ∷ cs) w =
    rw (client_clear_lem cs (emit (closed c.fd) w)) (unfold emit in rw append_assoc)
