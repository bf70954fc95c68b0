-- ===== src/Daemon/MainLoop/Clients.antt =====
-- The list of clients under the calls of main_loop, seen as descriptors with buffers.
use jk16legacy.Prelude.{
  ℕ, sym, ◌∙◌, ◌≢◌, inl, inr, List, [], ◌∷◌, ◌++◌, map, ◌==◌, ==_iff, Bool-cases, All, All-append,
}
use jk16legacy.World.{World}
use jk16legacy.Datatypes.{ReadBuffer}
use jk16legacy.ClientList.{Client, client_remove, client_update}
use jk16legacy.ClientList.Laws.{IsFresh, IsDistinct}
use jk16legacy.Daemon.Commands.Laws.{identity}
use jk16legacy.Daemon.MainLoop.{set_buffer}

abbrev pub Ident : Type 0
Ident = ℕ × ReadBuffer

-- The descriptors differ.
abbrev pub IsDistinctIds : List Ident → Type 0
IsDistinctIds [] = Unit {0}
IsDistinctIds (i ∷ is) = All (λ j. j.0 ≢ i.0) is × IsDistinctIds is

IsFresh-ids : (fd : ℕ) (cs : List Client) → All (λ j. j.0 ≢ fd) (map identity cs) → IsFresh fd cs
IsFresh-ids fd [] h = tt
IsFresh-ids fd (c ∷ cs) h = (h.0, IsFresh-ids fd cs h.1)

IsDistinct-ids : (cs : List Client) → IsDistinctIds (map identity cs) → IsDistinct cs
IsDistinct-ids [] h = tt
IsDistinct-ids (c ∷ cs) h = (IsFresh-ids c.fd cs h.0, IsDistinct-ids cs h.1)

pub All-mono :
    (P Q : Ident → Type 0) (is : List Ident) → ((i : Ident) → P i → Q i) → All P is → All Q is
All-mono P Q [] f h = tt
All-mono P Q (i ∷ is) f h = (f i h.0, All-mono P Q is f h.1)

pub All-both :
    (P Q R : Ident → Type 0) (is : List Ident)
    → ((i : Ident) → P i → Q i → R i)
    → All P is
    → All Q is
    → All R is
All-both P Q R [] f h k = tt
All-both P Q R (i ∷ is) f h k = (f i h.0 k.0, All-both P Q R is f h.1 k.1)

-- A client has been given a buffer.
pub All-set_buffer :
    (P : Ident → Type 0) (b : ReadBuffer) (fd : ℕ) (cs : List Client)
    → ((d : ℕ) (old : ReadBuffer) → P (d, old) → P (d, b))
    → All P (map identity cs)
    → All P (map identity (client_update (set_buffer b) cs fd))
unfolding client_update
All-set_buffer P b fd [] f h = tt
All-set_buffer P b fd (c ∷ cs) f h = elim (Bool-cases (c.fd == fd)) [
  | inl e ↦ rw e (f c.fd c.buffer h.0, h.1)
  | inr e ↦ rw e (h.0, All-set_buffer P b fd cs f h.1)
]

pub IsDistinctIds-set_buffer :
    (b : ReadBuffer) (fd : ℕ) (cs : List Client)
    → IsDistinctIds (map identity cs)
    → IsDistinctIds (map identity (client_update (set_buffer b) cs fd))
unfolding client_update
IsDistinctIds-set_buffer b fd [] h = tt
IsDistinctIds-set_buffer b fd (c ∷ cs) h = elim (Bool-cases (c.fd == fd)) [
  | inl e ↦ rw e h
  | inr e ↦ rw e (
    All-set_buffer (λ j. j.0 ≢ c.fd) b fd cs (λ d old n. n) h.0,
    IsDistinctIds-set_buffer b fd cs h.1,
  )
]

-- A client has been removed.
pub All-remove :
    (P : Ident → Type 0) (fd : ℕ) (cs : List Client) (w : World)
    → All P (map identity cs)
    → All P (map identity (client_remove cs fd w).0)
unfolding client_remove
All-remove P fd [] w h = tt
All-remove P fd (c ∷ cs) w h = elim (Bool-cases (c.fd == fd)) [
  | inl e ↦ rw e h.1
  | inr e ↦ rw e (h.0, All-remove P fd cs w h.1)
]

pub IsDistinctIds-remove :
    (fd : ℕ) (cs : List Client) (w : World)
    → IsDistinctIds (map identity cs)
    → IsDistinctIds (map identity (client_remove cs fd w).0)
      × All (λ j. j.0 ≢ fd) (map identity (client_remove cs fd w).0)
unfolding client_remove
IsDistinctIds-remove fd [] w h = (tt, tt)
IsDistinctIds-remove fd (c ∷ cs) w h =
    let (d, gone) = IsDistinctIds-remove fd cs w h.1 in
    elim (Bool-cases (c.fd == fd)) [
      | inl e ↦ rw e (
        h.1,
        All-mono (λ j. j.0 ≢ c.fd) (λ j. j.0 ≢ fd) (map identity cs)
            (λ j n. λ k. n (k ∙ sym ((==_iff c.fd fd).0 e))) h.0,
      )
      | inr e ↦ rw e (
        (All-remove (λ j. j.0 ≢ c.fd) fd cs w h.0, d),
        ((λ k. cc (sym e ∙ (==_iff c.fd fd).1 k)), gone),
      )
    ]

-- A client has been put at the end.
pub IsDistinctIds-append :
    (is : List Ident) (i : Ident)
    → IsDistinctIds is
    → All (λ j. j.0 ≢ i.0) is
    → IsDistinctIds (is ++ (i ∷ []))
IsDistinctIds-append [] i h n = (tt, tt)
IsDistinctIds-append (j ∷ is) i h n = (
  All-append (λ x. x.0 ≢ j.0) is (i ∷ []) h.0 ((λ e. n.0 (sym e)), tt),
  IsDistinctIds-append is i h.1 n.1,
)
