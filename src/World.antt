-- ===== src/World.antt =====
-- What stands outside the program: the outcomes of the system calls and allocations that it makes,
-- and the record of what it does.
use jk16legacy.Prelude.{
  ℕ, ◌≡◌, refl, sym, ap, ◌∙◌, Bool, true, List, [], ◌∷◌, ◌++◌, append_assoc, ◌==◌, if◌then◌else◌,
  Text,
}
use Prim.Native.String.{String}
use mathlib.Core.Path.{subst}

-- enum log_prio_enum
pub data Prio : Type 0 where
  error warning notice info debug : Prio

-- An argument of a format: %s or %d.
pub data LogArg : Type 0 where
  str : Text → LogArg
  num : ℕ → LogArg

pub data Event : Type 0 where
  -- bytes that the kernel took from a write to the descriptor
  wrote : ℕ → List ℕ → Event
  closed : ℕ → Event
  -- a call of log_printf, with its format and arguments
  logged : Prio → String → List LogArg → Event

-- What a call of write returns: a count (of at most what was asked), -1 with EINTR, or -1 with
-- another error.
pub data WriteOutcome : Type 0 where
  taken : ℕ → WriteOutcome
  interrupted failed : WriteOutcome

-- The outcomes of the coming calls of write and of malloc, strdup and asprintf, in order. Where a
-- list has ended, write takes all it is given and the allocations succeed. `trace` is oldest first.
pub record World : Type 0 where
  pub writes : List WriteOutcome
  pub allocs : List Bool
  pub trace : List Event

unfoldable pub emit : Event → World → World
emit e w = record w { trace = w.trace ++ (e ∷ []) }

unfoldable pub log_event : Prio → String → List LogArg → World → World
unfolding emit
log_event p f args w = emit (logged p f args) w

pub head_alloc : List Bool → Bool
head_alloc [] = true
head_alloc (b ∷ bs) = b

tail_allocs : List Bool → List Bool
tail_allocs [] = []
tail_allocs (b ∷ bs) = bs

-- Whether the next allocation succeeds, and the world after it.
unfoldable pub alloc : World → Bool × World
unfolding head_alloc tail_allocs
alloc w = (head_alloc w.allocs, record w { allocs = tail_allocs w.allocs })

-- Where no outcome of an allocation is listed, the world may be taken with the empty list.
pub no_allocs_elim :
    (P : World → Type 0) (w : World) → w.allocs ≡ [] → P (record w { allocs = [] }) → P w
no_allocs_elim P w e = subst (λ a. P (record w { allocs = a })) (sym e)

-- Where no outcome of a write is listed, likewise.
pub no_writes_elim :
    (P : World → Type 0) (w : World) → w.writes ≡ [] → P (record w { writes = [] }) → P w
no_writes_elim P w e = subst (λ a. P (record w { writes = a })) (sym e)

-- The bytes that a descriptor has received.
unfoldable pub received : ℕ → List Event → List ℕ
received fd [] = []
received fd (wrote d bs ∷ es) = (if d == fd then bs else []) ++ received fd es
received fd (closed d ∷ es) = received fd es
received fd (logged p f args ∷ es) = received fd es

pub received-append :
    (fd : ℕ) (es fs : List Event) → received fd (es ++ fs) ≡ received fd es ++ received fd fs
unfolding received
received-append fd [] fs = refl
received-append fd (wrote d bs ∷ es) fs =
    ap (◌++◌ (if d == fd then bs else [])) (received-append fd es fs)
    ∙ sym (append_assoc (if d == fd then bs else []) (received fd es) (received fd fs))
received-append fd (closed d ∷ es) fs = received-append fd es fs
received-append fd (logged p f args ∷ es) fs = received-append fd es fs
