-- ===== src/ClientList.antt =====
-- powersensordaemon/client_list.c and .h: the connected clients. As in the queue, `first` is
-- always the address of a variable, so it is never null.
pub mod Laws
use jk16legacy.Prelude.{
  ℕ, Bool, false, Option, none, some, List, [], ◌∷◌, ◌==◌, if◌then◌else◌, ℤ, pos, negsuc,
}
use jk16legacy.World.{closed, World, emit, alloc}
use jk16legacy.Datatypes.{ReadBuffer, empty_buffer}

-- struct client_struct
pub record Client : Type 0 where
  pub fd : ℕ
  pub request_listener : Bool
  pub error_listener : Bool
  pub sensor_listener : Bool
  pub movement_listener : Bool
  pub button_listener : Bool
  pub buffer : ReadBuffer

unfoldable client_get_last : List Client → Option Client
client_get_last [] = none
client_get_last (c ∷ []) = some c
client_get_last (c ∷ d ∷ cs) = client_get_last (d ∷ cs)

abbrev pub new_client : ℕ → Client
new_client fd = record {
  fd = fd;
  request_listener = false;
  error_listener = false;
  sensor_listener = false;
  movement_listener = false;
  button_listener = false;
  buffer = empty_buffer;
}

-- The end of client_add: hang the new node behind the last one.
pub client_link : List Client → Client → List Client
client_link [] c = c ∷ []
client_link (d ∷ cs) c = d ∷ client_link cs c

unfoldable pub client_add : List Client → ℕ → World → ℤ × List Client × World
unfolding alloc client_link
client_add first fd w =
    let (got, w') = alloc w in
    if got then (pos 0, client_link first (new_client fd), w') else (negsuc 1, first, w')

-- The first node of the descriptor is unlinked, and its descriptor closed.
unfoldable pub client_remove : List Client → ℕ → World → List Client × World
unfolding emit
client_remove [] fd w = ([], w)
client_remove (c ∷ cs) fd w =
    let (rest, w') = client_remove cs fd w in
    if c.fd == fd then (cs, emit (closed c.fd) w) else (c ∷ rest, w')

unfoldable pub client_find : List Client → ℕ → Option Client
client_find [] fd = none
client_find (c ∷ cs) fd = if c.fd == fd then some c else client_find cs fd

-- A write through the pointer that client_find returns.
unfoldable pub client_update : (Client → Client) → List Client → ℕ → List Client
client_update f [] fd = []
client_update f (c ∷ cs) fd = if c.fd == fd then f c ∷ cs else c ∷ client_update f cs fd

unfoldable pub client_clear : List Client → World → List Client × World
unfolding emit
client_clear [] w = ([], w)
client_clear (c ∷ cs) w = client_clear cs (emit (closed c.fd) w)
