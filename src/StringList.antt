-- ===== src/StringList.antt =====
-- powersensordaemon/string_list.c and .h. string_list_print only prints, and is not modelled.
use jk16legacy.Prelude.{
  ◌≡◌, refl, ap, ◌⊎◌, List, [], ◌∷◌, ◌++◌, arith, if◌then◌else◌, ℤ, pos, negsuc, Text,
}
use jk16legacy.World.{World, alloc, no_allocs_elim}

unfoldable pub string_list_init : List Text
string_list_init = []

unfoldable pub string_list_clear : List Text → List Text
string_list_clear [] = []
string_list_clear (s ∷ list) = string_list_clear list

-- Hang the new element behind the last one.
pub string_list_link : List Text → Text → List Text
string_list_link [] s = s ∷ []
string_list_link (t ∷ list) s = t ∷ string_list_link list s

-- The element and the copy of the string are allocated one after the other; if either fails the
-- list is as before.
unfoldable pub string_list_add : List Text → Text → World → ℤ × List Text × World
unfolding alloc string_list_link
string_list_add list string w =
    let (got, w1) = alloc w in
    let (copied, w2) = alloc w1 in
    if got
    then (if copied then (pos 0, string_list_link list string, w2) else (negsuc 1, list, w2))
    else (negsuc 1, list, w1)

pub string_list_link-append :
    (list : List Text) (s : Text) → string_list_link list s ≡ list ++ (s ∷ [])
unfolding string_list_link
string_list_link-append [] s = refl
string_list_link-append (t ∷ list) s = ap (λ r. t ∷ r) (string_list_link-append list s)

-- Whether string_list_add succeeds in a world, and the world that it leaves.
pub string_list_add_cases :
    (list : List Text) (s : Text) (w : World)
    → let (ret, list', w') = string_list_add list s w in
      ((ret ≡ pos 0) × (list' ≡ list ++ (s ∷ []))) ⊎ ((ret ≡ negsuc 1) × (list' ≡ list))
unfolding string_list_add
string_list_add_cases list s w = ground (arith, string_list_link-append list s)

pub string_list_add_succeeds :
    (list : List Text) (s : Text) (w : World)
    → w.allocs ≡ []
    → string_list_add list s w ≡ (pos 0, list ++ (s ∷ []), w)
unfolding string_list_add
string_list_add_succeeds list s w e =
    no_allocs_elim (λ v. string_list_add list s v ≡ (pos 0, list ++ (s ∷ []), v)) w e
      (rw (string_list_link-append list s) refl)
