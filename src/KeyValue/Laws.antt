-- ===== src/KeyValue/Laws.antt =====
-- The storage as a dictionary in which the first entry of a key counts.
use jk16legacy.Prelude.{
  ℕ, ◌+◌, ◌≡◌, refl, ◌≢◌, ◌⊎◌, false, Option, none, some, List, [], ◌∷◌, ◌++◌, arith, if◌then◌else◌,
  pos, negsuc, length, length-append, All, Text, strcmp_eq, strcmp_eq_refl, strcmp_eq_iff,
}
use jk16legacy.World.{World}
use jk16legacy.StringList.{string_list_link-append, string_list_add_succeeds}
use jk16legacy.KeyValue.{
  KeyValueStorage, key_value_storage_add, find_pair, key_value_storage_find,
  key_value_storage_find_first_stringvalue, count_keys, key_value_storage_length,
}

-- Every key has its value.
abbrev pub IsAligned : KeyValueStorage → Type 0
IsAligned s = length s.keys_ ≡ length s.values_

abbrev pub or_else : Option Text → Option Text → Option Text
or_else none b = b
or_else (some a) b = some a

find_pair-append :
    (key k v : Text) (ks vs : List Text)
    → length ks ≡ length vs
    → find_pair key (ks ++ (k ∷ [])) (vs ++ (v ∷ []))
      ≡ or_else (find_pair key ks vs) (if strcmp_eq k key then some v else none)
unfolding find_pair
find_pair-append key k v [] [] h = ground arith
find_pair-append key k v [] (v' ∷ vs) h = absurd (omega arith)
find_pair-append key k v (k' ∷ ks) [] h = absurd (omega arith)
find_pair-append key k v (k' ∷ ks) (v' ∷ vs) h = ground (arith, find_pair-append key k v ks vs)

-- What a call of key_value_storage_add leaves: the pair at the end of both lists and 0; or -2 with
-- nothing changed; or -2 with the key alone added.
key_value_storage_add_cases :
    (s : KeyValueStorage) (k v : Text) (w : World)
    → let (ret, s', w') = key_value_storage_add s k v w in
      ((ret ≡ pos 0) × (s'.keys_ ≡ s.keys_ ++ (k ∷ [])) × (s'.values_ ≡ s.values_ ++ (v ∷ [])))
      ⊎ ((ret ≡ negsuc 1)
          × (s'.values_ ≡ s.values_)
          × ((s'.keys_ ≡ s.keys_) ⊎ (s'.keys_ ≡ s.keys_ ++ (k ∷ []))))
unfolding key_value_storage_add
key_value_storage_add_cases s k v w =
    ground (arith, string_list_link-append s.keys_ k, string_list_link-append s.values_ v)

-- A successful key_value_storage_add keeps every key with its value, and adds exactly one entry:
-- a search finds what it found before, and where it found nothing, the new value under the new key.
find-add :
    (s : KeyValueStorage) (k v j : Text) (w : World)
    → IsAligned s
    → (key_value_storage_add s k v w).0 ≡ pos 0
    → let s' = (key_value_storage_add s k v w).1 in
      IsAligned s'
      × (key_value_storage_find s' (some j)
          ≡ or_else (key_value_storage_find s (some j)) (if strcmp_eq k j then some v else none))
unfolding key_value_storage_find
find-add s k v j w h ok = ground (
  arith,
  key_value_storage_add_cases s k v w,
  find_pair-append j k v s.keys_ s.values_,
  length-append s.keys_ (k ∷ []),
  length-append s.values_ (v ∷ []),
)

abbrev IsAbsent : Text → List Text → Type 0
IsAbsent k = All λ j. strcmp_eq j k ≡ false

abbrev HasDistinctKeys : List Text → Type 0
HasDistinctKeys [] = Unit {0}
HasDistinctKeys (k ∷ ks) = IsAbsent k ks × HasDistinctKeys ks

-- A key that is not among the answers is not found.
find_pair_absent : (k v : Text) (ks vs : List Text) → IsAbsent k ks → find_pair v vs ks ≢ some k
unfolding find_pair
find_pair_absent k v ks [] h e = ground arith
find_pair_absent k v [] (x ∷ vs) h e = ground arith
find_pair_absent k v (j ∷ ks) (x ∷ vs) h e =
    ground (arith, find_pair_absent k v ks vs h.1, strcmp_eq_refl k)

-- the loop of the reverse search, against that of the search
reverse_pair :
    (k v : Text) (ks vs : List Text)
    → HasDistinctKeys ks
    → find_pair v vs ks ≡ some k
    → find_pair k ks vs ≡ some v
unfolding find_pair
reverse_pair k v ks [] d e = ground arith
reverse_pair k v [] (x ∷ vs) d e = ground arith
reverse_pair k v (j ∷ ks) (x ∷ vs) d e = ground (
  arith,
  reverse_pair k v ks vs d.1,
  strcmp_eq_iff x v,
  strcmp_eq_iff j k,
  find_pair_absent j v ks vs d.0,
)

-- Where the keys are distinct, the key that the search by value returns is one under which the
-- search by key returns that value.
find-find_first_stringvalue :
    (s : KeyValueStorage) (k v : Text)
    → HasDistinctKeys s.keys_
    → key_value_storage_find_first_stringvalue s (some v) ≡ some k
    → key_value_storage_find s (some k) ≡ some v
unfolding key_value_storage_find key_value_storage_find_first_stringvalue
find-find_first_stringvalue s k v d e = reverse_pair k v s.keys_ s.values_ d e

count_keys-length : (ks : List Text) (n : ℕ) → count_keys ks n ≡ n + length ks
unfolding count_keys
count_keys-length [] n = omega arith
count_keys-length (k ∷ ks) n = omega (arith, count_keys-length ks (n + 1))

key_value_storage_length-length :
    (s : KeyValueStorage) → key_value_storage_length s ≡ length s.keys_
unfolding key_value_storage_length
key_value_storage_length-length s = omega (arith, count_keys-length s.keys_ 0)

-- Where the allocations succeed, a key and its value are added at the end.
pub key_value_storage_add_succeeds :
    (stor : KeyValueStorage) (key value : Text) (w : World)
    → w.allocs ≡ []
    → key_value_storage_add stor key value w ≡ (
      pos 0,
      record { keys_ = stor.keys_ ++ (key ∷ []); values_ = stor.values_ ++ (value ∷ []) },
      w,
    )
unfolding key_value_storage_add
key_value_storage_add_succeeds stor key value w e =
    rw
      (string_list_add_succeeds stor.keys_ key w e, string_list_add_succeeds stor.values_ value w e)
      refl
