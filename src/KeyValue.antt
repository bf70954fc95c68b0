-- ===== src/KeyValue.antt =====
-- powersensordaemon/key_value_storage.c and .h: two lists side by side. Every caller passes the
-- address of a storage, so `stor` is never null; a key or value that may be null is an option.
-- key_value_storage_print only prints, and is not modelled.
pub mod Laws
use jk16legacy.Prelude.{
  ℕ, ◌+◌, Option, none, some, List, [], ◌∷◌, if◌then◌else◌, ℤ, is_zero, Text, strcmp_eq,
}
use jk16legacy.World.{World}
use jk16legacy.StringList.{string_list_init, string_list_clear, string_list_add}

pub record KeyValueStorage : Type 0 where
  pub keys_ : List Text
  pub values_ : List Text

unfoldable pub key_value_storage_init : KeyValueStorage
unfolding string_list_init
key_value_storage_init = record { keys_ = string_list_init; values_ = string_list_init }

unfoldable key_value_storage_clear : KeyValueStorage → KeyValueStorage
unfolding string_list_clear
key_value_storage_clear stor = record {
  keys_ = string_list_clear stor.keys_;
  values_ = string_list_clear stor.values_;
}

-- If only the second string_list_add fails, the key stays.
unfoldable pub key_value_storage_add :
    KeyValueStorage → Text → Text → World → ℤ × KeyValueStorage × World
unfolding string_list_add
key_value_storage_add stor key value w =
    let (ret, keys, w1) = string_list_add stor.keys_ key w in
    let (ret', values, w2) = string_list_add stor.values_ value w1 in
    if is_zero ret
    then (ret', record { keys_ = keys; values_ = values }, w2)
    else (ret, record stor { keys_ = keys }, w1)

-- The loops of the two searches, over the list that is compared and the list that answers.
pub find_pair : Text → List Text → List Text → Option Text
find_pair key [] vs = none
find_pair key (k ∷ ks) [] = none
find_pair key (k ∷ ks) (v ∷ vs) = if strcmp_eq k key then some v else find_pair key ks vs

unfoldable pub key_value_storage_find : KeyValueStorage → Option Text → Option Text
unfolding find_pair
key_value_storage_find stor none = none
key_value_storage_find stor (some key) = find_pair key stor.keys_ stor.values_

unfoldable pub key_value_storage_find_first_stringvalue :
    KeyValueStorage → Option Text → Option Text
unfolding find_pair
key_value_storage_find_first_stringvalue stor none = none
key_value_storage_find_first_stringvalue stor (some value) = find_pair value stor.values_ stor.keys_

pub count_keys : List Text → ℕ → ℕ
count_keys [] n = n
count_keys (k ∷ ks) n = count_keys ks (n + 1)

unfoldable pub key_value_storage_length : KeyValueStorage → ℕ
unfolding count_keys
key_value_storage_length stor = count_keys stor.keys_ 0
