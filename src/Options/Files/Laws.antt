-- ===== src/Options/Files/Laws.antt =====
-- options.c: a file of keys and values is read back as it was written.
use jk16legacy.Prelude.{
  ℕ, suc, ◌-◌, ◌<◌, ◌≡◌, refl, ap, ◌∙◌, false, some, List, [], ◌∷◌, ◌++◌, append_assoc, arith, leb,
  ◌==◌, if◌then◌else◌, ℤ, length, All, All-append, Text, c_str, strchr,
}
use jk16legacy.World.{World}
use jk16legacy.KeyValue.{KeyValueStorage}
use jk16legacy.KeyValue.Laws.{key_value_storage_add_succeeds}
use jk16legacy.Options.Print.{IsNonempty, HasNo, strchr-append, cut_at-append}
use jk16legacy.Options.Files.{
  fgets_chunks, skip_spaces, cut_value, value_of_line, behind_key, key_of_line, parse_line,
  add_pair, parse_lines, options_parse_key_value_file,
}

abbrev conf_line : Text → Text → List ℕ
conf_line key value = key ++ (b' ' ∷ value)

abbrev conf_file : List (Text × Text) → List ℕ
conf_file [] = []
conf_file ((k, v) ∷ ps) = conf_line k v ++ (b'\n' ∷ conf_file ps)

-- A key and a value that fit into a line.
pub record IsPair (k v : Text) : Type 0 where
  pub nonempty : IsNonempty k
  pub key_words : HasNo b' ' k
  pub key_lines : HasNo b'\n' k
  pub key_zeros : HasNo 0 k
  pub value_words : HasNo b' ' v
  pub value_lines : HasNo b'\n' v
  pub value_zeros : HasNo 0 v
  pub fits : length (conf_line k v) < 99

fgets_chunks-line :
    (room : ℕ) (acc line rest : List ℕ)
    → HasNo b'\n' line
    → length line < room
    → fgets_chunks room acc (line ++ (b'\n' ∷ rest))
      ≡ (acc ++ (line ++ (b'\n' ∷ []))) ∷ fgets_chunks 99 [] rest
unfolding fgets_chunks
fgets_chunks-line room acc [] rest h k = refl
fgets_chunks-line room acc (b ∷ line) rest h k =
    rw (h.0, above room (length line) k)
      (fgets_chunks-line (room - 1) (acc ++ (b ∷ [])) line rest h.1 (omega arith)
        ∙ ap (λ l. l ∷ fgets_chunks 99 [] rest) (append_assoc acc (b ∷ []) (line ++ (b'\n' ∷ []))))
  where
    above : (r n : ℕ) → suc n < r → leb r 1 ≡ false
    above r n h = ground arith

c_str-HasNo : (s : Text) → HasNo 0 s → c_str s ≡ s
unfolding c_str
c_str-HasNo [] h = refl
c_str-HasNo (c ∷ s) h = rw (h.0) (ap (λ r. c ∷ r) (c_str-HasNo s h.1))

cut_value-line : (v : Text) → HasNo b' ' v → HasNo b'\n' v → cut_value (v ++ (b'\n' ∷ [])) ≡ v
unfolding cut_value
cut_value-line [] h k = refl
cut_value-line (c ∷ v) h k = rw (h.0, k.0) (ap (λ r. c ∷ r) (cut_value-line v h.1 k.1))

value_of_line-line :
    (key v : Text)
    → HasNo b' ' v
    → HasNo b'\n' v
    → value_of_line key (skip_spaces (v ++ (b'\n' ∷ []))) ≡ some (key, v)
unfolding value_of_line skip_spaces cut_value
value_of_line-line key [] h k = refl
value_of_line-line key (c ∷ v) h k =
    rw (h.0, k.0, h.0) (ap (λ r. some (key, c ∷ r)) (cut_value-line v h.1 k.1))

parse_line-key :
    (c : ℕ) (key rest : Text)
    → HasNo b' ' (c ∷ key)
    → parse_line ((c ∷ key) ++ (b' ' ∷ rest)) ≡ value_of_line (c ∷ key) (skip_spaces rest)
unfolding parse_line key_of_line behind_key skip_spaces
parse_line-key c key rest h =
    ap
      (λ z.
        key_of_line (if z then skip_spaces (key ++ (b' ' ∷ rest)) else c ∷ (key ++ (b' ' ∷ rest))))
      h.0
    ∙ (ap (λ k. behind_key k (strchr ((c ∷ key) ++ (b' ' ∷ rest)) b' '))
          (cut_at-append b' ' (c ∷ key) rest h)
        ∙ ap (behind_key (c ∷ key)) (strchr-append b' ' (c ∷ key) rest h))

parse_line-conf_line :
    (key v : Text) → IsPair key v → parse_line (conf_line key v ++ (b'\n' ∷ [])) ≡ some (key, v)
parse_line-conf_line [] v h = elim h.nonempty [ ]
parse_line-conf_line (c ∷ key) v h =
    ap parse_line (append_assoc (c ∷ key) (b' ' ∷ v) (b'\n' ∷ []))
    ∙ (parse_line-key c key (v ++ (b'\n' ∷ [])) h.key_words
        ∙ value_of_line-line (c ∷ key) v h.value_words h.value_lines)

line-HasNo :
    (c : ℕ) (k v : Text) → (b' ' == c) ≡ false → HasNo c k → HasNo c v → HasNo c (conf_line k v)
line-HasNo c k v e h g = All-append (λ x. (x == c) ≡ false) k (b' ' ∷ v) h (e, g)

parse_lines-line :
    (off_end : ℤ) (k v : Text) (lines : List (List ℕ)) (stor : KeyValueStorage) (w : World)
    → IsPair k v
    → w.allocs ≡ []
    → parse_lines off_end ((conf_line k v ++ (b'\n' ∷ [])) ∷ lines) stor w
      ≡ parse_lines off_end lines
          (record { keys_ = stor.keys_ ++ (k ∷ []); values_ = stor.values_ ++ (v ∷ []) })
          w
unfolding parse_lines add_pair
parse_lines-line off_end k v lines stor w h e =
    rw
      (
        c_str-HasNo (conf_line k v ++ (b'\n' ∷ [])) zeros,
        parse_line-conf_line k v h,
        key_value_storage_add_succeeds stor k v w e,
      )
      refl
  where
    zeros : HasNo 0 (conf_line k v ++ (b'\n' ∷ []))
    zeros =
        All-append (λ x. (x == 0) ≡ false) (conf_line k v) (b'\n' ∷ [])
          (line-HasNo 0 k v refl h.key_zeros h.value_zeros) (refl, tt)

abbrev pub add_pairs : List (Text × Text) → KeyValueStorage → KeyValueStorage
add_pairs [] stor = stor
add_pairs ((k, v) ∷ ps) stor =
    add_pairs ps (record { keys_ = stor.keys_ ++ (k ∷ []); values_ = stor.values_ ++ (v ∷ []) })

-- A file of lines, each a key and a value that fit into a line, is read back: where the allocations
-- succeed every pair is added to the storage, in the order of the file.
pub options_parse_key_value_file-conf_file :
    (off_end : ℤ) (err filename : Text) (ps : List (Text × Text)) (stor : KeyValueStorage)
    (w : World)
    → All (λ p. IsPair p.0 p.1) ps
    → w.allocs ≡ []
    → options_parse_key_value_file off_end err filename (some (conf_file ps)) stor w
      ≡ (off_end, add_pairs ps stor, w)
unfolding options_parse_key_value_file fgets_chunks parse_lines
options_parse_key_value_file-conf_file off_end err filename [] stor w h e = refl
options_parse_key_value_file-conf_file off_end err filename ((k, v) ∷ ps) stor w h e =
    ap (λ ls. parse_lines off_end ls stor w)
      (fgets_chunks-line 99 [] (conf_line k v) (conf_file ps)
        (line-HasNo b'\n' k v refl h.0.key_lines h.0.value_lines) h.0.fits)
    ∙ (parse_lines-line off_end k v (fgets_chunks 99 [] (conf_file ps)) stor w h.0 e
        ∙ options_parse_key_value_file-conf_file off_end err filename ps _ w h.1 e)
