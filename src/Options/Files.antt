-- ===== src/Options/Files.antt =====
-- options.c: options_parse_key_value_file and options_parse_post. What fopen finds and the text of
-- errno are parameters. options_parse_key_value_file has no return statement behind its loop: what
-- a caller finds there is the parameter `off_end`. A file is the list of its bytes.
pub mod Laws
pub mod Checks
use jk16legacy.Prelude.{
  ℕ, ◌-◌, Bool, true, false, ◌||◌, not, Option, none, some, List, [], ◌∷◌, ◌++◌, ltb, leb, ◌==◌,
  if◌then◌else◌, ℤ, pos, negsuc, is_zero, Text, or_null, c_str, strchr, cut_at, atoi,
}
use jk16legacy.World.{error, str, World, log_event}
use jk16legacy.CommandQueue.{sample}
use jk16legacy.KeyValue.{KeyValueStorage, key_value_storage_add, key_value_storage_find}
use jk16legacy.Options.{Options}

-- What fgets(buf, 100, file) puts into buf, call by call: at most 99 bytes, up to a line feed.
last_chunk : List ℕ → List (List ℕ)
last_chunk [] = []
last_chunk (a ∷ acc) = (a ∷ acc) ∷ []

pub fgets_chunks : ℕ → List ℕ → List ℕ → List (List ℕ)
unfolding last_chunk
fgets_chunks room acc [] = last_chunk acc
fgets_chunks room acc (b ∷ bs) =
    let cut = b == b'\n' || leb room 1 in
    let line = acc ++ (b ∷ []) in
    let rest = fgets_chunks (if cut then 99 else room - 1) (if cut then [] else line) bs in
    if cut then line ∷ rest else rest

-- for(;*tmp == ' ';++tmp);
pub skip_spaces : Text → Text
skip_spaces [] = []
skip_spaces (c ∷ s) = if c == b' ' then skip_spaces s else c ∷ s

-- The value: up to a space or a line feed.
pub cut_value : Text → Text
cut_value [] = []
cut_value (c ∷ s) = if c == b' ' || c == b'\n' then [] else c ∷ cut_value s

pub value_of_line : Text → Text → Option (Text × Text)
unfolding cut_value
value_of_line key [] = none
value_of_line key (c ∷ s) = some (key, cut_value (c ∷ s))

-- From the space behind the key on.
pub behind_key : Text → Option Text → Option (Text × Text)
unfolding skip_spaces value_of_line
behind_key key none = none
behind_key key (some []) = none
behind_key key (some (c ∷ s)) = value_of_line key (skip_spaces s)

pub key_of_line : Text → Option (Text × Text)
unfolding behind_key cut_at strchr
key_of_line [] = none
key_of_line (c ∷ s) = behind_key (cut_at (c ∷ s) b' ') (strchr (c ∷ s) b' ')

-- The key and the value of a line, `none` where the loop continues with the next.
pub parse_line : Text → Option (Text × Text)
unfolding skip_spaces key_of_line
parse_line buf = key_of_line (skip_spaces buf)

pub add_pair : Option (Text × Text) → KeyValueStorage → World → ℤ × KeyValueStorage × World
unfolding key_value_storage_add
add_pair none stor w = (pos 0, stor, w)
add_pair (some (key, value)) stor w = key_value_storage_add stor key value w

pub parse_lines : ℤ → List (List ℕ) → KeyValueStorage → World → ℤ × KeyValueStorage × World
unfolding parse_line add_pair c_str
parse_lines off_end [] stor w = (off_end, stor, w)
parse_lines off_end (line ∷ lines) stor w =
    let (ret, stor', w') = add_pair (parse_line (c_str line)) stor w in
    let rest = parse_lines off_end lines stor' w' in
    if is_zero ret then rest else (negsuc 1, stor', w')

pub options_parse_key_value_file :
    ℤ → Text → Text → Option (List ℕ) → KeyValueStorage → World → ℤ × KeyValueStorage × World
unfolding fgets_chunks parse_lines log_event
options_parse_key_value_file off_end err filename none stor w = (
  negsuc 0,
  stor,
  log_event error "unable to open conf file (%s): %s" (str filename ∷ str err ∷ []) w,
)
options_parse_key_value_file off_end err filename (some file) stor w =
    parse_lines off_end (fgets_chunks 99 [] file) stor w

abbrev pub is_positive : ℤ → Bool
is_positive (pos n) = ltb 0 n
is_positive (negsuc n) = false

-- The checks of one autosample device: whether it passes, and the world.
unfoldable pub check_autosample : Option Text → Text → Text → Option Text → World → Bool × World
unfolding log_event atoi
check_autosample file k v none w =
    (false, log_event error "sample dev '%s' not in file '%s'" (str k ∷ str (or_null file) ∷ []) w)
check_autosample file k v (some dev) w =
    if is_positive (atoi v)
    then (true, w)
    else (false, log_event error "invalid rate '%s' for sample dev '%s'" (str v ∷ str k ∷ []) w)

-- The loop of options_parse_post.
unfoldable pub check_autosamples :
    Option Text → KeyValueStorage → List Text → List Text → World → ℤ × World
unfolding check_autosample key_value_storage_find
check_autosamples file devs [] vs w = (pos 0, w)
check_autosamples file devs (k ∷ ks) [] w = (pos 0, w)
check_autosamples file devs (k ∷ ks) (v ∷ vs) w =
    let (ok, w') = check_autosample file k v (key_value_storage_find devs (some k)) w in
    let rest = check_autosamples file devs ks vs w' in if ok then rest else (negsuc 0, w')

-- A file that an option may name.
unfoldable pub parse_file :
    ℤ
    → Text
    → (Text → Option (List ℕ))
    → Option Text
    → KeyValueStorage
    → World
    → ℤ × KeyValueStorage × World
unfolding options_parse_key_value_file
parse_file off_end err fopen none stor w = (pos 0, stor, w)
parse_file off_end err fopen (some f) stor w =
    options_parse_key_value_file off_end err f (fopen f) stor w

-- if(ret) return ret;
abbrev pub unless_error : ℤ × Options × World → ℤ × Options × World → ℤ × Options × World
unless_error a b = if is_zero a.0 then b else a

unfoldable pub options_parse_post :
    ℤ → Text → (Text → Option (List ℕ)) → Options → World → ℤ × Options × World
unfolding parse_file check_autosamples
options_parse_post off_end err fopen o w =
    let (r1, powerids, w1) = parse_file off_end err fopen o.powerid_file_ o.powerids_ w in
    let o1 = record o { powerids_ = powerids } in
    let (r2, devs, w2) = parse_file off_end err fopen o.sampledev_file_ o.sampledevs_ w1 in
    let o2 = record o1 { sampledevs_ = devs } in
    let (r3, w3) =
      check_autosamples o.sampledev_file_ devs o.autosampledevs_.keys_ o.autosampledevs_.values_
        w2 in
    unless_error (r1, o1, w1) (unless_error (r2, o2, w2) (r3, o2, w3))
