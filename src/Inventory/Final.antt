-- ===== src/Inventory/Final.antt =====
-- assemble/inventory.go: ReadLayerEntries lists each path as what its last entry is.
use sandbox_kit_spec.Base.{
  ◌≡◌, refl, ap, ◌∙◌, Bool, true, false, not, ◌&&◌, Option, none, some, List, [], ◌∷◌, Text,
  text_eq, text_eq_iff, has_text, if◌then◌else◌, ok, ◌>>=◌, arith,
}
use sandbox_kit_spec.Inventory.{Member, done, archive, entry_path}
use sandbox_kit_spec.Inventory.Layers.{
  Kind, kind_file, kind_dir, kind_link, kind_of, note, kinds_from, Listing, list_kind, listing,
  read_layer_entries,
}

-- What the last member at a path is.
abbrev or_kind : Option Kind → Bool → Kind → Option Kind
or_kind (some k) here l = some k
or_kind none true l = some l
or_kind none false l = none

unfoldable pub last_kind : Text → List Member → Option Kind
unfolding text_eq entry_path
last_kind name [] = none
last_kind name (m ∷ ms) =
    or_kind (last_kind name ms) (text_eq name (entry_path m.name)) (kind_of m.typeflag m.linkname)

abbrev pub is_dir_kind : Option Kind → Bool
is_dir_kind none = false
is_dir_kind (some kind_dir) = true
is_dir_kind (some kind_file) = false
is_dir_kind (some (kind_link link)) = false

abbrev pub is_file_kind : Option Kind → Bool
is_file_kind none = false
is_file_kind (some kind_dir) = false
is_file_kind (some kind_file) = true
is_file_kind (some (kind_link link)) = true

unfoldable find_kind : Text → List (Text × Kind) → Option Kind
unfolding text_eq
find_kind name [] = none
find_kind name ((seen, k) ∷ ks) =
    let later = find_kind name ks in if text_eq name seen then some k else later

find_kind-note :
    (name n : Text) (k : Kind) (ks : List (Text × Kind))
    → find_kind name (note n k ks) ≡ (if text_eq name n then some k else find_kind name ks)
unfolding find_kind note
find_kind-note name n k [] = refl
find_kind-note name n k ((seen, l) ∷ ks) = ground (
  arith,
  find_kind-note name n k ks,
  text_eq_iff n seen,
  text_eq_iff name n,
  text_eq_iff name seen,
)

abbrev note_all : List (Text × Kind) → List Member → List (Text × Kind)
note_all ks [] = ks
note_all ks (m ∷ ms) = note_all (note (entry_path m.name) (kind_of m.typeflag m.linkname) ks) ms

kinds_from-note_all :
    (ks : List (Text × Kind)) (ms : List Member)
    → kinds_from ks (archive ms done) ≡ ok (note_all ks ms)
unfolding kinds_from archive
kinds_from-note_all ks [] = refl
kinds_from-note_all ks (m ∷ ms) =
    kinds_from-note_all (note (entry_path m.name) (kind_of m.typeflag m.linkname) ks) ms

abbrev or_seen : Option Kind → Option Kind → Option Kind
or_seen (some k) seen = some k
or_seen none seen = seen

or_seen-or_kind :
    (k : Option Kind) (b : Bool) (l : Kind) (seen : Option Kind)
    → or_seen k (if b then some l else seen) ≡ or_seen (or_kind k b l) seen
or_seen-or_kind (some k) b l seen = refl
or_seen-or_kind none true l seen = refl
or_seen-or_kind none false l seen = refl

find_kind-note_all :
    (name : Text) (ks : List (Text × Kind)) (ms : List Member)
    → find_kind name (note_all ks ms) ≡ or_seen (last_kind name ms) (find_kind name ks)
unfolding last_kind
find_kind-note_all name ks [] = refl
find_kind-note_all name ks (m ∷ ms) =
    let k = kind_of m.typeflag m.linkname in
    find_kind-note_all name (note (entry_path m.name) k ks) ms
    ∙ ap (λ seen. or_seen (last_kind name ms) seen) (find_kind-note name (entry_path m.name) k ks)
    ∙ or_seen-or_kind (last_kind name ms) (text_eq name (entry_path m.name)) k (find_kind name ks)

-- Each name once.
abbrev is_noted : Option Kind → Bool
is_noted none = false
is_noted (some k) = true

abbrev is_distinct : List (Text × Kind) → Bool
is_distinct [] = true
is_distinct ((name, k) ∷ ks) = not (is_noted (find_kind name ks)) && is_distinct ks

is_distinct-note :
    (n : Text) (k : Kind) (ks : List (Text × Kind))
    → is_distinct ks ≡ true
    → is_distinct (note n k ks) ≡ true
unfolding note find_kind
is_distinct-note n k [] h = refl
is_distinct-note n k ((seen, l) ∷ ks) h = ground (
  arith,
  is_distinct-note n k ks (ground arith),
  find_kind-note seen n k ks,
  text_eq_iff n seen,
  text_eq_iff seen n,
)

is_distinct-note_all :
    (ks : List (Text × Kind)) (ms : List Member)
    → is_distinct ks ≡ true
    → is_distinct (note_all ks ms) ≡ true
is_distinct-note_all ks [] h = h
is_distinct-note_all ks (m ∷ ms) h =
    is_distinct-note_all (note (entry_path m.name) (kind_of m.typeflag m.linkname) ks) ms
      (is_distinct-note (entry_path m.name) (kind_of m.typeflag m.linkname) ks h)

list_kind-has_text :
    (k : Kind) (l : Listing) (name seen : Text) (later : Option Kind) (here : Bool)
    → text_eq seen name ≡ here
    → (here ≡ true → later ≡ none)
    → has_text l.dirs name ≡ is_dir_kind later
    → has_text l.files name ≡ is_file_kind later
    → (has_text (list_kind seen k l).dirs name ≡ is_dir_kind (if here then some k else later))
      × (has_text (list_kind seen k l).files name ≡ is_file_kind (if here then some k else later))
unfolding has_text
list_kind-has_text kind_dir l name seen later true e none_later d f =
    (ground arith, f ∙ ap is_file_kind (none_later refl))
list_kind-has_text kind_file l name seen later true e none_later d f =
    (d ∙ ap is_dir_kind (none_later refl), ground arith)
list_kind-has_text (kind_link link) l name seen later true e none_later d f =
    (d ∙ ap is_dir_kind (none_later refl), ground arith)
list_kind-has_text kind_dir l name seen later false e none_later d f = (ground arith, f)
list_kind-has_text kind_file l name seen later false e none_later d f = (d, ground arith)
list_kind-has_text (kind_link link) l name seen later false e none_later d f = (d, ground arith)

has_text-listing :
    (name : Text) (ks : List (Text × Kind))
    → is_distinct ks ≡ true
    → (has_text (listing ks).dirs name ≡ is_dir_kind (find_kind name ks))
      × (has_text (listing ks).files name ≡ is_file_kind (find_kind name ks))
unfolding listing has_text find_kind
has_text-listing name [] h = (refl, refl)
has_text-listing name ((seen, k) ∷ ks) h =
    let (d, f) = has_text-listing name ks (ground arith) in
    list_kind-has_text k (listing ks) name seen (find_kind name ks) (text_eq name seen)
      (ground (arith, text_eq_iff name seen, text_eq_iff seen name))
      (λ e. ground (arith, ap (λ t. find_kind t ks) ((text_eq_iff name seen).0 e))) d f

-- An archive without an error is listed, each path among the directories exactly when its last member
-- is a directory, and among the files exactly when its last member is anything else.
pub read_layer_entries-last_kind :
    (ms : List Member)
    → (l : Listing) × (read_layer_entries (archive ms done) ≡ ok l)
      × ((name : Text)
          → (has_text l.dirs name ≡ is_dir_kind (last_kind name ms))
            × (has_text l.files name ≡ is_file_kind (last_kind name ms)))
unfolding read_layer_entries find_kind last_kind
read_layer_entries-last_kind ms = (
  listing (note_all [] ms),
  ap (λ r. r >>= (λ ks. ok (listing ks))) (kinds_from-note_all [] ms),
  λ name. by_name name,
)
  where
    none_seen : (k : Option Kind) → or_seen k none ≡ k
    none_seen none = refl
    none_seen (some k) = refl

    by_name :
        (name : Text)
        → (has_text (listing (note_all [] ms)).dirs name ≡ is_dir_kind (last_kind name ms))
          × (has_text (listing (note_all [] ms)).files name ≡ is_file_kind (last_kind name ms))
    by_name name =
        let found = find_kind-note_all name [] ms ∙ none_seen (last_kind name ms) in
        let (d, f) = has_text-listing name (note_all [] ms) (is_distinct-note_all [] ms refl) in
        (d ∙ ap is_dir_kind found, f ∙ ap is_file_kind found)
