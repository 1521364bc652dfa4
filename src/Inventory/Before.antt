-- ===== src/Inventory/Before.antt =====
-- assemble/inventory.go: readEntry keeps the last entry at a path, and a bounded read is the read of the
-- archive that is cut there.
use sandbox_kit_spec.Base.{
  ℕ, suc, ◌+◌, ◌≡◌, refl, ap, ◌∙◌, Bool, true, false, Option, none, some, List, [], ◌∷◌, length,
  Text, text_eq, leb, if◌then◌else◌, Result, ok, err, ◌>>=◌, arith,
}
use sandbox_kit_spec.Inventory.{
  TypeFlag, regular, directory, symbolic, hard, other, Member, Archive, done, broken, member,
  archive, ReadError, FileEntry, no_entry, link_entry, file_entry, entry_path, member_entry,
  next_entry, read_regular, entry_from, read_entry, stat_file_entry,
}

past_end :
    (path : Text) (with_body : Bool) (n : ℕ) (entry : FileEntry) (rest : Archive)
    → entry_from path with_body (some n) n entry rest ≡ ok entry
unfolding entry_from
past_end path with_body n entry done = refl
past_end path with_body n entry (broken e) = ground arith
past_end path with_body n entry (member m rest) = ground arith

bounded_from :
    (path : Text) (with_body : Bool) (before index : ℕ) (entry : FileEntry) (ms : List Member)
    (rest : Archive)
    → before ≡ index + length ms
    → entry_from path with_body (some before) index entry (archive ms rest)
      ≡ entry_from path with_body none index entry (archive ms done)
unfolding entry_from archive
bounded_from path with_body before index entry [] rest e =
    ap (λ n. entry_from path with_body (some n) index entry rest) (e ∙ omega arith)
    ∙ past_end path with_body index entry rest
bounded_from path with_body before index entry (m ∷ ms) rest e =
    by_past (leb before index) (ground arith) (next_entry path with_body index m entry)
      (λ next. bounded_from path with_body before (suc index) next ms rest (omega arith))
  where
    by_past :
        (b : Bool)
        → b ≡ false
        → (r : Result ReadError FileEntry)
        → ((next : FileEntry)
            → entry_from path with_body (some before) (suc index) next (archive ms rest)
              ≡ entry_from path with_body none (suc index) next (archive ms done))
        → (if b
            then ok entry
            else r >>= (λ next.
              entry_from path with_body (some before) (suc index) next (archive ms rest)))
          ≡ (r >>= (λ next. entry_from path with_body none (suc index) next (archive ms done)))
    by_past true d r h = cc
    by_past false d (err x) h = refl
    by_past false d (ok next) h = h next

-- A read bounded by the number of the members before is the read of the archive that ends there: what
-- comes later, a later entry at the path or an error, changes nothing.
pub read_entry-archive :
    (path : Text) (with_body : Bool) (ms : List Member) (rest : Archive)
    → read_entry path with_body (some (length ms)) (archive ms rest)
      ≡ read_entry path with_body none (archive ms done)
unfolding read_entry
read_entry-archive path with_body ms rest =
    bounded_from path with_body (length ms) 0 no_entry ms rest (omega arith)

-- The last member at a path, with its position.
abbrev or_here : Bool → ℕ → Member → Option (ℕ × Member) → Option (ℕ × Member)
or_here here index m (some later) = some later
or_here true index m none = some (index, m)
or_here false index m none = none

unfoldable pub last_at : Text → ℕ → List Member → Option (ℕ × Member)
unfolding entry_path text_eq
last_at path index [] = none
last_at path index (m ∷ ms) =
    or_here (text_eq (entry_path m.name) (entry_path path)) index m (last_at path (suc index) ms)

-- What is there: nothing where the last one is a directory.
abbrev present : TypeFlag → ℕ → Member → FileEntry
present directory index m = no_entry
present symbolic index m = link_entry false index m
present hard index m = link_entry true index m
present regular index m = file_entry [] index m
present other index m = file_entry [] index m

abbrev pub entry_of : FileEntry → Option (ℕ × Member) → FileEntry
entry_of entry none = entry
entry_of entry (some (index, m)) = present m.typeflag index m

member_entry-present :
    (flag : TypeFlag) (path : Text) (index : ℕ) (m : Member)
    → member_entry flag path false index m ≡ ok (present flag index m)
unfolding member_entry read_regular
member_entry-present regular path index m = refl
member_entry-present directory path index m = refl
member_entry-present symbolic path index m = refl
member_entry-present hard path index m = refl
member_entry-present other path index m = refl

entry_of-or_here-true :
    (index : ℕ) (m : Member) (entry : FileEntry) (later : Option (ℕ × Member))
    → entry_of (present m.typeflag index m) later ≡ entry_of entry (or_here true index m later)
entry_of-or_here-true index m entry none = refl
entry_of-or_here-true index m entry (some later) = refl

entry_of-or_here-false :
    (index : ℕ) (m : Member) (entry : FileEntry) (later : Option (ℕ × Member))
    → entry_of entry later ≡ entry_of entry (or_here false index m later)
entry_of-or_here-false index m entry none = refl
entry_of-or_here-false index m entry (some later) = refl

entry_from-last_at :
    (path : Text) (index : ℕ) (entry : FileEntry) (ms : List Member)
    → entry_from path false none index entry (archive ms done)
      ≡ ok (entry_of entry (last_at path index ms))
unfolding entry_from archive last_at next_entry
entry_from-last_at path index entry [] = refl
entry_from-last_at path index entry (m ∷ ms) =
    by_path (text_eq (entry_path m.name) (entry_path path))
      (λ next. entry_from-last_at path (suc index) next ms)
  where
    by_path :
        (b : Bool)
        → ((next : FileEntry)
            → entry_from path false none (suc index) next (archive ms done)
              ≡ ok (entry_of next (last_at path (suc index) ms)))
        → ((if b then member_entry m.typeflag path false index m else ok entry)
            >>= (λ next. entry_from path false none (suc index) next (archive ms done)))
          ≡ ok (entry_of entry (or_here b index m (last_at path (suc index) ms)))
    by_path true h =
        ap (λ r. r >>= (λ next. entry_from path false none (suc index) next (archive ms done)))
          (member_entry-present m.typeflag path index m)
        ∙ h (present m.typeflag index m)
        ∙ ap (λ x. ok x) (entry_of-or_here-true index m entry (last_at path (suc index) ms))
    by_path false h =
        h entry
        ∙ ap (λ x. ok x) (entry_of-or_here-false index m entry (last_at path (suc index) ms))

-- Looking a path up in an archive without its contents gives what the last member at the path is, and
-- no entry where there is none or it is a directory.
pub stat_file_entry-last_at :
    (path : Text) (ms : List Member)
    → stat_file_entry (archive ms done) path ≡ ok (entry_of no_entry (last_at path 0 ms))
unfolding read_entry
stat_file_entry-last_at path ms = entry_from-last_at path 0 no_entry ms
