-- ===== src/Overlay/Extract/Ordered.antt =====
-- internal/overlayfs/fs.go: extract keeps the names of each directory in order, each of them once, accepted
-- or refused.
use sandbox_kit_spec.Base.{
  Bool, true, false, not, Option, none, some, List, [], ◌∷◌, Text, codes, length, text_eq,
  cut_prefix, ltb, ◌==◌, ◌&&◌, if◌then◌else◌, Result, ok, err,
}
use sandbox_kit_spec.Overlay.{Node, dir, file, symlink, whiteout, Dir, get, Layer}
use sandbox_kit_spec.Overlay.FilePath.{clean, join_path, split_path, components}
use sandbox_kit_spec.Overlay.Lookup.{Reached, missing, failed, found, lstat}
use sandbox_kit_spec.Overlay.RootPath.{PathError, root_path, max_path_len}
use sandbox_kit_spec.Overlay.Names.{IsSorted, AreSorted, AreSorted-put, AreSorted-remove}
use sandbox_kit_spec.Overlay.Extract.{
  Header, TypeFlag, x_global_header, character, directory, symbolic, hard_link, other, explicit_dir,
  linkable, link_in, device, is_no_target, whiteout_or_entry, extract_in, link_target, place,
  place_entry, mark_opaque, put_if_absent, place_whiteout, apply_to_parent, accepted, extract_at,
  is_skipped, extract, add,
}
use sandbox_kit_spec.Overlay.Extract.Parents.{set_child, mkparent, change_at}
use sandbox_kit_spec.Overlay.Extract.Walked.{
  IsOrdered, IsOrderedNode, IsOrderedNode-get, mkparent-AreSorted, change_at-IsOrdered,
}

explicit_dir-IsSorted :
    (hdr : Header) (n : Option Node) → IsOrderedNode n → IsSorted (explicit_dir hdr n)
unfolding IsSorted
explicit_dir-IsSorted hdr (some (dir info cs)) h = h
explicit_dir-IsSorted hdr (some file) h = _
explicit_dir-IsSorted hdr (some (symlink link)) h = _
explicit_dir-IsSorted hdr (some whiteout) h = _
explicit_dir-IsSorted hdr none h = _

linkable-IsOrderedNode : (n : Reached Node) → IsOrderedNode (linkable n)
unfolding IsSorted
linkable-IsOrderedNode missing = _
linkable-IsOrderedNode failed = _
linkable-IsOrderedNode (found (dir info cs)) = _
linkable-IsOrderedNode (found file) = _
linkable-IsOrderedNode (found (symlink link)) = _
linkable-IsOrderedNode (found whiteout) = _

link_target-IsOrderedNode :
    (upper : Dir) (linkname : Text) → IsOrderedNode (link_target upper linkname)
unfolding link_target
link_target-IsOrderedNode upper linkname =
    of_path (root_path upper (split_path linkname).0) (split_path linkname).1
  where
    of_path : (r : Result PathError Text) (base : Text) → IsOrderedNode (link_in upper base r)
    of_path (err e) base = _
    of_path (ok resolved) base = linkable-IsOrderedNode (lstat upper (join_path resolved base))

place-IsOrdered :
    (base : Text) (d : Dir) (n : Option Node)
    → AreSorted d.children
    → IsOrderedNode n
    → IsOrdered (place base d n)
place-IsOrdered base d none h hn = _
place-IsOrdered base d (some n) h hn = AreSorted-put base n d.children hn h

device-IsSorted : (hdr : Header) → IsSorted (device hdr)
unfolding IsSorted
device-IsSorted hdr = by_test ((hdr.devmajor == 0) && (hdr.devminor == 0))
  where
    by_test : (b : Bool) → IsSorted (if b then whiteout else file)
    by_test true = _
    by_test false = _

place_entry-IsOrdered :
    (flag : TypeFlag) (upper : Dir) (hdr : Header) (base : Text) (d : Dir)
    → AreSorted d.children
    → IsOrdered (place_entry flag upper hdr base d)
unfolding place_entry IsSorted
place_entry-IsOrdered x_global_header upper hdr base d h = AreSorted-remove base d.children h
place_entry-IsOrdered character upper hdr base d h =
    AreSorted-put base (device hdr) d.children (device-IsSorted hdr) h
place_entry-IsOrdered directory upper hdr base d h =
    AreSorted-put base (explicit_dir hdr (get base d.children)) d.children
      (explicit_dir-IsSorted hdr (get base d.children) (IsOrderedNode-get base d.children h)) h
place_entry-IsOrdered symbolic upper hdr base d h = by_test (is_no_target hdr.linkname)
  where
    by_test :
        (b : Bool) → IsOrdered (if b then none else some (set_child d base (symlink hdr.linkname)))
    by_test true = _
    by_test false = AreSorted-put base (symlink hdr.linkname) d.children _ h
place_entry-IsOrdered hard_link upper hdr base d h =
    place-IsOrdered base d (link_target upper hdr.linkname) h
      (link_target-IsOrderedNode upper hdr.linkname)
place_entry-IsOrdered other upper hdr base d h = AreSorted-put base file d.children _ h

put_if_absent-AreSorted :
    (victim : Text) (d : Dir) (n : Option Node)
    → AreSorted d.children
    → AreSorted (put_if_absent victim d n).children
unfolding IsSorted
put_if_absent-AreSorted victim d none h = AreSorted-put victim whiteout d.children _ h
put_if_absent-AreSorted victim d (some n) h = h

place_whiteout-AreSorted :
    (victim : Text) (d : Dir) → AreSorted d.children → AreSorted (place_whiteout victim d).children
unfolding place_whiteout
place_whiteout-AreSorted [] d h = h
place_whiteout-AreSorted (c ∷ victim) d h =
    put_if_absent-AreSorted (c ∷ victim) d (get (c ∷ victim) d.children) h

mark_opaque-AreSorted :
    (segs : List Text) (d : Dir) → AreSorted d.children → AreSorted (mark_opaque segs d).children
mark_opaque-AreSorted [] d h = h
mark_opaque-AreSorted (seg ∷ segs) d h = h

apply_to_parent-IsOrdered :
    (upper : Dir) (hdr : Header) (base : Text) (segs : List Text) (d : Dir)
    → AreSorted d.children
    → IsOrdered (apply_to_parent upper hdr base segs d)
unfolding apply_to_parent
apply_to_parent-IsOrdered upper hdr base segs d h =
    by_name (text_eq base (codes ".wh..wh..opq")) (cut_prefix (codes ".wh.") base)
  where
    by_name :
        (b : Bool) (victim : Option Text)
        → IsOrdered
            (if b then some (mark_opaque segs d) else whiteout_or_entry upper hdr base d victim)
    by_name true victim = mark_opaque-AreSorted segs d h
    by_name false (some victim) = place_whiteout-AreSorted victim d h
    by_name false none = place_entry-IsOrdered hdr.typeflag upper hdr base d h

extract_at-AreSorted :
    (upper : Dir) (lowers : List Dir) (hdr : Header) (base : Text) (segs : List Text)
    → AreSorted upper.children
    → AreSorted (extract_at upper lowers hdr base segs).0.children
unfolding extract_at
extract_at-AreSorted upper lowers hdr base segs h =
    by_parent (mkparent lowers [] segs upper) (mkparent-AreSorted lowers [] segs upper h)
  where
    of_change :
        (made : Dir) (d : Option Dir)
        → AreSorted made.children
        → IsOrdered d
        → AreSorted (accepted made d).0.children
    of_change made none hm hd = hm
    of_change made (some changed) hm hd = hd

    by_parent :
        (p : Dir × Bool)
        → AreSorted p.0.children
        → AreSorted
            (if not p.1
              then (p.0, false)
              else accepted p.0 (change_at (apply_to_parent p.0 hdr base segs) segs p.0)).0.children
    by_parent (made, false) hm = hm
    by_parent (made, true) hm =
        of_change made (change_at (apply_to_parent made hdr base segs) segs made) hm (
          change_at-IsOrdered (apply_to_parent made hdr base segs) segs made
            (apply_to_parent-IsOrdered made hdr base segs) hm)

-- Adding an entry to a layer whose names are in order, each directory's names once, leaves a layer of
-- which that holds, whether or not the entry is accepted.
pub add-AreSorted :
    (l : Layer) (hdr : Header) → AreSorted l.root.children → AreSorted (add l hdr).0.root.children
unfolding extract
add-AreSorted l hdr h =
    by_tests (is_skipped (clean hdr.name)) (ltb max_path_len (length (clean hdr.name)))
      (root_path l.root (split_path (clean hdr.name)).0)
  where
    by_tests :
        (skipped long : Bool) (r : Result PathError Text)
        → AreSorted
            (if skipped
              then (l.root, true)
              else if long
              then (l.root, false)
              else extract_in l.root l.lowers hdr (split_path (clean hdr.name)).1 r).0.children
    by_tests true long r = h
    by_tests false true r = h
    by_tests false false (err e) = h
    by_tests false false (ok resolved) =
        extract_at-AreSorted l.root l.lowers hdr (split_path (clean hdr.name)).1
          (components resolved) h
