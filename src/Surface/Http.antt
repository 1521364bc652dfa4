-- ===== src/Surface/Http.antt =====
-- HTTP grants of spec/surface.go: entries "<METHOD> <host><path>", when one covers another, and
-- what a candidate adds or drops.
use sandbox_kit_spec.Base.{
  Bool, false, not, ◌&&◌, ◌||◌, Option, none, some, List, [], ◌∷◌, ◌++◌, map, any, filter, is_empty,
  Text, codes, text_eq, has_text, cut, cut_suffix, has_prefix, has_suffix, if◌then◌else◌,
}
use sandbox_kit_spec.Surface.{missing_from, normalized, before_cut, after_cut, is_cut, strip_port}

abbrev pub method_any : Text
method_any = codes "ANY"

pub record HttpEntry : Type 0 where
  pub method : Text
  pub host : Text
  pub path : Text

unfoldable pub parse_http_entry : Text → HttpEntry
unfolding cut
parse_http_entry entry =
    let rest = after_cut b' ' entry in
    record {
      method = before_cut b' ' entry;
      host = before_cut b'/' rest;
      path = b'/' ∷ after_cut b'/' rest;
    }

unfoldable pub host_covers : Text → Text → Bool
unfolding text_eq cut
host_covers granting candidate =
    (text_eq granting (codes "*") || text_eq granting (codes "**"))
    || (text_eq (before_cut b':' granting) (before_cut b':' candidate)
        && (is_empty (after_cut b':' granting)
            || text_eq (after_cut b':' granting) (after_cut b':' candidate)))

abbrev pub prefix_covers : Option Text → Text → Bool
prefix_covers none candidate = false
prefix_covers (some prefix) candidate =
    has_suffix (codes "/") prefix
    && (has_prefix prefix candidate || text_eq (candidate ++ codes "/") prefix)

unfoldable pub path_pattern_covers : Text → Text → Bool
unfolding text_eq cut_suffix has_prefix has_suffix
path_pattern_covers granted candidate =
    text_eq granted candidate || prefix_covers (cut_suffix (codes "**") granted) candidate

-- One round of the loops over the entries that may cover.
unfoldable pub entry_covers : HttpEntry → HttpEntry → Bool
unfolding host_covers text_eq path_pattern_covers
entry_covers g c =
    host_covers g.host c.host
    && ((text_eq g.method c.method || text_eq g.method method_any)
        && path_pattern_covers g.path c.path)

unfoldable pub is_covered : List HttpEntry → HttpEntry → Bool
unfolding entry_covers
is_covered gs c = any (λ g. entry_covers g c) gs

-- The loop of `suppressed` over the hosts of the candidate.
unfoldable pub all_fresh : List Text → Text → Bool → List Text → Bool
unfolding has_text strip_port text_eq
all_fresh fresh name found [] = found
all_fresh fresh name found (h ∷ hs) =
    let mine = text_eq (strip_port h) name in
    let rest = all_fresh fresh name (found || mine) hs in
    if mine && not (has_text fresh h) then false else rest

unfoldable pub is_suppressed : List Text → List Text → Text → Bool
unfolding has_text all_fresh cut
is_suppressed fresh candidate_hosts entry_host =
    let name = before_cut b':' entry_host in
    if is_cut b':' entry_host
    then has_text fresh entry_host || has_text fresh name
    else all_fresh fresh name false candidate_hosts

unfoldable pub http_widenings : List Text → List Text → List Text → List Text → List Text
unfolding missing_from is_covered is_suppressed parse_http_entry filter
http_widenings granted_hosts candidate_hosts granted_http candidate_http =
    let fresh = missing_from granted_hosts candidate_hosts in
    let granted = map parse_http_entry granted_http in
    filter
      (λ e.
        let c = parse_http_entry e in
        not (is_covered granted c) && not (is_suppressed fresh candidate_hosts c.host))
      candidate_http

unfoldable pub http_deny_removals : List Text → List Text → List Text → List Text → List Text
unfolding missing_from is_covered parse_http_entry filter has_text
http_deny_removals granted_hosts candidate_hosts granted_deny candidate_deny =
    let dropped = missing_from candidate_hosts granted_hosts in
    let candidates = map parse_http_entry candidate_deny in
    filter
      (λ e.
        let g = parse_http_entry e in
        not (has_text dropped g.host) && not (is_covered candidates g))
      granted_deny

-- NetworkEntry of spec/types.go, and what an entry that states nothing means.
pub record NetworkEntry : Type 0 where
  pub hosts : List Text
  pub methods : List Text
  pub paths : List Text

unfoldable pub entry_methods : NetworkEntry → List Text
entry_methods e = if is_empty e.methods then method_any ∷ [] else e.methods

unfoldable pub entry_paths : NetworkEntry → List Text
entry_paths e = if is_empty e.paths then codes "/**" ∷ [] else e.paths

abbrev pub wild_methods : List Text → List Text
wild_methods methods = if has_text methods method_any then method_any ∷ [] else methods

abbrev pub method_entries : Text → Text → List Text → List Text
method_entries m host paths = map (λ p. m ++ (b' ' ∷ (host ++ p))) paths

unfoldable pub host_entries : Text → List Text → List Text → List Text
host_entries host [] paths = []
host_entries host (m ∷ ms) paths = method_entries m host paths ++ host_entries host ms paths

unfoldable pub hosts_entries : List Text → List Text → List Text → List Text
unfolding host_entries
hosts_entries [] ms paths = []
hosts_entries (h ∷ hs) ms paths = host_entries h ms paths ++ hosts_entries hs ms paths

unfoldable pub entry_surface : List NetworkEntry → List Text
unfolding hosts_entries entry_methods entry_paths has_text
entry_surface [] = []
entry_surface (e ∷ es) =
    hosts_entries e.hosts (wild_methods (entry_methods e)) (entry_paths e) ++ entry_surface es

unfoldable pub http_entry_host : Text → Text
unfolding cut
http_entry_host entry = before_cut b'/' (after_cut b' ' entry)

-- The hosts that no rule bounds, as entries.
unfoldable pub unbounded_entries : List Text → List Text → List NetworkEntry
unfolding has_text strip_port
unbounded_entries bounded [] = []
unbounded_entries bounded (h ∷ hs) =
    let rest = unbounded_entries bounded hs in
    if has_text bounded (strip_port h)
    then rest
    else record { hosts = h ∷ []; methods = []; paths = [] } ∷ rest

unfoldable pub complete_http_grants : List Text → List Text → List Text
unfolding unbounded_entries strip_port http_entry_host entry_surface normalized
complete_http_grants hosts grants =
    let bounded = map (λ entry. strip_port (http_entry_host entry)) grants in
    let entries = unbounded_entries bounded hosts in
    if is_empty entries then grants else normalized (grants ++ entry_surface entries)
