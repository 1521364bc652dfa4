-- ===== src/Surface/Diff/Unchanged.antt =====
-- An unchanged surface, and one that is granted more, ask for no approval.
use sandbox_kit_spec.Base.{
  ◌≡◌, refl, ap, ap₂, ◌∙◌, Bool, true, false, not, ◌&&◌, ◌||◌, List, [], ◌∷◌, ◌++◌, map, all,
  all-implies, is_empty, Text, text_eq, text_eq_iff, has_text, unique, insert_text, sort_texts,
  arith, Bool-cases, inl, inr,
}
use sandbox_kit_spec.Surface.{Surface, normalized, strip_port, before_cut, after_cut}
use sandbox_kit_spec.Surface.Http.{
  HttpEntry, parse_http_entry, host_covers, path_pattern_covers, entry_covers, is_covered,
  complete_http_grants, entry_surface, unbounded_entries, http_entry_host,
}
use sandbox_kit_spec.Surface.SshAgent.{is_granted}
use sandbox_kit_spec.Surface.Diff.{diff_widenings}
use sandbox_kit_spec.Surface.Diff.Within.{
  included, covered, within, diff_widenings-within, is_empty-nil,
}

text_eq_self : (t : Text) → text_eq t t ≡ true
text_eq_self t = (text_eq_iff t t).1 refl

included_self : (ts : List Text) → included ts ts ≡ true
unfolding has_text
included_self [] = refl
included_self (t ∷ ts) =
    ap₂ ◌&&◌ (ap (λ b. b || has_text ts t) (text_eq_self t)) (
      all-implies (has_text ts) (has_text (t ∷ ts)) ts (λ s h. ground (arith, h))
        (included_self ts))

entry_covers_self : (e : HttpEntry) → entry_covers e e ≡ true
unfolding entry_covers host_covers path_pattern_covers
entry_covers_self e = ground (
  arith,
  text_eq_self e.host,
  text_eq_self e.method,
  text_eq_self e.path,
  text_eq_self (before_cut b':' e.host),
  text_eq_self (after_cut b':' e.host),
)

has_text-is_covered :
    (gs : List Text) (e : Text)
    → has_text gs e ≡ true
    → is_covered (map parse_http_entry gs) (parse_http_entry e) ≡ true
unfolding has_text is_covered
has_text-is_covered [] e h = cc
has_text-is_covered (g ∷ gs) e h = elim (Bool-cases (text_eq g e)) [
  | inl t ↦
      let same_entry : parse_http_entry g ≡ parse_http_entry e =
        ap parse_http_entry ((text_eq_iff g e).0 t) in
      ground (
        arith,
        ap (λ x. entry_covers x (parse_http_entry e)) same_entry,
        entry_covers_self (parse_http_entry e),
      )
  | inr f ↦ ground (arith, has_text-is_covered gs e)
]

insert-has_text :
    (t : Text) (ts : List Text) (s : Text)
    → has_text (insert_text t ts) s ≡ (text_eq t s || has_text ts s)
unfolding insert_text has_text
insert-has_text t [] s = refl
insert-has_text t (u ∷ ts) s = ground (arith, insert-has_text t ts s)

sort-has_text : (ts : List Text) (s : Text) → has_text (sort_texts ts) s ≡ has_text ts s
unfolding sort_texts has_text
sort-has_text [] s = refl
sort-has_text (t ∷ ts) s =
    insert-has_text t (sort_texts ts) s ∙ ap (λ b. text_eq t s || b) (sort-has_text ts s)

unique-has_text :
    (seen ts : List Text) (s : Text)
    → has_text ts s ≡ true
    → (has_text seen s || has_text (unique seen ts) s) ≡ true
unfolding unique has_text
unique-has_text seen [] s h = cc
unique-has_text seen (t ∷ ts) s h = elim (Bool-cases (text_eq t s)) [
  | inl e ↦
      let same_text : has_text seen t ≡ has_text seen s =
        ap (has_text seen) ((text_eq_iff t s).0 e) in
      ground arith
  | inr e ↦ elim (Bool-cases (has_text seen t)) [
    | inl k ↦ rw k (unique-has_text seen ts s (ground arith))
    | inr k ↦ rw k (ground (arith, unique-has_text (t ∷ seen) ts s))
  ]
]

append-has_text :
    (ts us : List Text) (s : Text) → has_text (ts ++ us) s ≡ (has_text ts s || has_text us s)
unfolding has_text
append-has_text [] us s = refl
append-has_text (t ∷ ts) us s = ground (arith, append-has_text ts us s)

normalized-has_text :
    (ts : List Text) (s : Text) → has_text ts s ≡ true → has_text (normalized ts) s ≡ true
unfolding normalized
normalized-has_text ts s h =
    sort-has_text (unique [] ts) s ∙ unfold has_text in unique-has_text [] ts s h

complete-included :
    (hosts grants : List Text) → included (complete_http_grants hosts grants) grants ≡ true
unfolding complete_http_grants
complete-included hosts grants =
    let entries =
      unbounded_entries (map (λ entry. strip_port (http_entry_host entry)) grants) hosts in
    elim (Bool-cases (is_empty entries)) [
      | inl e ↦ rw e (included_self grants)
      | inr e ↦ rw e (
          all-implies (has_text grants) (has_text (normalized (grants ++ entry_surface entries)))
            grants
            (λ s h. normalized-has_text (grants ++ entry_surface entries) s (
              append-has_text grants (entry_surface entries) s
              ∙ ap (λ b. b || has_text (entry_surface entries) s) h))
            (included_self grants))
    ]

covered-included : (by entries : List Text) → included by entries ≡ true → covered by entries ≡ true
covered-included by entries h =
    all-implies (has_text by) (λ e. is_covered (map parse_http_entry by) (parse_http_entry e))
      entries (λ e k. has_text-is_covered by e k) h

granted_self : (ts : List Text) → all (is_granted ts) ts ≡ true
unfolding is_granted
granted_self ts =
    all-implies (has_text ts) (is_granted ts) ts (λ s h. ground (arith, h)) (included_self ts)

privileged_self : (b : Bool) → (not b || b) ≡ true
privileged_self true = refl
privileged_self false = refl

within_self : (s : Surface) → within s s ≡ true
within_self s =
    rw
      (
        included_self s.network_install_allow,
        included_self s.network_runtime_allow,
        included_self s.network_install_deny,
        included_self s.network_runtime_deny,
        covered-included (complete_http_grants s.network_install_allow s.network_install_http_allow)
            s.network_install_http_allow
            (complete-included s.network_install_allow s.network_install_http_allow),
        covered-included (complete_http_grants s.network_runtime_allow s.network_runtime_http_allow)
            s.network_runtime_http_allow
            (complete-included s.network_runtime_allow s.network_runtime_http_allow),
        covered-included s.network_install_http_deny s.network_install_http_deny
            (included_self s.network_install_http_deny),
        covered-included s.network_runtime_http_deny s.network_runtime_http_deny
            (included_self s.network_runtime_http_deny),
        included_self s.credentials_install,
        included_self s.credentials_runtime,
        granted_self s.ssh_agent,
        included_self s.storage_paths,
        included_self s.skills_paths,
        included_self s.skills_write_paths,
        included_self s.ports,
        included_self s.usb,
        privileged_self s.privileged,
        included_self s.services,
      )
      refl

-- A surface that is compared with itself asks for nothing more, whatever its entries are.
pub diff_widenings_self : (s : Surface) → diff_widenings s s ≡ []
diff_widenings_self s =
    is_empty-nil (diff_widenings s s) (diff_widenings-within s s ∙ within_self s)
