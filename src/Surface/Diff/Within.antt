-- ===== src/Surface/Diff/Within.antt =====
-- When DiffWidenings of spec/surface.go reports nothing.
use sandbox_kit_spec.Base.{
  ◌≡◌, refl, ap, ap₂, ◌∙◌, Bool, true, false, not, ◌&&◌, ◌||◌, List, [], ◌∷◌, ◌++◌, map, all,
  all-cong, not-any, filter, is_empty, is_empty-append, is_empty-filter, Text, has_text, arith,
}
use sandbox_kit_spec.Surface.{Surface, Widening, missing_from, before_cut}
use sandbox_kit_spec.Surface.Http.{
  parse_http_entry, is_covered, all_fresh, is_suppressed, http_widenings, http_deny_removals,
  complete_http_grants,
}
use sandbox_kit_spec.Surface.SshAgent.{is_granted, ssh_agent_widenings}
use sandbox_kit_spec.Surface.Diff.{
  widenings, privileged_widening, connection_widenings, request_widenings, local_widenings,
  diff_widenings,
}

-- Every text of the candidate is granted.
abbrev pub included : List Text → List Text → Bool
included granted candidate = all (has_text granted) candidate

-- Every HTTP entry is covered by one of the others.
abbrev pub covered : List Text → List Text → Bool
covered by entries = all (λ e. is_covered (map parse_http_entry by) (parse_http_entry e)) entries

-- No new connection, and no denied one less.
abbrev pub connections_within : Surface → Surface → Bool
connections_within g c =
    included g.network_install_allow c.network_install_allow
    && (included g.network_runtime_allow c.network_runtime_allow
        && (included c.network_install_deny g.network_install_deny
            && included c.network_runtime_deny g.network_runtime_deny))

abbrev pub requests_within : Surface → Surface → Bool
requests_within g c =
    covered (complete_http_grants g.network_install_allow g.network_install_http_allow)
      c.network_install_http_allow
    && (covered (complete_http_grants g.network_runtime_allow g.network_runtime_http_allow)
          c.network_runtime_http_allow
        && (covered c.network_install_http_deny g.network_install_http_deny
            && covered c.network_runtime_http_deny g.network_runtime_http_deny))

abbrev pub local_within : Surface → Surface → Bool
local_within g c =
    included g.credentials_install c.credentials_install
    && (included g.credentials_runtime c.credentials_runtime
        && (all (is_granted g.ssh_agent) c.ssh_agent
            && (included g.storage_paths c.storage_paths
                && (included g.skills_paths c.skills_paths
                    && (included g.skills_write_paths c.skills_write_paths
                        && (included g.ports c.ports
                            && (included g.usb c.usb
                                && ((not c.privileged || g.privileged)
                                    && included g.services c.services))))))))

abbrev pub within : Surface → Surface → Bool
within g c = connections_within g c && (requests_within g c && local_within g c)

twice_not : (b : Bool) → not (not b) ≡ b
twice_not true = refl
twice_not false = refl

filter-all {ℓ} :
    {A : Type ℓ} (p q : A → Bool)
    → ((x : A) → not (p x) ≡ q x)
    → (xs : List A) → is_empty (filter p xs) ≡ all q xs
filter-all p q e xs = is_empty-filter p xs ∙ not-any p xs ∙ all-cong (λ x. not (p x)) q e xs

filter-empty {ℓ} :
    {A : Type ℓ} (p : A → Bool) (xs : List A) → is_empty (filter (λ x. not (p x)) xs) ≡ all p xs
filter-empty p xs = filter-all (λ x. not (p x)) p (λ x. twice_not (p x)) xs

missing_from-empty :
    (granted candidate : List Text)
    → is_empty (missing_from granted candidate) ≡ included granted candidate
unfolding missing_from
missing_from-empty granted candidate = filter-empty (has_text granted) candidate

pub is_empty-nil {ℓ} : {A : Type ℓ} (xs : List A) → is_empty xs ≡ true → xs ≡ []
is_empty-nil [] h = refl
is_empty-nil (x ∷ xs) h = cc

none_missing :
    (granted candidate : List Text)
    → included granted candidate ≡ true
    → missing_from granted candidate ≡ []
none_missing granted candidate h =
    is_empty-nil (missing_from granted candidate) (missing_from-empty granted candidate ∙ h)

none_fresh : (name : Text) (hs : List Text) → all_fresh [] name false hs ≡ false
unfolding all_fresh has_text
none_fresh name [] = refl
none_fresh name (h ∷ hs) = ground (arith, none_fresh name hs)

-- Without a new host nothing is passed over.
none_suppressed : (hosts : List Text) (host : Text) → is_suppressed [] hosts host ≡ false
unfolding is_suppressed has_text
none_suppressed hosts host = ground (arith, none_fresh (before_cut b':' host) hosts)

http_widenings-empty :
    (granted_hosts candidate_hosts granted candidate : List Text)
    → included granted_hosts candidate_hosts ≡ true
    → is_empty (http_widenings granted_hosts candidate_hosts granted candidate)
      ≡ covered granted candidate
unfolding http_widenings is_suppressed
http_widenings-empty granted_hosts candidate_hosts granted candidate h =
    rw (none_missing granted_hosts candidate_hosts h) (
      filter-all
        (λ e.
          not (is_covered (map parse_http_entry granted) (parse_http_entry e))
          && not (is_suppressed [] candidate_hosts (parse_http_entry e).host))
        (λ e. is_covered (map parse_http_entry granted) (parse_http_entry e))
        (λ e. ground (arith, none_suppressed candidate_hosts (parse_http_entry e).host)) candidate)

http_deny_removals-empty :
    (granted_hosts candidate_hosts granted candidate : List Text)
    → included candidate_hosts granted_hosts ≡ true
    → is_empty (http_deny_removals granted_hosts candidate_hosts granted candidate)
      ≡ covered candidate granted
unfolding http_deny_removals has_text
http_deny_removals-empty granted_hosts candidate_hosts granted candidate h =
    rw (none_missing candidate_hosts granted_hosts h) (
      filter-all
        (λ e.
          not (has_text [] (parse_http_entry e).host)
          && not (is_covered (map parse_http_entry candidate) (parse_http_entry e)))
        (λ e. is_covered (map parse_http_entry candidate) (parse_http_entry e)) (λ e. ground arith)
        granted)

widenings-empty :
    (category : Text) (details : List Text)
    → is_empty (widenings category details) ≡ is_empty details
widenings-empty category [] = refl
widenings-empty category (d ∷ details) = refl

ssh_agent_widenings-empty :
    (granted candidate : List Text)
    → is_empty (ssh_agent_widenings granted candidate) ≡ all (is_granted granted) candidate
unfolding ssh_agent_widenings
ssh_agent_widenings-empty granted candidate = filter-empty (is_granted granted) candidate

privileged-empty : (g c : Bool) → is_empty (privileged_widening g c) ≡ (not c || g)
privileged-empty true true = refl
privileged-empty true false = refl
privileged-empty false true = refl
privileged-empty false false = refl

-- One category, and the ones behind it.
then_rest :
    (name : Text) (details : List Text) (rest : List Widening) {b c : Bool}
    → is_empty details ≡ b
    → is_empty rest ≡ c
    → is_empty (widenings name details ++ rest) ≡ (b && c)
then_rest name details rest h k =
    is_empty-append (widenings name details) rest ∙ ap₂ ◌&&◌ (widenings-empty name details ∙ h) k

last_one :
    (name : Text) (details : List Text) {b : Bool}
    → is_empty details ≡ b
    → is_empty (widenings name details) ≡ b
last_one name details h = widenings-empty name details ∙ h

connection_widenings-empty :
    (g c : Surface) → is_empty (connection_widenings g c) ≡ connections_within g c
connection_widenings-empty g c =
    then_rest _ _ _ (missing_from-empty g.network_install_allow c.network_install_allow) (
      then_rest _ _ _ (missing_from-empty g.network_runtime_allow c.network_runtime_allow) (
        then_rest _ _ _ (missing_from-empty c.network_install_deny g.network_install_deny)
          (last_one _ _ (missing_from-empty c.network_runtime_deny g.network_runtime_deny))))

request_widenings-empty :
    (g c : Surface)
    → connections_within g c ≡ true
    → is_empty (request_widenings g c) ≡ requests_within g c
request_widenings-empty g c h =
    then_rest _ _ _
      (http_widenings-empty g.network_install_allow c.network_install_allow _ _ (ground arith))
      (then_rest _ _ _
        (http_widenings-empty g.network_runtime_allow c.network_runtime_allow _ _ (ground arith))
        (then_rest _ _ _
          (http_deny_removals-empty g.network_install_deny c.network_install_deny _ _
            (ground arith))
          (last_one _ _ (
            http_deny_removals-empty g.network_runtime_deny c.network_runtime_deny _ _
              (ground arith)))))

local_widenings-empty : (g c : Surface) → is_empty (local_widenings g c) ≡ local_within g c
local_widenings-empty g c =
    then_rest _ _ _ (missing_from-empty g.credentials_install c.credentials_install) (
      then_rest _ _ _ (missing_from-empty g.credentials_runtime c.credentials_runtime) (
        then_rest _ _ _ (ssh_agent_widenings-empty g.ssh_agent c.ssh_agent) (
          then_rest _ _ _ (missing_from-empty g.storage_paths c.storage_paths) (
            then_rest _ _ _ (missing_from-empty g.skills_paths c.skills_paths) (
              then_rest _ _ _ (missing_from-empty g.skills_write_paths c.skills_write_paths) (
                then_rest _ _ _ (missing_from-empty g.ports c.ports) (
                  then_rest _ _ _ (missing_from-empty g.usb c.usb) (
                    is_empty-append (privileged_widening g.privileged c.privileged) _
                    ∙ ap₂ ◌&&◌ (privileged-empty g.privileged c.privileged)
                        (last_one _ _ (missing_from-empty g.services c.services))))))))))

and_within : (a b c d : Bool) → (a ≡ true → b ≡ c) → (a && (b && d)) ≡ (a && (c && d))
and_within true b c d h = ap (λ r. r && d) (h refl)
and_within false b c d h = refl

-- For any two surfaces: DiffWidenings reports nothing of the candidate if and only if it stays
-- within the granted one. That is: its allowed hosts, credentials, paths, ports, devices and services
-- are among the granted ones; each of its SSH grants is granted, by itself, by its phase or by its
-- host; it is privileged only if that is granted; each of its allowed requests is covered by a granted
-- one (a host that no rule bounds counting as every request); and the hosts that the grant denies are
-- denied, and each request that it denies is covered by a denied one.
pub diff_widenings-within : (g c : Surface) → is_empty (diff_widenings g c) ≡ within g c
unfolding diff_widenings
diff_widenings-within g c =
    is_empty-append (connection_widenings g c) (request_widenings g c ++ local_widenings g c)
    ∙ ap₂ ◌&&◌ (connection_widenings-empty g c) (
        is_empty-append (request_widenings g c) (local_widenings g c)
        ∙ ap₂ ◌&&◌ refl (local_widenings-empty g c))
    ∙ and_within (connections_within g c) _ _ _ (request_widenings-empty g c)
