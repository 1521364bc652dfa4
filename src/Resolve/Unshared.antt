-- ===== src/Resolve/Unshared.antt =====
-- What it means that a name, or a credential, has one owner: the checks of resolve/resolve.go over
-- the keys of their maps, as tests of every entry.
use sandbox_kit_spec.Base.{
  has_text, ◌≡◌, refl, sym, ap, ap₂, subst, ◌∙◌, Bool, true, false, not, ◌&&◌, ◌||◌, List, [], ◌∷◌,
  ◌++◌, map, length, all, all-cong, all-append, all-within, not-any, is_empty, is_empty-filter,
  filter, Text, text_eq, text_eq_iff, sort_texts, insert_text, ltb, leb, arith, Bool-cases, inl,
  inr,
}
use sandbox_kit_spec.Resolve.Kit.{Kit, Provider}
use sandbox_kit_spec.Resolve.Provides.{provides_named}
use sandbox_kit_spec.Resolve.Problem.{many_owners, many_credentials}
use sandbox_kit_spec.Resolve.Owners.{
  first_offers, offers, provided_names, is_contested, check_one_provider_per_name, Owner,
  all_owners, same_key, owners_of, has_key, credential_keys, insert_key, sort_keys,
  check_one_credential_owner,
}
use sandbox_kit_spec.Resolve.Order.{same, has}

is_empty-map {ℓ κ} :
    {A : Type ℓ} {B : Type κ} (f : A → B) (xs : List A) → is_empty (map f xs) ≡ is_empty xs
is_empty-map f [] = refl
is_empty-map f (x ∷ xs) = refl

insert_text-empty : (t : Text) (ts : List Text) → is_empty (insert_text t ts) ≡ false
unfolding insert_text
insert_text-empty t [] = refl
insert_text-empty t (s ∷ ts) = ground arith

sort_texts-empty : (ts : List Text) → is_empty (sort_texts ts) ≡ is_empty ts
unfolding sort_texts
sort_texts-empty [] = refl
sort_texts-empty (t ∷ ts) = insert_text-empty t (sort_texts ts)

insert_key-empty : (k : Owner) (os : List Owner) → is_empty (insert_key k os) ≡ false
unfolding insert_key
insert_key-empty k [] = refl
insert_key-empty k (o ∷ os) = ground arith

sort_keys-empty : (os : List Owner) → is_empty (sort_keys os) ≡ is_empty os
unfolding sort_keys
sort_keys-empty [] = refl
sort_keys-empty (o ∷ os) = insert_key-empty o (sort_keys os)

-- Every provider of the name is of the unit.
abbrev pub owned_by : Kit → Text → Provider → Bool
owned_by u name q = not (text_eq q.provide.name name) || same q.kit u

-- Providers of one name are of one unit.
abbrev pub names_unshared : List Provider → Bool
names_unshared ps = all (λ (p : Provider). all (owned_by p.kit p.provide.name) ps) ps

same_comm : (u v : Kit) → same u v ≡ same v u
same_comm u v = ground arith

first_offers-empty :
    (seen : List Kit) (qs : List Provider)
    → is_empty (first_offers seen qs) ≡ all (λ (q : Provider). has seen q.kit) qs
unfolding first_offers
first_offers-empty seen [] = refl
first_offers-empty seen (q ∷ qs) = ground (arith, first_offers-empty seen qs)

at_most_one {ℓ} : {A : Type ℓ} (x : A) (xs : List A) → not (ltb 1 (length (x ∷ xs))) ≡ is_empty xs
at_most_one x [] = refl
at_most_one x (y ∷ xs) = ground arith

first_offers-one :
    (q : Provider) (qs : List Provider)
    → not (ltb 1 (length (first_offers [] (q ∷ qs)))) ≡ all (λ (r : Provider). same q.kit r.kit) qs
unfolding first_offers has
first_offers-one q qs =
    at_most_one q (first_offers (q.kit ∷ []) qs)
    ∙ first_offers-empty (q.kit ∷ []) qs
    ∙ all-cong (λ (r : Provider). has (q.kit ∷ []) r.kit) (λ (r : Provider). same q.kit r.kit)
        (λ r. ground arith) qs

-- One of the providers is as good as the first to compare the others with.
first_offers-any :
    (left : List Provider) (p : Provider) (right : List Provider)
    → not (ltb 1 (length (first_offers [] (left ++ p ∷ right))))
      ≡ all (λ (q : Provider). same q.kit p.kit) (left ++ p ∷ right)
first_offers-any [] p right =
    first_offers-one p right
    ∙ all-cong (λ (r : Provider). same p.kit r.kit) (λ (q : Provider). same q.kit p.kit)
        (λ r. same_comm p.kit r.kit) right
    ∙ (ground arith)
first_offers-any (n ∷ left) p right =
    first_offers-one n (left ++ p ∷ right) ∙ elim (Bool-cases (same n.kit p.kit)) [
      | inl e ↦
          all-cong (λ (r : Provider). same n.kit r.kit) (λ (q : Provider). same q.kit p.kit)
            (λ r. ground arith) (left ++ p ∷ right)
          ∙ (ground arith)
      | inr e ↦ all-append (λ (r : Provider). same n.kit r.kit) left (p ∷ right) ∙ (ground arith)
    ]

all-has_text :
    (f : Text → Bool) (seen : List Text) (t : Text)
    → all f seen ≡ true
    → has_text seen t ≡ true
    → f t ≡ true
unfolding has_text
all-has_text f [] t h k = cc
all-has_text f (s ∷ seen) t h k = elim (Bool-cases (text_eq s t)) [
  | inl e ↦ sym (ap f ((text_eq_iff s t).0 e)) ∙ ground arith
  | inr e ↦ all-has_text f seen t (ground arith) (ground arith)
]

-- A test of the keys is a test of every provider's name.
provided_names-all :
    (f : Text → Bool) (seen : List Text) (ps : List Provider)
    → all f seen ≡ true
    → all f (provided_names seen ps) ≡ all (λ (p : Provider). f p.provide.name) ps
unfolding provided_names
provided_names-all f seen [] h = refl
provided_names-all f seen (p ∷ ps) h = elim (Bool-cases (has_text seen p.provide.name)) [
  | inl e ↦ rw e (rw (all-has_text f seen p.provide.name h e) (provided_names-all f seen ps h))
  | inr e ↦ rw e (elim (Bool-cases (f p.provide.name)) [
    | inl g ↦ rw g (provided_names-all f (p.provide.name ∷ seen) ps (rw (g, h) refl))
    | inr g ↦ rw g refl
  ])
]

text_eq_self : (t : Text) → text_eq t t ≡ true
text_eq_self t = (text_eq_iff t t).1 refl

provides_named-append :
    (name : Text) (ps qs : List Provider)
    → provides_named name (ps ++ qs) ≡ provides_named name ps ++ provides_named name qs
unfolding provides_named filter
provides_named-append name [] qs = refl
provides_named-append name (p ∷ ps) qs = ground (arith, provides_named-append name ps qs)

provides_named-all :
    (u : Kit) (name : Text) (ps : List Provider)
    → all (λ (q : Provider). same q.kit u) (provides_named name ps) ≡ all (owned_by u name) ps
unfolding provides_named filter
provides_named-all u name [] = refl
provides_named-all u name (p ∷ ps) = ground (arith, provides_named-all u name ps)

provides_named-member :
    (left : List Provider) (p : Provider) (right : List Provider)
    → provides_named p.provide.name (left ++ p ∷ right)
      ≡ provides_named p.provide.name left ++ p ∷ provides_named p.provide.name right
unfolding provides_named filter
provides_named-member left p right =
    provides_named-append p.provide.name left (p ∷ right)
    ∙ ap (λ rest. provides_named p.provide.name left ++ rest)
        (rw (text_eq_self p.provide.name) refl)

is_contested-member :
    (left : List Provider) (p : Provider) (right : List Provider)
    → not (is_contested (left ++ p ∷ right) p.provide.name)
      ≡ all (owned_by p.kit p.provide.name) (left ++ p ∷ right)
unfolding is_contested offers
is_contested-member left p right =
    let name = p.provide.name in
    ap (λ qs. not (ltb 1 (length (first_offers [] qs)))) (provides_named-member left p right)
    ∙ first_offers-any (provides_named name left) p (provides_named name right)
    ∙ ap (all (λ (q : Provider). same q.kit p.kit)) (sym (provides_named-member left p right))
    ∙ provides_named-all p.kit name (left ++ p ∷ right)

-- Nothing is reported of the providers if and only if those of one name are of one unit.
pub check_one_provider_per_name-empty :
    (ps : List Provider) → is_empty (check_one_provider_per_name ps) ≡ names_unshared ps
unfolding check_one_provider_per_name
check_one_provider_per_name-empty ps =
    is_empty-map (λ name. many_owners name (offers name ps))
      (sort_texts (filter (is_contested ps) (provided_names [] ps)))
    ∙ sort_texts-empty (filter (is_contested ps) (provided_names [] ps))
    ∙ is_empty-filter (is_contested ps) (provided_names [] ps)
    ∙ not-any (is_contested ps) (provided_names [] ps)
    ∙ provided_names-all (λ name. not (is_contested ps name)) [] ps refl
    ∙ all-within (λ (p : Provider). not (is_contested ps p.provide.name))
        (λ (p : Provider). all (owned_by p.kit p.provide.name) ps) [] ps
        (λ l p r e.
          subst
            (λ qs. not (is_contested qs p.provide.name) ≡ all (owned_by p.kit p.provide.name) qs) e
            (is_contested-member l p r))

-- No other credential has the service and the phase.
abbrev pub is_sole : List Owner → Owner → Bool
is_sole os k = leb (length (owners_of k os)) 1

-- Each credential is declared once.
abbrev pub credentials_unshared : List Kit → Bool
credentials_unshared us = all (is_sole (all_owners us)) (all_owners us)

is_sole-cong : (os : List Owner) (j k : Owner) → same_key j k ≡ true → is_sole os j ≡ is_sole os k
unfolding owners_of filter
is_sole-cong os j k h =
    let s : j.service ≡ k.service = (text_eq_iff j.service k.service).0 (ground arith) in
    let p : j.phase ≡ k.phase = (text_eq_iff j.phase k.phase).0 (ground arith) in
    ap₂
      (λ service phase.
        leb (length (filter (λ (o : Owner). text_eq o.service service && text_eq o.phase phase) os))
          1)
      s p

all-has_key :
    (os seen : List Owner) (k : Owner)
    → all (is_sole os) seen ≡ true
    → has_key seen k ≡ true
    → is_sole os k ≡ true
unfolding has_key
all-has_key os [] k h t = cc
all-has_key os (o ∷ seen) k h t = elim (Bool-cases (same_key o k)) [
  | inl e ↦ sym (is_sole-cong os o k e) ∙ ground arith
  | inr e ↦ all-has_key os seen k (ground arith) (ground arith)
]

credential_keys-all :
    (os seen ks : List Owner)
    → all (is_sole os) seen ≡ true
    → all (is_sole os) (credential_keys seen ks) ≡ all (is_sole os) ks
unfolding credential_keys
credential_keys-all os seen [] h = refl
credential_keys-all os seen (k ∷ ks) h = elim (Bool-cases (has_key seen k)) [
  | inl e ↦ rw e (rw (all-has_key os seen k h e) (credential_keys-all os seen ks h))
  | inr e ↦ rw e (elim (Bool-cases (is_sole os k)) [
    | inl g ↦ rw g (credential_keys-all os (k ∷ seen) ks (rw (g, h) refl))
    | inr g ↦ rw g refl
  ])
]

is_sole-count : (os : List Owner) (k : Owner) → not (ltb 1 (length (owners_of k os))) ≡ is_sole os k
is_sole-count os k = ground arith

-- Nothing is reported of the credentials if and only if each is declared once.
pub check_one_credential_owner-empty :
    (us : List Kit) → is_empty (check_one_credential_owner us) ≡ credentials_unshared us
unfolding check_one_credential_owner
check_one_credential_owner-empty us =
    let os = all_owners us in
    let shared = λ (k : Owner). ltb 1 (length (owners_of k os)) in
    is_empty-map
      (λ (k : Owner).
        many_credentials k.service k.phase (map (λ (o : Owner). o.reference) (owners_of k os)))
      (sort_keys (filter shared (credential_keys [] os)))
    ∙ sort_keys-empty (filter shared (credential_keys [] os))
    ∙ is_empty-filter shared (credential_keys [] os)
    ∙ not-any shared (credential_keys [] os)
    ∙ all-cong (λ (k : Owner). not (ltb 1 (length (owners_of k os)))) (is_sole os)
        (is_sole-count os) (credential_keys [] os)
    ∙ credential_keys-all os [] os refl
