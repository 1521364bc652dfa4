-- ===== src/Inventory/Exclusive.antt =====
-- assemble/inventory.go: CheckCollisions finds every path that two kits contribute.
use sandbox_kit_spec.Base.{
  ◌≡◌, ◌↔◌, refl, sym, ap, ◌∙◌, Bool, true, false, not, ◌&&◌, ◌||◌, Option, none, some, List, [],
  ◌∷◌, all, all-cong, all-implies, is_empty, Text, text_eq, text_eq_iff, if◌then◌else◌, arith,
}
use sandbox_kit_spec.Inventory.Collisions.{
  Inventory, Owned, owner_of, collide, contribute, own_files, own_all, no_owners, collision_error,
  check_collisions,
}

-- Every path with the kit that contributes it.
unfoldable pub contributed_by : Text → List Text → List (Text × Text) → List (Text × Text)
contributed_by kit [] rest = rest
contributed_by kit (f ∷ fs) rest = (f, kit) ∷ contributed_by kit fs rest

unfoldable pub contributions : List Inventory → List (Text × Text)
unfolding contributed_by
contributions [] = []
contributions (inv ∷ invs) = contributed_by inv.kit inv.files (contributions invs)

-- No path is contributed by two kits.
abbrev pub is_compatible : Text → Text → Text × Text → Bool
is_compatible f kit (g, other) = not (text_eq g f) || text_eq kit other

abbrev pub is_exclusive : List (Text × Text) → Bool
is_exclusive [] = true
is_exclusive ((f, kit) ∷ cs) = all (is_compatible f kit) cs && is_exclusive cs

-- A contribution against the owner that its path has.
abbrev is_owner : Option Text → Text → Bool
is_owner none kit = true
is_owner (some prev) kit = text_eq prev kit

abbrev is_owned : List (Text × Text) → Text × Text → Bool
is_owned owners (f, kit) = is_owner (owner_of f owners) kit

-- The loops over the kits and their files as one loop.
abbrev own_each : List (Text × Text) → Owned → Owned
own_each [] o = o
own_each ((f, kit) ∷ cs) o = own_each cs (contribute kit f (owner_of f o.owners) o)

own_files-own_each :
    (kit : Text) (fs : List Text) (rest : List (Text × Text)) (o : Owned)
    → own_each (contributed_by kit fs rest) o ≡ own_each rest (own_files kit fs o)
unfolding own_files contributed_by
own_files-own_each kit [] rest o = refl
own_files-own_each kit (f ∷ fs) rest o =
    own_files-own_each kit fs rest (contribute kit f (owner_of f o.owners) o)

own_all-own_each :
    (invs : List Inventory) (o : Owned) → own_each (contributions invs) o ≡ own_all invs o
unfolding own_all contributions
own_all-own_each [] o = refl
own_all-own_each (inv ∷ invs) o =
    own_files-own_each inv.kit inv.files (contributions invs) o
    ∙ own_all-own_each invs (own_files inv.kit inv.files o)

is_empty-collide :
    (f prev kit : Text) (cs : List (Text × List Text)) → is_empty (collide f prev kit cs) ≡ false
unfolding collide
is_empty-collide f prev kit [] = refl
is_empty-collide f prev kit (c ∷ cs) = ground arith

-- A collision stays.
is_empty-own_each :
    (cs : List (Text × Text)) (o : Owned)
    → is_empty o.collisions ≡ false
    → is_empty (own_each cs o).collisions ≡ false
is_empty-own_each [] o h = h
is_empty-own_each ((f, kit) ∷ cs) o h = by_owner (owner_of f o.owners) (is_empty-own_each cs)
  where
    by_owner :
        (w : Option Text)
        → ((p : Owned)
            → is_empty p.collisions ≡ false
            → is_empty (own_each cs p).collisions ≡ false)
        → is_empty (own_each cs (contribute kit f w o)).collisions ≡ false
    by_owner none rest = rest (contribute kit f none o) h
    by_owner (some prev) rest =
        rest (contribute kit f (some prev) o)
          (ground (arith, is_empty-collide f prev kit o.collisions))

-- A new owner, against a contribution.
is_owned-new :
    (f kit : Text) (owners : List (Text × Text)) (c : Text × Text)
    → owner_of f owners ≡ none
    → is_owned ((f, kit) ∷ owners) c ≡ (is_owned owners c && is_compatible f kit c)
unfolding owner_of
is_owned-new f kit owners (g, other) h =
    ground (arith, text_eq_iff g f, ap (λ t. owner_of t owners))

all-both :
    (p q : Text × Text → Bool) (cs : List (Text × Text))
    → all (λ c. p c && q c) cs ≡ (all p cs && all q cs)
all-both p q [] = refl
all-both p q (c ∷ cs) = ground (arith, all-both p q cs)

-- What agrees with the owner of a path agrees with a contribution of that owner.
is_owned-compatible :
    (f kit prev : Text) (owners : List (Text × Text)) (c : Text × Text)
    → owner_of f owners ≡ some prev
    → text_eq prev kit ≡ true
    → is_owned owners c ≡ true
    → is_compatible f kit c ≡ true
is_owned-compatible f kit prev owners (g, other) h same owned = ground (
  arith,
  text_eq_iff g f,
  text_eq_iff prev kit,
  ap (λ t. owner_of t owners),
  ap (λ t. text_eq t other),
)

own_each-is_exclusive :
    (cs : List (Text × Text)) (o : Owned)
    → is_empty o.collisions ≡ true
    → is_empty (own_each cs o).collisions ≡ (all (is_owned o.owners) cs && is_exclusive cs)
own_each-is_exclusive [] o h = h
own_each-is_exclusive ((f, kit) ∷ cs) o h =
    by_owner (owner_of f o.owners) refl (own_each-is_exclusive cs)
  where
    by_same :
        (prev : Text) (b : Bool)
        → owner_of f o.owners ≡ some prev
        → text_eq prev kit ≡ b
        → (is_empty o.collisions ≡ true
            → is_empty (own_each cs o).collisions ≡ (all (is_owned o.owners) cs && is_exclusive cs))
        → is_empty
            (own_each cs (record {
              owners = o.owners;
              collisions = if b then o.collisions else collide f prev kit o.collisions;
            })).collisions
          ≡ ((b && all (is_owned o.owners) cs) && (all (is_compatible f kit) cs && is_exclusive cs))
    by_same prev true e same rest = ground (
      arith,
      rest h,
      all-implies (is_owned o.owners) (is_compatible f kit) cs
          (λ c. is_owned-compatible f kit prev o.owners c e same),
    )
    by_same prev false e same rest =
        is_empty-own_each cs
          (record { owners = o.owners; collisions = collide f prev kit o.collisions })
          (is_empty-collide f prev kit o.collisions)

    by_owner :
        (w : Option Text)
        → owner_of f o.owners ≡ w
        → ((p : Owned)
            → is_empty p.collisions ≡ true
            → is_empty (own_each cs p).collisions ≡ (all (is_owned p.owners) cs && is_exclusive cs))
        → is_empty (own_each cs (contribute kit f w o)).collisions ≡ (
            (is_owner w kit && all (is_owned o.owners) cs)
            && (all (is_compatible f kit) cs && is_exclusive cs))
    by_owner none e rest = ground (
      arith,
      rest (contribute kit f none o) h,
      all-cong (is_owned ((f, kit) ∷ o.owners)) (λ c. is_owned o.owners c && is_compatible f kit c)
          (λ c. is_owned-new f kit o.owners c e) cs,
      all-both (is_owned o.owners) (is_compatible f kit) cs,
    )
    by_owner (some prev) e rest = by_same prev (text_eq prev kit) e refl (rest o)

all-unowned : (cs : List (Text × Text)) → all (is_owned []) cs ≡ true
unfolding owner_of
all-unowned [] = refl
all-unowned (c ∷ cs) = all-unowned cs

-- The check of a composition passes exactly when no path is contributed by two kits.
pub check_collisions-is_exclusive :
    (invs : List Inventory)
    → (check_collisions invs ≡ none) ↔ (is_exclusive (contributions invs) ≡ true)
unfolding check_collisions
check_collisions-is_exclusive invs = by_collisions (own_all invs no_owners).collisions (
    sym (ap (λ o. is_empty o.collisions) (own_all-own_each invs no_owners))
    ∙ own_each-is_exclusive (contributions invs) no_owners refl)
  where
    by_collisions :
        (cs : List (Text × List Text))
        → is_empty cs
          ≡ (all (is_owned []) (contributions invs) && is_exclusive (contributions invs))
        → (collision_error cs ≡ none) ↔ (is_exclusive (contributions invs) ≡ true)
    by_collisions [] h = ground (arith, all-unowned (contributions invs))
    by_collisions (c ∷ cs) h = ground (arith, all-unowned (contributions invs))
