-- ===== src/Resolve/Order.antt =====
-- The composition order of resolve/resolve.go: `order`, a topological sort along the capability
-- edges in which the smallest reference goes first among the units that are ready.
pub mod Members
pub mod Pending
pub mod Release
pub mod Choice
pub mod Loop
pub mod Composed
use sandbox_kit_spec.Base.{
  ℕ, zero, suc, ◌+◌, ◌-◌, Bool, true, false, not, ◌&&◌, ◌||◌, Option, none, some, List, [], ◌∷◌,
  ◌++◌, map, length, Text, compare_text, sort_texts, is_gt, ltb, ◌==◌, if◌then◌else◌, Result, ok,
  err, any,
}
use sandbox_kit_spec.Resolve.Kit.{Kit}

-- `dependent` requires or integrates with `provider`.
pub record Edge : Type 0 where
  pub provider : Kit
  pub dependent : Kit

-- Pointer equality.
abbrev pub same : Kit → Kit → Bool
same u v = u.address == v.address

-- u is one of the units.
unfoldable pub has : List Kit → Kit → Bool
has [] u = false
has (v ∷ vs) u = same v u || has vs u

-- dependents[u], in the order in which they were appended
unfoldable pub dependents : List Edge → Kit → List Kit
dependents [] u = []
dependents (e ∷ es) u =
    let rest = dependents es u in if same e.provider u then e.dependent ∷ rest else rest

-- indegree as the first loop leaves it
abbrev pub Degrees : Type 0
Degrees = ℕ → ℕ

unfoldable pub indegree : List Edge → Degrees
indegree [] a = 0
indegree (e ∷ es) a = if e.dependent.address == a then suc (indegree es a) else indegree es a

-- indegree[u]--
abbrev pub decrement : Degrees → Kit → Degrees
decrement deg u a = if u.address == a then deg a - 1 else deg a

-- sort.Slice by reference
abbrev insert_unless : Bool → Kit → Kit → List Kit → List Kit → List Kit
insert_unless b u v vs rest = if b then v ∷ rest else u ∷ v ∷ vs

unfoldable pub insert_kit : Kit → List Kit → List Kit
unfolding compare_text
insert_kit u [] = u ∷ []
insert_kit u (v ∷ vs) =
    insert_unless (is_gt (compare_text u.reference v.reference)) u v vs (insert_kit u vs)

unfoldable pub sort_kits : List Kit → List Kit
unfolding insert_kit
sort_kits [] = []
sort_kits (u ∷ us) = insert_kit u (sort_kits us)

pub record Queue : Type 0 where
  pub degrees : Degrees
  pub ready : List Kit

-- The loop over the dependents of the unit that was taken.
abbrev pub release_one : Kit → Queue → Queue
release_one u q =
    let deg = decrement q.degrees u in
    record { degrees = deg; ready = if deg u.address == 0 then q.ready ++ u ∷ [] else q.ready }

unfoldable pub release : List Kit → Queue → Queue
release [] q = q
release (u ∷ us) q = release us (release_one u q)

pub record Sorted : Type 0 where
  pub degrees : Degrees
  pub ordered : List Kit

-- The main loop, on the sorted queue.
abbrev pub advance :
    (Queue → List Kit → Option Sorted) → List Edge → Degrees → List Kit → List Kit → Option Sorted
advance loop es deg [] ordered = some (record { degrees = deg; ordered = ordered })
advance loop es deg (next ∷ rest) ordered =
    loop (release (dependents es next) (record { degrees = deg; ready = rest }))
      (ordered ++ next ∷ [])

unfoldable pub sort_loop : ℕ → List Edge → Queue → List Kit → Option Sorted
unfolding release dependents sort_kits
sort_loop zero es q ordered = none
sort_loop (suc fuel) es q ordered =
    advance (λ q' o. sort_loop fuel es q' o) es q.degrees (sort_kits q.ready) ordered

-- The units with no provider among the units.
unfoldable pub sources : Degrees → List Kit → List Kit
sources deg [] = []
sources deg (u ∷ us) = let rest = sources deg us in if deg u.address == 0 then u ∷ rest else rest

unfoldable pub blocked : Degrees → List Kit → List Kit
blocked deg [] = []
blocked deg (u ∷ us) = let rest = blocked deg us in if ltb 0 (deg u.address) then u ∷ rest else rest

pub data OrderError : Type 0 where
  cycle : List Text → OrderError
  out_of_fuel : OrderError

abbrev pub references : List Kit → List Text
references us = map (λ (u : Kit). u.reference) us

abbrev pub finish : List Kit → Option Sorted → Result OrderError (List Kit)
finish us none = err out_of_fuel
finish us (some s) =
    if length s.ordered == length us
    then ok s.ordered
    else err (cycle (sort_texts (references (blocked s.degrees us))))

-- The loop takes each unit once, and finds the queue empty at its last round.
unfoldable pub order_edges : List Kit → List Edge → Result OrderError (List Kit)
unfolding sort_loop indegree sources blocked sort_texts
order_edges us es =
    let start : Queue = record { degrees = indegree es; ready = sources (indegree es) us } in
    finish us (sort_loop (suc (length us)) es start [])
