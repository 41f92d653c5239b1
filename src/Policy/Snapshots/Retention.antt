-- ===== src/Policy/Snapshots/Retention.antt =====
-- A snapshot that is current or retained stays (packages/policy/src/snapshot.ts).
use steelyard_sdk.Base.{
  ℕ, ◌+◌, ◌-◌, ◌≡◌, refl, sym, ap, ◌∙◌, String, Bool, true, false, not, ◌&&◌, Option, some, none,
  List, [], ◌∷◌, ◌==◌, if◌then◌else◌, is_some, str_eq, str_eq_iff, str_eq_refl, ok, arith, inl, inr,
  Bool-cases, Option-cases,
}
use steelyard_sdk.Base.Maps.{
  Dict, lookup, insert, erase, lookup-insert, lookup-erase, lookup-insert_self, UniqueKeys,
  insert-UniqueKeys,
}
use steelyard_sdk.Policy.Evaluator.{ResolvedPolicy}
use steelyard_sdk.Policy.Snapshots.{
  PolicySnapshot, SnapshotStore, empty_store, add, retain, release, is_current, gc_loop, gc,
}

-- A snapshot and its count are kept together, and the current hash has a snapshot.
abbrev pub Paired : SnapshotStore → Type 0
Paired s = (h : String) → is_some (lookup h s.snapshots) ≡ is_some (lookup h s.refcounts)

abbrev CurrentIn : Dict PolicySnapshot → Option String → Type 0
CurrentIn m none = Unit
CurrentIn m (some h) = is_some (lookup h m) ≡ true

pub record IsConsistent (s : SnapshotStore) : Type 0 where
  pub paired : Paired s
  pub current : CurrentIn s.snapshots s.current_hash

pub empty-IsConsistent : IsConsistent empty_store
unfolding lookup
empty-IsConsistent = record { paired = λ h. refl; current = tt }

-- Loading a policy keeps a consistent store consistent.
pub add-IsConsistent :
    (hash_of : ResolvedPolicy → String) (policy : ResolvedPolicy) (yaml : String)
    (s : SnapshotStore)
    → IsConsistent s
    → IsConsistent (add hash_of policy yaml s)
unfolding add
add-IsConsistent hash_of policy yaml s c =
    elim (Bool-cases (is_some (lookup (hash_of policy) s.snapshots))) [
      | inl known ↦ rw (known, add) (record { paired = c.paired; current = known })
      | inr fresh ↦
          rw (fresh, add)
            (record {
              paired = λ h. rw (lookup-insert, lookup-insert) (ground (arith, c.paired h));
              current = rw lookup-insert_self;
            })
    ]

-- What a collection drops: a hash whose count is 0 and which is not current.
abbrev unused : Option ℕ → Bool
unused none = false
unused (some refs) = refs == 0

abbrev pub is_garbage : SnapshotStore → String → Bool
is_garbage s h = unused (lookup h s.refcounts) && not (is_current s.current_hash h)

-- The same for the entries that the loop has still to visit.
abbrev drops : Dict ℕ → Option String → String → Bool
drops entries current h = unused (lookup h entries) && not (is_current current h)

abbrev kept {ℓ} : {A : Type ℓ} → Bool → Option A → Option A
kept b o = if b then none else o

kept-erase {ℓ} :
    {V : Type ℓ} (m : Dict V) (k h : String) (n : ℕ) (rest : Dict ℕ) (current : Option String)
    → lookup k rest ≡ none
    → (n == 0 && not (is_current current k)) ≡ true
    → kept (drops rest current h) (lookup h (erase k m))
      ≡ kept (drops ((k, n) ∷ rest) current h) (lookup h m)
unfolding lookup
kept-erase m k h n rest current fresh e = rw lookup-erase (elim (Bool-cases (str_eq k h)) [
  | inl same ↦
      let eq : k ≡ h = (str_eq_iff k h).0 same in
      let gone : (n == 0 && not (is_current current h)) ≡ true = rw (← eq) e in
      rw (same, gone) (ground arith)
  | inr other ↦ rw other
])

kept_skip {ℓ} :
    {V : Type ℓ} (m : Dict V) (k h : String) (n : ℕ) (rest : Dict ℕ) (current : Option String)
    → lookup k rest ≡ none
    → (n == 0 && not (is_current current k)) ≡ false
    → kept (drops rest current h) (lookup h m) ≡ kept (drops ((k, n) ∷ rest) current h) (lookup h m)
unfolding lookup
kept_skip m k h n rest current fresh e = elim (Bool-cases (str_eq k h)) [
  | inl same ↦
      let eq : k ≡ h = (str_eq_iff k h).0 same in
      let stays : (n == 0 && not (is_current current h)) ≡ false = rw (← eq) e in
      let absent : lookup h rest ≡ none = rw (← eq) fresh in rw (same, stays, absent)
  | inr other ↦ rw other
]

record Collects (entries : Dict ℕ) (s s' : SnapshotStore) : Type 0 where
  counts :
      (h : String)
      → lookup h s'.refcounts ≡ kept (drops entries s.current_hash h) (lookup h s.refcounts)
  images :
      (h : String)
      → lookup h s'.snapshots ≡ kept (drops entries s.current_hash h) (lookup h s.snapshots)
  same_current : s'.current_hash ≡ s.current_hash

gc_loop-Collects :
    (entries : Dict ℕ) (s : SnapshotStore) (dropped : List String)
    → UniqueKeys entries
    → Collects entries s (gc_loop entries s dropped).0
unfolding gc_loop lookup
gc_loop-Collects [] s dropped u = record {
  counts = λ h. refl;
  images = λ h. refl;
  same_current = refl;
}
gc_loop-Collects ((k, n) ∷ rest) s dropped u =
    elim (Bool-cases (n == 0 && not (is_current s.current_hash k))) [
      | inl drop ↦
          let s' : SnapshotStore = record s {
            snapshots = erase k s.snapshots;
            refcounts = erase k s.refcounts;
          } in
          let c = gc_loop-Collects rest s' (k ∷ dropped) u.1 in
          rw (drop, gc_loop)
            (record {
              counts = λ h. c.counts h ∙ kept-erase s.refcounts k h n rest s.current_hash u.0 drop;
              images = λ h. c.images h ∙ kept-erase s.snapshots k h n rest s.current_hash u.0 drop;
              same_current = c.same_current;
            })
      | inr stay ↦
          let c = gc_loop-Collects rest s dropped u.1 in
          rw (stay, gc_loop)
            (record {
              counts = λ h. c.counts h ∙ kept_skip s.refcounts k h n rest s.current_hash u.0 stay;
              images = λ h. c.images h ∙ kept_skip s.snapshots k h n rest s.current_hash u.0 stay;
              same_current = c.same_current;
            })
    ]

-- A collection drops the snapshots and the counts of exactly the garbage, every hash that is not
-- current and has count 0, and leaves every other one and the current hash as they were.
pub gc-drops_garbage :
    (s : SnapshotStore) (h : String)
    → UniqueKeys s.refcounts
    → (lookup h (gc s).0.snapshots ≡ (if is_garbage s h then none else lookup h s.snapshots))
      × (lookup h (gc s).0.refcounts ≡ (if is_garbage s h then none else lookup h s.refcounts))
      × ((gc s).0.current_hash ≡ s.current_hash)
unfolding gc
gc-drops_garbage s h u =
    let c = gc_loop-Collects s.refcounts s [] u in (c.images h, c.counts h, c.same_current)

current_kept :
    (m : Dict PolicySnapshot) (s s' : SnapshotStore)
    → s'.current_hash ≡ s.current_hash
    → ((h : String) → lookup h s'.snapshots ≡ kept (is_garbage s h) (lookup h s.snapshots))
    → CurrentIn s.snapshots s.current_hash
    → CurrentIn s'.snapshots s'.current_hash
current_kept m s s' same images c = go s.current_hash refl c
  where
    go :
        (o : Option String)
        → s.current_hash ≡ o
        → CurrentIn s.snapshots o
        → CurrentIn s'.snapshots s'.current_hash
    go none e k = rw (same ∙ e) tt
    go (some h) e k =
        let live : is_garbage s h ≡ false = rw (e, str_eq_refl h) (ground arith) in
        rw (same ∙ e) (rw (images h) (rw live k))

-- A collection keeps a consistent store consistent (a snapshot for every count, and for the current
-- hash), if no hash is listed twice.
pub gc-IsConsistent :
    (s : SnapshotStore) → UniqueKeys s.refcounts → IsConsistent s → IsConsistent (gc s).0
gc-IsConsistent s u c = record {
  paired = λ h. let g = gc-drops_garbage s h u in rw (g.0, g.1) (ground (arith, c.paired h));
  current =
      current_kept s.snapshots s (gc s).0 (gc-drops_garbage s "" u).2
        (λ h. (gc-drops_garbage s h u).0) c.current;
}

retain_ok :
    (h : String) (s s' : SnapshotStore)
    → retain h s ≡ ok s'
    → (refs : ℕ) × (lookup h s.refcounts ≡ some refs)
      × (s' ≡ record s { refcounts = insert h (refs + 1) s.refcounts })
unfolding retain
retain_ok h s s' e = elim (Option-cases (lookup h s.refcounts)) [
  | inl absent ↦ ground arith
  | inr (refs, found) ↦ (refs, found, ground arith)
]

-- A snapshot that is retained survives a collection, whatever policy is current, and releasing it
-- puts its count, and every other, back to what it was.
pub retain-gc-release :
    (h : String) (s s' : SnapshotStore)
    → UniqueKeys s.refcounts
    → retain h s ≡ ok s'
    → (lookup h (gc s').0.snapshots ≡ lookup h s.snapshots)
      × ((s'' : SnapshotStore) × (release h s' ≡ ok s'')
          × ((j : String) → lookup j s''.refcounts ≡ lookup j s.refcounts))
unfolding release
retain-gc-release h s s' u e =
    let (refs, found, same) = retain_ok h s s' e in
    let s1 : SnapshotStore = record s { refcounts = insert h (refs + 1) s.refcounts } in
    let counted : lookup h s1.refcounts ≡ some (refs + 1) =
      lookup-insert_self h (refs + 1) s.refcounts in
    let positive : (refs + 1 == 0) ≡ false = ground arith in
    let live : is_garbage s1 h ≡ false = rw (counted, positive) in
    let u1 : UniqueKeys s1.refcounts = insert-UniqueKeys h (refs + 1) s.refcounts u in
    let s2 : SnapshotStore = record s1 {
      refcounts = insert h (refs + 1 - 1) (insert h (refs + 1) s.refcounts);
    } in
    let back : (j : String) → lookup j s2.refcounts ≡ lookup j s.refcounts = λ j.
      lookup-insert h j (refs + 1 - 1) s1.refcounts
      ∙ rw (lookup-insert h j (refs + 1) s.refcounts) (restored h j refs s.refcounts found) in
    rw same ((gc-drops_garbage s1 h u1).0 ∙ rw live, (s2, rw (counted, positive, release), back))
  where
    restored :
        (h j : String) (refs : ℕ) (m : Dict ℕ)
        → lookup h m ≡ some refs
        → (if str_eq h j
            then some (refs + 1 - 1)
            else if str_eq h j
            then some (refs + 1)
            else lookup j m)
          ≡ lookup j m
    restored h j refs m e = elim (Bool-cases (str_eq h j)) [
      | inl k ↦
          let eq : h ≡ j = (str_eq_iff h j).0 k in rw k (ap some (omega arith) ∙ sym (rw eq at e))
      | inr k ↦ rw k
    ]
