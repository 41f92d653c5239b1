-- ===== src/Policy/Snapshots.antt =====
-- The snapshot store (packages/policy/src/snapshot.ts): policies by hash, with reference counts.
-- The hash of a policy, `policyHash`, rests on SHA-256 and is a parameter.
pub mod Retention
use steelyard_sdk.Base.{
  ℕ, zero, suc, ◌+◌, ◌-◌, String, Bool, true, false, Option, some, none, List, [], ◌∷◌, ◌==◌,
  if◌then◌else◌, ◌&&◌, not, str_eq, is_some, is_empty, Result, ok, err, ◌>>=◌, or_throw,
}
use steelyard_sdk.Base.Maps.{Dict, lookup, insert, erase}
use steelyard_sdk.Policy.Evaluator.{ResolvedPolicy}

pub data SnapshotError : Type 0 where
  no_policy_loaded current_missing unknown_snapshot release_without_retain : SnapshotError

pub record PolicySnapshot : Type 0 where
  pub policy_hash : String
  pub policy : ResolvedPolicy
  pub yaml_bytes : String

pub record SnapshotStore : Type 0 where
  pub snapshots : Dict PolicySnapshot
  pub refcounts : Dict ℕ
  pub current_hash : Option String

abbrev pub empty_store : SnapshotStore
empty_store = record { snapshots = []; refcounts = []; current_hash = none }

unfoldable pub get_current : SnapshotStore → Result SnapshotError PolicySnapshot
get_current s = elim s.current_hash [
  | none ↦ err no_policy_loaded
  | some hash ↦
      if is_empty hash
      then err no_policy_loaded
      else or_throw (lookup hash s.snapshots) current_missing
]

abbrev pub with_snapshot : String → ResolvedPolicy → String → SnapshotStore → SnapshotStore
with_snapshot hash policy yaml s = record s {
  snapshots =
      insert hash (record { policy_hash = hash; policy = policy; yaml_bytes = yaml }) s.snapshots;
  refcounts = insert hash 0 s.refcounts;
  current_hash = some hash;
}

-- `add`, less the read of the current snapshot that it returns
unfoldable pub add :
    (ResolvedPolicy → String) → ResolvedPolicy → String → SnapshotStore → SnapshotStore
add hash_of policy yaml s =
    if is_some (lookup (hash_of policy) s.snapshots)
    then record s { current_hash = some (hash_of policy) }
    else with_snapshot (hash_of policy) policy yaml s

unfoldable pub retain : String → SnapshotStore → Result SnapshotError SnapshotStore
retain hash s = elim (lookup hash s.refcounts) [
  | none ↦ err unknown_snapshot
  | some refs ↦ ok (record s { refcounts = insert hash (refs + 1) s.refcounts })
]

-- a count of 0 is falsy
unfoldable pub release : String → SnapshotStore → Result SnapshotError SnapshotStore
release hash s = elim (lookup hash s.refcounts) [
  | none ↦ err release_without_retain
  | some refs ↦
      if refs == 0
      then err release_without_retain
      else ok (record s { refcounts = insert hash (refs - 1) s.refcounts })
]

abbrev pub is_current : Option String → String → Bool
is_current none hash = false
is_current (some c) hash = str_eq hash c

-- the loop of `gc`; the entries are those that the loop finds at its start
unfoldable pub gc_loop : Dict ℕ → SnapshotStore → List String → SnapshotStore × List String
gc_loop [] s dropped = (s, dropped)
gc_loop ((hash, refs) ∷ rest) s dropped =
    let drops =
      gc_loop rest
        (record s { snapshots = erase hash s.snapshots; refcounts = erase hash s.refcounts })
        (hash ∷ dropped) in
    let keeps = gc_loop rest s dropped in
    if refs == 0 && not (is_current s.current_hash hash) then drops else keeps

-- `gc`; the list of what was dropped has its last entry first
unfoldable pub gc : SnapshotStore → SnapshotStore × List String
gc s = gc_loop s.refcounts s []
