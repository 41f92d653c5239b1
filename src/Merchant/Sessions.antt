-- ===== src/Merchant/Sessions.antt =====
-- The checkout session store in memory (packages/merchant/src/checkout/store.ts). The calls for one id
-- run one after the other, as its queue has them do. A session is its id, its status and the rest.
pub mod Cas
use steelyard_sdk.Base.{
  String, Bool, true, false, not, ◌&&◌, Option, some, none, List, [], ◌∷◌, str_eq, is_empty,
  includes, if◌then◌else◌, Result, ok, err,
}
use steelyard_sdk.Base.Maps.{Dict, lookup, insert, erase}

pub data Protocol : Type 0 where
  acp ucp : Protocol

pub record StoredCheckout : Type 0 where
  pub id : String
  pub status : String
  pub protocol : Protocol
  pub rest : String

pub data StoreError : Type 0 where
  invalid_id invalid_status : StoreError
  not_found : (id : String) → StoreError
  cas_conflict : (id expected actual : String) → StoreError
  callback_threw : StoreError

abbrev pub Rows : Type 0
Rows = Dict StoredCheckout

-- `normalizeSession`
unfoldable pub normalize_session : StoredCheckout → Result StoreError StoredCheckout
normalize_session session =
    if is_empty session.id
    then err invalid_id
    else if is_empty session.status
    then err invalid_status
    else ok session

unfoldable pub put : StoredCheckout → Rows → Result StoreError (Unit {0}) × Rows
put session rows = elim (normalize_session session) [
  | err e ↦ (err e, rows)
  | ok normalized ↦ (ok tt, insert normalized.id normalized rows)
]

unfoldable pub get : String → Rows → Option StoredCheckout
get id rows = lookup id rows

unfoldable pub delete : String → Rows → Rows
delete id rows = erase id rows

-- A status that is one text is a list of it; an empty text is no filter.
pub record StoreFilter : Type 0 where
  pub ids : Option (List String)
  pub statuses : Option (List String)
  pub protocol : Option Protocol

abbrev same_protocol : Protocol → Protocol → Bool
same_protocol acp acp = true
same_protocol ucp ucp = true
same_protocol _ _ = false

abbrev allows : Option (List String) → String → Bool
allows none x = true
allows (some xs) x = includes xs x

abbrev allows_protocol : Option Protocol → Protocol → Bool
allows_protocol none p = true
allows_protocol (some q) p = same_protocol p q

unfoldable pub matches_filter : StoredCheckout → StoreFilter → Bool
matches_filter session filter =
    allows filter.ids session.id
    && (allows filter.statuses session.status && allows_protocol filter.protocol session.protocol)

unfoldable pub list_sessions : StoreFilter → Rows → List StoredCheckout
list_sessions filter [] = []
list_sessions filter ((k, session) ∷ rows) =
    let rest = list_sessions filter rows in
    if matches_filter session filter then session ∷ rest else rest

-- What the callback of a transition gives: the next session, and whether its `commit`, if it has one,
-- returns.
pub record Step : Type 0 where
  pub next : StoredCheckout
  pub commits : Bool

abbrev pub finish :
    String
    → Step
    → Result StoreError StoredCheckout
    → Rows
    → Result StoreError StoredCheckout × Rows
finish id step (err e) rows = (err e, rows)
finish id step (ok next) rows =
    (if step.commits then ok next else err callback_threw, insert id next rows)

abbrev pub run_callback :
    String
    → (StoredCheckout → Option Step)
    → StoredCheckout
    → Rows
    → Result StoreError StoredCheckout × Rows
run_callback id fn claimed rows = elim (fn claimed) [
  | none ↦ (err callback_threw, rows)
  | some step ↦ finish id step (normalize_session step.next) rows
]

unfoldable pub claim :
    String
    → String
    → (StoredCheckout → Option Step)
    → StoredCheckout
    → Rows
    → Result StoreError StoredCheckout × Rows
claim id next_status fn current rows =
    elim (normalize_session (record current { status = next_status })) [
      | err e ↦ (err e, rows)
      | ok claimed ↦ run_callback id fn claimed (insert id claimed rows)
    ]

abbrev pub transition_found :
    (id expected next_status : String)
    → (StoredCheckout → Option Step)
    → Option StoredCheckout
    → Rows
    → Result StoreError StoredCheckout × Rows
transition_found id expected next_status fn none rows = (err (not_found id), rows)
transition_found id expected next_status fn (some current) rows =
    if not (str_eq current.status expected)
    then (err (cas_conflict id expected current.status), rows)
    else claim id next_status fn current rows

-- `fn` answers `none` if it throws
unfoldable pub transition :
    (id expected next_status : String)
    → (StoredCheckout → Option Step)
    → Rows
    → Result StoreError StoredCheckout × Rows
transition id expected next_status fn rows =
    transition_found id expected next_status fn (lookup id rows) rows
