-- ===== src/Conditions/Laws.antt =====
-- Reading a list of conditions after SetCondition and ApplyConditionUpdates.
use score_orchestrator.Base.{
  sym, ◌&&◌, eq_refl, string_ne, ℕ, String, true, false, ◌≡◌, refl, ◌≢◌, ◌↔◌, Option, none, some,
  List, [], ◌∷◌, arith, ◌==◌, eq_iff, if◌then◌else◌, Bool-cases, inl, inr, All,
}
use score_orchestrator.Api.Meta.{ConditionStatus, is_true, Condition}
use score_orchestrator.Conditions.{
  same_status, refresh, set_condition, get_condition, is_condition_true, ConditionUpdate,
  apply_condition_updates,
}

-- The condition that SetCondition leaves, by the one that was there.
abbrev pub updated : ℕ → String → ConditionStatus → String → String → Option Condition → Condition
updated now type status reason message none = record {
  type = type;
  status = status;
  reason = reason;
  message = message;
  time = now;
}
updated now type status reason message (some c) = refresh now status reason message c

-- When the status of a type last changed, by an update at `now` over what was there.
abbrev pub transition_time : ℕ → ConditionStatus → String → Option Condition → ℕ
transition_time now status reason none = now
transition_time now status reason (some c) =
    if same_status c.status status && c.reason == reason then c.time else now

-- The types of the conditions of one status are distinct: the list is a map by type.
abbrev pub HasUniqueTypes : List Condition → Type 0
HasUniqueTypes [] = Unit
HasUniqueTypes (c ∷ cs) = All (λ d. d.type ≢ c.type) cs × HasUniqueTypes cs

-- The last update of a type among several.
abbrev pub last_update : List ConditionUpdate → String → Option ConditionUpdate
last_update [] t = none
last_update (u ∷ us) t = elim (last_update us t) [
  | some v ↦ some v
  | none ↦ if u.type == t then some u else none
]

pub same_status_iff : (a b : ConditionStatus) → (same_status a b ≡ true) ↔ (a ≡ b)
same_status_iff a b = ground arith

module _ (now : ℕ) (type : String) (status : ConditionStatus) (reason message : String) where
  refresh-type : (c : Condition) → (refresh now status reason message c).type ≡ c.type
  unfolding refresh
  refresh-type c = ground arith

  -- What is read of any type after SetCondition: the updated condition for the type that was set,
  -- and what was there for every other type.
  pub get_condition-set_condition :
      (cs : List Condition) (t : String)
      → get_condition (set_condition now type status reason message cs) t ≡ (
          if type == t
          then some (updated now type status reason message (get_condition cs type))
          else get_condition cs t)
  unfolding get_condition set_condition
  get_condition-set_condition [] t = refl
  get_condition-set_condition (c ∷ cs) t = ground (
    arith,
    eq_iff type t,
    eq_iff c.type type,
    eq_iff c.type t,
    refresh-type c,
    get_condition-set_condition cs t,
  )

  set_condition-All_ne :
      (cs : List Condition) (t : String)
      → All (λ d. d.type ≢ t) cs
      → type ≢ t
      → All (λ d. d.type ≢ t) (set_condition now type status reason message cs)
  unfolding set_condition
  set_condition-All_ne [] t h k = (k, tt)
  set_condition-All_ne (c ∷ cs) t (h, hs) k =
      ground (arith, refresh-type c, set_condition-All_ne cs t hs k)

  -- SetCondition keeps the types of the list distinct, as the API server wants them.
  pub set_condition-HasUniqueTypes :
      (cs : List Condition)
      → HasUniqueTypes cs
      → HasUniqueTypes (set_condition now type status reason message cs)
  unfolding set_condition
  set_condition-HasUniqueTypes [] h = (tt, tt)
  set_condition-HasUniqueTypes (c ∷ cs) (h, hs) = elim (Bool-cases (c.type == type)) [
    | inl same ↦ rw same (rw (refresh-type c) h, hs)
    | inr other ↦ rw other (
      set_condition-All_ne cs c.type h (λ e. string_ne c.type type other (sym e)),
      set_condition-HasUniqueTypes cs hs,
    )
  ]

  refresh_again :
      (later : ℕ) (c : Condition)
      → refresh later status reason message (refresh now status reason message c)
        ≡ refresh now status reason message c
  unfolding refresh
  refresh_again later c = ground (arith, eq_refl reason, same_status_iff status status)

  -- To set a condition once more to the same values, at any later time, changes nothing: neither
  -- the values nor the transition time nor the order.
  pub set_condition_idempotent :
      (later : ℕ) (cs : List Condition)
      → set_condition later type status reason message
          (set_condition now type status reason message cs)
        ≡ set_condition now type status reason message cs
  unfolding set_condition
  set_condition_idempotent later [] =
      unfold refresh in ground (arith, eq_refl type, eq_refl reason, same_status_iff status status)
  set_condition_idempotent later (c ∷ cs) = ground (
    arith,
    eq_refl type,
    refresh-type c,
    refresh_again later c,
    set_condition_idempotent later cs,
  )

  updated_fields :
      (o : Option Condition)
      → ((updated now type status reason message o).status ≡ status)
        × ((updated now type status reason message o).reason ≡ reason)
        × ((updated now type status reason message o).message ≡ message)
        × ((updated now type status reason message o).time ≡ transition_time now status reason o)
  unfolding refresh
  updated_fields none = (refl, refl, refl, refl)
  updated_fields (some c) = ground (arith, eq_iff c.reason reason, same_status_iff c.status status)

  -- After SetCondition the type reads with the status, the reason and the message given; its
  -- transition time is `now`, or stays if status and reason were the same before. Every other type
  -- reads as before.
  pub set_condition_lem :
      (cs : List Condition)
      → (c : Condition) × (c.status ≡ status)
        × (c.reason ≡ reason)
        × (c.message ≡ message)
        × (c.time ≡ transition_time now status reason (get_condition cs type))
        × ((t : String)
            → get_condition (set_condition now type status reason message cs) t
              ≡ (if type == t then some c else get_condition cs t))
  set_condition_lem cs =
      let (s, r, m, w) = updated_fields (get_condition cs type) in
      (
        updated now type status reason message (get_condition cs type),
        s,
        r,
        m,
        w,
        get_condition-set_condition cs,
      )

-- What a type shows: the three values that an update sets, without the time.
abbrev pub shown : Option Condition → Option (ConditionStatus × String × String)
shown none = none
shown (some c) = some (c.status, c.reason, c.message)

abbrev pub shown_update : ConditionUpdate → ConditionStatus × String × String
shown_update u = (u.status, u.reason, u.message)

shown-set_condition :
    (now : ℕ) (u : ConditionUpdate) (cs : List Condition) (t : String)
    → shown (get_condition (set_condition now u.type u.status u.reason u.message cs) t)
      ≡ (if u.type == t then some (shown_update u) else shown (get_condition cs t))
shown-set_condition now u cs t =
    let (s, r, m, w) =
      updated_fields now u.type u.status u.reason u.message (get_condition cs u.type) in
    ground (arith, get_condition-set_condition now u.type u.status u.reason u.message cs t)

-- After ApplyConditionUpdates each type shows the last update of that type, and what it showed
-- before if there is none.
pub apply_condition_updates_lem :
    (now : ℕ) (us : List ConditionUpdate) (cs : List Condition) (t : String)
    → shown (get_condition (apply_condition_updates now us cs) t) ≡ (elim (last_update us t) [
      | none ↦ shown (get_condition cs t)
      | some u ↦ some (shown_update u)
    ])
unfolding apply_condition_updates
apply_condition_updates_lem now [] cs t = refl
apply_condition_updates_lem now (u ∷ us) cs t = ground (
  arith,
  shown-set_condition now u cs t,
  apply_condition_updates_lem now us (set_condition now u.type u.status u.reason u.message cs) t,
)

pub is_condition_true-eq :
    (cs : List Condition) (t : String)
    → is_condition_true cs t
      ≡ (elim (get_condition cs t) [ none ↦ false | some c ↦ same_status c.status is_true ])
unfolding is_condition_true get_condition
is_condition_true-eq [] t = refl
is_condition_true-eq (c ∷ cs) t = ground (arith, is_condition_true-eq cs t)
