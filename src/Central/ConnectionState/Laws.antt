-- ===== src/Central/ConnectionState/Laws.antt =====
-- The two lists of issues implement two sets.
use aiohomematic.Prelude.{
  ◌≡◌, refl, String, Bool, true, false, ◌&&◌, ◌||◌, not, List, [], ◌∷◌, arith, if◌then◌else◌, ltb,
  Bool-cases, inl, inr,
}
use aiohomematic.Prelude.Lists.{length}
use aiohomematic.Prelude.Dict.{
  ◌==◌, contains, contains-append, Distinct, contains-erase_ne, contains-erase_self, string_eq,
  Distinct-append_one, Distinct-erase,
}
use text.Mathlib.TextEquality.{eq_iff}
use aiohomematic.Central.ConnectionState.{
  Issuer, json_rpc, rpc_proxy, CentralConnectionState, init, is_issue, add_issue, remove_issue,
  clear_all_issues, handle_exception_log, issue_count, Call, adds, removes, clears, handles, step,
  run,
}

-- No interface is listed twice for one transport.
pub record HasNoDuplicates (s : CentralConnectionState) : Type 0 where
  pub json_distinct : Distinct s.json_issues
  pub rpc_distinct : Distinct s.rpc_proxy_issues

abbrev pub issuer_beq : Issuer → Issuer → Bool
issuer_beq json_rpc json_rpc = true
issuer_beq rpc_proxy rpc_proxy = true
issuer_beq _ _ = false

pub same_refl : (i : Issuer) (a : String) → (issuer_beq i i && a == a) ≡ true
same_refl json_rpc a = (eq_iff a a).1 refl
same_refl rpc_proxy a = (eq_iff a a).1 refl

-- The abstract view: which interface of which transport has an issue.
abbrev pub View : Type 0
View = Issuer → String → Bool

abbrev pub same : Issuer → String → Issuer → String → Bool
same i a j b = issuer_beq i j && a == b

abbrev pub spec : Call → View → View
spec (adds i a) v = λ j b. v j b || same i a j b
spec (removes i a) v = λ j b. v j b && not (same i a j b)
spec clears v = λ j b. false
spec (handles i a _) v = λ j b. v j b || same i a j b

abbrev pub run_spec : List Call → View → View
run_spec [] v = v
run_spec (c ∷ cs) v = run_spec cs (spec c v)

module _ (i j : Issuer) (a b : String) (s : CentralConnectionState) where
  pub is_issue-add : is_issue j b (add_issue i a s).1 ≡ (is_issue j b s || same i a j b)
  unfolding is_issue add_issue contains
  is_issue-add = ground (
    arith,
    contains-append b s.json_issues (a ∷ []),
    contains-append b s.rpc_proxy_issues (a ∷ []),
    eq_iff a b,
  )

  pub is_issue-remove :
      HasNoDuplicates s
      → is_issue j b (remove_issue i a s).1 ≡ (is_issue j b s && not (same i a j b))
  unfolding is_issue remove_issue
  is_issue-remove h = ground (
    arith,
    contains-erase_ne b a s.json_issues,
    contains-erase_ne b a s.rpc_proxy_issues,
    contains-erase_self b s.json_issues h.json_distinct,
    contains-erase_self b s.rpc_proxy_issues h.rpc_distinct,
    eq_iff a b,
  )

-- Adding or removing an issue answers whether the set of issues changed, and publishes one event,
-- with the interface and its new connection, exactly then (and only if there is an event bus).
pub add_remove_answer :
    (i : Issuer) (a : String) (s : CentralConnectionState)
    → ((add_issue i a s).0 ≡ not (is_issue i a s))
      × ((remove_issue i a s).0 ≡ is_issue i a s)
      × ((add_issue i a s).2
          ≡ (if not (is_issue i a s) && s.has_event_bus then (a, false) ∷ [] else []))
      × ((remove_issue i a s).2
          ≡ (if is_issue i a s && s.has_event_bus then (a, true) ∷ [] else []))
unfolding is_issue add_issue remove_issue
add_remove_answer json_rpc a s = ground arith
add_remove_answer rpc_proxy a s = ground arith

pub add_issue-HasNoDuplicates :
    (i : Issuer) (a : String) (s : CentralConnectionState)
    → HasNoDuplicates s
    → HasNoDuplicates (add_issue i a s).1
unfolding add_issue
add_issue-HasNoDuplicates json_rpc a s h = elim (Bool-cases (contains a s.json_issues)) [
  | inl old ↦ rw (old, add_issue) h
  | inr new ↦
      rw (new, add_issue)
        (record {
          json_distinct = Distinct-append_one a s.json_issues new h.json_distinct;
          rpc_distinct = h.rpc_distinct;
        })
]
add_issue-HasNoDuplicates rpc_proxy a s h = elim (Bool-cases (contains a s.rpc_proxy_issues)) [
  | inl old ↦ rw (old, add_issue) h
  | inr new ↦
      rw (new, add_issue)
        (record {
          json_distinct = h.json_distinct;
          rpc_distinct = Distinct-append_one a s.rpc_proxy_issues new h.rpc_distinct;
        })
]

pub remove_issue-HasNoDuplicates :
    (i : Issuer) (a : String) (s : CentralConnectionState)
    → HasNoDuplicates s
    → HasNoDuplicates (remove_issue i a s).1
unfolding remove_issue
remove_issue-HasNoDuplicates json_rpc a s h = elim (Bool-cases (contains a s.json_issues)) [
  | inl old ↦
      rw (old, remove_issue)
        (record {
          json_distinct = Distinct-erase a s.json_issues h.json_distinct;
          rpc_distinct = h.rpc_distinct;
        })
  | inr new ↦ rw (new, remove_issue) h
]
remove_issue-HasNoDuplicates rpc_proxy a s h = elim (Bool-cases (contains a s.rpc_proxy_issues)) [
  | inl old ↦
      rw (old, remove_issue)
        (record {
          json_distinct = h.json_distinct;
          rpc_distinct = Distinct-erase a s.rpc_proxy_issues h.rpc_distinct;
        })
  | inr new ↦ rw (new, remove_issue) h
]

clear_all_issues-HasNoDuplicates :
    (s : CentralConnectionState) → HasNoDuplicates s → HasNoDuplicates (clear_all_issues s).1
unfolding clear_all_issues
clear_all_issues-HasNoDuplicates s h = elim (Bool-cases (ltb 0 (issue_count s))) [
  | inl some_issue ↦
      rw (some_issue, clear_all_issues) (record { json_distinct = tt; rpc_distinct = tt })
  | inr none_left ↦ rw (none_left, clear_all_issues) h
]

contains_of_empty : (a : String) (xs : List String) → length xs ≡ 0 → contains a xs ≡ false
unfolding contains
contains_of_empty a [] e = refl
contains_of_empty a (x ∷ xs) e = absurd (omega arith)

is_issue-clear :
    (j : Issuer) (b : String) (s : CentralConnectionState)
    → is_issue j b (clear_all_issues s).1 ≡ false
unfolding is_issue clear_all_issues contains
is_issue-clear j b s =
    ground (arith, contains_of_empty b s.json_issues, contains_of_empty b s.rpc_proxy_issues)

step-HasNoDuplicates :
    (c : Call) (s : CentralConnectionState) → HasNoDuplicates s → HasNoDuplicates (step c s).0
unfolding step
step-HasNoDuplicates (adds i a) s h = add_issue-HasNoDuplicates i a s h
step-HasNoDuplicates (removes i a) s h = remove_issue-HasNoDuplicates i a s h
step-HasNoDuplicates clears s h = clear_all_issues-HasNoDuplicates s h
step-HasNoDuplicates (handles i a m) s h = ground (arith, add_issue-HasNoDuplicates i a s h)

is_issue-handle :
    (i j : Issuer) (a b : String) (m : Bool) (s : CentralConnectionState)
    → is_issue j b (handle_exception_log i a m s).1 ≡ (is_issue j b s || same i a j b)
unfolding handle_exception_log
is_issue-handle i j a b m s =
    ground (arith, is_issue-add i j a b s, eq_iff a b, same_is_issue i j a b s)
  where
    same_is_issue :
        (i j : Issuer) (a b : String) (s : CentralConnectionState)
        → same i a j b ≡ true
        → is_issue i a s ≡ is_issue j b s
    same_is_issue json_rpc json_rpc a b s e = rw ((eq_iff a b).0 e)
    same_is_issue rpc_proxy rpc_proxy a b s e = rw ((eq_iff a b).0 e)
    same_is_issue json_rpc rpc_proxy a b s e = cc
    same_is_issue rpc_proxy json_rpc a b s e = cc

step-spec :
    (c : Call) (s : CentralConnectionState) (v : View)
    → HasNoDuplicates s
    → ((j : Issuer) (b : String) → is_issue j b s ≡ v j b)
    → (j : Issuer) (b : String) → is_issue j b (step c s).0 ≡ spec c v j b
unfolding step
step-spec (adds i a) s v h r j b = rw (← r j b) (is_issue-add i j a b s)
step-spec (removes i a) s v h r j b = rw (← r j b) (is_issue-remove i j a b s h)
step-spec clears s v h r j b = is_issue-clear j b s
step-spec (handles i a m) s v h r j b = rw (← r j b) (is_issue-handle i j a b m s)

run-spec_from :
    (cs : List Call) (s : CentralConnectionState) (v : View)
    → HasNoDuplicates s
    → ((j : Issuer) (b : String) → is_issue j b s ≡ v j b)
    → (j : Issuer) (b : String) → is_issue j b (run cs s) ≡ run_spec cs v j b
unfolding run
run-spec_from [] s v h r j b = r j b
run-spec_from (c ∷ cs) s v h r j b =
    run-spec_from cs (step c s).0 (spec c v) (step-HasNoDuplicates c s h) (step-spec c s v h r) j b

is_issue-init : (bus : Bool) (i : Issuer) (a : String) → is_issue i a (init bus) ≡ false
unfolding is_issue init contains
is_issue-init bus json_rpc a = refl
is_issue-init bus rpc_proxy a = refl

-- After any history of calls on a new connection state, `is_issue` answers as two plain sets would,
-- one for each transport: a reported interface has an issue, of its own transport only, until it is
-- removed or all issues are cleared.
pub run-spec :
    (bus : Bool) (cs : List Call) (j : Issuer) (b : String)
    → is_issue j b (run cs (init bus)) ≡ run_spec cs (λ i a. false) j b
unfolding init
run-spec bus cs j b =
    run-spec_from cs _ (λ i a. false) (record { json_distinct = tt; rpc_distinct = tt })
      (λ i a. is_issue-init bus i a) j b
