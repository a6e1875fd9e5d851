-- ===== src/Client/CircuitBreaker/Issues.antt =====
-- The breaker together with the connection state that it reports to.
use aiohomematic.Prelude.{
  ◌≡◌, refl, ◌≢◌, String, true, false, not, List, [], ◌∷◌, ◌++◌, ◌∙◌, subst, arith, ap, sym,
  Bool-cases, inl, inr, if◌then◌else◌,
}
use text.Mathlib.TextEquality.{eq_iff}
use aiohomematic.Prelude.Dict.{string_eq}
use aiohomematic.Prelude.Lists.{All}
use aiohomematic.Client.CircuitBreaker.{
  closed, state_beq, CircuitBreaker, Effect, issue_added, issue_removed, Call, polls, fails,
  rejects, succeeds, resets, step, run,
}
use aiohomematic.Central.ConnectionState.{
  Issuer, json_rpc, rpc_proxy, CentralConnectionState, is_issue, add_issue, remove_issue,
}
use aiohomematic.Central.ConnectionState.Laws.{
  HasNoDuplicates, same, is_issue-add, is_issue-remove, add_issue-HasNoDuplicates,
  remove_issue-HasNoDuplicates, same_refl,
}

-- The calls of the connection state that the breaker's effects are, for the issuer that owns it.
abbrev pub report : Issuer → String → List Effect → CentralConnectionState → CentralConnectionState
report i iid [] s = s
report i iid (issue_added ∷ es) s = report i iid es (add_issue i iid s).1
report i iid (issue_removed ∷ es) s = report i iid es (remove_issue i iid s).1
report i iid (_ ∷ es) s = report i iid es s

-- The interface has an issue exactly while the breaker is not closed.
pub record IsSynced (i : Issuer) (b : CircuitBreaker) (s : CentralConnectionState) : Type 0 where
  pub connected : b.has_connection_state ≡ true
  pub distinct : HasNoDuplicates s
  pub agrees : is_issue i b.interface_id s ≡ not (state_beq b.state closed)

-- Reporting a failure, or a success, once.
reported :
    (i : Issuer) (iid : String) (s : CentralConnectionState)
    → HasNoDuplicates s
    → (is_issue i iid (add_issue i iid s).1 ≡ true)
      × HasNoDuplicates (add_issue i iid s).1
      × (is_issue i iid (remove_issue i iid s).1 ≡ false)
      × HasNoDuplicates (remove_issue i iid s).1
reported i iid s h = (
  ground (arith, is_issue-add i i iid iid s, same_refl i iid),
  add_issue-HasNoDuplicates i iid s h,
  ground (arith, is_issue-remove i i iid iid s h, same_refl i iid),
  remove_issue-HasNoDuplicates i iid s h,
)

step-IsSynced :
    (i : Issuer) (c : Call) (b : CircuitBreaker) (s : CentralConnectionState)
    → c ≢ resets
    → IsSynced i b s
    → IsSynced i (step c b).0 (report i b.interface_id (step c b).1 s)
unfolding step
step-IsSynced i (polls now) b s n h = ground (arith, reported i b.interface_id s h.distinct)
step-IsSynced i (fails now) b s n h = ground (arith, reported i b.interface_id s h.distinct)
step-IsSynced i rejects b s n h = ground arith
step-IsSynced i succeeds b s n h = ground (arith, reported i b.interface_id s h.distinct)
step-IsSynced i resets b s n h = absurd (n refl)

report-append :
    (i : Issuer) (iid : String) (es fs : List Effect) (s : CentralConnectionState)
    → report i iid (es ++ fs) s ≡ report i iid fs (report i iid es s)
report-append i iid [] fs s = refl
report-append i iid (issue_added ∷ es) fs s = report-append i iid es fs _
report-append i iid (issue_removed ∷ es) fs s = report-append i iid es fs _
report-append i iid (_ ∷ es) fs s = report-append i iid es fs s

step-interface_id : (c : Call) (b : CircuitBreaker) → (step c b).0.interface_id ≡ b.interface_id
unfolding step
step-interface_id (polls now) b = ground arith
step-interface_id _ b = ground arith

run-interface_id :
    (cs : List Call) (b : CircuitBreaker) → (run cs b).0.interface_id ≡ b.interface_id
unfolding run
run-interface_id [] b = refl
run-interface_id (c ∷ cs) b = run-interface_id cs (step c b).0 ∙ step-interface_id c b

run-IsSynced_as :
    (i : Issuer) (iid : String) (cs : List Call) (b : CircuitBreaker) (s : CentralConnectionState)
    → b.interface_id ≡ iid
    → All (λ c. c ≢ resets) cs
    → IsSynced i b s
    → IsSynced i (run cs b).0 (report i iid (run cs b).1 s)
unfolding run
run-IsSynced_as i iid [] b s e n h = h
run-IsSynced_as i iid (c ∷ cs) b s e n h =
    let s' = report i b.interface_id (step c b).1 s in
    let ih =
      run-IsSynced_as i iid cs (step c b).0 s' (step-interface_id c b ∙ e) n.1
        (step-IsSynced i c b s n.0 h) in
    rw (report-append i iid (step c b).1 (run cs (step c b).0).1 s) (
      subst
        (λ x.
          IsSynced i (run cs (step c b).0).0
            (report i iid (run cs (step c b).0).1 (report i x (step c b).1 s)))
        e ih)

-- Reporting touches no issue of another transport or another interface.
report-other :
    (i j : Issuer) (iid k : String) (es : List Effect) (s : CentralConnectionState)
    → HasNoDuplicates s
    → same i iid j k ≡ false
    → is_issue j k (report i iid es s) ≡ is_issue j k s
report-other i j iid k [] s u n = refl
report-other i j iid k (issue_added ∷ es) s u n =
    report-other i j iid k es (add_issue i iid s).1 (add_issue-HasNoDuplicates i iid s u) n
    ∙ ground (arith, is_issue-add i j iid k s, n)
report-other i j iid k (issue_removed ∷ es) s u n =
    report-other i j iid k es (remove_issue i iid s).1 (remove_issue-HasNoDuplicates i iid s u) n
    ∙ ground (arith, is_issue-remove i j iid k s u, n)
report-other i j iid k (_ ∷ es) s u n = report-other i j iid k es s u n

is_issue-same :
    (i j : Issuer) (a b : String) (s : CentralConnectionState)
    → same i a j b ≡ true
    → is_issue j b s ≡ is_issue i a s
unfolding is_issue
is_issue-same json_rpc json_rpc a b s e = ap (λ x. is_issue json_rpc x s) (sym ((eq_iff a b).0 e))
is_issue-same rpc_proxy rpc_proxy a b s e =
    ap (λ x. is_issue rpc_proxy x s) (sym ((eq_iff a b).0 e))
is_issue-same json_rpc rpc_proxy a b s e = absurd (ground (arith, e))
is_issue-same rpc_proxy json_rpc a b s e = absurd (ground (arith, e))

-- While nobody resets the breaker, any history of its calls keeps the connection state in step: the
-- interface of the breaker has an issue of the transport that owns the breaker exactly while the
-- breaker is not closed; no interface is listed twice for one transport; and whether another
-- interface, or the same one for the other transport, has an issue is as it was.
pub run-IsSynced :
    (i : Issuer) (cs : List Call) (b : CircuitBreaker) (s : CentralConnectionState) (j : Issuer)
    (k : String)
    → All (λ c. c ≢ resets) cs
    → IsSynced i b s
    → let (b', es) = run cs b in
      let s' = report i b.interface_id es s in
      IsSynced i b' s'
      × (is_issue j k s'
          ≡ (if same i b.interface_id j k then not (state_beq b'.state closed) else is_issue j k s))
run-IsSynced i cs b s j k n h =
    let s' = report i b.interface_id (run cs b).1 s in
    let synced = run-IsSynced_as i b.interface_id cs b s refl n h in
    (
      synced,
      elim (Bool-cases (same i b.interface_id j k)) [
        | inl e ↦ rw e (
            is_issue-same i j b.interface_id k s' e
            ∙ ap (λ x. is_issue i x s') (sym (run-interface_id cs b))
            ∙ synced.agrees)
        | inr o ↦ rw o (report-other i j b.interface_id k (run cs b).1 s h.distinct o)
      ],
    )

-- A reset is not reported: of a breaker that was not closed it leaves the issue behind.
pub reset-IsSynced :
    (i : Issuer) (b : CircuitBreaker) (s : CentralConnectionState)
    → IsSynced i b s
    → b.state ≢ closed
    → ((step resets b).0.state ≡ closed)
      × (is_issue i b.interface_id (report i b.interface_id (step resets b).1 s) ≡ true)
unfolding step
reset-IsSynced i b s h n = ground arith
