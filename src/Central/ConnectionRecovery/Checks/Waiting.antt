-- ===== src/Central/ConnectionRecovery/Checks/Waiting.antt =====
-- The waiting for a TCP port ends.
use aiohomematic.Prelude.{
  ℕ, zero, suc, ◌+◌, ◌-◌, ◌*◌, ◌≡◌, ◌≤◌, ◌<◌, refl, inl, inr, Bool, true, false, some, arith, ltb,
  Bool-cases, ltb→lt,
}
use aiohomematic.Central.ConnectionRecovery.Checks.{Connection, tcp_interval, wait_for_port}

-- What a wait that made its attempts in this order returns: true with the last one, the first that
-- connects, or false where none of them does.
pub record Waited (w : ℕ → Connection) (r : Bool × ℕ) : Type 0 where
  pub before : (k : ℕ) → suc k < r.1 → (w k).connected ≡ false
  pub connects : r.0 ≡ true → (k : ℕ) → suc k ≡ r.1 → (w k).connected ≡ true
  pub gives_up : r.0 ≡ false → (k : ℕ) → k < r.1 → (w k).connected ≡ false
  pub tried : r.0 ≡ true → 1 ≤ r.1

-- The first attempt connects.
first-Waited : (w : ℕ → Connection) → (w 0).connected ≡ true → Waited w (true, 1)
first-Waited w h = record {
  before = λ k l. absurd (omega (arith, l));
  connects = λ _. at;
  gives_up = λ e. absurd (ground (arith, e));
  tried = λ _. omega arith;
}
  where
    at : (k : ℕ) → suc k ≡ 1 → (w k).connected ≡ true
    at zero l = h
    at (suc k) l = absurd (omega (arith, l))

-- It fails, and the others are as told.
next-Waited :
    (w : ℕ → Connection) (b : Bool) (n : ℕ)
    → (w 0).connected ≡ false
    → Waited (λ k. w (suc k)) (b, n)
    → Waited w (b, suc n)
next-Waited w b n h r = record {
  before = before;
  connects = λ e k l. connects e k l;
  gives_up = λ e k l. gives_up e k l;
  tried = λ _. omega arith;
}
  where
    before : (k : ℕ) → suc k < suc n → (w k).connected ≡ false
    before zero l = h
    before (suc k) l = r.before k (omega (arith, l))

    connects : b ≡ true → (k : ℕ) → suc k ≡ suc n → (w k).connected ≡ true
    connects e zero l = absurd (omega (arith, r.tried e, l))
    connects e (suc k) l = r.connects e k (omega (arith, l))

    gives_up : b ≡ false → (k : ℕ) → k < suc n → (w k).connected ≡ false
    gives_up e zero l = h
    gives_up e (suc k) l = r.gives_up e k (omega (arith, l))

waits :
    (n m : ℕ) (w : ℕ → Connection) (timeout elapsed : ℕ)
    → timeout ≤ elapsed + m * tcp_interval
    → m < n
    → (r : Bool × ℕ) × (wait_for_port n w timeout elapsed ≡ some r) × (r.1 ≤ m) × Waited w r
unfolding wait_for_port
waits zero m w timeout elapsed e l = absurd (omega (arith, l))
waits (suc n) m w timeout elapsed e l = elim (Bool-cases (ltb elapsed timeout)) [
  | inl in' ↦ elim (Bool-cases (w 0).connected) [
    | inl yes' ↦ ((true, 1), rw (in', yes') refl, ground (arith, e, in'), first-Waited w yes')
    | inr no' ↦
        let rest =
          waits n (m - 1) (λ k. w (suc k)) timeout (elapsed + (w 0).duration + tcp_interval)
            (omega (arith, e, ltb→lt elapsed timeout in'))
            (omega (arith, e, l, ltb→lt elapsed timeout in')) in
        (
          (rest.0.0, suc rest.0.1),
          rw (in', no', rest.1) refl,
          omega (arith, rest.2, e, ltb→lt elapsed timeout in'),
          next-Waited w rest.0.0 rest.0.1 no' rest.3,
        )
  ]
  | inr out ↦ (
    (false, 0),
    rw out refl,
    omega arith,
    record {
      before = λ k h. absurd (omega (arith, h));
      connects = λ h. absurd (ground (arith, h));
      gives_up = λ _ k h. absurd (omega (arith, h));
      tried = λ h. absurd (ground (arith, h));
    },
  )
]

-- The wait for a TCP port ends: with a timeout of at most `m` intervals it makes at most `m` attempts,
-- whatever these answer and however long they take. It returns true with the first attempt that
-- connects, and false where none of those that it made does.
pub wait_for_port-Returns :
    (m : ℕ) (w : ℕ → Connection) (timeout : ℕ)
    → timeout ≤ m * tcp_interval
    → (r : Bool × ℕ) × (wait_for_port (suc m) w timeout 0 ≡ some r) × (r.1 ≤ m) × Waited w r
wait_for_port-Returns m w timeout e = waits (suc m) m w timeout 0 (omega (arith, e)) (omega arith)
