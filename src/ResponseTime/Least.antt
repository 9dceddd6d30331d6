-- ===== src/ResponseTime/Least.antt =====
-- The response time is the least span that covers its own demand.
use partsim.Prelude.{
  ℕ, zero, suc, ◌+◌, ◌≤◌, ◌<◌, ◌≡◌, ◌⊎◌, ◌↔◌, inl, inr, true, false, Option, none, some, List,
  arith, ltb, leb, Bool-cases, get_elem?, take,
}
use partsim.ResponseTime.{ServerInfo, demand, response_loop, compute_response_time, meets_period}
use partsim.ResponseTime.Monotone.{Periodic, interference_mono}

-- A span of time that covers the demand in it.
abbrev pub Covers : ℕ → List ServerInfo → ℕ → Type 0
Covers q higher t = demand q higher t ≤ t

-- What the analysis answers for a server with the budget `q` and the period `p`.
abbrev pub Response : (q p : ℕ) → List ServerInfo → Option ℕ → Type 0
Response q p higher none = ⊥
Response q p higher (some r) =
    ((r ≤ p) × (demand q higher r ≡ r) × ((t : ℕ) → Covers q higher t → r ≤ t))
    ⊎ ((p < r) × ((t : ℕ) → Covers q higher t → p < t))

module _ (q p : ℕ) (higher : List ServerInfo) (periods : Periodic higher) where
  demand_mono : (a b : ℕ) → a ≤ b → demand q higher a ≤ demand q higher b
  demand_mono a b le = let i = interference_mono higher a b periods le in omega arith

  next :
      (r_cur t : ℕ)
      → ((t : ℕ) → Covers q higher t → r_cur ≤ t)
      → Covers q higher t
      → demand q higher r_cur ≤ t
  next r_cur t low c = let m = demand_mono r_cur t (low t c) in omega arith

  -- One round, from what the next rounds answer.
  round_lem :
      (fuel r_cur : ℕ)
      → r_cur ≤ demand q higher r_cur
      → ((t : ℕ) → Covers q higher t → r_cur ≤ t)
      → (r_cur < demand q higher r_cur
          → demand q higher r_cur ≤ p
          → Response q p higher (response_loop fuel higher q p (demand q higher r_cur)))
      → Response q p higher (response_loop (suc fuel) higher q p r_cur)
  unfolding response_loop
  round_lem fuel r_cur grows low more = elim (Bool-cases (ltb r_cur (demand q higher r_cur))) [
    | inr stays ↦
        let same : demand q higher r_cur ≡ r_cur = ground arith in
        rw stays (
          rw same (elim (Bool-cases (leb r_cur p)) [
            | inl within ↦ inl (ground arith, same, low)
            | inr past ↦ inr (ground arith, λ t c. let l = low t c in ground arith)
          ]))
    | inl rises ↦ elim (Bool-cases (leb (demand q higher r_cur) p)) [
      | inr past ↦
          rw (rises, past) (inr (ground arith, λ t c. let l = next r_cur t low c in ground arith))
      | inl within ↦ rw (rises, within) (more (ground arith) (ground arith))
    ]
  ]

  loop_lem :
      (fuel r_cur : ℕ)
      → r_cur ≤ demand q higher r_cur
      → ((t : ℕ) → Covers q higher t → r_cur ≤ t)
      → p + 1 ≤ fuel + r_cur
      → Response q p higher (response_loop (suc fuel) higher q p r_cur)
  loop_lem zero r_cur grows low h =
      round_lem zero r_cur grows low (λ rise within. absurd (omega arith))
  loop_lem (suc fuel) r_cur grows low h = round_lem (suc fuel) r_cur grows low (λ rise within.
      loop_lem fuel (demand q higher r_cur) (demand_mono r_cur (demand q higher r_cur) grows)
        (λ t c. next r_cur t low c) (omega arith))

-- `computeResponseTime` of the server at the position `i`, where the servers of higher priority
-- have a period that fits an `int`: it ends; if its answer is at most the period, that is the least
-- span of time that covers its own demand, and equal to it; otherwise no span up to the period
-- does.
pub compute_response_time-least :
    (servers : List ServerInfo) (i : ℕ) (s : ServerInfo)
    → get_elem? servers i ≡ some s
    → Periodic (take i servers)
    → Response s.q s.p (take i servers) (compute_response_time servers i)
unfolding compute_response_time
compute_response_time-least servers i s e periods =
    rw (e, compute_response_time)
      (rw two (
        loop_lem s.q s.p (take i servers) periods (s.p + 1) s.q (omega arith) (λ t c. omega arith)
          (omega arith)))
  where
    two : s.p + 2 ≡ suc (s.p + 1)
    two = omega arith

-- The test is the existence of a span within the period that covers its demand.
pub meets_period_iff :
    (servers : List ServerInfo) (i : ℕ) (s : ServerInfo)
    → get_elem? servers i ≡ some s
    → Periodic (take i servers)
    → (meets_period servers i ≡ true) ↔ ((t : ℕ) × (t ≤ s.p) × Covers s.q (take i servers) t)
unfolding meets_period
meets_period_iff servers i s e periods =
    rw (e, meets_period)
      (by_answer (compute_response_time servers i)
        (compute_response_time-least servers i s e periods))
  where
    by_answer :
        (o : Option ℕ)
        → Response s.q s.p (take i servers) o
        → ((elim o [ none ↦ false | some r ↦ leb r s.p ]) ≡ true)
          ↔ ((t : ℕ) × (t ≤ s.p) × Covers s.q (take i servers) t)
    by_answer none x = absurd x
    by_answer (some r) (inl (within, same, least)) =
        (λ h. (r, within, omega arith), λ h. ground arith)
    by_answer (some r) (inr (past, none_fits)) =
        (λ h. absurd (ground arith), λ (t, le, c). let far = none_fits t c in absurd (omega arith))
