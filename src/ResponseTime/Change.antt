-- ===== src/ResponseTime/Change.antt =====
-- A raise of a budget is cut down to the largest one that the analysis accepts.
use partsim.Prelude.{
  ℕ, ◌+◌, ◌-◌, ◌≤◌, ◌<◌, ◌≡◌, refl, inl, inr, true, false, Option, none, some, List, arith, ltb,
  Bool-cases, get_elem?, length, if◌then◌else◌,
}
use partsim.Prelude.Int.{ℤ, pos, ◌+ℤ◌, ◌-ℤ◌}
use partsim.ResponseTime.{
  ServerInfo, all_meet, with_budget, try_budget, search_budget, changed_budget, change_at,
  apply_budget, find_server, change_budget,
}
use partsim.ResponseTime.Monotone.{Periodic}
use partsim.ResponseTime.Search.{Largest, try_budget-antitone, search_budget-Largest}

-- What a raise by `d` answers: the effective change, the new budget and the new table.
abbrev pub Raised :
    List ServerInfo → (i : ℕ) → ServerInfo → (d : ℕ) → Option (ℤ × ℕ × List ServerInfo) → Type 0
Raised servers i s d none = ⊥
Raised servers i s d (some (change, b, after)) =
    (change ≡ pos (b - s.q))
    × (after ≡ with_budget i b servers)
    × (s.q ≤ b)
    × (b ≤ s.q + d)
    × (b ≤ s.p)
    × (s.q < b → all_meet (length servers - i) i after ≡ true)
    × (b < s.q + d → (c : ℕ) → b < c → c ≤ s.p → try_budget servers i c ≡ false)

changed_budget-pos :
    (q max_b d : ℕ)
    → changed_budget q max_b (pos d) ≡ pos (if ltb max_b (q + d) then max_b else q + d)
unfolding ◌+ℤ◌
changed_budget-pos q max_b d = ground arith

difference : (b q : ℕ) → q ≤ b → pos b -ℤ pos q ≡ pos (b - q)
unfolding ◌-ℤ◌
difference b q le = ground arith

module _ (servers : List ServerInfo) (i : ℕ) (s : ServerInfo) (d : ℕ) where
  Raised-max :
      (max_b : ℕ)
      → Largest servers i s.q s.p (some max_b)
      → max_b < s.q + d
      → Raised servers i s d (apply_budget servers i s.q (pos max_b))
  unfolding try_budget
  Raised-max max_b (low, high, ok, more) lt = (
    difference max_b s.q low,
    refl,
    low,
    omega arith,
    high,
    ok,
    λ _ c above within. more c above within,
  )

  Raised-full :
      (max_b : ℕ)
      → Periodic servers
      → Largest servers i s.q s.p (some max_b)
      → s.q + d ≤ max_b
      → Raised servers i s d (apply_budget servers i s.q (pos (s.q + d)))
  unfolding try_budget
  Raised-full max_b periods (low, high, ok, more) le = (
    difference (s.q + d) s.q (omega arith),
    refl,
    omega arith,
    omega arith,
    omega arith,
    (λ lt. try_budget-antitone servers i periods (s.q + d) max_b le (ok (omega arith))),
    λ lt c above within. absurd (omega arith),
  )

  Raised-change :
      (max_b : ℕ)
      → Periodic servers
      → Largest servers i s.q s.p (some max_b)
      → Raised servers i s d (apply_budget servers i s.q (changed_budget s.q max_b (pos d)))
  Raised-change max_b periods l =
      rw (changed_budget-pos s.q max_b d) (elim (Bool-cases (ltb max_b (s.q + d))) [
        | inl cut ↦ rw cut (Raised-max max_b l (ground arith))
        | inr full ↦ rw full (Raised-full max_b periods l (ground arith))
      ])

module _ (servers : List ServerInfo) (i : ℕ) (s : ServerInfo) (d : ℕ) where
  change_at-Raised :
      Periodic servers
      → get_elem? servers i ≡ some s
      → s.q ≤ s.p
      → Raised servers i s d (change_at i (pos d) servers)
  unfolding change_at
  change_at-Raised periods e le =
      rw (e, change_at)
        (by_answer (search_budget servers i) (search_budget-Largest servers i s periods e le))
    where
      by_answer :
          (o : Option ℕ)
          → Largest servers i s.q s.p o
          → Raised servers i s d (elim o [
            | none ↦ none
            | some max_b ↦ apply_budget servers i s.q (changed_budget s.q max_b (pos d))
          ])
      by_answer none l = absurd l
      by_answer (some max_b) l = Raised-change servers i s d max_b periods l

-- `changeBudget` by `d ≥ 0` of a server that the table has at the position `i`, its budget at most
-- its period, where every server has a period that fits an `int`: the new budget lies between the
-- old one and the old one plus `d`, and is at most the period; only that entry of the table
-- changes, and the answer is the increase; if there is an increase, every server from `i` on meets
-- its period in the new table; if the increase is less than `d`, the analysis refuses every larger
-- budget up to the period.
pub change_budget-raise :
    (server : ℕ) (servers : List ServerInfo) (i : ℕ) (s : ServerInfo) (d : ℕ)
    → Periodic servers
    → find_server server 0 servers ≡ some i
    → get_elem? servers i ≡ some s
    → s.q ≤ s.p
    → Raised servers i s d (change_budget server (pos d) servers)
unfolding change_budget
change_budget-raise server servers i s d periods found e le =
    rw (found, change_budget) (change_at-Raised servers i s d periods e le)
