-- ===== src/ResponseTime.antt =====
-- librtsim/schedrta.cpp: the response-time analysis of a set of servers, and the search for the
-- largest budget that it accepts. Budgets and periods are natural numbers, and a `Server *` is a
-- number. The table is in the order of rate-monotonic priority: `std::sort` is an argument of
-- `add_server`. The vectors `period`, `wcet` and `U`, which the analysis never reads, and debug
-- output are left out.
pub mod Monotone
pub mod Least
pub mod Search
pub mod Change
pub mod Examples
use partsim.Prelude.{
  ℕ, zero, suc, ◌+◌, ◌-◌, ◌*◌, ◌/◌, ◌≡◌, Bool, true, false, ◌&&◌, Option, none, some, List, [], ◌∷◌,
  ◌++◌, ltb, leb, ◌==◌, if◌then◌else◌, length, get_elem?, set, take,
}
use partsim.Prelude.Int.{ℤ, pos, negsuc, ◌+ℤ◌, ◌-ℤ◌, ltb_ℤ}
use partsim.Tick.{to_int32}

pub record ServerInfo : Type 0 where
  pub server : ℕ
  pub q : ℕ
  pub p : ℕ
  pub r : ℕ

-- The constructor of `ServerInfo`.
abbrev pub new_info : (server budget period : ℕ) → ServerInfo
new_info s budget period = record { server = s; q = budget; p = period; r = 0 }

unfoldable pub add_server :
    (List ServerInfo → List ServerInfo) → ServerInfo → List ServerInfo → List ServerInfo
add_server sort s servers = sort (servers ++ s ∷ [])

-- `int(P)`, which keeps 32 bits. The quotient by a number that is zero is undefined in the source,
-- and by one below zero it is not positive; both are outside the model, which takes 0 for it.
unfoldable pub int_period : ℕ → ℕ
int_period p = elim (to_int32 (pos p)) [ pos d ↦ d | negsuc d ↦ 0 ]

-- `(r_cur + P - 1) / int(P)`
unfoldable pub ceil_div : ℕ → ℕ → ℕ
unfolding int_period
ceil_div r p = (r + p - 1) / int_period p

-- The time that the servers of higher priority take in a span of `r`.
unfoldable pub interference : List ServerInfo → ℕ → ℕ
unfolding ceil_div
interference [] r = 0
interference (s ∷ ss) r = ceil_div r s.p * s.q + interference ss r

abbrev pub demand : ℕ → List ServerInfo → ℕ → ℕ
demand q higher r = q + interference higher r

-- The `do` loop: `none` means that the fuel ran out.
unfoldable pub response_loop : (fuel : ℕ) → List ServerInfo → (q p r_cur : ℕ) → Option ℕ
unfolding interference
response_loop zero higher q p r_cur = none
response_loop (suc fuel) higher q p r_cur =
    let r_new = demand q higher r_cur in
    let rest = response_loop fuel higher q p r_new in
    if ltb r_cur r_new && leb r_new p then rest else some r_new

-- A round raises the response time or is the last, and it stops past the period.
unfoldable pub compute_response_time : List ServerInfo → ℕ → Option ℕ
unfolding response_loop
compute_response_time servers i = elim (get_elem? servers i) [
  | none ↦ none
  | some s ↦ response_loop (s.p + 2) (take i servers) s.q s.p s.q
]

-- `computeResponseTime(i) <= servers[i].P`
unfoldable pub meets_period : List ServerInfo → ℕ → Bool
unfolding compute_response_time
meets_period servers i = elim (get_elem? servers i) [
  | none ↦ false
  | some s ↦ elim (compute_response_time servers i) [ none ↦ false | some r ↦ leb r s.p ]
]

-- `updateResponseTimes`, for the servers from `i` on; `count` are left.
unfoldable pub update_response_times : (count i : ℕ) → List ServerInfo → Option (List ServerInfo)
unfolding compute_response_time
update_response_times zero i servers = some servers
update_response_times (suc count) i servers = elim (get_elem? servers i) [
  | none ↦ none
  | some s ↦ elim (compute_response_time servers i) [
    | none ↦ none
    | some r ↦ update_response_times count (suc i) (set servers i (record s { r = r }))
  ]
]

-- `for (j = i; schedules && j < n; ++j)`, with `count` servers left.
unfoldable pub all_meet : (count i : ℕ) → List ServerInfo → Bool
unfolding meets_period
all_meet zero i servers = true
all_meet (suc count) i servers =
    let rest = all_meet count (suc i) servers in if meets_period servers i then rest else false

abbrev pub with_budget : ℕ → ℕ → List ServerInfo → List ServerInfo
with_budget i b servers = elim (get_elem? servers i) [
  | none ↦ servers
  | some s ↦ set servers i (record s { q = b })
]

-- `tryBudget`: the budget is put in for the test alone.
unfoldable pub try_budget : List ServerInfo → ℕ → ℕ → Bool
unfolding all_meet
try_budget servers i b = all_meet (length servers - i) i (with_budget i b servers)

unfoldable pub search_between : (fuel : ℕ) → List ServerInfo → (i b1 b2 : ℕ) → Option ℕ
unfolding try_budget
search_between zero servers i b1 b2 = none
search_between (suc fuel) servers i b1 b2 =
    let b = (b1 + b2) / 2 in
    let upper = search_between fuel servers i b b2 in
    let lower = search_between fuel servers i b1 b in
    if b1 == b2
    then some b1
    else if b2 == b1 + 1
    then (if try_budget servers i b2 then some b2 else some b1)
    else if try_budget servers i b
    then upper
    else lower

-- `searchBudget(i)`: from the present budget to the period.
unfoldable pub search_budget : List ServerInfo → ℕ → Option ℕ
unfolding search_between
search_budget servers i = elim (get_elem? servers i) [
  | none ↦ none
  | some s ↦ search_between (s.p + 1) servers i s.q s.p
]

-- The position of a server, from `i` on; the `assert` fails where there is none.
unfoldable pub find_server : ℕ → ℕ → List ServerInfo → Option ℕ
find_server server i [] = none
find_server server i (s ∷ ss) =
    let rest = find_server server (suc i) ss in if s.server == server then some i else rest

-- The budget after the change, no more than `max_b`.
abbrev pub changed_budget : (cur_b max_b : ℕ) → ℤ → ℤ
changed_budget cur_b max_b db =
    let new_b = pos cur_b +ℤ db in if ltb_ℤ (pos max_b) new_b then pos max_b else new_b

-- The effective change, the budget that the server is told, and the new table.
abbrev pub apply_budget : List ServerInfo → (i cur_b : ℕ) → ℤ → Option (ℤ × ℕ × List ServerInfo)
apply_budget servers i cur_b (negsuc b) = none
apply_budget servers i cur_b (pos b) = some (pos b -ℤ pos cur_b, b, with_budget i b servers)

-- `changeBudget` of the server at the position `i`.
unfoldable pub change_at : ℕ → ℤ → List ServerInfo → Option (ℤ × ℕ × List ServerInfo)
unfolding search_budget
change_at i db servers = elim (get_elem? servers i) [
  | none ↦ none
  | some s ↦ elim (search_budget servers i) [
    | none ↦ none
    | some max_b ↦ apply_budget servers i s.q (changed_budget s.q max_b db)
  ]
]

-- `changeBudget`. A server that is not in the table fails the `assert`; a budget that would fall
-- below zero is outside the model.
unfoldable pub change_budget : ℕ → ℤ → List ServerInfo → Option (ℤ × ℕ × List ServerInfo)
unfolding find_server change_at
change_budget server db servers = elim (find_server server 0 servers) [
  | none ↦ none
  | some i ↦ change_at i db servers
]
