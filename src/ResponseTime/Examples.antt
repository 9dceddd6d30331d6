-- ===== src/ResponseTime/Examples.antt =====
-- Three servers with the periods 4, 6 and 10.
use partsim.Prelude.{◌≡◌, refl, some, List, [], ◌∷◌, take, arith}
use partsim.Prelude.Int.{pos}
use partsim.Tick.{to_int32}
use partsim.ResponseTime.{
  ServerInfo, new_info, ceil_div, interference, int_period, response_loop, compute_response_time,
  meets_period, all_meet, try_budget, search_between, search_budget, find_server, change_budget,
}
use partsim.ResponseTime.Monotone.{Periodic}
use partsim.ResponseTime.Least.{Response, compute_response_time-least}
use partsim.ResponseTime.Search.{Largest, search_budget-Largest}
use partsim.ResponseTime.Change.{Raised, change_budget-raise}

abbrev table : List ServerInfo
table = new_info 1 1 4 ∷ new_info 2 2 6 ∷ new_info 3 1 10 ∷ []

table-Periodic : Periodic table
table-Periodic =
    (omega arith, omega arith, (omega arith, omega arith, (omega arith, omega arith, tt)))

-- The last server waits for one budget of each of the others.
last_response : compute_response_time table 2 ≡ some 4
unfolding compute_response_time response_loop interference ceil_div int_period to_int32
last_response = refl

second_budget : search_budget table 1 ≡ some 3
unfolding search_budget search_between try_budget all_meet meets_period compute_response_time
    response_loop interference ceil_div int_period to_int32
second_budget = refl

compute_response_time-least_example : Response 1 10 (take 2 table) (compute_response_time table 2)
compute_response_time-least_example =
    compute_response_time-least table 2 (new_info 3 1 10) refl
      (omega arith, omega arith, (omega arith, omega arith, tt))

search_budget-Largest_example : Largest table 1 2 6 (search_budget table 1)
search_budget-Largest_example =
    search_budget-Largest table 1 (new_info 2 2 6) table-Periodic refl (omega arith)

change_budget-raise_example : Raised table 1 (new_info 2 2 6) 5 (change_budget 2 (pos 5) table)
unfolding find_server
change_budget-raise_example =
    change_budget-raise 2 table 1 (new_info 2 2 6) 5 table-Periodic refl refl (omega arith)
