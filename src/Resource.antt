-- ===== src/Resource.antt =====
-- librtsim/resource: Resource (resource.cpp), ResManager (resmanager.cpp) and FCFSResManager
-- (fcfsresmanager.cpp). The managers PIRManager and BWI are not part of the build (librtsim/
-- CMakeLists.txt) and are left out. A `Resource *` and an `AbsRTTask *` are numbers, and counts of
-- units are the `int`s of the source without overflow.
pub mod Accounting
pub mod Serve
pub mod Release
pub mod Single
pub mod Units
pub mod Usage
pub mod Examples
use Prim.Native.String.{String}
use text.Mathlib.Text.{◌==◌ as str_eq}
use partsim.Prelude.{
  ℕ, zero, suc, ltb, ◌+◌, Bool, true, false, ◌&&◌, ◌||◌, not, Option, none, some, List, [], ◌∷◌,
  ◌++◌, ◌==◌, if◌then◌else◌, length,
}
use partsim.Prelude.Int.{ℤ, pos, ◌+ℤ◌, ◌-ℤ◌, ltb_ℤ, leb_ℤ, eqb_ℤ}
use partsim.Prelude.Action.{
  Action, Outcome, return, throw, get, modify, pure, raise, on_part, ◌>>=◌, ◌>>◌,
  resource_not_found, out_of_fuel,
}

pub record Resource : Type 0 where
  pub total : ℤ
  pub available : ℤ
  pub available_initial : ℤ
  pub owner : Option ℕ

-- The constructor.
abbrev pub new_resource : ℤ → ℤ → Resource
new_resource nr nr_available = record {
  total = nr;
  available = nr_available;
  available_initial = nr_available;
  owner = none;
}

unfoldable pub lock : ℕ → ℤ → Resource → Resource
lock t n r = record r { available = r.available -ℤ n; owner = some t }

unfoldable pub unlock : ℤ → Resource → Resource
unlock n r = record r { available = r.available +ℤ n; owner = none }

unfoldable pub is_locked : Resource → Bool
is_locked r = eqb_ℤ r.available (pos 0)

-- `Resource::newRun`: the owner is left as it is.
unfoldable pub resource_new_run : Resource → Resource
resource_new_run r = record r { available = r.available_initial }

-- `request_t`
pub record Request : Type 0 where
  pub task : ℕ
  pub nr : ℤ

-- A kernel, or a server with the kernel that `AbsRTTask::getKernel` gives for it.
pub data Kernel : Type 0 where
  rt_kernel : ℕ → Kernel
  server : ℕ → Kernel → Kernel

-- `findNonServerKernel`: climbs from the servers to the kernel.
unfoldable pub find_non_server_kernel : Kernel → ℕ
find_non_server_kernel (rt_kernel k) = k
find_non_server_kernel (server s parent) = find_non_server_kernel parent

-- What the manager calls of the tasks and kernels: `getKernel` of a task, `suspend` and `activate`
-- of that kernel on the task, and `dispatch` of a non-server kernel, on the kernels' state `K`.
pub record Kernels (K : Type 0) : Type 0 where
  pub get_kernel : ℕ → Kernel
  pub suspend : ℕ → Action K (Unit {0})
  pub activate : ℕ → Action K (Unit {0})
  pub dispatch : ℕ → Action K (Unit {0})

pub record Manager (K : Type 0) : Type 0 where
  pub names : List (String × ℕ)
  pub resources : ℕ → Resource
  pub blocked : ℕ → List Request
  pub kernels : K

abbrev pub find_name : String → List (String × ℕ) → Option ℕ
find_name name [] = none
find_name name ((k, r) ∷ rest) = if str_eq k name then some r else find_name name rest

module _ {K : Type 0} where
  abbrev pub put_resource : ℕ → Resource → Manager K → Manager K
  put_resource r x m = record m { resources = λ j. if j == r then x else m.resources j }

  abbrev pub put_blocked : ℕ → List Request → Manager K → Manager K
  put_blocked r q m = record m { blocked = λ j. if j == r then q else m.blocked j }

  abbrev pub on_kernels : Action K (Unit {0}) → Action (Manager K) (Unit {0})
  on_kernels k = on_part (λ m. m.kernels) (λ k' m. record m { kernels = k' }) k

  -- `addResource`, of a resource made at the address `r`: a name that is present is left as it is.
  unfoldable pub add_resource : String → ℤ → ℤ → ℕ → Action (Manager K) (Unit {0})
  add_resource name nr nr_initial r m = elim (find_name name m.names) [
    | some _ ↦ (return tt, m)
    | none ↦ (
      return tt,
      record (put_resource r (new_resource nr nr_initial) m) { names = (name, r) ∷ m.names },
    )
  ]

  unfoldable pub has_resource : String → Manager K → Bool
  has_resource name m = elim (find_name name m.names) [ none ↦ false | some _ ↦ true ]

  -- `FCFSResManager::newRun`
  unfoldable pub new_run : Action (Manager K) (Unit {0})
  new_run = modify (λ m. record m { blocked = λ r. [] })

  module _ (k : Kernels K) where
    -- `FCFSResManager::request`
    unfoldable pub request : ℕ → ℕ → ℤ → Action (Manager K) Bool
    request t r nr m =
        if ltb 0 (length (m.blocked r)) || ltb_ℤ (m.resources r).available nr
        then (on_kernels (k.suspend t)
              >> (modify
                    (λ m'. put_blocked r (m'.blocked r ++ record { task = t; nr = nr } ∷ []) m')
                  >> pure false))
            m
        else (modify (put_resource r (lock t nr (m.resources r))) >> pure true) m

    -- One waiting request that fits: it leaves the queue, locks, and its task is woken.
    unfoldable pub grant : ℕ → Request → List Request → Action (Manager K) (Unit {0})
    grant r q rest = do
      modify (put_blocked r rest)
      m ← get
      modify (put_resource r (lock q.task q.nr (m.resources r)))
      on_kernels (k.activate q.task)
      on_kernels (k.dispatch (find_non_server_kernel (k.get_kernel q.task)))

    -- `while (nr_available > 0 && !_blocked[r].empty())`
    unfoldable pub release_loop : ℕ → ℕ → ℤ → Action (Manager K) (Unit {0})
    release_loop zero r nr_available m = (throw out_of_fuel, m)
    release_loop (suc fuel) r nr_available m = elim (m.blocked r) [
      | [] ↦ (return tt, m)
      | q ∷ rest ↦ elim (ltb_ℤ (pos 0) nr_available) [
        | false ↦ (return tt, m)
        | true ↦ elim (leb_ℤ q.nr nr_available) [
          | true ↦ (grant r q rest >> release_loop fuel r (nr_available -ℤ q.nr)) m
          | false ↦ release_loop fuel r (nr_available -ℤ q.nr) m
        ]
      ]
    ]

    -- `FCFSResManager::release`. A round takes a waiting request or is the last one, so two rounds
    -- more than there are waiting requests are enough.
    unfoldable pub release : ℕ → ℕ → ℤ → Action (Manager K) (Unit {0})
    release t r nr m =
        let m' = put_resource r (unlock nr (m.resources r)) m in
        release_loop (length (m.blocked r) + 2) r (m'.resources r).available m'

    -- `ResManager::request` and `release` by name.
    unfoldable pub request_name : ℕ → String → ℤ → Action (Manager K) Bool
    unfolding request
    request_name t name nr m = elim (find_name name m.names) [
      | none ↦ (throw resource_not_found, m)
      | some r ↦ request t r nr m
    ]

    unfoldable pub release_name : ℕ → String → ℤ → Action (Manager K) (Unit {0})
    unfolding release
    release_name t name nr m = elim (find_name name m.names) [
      | none ↦ (throw resource_not_found, m)
      | some r ↦ release t r nr m
    ]
