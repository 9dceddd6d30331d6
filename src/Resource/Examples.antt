-- ===== src/Resource/Examples.antt =====
-- One resource of two units: task 1 holds one of them, tasks 2 and 3 wait.
use partsim.Prelude.{ℕ, ◌≡◌, refl, List, [], ◌∷◌, some, none, length, arith}
use partsim.Prelude.Int.{pos, ◌+ℤ◌, ◌-ℤ◌, ◌≤ℤ◌}
use partsim.Prelude.Action.{modify}
use partsim.Resource.{
  rt_kernel, server, Kernels, Manager, request, release, release_loop, grant, lock, unlock,
  find_non_server_kernel, Request,
}
use partsim.Resource.Serve.{serve, units, Stuck, IsFair}
use partsim.Resource.Usage.{Usage, Reaches, here, next, gets, waits, returns, Reaches-exclusive}
use partsim.Resource.Release.{Answers, Released, release-IsFair}

-- Kernels that note what they are asked: a task, or 100 and more for a dispatch.
abbrev noting : Kernels (List ℕ)
noting = record {
  get_kernel = λ t. server 9 (rt_kernel 100);
  suspend = λ t. modify (λ l. t ∷ l);
  activate = λ t. modify (λ l. t ∷ l);
  dispatch = λ j. modify (λ l. j ∷ l);
}

noting-Answers : Answers noting
noting-Answers = record {
  suspends = λ t s. refl;
  activates = λ t s. refl;
  dispatches = λ j s. refl;
}

abbrev held : Manager (List ℕ)
held = record {
  names = [];
  resources =
      λ r. record { total = pos 2; available = pos 1; available_initial = pos 2; owner = some 1 };
  blocked = λ r. record { task = 2; nr = pos 2 } ∷ record { task = 3; nr = pos 1 } ∷ [];
  kernels = [];
}

release-held : (release noting 1 0 (pos 1) held).1.kernels ≡ 100 ∷ 2 ∷ []
unfolding release release_loop grant lock unlock find_non_server_kernel ◌+ℤ◌ ◌-ℤ◌
release-held = refl

release-IsFair_example :
    Released noting 0 held
      (serve (pos 1 +ℤ pos 1) (held.blocked 0))
      (release noting 1 0 (pos 1) held)
    × IsFair (pos 1 +ℤ pos 1) (held.blocked 0) (serve (pos 1 +ℤ pos 1) (held.blocked 0))
release-IsFair_example = release-IsFair noting noting-Answers 1 0 (pos 1) held

-- Task 1 takes both units, tasks 2 and 3 ask for one each and wait, then task 1 gives its units
-- back.
abbrev unused : Usage (List ℕ)
unused = record {
  manager = record {
    names = [];
    resources =
        λ r. record { total = pos 2; available = pos 2; available_initial = pos 2; owner = none };
    blocked = λ r. [];
    kernels = [];
  };
  holders = [];
}

abbrev both : Request
both = record { task = 1; nr = pos 2 }

abbrev one_for : ℕ → Request
one_for t = record { task = t; nr = pos 1 }

abbrev taken : Usage (List ℕ)
taken = record { manager = (request noting 1 0 (pos 2) unused.manager).1; holders = both ∷ [] }

abbrev awaited : Usage (List ℕ)
awaited = record { manager = (request noting 2 0 (pos 1) taken.manager).1; holders = both ∷ [] }

abbrev crowded : Usage (List ℕ)
crowded = record { manager = (request noting 3 0 (pos 1) awaited.manager).1; holders = both ∷ [] }

abbrev passed_on : Usage (List ℕ)
passed_on = record {
  manager = (release noting 1 0 (pos 2) crowded.manager).1;
  holders = one_for 2 ∷ one_for 3 ∷ [];
}

unused-passed_on : Reaches noting 0 unused passed_on
unfolding request release release_loop grant lock unlock find_non_server_kernel ◌+ℤ◌ ◌-ℤ◌
unused-passed_on =
    next
      (next
        (next (next here (gets both (omega arith) refl refl))
          (waits (one_for 2) (omega arith) refl refl))
        (waits (one_for 3) (omega arith) refl refl))
      (returns both [] [] (one_for 2 ∷ one_for 3 ∷ []) refl refl refl refl)

Reaches-exclusive_example :
    ((passed_on.manager.resources 0).available +ℤ units passed_on.holders ≡ pos 2)
    × (pos 0 ≤ℤ (passed_on.manager.resources 0).available)
    × Stuck (passed_on.manager.resources 0).available (passed_on.manager.blocked 0)
    × (pos (length passed_on.holders) ≤ℤ pos 2)
Reaches-exclusive_example =
    Reaches-exclusive noting 0 (pos 2) unused passed_on noting-Answers refl refl refl (omega arith)
      unused-passed_on
