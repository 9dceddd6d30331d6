-- ===== src/Resource/Usage.antt =====
-- FCFSResManager: the units that tasks hold, over any sequence of requests and releases.
use partsim.Prelude.{ℕ, ◌≡◌, sym, ap, ◌∙◌, subst, true, false, List, [], ◌∷◌, ◌++◌, length}
use partsim.Prelude.Int.{ℤ, pos, ◌+ℤ◌, ◌≤ℤ◌, ◌<ℤ◌, pos_part, neg_part, int_laws}
use partsim.Prelude.Action.{return}
use partsim.Resource.{Request, Kernels, Manager, request, release}
use partsim.Resource.Serve.{serve, units, Stuck}
use partsim.Resource.Release.{Answers, Released, release-IsFair}
use partsim.Resource.Accounting.{IsBusy, RequestOutcome, request-outcome, request-IsBusy}
use partsim.Resource.Units.{
  IsPositive, units-append, IsPositive-append, IsPositive_parts, serve-enough, taken, given,
  units_cancel, length-units,
}

-- The manager, and the requests for the resource that were granted and not released yet.
pub record Usage (K : Type 0) : Type 0 where
  pub manager : Manager K
  pub holders : List Request

-- What tasks do with the resource `r`, one at a time. What leaves the waiting queue is held.
pub data Uses {K : Type 0} (k : Kernels K) (r : ℕ) (u u' : Usage K) : Type 0 where
  gets :
      (q : Request)
      → pos 0 <ℤ q.nr
      → request k q.task r q.nr u.manager ≡ (return true, u'.manager)
      → u'.holders ≡ q ∷ u.holders
      → Uses k r u u'
  waits :
      (q : Request)
      → pos 0 <ℤ q.nr
      → request k q.task r q.nr u.manager ≡ (return false, u'.manager)
      → u'.holders ≡ u.holders
      → Uses k r u u'
  returns :
      (q : Request) (before after granted : List Request)
      → u.holders ≡ before ++ q ∷ after
      → release k q.task r q.nr u.manager ≡ (return tt, u'.manager)
      → granted ++ u'.manager.blocked r ≡ u.manager.blocked r
      → u'.holders ≡ granted ++ (before ++ after)
      → Uses k r u u'
  elsewhere :
      u'.manager.blocked r ≡ u.manager.blocked r
      → u'.manager.resources r ≡ u.manager.resources r
      → u'.holders ≡ u.holders
      → Uses k r u u'

pub data Reaches {K : Type 0} (k : Kernels K) (r : ℕ) (u : Usage K) : Usage K → Type 0 where
  here : Reaches k r u u
  next : {v w : Usage K} → Reaches k r u v → Uses k r v w → Reaches k r u w

-- `total` units, held or available, and nobody waits who could be served.
pub record IsShared {K : Type 0} (r : ℕ) (total : ℤ) (u : Usage K) : Type 0 where
  pub balance : (u.manager.resources r).available +ℤ units u.holders ≡ total
  pub enough : pos 0 ≤ℤ (u.manager.resources r).available
  pub busy : IsBusy r u.manager
  pub held : IsPositive u.holders
  pub awaited : IsPositive (u.manager.blocked r)

module _ {K : Type 0} (k : Kernels K) (answers : Answers k) (r : ℕ) (total : ℤ) where
  gets-IsShared :
      (u u' : Usage K) (q : Request)
      → IsShared r total u
      → pos 0 <ℤ q.nr
      → request k q.task r q.nr u.manager ≡ (return true, u'.manager)
      → u'.holders ≡ q ∷ u.holders
      → IsShared r total u'
  gets-IsShared u u' q i some e h =
      let (nobody, fits, less, owner, none_left, kernels, others) =
        subst (RequestOutcome k q.task r q.nr u.manager) e
          (request-outcome k answers q.task r q.nr u.manager) in
      record {
        balance =
            rw (less, h)
              (taken (u.manager.resources r).available q.nr (units u.holders) ∙ i.balance);
        enough = rw less (omega (int_laws, fits));
        busy = subst (Stuck (u'.manager.resources r).available) (sym none_left) tt;
        held = subst IsPositive (sym h) (some, i.held);
        awaited = subst IsPositive (sym none_left) tt;
      }

  waits-IsShared :
      (u u' : Usage K) (q : Request)
      → IsShared r total u
      → pos 0 <ℤ q.nr
      → request k q.task r q.nr u.manager ≡ (return false, u'.manager)
      → u'.holders ≡ u.holders
      → IsShared r total u'
  waits-IsShared u u' q i some e h =
      let (reason, joined, resources, kernels) =
        subst (RequestOutcome k q.task r q.nr u.manager) e
          (request-outcome k answers q.task r q.nr u.manager) in
      record {
        balance = rw (resources, h) i.balance;
        enough = rw resources i.enough;
        busy =
            subst (λ x. IsBusy r x.1) e (request-IsBusy k answers q.task r q.nr u.manager i.busy);
        held = subst IsPositive (sym h) i.held;
        awaited = subst IsPositive (sym joined) (
            IsPositive-append (u.manager.blocked r) (record { task = q.task; nr = q.nr } ∷ [])
              i.awaited (some, tt));
      }

  returns-IsShared :
      (u u' : Usage K) (q : Request) (before after granted : List Request)
      → IsShared r total u
      → u.holders ≡ before ++ q ∷ after
      → release k q.task r q.nr u.manager ≡ (return tt, u'.manager)
      → granted ++ u'.manager.blocked r ≡ u.manager.blocked r
      → u'.holders ≡ granted ++ (before ++ after)
      → IsShared r total u'
  returns-IsShared u u' q before after granted i own e left h =
      let available = (u.manager.resources r).available in
      let s = serve (available +ℤ q.nr) (u.manager.blocked r) in
      let (outcome, fair) = release-IsFair k answers q.task r q.nr u.manager in
      let done : Released k r u.manager s (return tt, u'.manager) =
        subst (Released k r u.manager s) e outcome in
      let low = i.enough in
      let (some_before, some_after) =
        IsPositive_parts before (q ∷ after) (subst IsPositive own i.held) in
      let more = some_after.0 in
      let (some_granted, some_waiting) =
        IsPositive_parts granted (u'.manager.blocked r) (subst IsPositive (sym left) i.awaited) in
      let same : units granted ≡ units s.granted =
        units_cancel granted s.granted s.waiting
          (ap (λ l. granted ++ l) (sym done.now_blocked) ∙ left ∙ sym fair.in_order) in
      record {
        balance =
            rw
              (
                done.now_available,
                h,
                units-append granted (before ++ after),
                units-append before after,
                same,
              )
              (given s.left (units s.granted) available q.nr (units before) (units after)
                  fair.accounts
                ∙ rw (← units-append before (q ∷ after), ← own) i.balance);
        enough =
            rw done.now_available (
              serve-enough (available +ℤ q.nr) (u.manager.blocked r) (omega (int_laws, more, low)));
        busy = rw (done.now_available, done.now_blocked) fair.maximal;
        held = subst IsPositive (sym h) (
            IsPositive-append granted (before ++ after) some_granted
              (IsPositive-append before after some_before some_after.1));
        awaited = some_waiting;
      }

  Uses-IsShared : {u u' : Usage K} → Uses k r u u' → IsShared r total u → IsShared r total u'
  Uses-IsShared {u} {u'} (gets q some e h) i = gets-IsShared u u' q i some e h
  Uses-IsShared {u} {u'} (waits q some e h) i = waits-IsShared u u' q i some e h
  Uses-IsShared {u} {u'} (returns q before after granted own e left h) i =
      returns-IsShared u u' q before after granted i own e left h
  Uses-IsShared {u} {u'} (elsewhere queue resource h) i = record {
    balance = rw (resource, h) i.balance;
    enough = rw resource i.enough;
    busy = rw (resource, queue) i.busy;
    held = rw h i.held;
    awaited = rw queue i.awaited;
  }

  Reaches-IsShared : {u u' : Usage K} → IsShared r total u → Reaches k r u u' → IsShared r total u'
  Reaches-IsShared i here = i
  Reaches-IsShared i (next steps step) = Uses-IsShared step (Reaches-IsShared i steps)

-- A resource of `total` units that nobody holds or waits for, over kernels whose methods return,
-- after any sequence of requests of positive amounts, releases of what is held, and anything that
-- leaves the resource and its queue alone: the available units are not negative and make `total`
-- with the held ones, the first waiting request is one that cannot be served, and at most `total`
-- granted requests are not released yet, so at most one for a resource of one unit.
pub Reaches-exclusive :
    {K : Type 0} (k : Kernels K) (r : ℕ) (total : ℤ) (u u' : Usage K)
    → Answers k
    → u.holders ≡ []
    → u.manager.blocked r ≡ []
    → (u.manager.resources r).available ≡ total
    → pos 0 ≤ℤ total
    → Reaches k r u u'
    → ((u'.manager.resources r).available +ℤ units u'.holders ≡ total)
      × (pos 0 ≤ℤ (u'.manager.resources r).available)
      × Stuck (u'.manager.resources r).available (u'.manager.blocked r)
      × (pos (length u'.holders) ≤ℤ total)
Reaches-exclusive k r total u u' answers free nobody all low steps =
    let start : IsShared r total u = record {
      balance = rw (free, all) (omega int_laws);
      enough = rw all low;
      busy = subst (Stuck (u.manager.resources r).available) (sym nobody) tt;
      held = subst IsPositive (sym free) tt;
      awaited = subst IsPositive (sym nobody) tt;
    } in
    let i = Reaches-IsShared k answers r total start steps in
    let balance = i.balance in
    let enough = i.enough in
    let each = length-units u'.holders i.held in
    (
      balance,
      enough,
      i.busy,
      omega (int_laws, each, enough, ap pos_part balance, ap neg_part balance),
    )
