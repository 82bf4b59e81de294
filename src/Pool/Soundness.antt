-- ===== src/Pool/Soundness.antt =====
-- What holds in every state that the pool reaches.
use libtmux_go.Base.{
  ℕ, ◌≤◌, ◌≡◌, ◌≢◌, ap, sym, subst, ◌∙◌, inl, inr, Bool, true, false, Option, none, some, List, [],
  ◌∷◌, length, length-append, if◌then◌else◌, arith, Bool-cases,
}
use libtmux_go.Pool.{
  Acquired, closed, lane, remove, LanePool, Failure, new_pool, survives, take, put_back, settle,
  first_failure, release, finish_release, stop, adopt, retire,
}
use libtmux_go.Pool.Steps.{
  count, count_closing, count_last, takes, settles, releases, finishes, stops, adopts, retires,
  Step, Reach, start, next, IsSound, count-append, count-remove, length-remove,
  length-remove_closing, count_closing-remove, count_last-remove, List-cases,
}

module _ {X : Type 0} where
  start-IsSound :
      (clients : List ℕ) → 1 ≤ length clients → IsSound (new_pool {X = X} clients) clients
  unfolding count count_closing count_last
  start-IsSound clients some_lane = record {
    counted = omega arith;
    bounded = omega arith;
    single = λ c. omega arith;
    drains = ground (arith, some_lane);
    reports = λ h. absurd (let no : ⊥ = omega (arith, h, some_lane) in no);
  }

  take-free :
      (p q : LanePool X) (c : ℕ)
      → take p ≡ some (c, q)
      → (rest : List ℕ) × (p.free ≡ c ∷ rest) × (record p { free = rest; taken = c ∷ p.taken } ≡ q)
  unfolding take
  take-free p q c h = elim (List-cases p.free) [
    | inl nothing ↦ absurd (let no : ⊥ = (let bad = rw (nothing, take) at h in cc) in no)
    | inr (x, rest, first) ↦
        (let same = rw (first, take) at h in
          let named : x ≡ c = cc in
          let after : record p { free = rest; taken = x ∷ p.taken } ≡ q = cc in
          (
            rest,
            first ∙ ap (λ u. u ∷ rest) named,
            ap (λ u. record p { free = rest; taken = u ∷ p.taken }) (sym named) ∙ after,
          ))
  ]

  takes-IsSound :
      (clients : List ℕ) (p : LanePool X) (c : ℕ) (rest : List ℕ)
      → IsSound p clients
      → p.free ≡ c ∷ rest
      → IsSound (record p { free = rest; taken = c ∷ p.taken }) clients
  unfolding count
  takes-IsSound clients p c rest s first = record {
    counted = omega (arith, s.counted, ap length first);
    bounded = s.bounded;
    single = λ d. (let one = ap (count d) first in ground (arith, s.single d, one));
    drains = s.drains;
    reports = s.reports;
  }

  put_back-IsSound :
      (clients : List ℕ) (p : LanePool X) (c : ℕ)
      → IsSound p clients
      → 1 ≤ count c p.taken
      → IsSound (put_back c p) clients
  unfolding count
  put_back-IsSound clients p c s there = record {
    counted =
        omega (arith, s.counted, length-remove c p.taken there, length-append p.free (c ∷ []));
    bounded = s.bounded;
    single = λ d.
        ground (arith, s.single d, count-remove c d p.taken there, count-append d p.free (c ∷ []));
    drains = s.drains;
    reports = s.reports;
  }

  settles-IsSound :
      (clients : List ℕ) (p : LanePool X) (done : Bool) (c : ℕ)
      → IsSound p clients
      → 1 ≤ count c p.taken
      → IsSound (settle done c p).1 clients
  unfolding settle count
  settles-IsSound clients p true c s there = put_back-IsSound clients p c s there
  settles-IsSound clients p false c s there =
      let kept = record p { taken = remove c p.taken; held = c ∷ p.held } in
      elim p.is_stopped
        as (λ b.
          IsSound
            ((if◌then◌else◌ {A = Acquired X × LanePool X} b (closed, put_back c p)
              (lane c, kept)).1)
            clients) [
              | true ↦ put_back-IsSound clients p c s there
              | false ↦ record {
                counted = omega (arith, s.counted, length-remove c p.taken there);
                bounded = s.bounded;
                single = λ d. ground (arith, s.single d, count-remove c d p.taken there);
                drains = s.drains;
                reports = s.reports;
              }
            ]

  first_failure-lost :
      (old outcome : Option (Failure X))
      → survives outcome ≡ false
      → first_failure old outcome ≢ none
  unfolding survives
  first_failure-lost old none h e = cc
  first_failure-lost none (some new) h e = cc
  first_failure-lost (some f) (some new) h e = cc

  releases-IsSound :
      (clients : List ℕ) (p : LanePool X) (c : ℕ) (outcome : Option (Failure X))
      → IsSound p clients
      → 1 ≤ count c p.held
      → IsSound (release c outcome p) clients
  unfolding release count survives count_closing count_last
  releases-IsSound clients p c outcome s there =
      let shorter = length-remove c p.held there in
      elim (Bool-cases (survives outcome)) [
        | inl back ↦ rw back (record {
          counted = omega (arith, s.counted, shorter, length-append p.free (c ∷ []));
          bounded = s.bounded;
          single = λ d.
              ground
                (arith, s.single d, count-remove c d p.held there, count-append d p.free (c ∷ []));
          drains = s.drains;
          reports = s.reports;
        })
        | inr gone ↦ rw gone (record {
          counted = omega (arith, s.counted, shorter);
          bounded = omega (arith, s.bounded, s.counted, shorter);
          single = λ d. ground (arith, s.single d, count-remove c d p.held there);
          drains = ground (arith, s.drains, s.counted, shorter);
          reports = λ h. first_failure-lost p.failure outcome gone;
        })
      ]

  finishes-IsSound :
      (clients : List ℕ) (p : LanePool X) (c : ℕ)
      → IsSound p clients
      → IsSound (finish_release c p) clients
  unfolding finish_release
  finishes-IsSound clients p c s = record {
    counted = s.counted;
    bounded = omega (arith, s.bounded, length-remove_closing c p.closings);
    single = λ d. omega (arith, s.single d, count_closing-remove c d p.closings);
    drains = ground (arith, s.drains, count_last-remove c p.closings);
    reports = s.reports;
  }

  stop-IsSound : (clients : List ℕ) (p : LanePool X) → IsSound p clients → IsSound (stop p) clients
  unfolding stop
  stop-IsSound clients p s = record {
    counted = s.counted;
    bounded = s.bounded;
    single = s.single;
    drains = s.drains;
    reports = s.reports;
  }

  adopt-IsSound :
      (clients : List ℕ) (p : LanePool X) (c : ℕ)
      → IsSound p clients
      → IsSound (adopt c p).1 clients
  unfolding adopt
  adopt-IsSound clients p c s =
      elim p.is_stopped
        as (λ b.
          IsSound
            ((if◌then◌else◌ {A = Bool × LanePool X} b (false, p)
              (true, record p { exclusive = c ∷ p.exclusive })).1)
            clients) [
              | true ↦ s
              | false ↦ record {
                counted = s.counted;
                bounded = s.bounded;
                single = s.single;
                drains = s.drains;
                reports = s.reports;
              }
            ]

  retire-IsSound :
      (clients : List ℕ) (p : LanePool X) (c : ℕ) → IsSound p clients → IsSound (retire c p) clients
  unfolding retire
  retire-IsSound clients p c s = record {
    counted = s.counted;
    bounded = s.bounded;
    single = s.single;
    drains = s.drains;
    reports = s.reports;
  }

  Step-IsSound :
      (clients : List ℕ) {p q : LanePool X} → Step p q → IsSound p clients → IsSound q clients
  Step-IsSound clients (takes p q c h) s =
      let (rest, first, after) = take-free p q c h in
      subst (λ u. IsSound u clients) after (takes-IsSound clients p c rest s first)
  Step-IsSound clients (settles p done c there) s = settles-IsSound clients p done c s there
  Step-IsSound clients (releases p c outcome there) s = releases-IsSound clients p c outcome s there
  Step-IsSound clients (finishes p c there) s = finishes-IsSound clients p c s
  Step-IsSound clients (stops p) s = stop-IsSound clients p s
  Step-IsSound clients (adopts p c) s = adopt-IsSound clients p c s
  Step-IsSound clients (retires p c) s = retire-IsSound clients p c s

  -- In every state that a pool of at least one lane comes to, the lanes that are free, taken or held are the
  -- live ones, and with those being closed none is there more often than among the clients. While a lane is
  -- live, the pool is not drained and no call is to drain it; when none is, either it is drained or exactly
  -- one call, whose client is still being closed, is to drain it, and there is a failure to report.
  pub Reach-IsSound :
      (clients : List ℕ) {p : LanePool X} → 1 ≤ length clients → Reach clients p → IsSound p clients
  Reach-IsSound clients some_lane start = start-IsSound clients some_lane
  Reach-IsSound clients some_lane (next reached step) =
      Step-IsSound clients step (Reach-IsSound clients some_lane reached)
