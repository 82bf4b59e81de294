-- ===== src/Pool/Progress.antt =====
-- No caller waits once the calls that have lanes have ended, and giving a lane back waits for nobody.
use libtmux_go.Base.{
  ℕ, ◌≤◌, ◌<◌, ◌≡◌, ◌≢◌, refl, ap, sym, subst, ◌∙◌, inl, inr, Bool, true, false, Option, List, [],
  ◌∷◌, length, ==_iff, arith, Bool-cases,
}
use libtmux_go.Pool.{
  LanePool, Failure, Closing, waits, remove, remove_closing, survives, poll, take, settle, acquire,
  release, finish_release,
}
use libtmux_go.Pool.Steps.{
  List-cases, count, count_closing, count_last, settles, releases, finishes, Reach, next,
}
use libtmux_go.Pool.Soundness.{Reach-IsSound}

remove_first : (c : ℕ) (cs : List ℕ) → remove c (c ∷ cs) ≡ cs
unfolding remove
remove_first c cs = rw ((==_iff c c).1 refl) refl

count_first : (c : ℕ) (cs : List ℕ) → 1 ≤ count c (c ∷ cs)
unfolding count
count_first c cs = ground arith

count-length : (c : ℕ) (cs : List ℕ) → 1 ≤ count c cs → 1 ≤ length cs
unfolding count
count-length c [] h = h
count-length c (x ∷ cs) h = omega arith

remove_first_closing : (e : Closing) (es : List Closing) → remove_closing e.client (e ∷ es) ≡ es
unfolding remove_closing
remove_first_closing e es = rw ((==_iff e.client e.client).1 refl) refl

count_first_closing : (e : Closing) (es : List Closing) → 1 ≤ count_closing e.client (e ∷ es)
unfolding count_closing
count_first_closing e es = ground arith

module _ {X : Type 0} where
  -- Lanes that were taken are settled one after the other, each with what its call's context is by then;
  -- lanes that are held are given back, each with its outcome; and clients come to have closed.
  abbrev pub settle_all : (ℕ → Bool) → List ℕ → LanePool X → LanePool X
  settle_all done [] p = p
  settle_all done (c ∷ cs) p = settle_all done cs (settle (done c) c p).1

  abbrev pub release_all : (ℕ → Option (Failure X)) → List ℕ → LanePool X → LanePool X
  release_all outcome [] p = p
  release_all outcome (c ∷ cs) p = release_all outcome cs (release c (outcome c) p)

  abbrev pub finish_all : List Closing → LanePool X → LanePool X
  finish_all [] p = p
  finish_all (e ∷ es) p = finish_all es (finish_release e.client p)

  -- All calls that have a lane come to their end.
  unfoldable pub end_calls : (ℕ → Bool) → (ℕ → Option (Failure X)) → LanePool X → LanePool X
  end_calls done outcome p =
      let settled = settle_all done p.taken p in
      let released = release_all outcome settled.held settled in
      finish_all released.closings released

  taken-settle :
      (done : Bool) (c : ℕ) (p : LanePool X) → ((settle done c p).1).taken ≡ remove c p.taken
  unfolding settle
  taken-settle true c p = refl
  taken-settle false c p = elim (Bool-cases p.is_stopped) [
    | inl stopped ↦ rw stopped refl
    | inr running ↦ rw running refl
  ]

  lists-release :
      (c : ℕ) (outcome : Option (Failure X)) (p : LanePool X)
      → ((release c outcome p).held ≡ remove c p.held) × ((release c outcome p).taken ≡ p.taken)
  unfolding release
  lists-release c outcome p = elim (Bool-cases (survives outcome)) [
    | inl back ↦ rw back (refl, refl)
    | inr gone ↦ rw gone (refl, refl)
  ]

  settle_all-Reach :
      (clients : List ℕ) (done : ℕ → Bool) (cs : List ℕ) {p : LanePool X}
      → Reach clients p
      → p.taken ≡ cs
      → Reach clients (settle_all done cs p) × ((settle_all done cs p).taken ≡ [])
  settle_all-Reach clients done [] reached h = (reached, h)
  settle_all-Reach clients done (c ∷ cs) {p} reached h =
      settle_all-Reach clients done cs
        (next reached
          (settles p (done c) c (subst (λ u. 1 ≤ count c u) (sym h) (count_first c cs))))
        (taken-settle (done c) c p ∙ ap (remove c) h ∙ remove_first c cs)

  release_all-Reach :
      (clients : List ℕ) (outcome : ℕ → Option (Failure X)) (cs : List ℕ) {p : LanePool X}
      → Reach clients p
      → p.held ≡ cs
      → p.taken ≡ []
      → Reach clients (release_all outcome cs p)
        × ((release_all outcome cs p).held ≡ [])
        × ((release_all outcome cs p).taken ≡ [])
  release_all-Reach clients outcome [] reached h t = (reached, h, t)
  release_all-Reach clients outcome (c ∷ cs) {p} reached h t =
      let (held, taken) = lists-release c (outcome c) p in
      release_all-Reach clients outcome cs
        (next reached
          (releases p c (outcome c) (subst (λ u. 1 ≤ count c u) (sym h) (count_first c cs))))
        (held ∙ ap (remove c) h ∙ remove_first c cs) (taken ∙ t)

  finish_all-Reach :
      (clients : List ℕ) (es : List Closing) {p : LanePool X}
      → Reach clients p
      → p.closings ≡ es
      → p.held ≡ []
      → p.taken ≡ []
      → Reach clients (finish_all es p)
        × ((finish_all es p).closings ≡ [])
        × ((finish_all es p).held ≡ [])
        × ((finish_all es p).taken ≡ [])
  unfolding finish_release
  finish_all-Reach clients [] reached c h t = (reached, c, h, t)
  finish_all-Reach clients (e ∷ es) {p} reached c h t =
      finish_all-Reach clients es
        (next reached (
          finishes p e.client
            (subst (λ u. 1 ≤ count_closing e.client u) (sym c) (count_first_closing e es))))
        (ap (remove_closing e.client) c ∙ remove_first_closing e es) h t

  acquire-waits :
      (done : Bool) (p : LanePool X)
      → (acquire done p).0 ≡ waits
      → (p.is_drained ≡ false) × (p.free ≡ [])
  unfolding acquire poll take settle
  acquire-waits true p h = cc
  acquire-waits false p h = elim (Bool-cases p.is_stopped) [
    | inl stopped ↦ absurd (let no : ⊥ = (let bad = rw (stopped, acquire, poll) at h in cc) in no)
    | inr running ↦ elim (Bool-cases p.is_drained) [
      | inl empty ↦
          absurd (let no : ⊥ = (let bad = rw (running, empty, acquire, poll) at h in cc) in no)
      | inr alive ↦ elim (List-cases p.free) [
        | inl nothing ↦ (alive, nothing)
        | inr (x, rest, first) ↦ absurd (
            let no : ⊥ =
              (let bad = rw (running, alive, first, acquire, poll, take, settle) at h in cc) in
            no)
      ]
    ]
  ]

  -- From every state that a pool of at least one lane comes to: when the calls that have a lane have ended,
  -- whatever their contexts are by then and with whatever outcomes, and the clients that they close have
  -- closed, a call of `acquire` does not wait.
  pub end_calls-acquire :
      (clients : List ℕ) (dones : ℕ → Bool) (outcome : ℕ → Option (Failure X)) {p : LanePool X}
      (done : Bool)
      → 1 ≤ length clients
      → Reach clients p
      → (acquire done (end_calls dones outcome p)).0 ≢ waits
  unfolding end_calls count_last
  end_calls-acquire clients dones outcome {p} done some_lane reached h =
      let settled = settle_all dones p.taken p in
      let released = release_all outcome settled.held settled in
      let q = finish_all released.closings released in
      let (r1, t1) = settle_all-Reach clients dones p.taken reached refl in
      let (r2, h2, t2) = release_all-Reach clients outcome settled.held r1 refl t1 in
      let (r3, c3, h3, t3) = finish_all-Reach clients released.closings r2 refl h2 t2 in
      let s = Reach-IsSound clients some_lane r3 in
      let (alive, nothing) = acquire-waits done q h in
      let none_live : q.live ≡ 0 =
        omega (arith, s.counted, ap length nothing, ap length h3, ap length t3) in
      let no_call = ap count_last c3 in
      let no : ⊥ = ground (arith, s.drains, none_live, alive, no_call) in no

  -- In every state that a pool of at least one lane comes to, a lane that is held can be given back at once:
  -- its channel has room for it, and the pool is not drained, so that its channel for that is closed once.
  pub release-room :
      (clients : List ℕ) {p : LanePool X} (c : ℕ)
      → 1 ≤ length clients
      → Reach clients p
      → 1 ≤ count c p.held
      → (length p.free < length clients) × (p.is_drained ≡ false)
  unfolding count
  release-room clients {p} c some_lane reached there =
      let s = Reach-IsSound clients some_lane reached in
      let someone = count-length c p.held there in
      (omega (arith, s.counted, s.bounded, someone), ground (arith, s.drains, s.counted, someone))
