-- ===== src/Lifecycle/Safety.antt =====
-- No task outlives the shutdown of its instance, and none is admitted after it.
use cmdcode_go.Base.{
  ℕ, ◌≤◌, ◌<◌, ◌≡◌, ◌≢◌, inl, inr, refl, ◌∙◌, true, false, Option, none, some, arith, get_elem?,
  Bool-cases, Option-cases,
}
use cmdcode_go.Lifecycle.{
  Lifetime, Done, Runtime, new_plugin, update_at, initialize, begin, end_task, stop_plugin,
}
use cmdcode_go.Lifecycle.Steps.{
  Step, initialized, begun, ended, stopped, waited, cleared, Reach, open_of, update_at-elim,
}
use cmdcode_go.Lifecycle.Tasks.{fire-open}
use cmdcode_go.Lifecycle.Invariant.{Reach-Inv}

-- In every reachable state a task that has not ended belongs to the active instance, the host pointer
-- is stored, the instance's gateway is not closed, and the counter that a shutdown waits for is the
-- number of the instance's tasks that have not ended.
pub Reach-live :
    (r : Runtime) (i : ℕ) (d : Done)
    → Reach r
    → get_elem? r.dones i ≡ some d
    → d.fired ≡ false
    → (r.active ≡ some d.plugin)
      × (r.host ≡ true)
      × ((r.plugins d.plugin).closed ≡ false)
      × ((r.plugins d.plugin).tasks ≡ open_of d.plugin r.dones)
      × ((r.plugins d.plugin).tasks ≢ 0)
Reach-live r i d h there unfired =
    let v = Reach-Inv h in
    let mine = v.sound d.plugin in
    let some_left : (r.plugins d.plugin).tasks ≢ 0 =
      let x = fire-open d.plugin i r.dones d there unfired in
      let y = mine.counted in ground arith in
    let (is, made) : (r.active ≡ some d.plugin) × (d.plugin < r.next) = elim mine.owned [
      | inl t ↦ t
      | inr t ↦ elim (some_left t.1) [ ]
    ] in
    (
      is,
      elim v.hosted [ inl y ↦ y | inr n ↦ cc ],
      elim mine.in_time [
        | inl t ↦ t.1
        | inr (s, inl o) ↦ o
        | inr (s, inr z) ↦ elim (some_left z) [ ]
      ],
      mine.counted,
      some_left,
    )

pub data Steps : Runtime → Runtime → Type 0 where
  here : {r : Runtime} → Steps r r
  further : {r s t : Runtime} → Steps r s → Step s t → Steps r t

-- One step leaves a made instance that is stopping that way, with no more tasks than before.
record Past (r s : Runtime) (p : ℕ) : Type 0 where
  made : p < s.next
  stopping : (s.plugins p).stopping ≡ true
  fewer : (s.plugins p).tasks ≤ (r.plugins p).tasks

Stays : Runtime → ℕ → Lifetime → Type 0
Stays r p l = (r.plugins p).stopping ≡ true → (l.stopping ≡ true) × (l.tasks ≤ (r.plugins p).tasks)

changed :
    (r : Runtime) (q : ℕ) (l : Lifetime)
    → Stays r q l
    → (p : ℕ) → Stays r p (update_at q l r.plugins p)
unfolding Stays
changed r q l h = update_at-elim (Stays r) q l r.plugins h (λ p n s. (s, omega arith))

made-first :
    (r : Runtime) (p : ℕ) → p < r.next → Stays r p (update_at r.next new_plugin r.plugins p)
unfolding Stays
made-first r p =
    update_at-elim (λ q l. q < r.next → Stays r q l) r.next new_plugin r.plugins
      (λ h s. ground arith) (λ q n h s. (s, omega arith)) p

ended-Past :
    (r : Runtime) (i p : ℕ) (o : Option Done)
    → p < r.next
    → (r.plugins p).stopping ≡ true
    → Past r (end_task i r o) p
unfolding Stays
ended-Past r i p none made y = record { made = made; stopping = y; fewer = omega arith }
ended-Past r i p (some d) made y = elim (Bool-cases d.fired) [
  | inl t ↦ simp t (record { made = made; stopping = y; fewer = omega arith })
  | inr t ↦ simp t (
      let (a, b) = changed r d.plugin _ (λ s. (s, omega arith)) p y in
      record { made = made; stopping = a; fewer = b })
]

stopped-Past :
    (r : Runtime) (p : ℕ) (o : Option ℕ)
    → p < r.next
    → (r.plugins p).stopping ≡ true
    → Past r (stop_plugin r o) p
unfolding Stays
stopped-Past r p none made y = record { made = made; stopping = y; fewer = omega arith }
stopped-Past r p (some q) made y =
    let (a, b) = changed r q _ (λ s. (refl, omega arith)) p y in
    record { made = made; stopping = a; fewer = b }

step-Past :
    {r s : Runtime} (p : ℕ) → Step r s → p < r.next → (r.plugins p).stopping ≡ true → Past r s p
unfolding Stays initialize begin
step-Past {r} p (initialized f) made y = elim (Option-cases r.active) [
  | inl n ↦ simp n (
      let (a, b) = made-first r p made y in
      record { made = omega (arith, made); stopping = a; fewer = b })
  | inr (q, is) ↦ simp is (record { made = made; stopping = y; fewer = omega arith })
]
step-Past {r} p (begun q m) made y = elim (Bool-cases (r.plugins q).stopping) [
  | inl t ↦ simp t (record { made = made; stopping = y; fewer = omega arith })
  | inr t ↦
      simp t (
        let (a, b) = changed r q _ (λ s. cc) p y in record { made = made; stopping = a; fewer = b })
]
step-Past {r} p (ended i) made y = ended-Past r i p (get_elem? r.dones i) made y
step-Past {r} p (stopped f) made y = stopped-Past r p r.active made y
step-Past {r} p (waited q f idle) made y =
    let (a, b) = changed r q _ (λ s. (s, omega arith)) p y in
    record { made = made; stopping = a; fewer = b }
step-Past {r} p (cleared q f) made y = record { made = made; stopping = y; fewer = omega arith }

Steps-Past :
    {r s : Runtime} (p : ℕ) → Steps r s → p < r.next → (r.plugins p).stopping ≡ true → Past r s p
Steps-Past p here made y = record { made = made; stopping = y; fewer = omega arith }
Steps-Past p (further hs h) made y =
    let a = Steps-Past p hs made y in
    let b = step-Past p h a.made a.stopping in
    record { made = b.made; stopping = b.stopping; fewer = omega (arith, a.fewer, b.fewer) }

-- After the shutdown of an instance has begun, whatever steps any thread takes, also a later
-- initialization, the instance admits no task, its contexts' parent stays cancelled, and its counter
-- never grows.
pub stopping_forever :
    (r s : Runtime) (p : ℕ)
    → Reach s
    → Steps r s
    → p < r.next
    → (r.plugins p).stopping ≡ true
    → (begin p s ≡ (s, false))
      × ((s.plugins p).cancelled ≡ true)
      × ((s.plugins p).tasks ≤ (r.plugins p).tasks)
unfolding begin
stopping_forever r s p h hs made y =
    let a = Steps-Past p hs made y in
    (simp (a.stopping) refl, ((Reach-Inv h).sound p).cancelled ∙ a.stopping, a.fewer)
