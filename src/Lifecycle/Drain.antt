-- ===== src/Lifecycle/Drain.antt =====
-- A shutdown that waits comes to its end when its tasks do.
use cmdcode_go.Base.{
  ℕ, zero, suc, ◌≡◌, inl, inr, refl, sym, ap, subst, ◌∙◌, false, none, some, List, [], ◌∷◌,
  ℕ_discrete, arith, get_elem?, Bool-cases,
}
use cmdcode_go.Lifecycle.{
  Lifetime, Done, free, draining, Runtime, update_at, end_task, close_gateway, clear,
}
use cmdcode_go.Lifecycle.Steps.{Step, ended, waited, cleared, Reach, reached, open_of, update_same}
use cmdcode_go.Lifecycle.Invariant.{Reach-Inv}

-- So many steps, the first one outermost.
pub data Runs : ℕ → Runtime → Runtime → Type 0 where
  over : {r : Runtime} → Runs 0 r r
  first : {n : ℕ} {r s t : Runtime} → Step r s → Runs n s t → Runs (suc n) r t

-- A place with an open closure of the instance.
record OpenAt (p : ℕ) (ds : List Done) : Type 0 where
  place : ℕ
  done : Done
  there : get_elem? ds place ≡ some done
  unfired : done.fired ≡ false
  mine : done.plugin ≡ p

after_first : (p : ℕ) (d : Done) (ds : List Done) → OpenAt p ds → OpenAt p (d ∷ ds)
after_first p d ds o = record {
  place = suc o.place;
  done = o.done;
  there = o.there;
  unfired = o.unfired;
  mine = o.mine;
}

find_open : (p n : ℕ) (ds : List Done) → open_of p ds ≡ suc n → OpenAt p ds
find_open p n [] h = ground arith
find_open p n (d ∷ ds) h = elim (Bool-cases d.fired) [
  | inl y ↦ after_first p d ds (find_open p n ds (ground arith))
  | inr f ↦ elim (ℕ_discrete d.plugin p) [
    | yes e ↦ record { place = 0; done = d; there = refl; unfired = f; mine = e }
    | no e ↦ after_first p d ds (find_open p n ds (ground arith))
  ]
]

update_same_tasks :
    (p q : ℕ) (l : Lifetime) (ls : ℕ → Lifetime) → q ≡ p → (update_at q l ls p).tasks ≡ l.tasks
update_same_tasks p q l ls e =
    subst (λ x. (update_at q l ls x).tasks ≡ l.tasks) e (ap (λ x. x.tasks) (update_same q l ls))

-- A state after one of the tasks that are waited for has ended.
record Nearer (p n : ℕ) (s : Runtime) : Type 0 where
  phase : s.phase ≡ draining p
  tasks : (s.plugins p).tasks ≡ n

nearer :
    (r : Runtime) (p n i : ℕ) (d : Done)
    → r.phase ≡ draining p
    → (r.plugins p).tasks ≡ suc n
    → d.fired ≡ false
    → d.plugin ≡ p
    → Nearer p n (end_task i r (some d))
nearer r p n i d f t unfired mine = simp unfired (record {
  phase = f;
  tasks =
      update_same_tasks p d.plugin _ r.plugins mine
      ∙ (let e : (r.plugins d.plugin).tasks ≡ suc n =
            subst (λ x. (r.plugins x).tasks ≡ suc n) (sym mine) t in
          omega (arith, e));
})

-- What a shutdown leaves.
pub record IsDown (s : Runtime) : Type 0 where
  pub lock : s.phase ≡ free
  pub inactive : s.active ≡ none
  pub host : s.host ≡ false

finished :
    (r : Runtime) (p : ℕ)
    → r.phase ≡ draining p
    → (r.plugins p).tasks ≡ 0
    → (s : Runtime) × Runs 2 r s × IsDown s
finished r p f t = (
  clear (close_gateway p r),
  first (waited p f t) (first (cleared p refl) over),
  record { lock = refl; inactive = refl; host = refl },
)

-- A shutdown that waits is never stuck: from any reachable state in which it waits, as many task ends
-- as the counter says and its own two last steps lead to a state in which it has returned, no instance
-- is active and the host pointer is cleared.
pub drains :
    (n : ℕ) (r : Runtime) (p : ℕ)
    → Reach r
    → r.phase ≡ draining p
    → (r.plugins p).tasks ≡ n
    → (s : Runtime) × Runs (suc (suc n)) r s × IsDown s
drains zero r p h f t = finished r p f t
drains (suc n) r p h f t =
    let o = find_open p n r.dones (sym ((Reach-Inv h).sound p).counted ∙ t) in
    let s = end_task o.place r (get_elem? r.dones o.place) in
    let x : Nearer p n s = simp (o.there) (nearer r p n o.place o.done f t o.unfired o.mine) in
    let (u, runs, down) = drains n s p (reached h (ended o.place)) x.phase x.tasks in
    (u, first (ended o.place) runs, down)
