-- ===== src/Lifecycle/Steps.antt =====
-- The steps of the runtime, and what is to hold of every state.
use cmdcode_go.Base.{
  ℕ, ◌+◌, ◌<◌, ◌≡◌, ◌≢◌, ◌⊎◌, inl, inr, refl, sym, subst, ◌∙◌, true, false, Option, none, some,
  List, [], ◌∷◌, ite, if_pos, eqb, ℕ_discrete, if◌then◌else◌, arith, get_elem?,
}
use cmdcode_go.Lifecycle.{
  Lifetime, Done, Phase, free, draining, drained, Runtime, no_runtime, update_at, initialize, begin,
  end_task, stop_plugin, close_gateway, clear,
}

-- One step of one thread. A handler that begins a task may hold an instance that it read earlier, and
-- a task may begin another; any closure may be called, and called again.
pub data Step (r : Runtime) : Runtime → Type 0 where
  initialized : r.phase ≡ free → Step r ((initialize r).0)
  begun : (p : ℕ) → p < r.next → Step r ((begin p r).0)
  ended : (i : ℕ) → Step r (end_task i r (get_elem? r.dones i))
  stopped : r.phase ≡ free → Step r (stop_plugin r r.active)
  waited : (p : ℕ) → r.phase ≡ draining p → (r.plugins p).tasks ≡ 0 → Step r (close_gateway p r)
  cleared : (p : ℕ) → r.phase ≡ drained p → Step r (clear r)

pub data Reach : Runtime → Type 0 where
  start : Reach no_runtime
  reached : {r s : Runtime} → Reach r → Step r s → Reach s

-- The closures of an instance that have not fired.
abbrev pub is_open : ℕ → Done → ℕ
is_open p d = if d.fired then 0 else if eqb d.plugin p then 1 else 0

abbrev pub open_of : ℕ → List Done → ℕ
open_of p [] = 0
open_of p (d ∷ ds) = is_open p d + open_of p ds

-- What the phase says of the instance that is being shut down.
abbrev pub PhaseOk : Option ℕ → (ℕ → Lifetime) → Phase → Type 0
PhaseOk active plugins free = (p : ℕ) → active ≡ some p → (plugins p).stopping ≡ false
PhaseOk active plugins (draining p) =
    (active ≡ some p) × ((plugins p).stopping ≡ true) × ((plugins p).closed ≡ false)
PhaseOk active plugins (drained p) =
    (active ≡ some p) × ((plugins p).stopping ≡ true) × ((plugins p).tasks ≡ 0)

-- What holds of one instance: its counter counts its open closures; it is not made yet, active, or
-- stopped without a task; its gateway is open while tasks run.
pub record IsSound (active : Option ℕ) (next : ℕ) (dones : List Done) (p : ℕ) (l : Lifetime)
    : Type 0 where
  pub counted : l.tasks ≡ open_of p dones
  pub owned :
      ((active ≡ some p) × (p < next))
      ⊎ ((active ≢ some p) × (l.tasks ≡ 0) × ((p < next) → l.stopping ≡ true))
  pub in_time :
      ((l.stopping ≡ false) × (l.closed ≡ false))
      ⊎ ((l.stopping ≡ true) × ((l.closed ≡ false) ⊎ (l.tasks ≡ 0)))
  pub cancelled : l.cancelled ≡ l.stopping

pub record Inv (r : Runtime) : Type 0 where
  pub sound : (p : ℕ) → IsSound r.active r.next r.dones p (r.plugins p)
  pub hosted : (r.host ≡ true) ⊎ (r.active ≡ none)
  pub phase_ok : PhaseOk r.active r.plugins r.phase

-- A predicate of every instance after one of them has changed.
pub update_at-elim :
    (P : ℕ → Lifetime → Type 0) (p : ℕ) (l : Lifetime) (ls : ℕ → Lifetime)
    → P p l
    → ((q : ℕ) → q ≢ p → P q (ls q))
    → (q : ℕ) → P q (update_at p l ls q)
update_at-elim P p l ls here there q = elim (ℕ_discrete q p) as (λ d. P q (ite d l (ls q))) [
  | yes e ↦ subst (λ x. P x l) (sym e) here
  | no n ↦ there q n
]

-- What a step that stops nothing keeps of an instance.
pub record Kept (l l' : Lifetime) : Type 0 where
  pub stopping : l'.stopping ≡ l.stopping
  pub closed : l'.closed ≡ l.closed
  pub idle : l.tasks ≡ 0 → l.stopping ≡ true → l'.tasks ≡ 0

pub Kept-refl : (l : Lifetime) → Kept l l
Kept-refl l = record { stopping = refl; closed = refl; idle = λ h s. h }

pub PhaseOk-Kept :
    (active : Option ℕ) (ls ls' : ℕ → Lifetime) (ph : Phase)
    → ((p : ℕ) → Kept (ls p) (ls' p))
    → PhaseOk active ls ph
    → PhaseOk active ls' ph
PhaseOk-Kept active ls ls' free kept ok = λ p h. (kept p).stopping ∙ ok p h
PhaseOk-Kept active ls ls' (draining p) kept (is, stopping, closed) =
    (is, (kept p).stopping ∙ stopping, (kept p).closed ∙ closed)
PhaseOk-Kept active ls ls' (drained p) kept (is, stopping, idle) =
    (is, (kept p).stopping ∙ stopping, (kept p).idle idle stopping)

pub no_runtime-Inv : Inv no_runtime
no_runtime-Inv = record {
  sound = λ p. record {
    counted = refl;
    owned = inr (λ h. cc, refl, λ h. ground arith);
    in_time = inl (refl, refl);
    cancelled = refl;
  };
  hosted = inr refl;
  phase_ok = λ p h. cc;
}

pub update_same : (p : ℕ) (l : Lifetime) (ls : ℕ → Lifetime) → update_at p l ls p ≡ l
update_same p l ls = if_pos (ℕ_discrete p p) refl l (ls p)
