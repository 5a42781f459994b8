-- ===== src/Lifecycle/Tasks.antt =====
-- Tasks that begin and end keep the invariant.
use cmdcode_go.Base.{
  ℕ, zero, suc, ◌+◌, ◌-◌, ◌<◌, ◌≡◌, ◌≢◌, inl, inr, refl, sym, subst, ◌∙◌, true, false, Option, none,
  some, List, [], ◌∷◌, eqb, if◌then◌else◌, arith, get_elem?, Bool-cases,
}
use cmdcode_go.Lifecycle.{Lifetime, Done, Runtime, begin, fire, end_task}
use cmdcode_go.Lifecycle.Steps.{
  open_of, IsSound, Inv, update_at-elim, Kept, Kept-refl, PhaseOk-Kept,
}

begun-IsSound :
    (active : Option ℕ) (next p : ℕ) (ds : List Done) (l : Lifetime)
    → p < next
    → l.stopping ≡ false
    → IsSound active next ds p l
    → IsSound active next
        (record { plugin = p; fired = false } ∷ ds)
        p
        (record l { stopping = false; tasks = suc l.tasks })
begun-IsSound active next p ds l made n v = record {
  counted = ground (arith, v.counted);
  owned = elim v.owned [ inl is ↦ inl is | inr (other, idle, past) ↦ let x = past made in cc ];
  in_time = elim v.in_time [ inl t ↦ inl (refl, t.1) | inr t ↦ let x = t.0 in cc ];
  cancelled = v.cancelled ∙ n;
}

begun_other-IsSound :
    (active : Option ℕ) (next p q : ℕ) (ds : List Done) (l : Lifetime)
    → q ≢ p
    → IsSound active next ds q l
    → IsSound active next (record { plugin = p; fired = false } ∷ ds) q l
begun_other-IsSound active next p q ds l n v = record {
  counted = ground (arith, v.counted, n);
  owned = v.owned;
  in_time = v.in_time;
  cancelled = v.cancelled;
}

pub begin-Inv : (p : ℕ) (r : Runtime) → p < r.next → Inv r → Inv ((begin p r).0)
unfolding begin
begin-Inv p r made v = elim (Bool-cases (r.plugins p).stopping) [
  | inl y ↦ simp y v
  | inr n ↦ simp n (record {
    sound =
        update_at-elim (IsSound r.active r.next (record { plugin = p; fired = false } ∷ r.dones)) p
          _ r.plugins (begun-IsSound r.active r.next p r.dones (r.plugins p) made n (v.sound p))
          (λ q e. begun_other-IsSound r.active r.next p q r.dones (r.plugins q) e (v.sound q));
    hosted = v.hosted;
    phase_ok =
        PhaseOk-Kept r.active r.plugins _ r.phase
          (update_at-elim (λ q l. Kept (r.plugins q) l) p _ r.plugins
            (record { stopping = sym n; closed = refl; idle = λ h s. cc })
            (λ q e. Kept-refl (r.plugins q)))
          v.phase_ok;
  })
]

-- A closure that fires for the first time was counted once, for its own instance.
pub fire-open :
    (p i : ℕ) (ds : List Done) (d : Done)
    → get_elem? ds i ≡ some d
    → d.fired ≡ false
    → open_of p ds ≡ (if eqb d.plugin p then 1 else 0) + open_of p (fire i ds)
unfolding fire
fire-open p i [] d h f = cc
fire-open p zero (c ∷ ds) d h f =
    let e : c ≡ d = cc in
    subst
      (λ x.
        open_of p (x ∷ ds)
        ≡ (if eqb d.plugin p then 1 else 0) + open_of p (record x { fired = true } ∷ ds))
      (sym e) (simp f (omega arith))
fire-open p (suc i) (c ∷ ds) d h f = ground (arith, fire-open p i ds d h f)

ended-IsSound :
    (active : Option ℕ) (next p i : ℕ) (ds : List Done) (d : Done) (l : Lifetime)
    → get_elem? ds i ≡ some d
    → d.fired ≡ false
    → d.plugin ≡ p
    → IsSound active next ds p l
    → IsSound active next (fire i ds) p (record l { tasks = l.tasks - 1 })
ended-IsSound active next p i ds d l there unfired mine v = record {
  counted = ground (arith, v.counted, fire-open p i ds d there unfired, mine);
  owned = elim v.owned [
    | inl is ↦ inl is
    | inr (n, idle, past) ↦ inr (n, omega (arith, idle), past)
  ];
  in_time = elim v.in_time [
    | inl t ↦ inl t
    | inr (s, inl o) ↦ inr (s, inl o)
    | inr (s, inr z) ↦ inr (s, inr (omega (arith, z)))
  ];
  cancelled = v.cancelled;
}

ended_other-IsSound :
    (active : Option ℕ) (next q i : ℕ) (ds : List Done) (d : Done) (l : Lifetime)
    → get_elem? ds i ≡ some d
    → d.fired ≡ false
    → q ≢ d.plugin
    → IsSound active next ds q l
    → IsSound active next (fire i ds) q l
ended_other-IsSound active next q i ds d l there unfired other v = record {
  counted = ground (arith, v.counted, fire-open q i ds d there unfired, other);
  owned = v.owned;
  in_time = v.in_time;
  cancelled = v.cancelled;
}

pub end_task-Inv :
    (i : ℕ) (r : Runtime) (o : Option Done) → get_elem? r.dones i ≡ o → Inv r → Inv (end_task i r o)
end_task-Inv i r none h v = v
end_task-Inv i r (some d) h v = elim (Bool-cases d.fired) [
  | inl y ↦ simp y v
  | inr n ↦ simp n (record {
    sound =
        update_at-elim (IsSound r.active r.next (fire i r.dones)) d.plugin _ r.plugins
          (ended-IsSound r.active r.next d.plugin i r.dones d (r.plugins d.plugin) h n refl
            (v.sound d.plugin))
          (λ q e.
            ended_other-IsSound r.active r.next q i r.dones d (r.plugins q) h n e (v.sound q));
    hosted = v.hosted;
    phase_ok =
        PhaseOk-Kept r.active r.plugins _ r.phase
          (update_at-elim (λ q l. Kept (r.plugins q) l) d.plugin _ r.plugins
            (record { stopping = refl; closed = refl; idle = λ h s. omega (arith, h) })
            (λ q e. Kept-refl (r.plugins q)))
          v.phase_ok;
  })
]
