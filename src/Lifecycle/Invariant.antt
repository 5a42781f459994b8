-- ===== src/Lifecycle/Invariant.antt =====
-- Every reachable state of the runtime is sound.
use cmdcode_go.Base.{
  ℕ, suc, ◌≡◌, ◌≢◌, inl, inr, refl, sym, ap, subst, ◌∙◌, true, false, Option, none, some, List,
  arith, get_elem?, Option-cases,
}
use cmdcode_go.Lifecycle.{
  Lifetime, Done, free, draining, drained, Runtime, new_plugin, update_at, initialize, stop_plugin,
  close_gateway, clear,
}
use cmdcode_go.Lifecycle.Steps.{
  Step, initialized, begun, ended, stopped, waited, cleared, Reach, start, reached, PhaseOk,
  IsSound, Inv, update_at-elim, no_runtime-Inv, update_same,
}
use cmdcode_go.Lifecycle.Tasks.{begin-Inv, end_task-Inv}

stopped-IsSound :
    (active : Option ℕ) (next p : ℕ) (ds : List Done) (l : Lifetime)
    → active ≡ some p
    → l.stopping ≡ false
    → IsSound active next ds p l
    → IsSound active next ds p (record l { stopping = true; cancelled = true }) × (l.closed ≡ false)
stopped-IsSound active next p ds l is going v =
    let open_still : l.closed ≡ false = elim v.in_time [
      | inl t ↦ t.1
      | inr t ↦ let x = t.0 in cc
    ] in
    (
      record {
        counted = v.counted;
        owned = elim v.owned [ inl t ↦ inl t | inr t ↦ elim (t.0 is) [ ] ];
        in_time = inr (refl, inl open_still);
        cancelled = refl;
      },
      open_still,
    )

stop-Inv :
    (r : Runtime) (o : Option ℕ) → r.active ≡ o → r.phase ≡ free → Inv r → Inv (stop_plugin r o)
stop-Inv r none h f v = v
stop-Inv r (some p) h f v =
    let now : PhaseOk r.active r.plugins free = subst (PhaseOk r.active r.plugins) f v.phase_ok in
    let (sound, open_still) =
      stopped-IsSound r.active r.next p r.dones (r.plugins p) h (now p h) (v.sound p) in
    let here =
      update_same p (record (r.plugins p) { stopping = true; cancelled = true }) r.plugins in
    record {
      sound =
          update_at-elim (IsSound r.active r.next r.dones) p _ r.plugins sound (λ q e. v.sound q);
      hosted = v.hosted;
      phase_ok = (h, ap (λ l. l.stopping) here, ap (λ l. l.closed) here ∙ open_still);
    }

close-Inv :
    (p : ℕ) (r : Runtime)
    → r.phase ≡ draining p
    → (r.plugins p).tasks ≡ 0
    → Inv r
    → Inv (close_gateway p r)
close-Inv p r f idle v =
    let (is, stopping, open_still) : PhaseOk r.active r.plugins (draining p) =
      subst (PhaseOk r.active r.plugins) f v.phase_ok in
    let here = update_same p (record (r.plugins p) { closed = true }) r.plugins in
    record {
      sound =
          update_at-elim (IsSound r.active r.next r.dones) p _ r.plugins
            (record {
              counted = (v.sound p).counted;
              owned = (v.sound p).owned;
              in_time = inr (stopping, inr idle);
              cancelled = (v.sound p).cancelled;
            })
            (λ q e. v.sound q);
      hosted = v.hosted;
      phase_ok = (is, ap (λ l. l.stopping) here ∙ stopping, ap (λ l. l.tasks) here ∙ idle);
    }

clear-Inv : (p : ℕ) (r : Runtime) → r.phase ≡ drained p → Inv r → Inv (clear r)
clear-Inv p r f v =
    let (is, stopping, idle) : PhaseOk r.active r.plugins (drained p) =
      subst (PhaseOk r.active r.plugins) f v.phase_ok in
    record {
      sound = λ q. record {
        counted = (v.sound q).counted;
        owned = elim (v.sound q).owned [
          | inl (mine, made) ↦
              let same : p ≡ q = cc in
              inr (
                λ h. cc,
                subst (λ x. (r.plugins x).tasks ≡ 0) same idle,
                λ h. subst (λ x. (r.plugins x).stopping ≡ true) same stopping,
              )
          | inr (other, none_left, past) ↦ inr (λ h. cc, none_left, past)
        ];
        in_time = (v.sound q).in_time;
        cancelled = (v.sound q).cancelled;
      };
      hosted = inr refl;
      phase_ok = λ q h. cc;
    }

fresh-IsSound :
    (next : ℕ) (ds : List Done) (l : Lifetime)
    → IsSound none next ds next l
    → IsSound (some next) (suc next) ds next new_plugin
fresh-IsSound next ds l v = record {
  counted = elim v.owned [ inl (is, made) ↦ cc | inr (other, idle, past) ↦ sym idle ∙ v.counted ];
  owned = inl (refl, ground arith);
  in_time = inl (refl, refl);
  cancelled = refl;
}

older-IsSound :
    (next q : ℕ) (ds : List Done) (l : Lifetime)
    → q ≢ next
    → IsSound none next ds q l
    → IsSound (some next) (suc next) ds q l
older-IsSound next q ds l n v = record {
  counted = v.counted;
  owned = elim v.owned [
    | inl (is, made) ↦ cc
    | inr (other, idle, past) ↦ inr (λ h. n cc, idle, λ before. past (omega (arith, before, n)))
  ];
  in_time = v.in_time;
  cancelled = v.cancelled;
}

first_free :
    (next : ℕ) (ls : ℕ → Lifetime) → PhaseOk (some next) (update_at next new_plugin ls) free
first_free next ls = λ p h.
    let same : next ≡ p = cc in
    subst (λ x. (update_at next new_plugin ls x).stopping ≡ false) same
      (ap (λ l. l.stopping) (update_same next new_plugin ls))

initialize-Inv : (r : Runtime) → r.phase ≡ free → Inv r → Inv ((initialize r).0)
unfolding initialize
initialize-Inv r f v = elim (Option-cases r.active) [
  | inl y ↦
      let before : (q : ℕ) → IsSound none r.next r.dones q (r.plugins q) =
        λ q. subst (λ a. IsSound a r.next r.dones q (r.plugins q)) y (v.sound q) in
      simp y (record {
        sound =
            update_at-elim (IsSound (some r.next) (suc r.next) r.dones) r.next new_plugin r.plugins
              (fresh-IsSound r.next r.dones (r.plugins r.next) (before r.next))
              (λ q e. older-IsSound r.next q r.dones (r.plugins q) e (before q));
        hosted = inl refl;
        phase_ok =
            subst (PhaseOk (some r.next) (update_at r.next new_plugin r.plugins)) (sym f)
              (first_free r.next r.plugins);
      })
  | inr (p, is) ↦ simp is v
]

pub step-Inv : {r s : Runtime} → Step r s → Inv r → Inv s
step-Inv {r} (initialized f) v = initialize-Inv r f v
step-Inv {r} (begun p made) v = begin-Inv p r made v
step-Inv {r} (ended i) v = end_task-Inv i r (get_elem? r.dones i) refl v
step-Inv {r} (stopped f) v = stop-Inv r r.active refl f v
step-Inv {r} (waited p f idle) v = close-Inv p r f idle v
step-Inv {r} (cleared p f) v = clear-Inv p r f v

pub Reach-Inv : {r : Runtime} → Reach r → Inv r
Reach-Inv start = no_runtime-Inv
Reach-Inv (reached h s) = step-Inv s (Reach-Inv h)
