-- ===== src/Lifecycle/Tests.antt =====
-- One instance with two tasks, one of which has ended when the shutdown begins.
use cmdcode_go.Base.{◌≤◌, ◌≡◌, ◌≢◌, refl, arith, true, false, some, get_elem?, ℕ_discrete}
use cmdcode_go.Lifecycle.{Done, Runtime, no_runtime, initialize, begin, fire, end_task, stop_plugin}
use cmdcode_go.Lifecycle.Steps.{initialized, begun, ended, stopped, Reach, start, reached, open_of}
use cmdcode_go.Lifecycle.Safety.{Reach-live, here, further, stopping_forever}
use cmdcode_go.Lifecycle.Drain.{Runs, IsDown, drains}

abbrev made : Runtime
unfolding initialize
made = (initialize no_runtime).0

abbrev two_tasks : Runtime
unfolding begin
two_tasks = (begin 0 ((begin 0 made).0)).0

abbrev one_task : Runtime
unfolding fire
one_task = end_task 0 two_tasks (get_elem? two_tasks.dones 0)

abbrev waiting : Runtime
waiting = stop_plugin one_task one_task.active

abbrev task : Done
task = record { plugin = 0; fired = false }

made-Reach : Reach made
unfolding initialize
made-Reach = reached start (initialized refl)

one_task-Reach : Reach one_task
unfolding initialize begin fire ℕ_discrete
one_task-Reach =
    reached (reached (reached made-Reach (begun 0 (omega arith))) (begun 0 (omega arith))) (ended 0)

waiting-Reach : Reach waiting
unfolding initialize begin fire ℕ_discrete
waiting-Reach = reached one_task-Reach (stopped refl)

Reach-live_example :
    (waiting.active ≡ some 0)
    × (waiting.host ≡ true)
    × ((waiting.plugins 0).closed ≡ false)
    × ((waiting.plugins 0).tasks ≡ open_of 0 waiting.dones)
    × ((waiting.plugins 0).tasks ≢ 0)
unfolding initialize begin fire ℕ_discrete
Reach-live_example = Reach-live waiting 1 task waiting-Reach refl refl

abbrev ended_all : Runtime
ended_all = end_task 1 waiting (get_elem? waiting.dones 1)

refused : (begin 0 waiting).1 ≡ false
unfolding initialize begin fire ℕ_discrete
refused = refl

stopping_forever_example :
    (begin 0 ended_all ≡ (ended_all, false))
    × ((ended_all.plugins 0).cancelled ≡ true)
    × ((ended_all.plugins 0).tasks ≤ (waiting.plugins 0).tasks)
unfolding initialize begin fire ℕ_discrete
stopping_forever_example =
    stopping_forever waiting ended_all 0 (reached waiting-Reach (ended 1)) (further here (ended 1))
      (omega arith) refl

drains_example : (s : Runtime) × Runs 3 waiting s × IsDown s
unfolding initialize begin fire ℕ_discrete
drains_example = drains 1 waiting 0 waiting-Reach refl refl
