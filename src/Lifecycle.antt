-- ===== src/Lifecycle.antt =====
-- go/plugin.go (admission of tasks, shutdown) and go/abi_runtime.go (the one active instance). What one
-- lock holder does is one step; a shutdown waits for its tasks between three of them. An instance is
-- its address, a number here; contexts are their cancellation.
pub mod Steps
pub mod Tasks
pub mod Invariant
pub mod Safety
pub mod Drain
mod Tests
use cmdcode_go.Base.{
  ℕ, zero, suc, ◌+◌, ◌-◌, Bool, true, false, Option, none, some, List, [], ◌∷◌, ite, ℕ_discrete,
  is_some, if◌then◌else◌,
}

-- The fields of a Plugin that begin and Shutdown use; `tasks` is the counter of the WaitGroup.
pub record Lifetime : Type 0 where
  pub stopping : Bool
  pub cancelled : Bool
  pub tasks : ℕ
  pub closed : Bool

abbrev pub new_plugin : Lifetime
new_plugin = record { stopping = false; cancelled = false; tasks = 0; closed = false }

-- The function that begin returns: whose task it ends, and whether its `once` has fired.
pub record Done : Type 0 where
  pub plugin : ℕ
  pub fired : Bool

-- Where the holder of the lifecycle lock stands, if it is a shutdown.
pub data Phase : Type 0 where
  free : Phase
  draining drained : ℕ → Phase

pub record Runtime : Type 0 where
  pub active : Option ℕ
  pub plugins : ℕ → Lifetime
  pub next : ℕ
  pub dones : List Done
  pub host : Bool
  pub phase : Phase

abbrev pub no_runtime : Runtime
no_runtime = record {
  active = none;
  plugins = λ p. new_plugin;
  next = 0;
  dones = [];
  host = false;
  phase = free;
}

abbrev pub update_at : ℕ → Lifetime → (ℕ → Lifetime) → ℕ → Lifetime
update_at p l plugins q = ite (ℕ_discrete q p) l (plugins q)

-- pluginRuntime.Initialize, with the closure that stores the host pointer
unfoldable pub initialize : Runtime → Runtime × Bool
initialize r = if is_some r.active then (r, false) else (
  record r {
    active = some r.next;
    plugins = update_at r.next new_plugin r.plugins;
    next = suc r.next;
    host = true;
  },
  true,
)

-- Plugin.begin: whether the task is admitted
unfoldable pub begin : ℕ → Runtime → Runtime × Bool
begin p r =
    let l = r.plugins p in
    if l.stopping then (r, false) else (
      record r {
        plugins = update_at p (record l { tasks = suc l.tasks }) r.plugins;
        dones = record { plugin = p; fired = false } ∷ r.dones;
      },
      true,
    )

-- The closure at a place of the list runs what its `once` guards.
unfoldable pub fire : ℕ → List Done → List Done
fire i [] = []
fire zero (d ∷ ds) = record d { fired = true } ∷ ds
fire (suc i) (d ∷ ds) = d ∷ fire i ds

abbrev pub end_task : ℕ → Runtime → Option Done → Runtime
end_task i r none = r
end_task i r (some d) =
    if d.fired
    then r
    else (let l = r.plugins d.plugin in
        record r {
          plugins = update_at d.plugin (record l { tasks = l.tasks - 1 }) r.plugins;
          dones = fire i r.dones;
        })

-- Plugin.Shutdown up to its wait
abbrev pub stop : Lifetime → Lifetime
stop l = record l { stopping = true; cancelled = true }

-- pluginRuntime.Shutdown as far as Plugin.Shutdown waits.
abbrev pub stop_plugin : Runtime → Option ℕ → Runtime
stop_plugin r none = r
stop_plugin r (some p) = record r {
  plugins = update_at p (stop (r.plugins p)) r.plugins;
  phase = draining p;
}

-- The wait has ended: Gateway.Close.
abbrev pub close_gateway : ℕ → Runtime → Runtime
close_gateway p r = record r {
  plugins = update_at p (record (r.plugins p) { closed = true }) r.plugins;
  phase = drained p;
}

-- The last part of pluginRuntime.Shutdown, with the closure that clears the host pointer
abbrev pub clear : Runtime → Runtime
clear r = record r { host = false; active = none; phase = free }
