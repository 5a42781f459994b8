-- ===== src/Session.antt =====
-- go/session.go, `sessionStore`: the conversations of a plugin instance, least recently used last.
-- An element of the list is reached from the map and from a release closure by its address, a handle
-- here. Time, and the UUID that a new entry takes, are arguments of each call.
pub mod Order
pub mod Sweep
pub mod Invariant
pub mod Cases
pub mod Turns
pub mod Traces
pub mod Choice
pub mod Busy
mod Tests
use cmdcode_go.Base.{
  ℕ, suc, ◌+◌, String, Bool, true, false, not, ◌&&◌, Option, none, some, List, [], ◌∷◌, str_dec,
  ite, ℕ_discrete, leb, length, if◌then◌else◌, GoMap, empty_map, put, delete,
}

pub record Key : Type 0 where
  pub caller : String
  pub auth : String
  pub id : String

unfoldable pub Key-discrete : Discrete Key
unfolding str_dec
Key-discrete = hlevel str_dec

-- A list element with the `sessionEntry` that it holds.
pub record Entry : Type 0 where
  pub handle : ℕ
  pub key : Key
  pub id : String
  pub touched : ℕ
  pub busy : Bool

pub record Store : Type 0 where
  pub entries : GoMap Key ℕ
  pub lru : List Entry
  pub next_handle : ℕ
  pub ttl : ℕ
  pub capacity : ℕ

unfoldable pub new_store : ℕ → ℕ → Store
new_store ttl capacity = record {
  entries = empty_map;
  lru = [];
  next_handle = 0;
  ttl = ttl;
  capacity = capacity;
}

-- now - touched ≥ ttl, also if the clock went back
abbrev pub expired : ℕ → ℕ → Entry → Bool
expired now ttl e = not e.busy && leb (e.touched + ttl) now

abbrev pub drop_or_keep : Bool → Entry → GoMap Key ℕ × List Entry → GoMap Key ℕ × List Entry
drop_or_keep true e (m, es) = (delete Key-discrete e.key m, es)
drop_or_keep false e (m, es) = (m, e ∷ es)

-- The first loop, from the back of the list to its front.
unfoldable pub sweep : ℕ → ℕ → GoMap Key ℕ → List Entry → GoMap Key ℕ × List Entry
sweep now ttl m [] = (m, [])
sweep now ttl m (e ∷ es) = drop_or_keep (expired now ttl e) e (sweep now ttl m es)

-- e.Value of a handle
pub deref : ℕ → List Entry → Option Entry
deref h [] = none
deref h (e ∷ es) = ite (ℕ_discrete e.handle h) (some e) (deref h es)

unfoldable pub remove : ℕ → List Entry → List Entry
remove h [] = []
remove h (e ∷ es) = ite (ℕ_discrete e.handle h) es (e ∷ remove h es)

abbrev pub idle_or : Entry → Option Entry → Option Entry
idle_or e (some v) = some v
idle_or e none = if e.busy then none else some e

-- The second loop: the first entry from the back that is not busy.
pub victim : List Entry → Option Entry
victim [] = none
victim (e ∷ es) = idle_or e (victim es)

pub data Outcome : Type 0 where
  granted : String → ℕ → Outcome
  refused : Outcome
  -- an address of no element; never met on a well-formed store
  dangling : Outcome

-- v.busy = true; v.touched = now; MoveToFront
unfoldable pub reserve : ℕ → Entry → Store → Store × Outcome
reserve now e s = (
  record s { lru = record e { busy = true; touched = now } ∷ remove e.handle s.lru },
  granted e.id e.handle,
)

abbrev pub new_entry : Key → String → Store → Entry
new_entry key uuid s = record {
  handle = s.next_handle;
  key = key;
  id = uuid;
  touched = 0;
  busy = false;
}

-- PushFront of a new entry, and its place in the map.
abbrev pub push_front : Key → String → Store → Store
push_front key uuid s = record s {
  entries = put Key-discrete key s.next_handle s.entries;
  lru = new_entry key uuid s ∷ s.lru;
  next_handle = suc s.next_handle;
}

unfoldable pub create : Key → ℕ → String → Store → Store × Outcome
unfolding reserve
create key now uuid s = reserve now (new_entry key uuid s) (push_front key uuid s)

pub evict : Entry → Store → Store
evict v s = record s { entries = delete Key-discrete v.key s.entries; lru = remove v.handle s.lru }

abbrev pub make_room : Key → ℕ → String → Store → Option Entry → Store × Outcome
make_room key now uuid s none = (s, refused)
make_room key now uuid s (some v) = create key now uuid (evict v s)

abbrev pub insert_new : Key → ℕ → String → Store → Store × Outcome
insert_new key now uuid s =
    if leb s.capacity s.entries.size
    then make_room key now uuid s (victim s.lru)
    else create key now uuid s

abbrev pub resume : ℕ → Store → Option Entry → Store × Outcome
resume now s none = (s, dangling)
resume now s (some e) = if e.busy then (s, refused) else reserve now e s

abbrev pub after_sweep : Key → ℕ → String → Store → Option ℕ → Store × Outcome
after_sweep key now uuid s none = insert_new key now uuid s
after_sweep key now uuid s (some h) = resume now s (deref h s.lru)

unfoldable pub swept : ℕ → Store → Store
swept now s = let (m, es) = sweep now s.ttl s.entries s.lru in record s { entries = m; lru = es }

unfoldable pub acquire : Key → ℕ → String → Store → Store × Outcome
acquire key now uuid s = let t = swept now s in after_sweep key now uuid t (t.entries.get key)

abbrev pub put_front : ℕ → List Entry → Option Entry → List Entry
put_front now es none = es
put_front now es (some e) = record e { busy = false; touched = now } ∷ remove e.handle es

-- What `once.Do` runs. An entry that left the list is written where nobody reads.
pub release_now : ℕ → ℕ → Store → Store
release_now h now s = record s { lru = put_front now s.lru (deref h s.lru) }

-- The release closure: the entry's address, and whether `once` has fired.
pub record Release : Type 0 where
  pub handle : ℕ
  pub fired : Bool

pub release : Release → ℕ → Store → Release × Store
unfolding release_now
release r now s =
    if r.fired then (r, s) else (record r { fired = true }, release_now r.handle now s)
