-- ===== src/Watch.antt =====
-- src/watch.cpp: the hub of watchers of keys and prefixes. A callback is known by the number of its
-- watcher; what Notify delivers is the list of the calls it makes.
pub mod Delivery
pub mod Examples
use lightkv.Prelude.{
  ℕ, zero, suc, ◌+◌, ◌-◌, ◌%◌, ◌^◌, Bool, true, false, not, List, [], ◌∷◌, ◌++◌, length, take,
  bytes_eq, ◌==◌, if◌then◌else◌,
}

-- WatchHub::Watcher
pub record Watcher : Type 0 where
  pub id : ℕ
  pub is_prefix : Bool
  pub pattern : List ℕ

pub record WatchHub : Type 0 where
  pub watchers : List Watcher
  pub next_id : ℕ

-- A call of a watcher's callback.
pub record Notice : Type 0 where
  pub watcher_id : ℕ
  pub watched : List ℕ
  pub key : List ℕ
  pub event : List ℕ
  pub revision : ℕ

abbrev pub star : ℕ
star = 0x2A

-- `!pattern.empty() && pattern.back() == '*'`
pub ends_in_star : List ℕ → Bool
ends_in_star [] = false
ends_in_star (c ∷ []) = c == star
ends_in_star (c ∷ d ∷ rest) = ends_in_star (d ∷ rest)

-- The watcher that Subscribe makes.
pub new_watcher : ℕ → List ℕ → Watcher
new_watcher id pattern =
    if ends_in_star pattern
    then record { id = id; is_prefix = true; pattern = take (length pattern - 1) pattern }
    else record { id = id; is_prefix = false; pattern = pattern }

-- WatchHub::Subscribe
pub subscribe : List ℕ → WatchHub → ℕ × WatchHub
subscribe pattern hub = (
  hub.next_id,
  record {
    watchers = hub.watchers ++ new_watcher hub.next_id pattern ∷ [];
    next_id = (hub.next_id + 1) % 2 ^ 64;
  },
)

-- `std::remove_if` with the number.
pub without_id : ℕ → List Watcher → List Watcher
without_id watcher_id [] = []
without_id watcher_id (w ∷ watchers) =
    if w.id == watcher_id
    then without_id watcher_id watchers
    else w ∷ without_id watcher_id watchers

-- WatchHub::Unsubscribe
pub unsubscribe : ℕ → WatchHub → WatchHub
unsubscribe watcher_id hub = record hub { watchers = without_id watcher_id hub.watchers }

-- `match` in WatchHub::Notify
pub is_match : List ℕ → Watcher → Bool
is_match key w =
    if w.is_prefix then bytes_eq (take (length w.pattern) key) w.pattern else bytes_eq key w.pattern

-- The call of a callback in WatchHub::Notify.
pub notice : List ℕ → List ℕ → ℕ → Watcher → Notice
notice key event revision w = record {
  watcher_id = w.id;
  watched = if w.is_prefix then w.pattern ++ star ∷ [] else w.pattern;
  key = key;
  event = event;
  revision = revision;
}

-- The loop of WatchHub::Notify.
pub notify_loop : List ℕ → List ℕ → ℕ → List Watcher → List Notice
notify_loop key event revision [] = []
notify_loop key event revision (w ∷ watchers) =
    if is_match key w
    then notice key event revision w ∷ notify_loop key event revision watchers
    else notify_loop key event revision watchers

-- WatchHub::Notify; the number it returns is the length of the list.
pub notify : List ℕ → List ℕ → ℕ → WatchHub → List Notice × ℕ
notify key event revision hub =
    let notices = notify_loop key event revision hub.watchers in (notices, length notices)

-- WatchHub::Clear
pub clear : WatchHub → WatchHub
clear hub = record hub { watchers = [] }

-- WatchHub::WatcherCount
pub watcher_count : WatchHub → ℕ
watcher_count hub = length hub.watchers
