-- ===== src/Tasks.antt =====
-- core/Scheduler.cpp and core/tasks/Task.cpp: tasks that other threads hand to the main thread, and
-- tasks that run on threads of their own. What a task or a callback does is a list of effects: it
-- enqueues tasks, acts outside, or raises a `std::exception`, which ends the list. `history` is
-- what was done so far, the oldest first; the source keeps no such record.
pub mod Fifo
pub mod Rounds
use access_control.Prelude.{
  ℕ, zero, suc, ◌↔◌, ◌≡◌, Bool, true, false, not, List, [], ◌∷◌, ◌++◌, Option, none, some, insert,
  lookup, length, Eq, nat_eq, ◌==◌, Failure, aborted, undefined_behaviour, Result, ok, err, guard,
  ◌>>◌, ◌>>=◌, if◌then◌else◌, arith,
}

pub data TargetThread : Type 0 where
  main pool : TargetThread

abbrev pub same_thread : TargetThread → TargetThread → Bool
same_thread main main = true
same_thread main pool = false
same_thread pool main = false
same_thread pool pool = true

pub same_thread_iff : (a b : TargetThread) → (same_thread a b ≡ true) ↔ (a ≡ b)
same_thread_iff a b = ground arith

instance abbrev pub thread_eq : Eq TargetThread
thread_eq = record { same = same_thread; same_iff = same_thread_iff }

pub data Effect : Type 0 where
  enqueues : TargetThread → ℕ → Effect
  acts : ℕ → Effect
  raises : Failure → Effect

-- `do_run` has the effects of `body` and then returns `result`.
pub record Task : Type 0 where
  pub body : List Effect
  pub result : Bool
  pub on_completion : List Effect
  pub on_success : List Effect
  pub on_failure : List Effect
  pub success : Bool
  pub eptr : Option Failure
  pub complete : Bool

unfoldable pub new_task : List Effect → Bool → Task
new_task body result = record {
  body = body;
  result = result;
  on_completion = [];
  on_success = [];
  on_failure = [];
  success = false;
  eptr = none;
  complete = false;
}

unfoldable pub set_on_completion : List Effect → Task → Task
set_on_completion c t = record t { on_completion = c }

unfoldable pub set_on_success : List Effect → Task → Task
set_on_success c t = record t { on_success = c }

unfoldable pub set_on_failure : List Effect → Task → Task
set_on_failure c t = record t { on_failure = c }

pub data Entry : Type 0 where
  queued : TargetThread → ℕ → Entry
  launched : ℕ → Entry
  popped : TargetThread → ℕ → Entry
  acted : ℕ → Entry
  completed : ℕ → Bool → Entry

-- A task is known by its number.
pub record Scheduler : Type 0 where
  pub queues : List (TargetThread × List ℕ)
  pub tasks : ℕ → Task
  pub history : List Entry

unfoldable pub new_scheduler : (ℕ → Task) → Scheduler
new_scheduler tasks = record { queues = []; tasks = tasks; history = [] }

abbrev pub or_empty : Option (List ℕ) → List ℕ
or_empty none = []
or_empty (some q) = q

-- `queues_[me]`, which is empty where it is new.
abbrev pub queue_of : TargetThread → Scheduler → List ℕ
queue_of me s = or_empty (lookup me s.queues)

abbrev pub set_queue : TargetThread → List ℕ → Entry → Scheduler → Scheduler
set_queue me q e s = record s { queues = insert me q s.queues; history = s.history ++ e ∷ [] }

abbrev pub note : Entry → Scheduler → Scheduler
note e s = record s { history = s.history ++ e ∷ [] }

-- On `pool`, a thread of its own is started for the task.
unfoldable pub enqueue : ℕ → TargetThread → Scheduler → Scheduler
enqueue t pool s = note (launched t) s
enqueue t main s = set_queue main (queue_of main s ++ t ∷ []) (queued main t) s

-- The effects up to the first exception.
unfoldable pub perform : List Effect → Scheduler → Option Failure × Scheduler
unfolding enqueue
perform [] s = (none, s)
perform (enqueues policy t ∷ es) s = perform es (enqueue t policy s)
perform (acts a ∷ es) s = perform es (note (acted a) s)
perform (raises e ∷ es) s = (some e, s)

abbrev pub set_task : ℕ → Task → Scheduler → Scheduler
set_task i t s = record s { tasks = λ j. if i == j then t else s.tasks j }

-- `success_` or `eptr_`, after `do_run`.
abbrev pub judged : Option Failure → Task → Task
judged none t = record t { success = t.result }
judged (some e) t = record t { eptr = some e }

-- An exception that leaves a callback leaves a function that may not throw.
abbrev pub called : Option Failure × Scheduler → Result Scheduler
called (none, s) = ok s
called (some e, s) = err aborted

abbrev pub finished : Task → Task
finished t = record t { on_success = []; on_failure = []; on_completion = []; complete = true }

abbrev pub conclude : ℕ → Task → Scheduler → Result Scheduler
unfolding perform
conclude i t s = called (perform (if t.success then t.on_success else t.on_failure) s) >>= λ s1.
    called (perform t.on_completion s1) >>= λ s2.
    ok (note (completed i t.success) (set_task i (finished t) s2))

unfoldable pub run : ℕ → Scheduler → Result Scheduler
unfolding perform
run i s =
    let (thrown, after) = perform (s.tasks i).body s in
    let t = judged thrown (s.tasks i) in conclude i t after

-- What the other threads put in the queue, before a round.
abbrev pub arrive : List ℕ → Scheduler → Scheduler
unfolding enqueue
arrive [] s = s
arrive (t ∷ ts) s = arrive ts (enqueue t main s)

abbrev pub next_task :
    TargetThread → List ℕ → Scheduler → (Scheduler → Result Scheduler) → Result Scheduler
unfolding run
next_task me [] s k = err undefined_behaviour
next_task me (t ∷ q) s k = run t (set_queue me q (popped me t) s) >>= k

-- `rounds` tasks are left to run; `others n` arrive when n rounds are left after this one.
unfoldable pub loop : TargetThread → (ℕ → List ℕ) → ℕ → Scheduler → Result Scheduler
loop me others zero s = ok s
loop me others (suc rounds) s =
    let before = arrive (others rounds) s in
    next_task me (queue_of me before) before (λ after. loop me others rounds after)

unfoldable pub update : TargetThread → (ℕ → List ℕ) → Scheduler → Result Scheduler
unfolding loop
update me others s = loop me others (length (queue_of me s)) s

abbrev has_queue : Option (List ℕ) → Bool
has_queue none = false
has_queue (some q) = true

unfoldable pub register_thread : TargetThread → Scheduler → Result Scheduler
register_thread me s =
    guard (not (has_queue (lookup me s.queues))) aborted
    >> ok (record s { queues = insert me [] s.queues })
