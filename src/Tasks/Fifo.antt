-- ===== src/Tasks/Fifo.antt =====
-- The order in which the tasks of a thread leave its queue.
use access_control.Prelude.{
  ℕ, zero, suc, ◌≡◌, refl, sym, ap, subst, ◌∙◌, Bool, true, false, List, [], ◌∷◌, ◌++◌,
  append_assoc, append-nil, Bool-cases, Option-cases, inl, inr, Option, none, some, Failure, lookup,
  insert, lookup-insert, length, Result, ok, err, ◌>>=◌, ◌==◌, if◌then◌else◌,
}
use access_control.Tasks.{
  TargetThread, main, pool, or_empty, same_thread_iff, thread_eq, Effect, enqueues, acts, raises,
  Task, Entry, queued, launched, popped, acted, completed, Scheduler, new_scheduler, queue_of,
  set_queue, note, enqueue, perform, set_task, judged, called, finished, conclude, run, arrive,
  next_task, loop, update, register_thread,
}

abbrev pub queued_by : TargetThread → Entry → List ℕ
queued_by me (queued on t) = if on == me then t ∷ [] else []
queued_by me _ = []

abbrev pub popped_by : TargetThread → Entry → List ℕ
popped_by me (popped on t) = if on == me then t ∷ [] else []
popped_by me _ = []

abbrev pub collect : (Entry → List ℕ) → List Entry → List ℕ
collect f [] = []
collect f (e ∷ h) = f e ++ collect f h

-- The tasks that went into the queue of a thread, and those that left it.
abbrev pub queued_ids : TargetThread → List Entry → List ℕ
queued_ids me h = collect (queued_by me) h

abbrev pub popped_ids : TargetThread → List Entry → List ℕ
popped_ids me h = collect (popped_by me) h

pub collect-append :
    (f : Entry → List ℕ) (h : List Entry) (e : Entry) → collect f (h ++ e ∷ []) ≡ collect f h ++ f e
collect-append f [] e = append-nil (f e)
collect-append f (d ∷ h) e =
    ap (λ x. f d ++ x) (collect-append f h e) ∙ sym (append_assoc (f d) (collect f h) (f e))

-- What went into the queue of a thread is what left it, in the same order, and then what is in it.
abbrev pub IsFifo : Scheduler → Type 0
IsFifo s = (me : TargetThread) → queued_ids me s.history ≡ popped_ids me s.history ++ queue_of me s

abbrev Neither : Entry → TargetThread → Type 0
Neither e me = (queued_by me e ≡ []) × (popped_by me e ≡ [])

note-IsFifo :
    (e : Entry) (s : Scheduler)
    → ((me : TargetThread) → Neither e me)
    → IsFifo s
    → IsFifo (note e s)
note-IsFifo e s plain w = λ me.
    let (no_queued, no_popped) = plain me in
    rw (collect-append (queued_by me) s.history e, collect-append (popped_by me) s.history e)
      (rw (no_queued, no_popped)
        (rw (append-nil (queued_ids me s.history), append-nil (popped_ids me s.history)) (w me)))

or_empty_if :
    (b : Bool) (q : List ℕ) (o : Option (List ℕ))
    → or_empty (if b then some q else o) ≡ (if b then q else or_empty o)
or_empty_if true q o = refl
or_empty_if false q o = refl

-- The order on one thread, after an entry that `set_queue` makes.
abbrev Ordered : TargetThread → List ℕ → List Entry → Type 0
Ordered me q h = queued_ids me h ≡ popped_ids me h ++ q

pushed :
    (on me : TargetThread) (t : ℕ) (q : List ℕ) (h : List Entry)
    → Ordered me q h
    → Ordered me (if on == me then q ++ t ∷ [] else q) (h ++ queued on t ∷ [])
pushed on me t q h w =
    rw
      (collect-append (queued_by me) h (queued on t), collect-append (popped_by me) h (queued on t))
      (elim (Bool-cases (on == me)) [
        | inl same ↦
            rw (same, append-nil (popped_ids me h))
              (ap (λ x. x ++ t ∷ []) w ∙ append_assoc (popped_ids me h) q (t ∷ []))
        | inr other ↦ rw (other, append-nil (queued_ids me h), append-nil (popped_ids me h)) w
      ])

taken :
    (on me : TargetThread) (t : ℕ) (q rest : List ℕ) (h : List Entry)
    → (on ≡ me → q ≡ t ∷ rest)
    → Ordered me q h
    → Ordered me (if on == me then rest else q) (h ++ popped on t ∷ [])
taken on me t q rest h top w =
    rw
      (collect-append (queued_by me) h (popped on t), collect-append (popped_by me) h (popped on t))
      (elim (Bool-cases (on == me)) [
        | inl same ↦
            let full : q ≡ t ∷ rest = top ((same_thread_iff on me).0 same) in
            rw (same, append-nil (queued_ids me h))
              (w
                ∙ ap (λ x. popped_ids me h ++ x) full
                ∙ sym (append_assoc (popped_ids me h) (t ∷ []) rest))
        | inr other ↦ rw (other, append-nil (queued_ids me h), append-nil (popped_ids me h)) w
      ])

pub queue-set :
    (on me : TargetThread) (q : List ℕ) (e : Entry) (s : Scheduler)
    → queue_of me (set_queue on q e s) ≡ (if on == me then q else queue_of me s)
queue-set on me q e s =
    ap or_empty (lookup-insert on me q s.queues) ∙ or_empty_if (on == me) q (lookup me s.queues)

same_queue :
    (on me : TargetThread) (t : ℕ) (s : Scheduler)
    → (if on == me then queue_of on s ++ t ∷ [] else queue_of me s)
      ≡ (if on == me then queue_of me s ++ t ∷ [] else queue_of me s)
same_queue main main t s = refl
same_queue main pool t s = refl
same_queue pool main t s = refl
same_queue pool pool t s = refl

pub enqueue-IsFifo :
    (t : ℕ) (policy : TargetThread) (s : Scheduler) → IsFifo s → IsFifo (enqueue t policy s)
unfolding enqueue
enqueue-IsFifo t pool s w = note-IsFifo (launched t) s (λ me. (refl, refl)) w
enqueue-IsFifo t main s w = λ me.
    subst (λ q. Ordered me q (s.history ++ queued main t ∷ []))
      (sym (queue-set main me _ (queued main t) s ∙ same_queue main me t s))
      (pushed main me t (queue_of me s) s.history (w me))

pop-IsFifo :
    (me : TargetThread) (t : ℕ) (q : List ℕ) (s : Scheduler)
    → queue_of me s ≡ t ∷ q
    → IsFifo s
    → IsFifo (set_queue me q (popped me t) s)
pop-IsFifo on t q s top w = λ me.
    subst (λ r. Ordered me r (s.history ++ popped on t ∷ []))
      (sym (queue-set on me q (popped on t) s))
      (taken on me t (queue_of me s) q s.history (λ e. subst (λ m. queue_of m s ≡ t ∷ q) e top)
        (w me))

pub perform-IsFifo : (es : List Effect) (s : Scheduler) → IsFifo s → IsFifo (perform es s).1
unfolding perform
perform-IsFifo [] s w = w
perform-IsFifo (enqueues policy t ∷ es) s w =
    perform-IsFifo es (enqueue t policy s) (enqueue-IsFifo t policy s w)
perform-IsFifo (acts a ∷ es) s w =
    perform-IsFifo es (note (acted a) s) (note-IsFifo (acted a) s (λ me. (refl, refl)) w)
perform-IsFifo (raises e ∷ es) s w = w

-- The states that a result may hold are in order.
abbrev Kept : Result Scheduler → Type 0
Kept (ok s) = IsFifo s
Kept (err e) = Unit

called-Kept : (x : Option Failure × Scheduler) → IsFifo x.1 → Kept (called x)
called-Kept (none, s) w = w
called-Kept (some e, s) w = tt

bind-Kept :
    (r : Result Scheduler) (next : Scheduler → Result Scheduler)
    → Kept r
    → ((s : Scheduler) → IsFifo s → Kept (next s))
    → Kept (r >>= next)
bind-Kept (ok s) next w f = f s w
bind-Kept (err e) next w f = tt

conclude-Kept : (i : ℕ) (t : Task) (s : Scheduler) → IsFifo s → Kept (conclude i t s)
unfolding conclude
conclude-Kept i t s w =
    bind-Kept (called (perform (if t.success then t.on_success else t.on_failure) s)) _
      (called-Kept _ (perform-IsFifo (if t.success then t.on_success else t.on_failure) s w))
      (λ s1 w1.
        bind-Kept (called (perform t.on_completion s1)) _
          (called-Kept _ (perform-IsFifo t.on_completion s1 w1))
          (λ s2 w2.
            note-IsFifo (completed i t.success) (set_task i (finished t) s2) (λ me. (refl, refl))
              w2))

run-Kept : (i : ℕ) (s : Scheduler) → IsFifo s → Kept (run i s)
unfolding run
run-Kept i s w =
    conclude-Kept i (judged (perform (s.tasks i).body s).0 (s.tasks i))
      (perform (s.tasks i).body s).1 (perform-IsFifo (s.tasks i).body s w)

arrive-IsFifo : (ts : List ℕ) (s : Scheduler) → IsFifo s → IsFifo (arrive ts s)
unfolding arrive
arrive-IsFifo [] s w = w
arrive-IsFifo (t ∷ ts) s w = arrive-IsFifo ts (enqueue t main s) (enqueue-IsFifo t main s w)

next_task-Kept :
    (me : TargetThread) (q : List ℕ) (s : Scheduler) (k : Scheduler → Result Scheduler)
    → queue_of me s ≡ q
    → IsFifo s
    → ((s : Scheduler) → IsFifo s → Kept (k s))
    → Kept (next_task me q s k)
unfolding next_task
next_task-Kept me [] s k e w f = tt
next_task-Kept me (t ∷ q) s k e w f =
    bind-Kept (run t (set_queue me q (popped me t) s)) k
      (run-Kept t (set_queue me q (popped me t) s) (pop-IsFifo me t q s e w)) f

loop-Kept :
    (me : TargetThread) (others : ℕ → List ℕ) (rounds : ℕ) (s : Scheduler)
    → IsFifo s
    → Kept (loop me others rounds s)
unfolding loop
loop-Kept me others zero s w = w
loop-Kept me others (suc rounds) s w =
    let before = arrive (others rounds) s in
    next_task-Kept me (queue_of me before) before (λ after. loop me others rounds after) refl
      (arrive-IsFifo (others rounds) s w) (λ after w1. loop-Kept me others rounds after w1)

pub data Step : Scheduler → Scheduler → Type 0 where
  enqueues_task : {s : Scheduler} (t : ℕ) (policy : TargetThread) → Step s (enqueue t policy s)
  runs_task : {s u : Scheduler} (t : ℕ) → run t s ≡ ok u → Step s u
  updates :
      {s u : Scheduler} (me : TargetThread) (others : ℕ → List ℕ)
      → update me others s ≡ ok u
      → Step s u
  registers : {s u : Scheduler} (me : TargetThread) → register_thread me s ≡ ok u → Step s u

pub data Reach : Scheduler → Type 0 where
  start : (tasks : ℕ → Task) → Reach (new_scheduler tasks)
  later : {s u : Scheduler} → Reach s → Step s u → Reach u

new_queue :
    (me on : TargetThread) (s : Scheduler)
    → lookup me s.queues ≡ none
    → or_empty (lookup on (insert me [] s.queues)) ≡ queue_of on s
new_queue me on s new = elim (Bool-cases (me == on)) [
  | inl same ↦
      let e : me ≡ on = (same_thread_iff me on).0 same in
      let empty : lookup on s.queues ≡ none = subst (λ m. lookup m s.queues ≡ none) e new in
      rw (lookup-insert me on [] s.queues, same, empty) refl
  | inr other ↦ rw (lookup-insert me on [] s.queues, other) refl
]

register-Kept : (me : TargetThread) (s : Scheduler) → IsFifo s → Kept (register_thread me s)
unfolding register_thread
register-Kept me s w = elim (Option-cases (lookup me s.queues)) [
  | inl new ↦
      rw new (λ on. w on ∙ ap (λ q. popped_ids on s.history ++ q) (sym (new_queue me on s new)))
  | inr (q, there) ↦ rw there tt
]

Step-IsFifo : {s u : Scheduler} → Step s u → IsFifo s → IsFifo u
unfolding update
Step-IsFifo (enqueues_task {s} t policy) w = enqueue-IsFifo t policy s w
Step-IsFifo (runs_task {s} t e) w = subst Kept e (run-Kept t s w)
Step-IsFifo (updates {s} me others e) w =
    subst Kept e (loop-Kept me others (length (queue_of me s)) s w)
Step-IsFifo (registers {s} me e) w = subst Kept e (register-Kept me s w)

-- At every moment between the operations, whatever the tasks and the other threads do, the tasks
-- put in the queue of a thread are those that left it, in the same order, and then those in it.
pub Reach-IsFifo : {s : Scheduler} → Reach s → IsFifo s
unfolding new_scheduler
Reach-IsFifo (start tasks) = λ me. refl
Reach-IsFifo (later run_so_far step) = Step-IsFifo step (Reach-IsFifo run_so_far)
