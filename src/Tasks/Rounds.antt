-- ===== src/Tasks/Rounds.antt =====
-- What one update of a thread does.
use access_control.Prelude.{
  ℕ, ◌≡◌, refl, sym, ap, subst, ◌∙◌, Bool, true, false, Bool-cases, inl, inr, List, [], ◌∷◌, ◌++◌,
  append_assoc, append-nil, Option, none, some, Failure, Result, ok, length, ◌==◌, nat_eq, all,
  if◌then◌else◌,
}
use access_control.Tasks.{
  TargetThread, main, pool, thread_eq, same_thread_iff, Effect, enqueues, acts, raises, Task, Entry,
  queued, launched, popped, acted, completed, Scheduler, queue_of, set_queue, note, enqueue,
  perform, set_task, judged, called, finished, conclude, run, arrive, next_task, loop, update,
}
use access_control.Tasks.Fifo.{collect, collect-append, popped_by, popped_ids, queue-set}

abbrev completed_by : Entry → List ℕ
completed_by (completed t b) = t ∷ []
completed_by _ = []

abbrev pub completed_ids : List Entry → List ℕ
completed_ids h = collect completed_by h

abbrev quiet_effect : Effect → Bool
quiet_effect (raises e) = false
quiet_effect _ = true

-- No callback of the task raises an exception; its body may.
abbrev pub IsQuiet : Task → Type 0
IsQuiet t =
    (all quiet_effect t.on_success ≡ true)
    × (all quiet_effect t.on_failure ≡ true)
    × (all quiet_effect t.on_completion ≡ true)

abbrev pub AllQuiet : Scheduler → Type 0
AllQuiet s = (i : ℕ) → IsQuiet (s.tasks i)

-- What may happen between two states while the thread `me` takes nothing from its queue, and the
-- tasks `done` complete.
record Grows (me : TargetThread) (done : List ℕ) (s u : Scheduler) : Type 0 where
  same_popped : popped_ids me u.history ≡ popped_ids me s.history
  more_completed : completed_ids u.history ≡ completed_ids s.history ++ done
  grown : (added : List ℕ) × (queue_of me u ≡ queue_of me s ++ added)

stays : (me : TargetThread) (s : Scheduler) → Grows me [] s s
stays me s = record {
  same_popped = refl;
  more_completed = sym (append-nil _);
  grown = ([], sym (append-nil _));
}

chain :
    (me : TargetThread) (xs ys : List ℕ) (s u v : Scheduler)
    → Grows me xs s u
    → Grows me ys u v
    → Grows me (xs ++ ys) s v
chain me xs ys s u v f g = record {
  same_popped = g.same_popped ∙ f.same_popped;
  more_completed =
      g.more_completed
      ∙ ap (λ h. h ++ ys) f.more_completed
      ∙ append_assoc (completed_ids s.history) xs ys;
  grown =
      let (a, p) = f.grown in
      let (b, q) = g.grown in (a ++ b, q ∙ ap (λ h. h ++ b) p ∙ append_assoc (queue_of me s) a b);
}

note-Grows :
    (me : TargetThread) (e : Entry) (s : Scheduler)
    → popped_by me e ≡ []
    → Grows me (completed_by e) s (note e s)
note-Grows me e s none_popped = record {
  same_popped =
      collect-append (popped_by me) s.history e
      ∙ ap (λ h. popped_ids me s.history ++ h) none_popped
      ∙ append-nil _;
  more_completed = collect-append completed_by s.history e;
  grown = ([], sym (append-nil _));
}

push-Grows :
    (me on : TargetThread) (t : ℕ) (s : Scheduler)
    → Grows me [] s (set_queue on (queue_of on s ++ t ∷ []) (queued on t) s)
push-Grows me on t s = record {
  same_popped = collect-append (popped_by me) s.history (queued on t) ∙ append-nil _;
  more_completed = collect-append completed_by s.history (queued on t);
  grown = elim (Bool-cases (on == me)) [
    | inl same ↦
        let e : on ≡ me = (same_thread_iff on me).0 same in
        (t ∷ [], queue-set on me _ (queued on t) s ∙ rw (same, e) refl)
    | inr other ↦ ([], queue-set on me _ (queued on t) s ∙ rw other (sym (append-nil _)))
  ];
}

enqueue-Grows :
    (me policy : TargetThread) (t : ℕ) (s : Scheduler) → Grows me [] s (enqueue t policy s)
unfolding enqueue
enqueue-Grows me pool t s = note-Grows me (launched t) s refl
enqueue-Grows me main t s = push-Grows me main t s

enqueue-tasks :
    (policy : TargetThread) (t : ℕ) (s : Scheduler) → (enqueue t policy s).tasks ≡ s.tasks
unfolding enqueue
enqueue-tasks pool t s = refl
enqueue-tasks main t s = refl

perform-Grows :
    (me : TargetThread) (es : List Effect) (s : Scheduler) → Grows me [] s (perform es s).1
unfolding perform
perform-Grows me [] s = stays me s
perform-Grows me (enqueues policy t ∷ es) s =
    chain me [] [] s (enqueue t policy s) _ (enqueue-Grows me policy t s)
      (perform-Grows me es (enqueue t policy s))
perform-Grows me (acts a ∷ es) s =
    chain me [] [] s (note (acted a) s) _ (note-Grows me (acted a) s refl)
      (perform-Grows me es (note (acted a) s))
perform-Grows me (raises e ∷ es) s = stays me s

perform-tasks : (es : List Effect) (s : Scheduler) → (perform es s).1.tasks ≡ s.tasks
unfolding perform
perform-tasks [] s = refl
perform-tasks (enqueues policy t ∷ es) s =
    perform-tasks es (enqueue t policy s) ∙ enqueue-tasks policy t s
perform-tasks (acts a ∷ es) s = perform-tasks es (note (acted a) s)
perform-tasks (raises e ∷ es) s = refl

perform_quiet :
    (es : List Effect) (s : Scheduler) → all quiet_effect es ≡ true → (perform es s).0 ≡ none
unfolding perform
perform_quiet [] s q = refl
perform_quiet (enqueues policy t ∷ es) s q = perform_quiet es (enqueue t policy s) q
perform_quiet (acts a ∷ es) s q = perform_quiet es (note (acted a) s) q
perform_quiet (raises e ∷ es) s q = cc

called-none : (x : Option Failure × Scheduler) → x.0 ≡ none → called x ≡ ok x.1
called-none (none, s) e = refl
called-none (some f, s) e = cc

called_quiet :
    (es : List Effect) (s : Scheduler)
    → all quiet_effect es ≡ true
    → called (perform es s) ≡ ok (perform es s).1
called_quiet es s q = called-none (perform es s) (perform_quiet es s q)

chosen_quiet :
    (b : Bool) (xs ys : List Effect)
    → all quiet_effect xs ≡ true
    → all quiet_effect ys ≡ true
    → all quiet_effect (if b then xs else ys) ≡ true
chosen_quiet true xs ys p q = p
chosen_quiet false xs ys p q = q

judged-IsQuiet : (o : Option Failure) (t : Task) → IsQuiet t → IsQuiet (judged o t)
judged-IsQuiet none t q = q
judged-IsQuiet (some e) t q = q

-- A result that succeeds in a state that `Grows` relates to the one before.
abbrev Completes : TargetThread → List ℕ → Scheduler → Result Scheduler → Type 0
Completes me done s r = (u : Scheduler) × (r ≡ ok u) × Grows me done s u × AllQuiet u

set_task-AllQuiet :
    (i : ℕ) (t : Task) (s : Scheduler) → IsQuiet t → AllQuiet s → AllQuiet (set_task i t s)
set_task-AllQuiet i t s q w j = elim (Bool-cases (i == j)) [
  | inl same ↦ rw same q
  | inr other ↦ rw other (w j)
]

perform-AllQuiet : (es : List Effect) (s : Scheduler) → AllQuiet s → AllQuiet (perform es s).1
perform-AllQuiet es s w i = subst (λ f. IsQuiet (f i)) (sym (perform-tasks es s)) (w i)

-- What the tasks are plays no part.
past_set :
    (me : TargetThread) (xs : List ℕ) (i : ℕ) (t : Task) (s u : Scheduler)
    → Grows me xs (set_task i t s) u
    → Grows me xs s u
past_set me xs i t s u g = record {
  same_popped = g.same_popped;
  more_completed = g.more_completed;
  grown = g.grown;
}

conclude-Completes :
    (me : TargetThread) (i : ℕ) (t : Task) (s : Scheduler)
    → IsQuiet t
    → AllQuiet s
    → Completes me (i ∷ []) s (conclude i t s)
unfolding conclude
conclude-Completes me i t s q w =
    let es = if t.success then t.on_success else t.on_failure in
    let s1 = (perform es s).1 in
    let s2 = (perform t.on_completion s1).1 in
    let s3 = set_task i (finished t) s2 in
    let first : called (perform es s) ≡ ok s1 =
      called_quiet es s (chosen_quiet t.success t.on_success t.on_failure q.0 q.1) in
    let second : called (perform t.on_completion s1) ≡ ok s2 =
      called_quiet t.on_completion s1 q.2 in
    let u = note (completed i t.success) s3 in
    (
      u,
      rw first (rw second refl),
      chain me [] (i ∷ []) s s1 u (perform-Grows me es s) (
          chain me [] (i ∷ []) s1 s2 u (perform-Grows me t.on_completion s1) (
            past_set me (i ∷ []) i (finished t) s2 u
              (note-Grows me (completed i t.success) s3 refl))),
      set_task-AllQuiet i (finished t) s2 (refl, refl, refl)
          (perform-AllQuiet t.on_completion s1 (perform-AllQuiet es s w)),
    )

run-Completes :
    (me : TargetThread) (i : ℕ) (s : Scheduler) → AllQuiet s → Completes me (i ∷ []) s (run i s)
unfolding run
run-Completes me i s w =
    let body = (s.tasks i).body in
    let thrown = (perform body s).0 in
    let after = (perform body s).1 in
    let (u, e, g, quiet) =
      conclude-Completes me i (judged thrown (s.tasks i)) after
        (judged-IsQuiet thrown (s.tasks i) (w i)) (perform-AllQuiet body s w) in
    (u, e, chain me [] (i ∷ []) s after u (perform-Grows me body s) g, quiet)

arrive-Grows : (me : TargetThread) (ts : List ℕ) (s : Scheduler) → Grows me [] s (arrive ts s)
unfolding arrive
arrive-Grows me [] s = stays me s
arrive-Grows me (t ∷ ts) s =
    chain me [] [] s (enqueue t main s) _ (enqueue-Grows me main t s)
      (arrive-Grows me ts (enqueue t main s))

arrive-AllQuiet : (ts : List ℕ) (s : Scheduler) → AllQuiet s → AllQuiet (arrive ts s)
unfolding arrive
arrive-AllQuiet [] s w = w
arrive-AllQuiet (t ∷ ts) s w =
    arrive-AllQuiet ts (enqueue t main s)
      (λ i. subst (λ f. IsQuiet (f i)) (sym (enqueue-tasks main t s)) (w i))

-- A state after `me` ran the tasks `xs` and left `rest` and what was added since.
pub record Served (me : TargetThread) (xs rest : List ℕ) (s u : Scheduler) : Type 0 where
  pub all_popped : popped_ids me u.history ≡ popped_ids me s.history ++ xs
  pub all_completed : completed_ids u.history ≡ completed_ids s.history ++ xs
  pub left : (added : List ℕ) × (queue_of me u ≡ rest ++ added)

serve_one :
    (me : TargetThread) (x : ℕ) (q : List ℕ) (s : Scheduler) (k : Scheduler → Result Scheduler)
    → queue_of me s ≡ x ∷ q
    → AllQuiet s
    → (u : Scheduler) × (next_task me (queue_of me s) s k ≡ k u)
      × Served me (x ∷ []) q s u
      × AllQuiet u
unfolding next_task
serve_one me x q s k e w =
    let s1 = set_queue me q (popped me x) s in
    let (u, done, g, quiet) = run-Completes me x s1 w in
    let self : (me == me) ≡ true = (same_thread_iff me me).1 refl in
    (
      u,
      rw e (rw done refl),
      record {
        all_popped =
            g.same_popped ∙ collect-append (popped_by me) s.history (popped me x) ∙ rw self refl;
        all_completed =
            g.more_completed
            ∙ ap (λ h. h ++ x ∷ [])
                (collect-append completed_by s.history (popped me x) ∙ append-nil _);
        left =
            let (b, p) = g.grown in
            let set_to : queue_of me s1 ≡ q = queue-set me me q (popped me x) s ∙ rw self refl in
            (b, p ∙ ap (λ h. h ++ b) set_to);
      },
      quiet,
    )

follow :
    (me : TargetThread) (x : ℕ) (xs rest a b : List ℕ) (s s1 s2 u : Scheduler)
    → Grows me [] s s1
    → Served me (x ∷ []) (xs ++ (rest ++ a)) s1 s2
    → Served me xs (rest ++ (a ++ b)) s2 u
    → Served me (x ∷ xs) rest s u
follow me x xs rest a b s s1 s2 u g f h = record {
  all_popped =
      h.all_popped
      ∙ ap (λ l. l ++ xs) (f.all_popped ∙ ap (λ l. l ++ x ∷ []) g.same_popped)
      ∙ append_assoc (popped_ids me s.history) (x ∷ []) xs;
  all_completed =
      h.all_completed
      ∙ ap (λ l. l ++ xs)
          (f.all_completed ∙ ap (λ l. l ++ x ∷ []) (g.more_completed ∙ append-nil _))
      ∙ append_assoc (completed_ids s.history) (x ∷ []) xs;
  left = let (c, p) = h.left in ((a ++ b) ++ c, p ∙ append_assoc rest (a ++ b) c);
}

loop-Served :
    (me : TargetThread) (others : ℕ → List ℕ) (xs rest : List ℕ) (s : Scheduler)
    → queue_of me s ≡ xs ++ rest
    → AllQuiet s
    → (u : Scheduler) × (loop me others (length xs) s ≡ ok u) × Served me xs rest s u
unfolding loop
loop-Served me others [] rest s e w = (
  s,
  refl,
  record {
    all_popped = sym (append-nil _);
    all_completed = sym (append-nil _);
    left = ([], e ∙ sym (append-nil rest));
  },
)
loop-Served me others (x ∷ xs) rest s e w =
    let before = arrive (others (length xs)) s in
    let g = arrive-Grows me (others (length xs)) s in
    let (a, p) = g.grown in
    let top : queue_of me before ≡ x ∷ (xs ++ (rest ++ a)) =
      p ∙ ap (λ q. q ++ a) e ∙ append_assoc (x ∷ xs) rest a in
    let (s2, round, one, quiet) =
      serve_one me x (xs ++ (rest ++ a)) before (λ after. loop me others (length xs) after) top
        (arrive-AllQuiet (others (length xs)) s w) in
    let (b, q) = one.left in
    let next : queue_of me s2 ≡ xs ++ (rest ++ (a ++ b)) =
      q ∙ append_assoc xs (rest ++ a) b ∙ ap (λ l. xs ++ l) (append_assoc rest a b) in
    let (u, done, served) = loop-Served me others xs (rest ++ (a ++ b)) s2 next quiet in
    (u, round ∙ done, follow me x xs rest a b s before s2 u g one served)

-- Where no callback raises an exception, an update of a thread returns. It has run to completion the
-- tasks that were in the queue when it began, each once and in their order, whatever those tasks and
-- the other threads enqueue meanwhile; what is then in the queue was added since.
pub update-Served :
    (me : TargetThread) (others : ℕ → List ℕ) (s : Scheduler)
    → AllQuiet s
    → (u : Scheduler) × (update me others s ≡ ok u) × Served me (queue_of me s) [] s u
unfolding update
update-Served me others s w = loop-Served me others (queue_of me s) [] s (sym (append-nil _)) w
