-- ===== src/Gateway/Tidy.antt =====
-- No connection is open that the service does not hold, and one piece of an operation keeps it so.
use uurc_web_new.Prelude.{
  ℕ, suc, ◌+◌, ◌≤◌, ◌≡◌, inl, inr, refl, sym, subst, ap, true, Option, none, some, List, All,
  get_elem?, arith, ◌==◌,
}
use uurc_web_new.Gateway.{Service, Attempt, Task, Step, connecting}
use uurc_web_new.Gateway.World.{World, without, replace_at, add_task, add_attempt, begin, continue}
use uurc_web_new.Gateway.Effects.{Before, NextBefore, pending_of, Keeps, Takes, Effect, IsSame}
use uurc_web_new.Gateway.Tasks.{
  pending, held, All-replace_at, All-add_task, All-imp, pending-replace_at, pending-add_task,
  pending-later, Before-mono, NextBefore-some, All-without-none,
}

pub record IsTidy (w : World) : Type 0 where
  pub alive : All (λ c. w.service.connection ≡ some c) w.alive
  pub single : pending w.service.generation w.tasks + held w.service.connection ≤ 1
  pub tasks : All (Before w.service.next_request w.service.generation) w.tasks
  pub attempts : All (λ a. a.of_generation ≤ w.service.generation) w.attempts
  pub authority : w.service.authoritative ≤ w.service.next_request

All-add_attempt :
    (n g : ℕ) (next : Option Task) (attempts : List Attempt)
    → NextBefore n g next
    → All (λ a. a.of_generation ≤ g) attempts
    → All (λ a. a.of_generation ≤ g) (add_attempt next attempts)
All-add_attempt n g (some (connecting a)) attempts b all = (b, all)
All-add_attempt n g _ attempts b all = all

tasks-later :
    (w : World) (step : Step) (h : ℕ)
    → IsTidy w
    → w.service.next_request ≤ step.service.next_request
    → w.service.generation ≤ h
    → All (Before step.service.next_request h) w.tasks
tasks-later w step h t p q =
    All-imp w.tasks
      (λ u b.
        Before-mono w.service.next_request step.service.next_request w.service.generation h u p q b)
      t.tasks

-- A step that keeps, of a world whose task list became `tasks`.
Keeps-IsTidy :
    (w : World) (n : ℕ) (step : Step) (tasks : List Task)
    → IsTidy w
    → Keeps w.service n step
    → pending w.service.generation tasks ≤ pending w.service.generation w.tasks
    → All (Before step.service.next_request w.service.generation) tasks
    → IsTidy (record w {
      service = step.service;
      tasks = tasks;
      attempts = add_attempt step.next w.attempts;
      alive = without step.closed w.alive;
    })
Keeps-IsTidy w n step tasks t k p b = record {
  alive =
      subst (λ c. All (λ d. step.service.connection ≡ some d) (without c w.alive)) (sym k.closed)
        (subst (λ c. All (λ d. c ≡ some d) w.alive) (sym k.connection) t.alive);
  single = omega (arith, ap (λ g. pending g tasks) k.generation, ap held k.connection, p, t.single);
  tasks = subst (λ g. All (Before step.service.next_request g) tasks) (sym k.generation) b;
  attempts =
      subst (λ g. All (λ a. a.of_generation ≤ g) (add_attempt step.next w.attempts))
        (sym k.generation)
        (All-add_attempt step.service.next_request w.service.generation step.next w.attempts
          k.next_before t.attempts);
  authority = omega (arith, k.authority, k.requests, t.authority);
}

Takes-IsTidy :
    (w : World) (step : Step) (tasks : List Task)
    → IsTidy w
    → Takes w.service step
    → pending (suc w.service.generation) tasks ≤ 1
    → All (Before step.service.next_request (suc w.service.generation)) tasks
    → IsTidy (record w {
      service = step.service;
      tasks = tasks;
      attempts = add_attempt step.next w.attempts;
      alive = without step.closed w.alive;
    })
Takes-IsTidy w step tasks t k p b = record {
  alive =
      subst (λ c. All (λ d. step.service.connection ≡ some d) (without c w.alive)) (sym k.closed)
        (subst (λ c. All (λ d. c ≡ some d) (without w.service.connection w.alive))
          (sym k.connection) (All-without-none w.service.connection w.alive t.alive));
  single = omega (arith, ap (λ g. pending g tasks) k.generation, ap held k.connection, p);
  tasks = subst (λ g. All (Before step.service.next_request g) tasks) (sym k.generation) b;
  attempts =
      subst (λ g. All (λ a. a.of_generation ≤ g) (add_attempt step.next w.attempts))
        (sym k.generation)
        (All-add_attempt step.service.next_request (suc w.service.generation) step.next w.attempts
          k.next_before (All-imp w.attempts (λ a le. omega (arith, le)) t.attempts));
  authority = k.authority;
}

pub begin-IsTidy :
    (w : World) (step : Step) → IsTidy w → Effect w.service 0 step → IsTidy (begin step w)
begin-IsTidy w step t (inl k) =
    Keeps-IsTidy w 0 step (add_task step.next w.tasks) t k
      (omega (arith, pending-add_task w.service.generation step.next w.tasks, k.next_pending))
      (All-add_task step.next w.tasks
        (NextBefore-some step.service.next_request w.service.generation step.next k.next_before)
        (tasks-later w step w.service.generation t k.requests (omega arith)))
begin-IsTidy w step t (inr k) =
    Takes-IsTidy w step (add_task step.next w.tasks) t k
      (omega (
        arith,
        pending-add_task (suc w.service.generation) step.next w.tasks,
        k.next_pending,
        pending-later w.service.next_request w.service.generation w.tasks t.tasks,
      ))
      (All-add_task step.next w.tasks
        (NextBefore-some step.service.next_request (suc w.service.generation) step.next
          k.next_before)
        (tasks-later w step (suc w.service.generation) t k.requests (omega arith)))

pub continue-IsTidy :
    (w : World) (i : ℕ) (task : Task) (step : Step)
    → get_elem? w.tasks i ≡ some task
    → IsTidy w
    → Effect w.service (pending_of w.service.generation task) step
    → IsTidy (continue i step w)
continue-IsTidy w i task step e t (inl k) =
    Keeps-IsTidy w (pending_of w.service.generation task) step (replace_at i step.next w.tasks) t k
      (omega
        (arith, pending-replace_at w.service.generation i task step.next w.tasks e, k.next_pending))
      (All-replace_at i step.next w.tasks
        (NextBefore-some step.service.next_request w.service.generation step.next k.next_before)
        (tasks-later w step w.service.generation t k.requests (omega arith)))
continue-IsTidy w i task step e t (inr k) =
    Takes-IsTidy w step (replace_at i step.next w.tasks) t k
      (omega (
        arith,
        pending-replace_at (suc w.service.generation) i task step.next w.tasks e,
        k.next_pending,
        pending-later w.service.next_request w.service.generation w.tasks t.tasks,
      ))
      (All-replace_at i step.next w.tasks
        (NextBefore-some step.service.next_request (suc w.service.generation) step.next
          k.next_before)
        (tasks-later w step (suc w.service.generation) t k.requests (omega arith)))

-- What changes the status and the log alone.
pub same-IsTidy :
    (w : World) (s : Service) → IsTidy w → IsSame w.service s → IsTidy (record w { service = s })
same-IsTidy w s t i = record {
  alive = subst (λ c. All (λ d. c ≡ some d) w.alive) (sym i.connection) t.alive;
  single = omega (arith, ap (λ g. pending g w.tasks) i.generation, ap held i.connection, t.single);
  tasks =
      All-imp w.tasks
        (λ u b.
          Before-mono w.service.next_request s.next_request w.service.generation s.generation u
            (omega (arith, i.requests)) (omega (arith, i.generation)) b)
        t.tasks;
  attempts = All-imp w.attempts (λ a le. omega (arith, le, i.generation)) t.attempts;
  authority = omega (arith, i.authority, i.requests, t.authority);
}

pub pending_of-connecting :
    (g : ℕ) (a : Attempt) → (a.of_generation == g) ≡ true → pending_of g (connecting a) ≡ 1
pending_of-connecting g a y = ground arith

pub held-none : (c : Option ℕ) → held c ≡ 0 → c ≡ none
held-none none e = refl
held-none (some c) e = ground arith
