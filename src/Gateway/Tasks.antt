-- ===== src/Gateway/Tasks.antt =====
-- The lists of a world: what is replaced, added and counted in them.
use uurc_web_new.Prelude.{
  ℕ, zero, suc, ◌+◌, ◌≤◌, ◌≡◌, inl, inr, refl, subst, ap, true, Option, none, some, List, [], ◌∷◌,
  All, get_elem?, arith, Bool-cases, ◌==◌, ==_self,
}
use uurc_web_new.Gateway.{Task, awaiting_config, awaiting_context, connecting}
use uurc_web_new.Gateway.World.{without, replace_at, add_task}
use uurc_web_new.Gateway.Effects.{Before, NextBefore, pending_of, pending_next}

abbrev pub pending : ℕ → List Task → ℕ
pending g [] = 0
pending g (task ∷ tasks) = pending_of g task + pending g tasks

abbrev pub held : Option ℕ → ℕ
held none = 0
held (some c) = 1

pub All-replace_at {κ} :
    {P : Task → Type κ} (i : ℕ) (next : Option Task) (tasks : List Task)
    → ((t : Task) → next ≡ some t → P t)
    → All P tasks
    → All P (replace_at i next tasks)
All-replace_at i next [] h a = tt
All-replace_at zero none (t ∷ ts) h a = a.1
All-replace_at zero (some n) (t ∷ ts) h a = (h n refl, a.1)
All-replace_at (suc i) next (t ∷ ts) h a = (a.0, All-replace_at i next ts h a.1)

pub All-add_task {κ} :
    {P : Task → Type κ} (next : Option Task) (tasks : List Task)
    → ((t : Task) → next ≡ some t → P t)
    → All P tasks
    → All P (add_task next tasks)
All-add_task none tasks h a = a
All-add_task (some t) tasks h a = (h t refl, a)

pub All-imp {ℓ κ μ} :
    {A : Type ℓ} {P : A → Type κ} {Q : A → Type μ} (xs : List A)
    → ((x : A) → P x → Q x)
    → All P xs
    → All Q xs
All-imp [] h a = tt
All-imp (x ∷ xs) h a = (h x a.0, All-imp xs h a.1)

pub All-get {ℓ κ} :
    {A : Type ℓ} (P : A → Type κ) (xs : List A) (i : ℕ) (x : A)
    → get_elem? xs i ≡ some x
    → All P xs
    → P x
All-get P [] i x e a = ground arith
All-get P (y ∷ ys) zero x e a = let path : y ≡ x = ground arith in subst P path a.0
All-get P (y ∷ ys) (suc i) x e a = All-get P ys i x e a.1

pub pending-replace_at :
    (g i : ℕ) (t : Task) (next : Option Task) (tasks : List Task)
    → get_elem? tasks i ≡ some t
    → pending g (replace_at i next tasks) + pending_of g t ≡ pending g tasks + pending_next g next
pending-replace_at g i t next [] e = ground arith
pending-replace_at g zero t none (u ∷ us) e =
    let path : u ≡ t = ground arith in omega (arith, ap (pending_of g) path)
pending-replace_at g zero t (some n) (u ∷ us) e =
    let path : u ≡ t = ground arith in omega (arith, ap (pending_of g) path)
pending-replace_at g (suc i) t next (u ∷ us) e = omega (arith, pending-replace_at g i t next us e)

pub pending-add_task :
    (g : ℕ) (next : Option Task) (tasks : List Task)
    → pending g (add_task next tasks) ≡ pending_next g next + pending g tasks
pending-add_task g none tasks = omega arith
pending-add_task g (some t) tasks = refl

-- No task waits for a connection of a generation that is still to come.
pending_of-later : (n g : ℕ) (t : Task) → Before n g t → pending_of (suc g) t ≡ 0
pending_of-later n g (connecting a) b = ground arith
pending_of-later n g _ b = refl

pub pending-later : (n g : ℕ) (ts : List Task) → All (Before n g) ts → pending (suc g) ts ≡ 0
pending-later n g [] a = refl
pending-later n g (t ∷ ts) a = omega (arith, pending_of-later n g t a.0, pending-later n g ts a.1)

pub Before-mono : (n m g h : ℕ) (t : Task) → n ≤ m → g ≤ h → Before n g t → Before m h t
Before-mono n m g h (awaiting_config k input) p q b = omega (arith, b, p)
Before-mono n m g h (awaiting_context k input config) p q b = omega (arith, b, p)
Before-mono n m g h (connecting a) p q b = omega (arith, b, q)
Before-mono n m g h _ p q b = tt

pub NextBefore-some :
    (n g : ℕ) (next : Option Task) → NextBefore n g next → (t : Task) → next ≡ some t → Before n g t
NextBefore-some n g none b t e = ground arith
NextBefore-some n g (some u) b t e = let path : u ≡ t = ground arith in subst (Before n g) path b

-- Closing the connection that is held closes all that are open.
pub All-without-none :
    (c : Option ℕ) (alive : List ℕ)
    → All (λ d. c ≡ some d) alive
    → All (λ d. none ≡ some d) (without c alive)
All-without-none none alive a = a
All-without-none (some c) [] a = tt
All-without-none (some c) (d ∷ ds) a =
    let path : c ≡ d = ground arith in
    rw (subst (λ e. (e == c) ≡ true) path (==_self c)) (All-without-none (some c) ds a.1)

pub nothing_alive : (alive : List ℕ) → All (λ d. none ≡ some d) alive → alive ≡ []
nothing_alive [] a = refl
nothing_alive (d ∷ ds) a = ground (arith, a.0)

pub All-without {κ} :
    (P : ℕ → Type κ) (c : Option ℕ) (alive : List ℕ) → All P alive → All P (without c alive)
All-without P none alive a = a
All-without P (some c) [] a = tt
All-without P (some c) (d ∷ ds) a = elim (Bool-cases (d == c)) [
  | inl y ↦ rw y (All-without P (some c) ds a.1)
  | inr n ↦ rw n (a.0, All-without P (some c) ds a.1)
]

pub without_self : (c : ℕ) (alive : List ℕ) → without (some c) (c ∷ alive) ≡ without (some c) alive
without_self c alive = rw (==_self c) refl
