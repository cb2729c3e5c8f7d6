-- ===== src/Sched/Linked.antt =====
-- How ready queues stand to the task whose priority changes (core/src/ksch.c).
use rk.Base.{
  ℕ, ◌≡◌, ◌≢◌, refl, sym, ap, ◌∙◌, ◌⊎◌, true, false, List, [], ◌∷◌, ◌++◌, ◌==◌, arith, fun_ext,
  ℕ_discrete,
}
use mathlib.Core.Path.{subst}
use rk.Base.Distinct.{All, NotIn, All-append, All-append_left, All-append_right}
use rk.Kernel.{Kernel, update}
use rk.Sched.Queue.{prio_of, remove_tid}
use rk.Sched.Resched.{status_eq_ready}
use rk.Sched.Prio.{set_prio}
use rk.Sched.Bitmap.{IsReady, has_tasks}

-- A task that is ready is linked once in the ready queue of its priority, another is not there.
abbrev pub IsLinked : Kernel → ℕ → Type 0
IsLinked k t =
    ((status_eq_ready (k.tasks t).status ≡ true)
      × (before : List ℕ) × (after : List ℕ) × (k.ready_lists (prio_of k t) ≡ before ++ t ∷ after)
      × NotIn t before
      × NotIn t after)
    ⊎ ((status_eq_ready (k.tasks t).status ≡ false) × NotIn t (k.ready_lists (prio_of k t)))

-- what is left of a queue when its only occurrence of `t` goes
pub remove_tid-middle :
    (before after : List ℕ) (t : ℕ)
    → NotIn t before
    → remove_tid (before ++ t ∷ after) t ≡ before ++ after
unfolding remove_tid
remove_tid-middle [] after t h = ground arith
remove_tid-middle (x ∷ xs) after t h =
    let e : (x == t) ≡ false = ground (arith, h.0) in
    rw e (ap (λ ys. x ∷ ys) (remove_tid-middle xs after t h.1))

pub has_tasks-middle : (before after : List ℕ) (t : ℕ) → has_tasks (before ++ t ∷ after) ≡ true
has_tasks-middle [] after t = refl
has_tasks-middle (x ∷ xs) after t = refl

pub All-middle :
    (P : ℕ → Type 0) (before after : List ℕ) (t : ℕ)
    → All P (before ++ t ∷ after)
    → All P (before ++ after)
All-middle P before after t h =
    All-append P before after (All-append_left P before (t ∷ after) h)
      (All-append_right P before (t ∷ after) h).1

-- in a queue of tasks of priority `q` there is no task of another one
NotIn-other :
    (prio : ℕ → ℕ) (q t : ℕ) (xs : List ℕ) → prio t ≢ q → All (λ x. prio x ≡ q) xs → NotIn t xs
NotIn-other prio q t [] n h = tt
NotIn-other prio q t (x ∷ xs) n h = ((λ e. n (ap prio e ∙ h.0)), NotIn-other prio q t xs n h.1)

-- a task that is not in the queue of its priority is in none
pub NotIn-all :
    (k : Kernel) (t q : ℕ)
    → IsReady k
    → NotIn t (k.ready_lists (prio_of k t))
    → NotIn t (k.ready_lists q)
NotIn-all k t q h n = elim (ℕ_discrete (prio_of k t) q) [
  | yes e ↦ subst (λ p. NotIn t (k.ready_lists p)) e n
  | no d ↦ NotIn-other (prio_of k) q t (k.ready_lists q) d (h.filed q)
]

All-changed :
    (prio : ℕ → ℕ) (q t p : ℕ) (xs : List ℕ)
    → NotIn t xs
    → All (λ x. prio x ≡ q) xs
    → All (λ x. update prio t p x ≡ q) xs
All-changed prio q t p [] n h = tt
All-changed prio q t p (x ∷ xs) n h = (ground (arith, n.0, h.0), All-changed prio q t p xs n.1 h.1)

pub prio_of-set_prio : (k : Kernel) (t p : ℕ) → prio_of (set_prio k t p) ≡ update (prio_of k) t p
prio_of-set_prio k t p = fun_ext (λ i. ground arith)

pub set_prio-IsReady :
    (k : Kernel) (t p : ℕ)
    → IsReady k
    → NotIn t (k.ready_lists (prio_of k t))
    → IsReady (set_prio k t p)
set_prio-IsReady k t p h n = record {
  bitmap = h.bitmap;
  filed = λ q.
      subst (λ f. All (λ x. f x ≡ q) (k.ready_lists q)) (sym (prio_of-set_prio k t p))
        (All-changed (prio_of k) q t p (k.ready_lists q) (NotIn-all k t q h n) (h.filed q));
}
