-- ===== src/Syscall/Threads/Create/Granted.antt =====
-- What `sys_thread_create` gives, and that it gives nothing without the capability.
use atom.Prelude.{
  ℕ, ◌+◌, ◌*◌, ◌≡◌, refl, sym, subst, [], ◌∷◌, In, inl, inr, Option, none, some, true, arith, ◌==◌,
  ◌||◌, Bool-cases, Option-cases,
}
use atom.Cap.Permissions.{write}
use atom.Thread
use atom.Thread.{ThreadState, ThreadPriority}
use atom.Thread.States.{state_of, state_of-add}
use atom.Mm.Pmm
use atom.Mm.Pmm.{alloc_pages}
use atom.Mm.Pmm.Alloc.{Inv, Allocates, alloc_pages-Allocates}
use atom.Sched.{add_thread, push}
use atom.Syscall.Codes.{einval, eperm, enomem}
use atom.Syscall.Threads.Create.{
  State, kernel_stack_size, is_thread, new_thread_id, spawn, create_on, create_as, create_for,
  sys_thread_create,
}

-- A creation that succeeded: the caller may create threads, the stack is the first run of four free
-- pages, and the new thread is ready and waits at normal priority.
pub record Created (s : State) (tid : ℕ) (after : State) : Type 0 where
  pub caller : ℕ
  pub calls : s.sched.current ≡ some caller
  pub permitted : Thread.validate_capability_by_type caller write is_thread s.sched.threads ≡ true
  pub stack : ℕ
  pub pages : Allocates 4 s.pmm (some stack, after.pmm)
  pub answer : tid ≡ s.next_id
  pub is_ready : state_of tid after.sched.threads ≡ some ThreadState.ready
  pub waits : after.sched.ready ≡ push tid ThreadPriority.normal s.sched.ready

pub data Outcome (s : State) : ℕ × State → Type 0 where
  refused : (code : ℕ) → In code (einval ∷ eperm ∷ enomem ∷ []) → Outcome s (code, s)
  created : (tid : ℕ) (after : State) → Created s tid after → Outcome s (tid, after)

module _ (s : State) (caller : ℕ) (calls : s.sched.current ≡ some caller)
    (permitted : Thread.validate_capability_by_type caller write is_thread s.sched.threads ≡ true)
    (fresh : state_of s.next_id s.sched.threads ≡ none) where
  abbrev new_thread : ℕ → Thread.Thread
  new_thread stack_top = Thread.new s.next_id stack_top kernel_stack_size 0 ThreadPriority.normal

  starts_ready :
      (stack_top : ℕ)
      → state_of s.next_id (Thread.add (new_thread stack_top) s.sched.threads)
        ≡ some ThreadState.ready
  unfolding Thread.new
  starts_ready stack_top =
      ground (arith, fresh, state_of-add s.next_id (new_thread stack_top) s.sched.threads)

  create_on-Outcome :
      (out : Option ℕ × Pmm.State) → Allocates 4 s.pmm out → Outcome s (create_on out s)
  unfolding create_on spawn new_thread_id add_thread Thread.new
  create_on-Outcome out (Allocates.full none_free) = refused enomem (inr (inr (inl refl)))
  create_on-Outcome out (Allocates.found start after inside free first pages left total inv) =
      created s.next_id (create_on (some (start * Pmm.page_size), after) s).1 (record {
        caller = caller;
        calls = calls;
        permitted = permitted;
        stack = start * Pmm.page_size;
        pages = Allocates.found start after inside free first pages left total inv;
        answer = refl;
        is_ready = starts_ready (start * Pmm.page_size + kernel_stack_size);
        waits = refl;
      })

create_as-Outcome :
    (caller : ℕ) (s : State)
    → Inv s.pmm
    → state_of s.next_id s.sched.threads ≡ none
    → s.sched.current ≡ some caller
    → Outcome s (create_as caller s)
unfolding create_as
create_as-Outcome caller s v fresh e =
    elim (Bool-cases (Thread.validate_capability_by_type caller write is_thread s.sched.threads)) [
      | inr lacks ↦ rw lacks (refused eperm (inr (inl refl)))
      | inl permitted ↦ rw permitted (
          create_on-Outcome s caller e permitted fresh (alloc_pages 4 s.pmm)
            (alloc_pages-Allocates 4 s.pmm (omega arith) v))
    ]

-- Where the page allocator's invariant holds and no thread has the next id, `sys_thread_create`
-- either returns an error code and changes nothing, or the current thread holds a capability of a
-- thread with the permission to write, the first run of four free pages is taken for the stack, and
-- the thread that the answer names is ready and waits at normal priority.
pub sys_thread_create-Outcome :
    (entry_point stack_ptr flags : ℕ) (s : State)
    → Inv s.pmm
    → state_of s.next_id s.sched.threads ≡ none
    → Outcome s (sys_thread_create entry_point stack_ptr flags s)
unfolding sys_thread_create
sys_thread_create-Outcome entry_point stack_ptr flags s v fresh =
    elim (Bool-cases ((entry_point == 0) || (stack_ptr == 0))) [
      | inl missing ↦ rw missing (refused einval (inl refl))
      | inr given ↦ elim (Option-cases s.sched.current) [
        | inl e ↦ rw given (
            subst (λ (o : Option ℕ). Outcome s (create_for o s)) (sym e)
              (unfold create_for in refused einval (inl refl)))
        | inr (caller, e) ↦ rw given (
            subst (λ (o : Option ℕ). Outcome s (create_for o s)) (sym e)
              (unfold create_for in create_as-Outcome caller s v fresh e))
      ]
    ]
