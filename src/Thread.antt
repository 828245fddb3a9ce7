-- ===== src/Thread.antt =====
-- kernel/src/thread.rs: thread control blocks and the global list of threads.
-- A `Thread` here has the fields that the kernel's logic reads; the saved registers, the stack
-- canary and the name do not enter any decision and are left out.
pub mod Laws
pub mod States
use atom.Prelude.{
  ℕ, zero, suc, ◌+◌, List, [], ◌∷◌, ◌++◌, Option, none, some, Bool, true, false, ◌==◌, ◌&&◌, ◌||◌,
  if◌then◌else◌, is_some, Result, ok, err, length,
}
use atom.Cap.Permissions.{CapPermissions}
use atom.Cap.Capability.{Capability, ResourceType, CapError, not_found, has_permission}
use atom.Cap.Table
use atom.Cap.Table.{CapabilityTable}

pub data ThreadState : Type 0 where
  running ready blocked exited : ThreadState

pub data ThreadPriority : Type 0 where
  idle low normal high : ThreadPriority

-- `priority as usize`
abbrev pub rank : ThreadPriority → ℕ
rank idle = 0
rank low = 1
rank normal = 2
rank high = 3

pub record Thread : Type 0 where
  pub id : ℕ
  pub state : ThreadState
  pub kernel_stack : ℕ
  pub kernel_stack_size : ℕ
  pub address_space : ℕ
  pub priority : ThreadPriority
  pub capability_table : CapabilityTable

-- `Thread::new`, with the id that `ThreadId::new` returned.
unfoldable pub new : ℕ → ℕ → ℕ → ℕ → ThreadPriority → Thread
new id kernel_stack kernel_stack_size address_space priority = record {
  id = id;
  state = ready;
  kernel_stack = kernel_stack;
  kernel_stack_size = kernel_stack_size;
  address_space = address_space;
  priority = priority;
  capability_table = Table.new id;
}

unfoldable pub is_runnable : Thread → Bool
is_runnable self = elim self.state [ ready ↦ true | running ↦ true | _ ↦ false ]

-- `ThreadList`, in the order of the vector.
abbrev pub ThreadList : Type 0
ThreadList = List Thread

-- `threads.iter().find(|t| t.id == id)`
unfoldable pub find_thread : ℕ → ThreadList → Option Thread
find_thread id [] = none
find_thread id (t ∷ ts) = if t.id == id then some t else find_thread id ts

-- A write through `threads.iter_mut().find(|t| t.id == thread.id)`.
unfoldable pub put_thread : Thread → ThreadList → ThreadList
put_thread thread [] = []
put_thread thread (t ∷ ts) = if t.id == thread.id then thread ∷ ts else t ∷ put_thread thread ts

unfoldable pub add : Thread → ThreadList → ThreadList
add thread self = self ++ thread ∷ []

-- `threads.remove(pos)` of the first thread with this id.
without_first : ℕ → ThreadList → ThreadList
without_first id [] = []
without_first id (t ∷ ts) = if t.id == id then ts else t ∷ without_first id ts

unfoldable pub remove : ℕ → ThreadList → Option Thread × ThreadList
unfolding without_first
remove id self = (find_thread id self, without_first id self)

unfoldable pub find : ℕ → ThreadList → Option ℕ
find id self = elim (find_thread id self) [ none ↦ none | some t ↦ some t.id ]

unfoldable pub get_runnable : ThreadList → List ℕ
get_runnable [] = []
get_runnable (t ∷ ts) = let rest = get_runnable ts in if is_runnable t then t.id ∷ rest else rest

unfoldable pub set_state : ℕ → ThreadState → ThreadList → Bool × ThreadList
set_state id state self = elim (find_thread id self) [
  | none ↦ (false, self)
  | some t ↦ (true, put_thread (record t { state = state }) self)
]

pub record ThreadStats : Type 0 where
  pub total : ℕ
  pub running_threads : ℕ
  pub ready_threads : ℕ
  pub blocked_threads : ℕ
  pub exited_threads : ℕ

-- One round of the loop of `get_stats`.
count_state : ThreadState → ThreadStats → ThreadStats
count_state running s = record s { running_threads = s.running_threads + 1 }
count_state ready s = record s { ready_threads = s.ready_threads + 1 }
count_state blocked s = record s { blocked_threads = s.blocked_threads + 1 }
count_state exited s = record s { exited_threads = s.exited_threads + 1 }

count_states : ThreadList → ThreadStats → ThreadStats
unfolding count_state
count_states [] s = s
count_states (t ∷ ts) s = count_states ts (count_state t.state s)

unfoldable pub get_stats : ThreadList → ThreadStats
unfolding count_states
get_stats self = count_states self (record {
  total = length self;
  running_threads = 0;
  ready_threads = 0;
  blocked_threads = 0;
  exited_threads = 0;
})

unfoldable pub validate_capability :
    ℕ → ℕ → CapPermissions → ThreadList → Result (Unit {0}) CapError
validate_capability thread_id cap_handle required_permission self =
    elim (find_thread thread_id self) [
      | none ↦ err not_found
      | some t ↦ elim (Table.validate t.capability_table cap_handle required_permission) [
        | ok cap ↦ ok tt
        | err e ↦ err e
      ]
    ]

unfoldable pub add_capability : ℕ → Capability → ThreadList → Result ℕ CapError × ThreadList
add_capability thread_id capability self = elim (find_thread thread_id self) [
  | none ↦ (err not_found, self)
  | some t ↦
      let (result, table) = Table.insert t.capability_table capability in
      (result, put_thread (record t { capability_table = table }) self)
]

unfoldable pub remove_capability : ℕ → ℕ → ThreadList → Option Capability × ThreadList
remove_capability thread_id cap_handle self = elim (find_thread thread_id self) [
  | none ↦ (none, self)
  | some t ↦
      let (removed, table) = Table.remove t.capability_table cap_handle in
      (removed, put_thread (record t { capability_table = table }) self)
]

unfoldable pub has_capability : ℕ → ℕ → ThreadList → Bool
has_capability thread_id cap_handle self = elim (find_thread thread_id self) [
  | none ↦ false
  | some t ↦ Table.contains t.capability_table cap_handle
]

-- The loop of `validate_capability_by_type` over the handles of a table.
any_capability : CapabilityTable → CapPermissions → (ResourceType → Bool) → List ℕ → Bool
any_capability table required_permission resource_filter [] = false
any_capability table required_permission resource_filter (handle ∷ handles) =
    let rest = any_capability table required_permission resource_filter handles in
    elim (Table.get table handle) [
      | none ↦ rest
      | some cap ↦
          if resource_filter cap.resource && has_permission cap required_permission
          then true
          else rest
    ]

unfoldable pub validate_capability_by_type :
    ℕ → CapPermissions → (ResourceType → Bool) → ThreadList → Bool
unfolding any_capability
validate_capability_by_type thread_id required_permission resource_filter self =
    elim (find_thread thread_id self) [
      | none ↦ false
      | some t ↦
          any_capability t.capability_table required_permission resource_filter
            (Table.list t.capability_table)
    ]
