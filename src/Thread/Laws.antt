-- ===== src/Thread/Laws.antt =====
-- Reading one thread's table after a write to another's or its own.
use atom.Prelude.{
  ℕ, ◌≡◌, refl, ◌∷◌, [], ℕ_discrete, Option, none, some, arith, ◌==◌, ◌&&◌, if◌then◌else◌, inl, inr,
  Option-cases, ok, err,
}
use atom.Prelude.BTreeMap.{get-insert, get-remove}
use atom.Cap.Capability.{Capability}
use atom.Cap.Table
use atom.Thread.{Thread, ThreadList, find_thread, put_thread, add_capability, remove_capability}

-- The capability that a thread holds under a handle.
unfoldable pub held : ThreadList → ℕ → ℕ → Option Capability
held ts thread_id handle = elim (find_thread thread_id ts) [
  | none ↦ none
  | some t ↦ Table.get t.capability_table handle
]

pub find_thread-id :
    (id : ℕ) (ts : ThreadList) (t : Thread) → find_thread id ts ≡ some t → t.id ≡ id
unfolding find_thread
find_thread-id id [] t h = cc
find_thread-id id (x ∷ ts) t h = ground (arith, find_thread-id id ts t)

pub find_thread-put :
    (owner id : ℕ) (ts : ThreadList) (t x : Thread)
    → find_thread owner ts ≡ some t
    → x.id ≡ owner
    → find_thread id (put_thread x ts) ≡ (if owner == id then some x else find_thread id ts)
unfolding find_thread put_thread
find_thread-put owner id [] t x h e = cc
find_thread-put owner id (y ∷ ts) t x h e = ground (arith, find_thread-put owner id ts t x)

-- Taking a capability away from one thread changes no other handle and no other thread.
pub held-remove_capability :
    (ts : ThreadList) (owner handle id h : ℕ)
    → held (remove_capability owner handle ts).1 id h
      ≡ (if (owner == id) && (handle == h) then none else held ts id h)
unfolding held remove_capability Table.remove Table.get
held-remove_capability ts owner handle id h = elim (Option-cases (find_thread owner ts)) [
  | inl e ↦ rw (e, remove_capability) (ground arith)
  | inr (t, e) ↦
      rw (e, remove_capability)
        (ground (
          arith,
          find_thread-id owner ts t e,
          find_thread-put owner id ts t
              (record t { capability_table = (Table.remove t.capability_table handle).1 }) e,
          get-remove handle h t.capability_table.capabilities,
        ))
]

pub remove_capability-held :
    (ts : ThreadList) (owner handle : ℕ)
    → (remove_capability owner handle ts).0 ≡ held ts owner handle
unfolding held remove_capability Table.remove Table.get
remove_capability-held ts owner handle = ground arith

-- A capability is added to the thread named and nowhere else; a handle that the thread holds
-- already, or a thread that is not there, is an error that changes nothing.
pub held-add_capability :
    (ts : ThreadList) (owner : ℕ) (cap : Capability) (id h : ℕ)
    → held (add_capability owner cap ts).1 id h ≡ (elim (add_capability owner cap ts).0 [
      | ok _ ↦ if (owner == id) && (cap.handle == h) then some cap else held ts id h
      | err _ ↦ held ts id h
    ])
unfolding held add_capability Table.insert Table.get
held-add_capability ts owner cap id h = elim (Option-cases (find_thread owner ts)) [
  | inl e ↦ rw (e, add_capability) refl
  | inr (t, e) ↦
      rw (e, add_capability)
        (ground (
          arith,
          find_thread-id owner ts t e,
          find_thread-put owner id ts t
              (record t { capability_table = (Table.insert t.capability_table cap).1 }) e,
          get-insert cap.handle h cap t.capability_table.capabilities,
        ))
]

-- Adding succeeds exactly when the thread exists and does not hold the handle yet.
pub add_capability-ok :
    (ts : ThreadList) (owner : ℕ) (cap : Capability) (t : Thread)
    → find_thread owner ts ≡ some t
    → held ts owner cap.handle ≡ none
    → (add_capability owner cap ts).0 ≡ ok cap.handle
unfolding held add_capability Table.insert Table.get
add_capability-ok ts owner cap t e h = ground arith

-- Changes to tables keep every thread in the list.
pub find_thread-remove_capability :
    (ts : ThreadList) (owner handle id : ℕ) (t : Thread)
    → find_thread id ts ≡ some t
    → (t' : Thread) × (find_thread id (remove_capability owner handle ts).1 ≡ some t')
unfolding remove_capability
find_thread-remove_capability ts owner handle id t h = elim (Option-cases (find_thread owner ts)) [
  | inl e ↦ (t, rw (e, remove_capability) h)
  | inr (x, e) ↦ elim (ℕ_discrete owner id) [
    | yes same ↦ (
      record x { capability_table = (Table.remove x.capability_table handle).1 },
      rw (e, remove_capability)
          (ground (
            arith,
            find_thread-id owner ts x e,
            find_thread-put owner id ts x
                (record x { capability_table = (Table.remove x.capability_table handle).1 }) e,
          )),
    )
    | no other ↦ (
      t,
      rw (e, remove_capability)
          (ground (
            arith,
            find_thread-id owner ts x e,
            find_thread-put owner id ts x
                (record x { capability_table = (Table.remove x.capability_table handle).1 }) e,
          )),
    )
  ]
]

pub remove_capability-no_thread :
    (ts : ThreadList) (owner handle id : ℕ)
    → find_thread id ts ≡ none
    → find_thread id (remove_capability owner handle ts).1 ≡ none
unfolding remove_capability
remove_capability-no_thread ts owner handle id h = elim (Option-cases (find_thread owner ts)) [
  | inl e ↦ rw (e, remove_capability) h
  | inr (x, e) ↦
      rw (e, remove_capability)
        (ground (
          arith,
          find_thread-id owner ts x e,
          find_thread-put owner id ts x
              (record x { capability_table = (Table.remove x.capability_table handle).1 }) e,
        ))
]
