-- ===== src/Ipc/Trace/Newest.antt =====
-- kernel/src/ipc.rs, `IpcTraceBuffer`: the ring against the list of all events.
use mathlib.Core.List.{append-nil, append_assoc}
use atom.Prelude.{
  ℕ, zero, suc, ◌+◌, ◌-◌, ◌%◌, ◌≤◌, ◌<◌, ◌≡◌, ◌≢◌, refl, sym, ap, ◌∙◌, subst, min, List, [], ◌∷◌,
  ◌++◌, Option, none, some, ◌==◌, leb, if◌then◌else◌, arith, length, length-append, length-drop,
  length-set, length-replicate, take, drop, get_elem?, get_or, set, get_or-set_self, get_or-set_ne,
  Bool-cases, inl, inr,
}
use atom.Ipc.Trace.{
  IpcTraceEvent, IpcTraceBuffer, ipc_trace_ring_size, new, push, collect, snapshot,
}

-- All events are recorded, the first of the list first.
unfoldable pub push_all : List IpcTraceEvent → IpcTraceBuffer → IpcTraceBuffer
push_all [] self = self
push_all (event ∷ events) self = push_all events (push event self)

-- The ring after the events `xs`: the event `j` of the last 1000 stands in the slot `j % 1000`.
record Holds (self : IpcTraceBuffer) (xs : List IpcTraceEvent) : Type 0 where
  sized : length self.events ≡ 1000
  at_head : self.head ≡ length xs % 1000
  is_full : self.full ≡ leb 1000 (length xs)
  slots :
      (j : ℕ)
      → j < length xs
      → length xs ≤ j + 1000
      → get_or self.events (j % 1000) none ≡ get_elem? xs j

get_elem?-append_left :
    (xs ys : List IpcTraceEvent) (j : ℕ) → j < length xs → get_elem? (xs ++ ys) j ≡ get_elem? xs j
get_elem?-append_left [] ys j h = absurd (omega arith)
get_elem?-append_left (x ∷ xs) ys zero h = refl
get_elem?-append_left (x ∷ xs) ys (suc j) h = get_elem?-append_left xs ys j (omega arith)

get_elem?-append_last :
    (xs : List IpcTraceEvent) (e : IpcTraceEvent) → get_elem? (xs ++ e ∷ []) (length xs) ≡ some e
get_elem?-append_last [] e = refl
get_elem?-append_last (x ∷ xs) e = get_elem?-append_last xs e

drop-get_elem? :
    (xs : List IpcTraceEvent) (j : ℕ)
    → j < length xs
    → (e : IpcTraceEvent) × (get_elem? xs j ≡ some e) × (drop j xs ≡ e ∷ drop (suc j) xs)
drop-get_elem? [] j h = absurd (omega arith)
drop-get_elem? (x ∷ xs) zero h = (x, refl, refl)
drop-get_elem? (x ∷ xs) (suc j) h = drop-get_elem? xs j (omega arith)

push-Holds :
    (e : IpcTraceEvent) (self : IpcTraceBuffer) (xs : List IpcTraceEvent)
    → Holds self xs
    → Holds (push e self) (xs ++ e ∷ [])
unfolding push
push-Holds e self xs h =
    let longer = length-append xs (e ∷ []) in
    record {
      sized = length-set self.events self.head (some e) ∙ h.sized;
      at_head = omega (arith, h.at_head, longer);
      is_full = ground (arith, h.at_head, h.is_full, longer);
      slots = λ j below recent. elim (Bool-cases (j == length xs)) [
        | inl last ↦
            let same : j ≡ length xs = ground arith in
            let here : self.head ≡ j % 1000 = omega (arith, h.at_head, same) in
            ap (λ (i : ℕ). get_or (set self.events self.head (some e)) i none) (sym here)
            ∙ get_or-set_self self.events self.head (some e) none
                (omega (arith, h.at_head, h.sized))
            ∙ sym (get_elem?-append_last xs e)
            ∙ ap (get_elem? (xs ++ e ∷ [])) (sym same)
        | inr older ↦
            let before : j < length xs = ground (arith, longer) in
            let apart : self.head ≢ j % 1000 =
              λ same. absurd (omega (arith, h.at_head, same, longer)) in
            get_or-set_ne self.events self.head (j % 1000) (some e) none apart
            ∙ h.slots j before (omega (arith, longer))
            ∙ sym (get_elem?-append_left xs (e ∷ []) j before)
      ];
    }

push_all-Holds :
    (ys : List IpcTraceEvent) (self : IpcTraceBuffer) (xs : List IpcTraceEvent)
    → Holds self xs
    → Holds (push_all ys self) (xs ++ ys)
unfolding push_all
push_all-Holds [] self xs h = subst (Holds self) (sym (append-nil xs)) h
push_all-Holds (y ∷ ys) self xs h =
    subst (Holds (push_all ys (push y self))) (append_assoc xs (y ∷ []) ys)
      (push_all-Holds ys (push y self) (xs ++ y ∷ []) (push-Holds y self xs h))

new-Holds : Holds new []
new-Holds = record {
  sized = length-replicate {A = Option IpcTraceEvent} ipc_trace_ring_size none;
  at_head = refl;
  is_full = refl;
  slots = λ j below recent. absurd (omega arith);
}

-- Where `snapshot` reads in round `i`.
slot : IpcTraceBuffer → ℕ → ℕ
slot self i = if self.full then (self.head + i) % ipc_trace_ring_size else i

slot_lem :
    (self : IpcTraceBuffer) (xs : List IpcTraceEvent) (i : ℕ)
    → Holds self xs
    → length xs - 1000 + i < length xs
    → slot self i ≡ (length xs - 1000 + i) % 1000
unfolding slot
slot_lem self xs i h below = elim (Bool-cases self.full) [
  | inl full ↦
      let many : 1000 ≤ length xs = ground (arith, full, h.is_full) in
      rw full (omega (arith, h.at_head, many))
  | inr filling ↦
      let few : length xs < 1000 = ground (arith, filling, h.is_full) in
      rw filling (omega (arith, below, few))
]

collect-Holds :
    (n i : ℕ) (self : IpcTraceBuffer) (xs : List IpcTraceEvent)
    → Holds self xs
    → length xs - 1000 + i + n ≤ length xs
    → collect n i self ≡ take n (drop (length xs - 1000 + i) xs)
unfolding collect slot
collect-Holds zero i self xs h room = refl
collect-Holds (suc n) i self xs h room =
    let j = length xs - 1000 + i in
    let (e, found, split) = drop-get_elem? xs j (omega arith) in
    let read : get_or self.events (slot self i) none ≡ some e =
      ap (λ (k : ℕ). get_or self.events k none) (slot_lem self xs i h (omega arith))
      ∙ h.slots j (omega arith) (omega arith)
      ∙ found in
    let next : suc j ≡ length xs - 1000 + (i + 1) = omega arith in
    rw (read, collect)
      (ap (◌∷◌ e) (
          collect-Holds n (i + 1) self xs h (omega arith)
          ∙ ap (λ (k : ℕ). take n (drop k xs)) (sym next))
        ∙ ap (take (suc n)) (sym split))

take-enough : (n k : ℕ) (ys : List IpcTraceEvent) → n ≡ min (length ys) k → take n ys ≡ take k ys
take-enough zero zero ys h = refl
take-enough zero (suc k) [] h = refl
take-enough zero (suc k) (y ∷ ys) h = absurd (omega arith)
take-enough (suc n) zero ys h = absurd (omega arith)
take-enough (suc n) (suc k) [] h = refl
take-enough (suc n) (suc k) (y ∷ ys) h = ap (◌∷◌ y) (take-enough n k ys (omega arith))

snapshot-Holds :
    (max_events : ℕ) (self : IpcTraceBuffer) (xs : List IpcTraceEvent)
    → Holds self xs
    → snapshot max_events self ≡ take max_events (drop (length xs - 1000) xs)
unfolding snapshot
snapshot-Holds max_events self xs h =
    let total = if self.full then ipc_trace_ring_size else self.head in
    let counted : total ≡ min (length xs) 1000 = ground (arith, h.is_full, h.at_head) in
    collect-Holds (min total max_events) 0 self xs h (omega (arith, counted))
    ∙ ap (λ (k : ℕ). take (min total max_events) (drop k xs)) (omega arith)
    ∙ take-enough (min total max_events) max_events (drop (length xs - 1000) xs)
        (omega (arith, counted, length-drop (length xs - 1000) xs))

-- After any events, `snapshot` shows the last 1000 of them (all, if there are fewer), the oldest first,
-- and of these the first `max_events`.
pub snapshot-push_all :
    (max_events : ℕ) (xs : List IpcTraceEvent)
    → snapshot max_events (push_all xs new)
      ≡ take max_events (drop (length xs - ipc_trace_ring_size) xs)
snapshot-push_all max_events xs =
    snapshot-Holds max_events (push_all xs new) xs (push_all-Holds xs new [] new-Holds)
