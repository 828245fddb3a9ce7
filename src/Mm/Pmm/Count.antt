-- ===== src/Mm/Pmm/Count.antt =====
-- kernel/src/mm/pmm.rs: the number of free pages, which `FREE_PAGES` is to be.
use atom.Prelude.{
  ℕ, zero, suc, ◌+◌, ◌≤◌, ◌<◌, ◌≡◌, refl, ◌∙◌, Bool, true, false, arith, if◌then◌else◌, ◌==◌, ltb,
  leb, ◌&&◌,
}
use atom.Mm.Pmm.{
  State, is_page_free, set_page_free, set_page_allocated, run_is_free, set_run_allocated,
}
use atom.Mm.Pmm.Bitmap.{
  IsValid, is_page_free-set_page_free, is_page_free-set_page_allocated, set_page_allocated-IsValid,
  total_pages-set_page_free, total_pages-set_page_allocated, is_page_free-tracked,
}

-- How many of the first `n` numbers satisfy the test.
unfoldable pub count_true : ℕ → (ℕ → Bool) → ℕ
count_true zero f = 0
count_true (suc n) f = if f n then count_true n f + 1 else count_true n f

count_true-same :
    (n p : ℕ) (f g : ℕ → Bool)
    → ((q : ℕ) → g q ≡ (if p == q then true else f q))
    → n ≤ p
    → count_true n g ≡ count_true n f
unfolding count_true
count_true-same zero p f g same h = refl
count_true-same (suc n) p f g same h = ground (arith, same n, count_true-same n p f g same)

-- One more number that satisfies the test.
count_true-one :
    (n p : ℕ) (f g : ℕ → Bool)
    → ((q : ℕ) → g q ≡ (if p == q then true else f q))
    → f p ≡ false
    → p < n
    → count_true n g ≡ count_true n f + 1
unfolding count_true
count_true-one zero p f g same none_here h = absurd (omega arith)
count_true-one (suc n) p f g same none_here h =
    ground (arith, same n, count_true-same n p f g same, count_true-one n p f g same none_here)

count_true-le : (n : ℕ) (f : ℕ → Bool) → count_true n f ≤ n
unfolding count_true
count_true-le zero f = omega arith
count_true-le (suc n) f = ground (arith, count_true-le n f)

unfoldable pub free_pages_of : State → ℕ
unfolding count_true
free_pages_of s = count_true s.total_pages (λ page. is_page_free page s)

pub free_pages_of-le : (s : State) → free_pages_of s ≤ s.total_pages
unfolding free_pages_of
free_pages_of-le s = count_true-le s.total_pages (λ page. is_page_free page s)

pub free_pages_of-set_page_allocated :
    (page : ℕ) (s : State)
    → IsValid s
    → page < s.total_pages
    → is_page_free page s ≡ true
    → free_pages_of s ≡ free_pages_of (set_page_allocated page s) + 1
unfolding free_pages_of
free_pages_of-set_page_allocated page s v h free = simp (total_pages-set_page_allocated page s).0 (
    count_true-one s.total_pages page (λ q. is_page_free q (set_page_allocated page s))
      (λ q. is_page_free q s)
      (λ q. ground (arith, free, is_page_free-set_page_allocated page q s v h))
      (ground (arith, is_page_free-set_page_allocated page page s v h)) h)

pub free_pages_of-set_page_free :
    (page : ℕ) (s : State)
    → IsValid s
    → page < s.total_pages
    → is_page_free page s ≡ false
    → free_pages_of (set_page_free page s) ≡ free_pages_of s + 1
unfolding free_pages_of
free_pages_of-set_page_free page s v h used = simp (total_pages-set_page_free page s).0 (
    count_true-one s.total_pages page (λ q. is_page_free q s)
      (λ q. is_page_free q (set_page_free page s)) (λ q. is_page_free-set_page_free page q s v h)
      used h)

-- Whether `q` is one of the `count` pages from `start` on.
abbrev pub in_run : ℕ → ℕ → ℕ → Bool
in_run start count q = leb start q && ltb q (start + count)

-- What marking a run of free tracked pages does.
pub record TakesRun (start count : ℕ) (s after : State) : Type 0 where
  pub valid : IsValid after
  pub total : after.total_pages ≡ s.total_pages
  pub counter : after.free_count ≡ s.free_count
  pub pages :
      (q : ℕ) → is_page_free q after ≡ (if in_run start count q then false else is_page_free q s)
  pub fewer : free_pages_of s ≡ free_pages_of after + count

pub run_is_free-all :
    (count start : ℕ) (s : State)
    → run_is_free count start s ≡ true
    → (q : ℕ) → in_run start count q ≡ true
    → is_page_free q s ≡ true
unfolding run_is_free
run_is_free-all zero start s h q i = absurd (ground arith)
run_is_free-all (suc count) start s h q i =
    let later : run_is_free count (start + 1) s ≡ true
        → in_run (start + 1) count q ≡ true
        → is_page_free q s ≡ true =
      λ r. run_is_free-all count (start + 1) s r q in
    ground (arith, later)

pub all-run_is_free :
    (count start : ℕ) (s : State)
    → ((q : ℕ) → in_run start count q ≡ true → is_page_free q s ≡ true)
    → run_is_free count start s ≡ true
unfolding run_is_free
all-run_is_free zero start s h = refl
all-run_is_free (suc count) start s h =
    ground (arith, h start, all-run_is_free count (start + 1) s (λ q i. h q (ground arith)))

pub set_run_allocated-TakesRun :
    (count start : ℕ) (s : State)
    → IsValid s
    → run_is_free count start s ≡ true
    → TakesRun start count s (set_run_allocated count start s)
unfolding set_run_allocated
set_run_allocated-TakesRun zero start s v h = record {
  valid = v;
  total = refl;
  counter = refl;
  pages = λ q. ground arith;
  fewer = omega arith;
}
set_run_allocated-TakesRun (suc count) start s v h =
    let here : is_page_free start s ≡ true =
      run_is_free-all (suc count) start s h start (ground arith) in
    let inside = is_page_free-tracked start s here in
    let marked = λ (q : ℕ). is_page_free-set_page_allocated start q s v inside in
    let later =
      all-run_is_free count (start + 1) (set_page_allocated start s)
        (λ q i. ground (arith, marked q, run_is_free-all (suc count) start s h q)) in
    let rest =
      set_run_allocated-TakesRun count (start + 1) (set_page_allocated start s)
        (set_page_allocated-IsValid start s v) later in
    record {
      valid = rest.valid;
      total = rest.total ∙ (total_pages-set_page_allocated start s).0;
      counter = rest.counter ∙ (total_pages-set_page_allocated start s).1;
      pages = λ q. ground (arith, rest.pages q, marked q);
      fewer = omega (arith, rest.fewer, free_pages_of-set_page_allocated start s v inside here);
    }

count_true-ext : (n : ℕ) (f g : ℕ → Bool) → ((q : ℕ) → g q ≡ f q) → count_true n g ≡ count_true n f
unfolding count_true
count_true-ext zero f g same = refl
count_true-ext (suc n) f g same = ground (arith, same n, count_true-ext n f g same)

pub free_pages_of-same :
    (s t : State)
    → ((q : ℕ) → is_page_free q t ≡ is_page_free q s)
    → t.total_pages ≡ s.total_pages
    → free_pages_of t ≡ free_pages_of s
unfolding free_pages_of
free_pages_of-same s t same e =
    simp e (count_true-ext s.total_pages (λ q. is_page_free q s) (λ q. is_page_free q t) same)

count_true-none : (n : ℕ) (f : ℕ → Bool) → ((q : ℕ) → f q ≡ false) → count_true n f ≡ 0
unfolding count_true
count_true-none zero f used = refl
count_true-none (suc n) f used = ground (arith, used n, count_true-none n f used)

pub free_pages_of-none : (s : State) → ((q : ℕ) → is_page_free q s ≡ false) → free_pages_of s ≡ 0
unfolding free_pages_of
free_pages_of-none s used = count_true-none s.total_pages (λ q. is_page_free q s) used
