-- ===== src/SharedMem/Mapping/Run.antt =====
-- kernel/src/shared_mem.rs: any sequence of operations on shared regions.
use atom.Prelude.{ℕ, ◌≡◌, ◌↔◌, refl, List, [], ◌∷◌, some, arith, ok, length, Option-cases, inl, inr}
use atom.Prelude.BTreeMap.{get}
use atom.SharedMem.{
  State, SharedRegion, RegionMapping, RegionFlags, create_region, destroy_region, can_destroy,
}
use atom.Mm.Pmm
use atom.SharedMem.Mapping.{PageTables, map_region, unmap_region}
use atom.SharedMem.Mapping.Counted.{Regions, create_region-Regions, destroy_region-Regions}
use atom.SharedMem.Mapping.Counted.Mapped.{map_region-Regions, unmap_region-Regions}

pub data Op : Type 0 where
  -- `owner`, `size`
  creates : ℕ → ℕ → Op
  -- `region_id`, `thread_id`, `virt_addr`, `flags`
  maps : ℕ → ℕ → ℕ → RegionFlags → Op
  -- `region_id`, `thread_id`
  unmaps : ℕ → ℕ → Op
  -- `region_id`, `caller`
  destroys : ℕ → ℕ → Op

module _ {S : Type 0} (vm : PageTables (S × Pmm.State)) where
  unfoldable pub step : Op → State × S → State × S
  step (creates owner size) (s, t) = ((create_region owner size s).1, t)
  step (maps id thread_id virt_addr flags) (s, t) =
      (map_region vm id thread_id virt_addr flags (s, t)).1
  step (unmaps id thread_id) (s, t) = (unmap_region vm id thread_id (s, t)).1
  step (destroys id caller) (s, t) = ((destroy_region id caller s).1, t)

  unfoldable pub run : List Op → State × S → State × S
  run [] st = st
  run (op ∷ ops) st = run ops (step op st)

  step-Regions : (op : Op) (st : State × S) → Regions st.0.regions → Regions (step op st).0.regions
  unfolding step
  step-Regions (creates owner size) (s, t) w = create_region-Regions owner size s w
  step-Regions (maps id thread_id virt_addr flags) (s, t) w =
      map_region-Regions vm id thread_id virt_addr flags s t w
  step-Regions (unmaps id thread_id) (s, t) w = unmap_region-Regions vm id thread_id s t w
  step-Regions (destroys id caller) (s, t) w = destroy_region-Regions id caller s w

-- Whatever the page tables answer, after any sequence of operations every region stands under its own
-- id, its reference count is the number of its mappings, no thread maps it twice, and its size is that
-- of its pages, if this held before.
pub run-Regions :
    {S : Type 0} (vm : PageTables (S × Pmm.State)) (ops : List Op) (st : State × S)
    → Regions st.0.regions
    → Regions (run vm ops st).0.regions
unfolding run
run-Regions vm [] st w = w
run-Regions vm (op ∷ ops) st w = run-Regions vm ops (step vm op st) (step-Regions vm op st w)

no_mapping : (ms : List RegionMapping) → (length ms ≡ 0) ↔ (ms ≡ [])
no_mapping [] = (λ e. refl, λ e. refl)
no_mapping (m ∷ ms) = (λ e. absurd (omega arith), λ e. cc)

-- Where the regions are sound, `destroy_region` succeeds exactly if the region is there, the caller
-- owns it, and no thread maps it.
pub destroy_region_iff :
    (id caller : ℕ) (s : State)
    → Regions s.regions
    → ((destroy_region id caller s).0 ≡ ok tt)
      ↔ ((r : SharedRegion) × (get id s.regions ≡ some r) × (r.owner ≡ caller) × (r.mappings ≡ []))
unfolding destroy_region can_destroy
destroy_region_iff id caller s w = (forth, back)
  where
    forth :
        (destroy_region id caller s).0 ≡ ok tt
        → (r : SharedRegion) × (get id s.regions ≡ some r) × (r.owner ≡ caller) × (r.mappings ≡ [])
    forth e = elim (Option-cases (get id s.regions)) [
      | inl f ↦ absurd (ground (arith, f, e))
      | inr (r, f) ↦ (
        r,
        f,
        ground (arith, f, e),
        (no_mapping r.mappings).0 (ground (arith, f, e, (w id r f).counted)),
      )
    ]

    back :
        (r : SharedRegion) × (get id s.regions ≡ some r) × (r.owner ≡ caller) × (r.mappings ≡ [])
        → (destroy_region id caller s).0 ≡ ok tt
    back (r, f, own, free) =
        ground (arith, f, own, (w id r f).counted, (no_mapping r.mappings).1 free)
