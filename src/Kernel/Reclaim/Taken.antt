-- ===== src/Kernel/Reclaim/Taken.antt =====
-- `reclaim_page` of kernel/reclaim.rs: a page that is taken out of memory keeps its bytes.
use theos.Base.{
  result_cases, ℕ, ◌≡◌, inl, inr, refl, sym, ap, subst, ◌∙◌, arith, some, Bool-cases, Result, ok,
  err, Exec, done, ◌==◌,
}
use theos.Base.Maps.{get, get-insert_self, get-insert_other}
use theos.Zram.Device.{Lz4Block, IsLossless, ZramDevice}
use theos.Zram.Device.Store.{store_page_lem, Updated}
use theos.Kernel.Frames.{VmError, containing_address}
use theos.Kernel.Reclaim.{
  ReclaimPager, ReclaimEntry, ReclaimError, vm_error, resident, compressed, Vm, remove_first, taken,
  free_frame, unmap_entry, reclaim_entry, reclaim_page,
}
use theos.Kernel.Reclaim.Changed.{Moved-Holds}
use theos.Kernel.Reclaim.Valid.{IsVm, Contents, Shows, Holds, resident_bytes, index_bound}

module _ {M : Type 0} (vm : Vm M) (codec : Lz4Block) where
  -- How the taking of a page `p` ends: it is compressed, or the allocator refuses and it stays.
  pub data Taking (f : Contents) (s : ReclaimPager) (m : M) (p : ℕ) (entry : ReclaimEntry)
      (run : Exec (Result ReclaimError (Unit {0}) × (ReclaimPager × M))) : Type 0 where
    took :
        (s' : ReclaimPager) (m' : M)
        → run ≡ done (ok tt, (s', m'))
        → Holds vm codec s' m' f
        → get s'.entries p ≡ some (record entry { state = compressed })
        → s'.resident_queue ≡ remove_first s.resident_queue p
        → Taking f s m p entry run
    refused :
        (e : VmError) (s' : ReclaimPager) (m' : M)
        → (vm.unmap_page m p).0 ≡ err e
        → run ≡ done (err (vm_error e), (s', m'))
        → Holds vm codec s' m' f
        → Taking f s m p entry run

module _ {M : Type 0} (vm : Vm M) (good : IsVm vm) (codec : Lz4Block) (s : ReclaimPager) (m : M)
    (f : Contents) (h : Holds vm codec s m f) (p frame : ℕ) (entry : ReclaimEntry)
    (found : get s.entries p ≡ some entry) (state : entry.state ≡ resident frame) (d' : ZramDevice)
    (u : Updated codec s.backend d' entry.page_index (vm.read_page m p)) where
  abbrev s1 : ReclaimPager
  s1 = record s { backend = d' }

  abbrev m1 : M
  m1 = (vm.unmap_page m p).1

  -- Memory refuses: the page is as it was, and has a copy in the backend.
  refused-Holds : (e : VmError) → (vm.unmap_page m p).0 ≡ err e → Holds vm codec s1 m1 f
  unfolding Shows
  refused-Holds e denied =
      Moved-Holds vm codec s s1 m m1 f p entry entry (vm.read_page m p) h found
        (record {
          valid = u.valid;
          max = u.same_max ∙ h.book.max;
          here = found;
          there = λ q apart. refl;
          same_index = refl;
          shows = rw state (good.unmap_refused m p e denied);
          reads = λ q apart. good.unmap_other m p q apart;
          keeps = λ i bs apart c. u.kept i bs apart c;
          same_region = refl;
          same_backend = refl;
        })
        (good.read_size m p) (resident_bytes vm codec s m f h p entry found frame state)

  -- The page is compressed, whatever happens to its frame.
  taken-Holds :
      (m' : M)
      → ((q : ℕ) → vm.read_page m' q ≡ vm.read_page m1 q)
      → Holds vm codec (taken s1 p entry) m' f
  unfolding Shows
  taken-Holds m' same =
      Moved-Holds vm codec s (taken s1 p entry) m m' f p entry (record entry { state = compressed })
        (vm.read_page m p) h found
        (record {
          valid = u.valid;
          max = u.same_max ∙ h.book.max;
          here = get-insert_self s.entries p (record entry { state = compressed });
          there =
              λ q apart. get-insert_other s.entries p (record entry { state = compressed }) q apart;
          same_index = refl;
          shows = u.here;
          reads = λ q apart. same q ∙ good.unmap_other m p q apart;
          keeps = λ i bs apart c. u.kept i bs apart c;
          same_region = refl;
          same_backend = refl;
        })
        (good.read_size m p) (resident_bytes vm codec s m f h p entry found frame state)

  free_frame_lem :
      (g : ℕ)
      → (vm.unmap_page m p).0 ≡ ok g
      → (m' : M) × (free_frame vm m1 g frame ≡ (ok tt, m'))
        × ((q : ℕ) → vm.read_page m' q ≡ vm.read_page m1 q)
  free_frame_lem g yes_ok = elim (Bool-cases (g == frame)) [
    | inl same ↦
        let d = vm.deallocate_frame m1 g in
        (d.1, rw same (ap (λ x. (x, d.1)) (good.free_ok m p g yes_ok)), λ q. good.free_other m1 g q)
    | inr other ↦ (m1, rw other refl, λ q. refl)
  ]

  unmap_entry_lem : Taking vm codec f s m p entry (done (unmap_entry vm s1 m p entry frame))
  unfolding unmap_entry
  unmap_entry_lem = elim (result_cases (vm.unmap_page m p).0) [
    | inr (e, denied) ↦ refused e s1 m1 denied (rw denied refl) (refused-Holds e denied)
    | inl (g, yes_ok) ↦
        let (m', freed, same) = free_frame_lem g yes_ok in
        took (taken s1 p entry) m' (rw (yes_ok, freed) refl) (taken-Holds m' same)
          (get-insert_self s.entries p (record entry { state = compressed })) refl
  ]

module _ {M : Type 0} (vm : Vm M) (good : IsVm vm) (codec : Lz4Block) (l : IsLossless codec)
    (s : ReclaimPager) (m : M) (f : Contents) (h : Holds vm codec s m f) where
  reclaim_entry_lem :
      (p frame : ℕ) (entry : ReclaimEntry)
      → get s.entries p ≡ some entry
      → entry.state ≡ resident frame
      → Taking vm codec f s m p entry (reclaim_entry vm codec s m p entry (resident frame))
  unfolding reclaim_entry
  reclaim_entry_lem p frame entry found state =
      let size = good.read_size m p in
      let (d', out, u) =
        store_page_lem codec l s.backend entry.page_index (vm.read_page m p) h.book.valid
          (index_bound vm codec s m f h p entry found) (omega (arith, size))
          (omega (arith, size)) in
      rw out (unmap_entry_lem vm good codec s m f h p frame entry found state d' u)

  -- Taking a page that is in memory: it is compressed and leaves the queue, or memory refuses and it stays.
  -- Either way no page loses its bytes.
  pub reclaim_page_lem :
      (addr frame : ℕ) (entry : ReclaimEntry)
      → get s.entries (containing_address addr) ≡ some entry
      → entry.state ≡ resident frame
      → Taking vm codec f s m (containing_address addr) entry (reclaim_page vm codec s m addr)
  unfolding reclaim_page
  reclaim_page_lem addr frame entry found state =
      let p = containing_address addr in
      rw (found, reclaim_page)
        (subst (λ st. Taking vm codec f s m p entry (reclaim_entry vm codec s m p entry st))
          (sym state) (reclaim_entry_lem p frame entry found state))
