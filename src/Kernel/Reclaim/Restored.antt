-- ===== src/Kernel/Reclaim/Restored.antt =====
-- `handle_page_fault` of kernel/reclaim.rs: a page that was taken comes back with its bytes.
use theos.Base.{
  none_not_some, none, ℕ, ◌≡◌, inl, inr, refl, sym, ap, subst, ◌∙◌, arith, List, ◌++◌, some, length,
  replicate, Bool, true, false, Result, ok, err, Exec, done, ◌-◌, append_nil, result_cases,
}
use theos.Base.Maps.{get, get-insert_self, get-insert_other}
use theos.Zram.Types.{page_size, saturating_inc}
use theos.Zram.Device.{Lz4Block, ZramDevice, load_page}
use theos.Zram.Device.Valid.{Contains, load-Contains, loads-Contains, loads-IsValid}
use theos.Zram.Device.Invalidate.{invalidate_page_lem, Dropped}
use theos.Kernel.Frames.{VmError, containing_address}
use theos.Kernel.Reclaim.{
  ReclaimPager, ReclaimEntry, ReclaimError, Stop, fails, deadlock, allocate_and_map_page, vm_error,
  resident, compressed, Vm, restored, filled, is_resident_state, restore_entry, handle_page_fault,
}
use theos.Kernel.Reclaim.Mapped.{allocate_and_map_page-other, allocate_and_map_page-deadlock}
use theos.Kernel.Reclaim.Changed.{Moved-Holds}
use theos.Kernel.Reclaim.Valid.{IsVm, Contents, Shows, Holds, compressed_bytes}

module _ {M : Type 0} (vm : Vm M) (codec : Lz4Block) where
  -- How a fault on a compressed page `p` ends: the page is in memory with its bytes, or the allocator refuses
  -- and it stays compressed, or no frame is free and the call waits for ever.
  pub data Restoring (f : Contents) (s : ReclaimPager) (m : M) (p : ℕ) (entry : ReclaimEntry)
      (run : Exec (Result (Stop ReclaimError) Bool × (ReclaimPager × M))) : Type 0 where
    back :
        (frame : ℕ) (s' : ReclaimPager) (m' : M)
        → run ≡ done (ok true, (s', m'))
        → Holds vm codec s' m' f
        → get s'.entries p ≡ some (record entry { state = resident frame })
        → f p ≡ some (vm.read_page m' p)
        → Restoring f s m p entry run
    refused :
        (e : VmError) (s' : ReclaimPager) (m' : M)
        → (allocate_and_map_page vm m p).0 ≡ err (fails e)
        → run ≡ done (err (fails (vm_error e)), (s', m'))
        → Holds vm codec s' m' f
        → get s'.entries p ≡ some entry
        → Restoring f s m p entry run
    stuck :
        (s' : ReclaimPager) (m' : M)
        → (vm.try_allocate_frame m).0 ≡ ok none
        → run ≡ done (err deadlock, (s', m'))
        → Holds vm codec s' m' f
        → get s'.entries p ≡ some entry
        → Restoring f s m p entry run

module _ {M : Type 0} (vm : Vm M) (good : IsVm vm) (codec : Lz4Block) (s : ReclaimPager) (m : M)
    (f : Contents) (h : Holds vm codec s m f) (p : ℕ) (entry : ReclaimEntry)
    (found : get s.entries p ≡ some entry) (state : entry.state ≡ compressed) (bytes : List ℕ)
    (shown : f p ≡ some bytes) (full : length bytes ≡ page_size)
    (c : Contains codec s.backend entry.page_index bytes) where
  -- The backend, which has counted the load.
  abbrev d1 : ZramDevice
  d1 = record s.backend { loads = saturating_inc s.backend.loads }

  abbrev s1 : ReclaimPager
  s1 = record s { backend = d1 }

  abbrev m1 : M
  m1 = (allocate_and_map_page vm m p).1

  abbrev m2 : M
  m2 = vm.write_page m1 p (filled bytes)

  refused-Holds : Holds vm codec s1 m1 f
  unfolding Shows
  refused-Holds =
      Moved-Holds vm codec s s1 m m1 f p entry entry bytes h found
        (record {
          valid = loads-IsValid codec s.backend _ h.book.valid;
          max = h.book.max;
          here = found;
          there = λ q apart. refl;
          same_index = refl;
          shows =
              subst (λ st. Shows vm codec s1.backend m1 p entry st bytes) (sym state)
                (loads-Contains codec s.backend _ entry.page_index bytes c);
          reads = λ q apart. allocate_and_map_page-other vm good m p q apart;
          keeps = λ i bs apart w. loads-Contains codec s.backend _ i bs w;
          same_region = refl;
          same_backend = refl;
        })
        full shown

  filled_lem : filled bytes ≡ bytes
  filled_lem =
      let none_left : page_size - length bytes ≡ 0 = omega (arith, full) in
      ap (λ (n : ℕ). bytes ++ replicate n 0) none_left ∙ append_nil bytes

  read_lem : vm.read_page m2 p ≡ bytes
  read_lem = good.write_here m1 p (filled bytes) (ap length filled_lem ∙ full) ∙ filled_lem

  back-Holds :
      (frame : ℕ) (d2 : ZramDevice)
      → Dropped codec d1 d2 entry.page_index
      → Holds vm codec (restored (record s1 { backend = d2 }) p entry frame) m2 f
  unfolding Shows
  back-Holds frame d2 u =
      Moved-Holds vm codec s (restored (record s1 { backend = d2 }) p entry frame) m m2 f p entry
        (record entry { state = resident frame }) bytes h found
        (record {
          valid = u.valid;
          max = u.same_max ∙ h.book.max;
          here = get-insert_self s.entries p (record entry { state = resident frame });
          there = λ q apart.
              get-insert_other s.entries p (record entry { state = resident frame }) q apart;
          same_index = refl;
          shows = read_lem;
          reads = λ q apart.
              good.write_other m1 p q (filled bytes) apart
              ∙ allocate_and_map_page-other vm good m p q apart;
          keeps = λ i bs apart w. u.kept i bs apart (loads-Contains codec s.backend _ i bs w);
          same_region = refl;
          same_backend = refl;
        })
        full shown

  restore_entry_lem : Restoring vm codec f s m p entry (restore_entry vm codec s m p entry)
  unfolding restore_entry
  restore_entry_lem = elim (result_cases (allocate_and_map_page vm m p).0) [
    | inr (fails e, denied) ↦ refused e s1 m1 denied (rw (loaded, denied) refl) refused-Holds found
    | inr (deadlock, denied) ↦
        stuck s1 m1 (allocate_and_map_page-deadlock vm good m p denied) (rw (loaded, denied) refl)
          refused-Holds found
    | inl (frame, given) ↦
        elim (invalidate_page_lem codec d1 entry.page_index
          (loads-IsValid codec s.backend _ h.book.valid)) [
            | inl (absent, out) ↦ absurd (none_not_some _ c.entry absent c.found)
            | inr (d2, out, u) ↦
                back frame (restored (record s1 { backend = d2 }) p entry frame) m2
                  (rw (loaded, given, out) refl) (back-Holds frame d2 u)
                  (get-insert_self s.entries p (record entry { state = resident frame }))
                  (shown ∙ ap some (sym read_lem))
          ]
  ]
    where
      loaded : load_page codec s.backend entry.page_index ≡ done (ok bytes, d1)
      loaded = load-Contains codec s.backend h.book.valid entry.page_index bytes c

-- A fault on a page that is compressed: the page is in memory with its bytes, or the allocator gives an error
-- and it stays compressed, or no frame is free and the call waits for ever for the lock that it
-- holds. In each case no page loses its bytes.
pub handle_page_fault_lem :
    {M : Type 0} (vm : Vm M) (codec : Lz4Block) (s : ReclaimPager) (m : M) (f : Contents) (addr : ℕ)
    (entry : ReclaimEntry)
    → IsVm vm
    → Holds vm codec s m f
    → get s.entries (containing_address addr) ≡ some entry
    → entry.state ≡ compressed
    → Restoring vm codec f s m (containing_address addr) entry (handle_page_fault vm codec s m addr)
unfolding handle_page_fault
handle_page_fault_lem vm codec s m f addr entry good h found state =
    let p = containing_address addr in
    let (bytes, shown, full, c) = compressed_bytes vm codec s m f h p entry found state in
    rw (found, handle_page_fault)
      (subst
        (λ st. Restoring vm codec f s m p entry (elim (is_resident_state st) [
          | true ↦ done (ok false, (s, m))
          | false ↦ restore_entry vm codec s m p entry
        ]))
        (sym state)
        (restore_entry_lem vm good codec s m f h p entry found state bytes shown full c))
