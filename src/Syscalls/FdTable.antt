-- ===== src/Syscalls/FdTable.antt =====
-- The system calls of lib/exception.c that give and take file descriptors.
use bare_metal_os_kernel.Base.{
  ℕ, zero, suc, ◌+◌, ◌/◌, ◌%◌, ◌≤◌, ◌<◌, ◌≡◌, ◌≢◌, refl, sym, subst, ap, ◌∙◌, false, Option, none,
  some, List, ◌∷◌, length, ok, fault, Returns, ◌==◌, lt→ltb, ne→==, update, update_self, arith,
  Option-cases, Bool-cases, inl, inr,
}
use bare_metal_os_kernel.Strings.Text.{c_string-Stored}
use bare_metal_os_kernel.Base.{ℤ, pos, negsuc}
use bare_metal_os_kernel.Strings.Stored.{Stored}
use bare_metal_os_kernel.Files.{Store, comp_file, tmpfs_close, Operations, tmpfs, devfs, initramfs}
use bare_metal_os_kernel.Files.Devices.{devfs_close, initramfs_close}
use bare_metal_os_kernel.Files.Content.{Opened, Behind}
use bare_metal_os_kernel.Paths.{to_abs_path, tmpfs_max_path_len}
use bare_metal_os_kernel.Scheduler.{vfs_process_max_open_file}
use bare_metal_os_kernel.Scheduler.Control.{get_task_idle_fd, idle_from}
use bare_metal_os_kernel.Vfs.{Vfs, o_creat}
use bare_metal_os_kernel.Vfs.Calls.{
  vfs_open, vfs_lookup, vfs_write, vfs_close, close_of, open_missing,
}
use bare_metal_os_kernel.Vfs.Routes.{Names, path_of, Route, Missing}
use bare_metal_os_kernel.Vfs.Walk.{vfs_lookup-Missing}
use bare_metal_os_kernel.Vfs.Handles.{vfs_open-Handed}
use bare_metal_os_kernel.Syscalls.{System, Given, get_current, set_fd, file_at}
use bare_metal_os_kernel.Syscalls.Files.{absolute, open_fd, sysc_open, sysc_close, sysc_write}

-- The first free descriptor from `i` on.
pub record Least (n i fd : ℕ) (fds : ℕ → Option ℕ) : Type 0 where
  pub low : i ≤ fd
  pub high : fd < i + n
  pub free : fds fd ≡ none
  pub taken : (j : ℕ) → i ≤ j → j < fd → (f : ℕ) × (fds j ≡ some f)

same_fd : (i fd : ℕ) → some i ≡ some fd → i ≡ fd
same_fd i fd e = cc

-- What the search comes to after its look at one descriptor.
abbrev after : (n i : ℕ) → (fds : ℕ → Option ℕ) → Option ℕ → Option ℕ
after n i fds o = elim o [ none ↦ some i | some _ ↦ idle_from n (i + 1) fds ]

pub idle_from-Least :
    (n i fd : ℕ) (fds : ℕ → Option ℕ) → idle_from n i fds ≡ some fd → Least n i fd fds
unfolding idle_from
idle_from-Least zero i fd fds e = ground (arith, e)
idle_from-Least (suc n) i fd fds e = elim (Option-cases (fds i)) [
  | inl free_ ↦
      let here_ = same_fd i fd (subst (λ o. after n i fds o ≡ some fd) free_ e) in
      record {
        low = omega (arith, here_);
        high = omega (arith, here_);
        free = ap fds (sym here_) ∙ free_;
        taken = λ j le lt. ground (arith, here_, le, lt);
      }
  | inr (f, used) ↦
      let rest = idle_from-Least n (i + 1) fd fds (subst (λ o. after n i fds o ≡ some fd) used e) in
      record {
        low = omega (arith, rest.low);
        high = omega (arith, rest.high);
        free = rest.free;
        taken = λ j le lt. elim (Bool-cases (i == j)) [
          | inl same ↦ (f, ap fds (ground (arith, same)) ∙ used)
          | inr other ↦ rest.taken j (ground (arith, other, le)) lt
        ];
      }
]

absolute-path_of :
    (k : Given) (p : ℕ) (n : List ℕ) (ns : List (List ℕ)) (s : System)
    → Stored s.mem p (path_of (n ∷ ns))
    → length (path_of (n ∷ ns)) < k.fuel
    → length (path_of (n ∷ ns)) < tmpfs_max_path_len
    → absolute k p s ≡ ok (path_of (n ∷ ns))
unfolding absolute to_abs_path
absolute-path_of k p n ns s h more short =
    rw
      (
        absolute,
        c_string-Stored k.fuel s.mem p (path_of (n ∷ ns)) more h,
        lt→ltb (length (path_of (n ∷ ns))) tmpfs_max_path_len short,
      )
      refl

-- The table after `cur->fd_table[fd] = file`.
set_fd-table :
    (fd : ℕ) (file : Option ℕ) (s : System)
    → (get_current (set_fd fd file s)).fd_table ≡ update (get_current s).fd_table fd file
set_fd-table fd file s = ap (λ t. t.fd_table) (update_self s.scheduler.tasks s.scheduler.current _)

-- Descriptor `fd` has become `file`, and the others are as they were.
pub record Table (fd : ℕ) (file : Option ℕ) (s s' : System) : Type 0 where
  pub entry : (get_current s').fd_table fd ≡ file
  pub others : (a : ℕ) → a ≢ fd → (get_current s').fd_table a ≡ (get_current s).fd_table a

set_fd-Table :
    (fd : ℕ) (file : Option ℕ) (s : System) (v : Vfs)
    → Table fd file s (set_fd fd file (record s { vfs = v }))
set_fd-Table fd file s v = record {
  entry =
      ap (λ g. g fd) (set_fd-table fd file (record s { vfs = v }))
      ∙ update_self (get_current s).fd_table fd file;
  others = λ a ne.
      ap (λ g. g a) (set_fd-table fd file (record s { vfs = v }))
      ∙ rw (ne→== fd a (λ e. ne (sym e))) refl;
}

open_fd-run :
    (k : Given) (fd p flags : ℕ) (n : List ℕ) (ns : List (List ℕ)) (s : System) (r : ℤ)
    (file : Option ℕ) (v : Vfs)
    → Stored s.mem p (path_of (n ∷ ns))
    → length (path_of (n ∷ ns)) < k.fuel
    → length (path_of (n ∷ ns)) < tmpfs_max_path_len
    → get_task_idle_fd (get_current s) ≡ some fd
    → vfs_open k.fuel (k.i 0) (path_of (n ∷ ns)) flags none s.vfs ≡ ok (r, file, v)
    → sysc_open k p flags s ≡ ok (pos fd, set_fd fd file (record s { vfs = v }))
unfolding sysc_open open_fd
open_fd-run k fd p flags n ns s r file v h more short idle run =
    rw (sysc_open, idle) (rw (open_fd, absolute-path_of k p n ns s h more short) (rw run refl))

-- `sysc_open` of an absolute path whose names lead to a file returns the lowest descriptor that is
-- free, and this descriptor becomes a new handle, open on the file; the other descriptors stay.
pub sysc_open-Handed :
    (k : Given) (s : System) (p flags fd : ℕ) (n : List ℕ) (ns : List (List ℕ)) (m t c len : ℕ)
    (bytes : ℕ → ℕ)
    → Stored s.mem p (path_of (n ∷ ns))
    → length (path_of (n ∷ ns)) < k.fuel
    → length (path_of (n ∷ ns)) < tmpfs_max_path_len
    → get_task_idle_fd (get_current s) ≡ some fd
    → s.vfs.rootfs ≡ some m
    → Names (n ∷ ns)
    → Route s.vfs.store (s.vfs.store.roots m) (n ∷ ns) t
    → length (n ∷ ns) ≤ k.fuel
    → (s.vfs.store.vnodes t).component ≡ some c
    → (s.vfs.store.components c).type ≡ comp_file
    → (s.vfs.store.components c).len ≡ len
    → Behind s.vfs.store (s.vfs.store.components c).content len len bytes
    → Returns
        (λ (r, s').
          (r ≡ pos fd)
          × Least vfs_process_max_open_file 0 fd (get_current s).fd_table
          × Table fd (some s.vfs.store.next) s s'
          × Opened s'.vfs.store s.vfs.store.next t c len bytes)
        (sysc_open k p flags s)
unfolding get_task_idle_fd
sysc_open-Handed k s p flags fd n ns m t c len bytes h more short idle root names route le node
      regular size behind =
    let ((r, file, v), run, (_, handed_out, handed)) =
      vfs_open-Handed k.fuel (k.i 0) n ns m t c len flags bytes none s.vfs root names route le node
        regular size behind in
    (
      (pos fd, set_fd fd file (record s { vfs = v })),
      open_fd-run k fd p flags n ns s r file v h more short idle run,
      (
        refl,
        idle_from-Least vfs_process_max_open_file 0 fd (get_current s).fd_table idle,
        subst (λ o. Table fd o s (set_fd fd file (record s { vfs = v }))) handed_out
            (set_fd-Table fd file s v),
        handed.handle,
      ),
    )

vfs_open_after :
    (fuel : ℕ) (i : ℤ) (path : List ℕ) (flags : ℕ) (looked : ℤ) (stale : Option ℕ) (v v1 : Vfs)
    → vfs_lookup fuel i path none v ≡ ok (looked, stale, v1)
    → looked ≡ negsuc 0
    → v1 ≡ v
    → (((flags / o_creat) % 2) == 1) ≡ false
    → vfs_open fuel i path flags none v ≡ ok (negsuc 0, none, v)
unfolding vfs_open open_missing
vfs_open_after fuel i path flags looked stale v v1 run failed same no_creat =
    rw (vfs_open, run, failed) (rw (open_missing, no_creat) (ap (λ w. ok (negsuc 0, none, w)) same))

-- Without O_CREAT `vfs_open` of a path that leads nowhere fails.
vfs_open_fails :
    (fuel : ℕ) (i : ℤ) (n : List ℕ) (ns : List (List ℕ)) (m flags : ℕ) (v : Vfs)
    → v.rootfs ≡ some m
    → Names (n ∷ ns)
    → Missing v.store (v.store.roots m) (n ∷ ns)
    → length (n ∷ ns) ≤ fuel
    → (((flags / o_creat) % 2) == 1) ≡ false
    → vfs_open fuel i (path_of (n ∷ ns)) flags none v ≡ ok (negsuc 0, none, v)
vfs_open_fails fuel i n ns m flags v root names missing le no_creat =
    let ((looked, stale, v1), run, (failed, same)) =
      vfs_lookup-Missing fuel i n ns m none v root names missing le in
    vfs_open_after fuel i (path_of (n ∷ ns)) flags looked stale v v1 run failed same no_creat

write_through_null :
    (fd buf count : ℕ) (s : System)
    → fd < vfs_process_max_open_file
    → (get_current s).fd_table fd ≡ none
    → sysc_write (pos fd) buf count s ≡ fault
unfolding sysc_write file_at vfs_write
write_through_null fd buf count s lt e =
    rw (sysc_write, file_at, lt→ltb fd vfs_process_max_open_file lt) (rw e refl)

-- `sysc_open` without O_CREAT of an absolute path whose names lead nowhere returns the lowest
-- free descriptor as well, which stays without a handle; a `sysc_write` to it then goes through
-- NULL. The file system stays as it is.
pub sysc_open-Missing :
    (k : Given) (s : System) (p flags fd : ℕ) (n : List ℕ) (ns : List (List ℕ)) (m : ℕ)
    → Stored s.mem p (path_of (n ∷ ns))
    → length (path_of (n ∷ ns)) < k.fuel
    → length (path_of (n ∷ ns)) < tmpfs_max_path_len
    → get_task_idle_fd (get_current s) ≡ some fd
    → s.vfs.rootfs ≡ some m
    → Names (n ∷ ns)
    → Missing s.vfs.store (s.vfs.store.roots m) (n ∷ ns)
    → length (n ∷ ns) ≤ k.fuel
    → (((flags / o_creat) % 2) == 1) ≡ false
    → Returns
        (λ (r, s').
          (r ≡ pos fd)
          × Table fd none s s'
          × (s'.vfs ≡ s.vfs)
          × ((buf count : ℕ) → sysc_write (pos fd) buf count s' ≡ fault))
        (sysc_open k p flags s)
unfolding get_task_idle_fd
sysc_open-Missing k s p flags fd n ns m h more short idle root names missing le no_creat =
    let least = idle_from-Least vfs_process_max_open_file 0 fd (get_current s).fd_table idle in
    let table = set_fd-Table fd none s s.vfs in
    (
      (pos fd, set_fd fd none s),
      open_fd-run k fd p flags n ns s (negsuc 0) none s.vfs h more short idle
          (vfs_open_fails k.fuel (k.i 0) n ns m flags s.vfs root names missing le no_creat),
      (
        refl,
        table,
        refl,
        λ buf count.
            write_through_null fd buf count (set_fd fd none s) (omega (arith, least.high))
              table.entry,
      ),
    )

close_of-result : (o : Operations) (f : ℕ) (s : Store) → (close_of o (some f) s).0 ≡ pos 0
unfolding close_of tmpfs_close devfs_close initramfs_close
close_of-result tmpfs f s = refl
close_of-result devfs f s = refl
close_of-result initramfs f s = refl

-- `sysc_close` of a descriptor with a handle returns 0 and frees this descriptor, and no other.
pub sysc_close-Table :
    (s : System) (fd f : ℕ)
    → fd < vfs_process_max_open_file
    → (get_current s).fd_table fd ≡ some f
    → Returns (λ (r, s'). (r ≡ pos 0) × Table fd none s s') (sysc_close (pos fd) s)
unfolding sysc_close file_at vfs_close
sysc_close-Table s fd f lt e =
    let v = record (s.vfs) {
      store = (close_of (s.vfs.store.files f).f_ops (some f) s.vfs.store).1;
    } in
    (
      (pos 0, set_fd fd none (record s { vfs = v })),
      rw (sysc_close, file_at, lt→ltb fd vfs_process_max_open_file lt)
          (rw e (rw (vfs_close, close_of-result (s.vfs.store.files f).f_ops f s.vfs.store) refl)),
      (refl, set_fd-Table fd none s v),
    )
