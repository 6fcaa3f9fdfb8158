-- ===== src/Vfs/Handles.antt =====
-- The handle that `vfs_open` of lib/vfs.c makes for the node of a file.
use bare_metal_os_kernel.Base.{
  ℕ, ◌+◌, ◌≤◌, ◌≡◌, refl, ap, Option, none, some, List, ◌∷◌, length, ok, Returns, eq→==, update,
  update_self, arith,
}
use bare_metal_os_kernel.Base.{ℤ, pos}
use bare_metal_os_kernel.Files.{
  Store, File, Operations, tmpfs, devfs, initramfs, comp_file, tmpfs_open,
}
use bare_metal_os_kernel.Files.Devices.{devfs_open, initramfs_open}
use bare_metal_os_kernel.Files.Content.{Opened, Behind}
use bare_metal_os_kernel.Vfs.{Vfs, open_of}
use bare_metal_os_kernel.Vfs.Calls.{set_flags, open_node, vfs_open}
use bare_metal_os_kernel.Vfs.Routes.{Names, path_of, Route}
use bare_metal_os_kernel.Vfs.Walk.{vfs_lookup-Route}

-- The nodes and directories of the store have not changed.
pub record Stays (s s' : Store) : Type 0 where
  pub more : s.next ≤ s'.next
  pub vnodes : s'.vnodes ≡ s.vnodes
  pub components : s'.components ≡ s.components
  pub roots : s'.roots ≡ s.roots
  pub entries : s'.entries ≡ s.entries

-- A new handle at `next`, for the node `t` and with the operations `o`.
abbrev pub with_handle : (t flags : ℕ) → Operations → Store → Store
with_handle t flags o s = record s {
  files =
      update
        (update s.files s.next (record (s.files s.next) { f_ops = o; f_pos = 0; vnode = some t }))
        s.next (record (s.files s.next) { f_ops = o; f_pos = 0; vnode = some t; flags = flags });
  next = s.next + 1;
}

tmpfs_open_run :
    (t c : ℕ) (target : Option ℕ) (s : Store)
    → (s.vnodes t).component ≡ some c
    → (s.components c).type ≡ comp_file
    → tmpfs_open t target s
      ≡ ok (
        pos 0,
        some s.next,
        record s {
          files =
              update s.files s.next
                (record (s.files s.next) { f_ops = (s.vnodes t).f_ops; f_pos = 0; vnode = some t });
          next = s.next + 1;
        },
      )
unfolding tmpfs_open
tmpfs_open_run t c target s node regular =
    rw (tmpfs_open, node) (rw (eq→== (s.components c).type comp_file regular) refl)

open_of-tmpfs_open :
    (o : Operations) (t : ℕ) (target : Option ℕ) (v : Vfs) (s : Store)
    → tmpfs_open t target v.store ≡ ok (pos 0, some v.store.next, s)
    → open_of o t target v ≡ ok (pos 0, some v.store.next, record v { store = s })
unfolding open_of devfs_open initramfs_open
open_of-tmpfs_open tmpfs t target v s run = rw (open_of, run) refl
open_of-tmpfs_open devfs t target v s run = rw (open_of, run) refl
open_of-tmpfs_open initramfs t target v s run = rw (open_of, run) refl

-- The handle before its flags are set.
abbrev opened : (t : ℕ) → Vfs → File
opened t v = record (v.store.files v.store.next) {
  f_ops = (v.store.vnodes t).f_ops;
  f_pos = 0;
  vnode = some t;
}

open_node-run :
    (t c flags : ℕ) (target : Option ℕ) (v : Vfs)
    → (v.store.vnodes t).component ≡ some c
    → (v.store.components c).type ≡ comp_file
    → open_node (some t) flags target v
      ≡ ok (
        pos 0,
        some v.store.next,
        record v { store = with_handle t flags (v.store.vnodes t).f_ops v.store },
      )
unfolding open_node set_flags
open_node-run t c flags target v node regular =
    rw
      (
        open_node,
        open_of-tmpfs_open (v.store.vnodes t).f_ops t target v _
            (tmpfs_open_run t c target v.store node regular),
      )
      (ap {A = File}
        (λ w. ok (
          pos 0,
          some v.store.next,
          record v {
            store = record (v.store) {
              files =
                  update (update v.store.files v.store.next (opened t v)) v.store.next
                    (record w { flags = flags });
              next = v.store.next + 1;
            };
          },
        ))
        (update_self v.store.files v.store.next (opened t v)))

with_handle-Opened :
    (t c flags len : ℕ) (bytes : ℕ → ℕ) (o : Operations) (s : Store)
    → (s.vnodes t).component ≡ some c
    → (s.components c).type ≡ comp_file
    → (s.components c).len ≡ len
    → Behind s (s.components c).content len len bytes
    → Opened (with_handle t flags o s) s.next t c len bytes
with_handle-Opened t c flags len bytes o s node regular size behind = record {
  handle = rw (eq→== s.next s.next refl) refl;
  node = node;
  regular = regular;
  length_is = size;
  content_is = kept (s.components c).content behind;
}
  where
    kept :
        (p : Option ℕ) → Behind s p len len bytes → Behind (with_handle t flags o s) p len len bytes
    kept none h = h
    kept (some p) h = record {
      allocated = omega (arith, h.allocated);
      enough = h.enough;
      same = h.same;
    }

-- The file `c` of node `t` is open under a new handle.
pub record Handed (t c len flags : ℕ) (bytes : ℕ → ℕ) (v v' : Vfs) : Type 0 where
  pub handle : Opened v'.store v.store.next t c len bytes
  pub flags_set : (v'.store.files v.store.next).flags ≡ flags
  pub operations : (v'.store.files v.store.next).f_ops ≡ (v.store.vnodes t).f_ops
  pub start : (v'.store.files v.store.next).f_pos ≡ 0
  pub stays : Stays v.store v'.store

pub open_node-Handed :
    (t c len flags : ℕ) (bytes : ℕ → ℕ) (target : Option ℕ) (v : Vfs)
    → (v.store.vnodes t).component ≡ some c
    → (v.store.components c).type ≡ comp_file
    → (v.store.components c).len ≡ len
    → Behind v.store (v.store.components c).content len len bytes
    → Returns
        (λ (r, file, v').
          (r ≡ pos 0) × (file ≡ some v.store.next) × Handed t c len flags bytes v v')
        (open_node (some t) flags target v)
open_node-Handed t c len flags bytes target v node regular size behind =
    let o = (v.store.vnodes t).f_ops in
    (
      (pos 0, some v.store.next, record v { store = with_handle t flags o v.store }),
      open_node-run t c flags target v node regular,
      (
        refl,
        refl,
        record {
          handle = with_handle-Opened t c flags len bytes o v.store node regular size behind;
          flags_set = rw (eq→== v.store.next v.store.next refl) refl;
          operations = rw (eq→== v.store.next v.store.next refl) refl;
          start = rw (eq→== v.store.next v.store.next refl) refl;
          stays = record {
            more = omega arith;
            vnodes = refl;
            components = refl;
            roots = refl;
            entries = refl;
          };
        },
      ),
    )

-- Where the names of a path lead to a file, `vfs_open` of the path returns 0 and a new handle at
-- the start of the file, with these flags and the operations of the node; the nodes and the
-- directories stay as they are.
pub vfs_open-Handed :
    (fuel : ℕ) (i : ℤ) (n : List ℕ) (ns : List (List ℕ)) (m t c len flags : ℕ) (bytes : ℕ → ℕ)
    (target : Option ℕ) (v : Vfs)
    → v.rootfs ≡ some m
    → Names (n ∷ ns)
    → Route v.store (v.store.roots m) (n ∷ ns) t
    → length (n ∷ ns) ≤ fuel
    → (v.store.vnodes t).component ≡ some c
    → (v.store.components c).type ≡ comp_file
    → (v.store.components c).len ≡ len
    → Behind v.store (v.store.components c).content len len bytes
    → Returns
        (λ (r, file, v').
          (r ≡ pos 0) × (file ≡ some v.store.next) × Handed t c len flags bytes v v')
        (vfs_open fuel i (path_of (n ∷ ns)) flags target v)
unfolding vfs_open
vfs_open-Handed fuel i n ns m t c len flags bytes target v root names r le node regular size
      behind =
    rw (vfs_open, vfs_lookup-Route fuel i n ns m t none v root names r le)
      (open_node-Handed t c len flags bytes target v node regular size behind)
