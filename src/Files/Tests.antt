-- ===== src/Files/Tests.antt =====
-- The theorems on lib/tmpfs.c at a small store, and runs of lib/tmpfs.c and lib/devfs.c.
use bare_metal_os_kernel.Base.{
  ℕ, ◌+◌, ◌<◌, ◌≡◌, refl, none, some, List, [], ◌∷◌, ok, ◌>>=◌, Returns, arith,
}
use bare_metal_os_kernel.Base.{pos}
use bare_metal_os_kernel.Files.{Store, tmpfs, comp_file, tmpfs_write, tmpfs_read, tmpfs_open}
use bare_metal_os_kernel.Files.Bytes.{pasted}
use bare_metal_os_kernel.Files.Content.{Opened}
use bare_metal_os_kernel.Files.Write.{tmpfs_write-Opened}
use bare_metal_os_kernel.Files.Read.{tmpfs_read-Opened, tmpfs_read-tmpfs_write}
use bare_metal_os_kernel.Files.Directory.{
  root_node, tmpfs_create, tmpfs_lookup, tmpfs_mkdir, mkdir_on, made_dir, devfs_setup_mount,
  devfs_create, devfs_lookup, devfs_uart_name, component_of, create_on, create_in, add_entry,
  lookup_in, lookup_loop, entries_of,
}
use bare_metal_os_kernel.Files.Entries.{IsDirectory, find}
use bare_metal_os_kernel.Files.Added.{after_create, after_create-IsDirectory}
use bare_metal_os_kernel.Files.Create.{tmpfs_lookup-tmpfs_create}

-- Handle 3 is open on node 1, whose component 2 is an empty file.
abbrev small_store : Store
small_store = record {
  vnodes = λ _. record { mount = none; v_ops = tmpfs; f_ops = tmpfs; component = some 2 };
  components = λ _. record { name = []; type = comp_file; len = 0; content = none };
  files = λ _. record { vnode = some 1; f_pos = 0; f_ops = tmpfs; flags = 0 };
  roots = λ _. 0;
  entries = λ _. λ _. 0;
  bytes = λ _. λ _. 0;
  room = λ _. 0;
  next = 10;
  freed = [];
}

small-Opened : Opened small_store 3 1 2 0 (λ _. 0)
small-Opened = record {
  handle = refl;
  node = refl;
  regular = refl;
  length_is = refl;
  content_is = refl;
}

abbrev letters : ℕ → ℕ
letters i = b'a' + i

tmpfs_write-Opened_example :
    Returns
      (λ r.
        (r.0 ≡ pos 3)
        × Opened r.1 3 1 2 3 (pasted (λ _. 0) 0 letters 3)
        × ((r.1.files 3).f_pos ≡ 3))
      (tmpfs_write (some 3) letters 3 small_store)
tmpfs_write-Opened_example =
    tmpfs_write-Opened small_store 3 1 2 0 (λ _. 0) letters 3 small-Opened (omega arith)
      (omega arith) (omega arith)

-- The file of `small_store` with two bytes, and its handle behind the first.
abbrev two_bytes : Store
two_bytes = record small_store {
  components = λ _. record { name = []; type = comp_file; len = 2; content = some 5 };
  files = λ _. record { vnode = some 1; f_pos = 1; f_ops = tmpfs; flags = 0 };
  bytes = λ _. letters;
  room = λ _. 2;
}

two-Opened : Opened two_bytes 3 1 2 2 letters
two-Opened = record {
  handle = refl;
  node = refl;
  regular = refl;
  length_is = refl;
  content_is = record { allocated = omega arith; enough = omega arith; same = λ a lt. refl };
}

tmpfs_read-Opened_example :
    Returns
      (λ r.
        (r.0 ≡ pos 1)
        × ((a : ℕ) → r.1 a ≡ pasted (λ _. 0) 0 letters 1 a)
        × Opened r.2 3 1 2 2 letters
        × ((r.2.files 3).f_pos ≡ 2))
      (tmpfs_read (some 3) (λ _. 0) 1 two_bytes)
tmpfs_read-Opened_example =
    tmpfs_read-Opened two_bytes 3 1 2 2 letters (λ _. 0) 1 two-Opened (omega arith) (omega arith)
      (omega arith)

tmpfs_read-tmpfs_write_example :
    Returns
      (λ r. (r.0 ≡ pos 5) × ((a : ℕ) → a < 5 → r.1 a ≡ letters a))
      (do
        (wrote, s1) ← tmpfs_write (some 3) letters 5 small_store
        (opened, target, s2) ← tmpfs_open 1 none s1
        tmpfs_read target (λ _. 0) 5 s2)
tmpfs_read-tmpfs_write_example =
    tmpfs_read-tmpfs_write small_store 3 1 2 (λ _. 0) letters (λ _. 0) 5 small-Opened refl
      (omega arith)

-- A new root directory, node 10 with component 11.
abbrev empty_root : Store
empty_root = root_node tmpfs 7 small_store

empty-IsDirectory : IsDirectory empty_root 10 11 []
empty-IsDirectory = record {
  node_used = omega arith;
  component_used = omega arith;
  node = refl;
  regular = refl;
  count = refl;
  array = refl;
}

abbrev name : List ℕ
name = b'd' ∷ b'1' ∷ []

-- The root with the directory "d1", node 14.
abbrev one_entry : Store
one_entry = after_create 10 11 name empty_root

one-IsDirectory : IsDirectory one_entry 10 11 ((name, 14) ∷ [])
one-IsDirectory = after_create-IsDirectory empty_root 10 11 [] name empty-IsDirectory

abbrev other_name : List ℕ
other_name = b'd' ∷ b'2' ∷ []

tmpfs_lookup-tmpfs_create_example :
    Returns
      (λ r.
        (tmpfs_lookup 10 none other_name r.2 ≡ ok (pos 0, some one_entry.next))
        × ((old : List ℕ) (t : ℕ)
            → find old ((name, 14) ∷ []) ≡ some t
            → tmpfs_lookup 10 none old r.2 ≡ ok (pos 0, some t)))
      (tmpfs_create 10 none other_name one_entry)
tmpfs_lookup-tmpfs_create_example =
    tmpfs_lookup-tmpfs_create one_entry 10 11 ((name, 14) ∷ []) none other_name one-IsDirectory refl
      (omega arith) (omega arith)

devfs_setup_mount_uart :
    Returns
      (λ r. (r.0 ≡ pos 0) × (devfs_lookup 10 none devfs_uart_name r.1 ≡ ok (pos 0, some 14)))
      (devfs_setup_mount (some 7) small_store)
unfolding devfs_setup_mount devfs_create devfs_lookup tmpfs_create create_on create_in component_of
    add_entry tmpfs_lookup lookup_in lookup_loop entries_of
devfs_setup_mount_uart = (_, refl, (refl, refl))

tmpfs_mkdir_made :
    Returns (λ r. (r.0 ≡ pos 0) × (r.1 ≡ some 14)) (tmpfs_mkdir 10 none name empty_root)
unfolding tmpfs_mkdir mkdir_on made_dir tmpfs_create create_on create_in component_of add_entry
    tmpfs_lookup lookup_in lookup_loop entries_of
tmpfs_mkdir_made = (_, refl, (refl, refl))
