-- ===== src/Vfs/Tests.antt =====
-- The theorems on lib/vfs.c at a small file system, and runs of lib/vfs.c.
use bare_metal_os_kernel.Base.{◌≡◌, refl, none, some, [], ◌∷◌, ◌++◌, ok, Returns, arith, inl}
use bare_metal_os_kernel.Base.{pos, negsuc}
use bare_metal_os_kernel.Files.{tmpfs}
use bare_metal_os_kernel.Vfs.Calls.{vfs_lookup, vfs_open}
use bare_metal_os_kernel.Vfs.Mount.{register_filesystem, tmpfs_name}
use bare_metal_os_kernel.Vfs.Routes.{path_of, absent, here}
use bare_metal_os_kernel.Vfs.Walk.{vfs_lookup-Route, vfs_lookup-Missing, Fails}
use bare_metal_os_kernel.Vfs.Create.{Made, vfs_open_creates}
use bare_metal_os_kernel.Vfs.Sample.{
  empty_root, empty_root-Plain, one_file, file-Route, file_name, file_name-IsName, system_of,
}

vfs_lookup-Route_example :
    vfs_lookup 1 (pos 0) (path_of (file_name ∷ [])) none (system_of one_file)
    ≡ ok (pos 0, some 14, system_of one_file)
vfs_lookup-Route_example =
    vfs_lookup-Route 1 (pos 0) file_name [] 7 14 none (system_of one_file) refl
      (file_name-IsName, tt) file-Route (omega arith)

vfs_lookup-Missing_example :
    Fails
      (vfs_lookup 1 (pos 0) (path_of (file_name ∷ [])) none (system_of empty_root))
      (system_of empty_root)
vfs_lookup-Missing_example =
    vfs_lookup-Missing 1 (pos 0) file_name [] 7 none (system_of empty_root) refl
      (file_name-IsName, tt) (absent 10 11 [] file_name [] empty_root-Plain refl) (omega arith)

vfs_open_creates_example :
    Returns
      (λ (result, file, v'). Made 10 11 [] file_name 64 (system_of empty_root) result file v')
      (vfs_open 2 (pos 0) (path_of ([] ++ file_name ∷ [])) 64 none (system_of empty_root))
vfs_open_creates_example =
    vfs_open_creates 2 (pos 0) [] file_name 7 10 11 [] 64 (system_of empty_root) refl (inl refl) tt
      file_name-IsName (here 10) tt empty_root-Plain refl refl (omega arith) (omega arith)
      (omega arith) (omega arith) (omega arith) refl none

-- Of another name nothing sets the function.
register_other :
    register_filesystem (record { name = file_name; setup_mount = none })
    ≡ (negsuc 0, record { name = file_name; setup_mount = none })
unfolding register_filesystem
register_other = refl

register_tmpfs :
    (register_filesystem (record { name = tmpfs_name; setup_mount = none })).1.setup_mount
    ≡ some tmpfs
unfolding register_filesystem
register_tmpfs = refl
