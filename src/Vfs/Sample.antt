-- ===== src/Vfs/Sample.antt =====
-- A file system with one directory and one file, for runs of lib/vfs.c and lib/exception.c.
use bare_metal_os_kernel.Base.{ℕ, ◌≡◌, refl, none, some, List, [], ◌∷◌, arith, false}
use bare_metal_os_kernel.Uart.{Uart, Ring}
use bare_metal_os_kernel.Files.{Store, tmpfs, comp_file}
use bare_metal_os_kernel.Files.Directory.{root_node, add_entry}
use bare_metal_os_kernel.Files.Content.{Behind}
use bare_metal_os_kernel.Vfs.{Vfs}
use bare_metal_os_kernel.Vfs.Routes.{IsName, Plain, Route, here, down}
use bare_metal_os_kernel.Vfs.Create.{with_file, with_file-IsDirectory}

abbrev no_nodes : Store
no_nodes = record {
  vnodes = λ _. record { mount = none; v_ops = tmpfs; f_ops = tmpfs; component = none };
  components = λ _. record { name = []; type = comp_file; len = 0; content = none };
  files = λ _. record { vnode = none; f_pos = 0; f_ops = tmpfs; flags = 0 };
  roots = λ _. 0;
  entries = λ _. λ _. 0;
  bytes = λ _. λ _. 0;
  room = λ _. 0;
  next = 10;
  freed = [];
}

-- The root of mount 7 is node 10.
abbrev pub empty_root : Store
empty_root = root_node tmpfs 7 no_nodes

abbrev ring : Ring
ring = record { buffer = λ _. 0; widx = 0; ridx = 0 }

abbrev uart : Uart
uart = record { tx = ring; rx = ring; ier = 0; lsr = []; io = []; sent = [] }

abbrev pub system_of : Store → Vfs
system_of s = record {
  store = s;
  uart = uart;
  rootfs = some 7;
  filesystems = λ _. record { name = []; setup_mount = none };
  mounted = false;
}

abbrev pub file_name : List ℕ
file_name = b'a' ∷ []

pub file_name-IsName : IsName file_name
file_name-IsName = record {
  some_character = omega arith;
  no_slash = (omega arith, tt);
  no_end = (omega arith, tt);
  short = omega arith;
}

pub empty_root-Plain : Plain empty_root 10 11 []
empty_root-Plain = record {
  directory = record {
    node_used = omega arith;
    component_used = omega arith;
    node = refl;
    regular = refl;
    count = refl;
    array = refl;
  };
  unmounted = refl;
}

-- The root with the file "a", node 14.
abbrev pub one_file : Store
one_file = with_file 10 11 file_name empty_root

pub one_file-Plain : Plain one_file 10 11 ((file_name, 14) ∷ [])
unfolding add_entry
one_file-Plain = record {
  directory = with_file-IsDirectory 10 11 [] file_name empty_root empty_root-Plain.directory;
  unmounted = refl;
}

pub file-Route : Route one_file (one_file.roots 7) (file_name ∷ []) 14
unfolding add_entry
file-Route = down 10 11 ((file_name, 14) ∷ []) file_name 14 [] 14 one_file-Plain refl (here 14)

pub file_node : (one_file.vnodes 14).component ≡ some 15
unfolding add_entry
file_node = refl

pub file_regular : (one_file.components 15).type ≡ comp_file
unfolding add_entry
file_regular = refl

pub file_size : (one_file.components 15).len ≡ 0
unfolding add_entry
file_size = refl

pub file_content : Behind one_file (one_file.components 15).content 0 0 (λ _. 0)
unfolding add_entry
file_content = refl
