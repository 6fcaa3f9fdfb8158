-- ===== src/Paths/Tests.antt =====
-- The theorems on `to_abs_path` of lib/vfs.c at the directory "/d/", and runs of it.
use bare_metal_os_kernel.Base.{
  ℕ, ◌<◌, length, ◌≡◌, refl, true, false, List, [], ◌∷◌, ◌++◌, ok, fault, Returns, arith,
}
use bare_metal_os_kernel.Base.{pos}
use bare_metal_os_kernel.Strings.Tokens.{split}
use bare_metal_os_kernel.Paths.{
  to_abs_path, concatenate, spilt, translate, translate_one, skip_blank, on_parent, join_from,
  first_component, pop_first_component, before_slash, from_slash, parent_dir, vfs_max_depth,
}
use bare_metal_os_kernel.Paths.Resolve.{trailing, written}
use bare_metal_os_kernel.Paths.Absolute.{resolved, to_abs_path-resolved}
use bare_metal_os_kernel.Paths.Normal.{IsNormal, to_abs_path-IsNormal}
use bare_metal_os_kernel.Paths.Parent.{directory_of, to_abs_path_parent}

abbrev cwd : List ℕ
cwd = b'/' ∷ b'd' ∷ b'/' ∷ []

-- "../a"
abbrev path : List ℕ
path = b'.' ∷ b'.' ∷ b'/' ∷ b'a' ∷ []

few : length (split b'/' (cwd ++ path)) < vfs_max_depth
unfolding split
few = omega arith

last : trailing (split b'/' (cwd ++ path)) ≡ false
unfolding split
last = refl

to_abs_path-resolved_example :
    (trailing (split b'/' (cwd ++ path)) ≡ false
      → to_abs_path [] cwd path ≡ ok (pos 0, resolved (cwd ++ path)))
    × (trailing (split b'/' (cwd ++ path)) ≡ true → to_abs_path [] cwd path ≡ fault)
to_abs_path-resolved_example = to_abs_path-resolved [] cwd path refl refl refl (omega arith) few

to_abs_path-IsNormal_example :
    Returns
      (λ (r, joined).
        (r ≡ pos 0)
        × ((stack : List (List ℕ)) × IsNormal stack × (joined ≡ written stack []))
        × (resolved joined ≡ joined))
      (to_abs_path [] cwd path)
to_abs_path-IsNormal_example =
    to_abs_path-IsNormal [] cwd path refl refl refl (omega arith) few last

to_abs_path_parent_example : to_abs_path [] (directory_of (b'd' ∷ [])) parent_dir ≡ ok (pos 0, [])
to_abs_path_parent_example =
    to_abs_path_parent [] (b'd' ∷ []) (omega arith, tt) refl refl (omega arith)

-- "/d/../a" is "/a".
up_and_down : to_abs_path [] cwd path ≡ ok (pos 0, b'/' ∷ b'a' ∷ [])
unfolding to_abs_path concatenate spilt split translate translate_one skip_blank on_parent join_from
up_and_down = refl

-- "." runs into the NULL behind the components.
here_faults : to_abs_path [] cwd (b'.' ∷ []) ≡ fault
unfolding to_abs_path concatenate spilt split translate translate_one skip_blank on_parent join_from
here_faults = refl

first_of_path : first_component cwd ≡ ok (b'd' ∷ [])
unfolding first_component before_slash
first_of_path = refl

rest_of_path : pop_first_component cwd ≡ []
unfolding pop_first_component from_slash
rest_of_path = refl
