-- ===== src/Paths/Parent.antt =====
-- The way up from a directory of the root, in `to_abs_path` of lib/vfs.c.
use bare_metal_os_kernel.Base.{
  ℕ, ◌+◌, ◌<◌, ◌≡◌, refl, sym, subst, ap, ◌∙◌, true, false, List, [], ◌∷◌, ◌++◌, append_assoc,
  length, length-append, ok, arith,
}
use bare_metal_os_kernel.Base.{pos}
use bare_metal_os_kernel.Files.Directory.{same_name}
use bare_metal_os_kernel.Strings.Tokens.{split}
use bare_metal_os_kernel.Strings.Tokens.Split.{Free, split-Cut}
use bare_metal_os_kernel.Paths.{
  to_abs_path, is_blank, parent_dir, ends_with_slash, vfs_max_depth, tmpfs_max_path_len,
}
use bare_metal_os_kernel.Paths.Resolve.{resolve, written, trailing}
use bare_metal_os_kernel.Paths.Absolute.{to_abs_path-resolved}

-- The directory `n` of the root, as a working directory.
abbrev pub directory_of : (n : List ℕ) → List ℕ
directory_of n = b'/' ∷ n ++ b'/' ∷ []

ends_with_slash-append : (cs : List ℕ) → ends_with_slash (cs ++ b'/' ∷ []) ≡ true
ends_with_slash-append [] = refl
ends_with_slash-append (c ∷ []) = refl
ends_with_slash-append (c ∷ d ∷ cs) = ends_with_slash-append (d ∷ cs)

split-up :
    (n : List ℕ)
    → Free b'/' n
    → split b'/' (directory_of n ++ parent_dir) ≡ [] ∷ n ∷ parent_dir ∷ []
unfolding split
split-up n free =
    ap (λ l. [] ∷ split b'/' l) (append_assoc n (b'/' ∷ []) parent_dir)
    ∙ ap (λ l. [] ∷ l) (split-Cut b'/' n parent_dir free)

-- In the directory "/n/", `to_abs_path` of ".." returns 0 and the empty path, not "/".
pub to_abs_path_parent :
    (abs_path n : List ℕ)
    → Free b'/' n
    → is_blank n ≡ false
    → same_name n parent_dir ≡ false
    → length n + 4 < tmpfs_max_path_len
    → to_abs_path abs_path (directory_of n) parent_dir ≡ ok (pos 0, [])
to_abs_path_parent abs_path n free plain other short =
    let parts = split-up n free in
    let (leads, _) =
      to_abs_path-resolved abs_path (directory_of n) parent_dir refl refl
        (ends_with_slash-append (b'/' ∷ n))
        (omega
          (arith, length-append (n ++ b'/' ∷ []) parent_dir, length-append n (b'/' ∷ []), short))
        (subst (λ l. length l < vfs_max_depth) (sym parts) (omega arith)) in
    leads (subst (λ l. trailing l ≡ false) (sym parts) refl)
    ∙ ap (λ l. ok (pos 0, written (resolve [] l) [])) parts
    ∙ rw (plain, other) (rw other refl)
