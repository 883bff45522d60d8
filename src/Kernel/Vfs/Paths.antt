-- ===== src/Kernel/Vfs/Paths.antt =====
-- `normalize_path` and `split_first_component` of kernel/vfs.rs. The two tests that the source
-- writes as loops over bytes, `str_eq_lit` and `str_starts_with_lit`, are recursions.
use theos.Base.{[], ◌∷◌, ◌++◌, drop, Bool, true, false, ◌||◌, ◌==◌, if◌then◌else◌}
use theos.Base.Text.{Bytes, codes, slash, starts_with_slash, trim_slashes}

unfoldable pub str_eq_lit : Bytes → Bytes → Bool
str_eq_lit [] [] = true
str_eq_lit [] (c ∷ cs) = false
str_eq_lit (b ∷ bs) [] = false
str_eq_lit (b ∷ bs) (c ∷ cs) = if b == c then str_eq_lit bs cs else false

unfoldable pub str_starts_with_lit : Bytes → Bytes → Bool
str_starts_with_lit bs [] = true
str_starts_with_lit [] (c ∷ cs) = false
str_starts_with_lit (b ∷ bs) (c ∷ cs) = if b == c then str_starts_with_lit bs cs else false

abbrev pub names_dir : Bytes → Bytes → Bool
names_dir abs dir = str_eq_lit abs dir || str_starts_with_lit abs (dir ++ slash ∷ [])

abbrev pub absolute : Bytes → Bytes
absolute path = if starts_with_slash path then path else slash ∷ path

abbrev pub merged : Bytes → Bytes
merged abs =
    if names_dir abs (codes "/lib")
    then codes "/usr/lib" ++ drop 4 abs
    else (if names_dir abs (codes "/bin")
        then codes "/usr/bin" ++ drop 4 abs
        else (if names_dir abs (codes "/sbin") then codes "/usr/bin" ++ drop 5 abs else abs))

abbrev pub resolve_soname : Bytes → Bytes
resolve_soname path =
    if str_eq_lit path (codes "/usr/lib/libtinfotw.so.6")
    then codes "/usr/lib/libtinfotw.so.6.5"
    else path

unfoldable pub normalize_path : Bytes → Bytes
normalize_path path = resolve_soname (merged (absolute path))

-- The bytes up to the first '/', and those behind it.
unfoldable pub cut : Bytes → Bytes × Bytes
cut [] = ([], [])
cut (b ∷ bs) = let (part, rest) = cut bs in if b == slash then ([], bs) else (b ∷ part, rest)

unfoldable pub split_first_component : Bytes → Bytes × Bytes
split_first_component path = let (part, rest) = cut (trim_slashes path) in (part, trim_slashes rest)
