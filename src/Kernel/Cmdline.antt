-- ===== src/Kernel/Cmdline.antt =====
-- The kernel's options, `kernel/cmdline.rs`. A text is the list of its bytes.
use theos.Base.{
  ℕ, ◌+◌, ◌-◌, ◌*◌, min, List, [], ◌∷◌, Bool, true, false, ◌||◌, ◌&&◌, Option, none, some,
}
use theos.Base.{leb, ltb, ◌==◌, if◌then◌else◌}
use theos.Base.Text.{Bytes, codes, is_empty}

pub record KernelParams : Type 0 where
  pub raw : Bytes
  pub init : Option Bytes
  pub root : Option Bytes
  pub rootfstype : Option Bytes
  pub debug : Bool
  pub quiet : Bool
  pub loglevel : Option ℕ

pub data RootDevice : Type 0 where
  virtio_blk0 : RootDevice

pub data RootFsType : Type 0 where
  crabfs : RootFsType

unfoldable pub same_bytes : Bytes → Bytes → Bool
same_bytes [] [] = true
same_bytes [] (c ∷ cs) = false
same_bytes (b ∷ bs) [] = false
same_bytes (b ∷ bs) (c ∷ cs) = (b == c) && same_bytes bs cs

-- Space, tab, line feed, form feed and carriage return.
abbrev pub is_ascii_whitespace : ℕ → Bool
is_ascii_whitespace b = b == 32 || (b == 9 || (b == 10 || (b == 12 || b == 13)))

abbrev pub cons_token : ℕ → List Bytes → List Bytes
cons_token b [] = (b ∷ []) ∷ []
cons_token b (t ∷ ts) = (b ∷ t) ∷ ts

-- The pieces between white space, of which some are empty.
unfoldable pub pieces : Bytes → List Bytes
pieces [] = [] ∷ []
pieces (b ∷ bs) = if is_ascii_whitespace b then [] ∷ pieces bs else cons_token b (pieces bs)

unfoldable pub not_empty : List Bytes → List Bytes
not_empty [] = []
not_empty (t ∷ ts) = if is_empty t then not_empty ts else t ∷ not_empty ts

abbrev pub split_ascii_whitespace : Bytes → List Bytes
split_ascii_whitespace bytes = not_empty (pieces bytes)

abbrev pub cons_key : ℕ → Option (Bytes × Bytes) → Option (Bytes × Bytes)
cons_key b none = none
cons_key b (some (key, value)) = some (b ∷ key, value)

-- What stands before the first '=' and behind it.
unfoldable pub split_once : Bytes → Option (Bytes × Bytes)
split_once [] = none
split_once (b ∷ bs) = if b == 61 then some ([], bs) else cons_key b (split_once bs)

-- The digits of a number of 8 bits behind those that gave `n`.
unfoldable pub digits_u8 : ℕ → Bytes → Option ℕ
digits_u8 n [] = some n
digits_u8 n (b ∷ bs) =
    let m = n * 10 + (b - 48) in
    let rest = digits_u8 m bs in if (leb 48 b && leb b 57) && ltb m 256 then rest else none

abbrev pub digits_or_none : Bytes → Option ℕ
digits_or_none [] = none
digits_or_none (b ∷ bs) = digits_u8 0 (b ∷ bs)

-- `str::parse::<u8>`, which passes over one '+' before the digits.
abbrev pub parse_u8 : Bytes → Option ℕ
parse_u8 [] = none
parse_u8 (b ∷ bs) = if b == 43 then digits_or_none bs else digits_u8 0 (b ∷ bs)

abbrev pub with_loglevel : KernelParams → Option ℕ → KernelParams
with_loglevel params none = params
with_loglevel params (some level) = record params { loglevel = some (min level 7) }

abbrev pub apply_option : KernelParams → Bytes → Bytes → KernelParams
apply_option params key value =
    if same_bytes key (codes "init")
    then record params { init = some value }
    else (if same_bytes key (codes "root")
        then record params { root = some value }
        else (if same_bytes key (codes "rootfstype")
            then record params { rootfstype = some value }
            else (if same_bytes key (codes "loglevel")
                then with_loglevel params (parse_u8 value)
                else params)))

abbrev pub apply_flag : KernelParams → Bytes → KernelParams
apply_flag params token =
    if same_bytes token (codes "debug")
    then record params { debug = true }
    else (if same_bytes token (codes "quiet") then record params { quiet = true } else params)

abbrev pub apply_split : KernelParams → Bytes → Option (Bytes × Bytes) → KernelParams
apply_split params token none = apply_flag params token
apply_split params token (some (key, value)) = apply_option params key value

-- One turn of the loop over the tokens.
unfoldable pub apply_token : KernelParams → Bytes → KernelParams
apply_token params token = apply_split params token (split_once token)

unfoldable pub apply_tokens : KernelParams → List Bytes → KernelParams
apply_tokens params [] = params
apply_tokens params (token ∷ tokens) = apply_tokens (apply_token params token) tokens

-- `KernelParams::default()` with its `raw`.
abbrev pub default_params : Bytes → KernelParams
default_params raw = record {
  raw = raw;
  init = none;
  root = none;
  rootfstype = none;
  debug = false;
  quiet = false;
  loglevel = none;
}

-- `parse_kernel_params` behind its first line, for any line of options.
unfoldable pub parse_options : Bytes → KernelParams
parse_options raw = apply_tokens (default_params raw) (split_ascii_whitespace raw)

-- The line of options is the empty text.
unfoldable pub parse_kernel_params : KernelParams
parse_kernel_params = parse_options []

-- The statics hold what `parse_kernel_params` gives.
abbrev pub params : KernelParams
params = parse_kernel_params

abbrev pub unwrap_or : Option Bytes → Bytes → Bytes
unwrap_or none other = other
unwrap_or (some bytes) other = bytes

-- The three below read the statics; here the options are an argument.
unfoldable pub resolved_init_path : KernelParams → Bytes
resolved_init_path params = unwrap_or params.init (codes "\\SystemRoot\\System32\\init.exe")

abbrev pub root_device : Option Bytes → Option RootDevice
root_device none = some virtio_blk0
root_device (some name) =
    if same_bytes name (codes "/dev/vda")
      || (same_bytes name (codes "virtio-blk0") || same_bytes name (codes "virtio0"))
    then some virtio_blk0
    else none

unfoldable pub resolved_root_device : KernelParams → Option RootDevice
resolved_root_device params = root_device params.root

abbrev pub root_fstype : Option Bytes → Option RootFsType
root_fstype none = some crabfs
root_fstype (some name) = if same_bytes name (codes "crabfs") then some crabfs else none

unfoldable pub resolved_root_fstype : KernelParams → Option RootFsType
resolved_root_fstype params = root_fstype params.rootfstype
