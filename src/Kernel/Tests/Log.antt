-- ===== src/Kernel/Tests/Log.antt =====
-- The log's levels after a line of options.
use theos.Base.{◌≡◌, refl, true, some, []}
use theos.Base.Text.{codes}
use theos.Kernel.Cmdline.{
  KernelParams, parse_options, parse_kernel_params, resolved_root_device, virtio_blk0, apply_token,
  apply_tokens, split_once, pieces, not_empty, same_bytes, digits_u8, default_params,
}

abbrev options : KernelParams
options = parse_options (codes "quiet  loglevel=+6 root=/dev/vda loglevel=256")

-- The last level does not fit 8 bits, so that the one before it stays.
options_lem : options ≡ record (default_params options.raw) {
  root = some (codes "/dev/vda");
  quiet = true;
  loglevel = some 6;
}
unfolding parse_options apply_tokens apply_token split_once pieces not_empty same_bytes digits_u8
options_lem = refl

no_options : parse_kernel_params ≡ default_params []
unfolding parse_kernel_params parse_options apply_tokens pieces not_empty
no_options = refl

root_lem : resolved_root_device options ≡ some virtio_blk0
unfolding resolved_root_device parse_options apply_tokens apply_token split_once pieces not_empty
    same_bytes digits_u8
root_lem = refl
