-- ===== src/Kernel/Log/Levels.antt =====
-- Which levels of kernel/log.rs are printed after `init`.
use theos.Base.{
  ℕ, ◌≤◌, ◌≡◌, refl, sym, subst, ap, ◌∙◌, Bool, true, false, ◌||◌, Option, none, some, leb, leb→le,
  le→leb, arith, ◌⊎◌, inl, inr,
}
use theos.Kernel.Cmdline.{KernelParams}
use theos.Kernel.Log.{
  Level, error, warn, info, debug, trace, as_u8, Log, init, enabled, from_linux_console_level,
  chosen_level, at_least_7,
}

-- A level that is not `trace` is enabled up to the console's level.
enabled_console :
    (self : Log) (x : Level) → as_u8 x ≤ 4 → enabled self x ≡ leb (as_u8 x) self.console_level
unfolding enabled
enabled_console self error h = refl
enabled_console self warn h = refl
enabled_console self info h = refl
enabled_console self debug h = refl
enabled_console self trace h = absurd (omega (arith, h))

level_cases : (x : Level) → (x ≡ trace) ⊎ (as_u8 x ≤ 4)
level_cases error = inr (omega arith)
level_cases warn = inr (omega arith)
level_cases info = inr (omega arith)
level_cases debug = inr (omega arith)
level_cases trace = inl refl

-- A log level of 7 opens the console to `debug`.
verbose_level :
    (loglevel : Option ℕ) (quiet debug_on : Bool)
    → at_least_7 loglevel ≡ true
    → chosen_level loglevel quiet debug_on ≡ debug
unfolding from_linux_console_level
verbose_level none quiet debug_on h = cc
verbose_level (some n) quiet debug_on h = ground (arith, h, leb→le 7 n h)

trace-on :
    (self : Log) (params : KernelParams)
    → params.debug ≡ false
    → enabled (init self params) trace ≡ true
    → (init self params).console_level ≡ 4
unfolding enabled init
trace-on self params off on = ap as_u8 (
    verbose_level params.loglevel params.quiet params.debug
      (subst (λ b. (b || at_least_7 params.loglevel) ≡ true) off on))

-- The console's level is at least `x` when `x` is printed and the flag `debug` is off.
reached :
    (self : Log) (params : KernelParams) (x : Level)
    → params.debug ≡ false
    → enabled (init self params) x ≡ true
    → (x ≡ trace) × ((init self params).console_level ≡ 4)
      ⊎ (as_u8 x ≤ (init self params).console_level) × (as_u8 x ≤ 4)
reached self params x off on = elim (level_cases x) [
  | inl same ↦
      inl
        (same, trace-on self params off (subst (λ z. enabled (init self params) z ≡ true) same on))
  | inr low ↦ inr (leb→le (as_u8 x) _ (sym (enabled_console (init self params) x low) ∙ on), low)
]

-- After `init` with the flag `debug` off, a level that is printed has every more severe level printed.
pub enabled_nested :
    (self : Log) (params : KernelParams) (x y : Level)
    → params.debug ≡ false
    → as_u8 y ≤ as_u8 x
    → enabled (init self params) x ≡ true
    → enabled (init self params) y ≡ true
enabled_nested self params x y off h on = elim (level_cases y) [
  | inl last ↦ elim (reached self params x off on) [
    | inl (same, top) ↦ subst (λ z. enabled (init self params) z ≡ true) (same ∙ sym last) on
    | inr (low, small) ↦ absurd (omega (arith, small, h, ap as_u8 last))
  ]
  | inr below ↦
      enabled_console (init self params) y below
      ∙ le→leb (as_u8 y) _ (elim (reached self params x off on) [
        | inl (same, top) ↦ omega (arith, below, top)
        | inr (low, small) ↦ omega (arith, low, h)
      ])
]

-- With the flags `debug` and `quiet` and no log level, the trace is printed and what is above it is not.
trace_without_info :
    (self : Log) (params : KernelParams)
    → params.debug ≡ true
    → params.quiet ≡ true
    → params.loglevel ≡ none
    → (enabled (init self params) trace ≡ true) × (enabled (init self params) info ≡ false)
unfolding enabled init
trace_without_info self params d q l = rw (d, q, l) (refl, refl)
