-- ===== src/Register/Resolvers.antt =====
-- The two functions that resolve a configuration agree.
use deespec.Base.{
  ◌≡◌, refl, String, Bool, true, false, Option, some, none, Result, ok, err, ◌>>=◌, if◌then◌else◌,
  not, ◌&&◌, str_eq,
}
use deespec.Register.Policy.{RegisterPolicy}
use deespec.Register.Config.{
  ResolvedConfig, ConfigError, default_config, default_cli_config, apply_policy, apply_cli_policy,
  compiled_or, set_collision_mode, set_stderr_level, resolve_config, resolve_cli_config,
}

-- What the function adds to the configuration of the method: four fields, from the policy's patterns
-- that compile and from two of its flags, or the defaults of the flags where there is no policy.
abbrev pub with_checks : (String → Bool) → Option RegisterPolicy → ResolvedConfig → ResolvedConfig
with_checks compiles none config = record config {
  title_deny_empty = true;
  labels_warn_on_duplicates = true;
}
with_checks compiles (some p) config = record config {
  id_pattern =
      if not (str_eq p.id.pattern "") && compiles p.id.pattern then some p.id.pattern else none;
  title_deny_empty = p.title.deny_empty;
  labels_pattern =
      if not (str_eq p.labels.pattern "") && compiles p.labels.pattern
      then some p.labels.pattern
      else none;
  labels_warn_on_duplicates = p.labels.warn_on_duplicates;
}

module _ (f : ResolvedConfig → ResolvedConfig) where
  choose-ok :
      (c d : ResolvedConfig) (failure : ConfigError) (keep fail : Bool)
      → (if keep then ok (f c) else if fail then err failure else ok (f d))
        ≡ ((if keep then ok c else if fail then err failure else ok d) >>= λ x. ok (f x))
  choose-ok c d failure true fail = refl
  choose-ok c d failure false true = refl
  choose-ok c d failure false false = refl

  after-ok :
      (g : ResolvedConfig → Result ConfigError ResolvedConfig)
      → ((x : ResolvedConfig) → g (f x) ≡ (g x >>= λ y. ok (f y)))
      → (r : Result ConfigError ResolvedConfig)
      → (r >>= (λ x. ok (f x)) >>= g) ≡ (r >>= g >>= λ y. ok (f y))
  after-ok g h (err failure) = refl
  after-ok g h (ok x) = h x

-- The flags leave alone what the function adds.
module _ (compiles : String → Bool) (c : ResolvedConfig) where
  set_collision_mode-with_checks :
      (policy : Option RegisterPolicy) (mode : String)
      → set_collision_mode mode (with_checks compiles policy c)
        ≡ (set_collision_mode mode c >>= λ config. ok (with_checks compiles policy config))
  unfolding set_collision_mode
  set_collision_mode-with_checks none mode =
      choose-ok (with_checks compiles none) c (record c { collision_mode = mode }) _ _ _
  set_collision_mode-with_checks (some p) mode =
      choose-ok (with_checks compiles (some p)) c (record c { collision_mode = mode }) _ _ _

  set_stderr_level-with_checks :
      (policy : Option RegisterPolicy) (level : String)
      → set_stderr_level level (with_checks compiles policy c)
        ≡ (set_stderr_level level c >>= λ config. ok (with_checks compiles policy config))
  unfolding set_stderr_level
  set_stderr_level-with_checks none level =
      choose-ok (with_checks compiles none) c (record c { stderr_level = level }) _ _ _
  set_stderr_level-with_checks (some p) level =
      choose-ok (with_checks compiles (some p)) c (record c { stderr_level = level }) _ _ _

flags-with_checks :
    (compiles : String → Bool) (mode level : String) (policy : Option RegisterPolicy)
    (c : ResolvedConfig)
    → (set_collision_mode mode (with_checks compiles policy c) >>= set_stderr_level level) ≡ (
        set_collision_mode mode c >>= set_stderr_level level >>= λ config.
        ok (with_checks compiles policy config))
flags-with_checks compiles mode level policy c =
    rw (set_collision_mode-with_checks compiles c policy mode) (
      after-ok (with_checks compiles policy) (set_stderr_level level)
        (λ x. set_stderr_level-with_checks compiles x policy level) (set_collision_mode mode c))

-- The function ResolveConfig for the command line and the method resolveConfig of the use case fail
-- with the same error or resolve the same configuration, but for four fields that only the function
-- sets: the two patterns, each that of the policy where it is not empty and compiles, the check of an
-- empty title and the warning on duplicate labels.
pub resolve_cli_config-resolve_config :
    (compiles : String → Bool) (mode level : String) (policy : Option RegisterPolicy)
    → resolve_cli_config compiles mode level policy
      ≡ (resolve_config mode level policy >>= λ config. ok (with_checks compiles policy config))
unfolding resolve_cli_config resolve_config default_cli_config default_config apply_policy
    apply_cli_policy compiled_or
resolve_cli_config-resolve_config compiles mode level none =
    flags-with_checks compiles mode level none default_config
resolve_cli_config-resolve_config compiles mode level (some p) =
    flags-with_checks compiles mode level (some p) (apply_policy p default_config)
