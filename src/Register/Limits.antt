-- ===== src/Register/Limits.antt =====
-- The limits of a resolved configuration, and the two functions that resolve it.
use deespec.Base.{
  ℕ, ◌≡◌, sym, subst, ◌≤◌, ◌*◌, String, Bool, false, Option, some, none, ok, ◌>>=◌, if◌then◌else◌,
  arith,
}
use deespec.Base.Int.{ℤ, pos, ltb_ℤ, pos_part}
use deespec.Register.Policy.{RegisterPolicy, exceeds, validate_policy}
use deespec.Register.Config.{
  ResolvedConfig, default_config, limit_or, text_or, apply_policy, set_collision_mode,
  set_stderr_level, resolve_config,
}

abbrev pub Within : ℕ → ℕ → Type 0
Within cap limit = (1 ≤ limit) × (limit ≤ cap)

pub record IsBounded (c : ResolvedConfig) : Type 0 where
  pub id : Within 256 c.id_max_len
  pub title : Within 1024 c.title_max_len
  pub labels : Within 128 c.label_max_count
  pub input : Within (1024 * 1024) c.input_max_bytes
  pub path : Within 512 c.path_max_bytes
  pub suffix : Within 1000 c.collision_suffix_limit
  pub slug : 1 ≤ c.slug_max_runes

-- What validate_policy accepts.
abbrev pub IsSafe : (String → Bool) → Option RegisterPolicy → Type 0
IsSafe compiles none = Unit
IsSafe compiles (some p) = validate_policy compiles p ≡ ok tt

record NoneExceeds (p : RegisterPolicy) : Type 0 where
  id : exceeds (pos 256) p.id.max_len ≡ false
  title : exceeds (pos 1024) p.title.max_len ≡ false
  labels : exceeds (pos 128) p.labels.max_count ≡ false
  input : exceeds (pos 1024) p.max_kb ≡ false
  path : exceeds (pos 512) p.path.max_bytes ≡ false
  suffix : exceeds (pos 1000) p.collision.suffix_limit ≡ false

validate_policy-NoneExceeds :
    (compiles : String → Bool) (p : RegisterPolicy)
    → validate_policy compiles p ≡ ok tt
    → NoneExceeds p
unfolding validate_policy
validate_policy-NoneExceeds compiles p h = ground arith

limit_or-Within :
    (cap limit : ℕ) (value : ℤ)
    → exceeds (pos cap) value ≡ false
    → Within cap limit
    → Within cap (limit_or value limit)
unfolding exceeds limit_or
limit_or-Within cap limit value h w = ground arith

input-Within :
    (limit : ℕ) (value : ℤ)
    → exceeds (pos 1024) value ≡ false
    → Within (1024 * 1024) limit
    → Within (1024 * 1024) (if ltb_ℤ (pos 0) value then pos_part value * 1024 else limit)
unfolding exceeds
input-Within limit value h w = ground arith

slug_limit-pos : (limit : ℕ) (value : ℤ) → 1 ≤ limit → 1 ≤ limit_or value limit
unfolding limit_or
slug_limit-pos limit value h = ground arith

default-IsBounded : IsBounded default_config
unfolding default_config
default-IsBounded = omega arith

apply_policy-IsBounded :
    (p : RegisterPolicy) (c : ResolvedConfig)
    → NoneExceeds p
    → IsBounded c
    → IsBounded (apply_policy p c)
unfolding apply_policy
apply_policy-IsBounded p c n b = record {
  id = limit_or-Within 256 c.id_max_len p.id.max_len n.id b.id;
  title = limit_or-Within 1024 c.title_max_len p.title.max_len n.title b.title;
  labels = limit_or-Within 128 c.label_max_count p.labels.max_count n.labels b.labels;
  input = input-Within c.input_max_bytes p.max_kb n.input b.input;
  path = limit_or-Within 512 c.path_max_bytes p.path.max_bytes n.path b.path;
  suffix = limit_or-Within 1000 c.collision_suffix_limit p.collision.suffix_limit n.suffix b.suffix;
  slug = slug_limit-pos c.slug_max_runes p.slug.max_runes b.slug;
}

-- The two flags change their own field at most, and only to a value that they know.
record FlagsSet (mode level : String) (c c' : ResolvedConfig) : Type 0 where
  same : c' ≡ record c { collision_mode = c'.collision_mode; stderr_level = c'.stderr_level }
  mode_set : c'.collision_mode ≡ text_or mode c.collision_mode
  level_set : c'.stderr_level ≡ text_or level c.stderr_level

set_flags :
    (mode level : String) (c c' : ResolvedConfig)
    → (set_collision_mode mode c >>= set_stderr_level level) ≡ ok c'
    → FlagsSet mode level c c'
unfolding set_collision_mode set_stderr_level text_or
set_flags mode level c c' h = ground arith

flags-IsBounded :
    (c : ResolvedConfig) (mode level : String)
    → IsBounded c
    → IsBounded (record c { collision_mode = mode; stderr_level = level })
flags-IsBounded c mode level b = record {
  id = b.id;
  title = b.title;
  labels = b.labels;
  input = b.input;
  path = b.path;
  suffix = b.suffix;
  slug = b.slug;
}

FlagsSet-IsBounded :
    (mode level : String) (c c' : ResolvedConfig)
    → FlagsSet mode level c c'
    → IsBounded c
    → IsBounded c'
FlagsSet-IsBounded mode level c c' f b =
    subst IsBounded (sym f.same) (flags-IsBounded c c'.collision_mode c'.stderr_level b)

-- The mode that the policy asks for, of whatever text.
abbrev pub policy_mode : Option RegisterPolicy → String
policy_mode none = "error"
policy_mode (some p) = text_or p.collision.default_mode "error"

-- A configuration that is resolved without a policy, or from a policy that was validated, has every
-- limit positive and within the limits that the validation calls safe (the slug's length has no upper
-- limit). Its collision mode is the flag's, or if that is empty the policy's, which nothing checks, or
-- else "error".
pub resolve_config-IsBounded :
    (compiles : String → Bool) (mode level : String) (policy : Option RegisterPolicy)
    (config : ResolvedConfig)
    → IsSafe compiles policy
    → resolve_config mode level policy ≡ ok config
    → IsBounded config × (config.collision_mode ≡ text_or mode (policy_mode policy))
unfolding resolve_config
resolve_config-IsBounded compiles mode level none config safe h =
    let set = set_flags mode level default_config config h in
    (
      FlagsSet-IsBounded mode level default_config config set default-IsBounded,
      unfold default_config in set.mode_set,
    )
resolve_config-IsBounded compiles mode level (some p) config safe h =
    let set = set_flags mode level (apply_policy p default_config) config h in
    (
      FlagsSet-IsBounded mode level (apply_policy p default_config) config set (
          apply_policy-IsBounded p default_config (validate_policy-NoneExceeds compiles p safe)
            default-IsBounded),
      unfold apply_policy default_config in set.mode_set,
    )
