-- ===== src/Register/Honest.antt =====
-- A registration that does not come to its transaction says so in its output.
use deespec.Base.{◌≡◌, refl, String, false, some, none, List, Result, ok, err, ◌>>=◌, arith}
use deespec.Register.Config.{ResolvedConfig}
use deespec.Register.Validation.{RegisterSpec, SpecWarning, validate_spec}
use deespec.Register.Input.{RegisterSbiInput}
use deespec.Register.Execute.{
  Failure, RegisterSbiOutput, Setting, failed, or_failed, checked_spec, plan, prepare,
}

abbrev pub SaysSo : {A : Type 0} → Result RegisterSbiOutput A → Type 0
SaysSo (err output) = output.succeeded ≡ false
SaysSo (ok a) = Unit

-- A failed call gives an output that says so.
pub record IsHonest {A : Type 0} (call : Result RegisterSbiOutput A) : Type 0 where
  pub says_so : SaysSo call

module _ {A B : Type 0} where
  >>=-SaysSo :
      (call : Result RegisterSbiOutput A) (rest : A → Result RegisterSbiOutput B)
      → SaysSo call
      → ((a : A) → IsHonest (rest a))
      → SaysSo (call >>= rest)
  >>=-SaysSo (err output) rest h k = h
  >>=-SaysSo (ok a) rest h k = (k a).says_so

  >>=-IsHonest :
      (call : Result RegisterSbiOutput A) (rest : A → Result RegisterSbiOutput B)
      → IsHonest call
      → ((a : A) → IsHonest (rest a))
      → IsHonest (call >>= rest)
  >>=-IsHonest call rest h k = record { says_so = >>=-SaysSo call rest h.says_so k }

pub ok-injective :
    {A : Type 0} (a b : A) → ◌≡◌ {A = Result RegisterSbiOutput A} (ok a) (ok b) → a ≡ b
ok-injective a b e = cc

ok-IsHonest : {A : Type 0} (a : A) → IsHonest (ok a)
ok-IsHonest a = record { says_so = tt }

module _ {E A : Type 0} (id : String) (failure : E → Failure) where
  or_failed-SaysSo : (r : Result E A) → SaysSo (or_failed id failure r)
  unfolding failed
  or_failed-SaysSo (err e) = refl
  or_failed-SaysSo (ok a) = tt

  or_failed-IsHonest : (r : Result E A) → IsHonest (or_failed id failure r)
  or_failed-IsHonest r = record { says_so = or_failed-SaysSo r }

  pub or_failed-eq-ok : (r : Result E A) {a : A} → or_failed id failure r ≡ ok a → r ≡ ok a
  or_failed-eq-ok (err e) h = cc
  or_failed-eq-ok (ok a) h = cc

module _ (setting : Setting) where
  checked_spec-SaysSo : (spec : RegisterSpec) → SaysSo (checked_spec setting spec)
  unfolding checked_spec failed
  checked_spec-SaysSo spec =
      elim (validate_spec setting.service spec).failure
        as (λ found. SaysSo {A = List SpecWarning} (elim found [
          | some failure ↦ err (failed spec.id (Failure.spec_failed failure))
          | none ↦ ok (validate_spec setting.service spec).warnings
        ])) [ none ↦ tt | some failure ↦ refl ]

  pub checked_spec_passed :
      (spec : RegisterSpec) (warnings : List SpecWarning)
      → checked_spec setting spec ≡ ok warnings
      → (validate_spec setting.service spec).failure ≡ none
  unfolding checked_spec
  checked_spec_passed spec warnings h = ground arith

  checked_spec-IsHonest : (spec : RegisterSpec) → IsHonest (checked_spec setting spec)
  checked_spec-IsHonest spec = record { says_so = checked_spec-SaysSo spec }

  plan-IsHonest :
      (spec : RegisterSpec) (config : ResolvedConfig) → IsHonest (plan setting spec config)
  unfolding plan
  plan-IsHonest spec config =
      search (>>=-IsHonest, or_failed-IsHonest, ok-IsHonest, checked_spec-IsHonest)

  pub prepare-IsHonest : (input : RegisterSbiInput) → IsHonest (prepare setting input)
  unfolding prepare
  prepare-IsHonest input = search (>>=-IsHonest, or_failed-IsHonest, plan-IsHonest)
