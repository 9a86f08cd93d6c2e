-- ===== src/Register/Outcome.antt =====
-- What a registration does: when it reaches the transaction, and with what.
use deespec.Base.{
  ℕ, ◌≡◌, refl, sym, subst, ap, ◌∙◌, ◌⊎◌, inl, inr, String, true, false, Option, some, none, List,
  ok, err, >>=-eq-ok, Result-cases,
}
use deespec.Register.Config.{ResolvedConfig, resolve_config}
use deespec.Register.Policy.{RegisterPolicy}
use deespec.Register.Runes.{Runes}
use deespec.Register.Validation.{RegisterSpec, SpecWarning, validate_spec}
use deespec.Register.Paths.{CollisionWarning, build_spec_path, resolve_collision}
use deespec.Register.Collisions.{Resolves, resolve_collision-Resolves}
use deespec.Register.Built.{IsBuilt, build_spec_path-IsBuilt}
use deespec.Register.Input.{RegisterSbiInput, read_input, decode_spec}
use deespec.Register.Execute.{
  Failure, RegisterSbiOutput, JournalEntry, Plan, Setting, failed, or_failed, build_journal_entry,
  checked_spec, planned, plan, prepare, committed, execute_registration, load_policy,
}
use deespec.Register.Turns.{TurnsOf, get_next_turn_number-TurnsOf}
use deespec.Register.Honest.{
  SaysSo, or_failed-eq-ok, ok-injective, checked_spec_passed, prepare-IsHonest,
}

-- A plan stands on a specification that passed the checks, a path that was built for it, and a
-- resolution of collisions that gave its path; its turn is above those of the journal.
pub record IsReady (setting : Setting) (config : ResolvedConfig) (p : Plan) : Type 0 where
  pub valid : (validate_spec setting.service p.spec).failure ≡ none
  pub path : Runes
  pub built : IsBuilt setting.files setting.rules config p.spec.id p.spec.title path
  pub warning : Option CollisionWarning
  pub resolved : Resolves setting.files.stat path config (ok (p.output.spec_path, warning))
  pub succeeds : p.output.succeeded ≡ true
  pub same_path : p.entry.spec_path ≡ p.output.spec_path
  pub same_turn : p.entry.turn ≡ p.output.turn
  pub later : TurnsOf p.output.turn setting.journal

-- A plan is prepared from the policy, the configuration, the input and the specification, each of
-- which succeeded.
pub record IsPrepared (setting : Setting) (input : RegisterSbiInput) (p : Plan) : Type 0 where
  pub policy : Option RegisterPolicy
  pub loads : load_policy setting.compiles setting.policy_file ≡ ok policy
  pub config : ResolvedConfig
  pub resolves : resolve_config input.on_collision input.stderr_level policy ≡ ok config
  pub bytes : List ℕ
  pub final : ResolvedConfig
  pub reads : read_input setting.test_mode setting.reading input config ≡ ok (bytes, final)
  pub decodes : decode_spec setting.decoders bytes input.file_path ≡ ok p.spec
  pub ready : IsReady setting final p

module _ (setting : Setting) where
  planned-IsReady :
      (spec : RegisterSpec) (config : ResolvedConfig) (warnings : List SpecWarning) (path : Runes)
      (found : Runes × Option CollisionWarning)
      → checked_spec setting spec ≡ ok warnings
      → build_spec_path setting.files setting.rules config spec.id spec.title ≡ ok path
      → resolve_collision setting.files.stat path config ≡ ok found
      → IsReady setting config (planned setting spec config warnings found)
  unfolding planned build_journal_entry
  planned-IsReady spec config warnings path (final, warning) checks builds resolves = record {
    valid = checked_spec_passed setting spec warnings checks;
    path = path;
    built =
        build_spec_path-IsBuilt setting.files setting.rules config spec.id spec.title path builds;
    warning = warning;
    resolved =
        subst (Resolves setting.files.stat path config) resolves
          (resolve_collision-Resolves setting.files.stat path config);
    succeeds = refl;
    same_path = refl;
    same_turn = refl;
    later = get_next_turn_number-TurnsOf setting.journal;
  }

  planned_spec :
      (spec : RegisterSpec) (config : ResolvedConfig) (warnings : List SpecWarning)
      (found : Runes × Option CollisionWarning)
      → (planned setting spec config warnings found).spec ≡ spec
  unfolding planned
  planned_spec spec config warnings (path, warning) = refl

  plan-IsReady :
      (spec : RegisterSpec) (config : ResolvedConfig) (p : Plan)
      → plan setting spec config ≡ ok p
      → IsReady setting config p × (p.spec ≡ spec)
  unfolding plan
  plan-IsReady spec config p h =
      let built = build_spec_path setting.files setting.rules config spec.id spec.title in
      let (warnings, checks, h₁) = >>=-eq-ok (checked_spec setting spec) _ h in
      let (path, builds, h₂) = >>=-eq-ok (or_failed spec.id Failure.path_failed built) _ h₁ in
      let resolved = resolve_collision setting.files.stat path config in
      let (found, resolves, h₃) =
        >>=-eq-ok (or_failed spec.id Failure.collision_failed resolved) _ h₂ in
      let same : planned setting spec config warnings found ≡ p =
        ok-injective (planned setting spec config warnings found) p h₃ in
      (
        subst (IsReady setting config) same (
            planned-IsReady spec config warnings path found checks
              (or_failed-eq-ok spec.id Failure.path_failed built builds)
              (or_failed-eq-ok spec.id Failure.collision_failed resolved resolves)),
        ap (λ (q : Plan). q.spec) (sym same) ∙ planned_spec spec config warnings found,
      )

  prepare-IsPrepared :
      (input : RegisterSbiInput) (p : Plan)
      → prepare setting input ≡ ok p
      → IsPrepared setting input p
  unfolding prepare
  prepare-IsPrepared input p h =
      let loaded = load_policy setting.compiles setting.policy_file in
      let (policy, loads, h₁) = >>=-eq-ok (or_failed "" Failure.policy_failed loaded) _ h in
      let resolved = resolve_config input.on_collision input.stderr_level policy in
      let (config, resolves, h₂) = >>=-eq-ok (or_failed "" Failure.config_failed resolved) _ h₁ in
      let read = read_input setting.test_mode setting.reading input config in
      let ((bytes, final), reads, h₃) = >>=-eq-ok (or_failed "" Failure.input_failed read) _ h₂ in
      let decoded = decode_spec setting.decoders bytes input.file_path in
      let (spec, decodes, h₄) = >>=-eq-ok (or_failed "" Failure.decode_failed decoded) _ h₃ in
      let (ready, same) = plan-IsReady spec final p h₄ in
      record {
        policy = policy;
        loads = or_failed-eq-ok "" Failure.policy_failed loaded loads;
        config = config;
        resolves = or_failed-eq-ok "" Failure.config_failed resolved resolves;
        bytes = bytes;
        final = final;
        reads = or_failed-eq-ok "" Failure.input_failed read reads;
        decodes = or_failed-eq-ok "" Failure.decode_failed decoded decodes ∙ ap ok (sym same);
        ready = ready;
      }

-- The answer of the transaction decides: the planned output, or a failure without a path.
abbrev pub Answers : {W : Type 0} → Plan → Option String × W → RegisterSbiOutput × W → Type 0
Answers p (none, w) result = result ≡ (p.output, w)
Answers p (some failure, w) result =
    (result.1 ≡ w)
    × (result.0.succeeded ≡ false)
    × (result.0.failure ≡ some (Failure.transaction_failed failure))

module _ (setting : Setting) {W : Type 0}
    (transaction : RegisterSpec → Runes → JournalEntry → W → Option String × W) where
  committed-Answers :
      (p : Plan) (answer : Option String × W)
      → Answers p answer (committed setting transaction p answer)
  unfolding committed failed
  committed-Answers p (none, w) = refl
  committed-Answers p (some failure, w) = (refl, refl, refl)

  -- A registration either fails and changes nothing, or it runs the transaction once, with a plan
  -- whose policy, configuration, input and specification were read and valid and whose path was built
  -- and resolved, and its output is what the transaction answers.
  pub execute_registration_outcome :
      (input : RegisterSbiInput) (w : W)
      → (((execute_registration setting transaction input w).1 ≡ w)
          × ((execute_registration setting transaction input w).0.succeeded ≡ false))
        ⊎ ((p : Plan) × IsPrepared setting input p
            × Answers p
                (transaction p.spec p.output.spec_path p.entry w)
                (execute_registration setting transaction input w))
  unfolding execute_registration
  execute_registration_outcome input w = elim (Result-cases (prepare setting input)) [
    | inr (output, e) ↦
        let honest : SaysSo {A = Plan} (err output) =
          subst SaysSo e (prepare-IsHonest setting input).says_so in
        inl (rw (e, execute_registration) (refl, honest))
    | inl (p, e) ↦
        let answer = transaction p.spec p.output.spec_path p.entry w in
        let same : execute_registration setting transaction input w
            ≡ committed setting transaction p answer =
          simp (e, execute_registration) in
        inr (
          p,
          prepare-IsPrepared setting input p e,
          subst (Answers p answer) (sym same) (committed-Answers p answer),
        )
  ]
