-- ===== src/Cmd/CommandLine/ExitCodes.antt =====
-- When the two programs of cmd/ exit with 0.
use cdc_trigger.Prelude.{
  ℕ, zero, suc, String, ◌≡◌, ◌⊎◌, ap, ◌↔◌, refl, sym, ◌∙◌, inl, inr, Option, none, some, List,
  arith, get_elem?,
}
use cdc_trigger.Errors.{GoError, Result, ok, err, Result-cases}
use cdc_trigger.Store.{new_store}
use cdc_trigger.Source.Lifecycle.{MySqlSource, new_source, with_store}
use cdc_trigger.Queue.Producer.{IProducer, new_producer}
use cdc_trigger.Config.{Config, load}
use cdc_trigger.Cmd.Setup.{Component, setup_components, created, close_setup_components}
use cdc_trigger.Cmd.Listen.{Pipeline, start, Reach}
use cdc_trigger.Cmd.Listen.Outcome.{returned-source_result}
use cdc_trigger.Cmd.CommandLine.{
  Context, background, Input, Action, App, flag_config, before, World, setup, Listened, listen,
  listen_action, listen_app, actions, exit_code, dispatch,
}

pub exit_code-zero : (e : Option GoError) → (exit_code e ≡ 0) ↔ (e ≡ none)
unfolding exit_code
exit_code-zero none = (λ h. refl, λ h. refl)
exit_code-zero (some e) = (λ h. cc, λ h. cc)

-- Every command line of `cdc-trigger` selects the same action.
listen_app-actions :
    (load_file : String → Result Config) (listens : Config → Option GoError) (n : ℕ)
    (action : Action)
    → get_elem? (actions (listen_app load_file listens)) n ≡ some action
    → action ≡ listen_action listens
unfolding listen_app
listen_app-actions load_file listens zero action h = cc
listen_app-actions load_file listens (suc zero) action h = cc
listen_app-actions load_file listens (suc (suc n)) action h = cc

-- The rest of `dispatch` after the hook.
abbrev pub after_before : Action → Input → Context × Option GoError → Option GoError
after_before action given (ctx, none) = action ctx given
after_before action given (ctx, some e) = some e

before-ok :
    (load_file : String → Result Config) (ctx : Context) (root : Input) (cfg : Config)
    → load_file (root.string flag_config) ≡ ok cfg
    → before load_file ctx root ≡ (record ctx { config = some cfg }, none)
unfolding before load
before-ok load_file ctx root cfg h = ground (arith, h)

before-err :
    (load_file : String → Result Config) (ctx : Context) (root : Input) (e : GoError)
    → load_file (root.string flag_config) ≡ err e
    → ¬ ((before load_file ctx root).1 ≡ none)
unfolding before load
before-err load_file ctx root e h = λ n. absurd (ground (arith, h, n))

pub after_before-none :
    (action : Action) (given : Input) (b : Context × Option GoError)
    → after_before action given b ≡ none
    → b.1 ≡ none
after_before-none action given (ctx, none) h = refl
after_before-none action given (ctx, some e) h = h

pub dispatch-after_before :
    (app : App) (action : Action) (root given : Input)
    → dispatch app action root given ≡ after_before action given (app.before background root)
dispatch-after_before app action root given = go (app.before background root)
  where
    go :
        (b : Context × Option GoError)
        → (elim b.1 [ some e ↦ some e | none ↦ action b.0 given ]) ≡ after_before action given b
    go (ctx, none) = refl
    go (ctx, some e) = refl

dispatch-listen :
    (load_file : String → Result Config) (listens : Config → Option GoError) (root given : Input)
    → (dispatch (listen_app load_file listens) (listen_action listens) root given ≡ none)
      ↔ ((cfg : Config) × (load_file (root.string flag_config) ≡ ok cfg) × (listens cfg ≡ none))
unfolding listen_app listen_action
dispatch-listen load_file listens root given =
    let action = listen_action listens in
    let whole = dispatch-after_before (listen_app load_file listens) action root given in
    elim (Result-cases (load_file (root.string flag_config))) [
      | inl (e, bad) ↦ (
        λ h. absurd (
            before-err load_file background root e bad
              (after_before-none action given (before load_file background root) (sym whole ∙ h))),
        λ (cfg, good, done). absurd (ground (arith, bad, good)),
      )
      | inr (cfg, good) ↦
          let run =
            whole ∙ ap (after_before action given) (before-ok load_file background root cfg good) in
          (
            λ h. (cfg, good, sym run ∙ h),
            λ (c, same, done).
                let e : c ≡ cfg = ground (arith, same, good) in run ∙ ap listens (sym e) ∙ done,
          )
    ]

-- Three constructors that report no error.
abbrev pub AllMade : {A B C : Type 0} → Result A → Result B → Result C → Type 0
AllMade {A} {B} {C} a b c = ((x : A) × (a ≡ ok x)) × ((y : B) × (b ≡ ok y)) × ((z : C) × (c ≡ ok z))

setup_components-AllMade :
    {A B C : Type 0} (link : A → B → B) (a : Result A) (b : Result B) (c : Result C)
    → ((e : GoError) × ((setup_components link a b c).result ≡ err e)
        × ((setup_components link a b c).closed ≡ created link a b c)
        × (¬ AllMade a b c))
      ⊎ (((r : A × B × C) × ((setup_components link a b c).result ≡ ok r)) × AllMade a b c)
unfolding setup_components
setup_components-AllMade link (err e) b c = inl (_, refl, refl, λ m. absurd (ground (arith, m.0.1)))
setup_components-AllMade link (ok x) (err e) c =
    inl (_, refl, refl, λ m. absurd (ground (arith, m.1.1)))
setup_components-AllMade link (ok x) (ok y) (err e) =
    inl (_, refl, refl, λ m. absurd (ground (arith, m.2.1)))
setup_components-AllMade link (ok x) (ok y) (ok z) =
    inr ((_, refl), ((x, refl), (y, refl), (z, refl)))

module _ {A : Type 0} (w : World A) where
  -- What `SetupComponents` created before its first failure, the last one first.
  abbrev pub made : Config → List Component
  made cfg =
      created (λ (store : A) (s : MySqlSource). with_store s)
        (new_store (w.new_file_store cfg) (w.new_redis_store cfg) cfg.store)
        (new_source cfg.source cfg.mysql (w.new_canal cfg))
        (new_producer (w.producers cfg) cfg.producer)

  -- The types of the configuration are known, and their constructors report no error.
  abbrev pub Buildable : Config → Type 0
  Buildable cfg =
      AllMade (new_store (w.new_file_store cfg) (w.new_redis_store cfg) cfg.store)
        (new_source cfg.source cfg.mysql (w.new_canal cfg))
        (new_producer (w.producers cfg) cfg.producer)

  listen-err :
      (finished : Option GoError) (cfg : Config) (e : GoError)
      → (setup w cfg).result ≡ err e
      → listen w finished cfg ≡ record { result = some e; closed = (setup w cfg).closed }
  unfolding listen
  listen-err finished cfg e h = rw (h, listen)

  listen-ok :
      (finished : Option GoError) (cfg : Config) (c : A × MySqlSource × IProducer)
      → (setup w cfg).result ≡ ok c
      → listen w finished cfg ≡ record { result = finished; closed = close_setup_components }
  unfolding listen
  listen-ok finished cfg c h = rw (h, listen)

  -- `Listen` closes all that was created.
  listen-cases :
      (finished : Option GoError) (cfg : Config)
      → ((e : GoError) × (listen w finished cfg ≡ record { result = some e; closed = made cfg })
          × (¬ Buildable cfg))
        ⊎ ((listen w finished cfg ≡ record { result = finished; closed = close_setup_components })
            × Buildable cfg)
  unfolding setup
  listen-cases finished cfg =
      let link = λ (store : A) (s : MySqlSource). with_store s in
      elim (setup_components-AllMade link
        (new_store (w.new_file_store cfg) (w.new_redis_store cfg) cfg.store)
        (new_source cfg.source cfg.mysql (w.new_canal cfg))
        (new_producer (w.producers cfg) cfg.producer)) [
          | inl (e, failed, closes, not_all) ↦ inl (
            e,
            listen-err finished cfg e failed
                ∙ ap (λ (l : List Component). record { result = some e; closed = l }) closes,
            not_all,
          )
          | inr ((c, built), all) ↦ inr (listen-ok finished cfg c built, all)
        ]

  listen-none :
      (finished : Option GoError) (cfg : Config)
      → ((listen w finished cfg).result ≡ none) ↔ (Buildable cfg × (finished ≡ none))
  listen-none finished cfg = elim (listen-cases finished cfg) [
    | inl (e, failed, not_all) ↦
        (λ h. absurd (ground (arith, failed, h)), λ (built, fine). absurd (not_all built))
    | inr (ran, built) ↦
        let same = ap (λ (x : Listened). x.result) ran in
        (λ h. (built, sym same ∙ h), λ (b, fine). same ∙ fine)
  ]

-- Where the command line library runs `Before` on the root's input and then the action of the command
-- line in the context that `Before` gave, and the goroutines of `Listen` come to return: whichever
-- of its actions the command line selects, `cdc-trigger` exits with 0 exactly when the file of the
-- flag `config` loads, the types of its components are known and their constructors report no error,
-- and the source reported none.
pub listen_app_exits :
    {A : Type 0} (w : World A) (load_file : String → Result Config) (l : Pipeline)
    (finished : Option GoError) (runs : List String → Option GoError) (args : List String) (n : ℕ)
    (action : Action) (root given : Input)
    → let app = listen_app load_file (λ cfg. (listen w finished cfg).result) in
      get_elem? (actions app) n ≡ some action
      → runs args ≡ dispatch app action root given
      → Reach start l
      → l.returned ≡ some finished
      → (exit_code (runs args) ≡ 0) ↔ (
          (cfg : Config) × (load_file (root.string flag_config) ≡ ok cfg)
          × Buildable w cfg
          × (l.source_result ≡ some none))
listen_app_exits w load_file l finished runs args n action root given chosen ran reached ended =
    let listens = λ (cfg : Config). (listen w finished cfg).result in
    let same = listen_app-actions load_file listens n action chosen in
    let all = dispatch-listen load_file listens root given in
    let reported = returned-source_result l finished reached ended in
    let run : runs args
        ≡ dispatch (listen_app load_file listens) (listen_action listens) root given =
      ran ∙ ap (λ a. dispatch (listen_app load_file listens) a root given) same in
    (
      λ h.
          let (cfg, good, done) = all.0 (sym run ∙ (exit_code-zero (runs args)).0 h) in
          let (built, fine) = (listen-none w finished cfg).0 done in
          (cfg, good, built, reported ∙ ap some fine),
      λ (cfg, good, built, quiet).
          let fine : finished ≡ none = ground (arith, reported, quiet) in
          (exit_code-zero (runs args)).1
            (run ∙ all.1 (cfg, good, (listen-none w finished cfg).1 (built, fine))),
    )
