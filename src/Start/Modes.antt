-- ===== src/Start/Modes.antt =====
-- Which provider a worker starts with (worker/main.py).
use cloudagentperform.Base.{
  String, Bool, true, false, not, ◌&&◌, ◌||◌, ◌≡◌, refl, ap, List, any, ◌==◌, if◌then◌else◌, eq_iff,
  ℕ, map, leb, ltb, subst, ◌⊎◌, inl, inr, Bool-cases, arith,
}
use cloudagentperform.Models.{Json, Task, is_running}
use cloudagentperform.Store.Table.{Store}
use cloudagentperform.Store.{tasks_with_status}
use cloudagentperform.Agent.{Exc, Try, done, raised}
use cloudagentperform.Agent.Llm.{
  Provider, new_provider, Posted, transport_error, response, preflight, offered, is_named,
  models_in,
}
use cloudagentperform.Agent.Llm.Body.{Parse, parsed, raises, untyped}
use cloudagentperform.Sandbox.{Docker, gc}
use cloudagentperform.Start.{
  Config, RecordedFrom, or_text, hashed_text, open_mock, Factory, mock, real, Started, ready, exits,
  crashes, checked, make_llm_factory, provided, built, cleaned, cleans, start,
}

-- The endpoint offers the provider's model.
pub record Offers (p : Provider) (answer : Posted) : Type 0 where
  pub names : List Json
  pub served : preflight p answer ≡ parsed names
  pub offered : any (is_named p.model) names ≡ true

-- The provider is the one that the configuration asks for.
abbrev pub Chosen : Config → Posted → Factory → Type 0
Chosen cfg answer (mock path dir) =
    (cfg.llm_mode ≡ "mock") × ((path ≡ cfg.trajectory_path) × (dir ≡ cfg.fixture_dir))
Chosen cfg answer (real p) =
    (cfg.llm_mode ≡ "real")
    × ((p ≡ new_provider cfg.llm_base_url cfg.llm_model 3) × Offers p answer)

parsed_inj : {l m : List Json} → ◌≡◌ {A = Parse (List Json)} (parsed l) (parsed m) → l ≡ m
parsed_inj h = cc h

ready_inj : {f g : Factory} → ready f ≡ ready g → f ≡ g
ready_inj h = cc h

-- A test that raises unless it holds.
unless_raised :
    (b : Bool) (r : Parse (List Json)) (e : Exc) {names : List Json}
    → (if b then r else raises e) ≡ parsed names
    → (b ≡ true) × (r ≡ parsed names)
unless_raised true r e h = (refl, h)
unless_raised false r e h = cc h

offered-parsed :
    (p : Provider) (r : Parse (List Json)) {names : List Json}
    → offered p r ≡ parsed names
    → any (is_named p.model) names ≡ true
offered-parsed p (parsed names) h =
    let (there, same) = unless_raised (any (is_named p.model) names) (parsed names) _ h in
    subst (λ l. any (is_named p.model) l ≡ true) (parsed_inj same) there
offered-parsed p (raises e) h = cc h
offered-parsed p untyped h = cc h

preflight-offered :
    (p : Provider) (answer : Posted) {names : List Json}
    → preflight p answer ≡ parsed names
    → any (is_named p.model) names ≡ true
unfolding preflight
preflight-offered p (transport_error why) h = cc h
preflight-offered p (response status text body) h =
    offered-parsed p (models_in body) (unless_raised (leb 200 status && ltb status 300) _ _ h).1

checked-Chosen :
    (cfg : Config) (p : Provider) (answer : Posted) (r : Parse (List Json)) {f : Factory}
    → cfg.llm_mode ≡ "real"
    → p ≡ new_provider cfg.llm_base_url cfg.llm_model 3
    → preflight p answer ≡ r
    → checked p r ≡ ready f
    → Chosen cfg answer f
checked-Chosen cfg p answer (parsed names) m e served h =
    subst (Chosen cfg answer) (ready_inj h) (
      m,
      (e, record { names = names; served = served; offered = preflight-offered p answer served }),
    )
checked-Chosen cfg p answer (raises x) m e served h = cc h
checked-Chosen cfg p answer untyped m e served h = cc h

mode-Chosen :
    (cfg : Config) (answer : Posted) (a b : Bool) (why : String) {f : Factory}
    → (cfg.llm_mode == "mock") ≡ a
    → (cfg.llm_mode == "real") ≡ b
    → (if not (a || b)
        then exits why
        else if a
        then ready (mock cfg.trajectory_path cfg.fixture_dir)
        else checked
            (new_provider cfg.llm_base_url cfg.llm_model 3)
            (preflight (new_provider cfg.llm_base_url cfg.llm_model 3) answer))
      ≡ ready f
    → Chosen cfg answer f
mode-Chosen cfg answer true b why m r h =
    subst (Chosen cfg answer) (ready_inj h) ((eq_iff cfg.llm_mode "mock").0 m, (refl, refl))
mode-Chosen cfg answer false true why m r h =
    checked-Chosen cfg (new_provider cfg.llm_base_url cfg.llm_model 3) answer _
      ((eq_iff cfg.llm_mode "real").0 r) refl refl h
mode-Chosen cfg answer false false why m r h = cc h

make_llm_factory-Chosen :
    (cfg : Config) (answer : Posted) {f : Factory}
    → make_llm_factory cfg answer ≡ ready f
    → Chosen cfg answer f
unfolding make_llm_factory
make_llm_factory-Chosen cfg answer h =
    mode-Chosen cfg answer (cfg.llm_mode == "mock") (cfg.llm_mode == "real") _ refl refl h

module _ (sha256 : String → String) (files : List (String × String))
    (recording : Try RecordedFrom) where
  -- A recording that is to be replayed was read, and was made from these files or is not pinned to any.
  abbrev pub IsOpen : Factory → Type 0
  IsOpen (real p) = Unit
  IsOpen (mock path dir) =
      (source : RecordedFrom) × (recording ≡ done source)
      × ((or_text source.fixture_sha256 "UNPINNED" ≡ "UNPINNED")
          ⊎ (sha256 (hashed_text files) ≡ or_text source.fixture_sha256 "UNPINNED"))

  accepted : (a b c d : String) → (a == b || c == d) ≡ true → (a ≡ b) ⊎ (c ≡ d)
  accepted a b c d h = elim (Bool-cases (a == b)) [
    | inl e ↦ inl ((eq_iff a b).0 e)
    | inr e ↦ inr ((eq_iff c d).0 (ground (arith, h, e)))
  ]

  open_mock-accepted :
      (source : RecordedFrom)
      → open_mock sha256 source files ≡ done tt
      → (or_text source.fixture_sha256 "UNPINNED" ≡ "UNPINNED")
        ⊎ (sha256 (hashed_text files) ≡ or_text source.fixture_sha256 "UNPINNED")
  unfolding open_mock
  open_mock-accepted source h =
      let pinned = or_text source.fixture_sha256 "UNPINNED" in
      let actual = sha256 (hashed_text files) in
      elim (Bool-cases (pinned == "UNPINNED" || actual == pinned)) [
        | inl e ↦ accepted pinned "UNPINNED" actual pinned e
        | inr e ↦ cc (rw e at h)
      ]

  provided-ready :
      (g : Factory) (r : Try (Unit {0})) {f : Factory}
      → provided g r ≡ ready f
      → (g ≡ f) × (r ≡ done tt)
  provided-ready g (done tt) h = (ready_inj h, refl)
  provided-ready g (raised e) h = cc h

  built-ready :
      (g : Factory) (reading : Try RecordedFrom) {f : Factory}
      → recording ≡ reading
      → built sha256 files reading g ≡ ready f
      → (g ≡ f) × IsOpen f
  unfolding built
  built-ready (real p) reading e h = (ready_inj h, subst IsOpen (ready_inj h) tt)
  built-ready (mock path dir) (raised x) e h = cc h
  built-ready (mock path dir) (done source) e h =
      let (same, fine) = provided-ready (mock path dir) _ h in
      (same, subst IsOpen same (source, e, open_mock-accepted source fine))

  module _ (k : Docker) (s : Store) (d : k.D) where
    cleaned-ready :
        (g : Factory) (r : Try ℕ × k.D) {f : Factory}
        → (cleaned k sha256 files recording g r).0 ≡ ready f
        → (g ≡ f) × IsOpen f
    unfolding cleaned
    cleaned-ready g (done removed, d') h = built-ready g recording refl h
    cleaned-ready g (raised e, d') h = cc h

    cleans-ready :
        (r : Started) {f : Factory}
        → (cleans k sha256 files recording s d r).0 ≡ ready f
        → (r ≡ ready f) × IsOpen f
    unfolding cleans
    cleans-ready (ready g) h =
        let (same, fine) =
          cleaned-ready g (gc k (map (λ (t : Task). t.id) (tasks_with_status is_running s)) d) h in
        (ap ready same, fine)
    cleans-ready (exits why) h = cc h
    cleans-ready (crashes e) h = cc h

    backend :
        (b : Bool) (why : String) (r : Started × k.D) {f : Factory}
        → (if not b then (exits why, d) else r).0 ≡ ready f
        → (b ≡ true) × (r.0 ≡ ready f)
    backend true why r h = (refl, h)
    backend false why r h = cc h

    -- A worker that starts has the docker backend and the provider that its mode names: in the mode `mock`
    -- the recording, which could be read and was made from the fixture's files or is not pinned to any, and
    -- in the mode `real` an endpoint that offers the model. Nothing else is used instead.
    pub start-Chosen :
        (cfg : Config) (answer : Posted) {f : Factory}
        → (start k sha256 files recording cfg answer s d).0 ≡ ready f
        → (cfg.sandbox_backend ≡ "docker") × Chosen cfg answer f × IsOpen f
    unfolding start
    start-Chosen cfg answer h =
        let (docker, rest) = backend (cfg.sandbox_backend == "docker") _ _ h in
        let (chosen, fine) = cleans-ready (make_llm_factory cfg answer) rest in
        (
          (eq_iff cfg.sandbox_backend "docker").0 docker,
          make_llm_factory-Chosen cfg answer chosen,
          fine,
        )
