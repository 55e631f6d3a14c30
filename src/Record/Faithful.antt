-- ===== src/Record/Faithful.antt =====
-- What the file that worker/record.py writes is good for: agent/mock.py accepts it, and its replay repeats
-- the run.
use cloudagentperform.Base.{
  ◌≡◌, ◌≢◌, refl, sym, ◌∙◌, subst, inl, inr, Bool, true, false, ℕ, ◌||◌, eq_refl, String, Option,
  none, some, List, [], if◌then◌else◌,
}
use cloudagentperform.Models.{
  Json, Status, queued, running, succeeded, failed, cancelled, is_succeeded, r_model,
}
use cloudagentperform.Agent.{Try, done, raised, ChatReply, Message}
use cloudagentperform.Agent.Llm.{new_provider, Posted, preflight}
use cloudagentperform.Agent.Llm.Body.{Parse, parsed, raises, untyped}
use cloudagentperform.Agent.Loop.{Outcome, Ended, returned, stopped, escaped, Agent, run_agent}
use cloudagentperform.Agent.Loop.Counts.{Ensures, Verdict}
use cloudagentperform.Agent.Loop.Soundness.{run_agent-Sound}
use cloudagentperform.Agent.Replay.{Step}
use cloudagentperform.Agent.Recording.{recording, replaying}
use cloudagentperform.Agent.Recording.Simulation.{Echo, SameEnd}
use cloudagentperform.Agent.Recording.Echoes.{Repeatable, run_agent-Same}
use cloudagentperform.Sandbox.{Docker, Member, start, destroy}
use cloudagentperform.Sandbox.Removal.{Removes}
use cloudagentperform.Sandbox.Interrupt.{Rest}
use cloudagentperform.Start.{Config, hashed_text, open_mock}
use cloudagentperform.Record.{
  Trajectory, to_trajectory, wrote, quits, concluded, sandbox, agent_run, with_sandbox,
  after_preflight, main,
}

succeeded_of : (s : Status) → is_succeeded s ≡ true → s ≡ succeeded
succeeded_of succeeded h = refl
succeeded_of queued h = cc h
succeeded_of running h = cc h
succeeded_of failed h = cc h
succeeded_of cancelled h = cc h

-- An answer in words has no reason.
Verdict-reason : (o : Outcome) → Verdict o → is_succeeded o.status ≡ true → o.reason ≢ some r_model
Verdict-reason o (inl v) h e = cc
Verdict-reason o (inr v) h e =
    let no : is_succeeded failed ≡ true = subst (λ s. is_succeeded s ≡ true) v.0 h in cc no

returned_inj :
    {o o' : Outcome} → ◌≡◌ {A = Option Ended} (some (returned o)) (some (returned o')) → o ≡ o'
returned_inj h = cc h

success-Repeatable :
    {E : Type 0} (n : ℕ) (P : Agent E → Type 0) (o : Outcome) (p : Option Ended × Agent E)
    → Ensures n P p
    → p.0 ≡ some (returned o)
    → is_succeeded o.status ≡ true
    → Repeatable p.0
success-Repeatable n P o (none, a) s e h = tt
success-Repeatable n P o (some (returned o'), a) s e h =
    Verdict-reason o' s.verdict
      (subst (λ (x : Outcome). is_succeeded x.status ≡ true) (sym (returned_inj e)) h)
success-Repeatable n P o (some (stopped why), a) s e h = tt
success-Repeatable n P o (some (escaped x), a) s e h = cc e

returned_twice :
    (o : Outcome) (y : Option Ended)
    → SameEnd (some (returned o)) y
    → (o' : Outcome) × (y ≡ some (returned o')) × Echo o o'
returned_twice o none h = absurd h
returned_twice o (some (returned o')) h = (o', refl, h)
returned_twice o (some (stopped why)) h = absurd h
returned_twice o (some (escaped x)) h = absurd h

returned_as :
    (o : Outcome) (x y : Option Ended)
    → x ≡ some (returned o)
    → SameEnd x y
    → (o' : Outcome) × (y ≡ some (returned o')) × Echo o o'
returned_as o x y e h = returned_twice o y (subst (λ z. SameEnd z y) e h)

unless_quits :
    (b : Bool) (why : String) {out path : String} {t t' : Trajectory}
    → (if b then wrote out t else quits why) ≡ wrote path t'
    → (b ≡ true) × ((path ≡ out) × (t' ≡ t))
unless_quits true why h = (refl, (cc, cc))
unless_quits false why h = cc

concluded-wrote :
    (out : String) (t : Trajectory) (x : Option Ended) {path : String} {t' : Trajectory}
    → concluded out t x ≡ wrote path t'
    → (o : Outcome) × (x ≡ some (returned o))
      × (is_succeeded o.status ≡ true)
      × (path ≡ out)
      × (t' ≡ t)
concluded-wrote out t none h = cc
concluded-wrote out t (some (returned o)) h =
    let (s, (p, e)) = unless_quits (is_succeeded o.status) _ h in (o, refl, s, p, e)
concluded-wrote out t (some (stopped why)) h = cc
concluded-wrote out t (some (escaped x)) h = cc

if-or {ℓ} : {A : Type ℓ} (b : Bool) (x y : A) → (if b || true then x else y) ≡ x
if-or true x y = refl
if-or false x y = refl

-- The hash in the file is that of the fixture.
open_mock-to_trajectory :
    (sha256 : String → String) (today : String) (files : List (String × String)) (steps : List Step)
    (model base_url : String)
    → open_mock sha256 (to_trajectory sha256 today files steps model base_url).recorded_from files
      ≡ done tt
unfolding open_mock
open_mock-to_trajectory sha256 today files steps model base_url =
    rw (eq_refl (sha256 (hashed_text files))) (if-or _ _ _)

module _ (k : Docker) (rest : Rest k.D) {M : Type 0} (inner : List Message → M → ChatReply × M)
    (cfg : Config) (prompt : String) where
  -- The replay of the steps, over a sandbox in the state `begun`, comes to the same success as the run
  -- that they were recorded in.
  pub record Replayed (id : String) (begun : k.D) (m : M) (steps : List Step) : Type 0 where
    pub first : Outcome
    pub second : Outcome
    pub first_end : (agent_run k rest inner cfg prompt id m begun).0 ≡ some (returned first)
    pub second_end :
        (run_agent
          (replaying steps (sandbox k rest id))
          cfg.tool_timeout
          prompt
          cfg.max_steps
          (0, begun)).0
        ≡ some (returned second)
    pub success : first.status ≡ succeeded
    pub same : Echo first second

  agent_run-Replayed :
      (id : String) (begun : k.D) (m : M) (o : Outcome)
      → (agent_run k rest inner cfg prompt id m begun).0 ≡ some (returned o)
      → is_succeeded o.status ≡ true
      → Replayed id begun m (agent_run k rest inner cfg prompt id m begun).1.env.0.0
  agent_run-Replayed id begun m o e h =
      let v = sandbox k rest id in
      let good =
        success-Repeatable cfg.max_steps (λ a. ⊥) o (agent_run k rest inner cfg prompt id m begun)
          (run_agent-Sound (recording inner v) cfg.tool_timeout prompt cfg.max_steps
            (([], m), begun))
          e h in
      let same = run_agent-Same v cfg.tool_timeout inner prompt cfg.max_steps m begun good in
      let (o', e', echo) = returned_as o _ _ e same.0 in
      record {
        first = o;
        second = o';
        first_end = e;
        second_end = e';
        success = succeeded_of o.status h;
        same = echo;
      }

  module _ (sha256 : String → String) (today : String) (files : List (String × String))
      (archive : List Member) (out : String) where
    -- The written file is for its path, is accepted for the fixture, and its replay repeats the run.
    pub record Faithful (d : k.D) (m : M) (path : String) (t : Trajectory) : Type 0 where
      pub at : path ≡ out
      pub accepted : open_mock sha256 t.recorded_from files ≡ done tt
      pub id : String
      pub begun : k.D
      pub started : start k cfg.sandbox_image "record" 1 (some archive) d ≡ (done id, begun)
      pub replayed : Replayed id begun m t.steps

    with_sandbox-Faithful :
        (d : k.D) (m : M) (p : Try String × k.D) {path : String} {t : Trajectory}
        → start k cfg.sandbox_image "record" 1 (some archive) d ≡ p
        → (with_sandbox k rest inner cfg prompt sha256 today files archive out m p).0 ≡ wrote path t
        → Faithful d m path t
    with_sandbox-Faithful d m (done id, begun) {path} {t} s h =
        let run = agent_run k rest inner cfg prompt id m begun in
        let (o, e, good, at, same) = concluded-wrote out _ run.0 h in
        subst (Faithful d m path) (sym same) (record {
          at = at;
          accepted =
              open_mock-to_trajectory sha256 today files run.1.env.0.0 cfg.llm_model
                cfg.llm_base_url;
          id = id;
          begun = begun;
          started = s;
          replayed = agent_run-Replayed id begun m o e good;
        })
    with_sandbox-Faithful d m (raised x, begun) s h = cc h

    after_preflight-Faithful :
        (d : k.D) (m : M) (r : Parse (List Json)) {path : String} {t : Trajectory}
        → (after_preflight k rest inner cfg prompt sha256 today files archive out m d r).0
          ≡ wrote path t
        → Faithful d m path t
    after_preflight-Faithful d m (parsed names) h = with_sandbox-Faithful d m _ refl h
    after_preflight-Faithful d m (raises x) h = cc h
    after_preflight-Faithful d m untyped h = cc h

    -- A file that worker/record.py writes is at the path asked for; agent/mock.py accepts it for the same
    -- fixture; and an agent that replays it over a sandbox in the state that the recording began with
    -- succeeds with the same summary, usage and, but for the ids of the tool calls, transcript.
    pub main-Faithful :
        (answer : Posted) (m : M) (d : k.D) {path : String} {t : Trajectory}
        → (main k rest inner cfg prompt sha256 today files archive out answer m d).0 ≡ wrote path t
        → Faithful d m path t
    unfolding main
    main-Faithful answer m d h = after_preflight-Faithful d m _ h

  -- Whichever way the run ends, the container that was started for it is gone at the end.
  pub main_destroys :
      (l : Removes k) (sha256 : String → String) (today : String) (files : List (String × String))
      (archive : List Member) (out : String) (answer : Posted) (m : M) (d begun : k.D) (id : String)
      {names : List Json}
      → preflight (new_provider cfg.llm_base_url cfg.llm_model 3) answer ≡ parsed names
      → start k cfg.sandbox_image "record" 1 (some archive) d ≡ (done id, begun)
      → l.alive id (main k rest inner cfg prompt sha256 today files archive out answer m d).1
        ≡ false
  unfolding main destroy
  main_destroys l sha256 today files archive out answer m d begun id p s =
      rw (p, s)
        (let run = agent_run k rest inner cfg prompt id m begun in
          l.effect id run.1.env.1 id ∙ rw (eq_refl id) refl)
