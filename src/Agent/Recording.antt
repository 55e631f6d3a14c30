-- ===== src/Agent/Recording.antt =====
-- A whole run of agent/loop.py under the two providers: under `RecordingLLM` of worker/record.py, which
-- asks a model and keeps a step of each reply, and under `MockProvider` of agent/mock.py, which replays
-- the steps. The sandbox, the stop flag and the model are parameters.
pub mod Lifted
pub mod Simulation
pub mod Turns
pub mod Growth
pub mod Echoes
use cloudagentperform.Base.{ℕ, List}
use cloudagentperform.Agent.{Env, ChatReply, Message}
use cloudagentperform.Agent.Replay.{Step, record_chat, replay_chat}

-- A value beside the state of the model.
abbrev pub lift {ℓ} : {A E M : Type ℓ} → M → A × E → A × (M × E)
lift m p = (p.0, (m, p.1))

-- The sandbox and the stop flag of `v`, with a provider that has a state of its own.
module _ (v : Env) {M : Type 0} (chat : List Message → M → ChatReply × M) where
  abbrev pub with_model : Env
  with_model = record {
    E = M × v.E;
    chat = λ ms s. ((chat ms s.0).0, ((chat ms s.0).1, s.1));
    should_stop = λ s. lift s.0 (v.should_stop s.1);
    exec = λ command timeout s. lift s.0 (v.exec command timeout s.1);
    read_file = λ path max s. lift s.0 (v.read_file path max s.1);
    write_file = λ path content s. lift s.0 (v.write_file path content s.1);
    str_of = v.str_of;
  }

-- `RecordingLLM.chat` over the inner provider: the steps kept so far and the inner one's state.
module _ {M : Type 0} (inner : List Message → M → ChatReply × M) where
  unfoldable pub recording_chat : List Message → List Step × M → ChatReply × (List Step × M)
  unfolding record_chat
  recording_chat ms s =
      let r = inner ms s.1 in let kept = record_chat r.0 s.0 in (kept.0, (kept.1, r.1))

  abbrev pub recording : Env → Env
  recording v = with_model v recording_chat

-- The replay of the steps, with its cursor.
abbrev pub replaying : List Step → Env → Env
replaying steps v = with_model v (λ ms i. replay_chat steps i)
