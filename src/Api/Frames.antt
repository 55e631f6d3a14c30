-- ===== src/Api/Frames.antt =====
-- api/main.py: the text of the event stream, `_sse_frame` and `_event_json`, and the id from which a
-- client goes on.
use Prim.Native.String.{◌++◌}
use cloudagentperform.Base.{ℕ, String, List, [], ◌∷◌}
use cloudagentperform.Models.{Event, Json, num, str, obj, members, member, no_members}
use cloudagentperform.Agent.Text.{decimal}
use cloudagentperform.Api.Stream.{Frame, frame, keepalive}

-- `_event_json`
abbrev pub event_json : Event → Json
event_json ev = obj (
    member "id" (num ev.id) (
      member "task_id" (str ev.task_id) (
        member "attempt" (num ev.attempt) (
          member "type" (str ev.type)
            (member "ts" (str ev.ts) (member "payload" (obj (members ev.payload)) no_members))))))

-- `_sse_frame`. `dumps` is `json.dumps`.
unfoldable pub sse_frame : (Json → String) → ℕ → String → Json → String
sse_frame dumps id type value =
    "id: " ++ (decimal id ++ ("\nevent: " ++ (type ++ ("\ndata: " ++ (dumps value ++ "\n\n")))))

abbrev pub frame_text : (Json → String) → Frame → String
frame_text dumps (frame ev) = sse_frame dumps ev.id ev.type (event_json ev)
frame_text dumps keepalive = ": keepalive\n\n"

-- The body of the response.
abbrev pub body_text : (Json → String) → List Frame → String
body_text dumps [] = ""
body_text dumps (f ∷ fs) = frame_text dumps f ++ body_text dumps fs
