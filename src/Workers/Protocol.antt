-- ===== src/Workers/Protocol.antt =====
-- workers/protocol.py: the messages with their guards, and the frames that carry them. A frame is a
-- list of bytes. Floats are numbers of a unit. Payloads and environments are values that the guards do
-- not look into; the sandbox fields of WorkerSpec, which it does not check either, are left out.
use comfy_ui_ng.Prelude.{
  ℕ, zero, suc, ◌+◌, ◌-◌, ◌*◌, ◌/◌, ◌%◌, ◌^◌, Bool, true, false, not, ◌&&◌, ◌||◌, List, [], ◌∷◌,
  ◌++◌, Option, none, some, Result, ok, err, ◌>>=◌, ◌>>◌, raise_if, ltb, leb, ◌==◌, any, length,
  String, Text, text_eq, ◌≟◌, codes, if◌then◌else◌, is_some,
}
use comfy_ui_ng.Json.{Value, encodes}
use comfy_ui_ng.Jobs.Record.{is_untrimmed}
pub mod Frames
mod Tests

abbrev pub max_frame_bytes : ℕ
max_frame_bytes = 1024 * 1024

pub data WorkerKind : Type 0 where
  gpu_model gpu_aux cpu_compute cpu_light io download metadata plugin encoder vae video : WorkerKind

pub data WorkerCommandKind : Type 0 where
  execute cancel ping unload shutdown : WorkerCommandKind

pub data WorkerEventKind : Type 0 where
  started ready heartbeat result error cancelled unloaded stopping stopped : WorkerEventKind

-- `_validate_identifier`
pub identifier : Text → Result String (Unit {0})
identifier s = do
  raise_if (is_untrimmed s || ltb 160 (length s)) "must be a non-empty trimmed identifier"
  raise_if (not (encodes s)) "must contain valid Unicode"

pub record WorkerSpec : Type 0 where
  pub worker_id : Text
  pub kind : WorkerKind
  pub entrypoint : Option Text
  pub start_method : Text
  pub heartbeat_interval : ℕ
  pub heartbeat_timeout : ℕ
  pub startup_timeout : ℕ
  pub shutdown_timeout : ℕ
  pub cancellation_grace : ℕ
  pub restart_limit : ℕ
  pub restart_window : ℕ
  pub environment_keys : List Text

-- 58 is `":"`.
check_entrypoint : Option Text → Result String (Unit {0})
unfolding identifier
check_entrypoint none = ok tt
check_entrypoint (some s) = do
  identifier s
  raise_if (not (any (λ c. c == 58) s)) "entrypoint must use the 'module:attribute' form"

start_methods : List Text
start_methods = codes "auto" ∷ codes "spawn" ∷ codes "forkserver" ∷ []

-- `WorkerSpec.__post_init__`
pub check_spec : WorkerSpec → Result String WorkerSpec
unfolding identifier check_entrypoint start_methods
check_spec s = do
  identifier s.worker_id
  check_entrypoint s.entrypoint
  raise_if (not (any (λ m. m ≟ s.start_method) start_methods))
      "start_method must be auto, spawn or forkserver"
  raise_if (leb s.heartbeat_interval 0) "heartbeat_interval must be a finite positive number"
  raise_if (leb s.heartbeat_timeout s.heartbeat_interval)
      "heartbeat_timeout must exceed heartbeat_interval"
  raise_if (leb s.startup_timeout 0) "must be a finite positive number"
  raise_if (leb s.shutdown_timeout 0) "must be a finite positive number"
  raise_if (leb s.cancellation_grace 0) "must be a finite positive number"
  raise_if (leb s.restart_window 0) "must be a finite positive number"
  raise_if (any (λ k. length k == 0) s.environment_keys)
      "thread_environment must contain string key/value pairs"
  ok s

pub record WorkerCommand : Type 0 where
  pub command_id : Text
  pub kind : WorkerCommandKind
  pub operation : Option Text
  pub payload : Value
  pub target_command_id : Option Text

-- `if self.kind is WorkerCommandKind.EXECUTE: … elif …`
check_operation : WorkerCommandKind → Option Text → Result String (Unit {0})
unfolding identifier
check_operation execute none = err "execute commands require an operation"
check_operation execute (some s) = identifier s
check_operation kind none = ok tt
check_operation kind (some s) = err "only execute commands may define an operation"

-- `if self.kind is CANCEL and not self.target_command_id`
check_target : WorkerCommandKind → Option Text → Result String (Unit {0})
check_target cancel none = err "cancel commands require target_command_id"
check_target cancel (some s) = raise_if (length s == 0) "cancel commands require target_command_id"
check_target kind target = ok tt

-- `WorkerCommand.__post_init__`
pub check_command : WorkerCommand → Result String WorkerCommand
unfolding identifier check_operation check_target
check_command c = do
  identifier c.command_id
  check_operation c.kind c.operation
  check_target c.kind c.target_command_id
  ok c

pub record WorkerEvent : Type 0 where
  pub worker_id : Text
  pub kind : WorkerEventKind
  pub timestamp : ℕ
  pub command_id : Option Text
  pub payload : Value

-- `WorkerEvent.__post_init__`
pub check_event : WorkerEvent → Result String WorkerEvent
unfolding identifier
check_event e = do identifier e.worker_id; ok e

-- `n.to_bytes(4, "big")`
pub to_bytes : ℕ → List ℕ
to_bytes n = (n / 16777216 % 256) ∷ (n / 65536 % 256) ∷ (n / 256 % 256) ∷ (n % 256) ∷ []

-- `int.from_bytes(value, "big")`
pub from_bytes : ℕ → List ℕ → ℕ
from_bytes n [] = n
from_bytes n (b ∷ bs) = from_bytes (n * 256 + b) bs

pub data FrameError : Type 0 where
  cannot_encode too_long no_header length_mismatch bad_payload bad_envelope wrong_type bad_message :
      FrameError

-- What the frames use of msgspec for the messages of one type: `encode` and `decode` of msgpack
-- (`none` for an exception), `envelope` and `opened` for the dictionary with exactly the keys
-- `message_type` and `payload`, `to_builtins`, and `convert` with its guards.
pub record Codec (Message : Type 0) : Type 1 where
  pub Builtins : Type 0
  pub name : Text
  pub to_builtins : Message → Builtins
  pub convert : Builtins → Option Message
  pub envelope : Text → Builtins → Builtins
  pub opened : Builtins → Option (Text × Builtins)
  pub encode : Builtins → Option (List ℕ)
  pub decode : List ℕ → Option Builtins

module _ {Message : Type 0} (c : Codec Message) where
  framed : Option (List ℕ) → Result FrameError (List ℕ)
  framed none = err cannot_encode
  framed (some body) =
      if ltb max_frame_bytes (length body)
      then err too_long
      else ok (to_bytes (length body) ++ body)

  pub encode_frame : Message → Result FrameError (List ℕ)
  unfolding framed
  encode_frame m = framed (c.encode (c.envelope c.name (c.to_builtins m)))

  converted : Option Message → Result FrameError Message
  converted none = err bad_message
  converted (some m) = ok m

  unwrapped : Option (Text × c.Builtins) → Result FrameError Message
  unfolding converted
  unwrapped none = err bad_envelope
  unwrapped (some (message_type, payload)) =
      if message_type ≟ c.name then converted (c.convert payload) else err wrong_type

  decoded : Option c.Builtins → Result FrameError Message
  unfolding unwrapped
  decoded none = err bad_payload
  decoded (some value) = unwrapped (c.opened value)

  -- The body of `decode_frame` after the header of four bytes.
  checked : (declared : ℕ) → (body : List ℕ) → Result FrameError Message
  unfolding decoded
  checked declared body =
      if not (declared == length body)
      then err length_mismatch
      else (if ltb max_frame_bytes declared then err too_long else decoded (c.decode body))

  pub decode_frame : List ℕ → Result FrameError Message
  unfolding checked
  decode_frame (a ∷ b ∷ d ∷ e ∷ body) = checked (from_bytes 0 (a ∷ b ∷ d ∷ e ∷ [])) body
  decode_frame _ = err no_header
