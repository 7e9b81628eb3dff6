-- ===== src/Dispatch/Request.antt =====
-- xerv-core/src/dispatch/request.rs: the unit of work that is queued. The payload is its bytes, and
-- the clock is read by the caller, `now` in milliseconds.
use xerv.Prelude.{
  ℕ, ◌+◌, ◌-◌, ◌%◌, ◌^◌, String, Bool, Option, none, some, List, [], leb, string_eq, nat_eq, get_or,
}
use xerv.Prelude.Int.{ℤ, pos}
use xerv.HashMap
use xerv.HashMap.{HashMap}
use xerv.Ids.{PipelineId}

pub data PayloadType : Type 0 where
  json rkyv raw : PayloadType

pub record TraceRequest : Type 0 where
  pub trace_id : ℕ
  pub pipeline_id : PipelineId
  pub trigger_id : String
  pub payload : List ℕ
  pub payload_type : PayloadType
  pub created_at_ms : ℕ  -- u64
  pub priority : ℤ  -- i32
  pub attempt : ℕ  -- u32
  pub max_attempts : ℕ  -- u32
  pub metadata : HashMap String String

-- TraceRequest::new
unfoldable pub request : ℕ → ℕ → PipelineId → String → List ℕ → TraceRequest
request now trace_id pipeline_id trigger_id payload = record {
  trace_id = trace_id;
  pipeline_id = pipeline_id;
  trigger_id = trigger_id;
  payload = payload;
  payload_type = json;
  created_at_ms = now;
  priority = pos 0;
  attempt = 0;
  max_attempts = 3;
  metadata = [];
}

abbrev pub is_exhausted : TraceRequest → Bool
is_exhausted r = leb r.max_attempts r.attempt

-- `self.attempt += 1` on a u32, which wraps (a debug build panics).
abbrev pub increment_attempt : TraceRequest → TraceRequest
increment_attempt r = record r { attempt = (r.attempt + 1) % 2 ^ 32 }

-- A saturating subtraction.
abbrev pub age_ms : ℕ → TraceRequest → ℕ
age_ms now r = now - r.created_at_ms

unfoldable pub with_metadata : TraceRequest → String → String → TraceRequest
with_metadata r key value = record r { metadata = HashMap.insert r.metadata key value }

unfoldable pub get_metadata : TraceRequest → String → Option String
get_metadata r key = HashMap.get r.metadata key

pub record TraceRequestBuilder : Type 0 where
  pub pipeline_id : PipelineId
  pub trigger_id : String
  pub trace_id : Option ℕ
  pub payload : List ℕ
  pub payload_type : PayloadType
  pub priority : ℤ
  pub max_attempts : ℕ
  pub metadata : HashMap String String

-- TraceRequestBuilder::new
unfoldable pub builder : PipelineId → String → TraceRequestBuilder
builder pipeline_id trigger_id = record {
  pipeline_id = pipeline_id;
  trigger_id = trigger_id;
  trace_id = none;
  payload = [];
  payload_type = json;
  priority = pos 0;
  max_attempts = 3;
  metadata = [];
}

abbrev pub set_trace_id : TraceRequestBuilder → ℕ → TraceRequestBuilder
set_trace_id b id = record b { trace_id = some id }

-- The payload already serialized; `serde_json::to_vec` is left to the caller.
abbrev pub json_payload : TraceRequestBuilder → List ℕ → TraceRequestBuilder
json_payload b payload = record b { payload = payload; payload_type = json }

abbrev pub raw_payload : TraceRequestBuilder → List ℕ → TraceRequestBuilder
raw_payload b payload = record b { payload = payload; payload_type = raw }

abbrev pub rkyv_payload : TraceRequestBuilder → List ℕ → TraceRequestBuilder
rkyv_payload b payload = record b { payload = payload; payload_type = rkyv }

abbrev pub set_priority : TraceRequestBuilder → ℤ → TraceRequestBuilder
set_priority b priority = record b { priority = priority }

abbrev pub set_max_attempts : TraceRequestBuilder → ℕ → TraceRequestBuilder
set_max_attempts b max = record b { max_attempts = max }

unfoldable pub add_metadata : TraceRequestBuilder → String → String → TraceRequestBuilder
add_metadata b key value = record b { metadata = HashMap.insert b.metadata key value }

-- `fresh` is the identifier that `TraceId::default` generates when none was set.
unfoldable pub build : TraceRequestBuilder → ℕ → ℕ → TraceRequest
build b fresh now = record {
  trace_id = get_or b.trace_id fresh;
  pipeline_id = b.pipeline_id;
  trigger_id = b.trigger_id;
  payload = b.payload;
  payload_type = b.payload_type;
  created_at_ms = now;
  priority = b.priority;
  attempt = 0;
  max_attempts = b.max_attempts;
  metadata = b.metadata;
}
